-- ===== src/Rabbitmq/Topology.antt =====
-- pkg/messaging/rabbitmq/topology.go. The channel is a parameter.
pub mod Loop
use go_microservice.Prelude.{String}
use go_microservice.Prelude.Int.{ℤ, pos, ◌/ℤ◌}
use go_microservice.Prelude.Text.{◌⧺◌}
use go_microservice.Apperror.{wrap}
use go_microservice.Effect.{Prog, pure, fail, rescue, ◌>>◌}
use go_microservice.Rabbitmq.{Table, empty, entry, text, int, retry_queue_name, dlq_queue_name}

pub record TopologySpec : Type 0 where
  pub exchange : String
  pub routing_key : String
  pub queue_name : String
  pub retry_ttl : ℤ
  pub max_retries : ℤ

-- The code declares only durable topic exchanges and durable queues; the other flags are false.
pub data Declaration : Type 0 where
  exchange_declare : (name : String) → Declaration
  queue_declare : (name : String) → Table → Declaration
  queue_bind : (name key exchange : String) → Declaration

abbrev pub retry_exchange : TopologySpec → String
retry_exchange spec = spec.queue_name ⧺ ".retry.exchange"

abbrev pub main_args : TopologySpec → Table
main_args spec = entry "x-dead-letter-exchange" (text (retry_exchange spec)) empty

-- time.Millisecond is 1000000 nanoseconds.
abbrev pub retry_args : TopologySpec → Table
retry_args spec = entry "x-message-ttl" (int (spec.retry_ttl /ℤ pos 1000000)) (
    entry "x-dead-letter-exchange" (text spec.exchange)
      (entry "x-dead-letter-routing-key" (text spec.routing_key) empty))

module _ {W : Type 0} (declare : Declaration → Prog W (Unit {0})) where
  step : String → Declaration → Prog W (Unit {0})
  step what d = rescue (declare d) (λ e. fail (wrap what e))

  unfoldable pub declare_consumer_topology : TopologySpec → Prog W (Unit {0})
  unfolding step
  declare_consumer_topology spec =
      let main = spec.queue_name in
      let retry = retry_queue_name main in
      let dlq = dlq_queue_name main in
      do
        step ("declaring exchange " ⧺ spec.exchange) (exchange_declare spec.exchange)
        step ("declaring retry exchange " ⧺ retry_exchange spec)
            (exchange_declare (retry_exchange spec))
        step ("declaring queue " ⧺ main) (queue_declare main (main_args spec))
        step ("binding queue " ⧺ main ⧺ " to " ⧺ spec.exchange)
            (queue_bind main spec.routing_key spec.exchange)
        step ("declaring retry queue " ⧺ retry) (queue_declare retry (retry_args spec))
        step ("binding retry queue " ⧺ retry ⧺ " to " ⧺ retry_exchange spec)
            (queue_bind retry spec.routing_key (retry_exchange spec))
        step ("declaring dlq " ⧺ dlq) (queue_declare dlq empty)
        pure tt
