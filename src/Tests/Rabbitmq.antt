-- ===== src/Tests/Rabbitmq.antt =====
-- pkg/messaging/rabbitmq against brokers that count what they are told.
use go_microservice.Prelude.{
  ℕ, suc, String, true, some, ◌≡◌, ◌≢◌, [], ◌∷◌, eq_iff, refl, arith, none,
}
use go_microservice.Prelude.Int.{pos, ◌+ℤ◌}
use go_microservice.Apperror.{Error, foreign, plain}
use go_microservice.Effect.{Result, ok, err}
use go_microservice.Rabbitmq.{
  Envelope, Delivery, Channel, Handler, empty, entry, text, int64, table, array, no_value, value,
  handle, retries_so_far,
}
use go_microservice.Rabbitmq.Publisher.{ConfirmChannel}
use go_microservice.Rabbitmq.Topology.{TopologySpec, retry_exchange}
use go_microservice.Rabbitmq.Topology.Loop.{declared, routed, argument, declared_loop}
use go_microservice.Rabbitmq.Settlement.{CountsSettlements, handle-settles_once}
use go_microservice.Rabbitmq.Retries.{FailsForever, cycles}

-- how often the handler was called, and how many copies the dead-letter queue has
pub record Counts : Type 0 where
  pub calls : ℕ
  pub copies : ℕ
  pub settled : ℕ

abbrev pub envelope : Envelope
envelope = record {
  event_id = "e1";
  event_type = "user.created";
  payload = "{}";
  trace_id = "r1";
  timestamp = record { unix_nano = pos 0 };
  version = pos 1;
}

abbrev settle : Counts → Counts
settle w = record w { settled = suc w.settled }

abbrev channel : Channel Counts
channel = record {
  ack = λ t w. (ok tt, settle w);
  nack = λ t requeue w. (ok tt, settle w);
  publish = λ x k m w. (ok tt, record w { copies = suc w.copies });
}

abbrev pub broken : Error
broken = foreign plain "broken"

abbrev handler : Handler Counts
handler env w = (err broken, record w { calls = suc w.calls })

abbrev pub unmarshal : String → Result Envelope
unmarshal s = ok envelope

abbrev pub delivery : Delivery
delivery = record { tag = 1; headers = empty; content_type = "application/json"; body = "{}" }

abbrev start : Counts
start = record { calls = 0; copies = 0; settled = 0 }

settled_laws : CountsSettlements channel handler none (λ t w. w.settled)
settled_laws = record {
  ack = λ t w. refl;
  nack = λ t requeue w. refl;
  publish = λ t x k p w. refl;
  handler = λ t env w. refl;
  exhausted = λ t env e w. refl;
}

handle-settles_once_example :
    (handle channel "mail" (pos 3) handler none unmarshal delivery start).settled ≡ 1
handle-settles_once_example =
    handle-settles_once channel "mail" (pos 3) handler none (λ t w. w.settled) settled_laws
      unmarshal delivery start

-- a cycle through the retry queue
abbrev pub redeliver : Delivery → Delivery
redeliver d =
    let deaths = retries_so_far d "mail.retry" in
    let death =
      table (entry "queue" (text "mail.retry") (entry "count" (int64 (deaths +ℤ pos 1)) empty)) in
    record d { headers = entry "x-death" (array (value death no_value)) d.headers }

pub counted :
    (d : Delivery) (r : ℕ)
    → retries_so_far d "mail.retry" ≡ pos r
    → retries_so_far (redeliver d) "mail.retry" ≡ pos (suc r)
unfolding retries_so_far
counted d r e = ground (arith, e)

failing_laws :
    FailsForever channel "mail" handler none redeliver envelope (λ w. w.calls) (λ w. w.copies)
failing_laws = record {
  failure = λ w. broken;
  fails = λ w. refl;
  body = λ d. refl;
  counted = counted;
  taken = λ p w. refl;
  calls_handler = λ w. refl;
  calls_ack = λ t w. refl;
  calls_nack = λ t w. refl;
  calls_publish = λ p w. refl;
  calls_exhausted = λ e w. refl;
  copies_handler = λ w. refl;
  copies_ack = λ t w. refl;
  copies_nack = λ t w. refl;
  copies_publish = λ p w. refl;
  copies_exhausted = λ e w. refl;
}

pub never_retried : retries_so_far delivery "mail.retry" ≡ pos 0
unfolding retries_so_far
never_retried = refl

abbrev third : Delivery × Counts
third =
    cycles channel "mail" 3 handler none unmarshal redeliver envelope (λ w. w.calls) (λ w. w.copies)
      failing_laws 3 delivery start

-- A broker that confirms every message.
abbrev confirms : ConfirmChannel Counts
confirms = record {
  publish_deferred = λ x k m w. (ok 5, record w { copies = suc w.copies });
  wait = λ n w. (ok true, w);
}

abbrev spec : TopologySpec
spec = record {
  exchange = "domain_events";
  routing_key = "user.created";
  queue_name = "notification.user_created";
  retry_ttl = pos 30000000000;
  max_retries = pos 3;
}

other_exchange : spec.exchange ≢ retry_exchange spec
other_exchange e = cc ((eq_iff "domain_events" (retry_exchange spec)).1 e)

declared_loop_example :
    let ds = declared spec in
    (x : String) × (y : String) × (key : String) × (argument ds "notification.user_created"
        "x-dead-letter-exchange"
      ≡ some (text x))
    × (routed ds x "user.created" ≡ "notification.user_created.retry" ∷ [])
    × (argument ds "notification.user_created.retry" "x-dead-letter-exchange" ≡ some (text y))
    × (argument ds "notification.user_created.retry" "x-dead-letter-routing-key" ≡ some (text key))
    × (routed ds y key ≡ "notification.user_created" ∷ [])
declared_loop_example = declared_loop spec other_exchange
