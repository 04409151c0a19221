-- ===== src/Rabbitmq/Topology/Loop.antt =====
-- The way round through the retry queue, read off the declarations.
use mathlib.Core.List.{List, [], ◌∷◌, ◌++◌}
use package.text.Mathlib.TextLemmas.{append-nil}
use go_microservice.Prelude.{
  String, false, ◌&&◌, ◌≡◌, ◌≢◌, refl, sym, ap, ◌∙◌, Option, none, some, ◌==◌, eq_refl,
  if◌then◌else◌,
}
use go_microservice.Prelude.Text.{append-==, ne-eq_false}
use go_microservice.Effect.{ok, Prog}
use go_microservice.Rabbitmq.{Value, text, get_entry, retry_queue_name}
use go_microservice.Rabbitmq.Topology.{
  TopologySpec, Declaration, queue_declare, queue_bind, retry_exchange, declare_consumer_topology,
}

-- A broker that takes every declaration and keeps the list.
abbrev pub keep : Declaration → Prog (List Declaration) (Unit {0})
keep d ds = (ok tt, ds ++ d ∷ [])

abbrev pub declared : TopologySpec → List Declaration
declared spec = (declare_consumer_topology keep spec []).1

-- the queues that an exchange sends a routing key to (the keys have no wildcards)
abbrev pub routed : List Declaration → String → String → List String
routed [] exchange key = []
routed (queue_bind queue k x ∷ ds) exchange key =
    let rest = routed ds exchange key in if x == exchange && k == key then queue ∷ rest else rest
routed (d ∷ ds) exchange key = routed ds exchange key

-- an argument that a queue was declared with
abbrev pub argument : List Declaration → String → String → Option Value
argument [] queue name = none
argument (queue_declare q args ∷ ds) queue name =
    let rest = argument ds queue name in if q == queue then get_entry args name else rest
argument (d ∷ ds) queue name = argument ds queue name

other_name : (q : String) → (q == retry_queue_name q) ≡ false
other_name q = ap (λ s. s == retry_queue_name q) (sym (append-nil q)) ∙ append-== q "" ".retry"

-- If the exchange is not the retry exchange of its own queue, a message with the routing key goes
-- round: the main queue dead-letters to an exchange that sends it to the retry queue alone, and the
-- retry queue dead-letters to an exchange and with a key that send it to the main queue alone.
pub declared_loop :
    (spec : TopologySpec)
    → spec.exchange ≢ retry_exchange spec
    → let ds = declared spec in
      let queue = spec.queue_name in
      let retry = retry_queue_name queue in
      (x : String) × (y : String) × (key : String) × (argument ds queue "x-dead-letter-exchange"
        ≡ some (text x))
      × (routed ds x spec.routing_key ≡ retry ∷ [])
      × (argument ds retry "x-dead-letter-exchange" ≡ some (text y))
      × (argument ds retry "x-dead-letter-routing-key" ≡ some (text key))
      × (routed ds y key ≡ queue ∷ [])
unfolding declare_consumer_topology
declared_loop spec h =
    let differ = ne-eq_false spec.exchange (retry_exchange spec) h in
    let differ' = ne-eq_false (retry_exchange spec) spec.exchange (λ e. h (sym e)) in
    (
      retry_exchange spec,
      spec.exchange,
      spec.routing_key,
      rw eq_refl refl,
      rw (differ, eq_refl, eq_refl) refl,
      rw other_name (rw eq_refl refl),
      rw other_name (rw eq_refl refl),
      rw (differ', eq_refl, eq_refl) refl,
    )
