-- ===== src/Rabbitmq.antt =====
-- pkg/messaging/rabbitmq/envelope.go and consumer.go. The AMQP channel, json.Unmarshal and the
-- callbacks are parameters; what the consumer writes to the log is left out.
pub mod Topology
pub mod Channels
pub mod Publisher
pub mod Settlement
pub mod Retries
pub mod Lifecycle
use go_microservice.Prelude.{
  ℕ, String, Bool, true, false, List, [], ◌∷◌, Option, none, some, ◌==◌, if◌then◌else◌,
}
use go_microservice.Prelude.Int.{ℤ, pos, ltb_ℤ}
use go_microservice.Prelude.Text.{◌⧺◌}
use go_microservice.Apperror.{Error}
use go_microservice.Effect.{Result, ok, err, Prog}
use go_microservice.Http.{Time}

pub record Envelope : Type 0 where
  pub event_id : String
  pub event_type : String
  pub payload : String
  pub trace_id : String
  pub timestamp : Time
  pub version : ℤ

-- amqp.Table and the values that it holds
mutual
  pub data Value : Type 0 where
    text : String → Value
    int64 int32 int : ℤ → Value
    table : Table → Value
    array : Values → Value
    other : Value

  pub data Table : Type 0 where
    empty : Table
    entry : String → Value → Table → Table

  pub data Values : Type 0 where
    no_value : Values
    value : Value → Values → Values

pub record Delivery : Type 0 where
  pub tag : ℕ
  pub headers : Table
  pub content_type : String
  pub body : String

pub record Publishing : Type 0 where
  pub content_type : String
  pub persistent : Bool
  pub message_id : String
  pub timestamp : Time
  pub event_type : String
  pub body : String

-- `nack tag requeue` and `publish exchange key` as the consumer calls them
pub record Channel (W : Type 0) : Type 0 where
  pub ack : ℕ → Prog W (Unit {0})
  pub nack : ℕ → Bool → Prog W (Unit {0})
  pub publish : String → String → Publishing → Prog W (Unit {0})

abbrev pub retry_queue_name : String → String
retry_queue_name queue = queue ⧺ ".retry"

abbrev pub dlq_queue_name : String → String
dlq_queue_name queue = queue ⧺ ".dlq"

abbrev pub get_entry : Table → String → Option Value
get_entry empty k = none
get_entry (entry j v t) k = if j == k then some v else get_entry t k

-- `s, _ := v.(string)`
abbrev as_text : Option Value → String
as_text (some (text s)) = s
as_text _ = ""

-- the type switch on the count
abbrev as_count : Option Value → Option ℤ
as_count (some (int64 n)) = some n
as_count (some (int32 n)) = some n
as_count (some (int n)) = some n
as_count _ = none

-- one entry of the x-death list: `none` goes on to the next one
death_count : String → Value → Option ℤ
death_count retry_queue (table death) =
    if as_text (get_entry death "queue") == retry_queue
    then as_count (get_entry death "count")
    else none
death_count retry_queue _ = none

first_count : Option ℤ → ℤ → ℤ
first_count none rest = rest
first_count (some n) rest = n

count_deaths : String → Values → ℤ
unfolding death_count first_count
count_deaths retry_queue no_value = pos 0
count_deaths retry_queue (value v vs) =
    first_count (death_count retry_queue v) (count_deaths retry_queue vs)

deaths_of : String → Option Value → ℤ
deaths_of retry_queue (some (array vs)) = count_deaths retry_queue vs
deaths_of retry_queue _ = pos 0

unfoldable pub retries_so_far : Delivery → String → ℤ
unfolding count_deaths deaths_of
retries_so_far d retry_queue = deaths_of retry_queue (get_entry d.headers "x-death")

abbrev pub Handler : Type 0 → Type 0
Handler W = Envelope → Prog W (Unit {0})

-- `nil`, or the callback
abbrev pub OnExhausted : Type 0 → Type 0
OnExhausted W = Option (Envelope → Error → W → W)

abbrev pub parked : Delivery → Envelope → Publishing
parked d env = record {
  content_type = d.content_type;
  persistent = true;
  message_id = env.event_id;
  timestamp = env.timestamp;
  event_type = env.event_type;
  body = d.body;
}

abbrev pub call_exhausted : {W : Type 0} → OnExhausted W → Envelope → Error → W → W
call_exhausted none env e w = w
call_exhausted (some f) env e w = f env e w

module _ {W : Type 0} (ch : Channel W) (queue : String) where
  after_park : Delivery → Result (Unit {0}) × W → W
  after_park d (err e, w) = (ch.nack d.tag true w).1
  after_park d (ok u, w) = (ch.ack d.tag w).1

  pub park : Delivery → Envelope → W → W
  unfolding after_park
  park d env w = after_park d (ch.publish "" (dlq_queue_name queue) (parked d env) w)

  module _ (max_retries : ℤ) (h : Handler W) (on_exhausted : OnExhausted W) where
    after_handler : Delivery → Envelope → Result (Unit {0}) × W → W
    unfolding park
    after_handler d env (ok u, w) = (ch.ack d.tag w).1
    after_handler d env (err e, w) =
        if ltb_ℤ (retries_so_far d (retry_queue_name queue)) max_retries
        then (ch.nack d.tag false w).1
        else park d env (call_exhausted on_exhausted env e w)

    handle_decoded : Delivery → Result Envelope → W → W
    unfolding after_handler
    handle_decoded d (err e) w = (ch.ack d.tag w).1
    handle_decoded d (ok env) w = after_handler d env (h env w)

    module _ (unmarshal : String → Result Envelope) where
      unfoldable pub handle : Delivery → W → W
      unfolding handle_decoded
      handle d w = handle_decoded d (unmarshal d.body) w

      -- The loop of Consume, over the deliveries that come before the context is cancelled or the
      -- channel closes.
      pub consume : List Delivery → W → W
      consume [] w = w
      consume (d ∷ ds) w = consume ds (handle d w)
