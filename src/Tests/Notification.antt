-- ===== src/Tests/Notification.antt =====
-- services/notification over a table that is the set of its event ids.
use go_microservice.Prelude.{String, [], Bool, true, false, refl, ◌==◌, if◌then◌else◌}
use go_microservice.Prelude.Int.{pos}
use go_microservice.Apperror.{Error, foreign, pg_error, plain}
use go_microservice.Effect.{Result, ok, err, Prog}
use go_microservice.Rabbitmq.{Envelope, Delivery, Channel, empty}
use go_microservice.Notification.{Table, Message, Notification, UserCreatedPayload}
use go_microservice.Notification.Idempotence.{TableLaws}

abbrev pub Rows : Type 0
Rows = String → Bool

abbrev pub recorded : Rows → String → Bool
recorded w ev = w ev

abbrev inserted : Bool → Notification → Prog Rows Notification
inserted true n w = (err (foreign (pg_error "23505") "duplicate key"), w)
inserted false n w = (ok n, λ ev. if n.event_id == ev then true else w ev)

abbrev pub db : Table Rows
db = record {
  insert = λ n w. inserted (w n.event_id) n w;
  count_event = λ ev w. (ok (pos (if w ev then 1 else 0)), w);
  first = λ id w. (err (foreign plain "no rows"), w);
  count = λ q w. (ok (pos 0), w);
  find = λ q o l w. (ok [], w);
}

pub db_laws : TableLaws db recorded
db_laws = record {
  count_none = λ ev w e. rw e refl;
  count_some = λ ev w e. (0, rw e refl);
  insert_new = λ n w e. (n, rw e refl, λ ev. rw e refl);
  insert_again = λ n w e. ("duplicate key", rw e refl);
}

abbrev pub rows : Rows
rows ev = ev == "e1"

abbrev pub render : String → Result String
render name = ok name

abbrev pub sends : Message → Prog Rows (Unit {0})
sends m w = (ok tt, w)

abbrev smtp_down : Error
smtp_down = foreign plain "dial tcp: connection refused"

abbrev refuses : Message → Prog Rows (Unit {0})
refuses m w = (err smtp_down, w)

abbrev pub payload : UserCreatedPayload
payload = record { id = pos 7; name = "Ada"; email = "ada@x.org" }

-- A broker that takes no message.
abbrev pub channel : Channel Rows
channel = record {
  ack = λ t w. (ok tt, w);
  nack = λ t requeue w. (ok tt, w);
  publish = λ x k m w. (err (foreign plain "channel closed"), w);
}

abbrev envelope : Envelope
envelope = record {
  event_id = "e2";
  event_type = "user.created";
  payload = "{}";
  trace_id = "r1";
  timestamp = record { unix_nano = pos 0 };
  version = pos 1;
}

abbrev delivery : Delivery
delivery = record { tag = 1; headers = empty; content_type = "application/json"; body = "{}" }

abbrev redelivery : Delivery
redelivery = record delivery { tag = 2 }

abbrev decode : String → Result UserCreatedPayload
decode s = ok payload

abbrev email_of : String → String
email_of s = "ada@x.org"

abbrev unmarshal : String → Result Envelope
unmarshal s = ok envelope
