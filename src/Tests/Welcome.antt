-- ===== src/Tests/Welcome.antt =====
-- One event, from the user service's publisher to the notification service's mail.
use go_microservice.Prelude.{
  ℕ, suc, String, Bool, true, false, ◌&&◌, ◌≡◌, refl, ◌==◌, eq_iff, nat_eq, none, arith,
  if◌then◌else◌, ap, Bool-cases, inl, inr, sym, sym,
}
use go_microservice.Prelude.Int.{ℤ, pos, negsuc}
use go_microservice.Apperror.{foreign, plain}
use go_microservice.Effect.{Result, ok, err}
use go_microservice.Http.{Time, zero_time, background}
use go_microservice.Middleware.{get_request_id}
use go_microservice.Auth.{User}
use go_microservice.Users.{publish_user_created}
use go_microservice.Rabbitmq.{Envelope, Delivery, empty, handle}
use go_microservice.Rabbitmq.Publisher.{ConfirmChannel}
use go_microservice.Notification.{UserCreatedPayload, user_created, consume_event}
use go_microservice.Welcome.{Wire, Announcement, publish-Announcement, welcomed, publish-welcomes}
use go_microservice.Tests.Notification.{
  recorded, db, db_laws, rows, render, sends, payload, channel,
}

abbrev ada : User
ada = record {
  id = pos 7;
  name = "Ada";
  email = "ada@x.org";
  password = "#";
  created_at = zero_time;
  updated_at = zero_time;
}

abbrev event : Envelope
event = record {
  event_id = "e2";
  event_type = "user.created";
  payload = "{user}";
  trace_id = "";
  timestamp = record { unix_nano = pos 0 };
  version = pos 1;
}

abbrev is_int : ℕ → ℤ → Bool
is_int n (pos m) = nat_eq m n
is_int n (negsuc m) = false

is_int_sound : (n : ℕ) (z : ℤ) → is_int n z ≡ true → z ≡ pos n
is_int_sound n (pos m) h = ground arith
is_int_sound n (negsuc m) h = cc

abbrev is_event : Envelope → Bool
is_event e =
    e.event_id == "e2"
    && e.event_type == "user.created"
    && e.payload == "{user}"
    && e.trace_id == ""
    && is_int 0 (e.timestamp).unix_nano
    && is_int 1 e.version

is_event_sound : (e : Envelope) → is_event e ≡ true → e ≡ event
is_event_sound e h = ground (
  arith,
  eq_iff e.event_id "e2",
  eq_iff e.event_type "user.created",
  eq_iff e.payload "{user}",
  eq_iff e.trace_id "",
  is_int_sound 0 (e.timestamp).unix_nano,
  is_int_sound 1 e.version,
)

abbrev is_payload : UserCreatedPayload → Bool
is_payload p = is_int 7 p.id && p.name == "Ada" && p.email == "ada@x.org"

is_payload_sound : (p : UserCreatedPayload) → is_payload p ≡ true → p ≡ payload
is_payload_sound p h =
    ground (arith, eq_iff p.name "Ada", eq_iff p.email "ada@x.org", is_int_sound 7 p.id)

-- json.Marshal and json.Unmarshal on the values of this run
abbrev marshal : Envelope → Result String
marshal e = if is_event e then ok "{event}" else err (foreign plain "unused")

abbrev marshal_payload : UserCreatedPayload → Result String
marshal_payload p = if is_payload p then ok "{user}" else err (foreign plain "unused")

abbrev unmarshal : String → Result Envelope
unmarshal s = ok event

abbrev decode : String → Result UserCreatedPayload
decode s = ok payload

wire : Wire marshal unmarshal marshal_payload decode
wire = record {
  envelope = λ e s h. elim (Bool-cases (is_event e)) [
    | inl same ↦ ap (λ (x : Envelope). ok x) (sym (is_event_sound e same))
    | inr other ↦ cc (rw other at h)
  ];
  payload = λ p s h. elim (Bool-cases (is_payload p)) [
    | inl same ↦ ap (λ (x : UserCreatedPayload). ok x) (sym (is_payload_sound p same))
    | inr other ↦ cc (rw other at h)
  ];
}

abbrev confirms : ConfirmChannel ℕ
confirms = record { publish_deferred = λ x k m w. (ok 1, suc w); wait = λ n w. (ok true, w) }

abbrev mint : ℕ → String × ℕ
mint w = ("e2", w)

abbrev clock : ℕ → Time × ℕ
clock w = (record { unix_nano = pos 0 }, w)

abbrev delivery : Delivery
delivery = record { tag = 1; headers = empty; content_type = "application/json"; body = "{event}" }

published :
    (publish_user_created marshal marshal_payload confirms mint clock "events" background ada 0).0
    ≡ ok tt
unfolding publish_user_created get_request_id
published = refl

abbrev announced : Announcement marshal marshal_payload confirms mint clock "events" background ada
announced =
    publish-Announcement marshal marshal_payload confirms mint clock "events" background ada 0
      published

marshalled : (e : Envelope) (s : String) → marshal e ≡ ok s → ("{event}" ≡ s) × (e ≡ event)
marshalled e s h = elim (Bool-cases (is_event e)) [
  | inl same ↦ (cc (rw same at h), is_event_sound e same)
  | inr other ↦ cc (rw other at h)
]

carried : delivery.body ≡ (announced.confirmed).body
carried = (marshalled announced.env _ (announced.confirmed).marshalled).0

fresh_event : recorded rows (announced.env).event_id ≡ false
fresh_event =
    ap (λ (e : Envelope). recorded rows e.event_id)
      (marshalled announced.env _ (announced.confirmed).marshalled).1

publish-welcomes_example :
    ((announced.env).event_type ≡ user_created)
    × ((announced.env).trace_id ≡ get_request_id background)
    × (handle channel "mail"
          (pos 3)
          (consume_event db render sends decode)
          none
          unmarshal
          delivery
          rows
        ≡ welcomed channel "mail"
            (pos 3)
            none
            unmarshal
            db
            recorded
            db_laws
            render
            sends
            decode
            announced.env
            ada
            "Ada"
            delivery
            rows)
publish-welcomes_example =
    publish-welcomes channel "mail" (pos 3) none unmarshal db recorded db_laws render sends decode
      marshal marshal_payload wire confirms mint clock "events" background ada 0 published delivery
      rows "Ada" carried fresh_event refl refl
