-- ===== src/Welcome.antt =====
-- From services/user's event to services/notification's mail: what PublishUserCreated puts on the
-- wire, and what the consumer makes of it. The JSON library is a parameter on both sides.
use go_microservice.Prelude.{String, Bool, false, ◌≡◌, refl, ap, ◌∙◌}
use go_microservice.Prelude.Int.{ℤ, pos}
use go_microservice.Effect.{Result, ok, err, Prog, continue}
use go_microservice.Http.{Time, Context}
use go_microservice.Middleware.{get_request_id}
use go_microservice.Auth.{User}
use go_microservice.Users.{publish_user_created}
use go_microservice.Rabbitmq.{Envelope, Delivery, Channel, Handler, OnExhausted, handle}
use go_microservice.Rabbitmq.Publisher.{
  ConfirmChannel, Confirmed, new_envelope, publish, publish-ok_iff,
}
use go_microservice.Notification.{
  Table, Message, UserCreatedPayload, new_row, user_created, status_sent, handle_user_created,
  consume_event,
}
use go_microservice.Notification.Idempotence.{
  TableLaws, create_row, exists-recorded, notify_sent, recorded-create_row,
}

abbrev pub payload_of : User → UserCreatedPayload
payload_of u = record { id = u.id; name = u.name; email = u.email }

abbrev pub mail_to : User → String → Message
mail_to u text = record { to = u.email; subject = "Welcome!"; body = text }

-- What json.Marshal wrote, json.Unmarshal reads back.
pub record Wire (marshal : Envelope → Result String) (unmarshal : String → Result Envelope)
    (marshal_payload : UserCreatedPayload → Result String)
    (decode : String → Result UserCreatedPayload) : Type 0 where
  pub envelope : (env : Envelope) (s : String) → marshal env ≡ ok s → unmarshal s ≡ ok env
  pub payload : (p : UserCreatedPayload) (s : String) → marshal_payload p ≡ ok s → decode s ≡ ok p

module _ {W : Type 0} (marshal : Envelope → Result String)
    (marshal_payload : UserCreatedPayload → Result String) (ch : ConfirmChannel W)
    (new_uuid : W → String × W) (now : W → Time × W) (exchange : String) (ctx : Context)
    (u : User) where
  -- the event of `u` that the broker took and confirmed
  pub record Announcement : Type 0 where
    pub env : Envelope
    pub before : W
    pub confirmed : Confirmed marshal ch exchange user_created env before
    pub type : env.event_type ≡ user_created
    pub trace : env.trace_id ≡ get_request_id ctx
    pub payload : marshal_payload (payload_of u) ≡ ok env.payload

  pub publish-Announcement :
      (w : W)
      → (publish_user_created marshal marshal_payload ch new_uuid now exchange ctx u w).0 ≡ ok tt
      → Announcement
  unfolding publish_user_created new_envelope
  publish-Announcement w h = go (marshal_payload (payload_of u)) refl h
    where
      go :
          (m : Result String)
          → marshal_payload (payload_of u) ≡ m
          → (continue
              (new_envelope new_uuid now ctx user_created m w)
              (publish marshal ch exchange user_created)).0
            ≡ ok tt
          → Announcement
      go (err e) k done = cc
      go (ok raw) k done =
          let id = new_uuid w in
          let t = now id.1 in
          let env : Envelope = record {
            event_id = id.0;
            event_type = user_created;
            payload = raw;
            trace_id = get_request_id ctx;
            timestamp = t.0;
            version = pos 1;
          } in
          record {
            env = env;
            before = t.1;
            confirmed = (publish-ok_iff marshal ch exchange user_created env t.1).0 done;
            type = refl;
            trace = refl;
            payload = k;
          }

-- the notification service, and a delivery of what was published
module _ {V : Type 0} (chan : Channel V) (queue : String) (max_retries : ℤ)
    (on_exhausted : OnExhausted V) (unmarshal : String → Result Envelope) (db : Table V)
    (recorded : V → String → Bool) (law : TableLaws db recorded) (render : String → Result String)
    (send : Message → Prog V (Unit {0})) (decode : String → Result UserCreatedPayload) where
  -- the row of the event
  abbrev pub recorded_row : Envelope → User → V → Result (Unit {0}) × V
  recorded_row env u v =
      create_row db recorded law (new_row env.event_id user_created u.email status_sent "") v

  -- the mail for `u`, the row of its event, and the acknowledgement
  abbrev pub welcomed : Envelope → User → String → Delivery → V → V
  welcomed env u text d v = (chan.ack d.tag (recorded_row env u (send (mail_to u text) v).1).1).1

  consume_event-welcomes :
      (env : Envelope) (u : User) (text : String) (v : V)
      → decode env.payload ≡ ok (payload_of u)
      → recorded v env.event_id ≡ false
      → render u.name ≡ ok text
      → (send (mail_to u text) v).0 ≡ ok tt
      → consume_event db render send decode env v
        ≡ (ok tt, (recorded_row env u (send (mail_to u text) v).1).1)
  unfolding consume_event handle_user_created
  consume_event-welcomes env u text v payload new rendered sent =
      rw (payload, exists-recorded db recorded law env.event_id v, new)
        (notify_sent db recorded law render send env.event_id (payload_of u) v text rendered sent
          ∙ ap (λ (r : Result (Unit {0})). (r, (recorded_row env u (send (mail_to u text) v).1).1))
              (recorded-create_row db recorded law _ (send (mail_to u text) v).1).0)

  handle-acks :
      (h : Handler V) (env : Envelope) (d : Delivery) (v v' : V)
      → unmarshal d.body ≡ ok env
      → h env v ≡ (ok tt, v')
      → handle chan queue max_retries h on_exhausted unmarshal d v ≡ (chan.ack d.tag v').1
  unfolding handle
  handle-acks h env d v v' envelope ran = rw (envelope, ran) refl

  module _ {W : Type 0} (marshal : Envelope → Result String)
      (marshal_payload : UserCreatedPayload → Result String)
      (wire : Wire marshal unmarshal marshal_payload decode) (ch : ConfirmChannel W)
      (new_uuid : W → String × W) (now : W → Time × W) (exchange : String) (ctx : Context)
      (u : User) where
    -- If JSON is read back as it was written, then a PublishUserCreated that returns no error means
    -- that the broker confirmed a message for routing key user.created with the request's id; and
    -- the consumer that is handed that message, with an audit table whose database answers and has
    -- no row of the event, a template that renders and a mail server that accepts, sends the mail
    -- to the user's address, writes the row of the event, with that address and the status sent,
    -- and acknowledges the delivery.
    pub publish-welcomes :
        (w : W)
        (h : (publish_user_created marshal marshal_payload ch new_uuid now exchange ctx u w).0
          ≡ ok tt)
        (d : Delivery) (v : V) (text : String)
        → let a = publish-Announcement marshal marshal_payload ch new_uuid now exchange ctx u w h in
          d.body ≡ (a.confirmed).body
          → recorded v (a.env).event_id ≡ false
          → render u.name ≡ ok text
          → (send (mail_to u text) v).0 ≡ ok tt
          → ((a.env).event_type ≡ user_created)
            × ((a.env).trace_id ≡ get_request_id ctx)
            × (handle chan queue max_retries
                  (consume_event db render send decode)
                  on_exhausted
                  unmarshal
                  d
                  v
                ≡ welcomed a.env u text d v)
    publish-welcomes w h d v text same new rendered sent =
        let a = publish-Announcement marshal marshal_payload ch new_uuid now exchange ctx u w h in
        (
          a.type,
          a.trace,
          handle-acks (consume_event db render send decode) a.env d v _
              (rw same (wire.envelope a.env _ (a.confirmed).marshalled))
              (consume_event-welcomes a.env u text v (wire.payload _ _ a.payload) new rendered
                sent),
        )
