-- ===== src/Notification.antt =====
-- services/notification: internal/notification/model.go, repository.go, service.go and
-- templates.go, and the two callbacks of cmd/api/main.go. The database, the template, the mail
-- sender and json.Unmarshal are parameters; what is written to the log is left out.
pub mod Idempotence
pub mod Once
pub mod FailedPark
pub mod Concurrent
pub mod Handlers
use go_microservice.Prelude.{
  ℕ, String, Bool, true, false, Option, none, some, List, [], ◌∷◌, ◌==◌, if◌then◌else◌,
}
use go_microservice.Prelude.Int.{ℤ, pos, ltb_ℤ}
use go_microservice.Prelude.Text.{◌⧺◌}
use go_microservice.Prelude.Strconv.{itoa}
use go_microservice.Apperror.{
  Error, Code, code_conflict, pick_pg, find_kind, is_record_not_found, app, wrap, conflict,
  not_found, internal, from, app_code, error_text,
}
use go_microservice.Effect.{Result, ok, err, Prog, pure, fail, reject, rescue, inspect, ◌>>=◌, ◌>>◌}
use go_microservice.Http.{Time, zero_time}
use go_microservice.Pagination.{Params, offset}
use go_microservice.Query.{Options, Schema, Clauses, no_clauses, column, filters, sorts}
use go_microservice.Rabbitmq.{Envelope, Handler, OnExhausted}

pub record Notification : Type 0 where
  pub id : ℤ
  pub event_id : String
  pub type : String
  pub recipient : String
  pub status : String
  pub error : String
  pub created_at : Time
  pub updated_at : Time

abbrev pub status_sent : String
status_sent = "sent"

abbrev pub status_failed : String
status_failed = "failed"

-- pkg/events/user
abbrev pub user_created : String
user_created = "user.created"

pub record UserCreatedPayload : Type 0 where
  pub id : ℤ
  pub name : String
  pub email : String

-- pkg/mailer's Message
pub record Message : Type 0 where
  pub to : String
  pub subject : String
  pub body : String

pub record WelcomeTemplateData : Type 0 where
  pub name : String

rendered_text : String × Option Error → Result String
rendered_text (text, none) = ok text
rendered_text (text, some e) = err e

-- `execute` is Execute of the welcome template: what is in the buffer, and the error.
unfoldable pub render_welcome_email :
    (WelcomeTemplateData → String × Option Error) → String → Result String
unfolding rendered_text
render_welcome_email execute name = rendered_text (execute (record { name = name }))

-- the GORM calls of the repository: an insert, a count by event_id, a fetch by primary key, and
-- the count and the page of the listing
pub record Table (W : Type 0) : Type 0 where
  pub insert : Notification → Prog W Notification
  pub count_event : String → Prog W ℤ
  pub first : ℤ → Prog W Notification
  pub count : Clauses → Prog W ℤ
  pub find : Clauses → (offset limit : ℤ) → Prog W (List Notification)

abbrev pub list_schema : Schema
list_schema =
    ("id", column "id" true false)
    ∷ ("type", column "type" true false)
    ∷ ("recipient", column "recipient" true true)
    ∷ ("status", column "status" true false)
    ∷ ("created_at", column "created_at" false false)
    ∷ ("updated_at", column "updated_at" false false)
    ∷ []

abbrev unique_violation : Option String → Bool
unique_violation none = false
unique_violation (some code) = code == "23505"

-- isUniqueViolation, the same function in both services' repositories
abbrev pub is_unique_violation : Error → Bool
is_unique_violation e = unique_violation (find_kind pick_pg e)

abbrev is_conflict : Code → Bool
is_conflict code_conflict = true
is_conflict _ = false

-- a row as the service builds it: the rest is the zero value
abbrev pub new_row : String → String → String → String → String → Notification
new_row event_id type recipient status error = record {
  id = pos 0;
  event_id = event_id;
  type = type;
  recipient = recipient;
  status = status;
  error = error;
  created_at = zero_time;
  updated_at = zero_time;
}

module _ {W : Type 0} (db : Table W) where
  insert_failed : Error → Prog W Notification
  insert_failed e =
      if is_unique_violation e
      then reject (conflict "event already processed")
      else reject (internal e)

  unfoldable pub create : Notification → Prog W Notification
  unfolding insert_failed
  create n = rescue (db.insert n) insert_failed

  unfoldable pub exists_by_event_id : String → Prog W Bool
  exists_by_event_id event_id = do
    count ← rescue (db.count_event event_id) (λ e. reject (internal e))
    pure (ltb_ℤ (pos 0) count)

  unfoldable pub get_by_id : ℤ → Prog W Notification
  get_by_id id = rescue (db.first id) (λ e.
      if is_record_not_found e
      then reject (not_found ("notification not found with id " ⧺ itoa id))
      else reject (internal e))

  -- GetAll
  unfoldable pub get_all : Params → Options → Prog W (List Notification × ℤ)
  unfolding filters sorts offset
  get_all p opts = do
    total ← rescue (db.count (filters opts no_clauses)) (λ e. reject (internal e))
    rows ←
        rescue (db.find (sorts opts (filters opts no_clauses)) (offset p) p.limit)
          (λ e. reject (internal e))
    pure (rows, total)

  -- a conflict is no error: the event was recorded before
  pub conflict_is_ok : Result Notification → Prog W (Unit {0})
  conflict_is_ok (ok n) = pure tt
  conflict_is_ok (err e) = if is_conflict (app_code (from e)) then pure tt else fail e

  unfoldable pub record_failure :
      (event_id event_type recipient reason : String) → Prog W (Unit {0})
  unfolding conflict_is_ok create
  record_failure event_id event_type recipient reason =
      inspect (create (new_row event_id event_type recipient status_failed reason)) conflict_is_ok

  -- `render` is renderWelcomeEmail, `send` is mailer.Sender's Send.
  module _ (render : String → Result String) (send : Message → Prog W (Unit {0})) where
    lift : Result String → Prog W String
    lift r w = (r, w)

    unfoldable pub notify : String → UserCreatedPayload → Prog W (Unit {0})
    unfolding lift conflict_is_ok create
    notify event_id payload = do
      body ← rescue (lift (render payload.name)) (λ e. fail (wrap "rendering welcome email" e))
      rescue (send (record { to = payload.email; subject = "Welcome!"; body = body }))
          (λ e. fail (wrap "sending welcome email" e))
      inspect (create (new_row event_id user_created payload.email status_sent "")) conflict_is_ok

    unfoldable pub handle_user_created : String → UserCreatedPayload → Prog W (Unit {0})
    handle_user_created event_id payload = do
      exists ← exists_by_event_id event_id
      if exists then pure tt else notify event_id payload

    -- main.go: handleUserCreated; `decode` is json.Unmarshal of the payload
    module _ (decode : String → Result UserCreatedPayload) where
      on_payload : Envelope → Result UserCreatedPayload → Prog W (Unit {0})
      unfolding handle_user_created
      on_payload env (err e) = fail (wrap ("decoding " ⧺ env.event_type ⧺ " payload") e)
      on_payload env (ok payload) = handle_user_created env.event_id payload

      unfoldable pub consume_event : Handler W
      unfolding on_payload
      consume_event env = on_payload env (decode env.payload)

  -- main.go: recordExhausted; `email_of` is the payload's email as far as json.Unmarshal filled it
  -- in, "" if it did not.
  unfoldable pub record_exhausted : (String → String) → OnExhausted W
  unfolding record_failure
  record_exhausted email_of = some (λ env e w.
      (record_failure env.event_id env.event_type (email_of env.payload) (error_text e) w).1)
