-- ===== src/Users.antt =====
-- services/user/internal/user: dto.go, model.go, repository.go and service.go, and the event
-- publisher of internal/platform/messaging. GORM's calls, json.Marshal, the uuid source and the
-- clock are parameters; what is written to the log is left out.
pub mod Rpc
pub mod Creation
pub mod Updates
pub mod Transport
pub mod Handlers
use go_microservice.Prelude.{
  String, Bool, true, false, List, [], ◌∷◌, Option, none, some, ◌==◌, nat_eq, if◌then◌else◌,
}
use go_microservice.Prelude.Int.{ℤ, pos, negsuc, ltb_ℤ}
use go_microservice.Prelude.Text.{◌⧺◌}
use go_microservice.Prelude.Strconv.{itoa}
use go_microservice.Apperror.{Error, AppError, is_record_not_found, conflict, not_found, internal}
use go_microservice.Effect.{Result, ok, err, Prog, pure, fail, reject, rescue, inspect, ◌>>=◌, ◌>>◌}
use go_microservice.Http.{Time, zero_time, Context}
use go_microservice.Auth.{User}
use go_microservice.Pagination.{Params, offset}
use go_microservice.Query.{no_clauses, column, Options, Schema, FieldSpec, Clauses, filters, sorts}
use go_microservice.Notification.{is_unique_violation, UserCreatedPayload, user_created}
use go_microservice.Rabbitmq.{Envelope}
use go_microservice.Rabbitmq.Channels.{Amqp, Publisher, new_publisher, declare_exchange}
use go_microservice.Rabbitmq.Publisher.{ConfirmChannel, new_envelope, publish}

pub record CreateUserRequest : Type 0 where
  pub name : String
  pub email : String

-- the adapter that publishes the service's events; its field is named pub in the source
pub record EventPublisher (C : Type 0) : Type 0 where
  pub publisher : Publisher C
  pub exchange : String

pub record UpdateUserRequest : Type 0 where
  pub name : String
  pub email : String

abbrev pub list_schema : Schema
list_schema =
    ("id", column "id" true false)
    ∷ ("name", column "name" true true)
    ∷ ("email", column "email" true true)
    ∷ ("created_at", column "created_at" false false)
    ∷ ("updated_at", column "updated_at" false false)
    ∷ []

-- The GORM calls on the users table: `insert` gives back the row as Create filled it in, `updates`
-- what Updates left in its argument and the rows affected, and `transaction` is db.Transaction of
-- a function that leaves its user in a variable of the caller.
pub record Db (W : Type 0) : Type 0 where
  pub count : Clauses → Prog W ℤ
  pub find : Clauses → (offset limit : ℤ) → Prog W (List User)
  pub first : ℤ → Prog W User
  pub first_by_email : String → Prog W User
  pub count_email : String → Prog W ℤ
  pub insert : User → Prog W User
  pub updates : ℤ → User → Prog W (User × ℤ)
  pub delete : ℤ → Prog W ℤ
  pub transaction : Prog W User → Prog W User

abbrev pub unknown_id : ℤ → AppError
unknown_id id = not_found ("user not found with id " ⧺ itoa id)

abbrev pub new_user : String → String → String → User
new_user name email password = record {
  id = pos 0;
  name = name;
  email = email;
  password = password;
  created_at = zero_time;
  updated_at = zero_time;
}

abbrev pub replaced : UpdateUserRequest → User → User
replaced req u = record u { name = req.name; email = req.email }

module _ {W : Type 0} where
  as_internal : {A : Type 0} → Error → Prog W A
  as_internal e = reject (internal e)

  -- a fetch that found no row, or failed
  unfetched : AppError → Error → Prog W User
  unfetched missing e = if is_record_not_found e then reject missing else reject (internal e)

  -- an insert or an update that failed
  unwritten : {A : Type 0} → Error → Prog W A
  unwritten e =
      if is_unique_violation e
      then reject (conflict "email already exists")
      else reject (internal e)

  if_affected : {A : Type 0} → ℤ → A → ℤ → Prog W A
  if_affected id a (pos n) = if nat_eq n 0 then reject (unknown_id id) else pure a
  if_affected id a (negsuc n) = pure a

  -- UserRepository
  module _ (db : Db W) where
    unfoldable pub get_all : Params → Options → Prog W (List User × ℤ)
    unfolding as_internal filters sorts offset
    get_all p opts = do
      total ← rescue (db.count (filters opts no_clauses)) as_internal
      users ← rescue (db.find (sorts opts (filters opts no_clauses)) (offset p) p.limit) as_internal
      pure (users, total)

    unfoldable pub get_by_id : ℤ → Prog W User
    unfolding unfetched
    get_by_id id = rescue (db.first id) (unfetched (unknown_id id))

    unfoldable pub insert_user : User → Prog W User
    unfolding unwritten
    insert_user u = rescue (db.insert u) unwritten

    unfoldable pub update_user : ℤ → User → Prog W User
    unfolding unwritten if_affected
    update_user id u = do (u', rows) ← rescue (db.updates id u) unwritten; if_affected id u' rows

    unfoldable pub delete_user : ℤ → Prog W (Unit {0})
    unfolding as_internal if_affected
    delete_user id = do rows ← rescue (db.delete id) as_internal; if_affected id tt rows

    unfoldable pub exists_by_email : String → Prog W Bool
    unfolding as_internal
    exists_by_email email = do
      count ← rescue (db.count_email email) as_internal
      pure (ltb_ℤ (pos 0) count)

    unfoldable pub get_by_email : String → Prog W User
    unfolding unfetched
    get_by_email email = rescue (db.first_by_email email) (unfetched (not_found "user not found"))

  -- EventPublisher
  module _ {Q C : Type 0} (amqp : Amqp W Q C) where
    unfoldable pub new_event_publisher : Q → String → Prog W (EventPublisher C)
    unfolding new_publisher declare_exchange
    new_event_publisher conn exchange = do
      publisher ← new_publisher amqp conn
      declare_exchange amqp publisher exchange
      pure (record { publisher = publisher; exchange = exchange })

  module _ (marshal : Envelope → Result String)
      (marshal_payload : UserCreatedPayload → Result String) (ch : ConfirmChannel W)
      (new_uuid : W → String × W) (now : W → Time × W) (exchange : String) where
    unfoldable pub publish_user_created : Context → User → Prog W (Unit {0})
    unfolding new_envelope publish
    publish_user_created ctx u = do
      env ←
          new_envelope new_uuid now ctx user_created
            (marshal_payload (record { id = u.id; name = u.name; email = u.email }))
      publish marshal ch exchange user_created env

  -- UserService
  module _ (db : Db W) (publish_created : User → Prog W (Unit {0})) where
    -- a publish that fails is only logged
    unfoldable pub create : User → Prog W User
    unfolding insert_user
    create u = do created ← insert_user db u; inspect (publish_created created) (λ _. pure created)

    unfoldable pub create_user : CreateUserRequest → Prog W User
    unfolding create exists_by_email
    create_user req = do
      exists ← exists_by_email db req.email
      if exists
          then reject (conflict "email already exists")
          else create (new_user req.name req.email "")

    unfoldable pub create_with_password : (name email password : String) → Prog W User
    unfolding create
    create_with_password name email password = create (new_user name email password)

  -- the test of a changed email in Update
  check_email : Db W → UpdateUserRequest → User → Prog W (Unit {0})
  unfolding exists_by_email
  check_email db req u = if req.email == u.email then pure tt else do
    exists ← exists_by_email db req.email
    if exists then reject (conflict "email already exists") else pure tt

  -- the function that Update runs in a transaction
  unfoldable pub update_in_tx : Db W → ℤ → UpdateUserRequest → Prog W User
  unfolding check_email get_by_id update_user
  update_in_tx db id req = do
    u ← get_by_id db id
    check_email db req u
    update_user db id (replaced req u)

  -- WithTx: the repository that the function is given works on the transaction's connection
  unfoldable pub with_tx : Db W → (Db W → Prog W User) → Prog W User
  with_tx db fn = db.transaction (fn db)

  unfoldable pub update : Db W → ℤ → UpdateUserRequest → Prog W User
  unfolding update_in_tx with_tx
  update db id req = with_tx db (λ tx. update_in_tx tx id req)
