-- ===== src/Auth/Account.antt =====
-- services/auth over services/user, through the gRPC client and the interceptors and the server of
-- services/user/cmd/api/main.go, down to the users table.
pub mod Directory
pub mod Login
use go_microservice.Prelude.{
  String, true, false, ◌≡◌, refl, ◌∙◌, List, [], Option, none, some, ◌==◌, eq_refl, if◌then◌else◌,
  arith,
}
use go_microservice.Prelude.Int.{pos}
use go_microservice.Apperror.{
  Error, GrpcCode, grpc_invalid_argument, error_text, invalid_input, foreign, pg_error, app,
  conflict, from, as_app, find_kind, is_some,
}
use go_microservice.Effect.{Result, ok, err, Prog}
use go_microservice.Grpc.{
  RpcContext, Outcome, answered, panicked, Served, UnaryHandler, server_chain, request_id, logger,
  recovery, validation, valid, recovered, completed, request_id_from_incoming,
}
use go_microservice.Http.{Time}
use go_microservice.Users.{Db, new_user, exists_by_email, get_by_email, create_with_password}
use go_microservice.Users.Rpc.{UserServiceRpc, server, client, to_proto, from_proto}
use go_microservice.Auth.{
  User, UserLookup, Service, RegisterDto, LoginDto, check_password, register, login,
  issue_token_pair, invalid_credentials,
}

-- The users table while the database answers: `row w email` is the row with that email, which the
-- UNIQUE constraint keeps single.
pub record UserTableLaws {W : Type 0} (db : Db W) (row : W → String → Option User) : Type 0 where
  pub count_none :
      (email : String) (w : W) → row w email ≡ none → db.count_email email w ≡ (ok (pos 0), w)
  pub count_some :
      (email : String) (u : User) (w : W)
      → row w email ≡ some u
      → db.count_email email w ≡ (ok (pos 1), w)
  pub first_some :
      (email : String) (u : User) (w : W)
      → row w email ≡ some u
      → db.first_by_email email w ≡ (ok u, w)
  pub insert_new :
      (u : User) (w : W)
      → row w u.email ≡ none
      → (m : User) × (w' : W) × (db.insert u w ≡ (ok m, w'))
        × (m.name ≡ u.name)
        × (m.email ≡ u.email)
        × (m.password ≡ u.password)
        × ((email : String) → row w' email ≡ (if u.email == email then some m else row w email))
  pub insert_again :
      (u old : User) (w : W)
      → row w u.email ≡ some old
      → (text : String) × (db.insert u w ≡ (err (foreign (pg_error "23505") text), w))

abbrev pub taken : Error
taken = app (conflict "email already exists")

pub record CreateRequest : Type 0 where
  pub name : String
  pub email : String
  pub password : String

-- The two services as they are deployed: `auth`'s own calls, but for the user service, and the user
-- service's database, publisher and libraries. `incoming` is the context of a call as the client's
-- interceptors and the network hand it to the server, the checks are protovalidate.Validate of the
-- three requests, and `lost` is what a client sees of a server that is gone.
pub record Deployment (W : Type 0) : Type 0 where
  pub auth : Service W
  pub db : Db W
  pub publish : User → Prog W (Unit {0})
  pub format : Time → String
  pub parse : String → Option Time
  pub status_error : GrpcCode → String → Error
  pub from_error : Error → Option (GrpcCode × String)
  pub incoming : RpcContext
  pub new_uuid : W → String × W
  pub status_code : Error → GrpcCode
  pub check_exists : String → Option Error
  pub check_get : String → Option Error
  pub check_create : CreateRequest → Option Error
  pub lost : Error

-- a method of the server as grpc's handler
abbrev handled : {W A B : Type 0} → (A → Prog W B) → UnaryHandler W A B
handled m ctx req s = (answered (m req s.world).0, record s { world = (m req s.world).1 })

abbrev replied : {W B : Type 0} → Error → Outcome B × Served W → Result B × W
replied lost (answered r, s) = (r, s.world)
replied lost (panicked v, s) = (err lost, s.world)

module _ {W : Type 0} (d : Deployment W) where
  -- one call, through the interceptors of the user service's server
  call : {A B : Type 0} → String → (A → Option Error) → (A → Prog W B) → A → Prog W B
  unfolding server_chain
  call method check m req w = replied d.lost (
      server_chain method d.new_uuid d.status_code d.status_error check (handled m) d.incoming req
        (record { world = w; log = [] }))

  -- the user service's server, behind its interceptors
  unfoldable pub intercepted : UserServiceRpc W → UserServiceRpc W
  unfolding call
  intercepted rpc = record {
    exists_by_email = call "/user.UserService/ExistsByEmail" d.check_exists rpc.exists_by_email;
    get_by_email = call "/user.UserService/GetByEmail" d.check_get rpc.get_by_email;
    create = λ name email password.
        call "/user.UserService/Create" d.check_create (λ r. rpc.create r.name r.email r.password)
          (record { name = name; email = email; password = password });
  }

-- auth, whose user service is this one, with a network that delivers every call
abbrev pub joined : {W : Type 0} → Deployment W → Service W
joined d = record (d.auth) {
  repo =
      client (intercepted d (server d.db d.publish d.format d.parse d.status_error)) d.format
        d.parse d.from_error;
}

-- The database answers, a publish leaves the users alone, the status package reads its errors, and
-- a call carries a request id.
pub record DeploymentLaws {W : Type 0} (d : Deployment W) (row : W → String → Option User)
    : Type 0 where
  pub table : UserTableLaws d.db row
  pub publish_keeps :
      (u : User) (w : W) (email : String) → row (d.publish u w).1 email ≡ row w email
  pub status : (c : GrpcCode) (m : String) → d.from_error (d.status_error c m) ≡ some (c, m)
  pub identified : (request_id_from_incoming d.incoming == "") ≡ false

-- The user service's validation accepts the email, in a lookup and as the user to fetch.
pub record Accepts {W : Type 0} (d : Deployment W) (email : String) : Type 0 where
  pub to_exists : d.check_exists email ≡ none
  pub to_get : d.check_get email ≡ none

abbrev pub creating : (name email password : String) → CreateRequest
creating name email password = record { name = name; email = email; password = password }

module _ {W : Type 0} (d : Deployment W) (row : W → String → Option User)
    (laws : DeploymentLaws d row) where
  call-accepted :
      {A B : Type 0} (method : String) (check : A → Option Error) (m : A → Prog W B) (req : A)
      (w : W)
      → check req ≡ none
      → call d method check m req w ≡ m req w
  unfolding call server_chain request_id logger recovery validation valid recovered completed
  call-accepted method check m req w h = rw (laws.identified, h) refl

  call-refused :
      {A B : Type 0} (method : String) (check : A → Option Error) (m : A → Prog W B) (req : A)
      (e : Error) (w : W)
      → check req ≡ some e
      → call d method check m req w ≡ (err (d.status_error grpc_invalid_argument (error_text e)), w)
  unfolding call server_chain request_id logger recovery validation valid recovered completed
  call-refused method check m req e w h = rw (laws.identified, h) refl

  -- a row as it comes back from gRPC
  abbrev pub crossed : User → User
  crossed u = from_proto d.format d.parse (to_proto d.format d.parse u)

  pub exists_of_none :
      (email : String) (w : W)
      → Accepts d email
      → row w email ≡ none
      → ((joined d).repo).exists_by_email email w ≡ (ok false, w)
  unfolding client server exists_by_email intercepted
  exists_of_none email w fits e =
      rw (call-accepted _ _ _ email w fits.to_exists, (laws.table).count_none email w e) refl

  pub exists_of_some :
      (email : String) (u : User) (w : W)
      → Accepts d email
      → row w email ≡ some u
      → ((joined d).repo).exists_by_email email w ≡ (ok true, w)
  unfolding client server exists_by_email intercepted
  exists_of_some email u w fits e =
      rw (call-accepted _ _ _ email w fits.to_exists, (laws.table).count_some email u w e) refl

  pub get_of_some :
      (email : String) (u : User) (w : W)
      → Accepts d email
      → row w email ≡ some u
      → ((joined d).repo).get_by_email email w ≡ (ok (crossed u), w)
  unfolding client server get_by_email intercepted
  get_of_some email u w fits e =
      rw (call-accepted _ _ _ email w fits.to_get, (laws.table).first_some email u w e) refl

  pub create_of_inserted :
      (name email password : String) (w w' : W) (m : User)
      → d.check_create (creating name email password) ≡ none
      → (d.db).insert (new_user name email password) w ≡ (ok m, w')
      → ((joined d).repo).create name email password w ≡ (ok (crossed m), (d.publish m w').1)
  unfolding client server create_with_password intercepted
  create_of_inserted name email password w w' m fits e =
      rw (call-accepted _ _ _ (creating name email password) w fits, e) refl

  pub create_of_some :
      (name email password : String) (old : User) (w : W)
      → d.check_create (creating name email password) ≡ none
      → row w email ≡ some old
      → ((joined d).repo).create name email password w ≡ (err taken, w)
  unfolding client server create_with_password intercepted from as_app find_kind
  create_of_some name email password old w fits e =
      let (text, again) = (laws.table).insert_again (new_user name email password) old w e in
      rw (call-accepted _ _ _ (creating name email password) w fits, again) (rw laws.status refl)

  -- a user that the validation refuses
  pub create_of_refused :
      (name email password : String) (e : Error) (w : W)
      → d.check_create (creating name email password) ≡ some e
      → ((joined d).repo).create name email password w
        ≡ (err (app (invalid_input (error_text e))), w)
  unfolding client server intercepted
  create_of_refused name email password e w h =
      rw (call-refused _ _ _ (creating name email password) e w h) (rw laws.status refl)
