-- ===== src/Auth.antt =====
-- services/auth/internal/auth/service.go, dto.go and repository.go, with pkg/token's Store and
-- AccessIssuer. The user service's client, Redis, bcrypt, the JWT library, uuid.NewString and
-- Duration.Seconds are parameters.
pub mod Store
pub mod Sessions
pub mod Race
pub mod Credentials
pub mod Account
pub mod Registrations
pub mod Handlers
use go_microservice.Prelude.{String, Bool, true, false, Option, none, some, if◌then◌else◌}
use go_microservice.Prelude.Int.{ℤ}
use go_microservice.Prelude.Text.{◌⧺◌}
use go_microservice.Prelude.Strconv.{atoi, itoa, NumError}
use go_microservice.Apperror.{
  Error, Kind, redis_nil, app, foreign, plain, find_kind, is_some, conflict, unauthorized, internal,
}
use go_microservice.Effect.{Result, ok, err, Prog, pure, fail, reject, rescue, ◌>>=◌, ◌>>◌}
use go_microservice.Http.{Time}

-- services/auth/internal/clients/user/model.go, the same struct as services/user's User
pub record User : Type 0 where
  pub id : ℤ
  pub name : String
  pub email : String
  pub password : String
  pub created_at : Time
  pub updated_at : Time

pub record RegisterDto : Type 0 where
  pub name : String
  pub email : String
  pub password : String

pub record LoginDto : Type 0 where
  pub email : String
  pub password : String

pub record TokenPair : Type 0 where
  pub access_token : String
  pub refresh_token : String
  pub access_expires_in : ℤ
  pub refresh_expires_in : ℤ

-- What auth asks of the user service; Create is given a name, an email and a hashed password.
pub record UserLookup (W : Type 0) : Type 0 where
  pub exists_by_email : String → Prog W Bool
  pub get_by_email : String → Prog W User
  pub create : (name email password : String) → Prog W User

-- token.Store: durations are in nanoseconds
pub record TokenStore (W : Type 0) : Type 0 where
  pub save : String → ℤ → ℤ → Prog W (Unit {0})
  pub user_id : String → Prog W ℤ
  pub delete : String → Prog W (Unit {0})

-- the commands of the Redis client that the repository sends
pub record Redis (W : Type 0) : Type 0 where
  pub set : String → String → ℤ → Prog W (Unit {0})
  pub get : String → Prog W String
  pub del : String → Prog W (Unit {0})

abbrev pub refresh_key : String → String
refresh_key tok = "refresh:" ⧺ tok

abbrev pick_redis_nil : Kind → Option (Unit {0})
pick_redis_nil redis_nil = some tt
pick_redis_nil _ = none

-- errors.Is(err, redis.Nil)
abbrev pub is_redis_nil : Error → Bool
is_redis_nil e = is_some (find_kind pick_redis_nil e)

module _ {W : Type 0} where
  stored_id : String → ℤ × Option NumError → Prog W ℤ
  stored_id val (id, none) = pure id
  stored_id val (id, some e) = reject (internal (foreign plain ("strconv.Atoi: parsing " ⧺ val)))

  get_failed : Error → Prog W String
  get_failed e =
      if is_redis_nil e
      then reject (unauthorized "invalid or expired refresh token")
      else reject (internal e)

  -- RedisTokenRepository. The client writes the int that Set is given as decimal text.
  unfoldable pub token_repository : Redis W → TokenStore W
  unfolding stored_id get_failed
  token_repository rdb = record {
    save = λ tok id expiry. rdb.set (refresh_key tok) (itoa id) expiry;
    user_id = λ tok. do
      val ← rescue (rdb.get (refresh_key tok)) get_failed
      stored_id val (atoi val);
    delete = λ tok. rdb.del (refresh_key tok);
  }

-- auth.Service with the libraries that it calls: `issue` is AccessIssuer.Issue, `hash` and
-- `matches` are bcrypt's two functions, `seconds` is int(d.Seconds()).
pub record Service (W : Type 0) : Type 0 where
  pub repo : UserLookup W
  pub token_store : TokenStore W
  pub issue : ℤ → ℤ → Prog W String
  pub access_expiry : ℤ
  pub refresh_expiry : ℤ
  pub hash : String → Prog W String
  pub matches : (hashed password : String) → Bool
  pub new_uuid : W → String × W
  pub seconds : ℤ → ℤ

-- NewService, with the libraries that the methods call
abbrev pub new_service :
    {W : Type 0}
    → (repo : UserLookup W) → (token_store : TokenStore W) → (issue : ℤ → ℤ → Prog W String)
    → (access_expiry refresh_expiry : ℤ) → (hash : String → Prog W String)
    → (matches : String → String → Bool) → (new_uuid : W → String × W) → (seconds : ℤ → ℤ)
    → Service W
new_service repo token_store issue access_expiry refresh_expiry hash matches new_uuid seconds =
    record {
      repo = repo;
      token_store = token_store;
      issue = issue;
      access_expiry = access_expiry;
      refresh_expiry = refresh_expiry;
      hash = hash;
      matches = matches;
      new_uuid = new_uuid;
      seconds = seconds;
    }

abbrev pub invalid_credentials : Error
invalid_credentials = app (unauthorized "invalid email or password")

module _ {W : Type 0} (s : Service W) where
  as_internal : {A : Type 0} → Error → Prog W A
  as_internal e = reject (internal e)

  token_pair : String → String → TokenPair
  token_pair access refresh = record {
    access_token = access;
    refresh_token = refresh;
    access_expires_in = s.seconds s.access_expiry;
    refresh_expires_in = s.seconds s.refresh_expiry;
  }

  draw_uuid : Prog W String
  draw_uuid w = let (id, w') = s.new_uuid w in (ok id, w')

  unfoldable pub issue_token_pair : ℤ → Prog W TokenPair
  unfolding as_internal token_pair draw_uuid
  issue_token_pair user_id = do
    access ← rescue (s.issue user_id s.access_expiry) as_internal
    refresh ← draw_uuid
    rescue (s.token_store.save refresh user_id s.refresh_expiry) as_internal
    pure (token_pair access refresh)

  unfoldable pub register : RegisterDto → Prog W User
  unfolding as_internal
  register req = do
    taken ← s.repo.exists_by_email req.email
    if taken then reject (conflict "email already exists") else do
      hashed ← rescue (s.hash req.password) as_internal
      s.repo.create req.name req.email hashed

  check_password : LoginDto → User → Prog W TokenPair
  check_password req u =
      if s.matches u.password req.password then issue_token_pair u.id else fail invalid_credentials

  unfoldable pub login : LoginDto → Prog W TokenPair
  unfolding check_password
  login req = do
    u ← rescue (s.repo.get_by_email req.email) (λ _. fail invalid_credentials)
    check_password req u

  -- Refresh after the token was looked up
  unfoldable pub redeem : String → ℤ → Prog W TokenPair
  unfolding as_internal
  redeem refresh_token user_id = do
    rescue (s.token_store.delete refresh_token) as_internal
    issue_token_pair user_id

  unfoldable pub refresh : String → Prog W TokenPair
  refresh refresh_token = do
    user_id ← s.token_store.user_id refresh_token
    redeem refresh_token user_id

  unfoldable pub logout : String → Prog W (Unit {0})
  logout refresh_token = s.token_store.delete refresh_token
