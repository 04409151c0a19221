-- ===== src/Config.antt =====
-- pkg/config/env.go and the parts that the services' internal/config/config.go share: the database,
-- the broker and the CORS origins (user and notification declare the same functions; auth has the
-- CORS one). The environment is a function of the name, "" where nothing is set;
-- time.ParseDuration and url.QueryEscape are parameters, and the warnings are left out.
pub mod Services
pub mod Checks
use go_microservice.Prelude.{
  String, Bool, true, false, ◌||◌, List, [], ◌∷◌, ◌++◌, Option, none, some, ◌==◌, contains,
  if◌then◌else◌,
}
use go_microservice.Prelude.Int.{ℤ, pos}
use go_microservice.Prelude.Text.{◌⧺◌, split, trim_space}
use go_microservice.Prelude.Strconv.{atoi, NumError}
use go_microservice.Apperror.{Error, foreign, plain}
use go_microservice.Effect.{Result, ok, err}

-- os.Getenv
abbrev pub Env : Type 0
Env = String → String

-- fmt.Errorf without %w
abbrev pub failure : String → Error
failure text = foreign plain text

infixl 5 ◌>>=◌
abbrev pub ◌>>=◌ : {A B : Type 0} → Result A → (A → Result B) → Result B
◌>>=◌ (ok a) f = f a
◌>>=◌ (err e) f = err e

-- strconv.ParseBool
abbrev pub parse_bool : String → Option Bool
parse_bool s =
    if contains ("1" ∷ "t" ∷ "T" ∷ "true" ∷ "TRUE" ∷ "True" ∷ []) s
    then some true
    else if contains ("0" ∷ "f" ∷ "F" ∷ "false" ∷ "FALSE" ∷ "False" ∷ []) s
    then some false
    else none

abbrev int_or : ℤ → ℤ × Option NumError → ℤ
int_or default (n, none) = n
int_or default (n, some e) = default

abbrev or_default : {A : Type 0} → A → Option A → A
or_default default none = default
or_default default (some a) = a

unfoldable pub get_env_int : Env → String → ℤ → ℤ
get_env_int env key default =
    let v = env key in if v == "" then default else int_or default (atoi v)

unfoldable pub get_env_bool : Env → String → Bool → Bool
get_env_bool env key default =
    let v = env key in if v == "" then default else or_default default (parse_bool v)

-- durations in nanoseconds
unfoldable pub get_env_duration : (String → Option ℤ) → Env → String → ℤ → ℤ
get_env_duration parse_duration env key default =
    let v = env key in if v == "" then default else or_default default (parse_duration v)

pub record DbConfig : Type 0 where
  pub host : String
  pub port : String
  pub user : String
  pub password : String
  pub name : String
  pub ssl_mode : String
  pub max_open_conns : ℤ
  pub max_idle_conns : ℤ
  pub conn_max_lifetime : ℤ
  pub conn_max_idle_time : ℤ

unfoldable pub dsn : (query_escape : String → String) → DbConfig → String
dsn query_escape c =
    "postgres://"
    ⧺ query_escape c.user
    ⧺ ":"
    ⧺ query_escape c.password
    ⧺ "@"
    ⧺ c.host
    ⧺ ":"
    ⧺ c.port
    ⧺ "/"
    ⧺ c.name
    ⧺ "?sslmode="
    ⧺ c.ssl_mode

pub record RabbitmqConfig : Type 0 where
  pub url : String
  pub exchange : String

pub record CorsConfig : Type 0 where
  pub allowed_origins : List String

-- the text of a []string under %v
abbrev joined : List String → String
joined [] = ""
joined (s ∷ []) = s
joined (s ∷ t ∷ ss) = s ⧺ " " ⧺ joined (t ∷ ss)

abbrev pub if_unset : Env → String → List String
if_unset env key = if env key == "" then key ∷ [] else []

-- `missing` of loadDBConfig
abbrev pub missing_keys : Env → List String
missing_keys env =
    if_unset env "DB_HOST"
    ++ if_unset env "DB_PORT"
    ++ if_unset env "DB_USER"
    ++ if_unset env "DB_PASSWORD"
    ++ if_unset env "DB_NAME"

abbrev or_text : String → String → String
or_text default s = if s == "" then default else s

module _ (parse_duration : String → Option ℤ) (env : Env) where
  db_config : List String → Result DbConfig
  unfolding get_env_int get_env_duration
  db_config (k ∷ ks) = err (failure ("missing database env vars: [" ⧺ joined (k ∷ ks) ⧺ "]"))
  db_config [] = ok (record {
    host = env "DB_HOST";
    port = env "DB_PORT";
    user = env "DB_USER";
    password = env "DB_PASSWORD";
    name = env "DB_NAME";
    ssl_mode = or_text "disable" (env "DB_SSLMODE");
    max_open_conns = get_env_int env "DB_MAX_OPEN_CONNS" (pos 25);
    max_idle_conns = get_env_int env "DB_MAX_IDLE_CONNS" (pos 25);
    conn_max_lifetime =
        get_env_duration parse_duration env "DB_CONN_MAX_LIFETIME" (pos 300000000000);
    conn_max_idle_time =
        get_env_duration parse_duration env "DB_CONN_MAX_IDLE_TIME" (pos 300000000000);
  })

  unfoldable pub load_db_config : Result DbConfig
  unfolding db_config
  load_db_config = db_config (missing_keys env)

module _ (env : Env) where
  unfoldable pub load_rabbitmq_config : Result RabbitmqConfig
  load_rabbitmq_config =
      if env "RABBITMQ_URL" == ""
      then err (failure "RABBITMQ_URL is required")
      else ok (record {
        url = env "RABBITMQ_URL";
        exchange = or_text "domain_events" (env "RABBITMQ_EXCHANGE");
      })

  -- the loop over the origins
  keep_origins : List String → List String
  keep_origins [] = []
  keep_origins (o ∷ os) =
      let rest = keep_origins os in let o' = trim_space o in if o' == "" then rest else o' ∷ rest

  unfoldable pub load_cors_config : CorsConfig
  unfolding keep_origins
  load_cors_config =
      let raw = env "CORS_ALLOWED_ORIGINS" in
      record { allowed_origins = if raw == "" then "*" ∷ [] else keep_origins (split b',' raw) }
