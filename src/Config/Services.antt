-- ===== src/Config/Services.antt =====
-- LoadConfig of services/auth, services/user and services/notification. Reading the key file,
-- pem.Decode and x509.ParsePKCS8PrivateKey are parameters.
use go_microservice.Prelude.{
  String, Bool, true, false, Option, none, some, nat_eq, ◌==◌, if◌then◌else◌,
}
use go_microservice.Prelude.Int.{ℤ, pos, negsuc}
use go_microservice.Prelude.Text.{◌⧺◌}
use go_microservice.Apperror.{wrap}
use go_microservice.Effect.{Result, ok, err}
use go_microservice.Config.{
  Env, failure, ◌>>=◌, get_env_int, get_env_bool, get_env_duration, DbConfig, RabbitmqConfig,
  CorsConfig, load_db_config, load_rabbitmq_config, load_cors_config,
}

-- services/user
pub record UserConfig : Type 0 where
  pub port : ℤ
  pub grpc_port : ℤ
  pub db : DbConfig
  pub rabbitmq : RabbitmqConfig
  pub cors : CorsConfig

pub record SmtpConfig : Type 0 where
  pub host : String
  pub port : ℤ
  pub username : String
  pub password : String
  pub from_name : String
  pub from_address : String
  pub use_tls : Bool

pub record ConsumerConfig : Type 0 where
  pub queue_name : String
  pub routing_key : String
  pub max_retries : ℤ
  pub retry_ttl : ℤ

-- services/notification
pub record NotificationConfig : Type 0 where
  pub port : ℤ
  pub db : DbConfig
  pub rabbitmq : RabbitmqConfig
  pub smtp : SmtpConfig
  pub consumer : ConsumerConfig
  pub cors : CorsConfig

pub record RedisConfig : Type 0 where
  pub addr : String
  pub password : String
  pub db : ℤ

pub record JwtConfig (K : Type 0) : Type 0 where
  pub private_key : K
  pub access_expiry : ℤ
  pub refresh_expiry : ℤ
  pub cookie_secure : Bool

-- services/auth
pub record AuthConfig (K : Type 0) : Type 0 where
  pub port : ℤ
  pub user_grpc_addr : String
  pub user_grpc_timeout : ℤ
  pub redis : RedisConfig
  pub jwt : JwtConfig K
  pub cors : CorsConfig

abbrev pub is_zero : ℤ → Bool
is_zero (pos n) = nat_eq n 0
is_zero (negsuc n) = false

-- a variable that has to be a number other than 0
abbrev pub required_int : Env → String → Result ℤ
required_int env key =
    let n = get_env_int env key (pos 0) in
    if is_zero n then err (failure (key ⧺ " is missing or invalid")) else ok n

-- a variable that has to be set
abbrev pub required_text : Env → String → Result String
required_text env key = if env key == "" then err (failure (key ⧺ " is required")) else ok (env key)

module _ (parse_duration : String → Option ℤ) (env : Env) where
  unfoldable pub load_user_config : Result UserConfig
  unfolding load_db_config load_rabbitmq_config load_cors_config
  load_user_config = do
    port ← required_int env "PORT"
    grpc_port ← required_int env "GRPC_PORT"
    db ← load_db_config parse_duration env
    rabbitmq ← load_rabbitmq_config env
    ok (record {
      port = port;
      grpc_port = grpc_port;
      db = db;
      rabbitmq = rabbitmq;
      cors = load_cors_config env;
    })

  unfoldable pub load_smtp_config : Result SmtpConfig
  unfolding get_env_int get_env_bool
  load_smtp_config = do
    host ← required_text env "NOTIFICATION_SMTP_HOST"
    from_address ← required_text env "NOTIFICATION_SMTP_FROM_ADDRESS"
    ok (record {
      host = host;
      port = get_env_int env "NOTIFICATION_SMTP_PORT" (pos 587);
      username = env "NOTIFICATION_SMTP_USERNAME";
      password = env "NOTIFICATION_SMTP_PASSWORD";
      from_name = env "NOTIFICATION_SMTP_FROM_NAME";
      from_address = from_address;
      use_tls = get_env_bool env "NOTIFICATION_SMTP_USE_TLS" true;
    })

  unfoldable pub load_consumer_config : ConsumerConfig
  unfolding get_env_int get_env_duration
  load_consumer_config = record {
    queue_name = "notification.user_created";
    routing_key = "user.created";
    max_retries = get_env_int env "NOTIFICATION_CONSUMER_MAX_RETRIES" (pos 3);
    retry_ttl =
        get_env_duration parse_duration env "NOTIFICATION_CONSUMER_RETRY_TTL" (pos 30000000000);
  }

  unfoldable pub load_notification_config : Result NotificationConfig
  unfolding load_db_config load_rabbitmq_config load_smtp_config load_consumer_config
      load_cors_config
  load_notification_config = do
    port ← required_int env "PORT"
    db ← load_db_config parse_duration env
    rabbitmq ← load_rabbitmq_config env
    smtp ← load_smtp_config
    ok (record {
      port = port;
      db = db;
      rabbitmq = rabbitmq;
      smtp = smtp;
      consumer = load_consumer_config;
      cors = load_cors_config env;
    })

  unfoldable pub load_redis_config : Result RedisConfig
  unfolding get_env_int
  load_redis_config = do
    addr ← required_text env "REDIS_ADDR"
    ok (record {
      addr = addr;
      password = env "REDIS_PASSWORD";
      db = get_env_int env "REDIS_DB" (pos 0);
    })

  -- `parse_key` is x509.ParsePKCS8PrivateKey; `some` key is an RSA key.
  module _ {K : Type 0} (read_file : String → Result String) (pem_decode : String → Option String)
      (parse_key : String → Result (Option K)) where
    pem_block : String → Option String → Result String
    pem_block path none = err (failure ("failed to decode PEM block from " ⧺ path))
    pem_block path (some block) = ok block

    rsa_key : String → Option K → Result K
    rsa_key path none = err (failure ("key at " ⧺ path ⧺ " is not an RSA private key"))
    rsa_key path (some key) = ok key

    unfoldable pub load_private_key : String → Result K
    unfolding pem_block rsa_key
    load_private_key path = do
      bytes ← read_file path
      block ← pem_block path (pem_decode bytes)
      key ← parse_key block
      rsa_key path key

    wrapped : Result K → Result K
    wrapped (ok key) = ok key
    wrapped (err e) = err (wrap "loading JWT private key" e)

    unfoldable pub load_jwt_config : Result (JwtConfig K)
    unfolding load_private_key wrapped get_env_duration get_env_bool
    load_jwt_config = do
      path ← required_text env "JWT_PRIVATE_KEY_PATH"
      key ← wrapped (load_private_key path)
      ok (record {
        private_key = key;
        access_expiry = get_env_duration parse_duration env "JWT_ACCESS_EXPIRY" (pos 900000000000);
        refresh_expiry =
            get_env_duration parse_duration env "JWT_REFRESH_EXPIRY" (pos 604800000000000);
        cookie_secure = get_env_bool env "COOKIE_SECURE" true;
      })

    unfoldable pub load_auth_config : Result (AuthConfig K)
    unfolding load_redis_config load_jwt_config load_cors_config
    load_auth_config = do
      port ← required_int env "PORT"
      user_grpc_addr ← required_text env "USER_GRPC_ADDR"
      redis ← load_redis_config
      jwt ← load_jwt_config
      ok (record {
        port = port;
        user_grpc_addr = user_grpc_addr;
        user_grpc_timeout =
            get_env_duration parse_duration env "USER_GRPC_TIMEOUT" (pos 5000000000);
        redis = redis;
        jwt = jwt;
        cors = load_cors_config env;
      })
