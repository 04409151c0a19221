-- ===== src/Tests/Config.antt =====
-- The configuration that docker-compose would give the user service.
use go_microservice.Prelude.{String, false, ◌≡◌, refl, Option, none, some, [], ◌∷◌, lookup}
use go_microservice.Prelude.Int.{ℤ, pos}
use go_microservice.Prelude.Strconv.{atoi, itoa}
use go_microservice.Prelude.Text.{split, trim_space}
use go_microservice.Effect.{ok}
use go_microservice.Config.{
  Env, load_db_config, load_rabbitmq_config, load_cors_config, get_env_int, get_env_duration,
}
use go_microservice.Config.Services.{UserConfig, load_user_config, is_zero}
use go_microservice.Config.Checks.{Given, HasDatabase, load_user_config-ok}

abbrev or_empty : Option String → String
or_empty none = ""
or_empty (some s) = s

abbrev pub env : Env
env key = or_empty (
    lookup key (
      ("PORT", "8081")
      ∷ ("GRPC_PORT", "9091")
      ∷ ("DB_HOST", "postgres")
      ∷ ("DB_PORT", "5432")
      ∷ ("DB_USER", "app")
      ∷ ("DB_PASSWORD", "secret")
      ∷ ("DB_NAME", "users")
      ∷ ("RABBITMQ_URL", "amqp://rabbitmq")
      ∷ ("CORS_ALLOWED_ORIGINS", "https://a.org, ,https://b.org")
      ∷ []))

abbrev pub parse_duration : String → Option ℤ
parse_duration s = none

port_text : env "PORT" ≡ itoa (pos 8081)
unfolding itoa
port_text = refl

abbrev pub loaded : UserConfig
loaded = record {
  port = pos 8081;
  grpc_port = pos 9091;
  db = record {
    host = "postgres";
    port = "5432";
    user = "app";
    password = "secret";
    name = "users";
    ssl_mode = "disable";
    max_open_conns = pos 25;
    max_idle_conns = pos 25;
    conn_max_lifetime = pos 300000000000;
    conn_max_idle_time = pos 300000000000;
  };
  rabbitmq = record { url = "amqp://rabbitmq"; exchange = "domain_events" };
  cors = record { allowed_origins = "https://a.org" ∷ "https://b.org" ∷ [] };
}

pub loads : load_user_config parse_duration env ≡ ok loaded
unfolding load_user_config load_db_config load_rabbitmq_config load_cors_config get_env_int
    get_env_duration atoi split trim_space
loads = refl

load_user_config-ok_example :
    (is_zero (pos 8081) ≡ false)
    × (is_zero (pos 9091) ≡ false)
    × HasDatabase loaded.db
    × Given "amqp://rabbitmq"
    × Given "domain_events"
load_user_config-ok_example = load_user_config-ok parse_duration env loaded loads
