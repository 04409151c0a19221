-- ===== src/Tests/Contract.antt =====
-- The user and auth services answer concrete requests.
use go_microservice.Prelude.{none, some, refl, ◌==◌, true, [], ◌∷◌}
use go_microservice.Prelude.Int.{pos}
use go_microservice.Apperror.{Error, foreign, grpc_status, grpc_unavailable}
use go_microservice.Effect.{ok, err}
use go_microservice.Http.{Request, Conn, fresh, zero_time}
use go_microservice.Routers.{register_user, register_auth}
use go_microservice.Middleware.Answered.{Served}
use go_microservice.Contract.Users.{user_payload, register_user-conforms}
use go_microservice.Contract.Sessions.{auth_payload, register_auth-conforms}
use go_microservice.Config.Services.{AuthConfig}
use go_microservice.Process.{Runtime, signalled}
use go_microservice.Process.Auth
use go_microservice.Process.Users.{build}
use go_microservice.Users.{EventPublisher}
use go_microservice.Tests.Auth.{redis, Keys, keys}
use go_microservice.Tests.Config.{env, parse_duration}
use go_microservice.Tests.Http.{request}
use go_microservice.Tests.Processes.{os, platform}
use go_microservice.Tests.Serving.{conn}

abbrev publisher : EventPublisher (Unit {0})
publisher = record { publisher = record { ch = tt }; exchange = "events" }

abbrev get_user : Request
get_user = record request { path = "/v1/users/7" }

register_user-conforms_example :
    let a = build os platform tt publisher in
    Served user_payload (
      register_user platform.clean platform.new_uuid a.user_http_handler a.health_handler get_user
        conn)
register_user-conforms_example =
    register_user-conforms os platform tt publisher get_user conn (refl, refl)

abbrev down : Error
down = foreign (grpc_status grpc_unavailable "connection refused") "rpc error"

-- an auth service whose user service is down
abbrev auth_platform : Auth.Platform Keys (Unit {0}) (Unit {0}) (Unit {0})
auth_platform = record {
  env = env;
  parse_duration = parse_duration;
  read_file = λ f. ok "";
  pem_decode = λ s. some s;
  parse_key = λ s. ok (some tt);
  clean = λ s. s;
  new_uuid = λ w. ("r1", w);
  now = λ w. (zero_time, w);
  unix_seconds = λ t. pos 0;
  sign = λ c k w. (ok "jwt", w);
  hash = λ p w. (ok "#", w);
  matches = λ h p. h == p;
  seconds = λ d. d;
  decode_register = λ s. err down;
  decode_login = λ s. err down;
  decode_empty = λ s. none;
  check_register = λ r. none;
  check_login = λ r. none;
  new_redis = λ a k n. tt;
  ping_at_start = λ r w. (ok tt, w);
  commands = λ r. redis;
  ping = λ r w. (ok tt, w);
  close_redis = λ r w. w;
  new_client = λ a t w. (ok tt, w);
  user_client = λ c. record {
    exists_by_email = λ e w. (err down, w);
    get_by_email = λ e w. (err down, w);
    create = λ n e p w. (err down, w);
  };
  close_client = λ c w. w;
  format_time = λ t. "0001-01-01T00:00:00Z";
  parse_time = λ s. some zero_time;
  from_error = λ e. none;
  serve = λ a h w. (signalled, w);
}

abbrev auth_config : AuthConfig (Unit {0})
auth_config = record {
  port = pos 8082;
  user_grpc_addr = "user:9091";
  user_grpc_timeout = pos 5000000000;
  redis = record { addr = "redis:6379"; password = ""; db = pos 0 };
  jwt = record {
    private_key = tt;
    access_expiry = pos 900000000000;
    refresh_expiry = pos 604800000000000;
    cookie_secure = true;
  };
  cors = record { allowed_origins = [] };
}

abbrev refresh_old : Request
refresh_old = record request {
  method = "POST";
  path = "/v1/auth/refresh";
  cookies = ("refresh_token", "old") ∷ [];
}

abbrev auth_conn : Conn Keys
auth_conn = record { world = keys; writer = fresh; log = [] }

abbrev auth_runtime : Runtime Keys
auth_runtime = record { log_error = λ m e w. w; shutdown = λ w. (ok tt, w) }

register_auth-conforms_example :
    let a = Auth.build auth_runtime auth_platform auth_config tt tt in
    Served auth_payload (
      register_auth auth_platform.clean auth_platform.new_uuid a.auth_handler a.health_handler
        refresh_old auth_conn)
register_auth-conforms_example =
    register_auth-conforms auth_runtime auth_platform auth_config tt tt refresh_old auth_conn
      (refl, refl)
