-- ===== src/Process/Auth.antt =====
-- services/auth/cmd/api/main.go and services/auth/internal/app/app.go
use go_microservice.Prelude.{ℕ, String, Bool, Option}
use go_microservice.Prelude.Int.{ℤ}
use go_microservice.Prelude.Text.{◌⧺◌}
use go_microservice.Prelude.Strconv.{itoa}
use go_microservice.Apperror.{Error, GrpcCode}
use go_microservice.Effect.{Result, ok, err, Prog}
use go_microservice.Http.{Time, Handler}
use go_microservice.Auth.{Redis, new_service, RegisterDto, LoginDto, token_repository}
use go_microservice.Auth.Handlers.{handle_register, handle_login, handle_refresh, handle_logout}
use go_microservice.Users.Rpc.{UserServiceRpc, client}
use go_microservice.Config.{Env}
use go_microservice.Config.Services.{AuthConfig, load_auth_config}
use go_microservice.Health.{handle_live, handle_ready_redis}
use go_microservice.Routers.{HealthHandler, AuthHandler, register_auth}
use go_microservice.Serving.{func}
use go_microservice.Token.{Claims, issue}
use go_microservice.Platform.{open_redis}
use go_microservice.Process.{Process, Happening, Runtime, need, wait}

-- What main and Build call, with the handles that they pass on: a Redis client and a gRPC
-- connection. `user_client` makes the stub on a connection whose calls go through Timeout, with the
-- duration given, and PropagateRequestID.
pub record Platform (W K R C : Type 0) : Type 0 where
  pub env : Env
  pub parse_duration : String → Option ℤ
  pub read_file : String → Result String
  pub pem_decode : String → Option String
  pub parse_key : String → Result (Option K)
  pub clean : String → String
  pub new_uuid : W → String × W
  pub now : W → Time × W
  pub unix_seconds : Time → ℤ
  pub sign : Claims → K → Prog W String
  pub hash : String → Prog W String
  pub matches : (hashed password : String) → Bool
  pub seconds : ℤ → ℤ
  pub decode_register : String → Result (RegisterDto × String)
  pub decode_login : String → Result (LoginDto × String)
  pub decode_empty : String → Option Error
  pub check_register : RegisterDto → Option Error
  pub check_login : LoginDto → Option Error
  pub new_redis : (addr password : String) → (db : ℤ) → R
  pub ping_at_start : R → Prog W (Unit {0})
  pub commands : R → Redis W
  pub ping : R → Prog W (Unit {0})
  pub close_redis : R → W → W
  pub new_client : (addr : String) (timeout : ℤ) → Prog W C
  pub user_client : C → UserServiceRpc W
  pub close_client : C → W → W
  pub format_time : Time → String
  pub parse_time : String → Option Time
  pub from_error : Error → Option (GrpcCode × String)
  pub serve : (addr : String) → Handler W → W → Happening × W

pub record App (W : Type 0) : Type 0 where
  pub auth_handler : AuthHandler W
  pub health_handler : HealthHandler W

module _ {W K R C : Type 0} (os : Runtime W) (p : Platform W K R C) where
  unfoldable pub build : AuthConfig K → R → C → App W
  build cfg rdb conn =
      let s =
        new_service (client (p.user_client conn) p.format_time p.parse_time p.from_error)
          (token_repository (p.commands rdb))
          (issue p.now p.unix_seconds p.sign (cfg.jwt).private_key) (cfg.jwt).access_expiry
          (cfg.jwt).refresh_expiry p.hash p.matches p.new_uuid p.seconds in
      let secure = (cfg.jwt).cookie_secure in
      record {
        auth_handler = record {
          register =
              func (handle_register s secure p.decode_register p.decode_empty p.check_register);
          login = func (handle_login s secure p.decode_login p.decode_empty p.check_login);
          refresh = func (handle_refresh s secure);
          logout = func (handle_logout s secure);
        };
        health_handler = record {
          live = func handle_live;
          ready = func (handle_ready_redis (p.ping rdb));
        };
      }

  -- os.Exit runs no deferred call: the two Close calls are made only if main returns.
  finished : R → C → Result (Unit {0}) × W → ℕ × W
  finished rdb conn (ok u, w) = (0, p.close_redis rdb (p.close_client conn w))
  finished rdb conn (err e, w) = (1, os.log_error "server forced to shutdown" e w)

  serve_app : AuthConfig K → R → C → Process W
  unfolding build finished
  serve_app cfg rdb conn =
      let a = build cfg rdb conn in
      let mux = register_auth p.clean p.new_uuid a.auth_handler a.health_handler in
      wait os (p.serve (":" ⧺ itoa cfg.port) mux) (λ w. finished rdb conn (os.shutdown w))

  unfoldable pub main : Process W
  unfolding serve_app
  main =
      need os "loading config"
        (λ w. (load_auth_config p.parse_duration p.env p.read_file p.pem_decode p.parse_key, w))
        (λ cfg.
          need os "setting up redis" (open_redis p.new_redis p.ping_at_start cfg.redis) (λ rdb.
            need os "connecting to user grpc service"
              (p.new_client cfg.user_grpc_addr cfg.user_grpc_timeout)
              (λ conn. serve_app cfg rdb conn)))
