-- ===== src/Process/Users.antt =====
-- services/user/cmd/api/main.go and services/user/internal/app/app.go
use go_microservice.Prelude.{String, Option}
use go_microservice.Prelude.Int.{ℤ}
use go_microservice.Prelude.Text.{◌⧺◌}
use go_microservice.Prelude.Strconv.{itoa}
use go_microservice.Apperror.{Error, GrpcCode}
use go_microservice.Effect.{Result, Prog}
use go_microservice.Http.{Time, Context, Handler}
use go_microservice.Notification.{UserCreatedPayload}
use go_microservice.Rabbitmq.{Envelope}
use go_microservice.Rabbitmq.Channels.{Amqp}
use go_microservice.Rabbitmq.Publisher.{ConfirmChannel}
use go_microservice.Users.{
  Db, EventPublisher, new_event_publisher, publish_user_created, CreateUserRequest,
  UpdateUserRequest,
}
use go_microservice.Users.Handlers.{
  handle_get_all, handle_get_by_id, handle_create, handle_update, handle_delete,
}
use go_microservice.Users.Rpc.{UserServiceRpc, server}
use go_microservice.Config.{Env}
use go_microservice.Config.Services.{UserConfig, load_user_config}
use go_microservice.Health.{handle_live, handle_ready}
use go_microservice.Routers.{HealthHandler, UserHandler, register_user}
use go_microservice.Serving.{func}
use go_microservice.Platform.{Sql, open_database, open_amqp}
use go_microservice.Process.{Process, Happening, Runtime, need, try, stop, wait}

-- the JSON decoders and the checks of the validator
pub record Bindings : Type 0 where
  pub decode_create : String → Result (CreateUserRequest × String)
  pub decode_update : String → Result (UpdateUserRequest × String)
  pub decode_empty : String → Option Error
  pub check_create : CreateUserRequest → Option Error
  pub check_update : UpdateUserRequest → Option Error

-- What main and Build call, with the handles that they pass on: a database and its connection pool, a broker's connection,
-- a channel, a listener. `serve` runs both servers; the gRPC handlers are given each call's context.
pub record Platform (W D S Q C L : Type 0) : Type 0 where
  pub env : Env
  pub parse_duration : String → Option ℤ
  pub clean : String → String
  pub new_uuid : W → String × W
  pub bindings : Bindings
  pub sql : Sql W D S
  pub gorm : D → Db W
  pub ping : D → Prog W (Unit {0})
  pub amqp_dial : (url : String) → Prog W Q
  pub close_amqp : Q → Prog W (Unit {0})
  pub amqp : Amqp W Q C
  pub confirm_channel : C → ConfirmChannel W
  pub marshal : Envelope → Result String
  pub marshal_payload : UserCreatedPayload → Result String
  pub now : W → Time × W
  pub format_time : Time → String
  pub parse_time : String → Option Time
  pub status_error : GrpcCode → String → Error
  pub listen : (addr : String) → Prog W L
  pub serve : L → (Context → UserServiceRpc W) → (addr : String) → Handler W → W → Happening × W
  pub graceful_stop : W → W

pub record App (W : Type 0) : Type 0 where
  pub user_http_handler : UserHandler W
  pub health_handler : HealthHandler W
  pub user_grpc_server : Context → UserServiceRpc W

module _ {W D S Q C L : Type 0} (os : Runtime W) (p : Platform W D S Q C L) where
  unfoldable pub build : D → EventPublisher C → App W
  build db publisher =
      let b = p.bindings in
      let publish =
        publish_user_created p.marshal p.marshal_payload
          (p.confirm_channel (publisher.publisher).ch) p.new_uuid p.now publisher.exchange in
      record {
        user_grpc_server =
            λ ctx. server (p.gorm db) (publish ctx) p.format_time p.parse_time p.status_error;
        user_http_handler = record {
          get_all = func (handle_get_all (p.gorm db));
          get_by_id = func (handle_get_by_id (p.gorm db));
          create =
              func
                (handle_create (p.gorm db) publish b.decode_create b.decode_empty b.check_create);
          update = func (handle_update (p.gorm db) b.decode_update b.decode_empty b.check_update);
          delete = func (handle_delete (p.gorm db));
        };
        health_handler = record {
          live = func handle_live;
          ready = func (handle_ready "database unreachable" (p.ping db));
        };
      }

  -- both servers, with what Build assembled
  unfoldable pub serving : UserConfig → D → EventPublisher C → L → W → Happening × W
  unfolding build
  serving cfg db publisher lis =
      let a = build db publisher in
      p.serve lis a.user_grpc_server (":" ⧺ itoa cfg.port)
        (register_user p.clean p.new_uuid a.user_http_handler a.health_handler)

  unfoldable pub serve_app : UserConfig → D → Q → EventPublisher C → L → Process W
  serve_app cfg db conn publisher lis =
      wait os (serving cfg db publisher lis)
        (stop os p.graceful_stop (try os "closing rabbitmq connection" (p.close_amqp conn)))

  unfoldable pub main : Process W
  unfolding serve_app new_event_publisher open_database open_amqp
  main =
      need os "loading config" (λ w. (load_user_config p.parse_duration p.env, w))
        (λ cfg. need os "setting up database" (open_database p.sql cfg.db) (λ db.
          need os "setting up rabbitmq" (open_amqp p.amqp_dial cfg.rabbitmq) (λ conn.
            need os "setting up event publisher"
              (new_event_publisher p.amqp conn (cfg.rabbitmq).exchange)
              (λ publisher.
                need os "grpc listen" (p.listen (":" ⧺ itoa cfg.grpc_port))
                  (λ lis. serve_app cfg db conn publisher lis)))))
