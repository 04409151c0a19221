-- ===== src/Process/Notifications.antt =====
-- services/notification/cmd/api/main.go and services/notification/internal/app/app.go
use go_microservice.Prelude.{String, Option}
use go_microservice.Prelude.Int.{ℤ}
use go_microservice.Prelude.Text.{◌⧺◌}
use go_microservice.Prelude.Strconv.{itoa}
use go_microservice.Effect.{Result, Prog}
use go_microservice.Http.{Handler}
use go_microservice.Rabbitmq
use go_microservice.Rabbitmq.{OnExhausted}
use go_microservice.Rabbitmq.Topology.{TopologySpec, declare_consumer_topology}
use go_microservice.Notification.{
  Table, Message, UserCreatedPayload, WelcomeTemplateData, render_welcome_email, consume_event,
  record_exhausted,
}
use go_microservice.Notification.Handlers.{handle_get_all, handle_get_by_id}
use go_microservice.Mailer.{SmtpSender, new_smtp_sender, SmtpClient, send}
use go_microservice.Config.{Env}
use go_microservice.Config.Services.{NotificationConfig, SmtpConfig, load_notification_config}
use go_microservice.Health.{handle_live, handle_ready}
use go_microservice.Routers.{HealthHandler, NotificationHandler, register_notification}
use go_microservice.Serving.{func}
use go_microservice.Rabbitmq.Channels.{Amqp, Consumer, new_consumer}
use go_microservice.Apperror.{Error}
use go_microservice.Platform.{Sql, open_database, open_amqp}
use go_microservice.Process.{Process, Happening, Runtime, need, try, stop, wait}

-- What main and Build call. `serve` runs the consumer, over the deliveries of the queue, and the
-- HTTP server; a consumer that ends does not end the process.
pub record Platform (W D S Q C : Type 0) : Type 0 where
  pub env : Env
  pub parse_duration : String → Option ℤ
  pub clean : String → String
  pub new_uuid : W → String × W
  pub sql : Sql W D S
  pub gorm : D → Table W
  pub ping : D → Prog W (Unit {0})
  pub amqp_dial : (url : String) → Prog W Q
  pub close_amqp : Q → Prog W (Unit {0})
  pub smtp : SmtpClient W
  pub execute : WelcomeTemplateData → String × Option Error
  pub decode : String → Result UserCreatedPayload
  pub email_of : String → String
  pub amqp : Amqp W Q C
  pub serve :
      Consumer C
      → (queue : String) → (max_retries : ℤ) → Rabbitmq.Handler W
      → OnExhausted W
      → (addr : String) → Handler W
      → W
      → Happening × W
  pub cancel_consumer : W → W

-- the sender that main makes
abbrev pub smtp_sender : SmtpConfig → SmtpSender
smtp_sender c =
    new_smtp_sender c.host c.port c.username c.password c.from_name c.from_address c.use_tls

abbrev pub topology : NotificationConfig → TopologySpec
topology cfg = record {
  exchange = (cfg.rabbitmq).exchange;
  routing_key = (cfg.consumer).routing_key;
  queue_name = (cfg.consumer).queue_name;
  retry_ttl = (cfg.consumer).retry_ttl;
  max_retries = (cfg.consumer).max_retries;
}

-- the service is what the two callbacks of the consumer do
pub record App (W : Type 0) : Type 0 where
  pub notification_http_handler : NotificationHandler W
  pub handle_user_created : Rabbitmq.Handler W
  pub record_exhausted : OnExhausted W
  pub health_handler : HealthHandler W

module _ {W D S Q C : Type 0} (os : Runtime W) (p : Platform W D S Q C) where
  unfoldable pub build : D → (Message → Prog W (Unit {0})) → App W
  build db sender = record {
    notification_http_handler = record {
      get_all = func (handle_get_all (p.gorm db));
      get_by_id = func (handle_get_by_id (p.gorm db));
    };
    handle_user_created =
        consume_event (p.gorm db) (render_welcome_email p.execute) sender p.decode;
    record_exhausted = record_exhausted (p.gorm db) p.email_of;
    health_handler = record {
      live = func handle_live;
      ready = func (handle_ready "database unreachable" (p.ping db));
    };
  }

  serve_app : NotificationConfig → D → Q → Consumer C → Process W
  unfolding build
  serve_app cfg db conn consumer =
      let a = build db (send p.smtp (smtp_sender cfg.smtp)) in
      let mux =
        register_notification p.clean p.new_uuid a.notification_http_handler a.health_handler in
      wait os
        (p.serve consumer (cfg.consumer).queue_name (cfg.consumer).max_retries a.handle_user_created
          a.record_exhausted (":" ⧺ itoa cfg.port) mux)
        (stop os p.cancel_consumer (try os "closing rabbitmq connection" (p.close_amqp conn)))

  consume_app : NotificationConfig → D → Q → Process W
  unfolding serve_app new_consumer
  consume_app cfg db conn =
      need os "setting up consumer" (new_consumer p.amqp conn)
        (λ consumer. serve_app cfg db conn consumer)

  unfoldable pub main : Process W
  unfolding consume_app
  main =
      need os "loading config" (λ w. (load_notification_config p.parse_duration p.env, w))
        (λ cfg. need os "setting up database" (open_database p.sql cfg.db) (λ db.
          need os "setting up rabbitmq" (open_amqp p.amqp_dial cfg.rabbitmq) (λ conn.
            need os "opening topology channel" ((p.amqp).channel conn) (λ channel.
              need os "declaring consumer topology"
                (declare_consumer_topology ((p.amqp).declare channel) (topology cfg))
                (λ _ w.
                  consume_app cfg db conn
                    (try os "closing topology channel" ((p.amqp).close channel) w))))))
