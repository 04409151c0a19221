-- ===== src/Platform.antt =====
-- services/*/internal/platform and pkg/messaging/rabbitmq/connection.go: opening the database (the
-- same in user and notification), Redis and the broker's connection. Each call of a library is a
-- parameter.
use go_microservice.Prelude.{String}
use go_microservice.Prelude.Int.{ℤ}
use go_microservice.Effect.{Prog, pure, ◌>>=◌, ◌>>◌}
use go_microservice.Config.{DbConfig, RabbitmqConfig, dsn}
use go_microservice.Config.Services.{RedisConfig}
use go_microservice.Mailer.{or_wrap}

-- gorm.Open, its sql.DB and what is called on that; the ping has a deadline of five seconds
pub record Sql (W D S : Type 0) : Type 0 where
  pub query_escape : String → String
  pub gorm_open : (dsn : String) → Prog W D
  pub sql_db : D → Prog W S
  pub set_max_open_conns : S → ℤ → W → W
  pub set_max_idle_conns : S → ℤ → W → W
  pub set_conn_max_lifetime : S → ℤ → W → W
  pub set_conn_max_idle_time : S → ℤ → W → W
  pub ping : S → Prog W (Unit {0})

module _ {W D S : Type 0} (sql : Sql W D S) where
  configure : S → DbConfig → Prog W (Unit {0})
  configure db cfg w =
      let w₁ = sql.set_max_open_conns db cfg.max_open_conns w in
      let w₂ = sql.set_max_idle_conns db cfg.max_idle_conns w₁ in
      let w₃ = sql.set_conn_max_lifetime db cfg.conn_max_lifetime w₂ in
      pure tt (sql.set_conn_max_idle_time db cfg.conn_max_idle_time w₃)

  -- database.Open
  unfoldable pub open_database : DbConfig → Prog W D
  unfolding configure dsn
  open_database cfg = do
    db ← or_wrap "failed to connect to database" (sql.gorm_open (dsn sql.query_escape cfg))
    sql_db ← or_wrap "failed to access underlying sql.DB" (sql.sql_db db)
    configure sql_db cfg
    or_wrap "failed to ping database" (sql.ping sql_db)
    pure db

-- redis.Open; NewClient connects to nothing yet
module _ {W R : Type 0} (new_client : (addr password : String) → (db : ℤ) → R)
    (ping : R → Prog W (Unit {0})) where
  unfoldable pub open_redis : RedisConfig → Prog W R
  open_redis cfg = do
    or_wrap "failed to connect to redis" (ping (new_client cfg.addr cfg.password cfg.db))
    pure (new_client cfg.addr cfg.password cfg.db)

-- pkg/messaging/rabbitmq's Dial, and messaging.Open and rabbitmq.Open, which call it
module _ {W Q : Type 0} (amqp_dial : (url : String) → Prog W Q) where
  unfoldable pub dial : String → Prog W Q
  dial url = or_wrap "failed to connect to rabbitmq" (amqp_dial url)

  unfoldable pub open_amqp : RabbitmqConfig → Prog W Q
  unfolding dial
  open_amqp cfg = dial cfg.url
