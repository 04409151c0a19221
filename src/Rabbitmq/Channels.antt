-- ===== src/Rabbitmq/Channels.antt =====
-- pkg/messaging/rabbitmq: the channels of publisher.go and consumer.go, from an open connection to
-- Close. The calls of the AMQP client are parameters.
use go_microservice.Prelude.{String, Bool, false}
use go_microservice.Prelude.Int.{ℤ, pos}
use go_microservice.Apperror.{wrap}
use go_microservice.Effect.{Prog, pure, fail, rescue, ◌>>=◌, ◌>>◌}
use go_microservice.Rabbitmq.Topology.{Declaration, exchange_declare}

-- a connection `Q` and its channels `C`
pub record Amqp (W Q C : Type 0) : Type 0 where
  pub channel : Q → Prog W C
  pub confirm : C → (no_wait : Bool) → Prog W (Unit {0})
  pub qos : C → (prefetch_count prefetch_size : ℤ) → (global : Bool) → Prog W (Unit {0})
  pub declare : C → Declaration → Prog W (Unit {0})
  pub close : C → Prog W (Unit {0})

pub record Publisher (C : Type 0) : Type 0 where
  pub ch : C

pub record Consumer (C : Type 0) : Type 0 where
  pub ch : C

module _ {W Q C : Type 0} (amqp : Amqp W Q C) where
  unfoldable pub new_publisher : Q → Prog W (Publisher C)
  new_publisher conn = do
    ch ← rescue (amqp.channel conn) (λ e. fail (wrap "opening publisher channel" e))
    rescue (amqp.confirm ch false) (λ e. fail (wrap "enabling publisher confirms" e))
    pure (record { ch = ch })

  -- DeclareExchange
  unfoldable pub declare_exchange : Publisher C → String → Prog W (Unit {0})
  declare_exchange p name = amqp.declare p.ch (exchange_declare name)

  unfoldable close : Publisher C → Prog W (Unit {0})
  close p = amqp.close p.ch

  unfoldable pub new_consumer : Q → Prog W (Consumer C)
  new_consumer conn = do
    ch ← rescue (amqp.channel conn) (λ e. fail (wrap "opening consumer channel" e))
    rescue (amqp.qos ch (pos 10) (pos 0) false) (λ e. fail (wrap "setting consumer prefetch" e))
    pure (record { ch = ch })
