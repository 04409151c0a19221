-- ===== src/Notification/FailedPark.antt =====
-- The consumer and the notification service together, when parking a delivery fails.
use go_microservice.Prelude.{String, Bool}
use go_microservice.Prelude.Int.{ℤ}
use go_microservice.Apperror.{Error}
use go_microservice.Effect.{Result, Prog}
use go_microservice.Rabbitmq.{Envelope, Delivery, Channel, handle, call_exhausted}
use go_microservice.Notification.{
  Table, Message, UserCreatedPayload, consume_event, record_exhausted,
}
use go_microservice.Notification.Idempotence.{TableLaws}

module _ {W : Type 0} (db : Table W) (recorded : W → String → Bool) (law : TableLaws db recorded)
    (ch : Channel W) (queue : String) (max_retries : ℤ) (render : String → Result String)
    (send : Message → Prog W (Unit {0})) (decode : String → Result UserCreatedPayload)
    (email_of : String → String) (unmarshal : String → Result Envelope) where
  -- one delivery, with the handler and the callback that main.go passes
  abbrev pub serve : Delivery → W → W
  serve d w =
      handle ch queue max_retries (consume_event db render send decode)
        (record_exhausted db email_of) unmarshal d w

  -- the world when the exhausted delivery is about to be parked
  abbrev noted : Envelope → Error → W → W
  noted env e w =
      call_exhausted (record_exhausted db email_of) env e
        (consume_event db render send decode env w).1
