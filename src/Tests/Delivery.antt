-- ===== src/Tests/Delivery.antt =====
-- The life of a delivery whose handler always fails.
use go_microservice.Prelude.{◌≡◌, refl, some, none}
use go_microservice.Effect.{ok, err}
use go_microservice.Rabbitmq.{Channel, Handler}
use go_microservice.Rabbitmq.Lifecycle.{Verdict, acked, nacked, Redelivers, lifetime, lifetime-ends}
use go_microservice.Tests.Rabbitmq.{delivery, redeliver, counted, never_retried, unmarshal, broken}

-- The world is the last settlement.
abbrev settles : Channel Verdict
settles = record {
  ack = λ t w. (ok tt, acked);
  nack = λ t requeue w. (ok tt, nacked requeue);
  publish = λ x k m w. (ok tt, w);
}

abbrev fails : Handler Verdict
fails env w = (err broken, w)

redelivers : Redelivers settles "mail" redeliver (λ w. w)
redelivers = record {
  after_ack = λ t w. refl;
  after_nack = λ t requeue w. refl;
  taken = λ p w. refl;
  counted = counted;
}

lifetime-ends_example :
    (w : Verdict) × (lifetime settles "mail" 3 fails none unmarshal redeliver
        (λ w. w)
        4
        delivery
        acked
      ≡ some w)
lifetime-ends_example =
    lifetime-ends settles "mail" 3 fails none unmarshal redeliver (λ w. w) redelivers 3 delivery
      acked 0 never_retried refl
