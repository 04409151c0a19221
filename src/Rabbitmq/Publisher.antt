-- ===== src/Rabbitmq/Publisher.antt =====
-- pkg/messaging/rabbitmq/publisher.go and NewEnvelope of envelope.go. The channel in confirm mode,
-- json.Marshal, uuid.NewString and the clock are parameters.
use go_microservice.Prelude.{ℕ, String, Bool, true, false, ◌≡◌, refl, ◌↔◌, arith}
use go_microservice.Prelude.Int.{pos}
use go_microservice.Prelude.Text.{◌⧺◌}
use go_microservice.Apperror.{wrap, foreign, plain}
use go_microservice.Effect.{Result, ok, err, Prog}
use go_microservice.Http.{Time, Context}
use go_microservice.Middleware.{get_request_id}
use go_microservice.Rabbitmq.{Envelope, Publishing}

-- What a publish hands back to wait on, and its confirmation: true if the broker accepted.
pub record ConfirmChannel (W : Type 0) : Type 0 where
  pub publish_deferred : String → String → Publishing → Prog W ℕ
  pub wait : ℕ → Prog W Bool

abbrev pub publishing : Envelope → String → Publishing
publishing env body = record {
  content_type = "application/json";
  persistent = true;
  message_id = env.event_id;
  timestamp = env.timestamp;
  event_type = env.event_type;
  body = body;
}

module _ {W : Type 0} where
  -- after confirm.WaitContext
  conclude : Envelope → Result Bool × W → Result (Unit {0}) × W
  conclude env (err e, w) =
      (err (wrap ("waiting for broker confirmation of event " ⧺ env.event_type) e), w)
  conclude env (ok true, w) = (ok tt, w)
  conclude env (ok false, w) =
      let what = "broker nacked event " ⧺ env.event_type ⧺ " (event_id=" ⧺ env.event_id ⧺ ")" in
      (err (foreign plain what), w)

  module _ (ch : ConfirmChannel W) where
    -- after PublishWithDeferredConfirmWithContext
    await : Envelope → Result ℕ × W → Result (Unit {0}) × W
    unfolding conclude
    await env (err e, w) = (err (wrap ("publishing event " ⧺ env.event_type) e), w)
    await env (ok confirm, w) = conclude env (ch.wait confirm w)

    -- after json.Marshal
    transmit : String → String → Envelope → Result String → Prog W (Unit {0})
    unfolding await
    transmit exchange routing_key env (err e) w = (err (wrap "marshaling envelope" e), w)
    transmit exchange routing_key env (ok body) w =
        await env (ch.publish_deferred exchange routing_key (publishing env body) w)

  module _ (marshal : Envelope → Result String) (ch : ConfirmChannel W) where
    unfoldable pub publish : String → String → Envelope → Prog W (Unit {0})
    unfolding transmit
    publish exchange routing_key env w = transmit ch exchange routing_key env (marshal env) w

    -- the broker confirmed the message that was made from `env`
    pub record Confirmed (exchange routing_key : String) (env : Envelope) (w : W) : Type 0 where
      pub body : String
      pub confirm : ℕ
      pub marshalled : marshal env ≡ ok body
      pub sent : (ch.publish_deferred exchange routing_key (publishing env body) w).0 ≡ ok confirm
      pub accepted :
          (ch.wait confirm (ch.publish_deferred exchange routing_key (publishing env body) w).1).0
          ≡ ok true

  -- uuid.NewString and time.Now().UTC() draw from the world.
  module _ (new_uuid : W → String × W) (now : W → Time × W) where
    unfoldable pub new_envelope : Context → String → Result String → Prog W Envelope
    new_envelope ctx event_type payload w = elim payload [
      | err e ↦ (err (wrap "marshaling event payload" e), w)
      | ok raw ↦
          let (id, w₁) = new_uuid w in
          let (t, w₂) = now w₁ in
          (
            ok (record {
              event_id = id;
              event_type = event_type;
              payload = raw;
              trace_id = get_request_id ctx;
              timestamp = t;
              version = pos 1;
            }),
            w₂,
          )
    ]

module _ {W : Type 0} (marshal : Envelope → Result String) (ch : ConfirmChannel W) where
  conclude-eq-ok :
      (env : Envelope) (p : Result Bool × W) → (conclude env p).0 ≡ ok tt → p.0 ≡ ok true
  unfolding conclude
  conclude-eq-ok env (err e, w) h = cc
  conclude-eq-ok env (ok true, w) h = refl
  conclude-eq-ok env (ok false, w) h = cc

  await-eq-ok :
      (env : Envelope) (p : Result ℕ × W)
      → (await ch env p).0 ≡ ok tt
      → (confirm : ℕ) × (p.0 ≡ ok confirm) × ((ch.wait confirm p.1).0 ≡ ok true)
  unfolding await
  await-eq-ok env (err e, w) h = cc
  await-eq-ok env (ok confirm, w) h = (confirm, refl, conclude-eq-ok env (ch.wait confirm w) h)

  module _ (exchange routing_key : String) (env : Envelope) (w : W) where
    publish_sound :
        (m : Result String)
        → marshal env ≡ m
        → (transmit ch exchange routing_key env m w).0 ≡ ok tt
        → Confirmed marshal ch exchange routing_key env w
    unfolding transmit
    publish_sound (err e) marshalled h = cc
    publish_sound (ok body) marshalled h =
        let sent = ch.publish_deferred exchange routing_key (publishing env body) w in
        let (confirm, taken, accepted) = await-eq-ok env sent h in
        record {
          body = body;
          confirm = confirm;
          marshalled = marshalled;
          sent = taken;
          accepted = accepted;
        }

    publish_complete :
        Confirmed marshal ch exchange routing_key env w
        → (publish marshal ch exchange routing_key env w).0 ≡ ok tt
    unfolding publish
    publish_complete c = rw c.marshalled (ground (arith, c.sent, c.accepted))

    -- Publish returns no error exactly if the envelope could be marshalled, the channel took the
    -- message that carries it, and the broker confirmed that message.
    pub publish-ok_iff :
        ((publish marshal ch exchange routing_key env w).0 ≡ ok tt)
        ↔ Confirmed marshal ch exchange routing_key env w
    unfolding publish
    publish-ok_iff = (publish_sound (marshal env) refl, publish_complete)
