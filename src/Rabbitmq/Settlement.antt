-- ===== src/Rabbitmq/Settlement.antt =====
-- pkg/messaging/rabbitmq/consumer.go: how a delivery is settled.
use go_microservice.Prelude.{
  ℕ, suc, String, Bool, true, false, ◌≡◌, ◌∙◌, ap, refl, Bool-cases, inl, inr,
}
use go_microservice.Prelude.Int.{ℤ, ltb_ℤ}
use go_microservice.Apperror.{Error}
use go_microservice.Effect.{Result, ok, err}
use go_microservice.Rabbitmq.{
  Envelope, Delivery, Publishing, Channel, Handler, OnExhausted, call_exhausted, handle,
  handle_decoded, after_handler, park, after_park, parked, retries_so_far, retry_queue_name,
  dlq_queue_name,
}

-- `settled t w` counts the Ack and Nack calls made for delivery `t`; only those calls change it.
pub record CountsSettlements {W : Type 0} (ch : Channel W) (h : Handler W)
    (on_exhausted : OnExhausted W) (settled : ℕ → W → ℕ) : Type 0 where
  pub ack : (t : ℕ) (w : W) → settled t (ch.ack t w).1 ≡ suc (settled t w)
  pub nack :
      (t : ℕ) (requeue : Bool) (w : W) → settled t (ch.nack t requeue w).1 ≡ suc (settled t w)
  pub publish :
      (t : ℕ) (x k : String) (p : Publishing) (w : W)
      → settled t (ch.publish x k p w).1 ≡ settled t w
  pub handler : (t : ℕ) (env : Envelope) (w : W) → settled t (h env w).1 ≡ settled t w
  pub exhausted :
      (t : ℕ) (env : Envelope) (e : Error) (w : W)
      → settled t (call_exhausted on_exhausted env e w) ≡ settled t w

module _ {W : Type 0} (ch : Channel W) (queue : String) (max_retries : ℤ) (h : Handler W)
    (on_exhausted : OnExhausted W) where
  module _ (settled : ℕ → W → ℕ) (law : CountsSettlements ch h on_exhausted settled) where
    after_park-settles :
        (d : Delivery) (p : Result (Unit {0}) × W)
        → settled d.tag (after_park ch queue d p) ≡ suc (settled d.tag p.1)
    unfolding after_park
    after_park-settles d (err e, w) = law.nack d.tag true w
    after_park-settles d (ok u, w) = law.ack d.tag w

    park-settles :
        (d : Delivery) (env : Envelope) (w : W)
        → settled d.tag (park ch queue d env w) ≡ suc (settled d.tag w)
    unfolding park
    park-settles d env w =
        after_park-settles d (ch.publish "" (dlq_queue_name queue) (parked d env) w)
        ∙ ap suc (law.publish d.tag _ _ _ w)

    after_handler-settles :
        (d : Delivery) (env : Envelope) (p : Result (Unit {0}) × W)
        → settled d.tag (after_handler ch queue max_retries h on_exhausted d env p)
          ≡ suc (settled d.tag p.1)
    unfolding after_handler
    after_handler-settles d env (ok u, w) = law.ack d.tag w
    after_handler-settles d env (err e, w) =
        elim (Bool-cases (ltb_ℤ (retries_so_far d (retry_queue_name queue)) max_retries)) [
          | inl again ↦ rw again (law.nack d.tag false w)
          | inr enough ↦ rw enough (
              park-settles d env (call_exhausted on_exhausted env e w)
              ∙ ap suc (law.exhausted d.tag env e w))
        ]

    handle_decoded-settles :
        (d : Delivery) (m : Result Envelope) (w : W)
        → settled d.tag (handle_decoded ch queue max_retries h on_exhausted d m w)
          ≡ suc (settled d.tag w)
    unfolding handle_decoded
    handle_decoded-settles d (err e) w = law.ack d.tag w
    handle_decoded-settles d (ok env) w =
        after_handler-settles d env (h env w) ∙ ap suc (law.handler d.tag env w)

    -- Whatever the body, the handler, the retry count and the broker do, one delivery is settled
    -- by exactly one Ack or Nack.
    pub handle-settles_once :
        (unmarshal : String → Result Envelope) (d : Delivery) (w : W)
        → settled d.tag (handle ch queue max_retries h on_exhausted unmarshal d w)
          ≡ suc (settled d.tag w)
    unfolding handle
    handle-settles_once unmarshal d w = handle_decoded-settles d (unmarshal d.body) w

  after_park-err :
      (d : Delivery) (p : Result (Unit {0}) × W) (e : Error)
      → p.0 ≡ err e
      → after_park ch queue d p ≡ (ch.nack d.tag true p.1).1
  unfolding after_park
  after_park-err d (err e', w) e h = refl
  after_park-err d (ok u, w) e h = cc

  after_handler-exhausted :
      (d : Delivery) (env : Envelope) (p : Result (Unit {0}) × W) (e : Error)
      → p.0 ≡ err e
      → ltb_ℤ (retries_so_far d (retry_queue_name queue)) max_retries ≡ false
      → after_handler ch queue max_retries h on_exhausted d env p
        ≡ park ch queue d env (call_exhausted on_exhausted env e p.1)
  unfolding after_handler
  after_handler-exhausted d env (ok u, w) e f enough = cc
  after_handler-exhausted d env (err e', w) e f enough = rw enough (cc f)

  -- retries exhausted and the publish to the dead-letter queue refused: requeued
  pub handle-unparked :
      (unmarshal : String → Result Envelope) (d : Delivery) (env : Envelope) (e e' : Error) (w : W)
      → unmarshal d.body ≡ ok env
      → (h env w).0 ≡ err e
      → ltb_ℤ (retries_so_far d (retry_queue_name queue)) max_retries ≡ false
      → let v = call_exhausted on_exhausted env e (h env w).1 in
        let sent = ch.publish "" (dlq_queue_name queue) (parked d env) v in
        sent.0 ≡ err e'
        → handle ch queue max_retries h on_exhausted unmarshal d w ≡ (ch.nack d.tag true sent.1).1
  unfolding handle
  handle-unparked unmarshal d env e e' w read fails enough lost = rw read (
      unfold handle_decoded in
      after_handler-exhausted d env (h env w) e fails enough
      ∙ (unfold park in after_park-err d _ e' lost))
