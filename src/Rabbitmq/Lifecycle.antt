-- ===== src/Rabbitmq/Lifecycle.antt =====
-- The whole life of a delivery: the broker hands it to the consumer again until it is acknowledged.
use go_microservice.Prelude.{
  ℕ, zero, suc, ◌+◌, String, Bool, true, false, ◌≡◌, refl, Option, none, some, ◌⊎◌, inl, inr, arith,
  Bool-cases, ◌<◌,
}
use go_microservice.Prelude.Int.{pos, ltb_ℤ}
use go_microservice.Effect.{Result, ok, err}
use go_microservice.Rabbitmq.{
  Envelope, Delivery, Publishing, Channel, Handler, OnExhausted, handle, handle_decoded,
  after_handler, park, after_park, retries_so_far, retry_queue_name, dlq_queue_name,
}

-- the last settlement that reached the broker
pub data Verdict : Type 0 where
  acked : Verdict
  nacked : (requeue : Bool) → Verdict

-- What the broker is documented to do: it takes settlements and publishes to the dead-letter queue,
-- and `redeliver`, one cycle through the retry queue, counts one more death there.
pub record Redelivers {W : Type 0} (ch : Channel W) (queue : String)
    (redeliver : Delivery → Delivery) (verdict : W → Verdict) : Type 0 where
  pub after_ack : (t : ℕ) (w : W) → verdict (ch.ack t w).1 ≡ acked
  pub after_nack :
      (t : ℕ) (requeue : Bool) (w : W) → verdict (ch.nack t requeue w).1 ≡ nacked requeue
  pub taken : (p : Publishing) (w : W) → (ch.publish "" (dlq_queue_name queue) p w).0 ≡ ok tt
  pub counted :
      (d : Delivery) (r : ℕ)
      → retries_so_far d (retry_queue_name queue) ≡ pos r
      → retries_so_far (redeliver d) (retry_queue_name queue) ≡ pos (suc r)

module _ {W : Type 0} (ch : Channel W) (queue : String) (m : ℕ) (h : Handler W)
    (on_exhausted : OnExhausted W) (unmarshal : String → Result Envelope)
    (redeliver : Delivery → Delivery) (verdict : W → Verdict) where
  -- The world once the delivery is acknowledged, if that takes at most `n` calls of handle. After a
  -- Nack with requeue the same delivery comes back, after one without, a cycle later, the next one.
  follow : (Delivery → W → Option W) → Delivery → W → Verdict → Option W
  follow rest d w acked = some w
  follow rest d w (nacked true) = rest d w
  follow rest d w (nacked false) = rest (redeliver d) w

  unfoldable pub lifetime : ℕ → Delivery → W → Option W
  unfolding follow
  lifetime zero d w = none
  lifetime (suc n) d w =
      let w' = handle ch queue (pos m) h on_exhausted unmarshal d w in
      follow (lifetime n) d w' (verdict w')

  module _ (law : Redelivers ch queue redeliver verdict) where
    after_park-verdict :
        (d : Delivery) (p : Result (Unit {0}) × W)
        → p.0 ≡ ok tt
        → verdict (after_park ch queue d p) ≡ acked
    unfolding after_park
    after_park-verdict d (err e, w) h = cc
    after_park-verdict d (ok u, w) h = law.after_ack d.tag w

    after_handler-verdict :
        (d : Delivery) (env : Envelope) (p : Result (Unit {0}) × W) (r : ℕ)
        → retries_so_far d (retry_queue_name queue) ≡ pos r
        → let v = verdict (after_handler ch queue (pos m) h on_exhausted d env p) in
          (v ≡ acked) ⊎ ((v ≡ nacked false) × (r < m))
    unfolding after_handler park
    after_handler-verdict d env (ok u, w) r seen = inl (law.after_ack d.tag w)
    after_handler-verdict d env (err e, w) r seen = elim (Bool-cases (ltb_ℤ (pos r) (pos m))) [
      | inl again ↦ rw (seen, again) (inr (law.after_nack d.tag false w, ground arith))
      | inr enough ↦ rw (seen, enough) (inl (after_park-verdict d _ (law.taken _ _)))
    ]

    handle_decoded-verdict :
        (d : Delivery) (o : Result Envelope) (w : W) (r : ℕ)
        → retries_so_far d (retry_queue_name queue) ≡ pos r
        → let v = verdict (handle_decoded ch queue (pos m) h on_exhausted d o w) in
          (v ≡ acked) ⊎ ((v ≡ nacked false) × (r < m))
    unfolding handle_decoded
    handle_decoded-verdict d (err e) w r seen = inl (law.after_ack d.tag w)
    handle_decoded-verdict d (ok env) w r seen = after_handler-verdict d env (h env w) r seen

    handle-verdict :
        (d : Delivery) (w : W) (r : ℕ)
        → retries_so_far d (retry_queue_name queue) ≡ pos r
        → let v = verdict (handle ch queue (pos m) h on_exhausted unmarshal d w) in
          (v ≡ acked) ⊎ ((v ≡ nacked false) × (r < m))
    unfolding handle
    handle-verdict d w r seen = handle_decoded-verdict d (unmarshal d.body) w r seen

    acked-ends :
        (rest : Delivery → W → Option W) (d : Delivery) (w : W) (v : Verdict)
        → v ≡ acked
        → follow rest d w v ≡ some w
    unfolding follow
    acked-ends rest d w v e = rw e refl

    -- While the broker takes settlements and publishes to the dead-letter queue, and counts every
    -- cycle through the retry queue, a delivery that was retried r times, with r + k = maxRetries, is
    -- acknowledged after at most k + 1 calls of handle, whatever its body is and whatever the handler
    -- and the hook do: a message does not circulate for ever.
    pub lifetime-ends :
        (k : ℕ) (d : Delivery) (w : W) (r : ℕ)
        → retries_so_far d (retry_queue_name queue) ≡ pos r
        → r + k ≡ m
        → (w' : W) × (lifetime (suc k) d w ≡ some w')
    unfolding lifetime follow
    lifetime-ends zero d w r seen fits = elim (handle-verdict d w r seen) [
      | inl done ↦ (_, acked-ends (lifetime 0) d _ _ done)
      | inr (back, more) ↦ absurd (omega (arith, fits, more))
    ]
    lifetime-ends (suc k) d w r seen fits =
        let rest =
          lifetime-ends k (redeliver d) (handle ch queue (pos m) h on_exhausted unmarshal d w)
            (suc r) (law.counted d r seen) (omega (arith, fits)) in
        elim (handle-verdict d w r seen) [
          | inl done ↦ (_, acked-ends (lifetime (suc k)) d _ _ done)
          | inr (back, more) ↦ rw back rest
        ]
