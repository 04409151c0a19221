-- ===== src/Rabbitmq/Retries.antt =====
-- How often a delivery that always fails is handled, and where it ends.
use go_microservice.Prelude.{ℕ, zero, suc, ◌+◌, String, false, ◌≡◌}
use go_microservice.Prelude.Int.{pos}
use go_microservice.Apperror.{Error}
use go_microservice.Effect.{Result, ok, err}
use go_microservice.Rabbitmq.{
  Envelope, Delivery, Publishing, Channel, Handler, OnExhausted, call_exhausted, handle,
  retries_so_far, retry_queue_name, dlq_queue_name,
}

-- A handler that fails on `env` whatever the world is, and what the broker is documented to do:
-- `redeliver` is one cycle through the retry queue, which counts one more death there and keeps
-- the body; a publish to the dead-letter queue is taken. `calls` counts the handler's calls and
-- `copies` what was published to the dead-letter queue; only the handler and such a publish change
-- them.
pub record FailsForever {W : Type 0} (ch : Channel W) (queue : String) (h : Handler W)
    (on_exhausted : OnExhausted W) (redeliver : Delivery → Delivery) (env : Envelope)
    (calls copies : W → ℕ) : Type 0 where
  pub failure : W → Error
  pub fails : (w : W) → (h env w).0 ≡ err (failure w)
  pub body : (d : Delivery) → (redeliver d).body ≡ d.body
  pub counted :
      (d : Delivery) (r : ℕ)
      → retries_so_far d (retry_queue_name queue) ≡ pos r
      → retries_so_far (redeliver d) (retry_queue_name queue) ≡ pos (suc r)
  pub taken : (p : Publishing) (w : W) → (ch.publish "" (dlq_queue_name queue) p w).0 ≡ ok tt
  pub calls_handler : (w : W) → calls (h env w).1 ≡ suc (calls w)
  pub calls_ack : (t : ℕ) (w : W) → calls (ch.ack t w).1 ≡ calls w
  pub calls_nack : (t : ℕ) (w : W) → calls (ch.nack t false w).1 ≡ calls w
  pub calls_publish :
      (p : Publishing) (w : W) → calls (ch.publish "" (dlq_queue_name queue) p w).1 ≡ calls w
  pub calls_exhausted : (e : Error) (w : W) → calls (call_exhausted on_exhausted env e w) ≡ calls w
  pub copies_handler : (w : W) → copies (h env w).1 ≡ copies w
  pub copies_ack : (t : ℕ) (w : W) → copies (ch.ack t w).1 ≡ copies w
  pub copies_nack : (t : ℕ) (w : W) → copies (ch.nack t false w).1 ≡ copies w
  pub copies_publish :
      (p : Publishing) (w : W)
      → copies (ch.publish "" (dlq_queue_name queue) p w).1 ≡ suc (copies w)
  pub copies_exhausted :
      (e : Error) (w : W) → copies (call_exhausted on_exhausted env e w) ≡ copies w

module _ {W : Type 0} (ch : Channel W) (queue : String) (m : ℕ) (h : Handler W)
    (on_exhausted : OnExhausted W) (unmarshal : String → Result Envelope)
    (redeliver : Delivery → Delivery) (env : Envelope) (calls copies : W → ℕ)
    (law : FailsForever ch queue h on_exhausted redeliver env calls copies) where
  abbrev once : Delivery → W → W
  once d w = handle ch queue (pos m) h on_exhausted unmarshal d w

  -- `k` cycles through the retry queue: handle, then redeliver
  abbrev pub cycles : ℕ → Delivery → W → Delivery × W
  cycles zero d w = (d, w)
  cycles (suc k) d w = cycles k (redeliver d) (once d w)

  -- What `k` cycles leave, if `r` were counted before and no more than `m` are counted then.
  record Cycled (d : Delivery) (w : W) (r k : ℕ) : Type 0 where
    decoded : unmarshal (cycles k d w).0.body ≡ ok env
    seen : retries_so_far (cycles k d w).0 (retry_queue_name queue) ≡ pos (r + k)
    called : calls (cycles k d w).1 ≡ calls w + k
    copied : copies (cycles k d w).1 ≡ copies w
