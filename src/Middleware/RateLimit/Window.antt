-- ===== src/Middleware/RateLimit/Window.antt =====
-- One fixed window of the rate limiter.
use go_microservice.Prelude.{
  ℕ, zero, suc, ◌<◌, ◌≤◌, String, Option, some, ◌≡◌, refl, ap, ◌∙◌, true, false, arith,
}
use go_microservice.Prelude.Int.{ℤ, pos, ltb_ℤ}
use go_microservice.Prelude.Text.{◌⧺◌}
use go_microservice.Effect.{Result, ok, continue_of_ok, pure}
use go_microservice.Http.{Request, Handler, Conn, returned, set_header}
use go_microservice.Response
use go_microservice.Middleware.RateLimit.{
  Counters, incr_script, client_ip, too_many_requests, decide, limited, rate_limit, is_one,
}

-- Redis while it answers and the window lasts: `hits w k` is the number at `k`.
pub record CountsHits {W : Type 0} (db : Counters W) (hits : W → String → ℕ) : Type 0 where
  pub incr : (k : String) (w : W) → (db.incr k w).0 ≡ ok (pos (suc (hits w k)))
  pub incr_hits : (k : String) (w : W) → hits (db.incr k w).1 k ≡ suc (hits w k)
  pub expire : (k x : String) (w : W) → (db.expire k x w).0 ≡ ok tt
  pub expire_hits : (k x : String) (w : W) → hits (db.expire k x w).1 k ≡ hits w k

module _ {W : Type 0} (db : Counters W) (hits : W → String → ℕ) (law : CountsHits db hits) where
  abbrev Counted : String → W → ℕ → Result ℤ × W → Type 0
  Counted k w n p = (p.0 ≡ ok (pos (suc n))) × (hits p.1 k ≡ suc n)

  script_lem : (k x : String) (w : W) (n : ℕ) → hits w k ≡ n → Counted k w n (incr_script db k x w)
  unfolding incr_script
  script_lem k x w zero e =
      let p = db.incr k w in
      let first : p.0 ≡ ok (pos 1) = law.incr k w ∙ ap (λ n. ok (pos (suc n))) e in
      let ran : incr_script db k x w ≡ (ok (pos 1), (db.expire k x p.1).1) =
        continue_of_ok p _ (pos 1) first
        ∙ continue_of_ok (db.expire k x p.1) (λ _. pure (pos 1)) tt (law.expire k x p.1) in
      (
        ap (λ q. q.0) ran,
        ap (λ (q : Result ℤ × W). hits q.1 k) ran
            ∙ law.expire_hits k x p.1
            ∙ law.incr_hits k w
            ∙ ap suc e,
      )
  script_lem k x w (suc n) e =
      let p = db.incr k w in
      let later : p.0 ≡ ok (pos (suc (suc n))) = law.incr k w ∙ ap (λ n. ok (pos (suc n))) e in
      let not_first : is_one (pos (suc (suc n))) ≡ false = ground arith in
      let ran : incr_script db k x w ≡ (ok (pos (suc (suc n))), p.1) =
        continue_of_ok p _ (pos (suc (suc n))) later ∙ rw not_first refl in
      (ap (λ q. q.0) ran, ap (λ (q : Result ℤ × W). hits q.1 k) ran ∙ law.incr_hits k w ∙ ap suc e)

  decide_lem :
      (split_host_port : String → Option String) (window : String) (m n : ℕ) (next : Handler W)
      (r : Request) (found : Result ℤ) (c : Conn W)
      → found ≡ ok (pos (suc n))
      → (n < m → decide split_host_port window (pos m) next r found c ≡ next r c)
        × (m ≤ n
            → decide split_host_port window (pos m) next r found c ≡ (
              returned,
              Response.json_response 429 too_many_requests (set_header "Retry-After" window c),
            ))
  unfolding decide
  decide_lem split_host_port window m n next r found c e = rw e (
    λ lt. let passes : ltb_ℤ (pos m) (pos (suc n)) ≡ false = ground arith in rw passes refl,
    λ ge. let refuses : ltb_ℤ (pos m) (pos (suc n)) ≡ true = ground arith in rw refuses refl,
  )

  module _ (split : String → Option String) (namespace window : String) (m : ℕ) (next : Handler W)
      (r : Request) (c : Conn W) where
    abbrev pub key : String
    key = "rl:" ⧺ namespace ⧺ ":" ⧺ client_ip split r

    abbrev pub counted : Conn W
    counted = record c { world = (incr_script db key window c.world).1 }

    -- In a window in which Redis answers, a request of a client that made n before it reaches the
    -- handler if n is below the limit, is answered with 429 and Retry-After if it is not, and is
    -- counted either way.
    pub rate_limit_cases :
        (n : ℕ)
        → hits c.world key ≡ n
        → (hits counted.world key ≡ suc n)
          × (n < m → rate_limit split (some db) namespace (pos m) window next r c ≡ next r counted)
          × (m ≤ n
              → rate_limit split (some db) namespace (pos m) window next r c ≡ (
                returned,
                Response.json_response 429 too_many_requests
                    (set_header "Retry-After" window counted),
              ))
    unfolding rate_limit limited decide
    rate_limit_cases n e =
        let (given, after) = script_lem key window c.world n e in
        let (below, above) = decide_lem split window m n next r _ counted given in
        (after, below, above)
