-- ===== src/Auth/Race.antt =====
-- Two Refresh requests with one token, each looked up before either deletes it.
use go_microservice.Prelude.{
  String, Bool, true, false, ◌≡◌, ◌≢◌, refl, ◌∙◌, Option, some, ◌==◌, eq_refl, if◌then◌else◌, sym,
}
use go_microservice.Prelude.Text.{ne-eq_false}
use go_microservice.Prelude.Int.{ℤ, IsInt64}
use go_microservice.Effect.{ok}
use go_microservice.Auth.{Service, TokenPair, redeem}
use go_microservice.Auth.Sessions.{SessionLaws, redeem_lem}

module _ {W : Type 0} (s : Service W) (Valid : W → Type 0) (holds : W → String → Option ℤ)
    (law : SessionLaws s Valid holds) (id : ℤ) (fits : IsInt64 id) where
  -- Refresh looks the token up and only then deletes it, and deleting a token that is gone is no
  -- error. So while the token store answers and every id is signed: if two requests with one stored
  -- token have both looked it up, and the first completes (its delete, its issue and its save)
  -- before the second deletes, both succeed, and both new refresh tokens are stored for the user
  -- (the first one unless it is the old text again): the token was exchanged twice.
  pub redeem-redeem :
      (t : String) (w : W)
      → Valid w
      → holds w t ≡ some id
      → let first = redeem s t id w in
        let second = redeem s t id first.1 in
        (s.token_store.user_id t w ≡ (ok id, w))
        × ((p : TokenPair) × (q : TokenPair) × (first.0 ≡ ok p)
            × (second.0 ≡ ok q)
            × (holds second.1 q.refresh_token ≡ some id)
            × (p.refresh_token ≢ t → holds second.1 p.refresh_token ≡ some id))
  redeem-redeem t w v e =
      let a = redeem_lem s Valid holds law id fits t w v in
      let b = redeem_lem s Valid holds law id fits t (redeem s t id w).1 a.valid in
      let mine : holds (redeem s t id w).1 a.pair.refresh_token ≡ some id =
        a.stored a.pair.refresh_token ∙ rw eq_refl in
      (
        law.store.found t id w v e,
        (
          a.pair,
          b.pair,
          a.given,
          b.given,
          b.stored b.pair.refresh_token ∙ rw eq_refl,
          λ differ.
              let kept : (t == a.pair.refresh_token) ≡ false =
                ne-eq_false t _ (λ q. differ (sym q)) in
              b.stored a.pair.refresh_token
              ∙ rw (kept, mine) (either_same (b.pair.refresh_token == a.pair.refresh_token)),
        ),
      )
    where
      either_same : (x : Bool) → (if x then some id else some id) ≡ some id
      either_same true = refl
      either_same false = refl
