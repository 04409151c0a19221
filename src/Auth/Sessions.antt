-- ===== src/Auth/Sessions.antt =====
-- services/auth: the life of a refresh token, from its issue to its exchange or revocation.
use go_microservice.Prelude.{
  String, false, ◌≡◌, ◌≢◌, ◌∙◌, sym, ap, Option, none, some, ◌==◌, eq_refl, if◌then◌else◌,
}
use go_microservice.Prelude.Text.{ne-eq_false}
use go_microservice.Prelude.Int.{ℤ, IsInt64}
use go_microservice.Apperror.{Error, app, unauthorized}
use go_microservice.Effect.{Result, ok, err, rescue_of_ok}
use go_microservice.Auth.{Service, TokenPair, issue_token_pair, token_pair, redeem, refresh, logout}
use go_microservice.Auth.Store.{StoreLaws}

abbrev pub no_such_token : Error
no_such_token = app (unauthorized "invalid or expired refresh token")

-- The token store keeps its laws, the issuer signs every id, and neither the issuer nor
-- uuid.NewString touches the stored tokens.
pub record SessionLaws {W : Type 0} (s : Service W) (Valid : W → Type 0)
    (holds : W → String → Option ℤ) : Type 0 where
  pub store : StoreLaws s.token_store Valid holds
  pub signed : ℤ → ℤ → W → String
  pub issue : (id x : ℤ) (w : W) → (s.issue id x w).0 ≡ ok (signed id x w)
  pub issue_valid : (id x : ℤ) (w : W) → Valid w → Valid (s.issue id x w).1
  pub issue_holds : (id x : ℤ) (w : W) (u : String) → holds (s.issue id x w).1 u ≡ holds w u
  pub uuid_valid : (w : W) → Valid w → Valid (s.new_uuid w).1
  pub uuid_holds : (w : W) (u : String) → holds (s.new_uuid w).1 u ≡ holds w u

-- `out` is a success that hands out a pair whose access token the issuer signed for `id`, and
-- whose refresh token is stored for `id` over `before`.
pub record HandsOut {W : Type 0} (s : Service W) (Valid : W → Type 0)
    (holds : W → String → Option ℤ) (id : ℤ) (before : String → Option ℤ)
    (out : Result TokenPair × W) : Type 0 where
  pub pair : TokenPair
  pub given : out.0 ≡ ok pair
  pub signed_for : (v : W) × ((s.issue id s.access_expiry v).0 ≡ ok pair.access_token)
  pub valid : Valid out.1
  pub stored :
      (u : String) → holds out.1 u ≡ (if pair.refresh_token == u then some id else before u)

module _ {W : Type 0} (s : Service W) (Valid : W → Type 0) (holds : W → String → Option ℤ)
    (law : SessionLaws s Valid holds) where
  refresh_unknown :
      (t : String) (w : W) → Valid w → holds w t ≡ none → refresh s t w ≡ (err no_such_token, w)
  unfolding refresh
  refresh_unknown t w v e = rw (law.store.missing t w v e)

  module _ (id : ℤ) (fits : IsInt64 id) where
    pub issue_token_pair_lem :
        (w : W) → Valid w → HandsOut s Valid holds id (holds w) (issue_token_pair s id w)
    unfolding issue_token_pair
    issue_token_pair_lem w v =
        let w₁ = (s.issue id s.access_expiry w).1 in
        let v₁ = law.issue_valid id s.access_expiry w v in
        let fresh = (s.new_uuid w₁).0 in
        let w₂ = (s.new_uuid w₁).1 in
        let v₂ = law.uuid_valid w₁ v₁ in
        let (saved, v₃, stored) = law.store.save fresh id s.refresh_expiry w₂ fits v₂ in
        let pair = token_pair s (law.signed id s.access_expiry w) fresh in
        let ran : issue_token_pair s id w
            ≡ (ok pair, (s.token_store.save fresh id s.refresh_expiry w₂).1) =
          rescue_of_ok (s.issue id s.access_expiry w) _ _ _ (law.issue id s.access_expiry w)
          ∙ rescue_of_ok (s.token_store.save fresh id s.refresh_expiry w₂) _ _ tt saved in
        record {
          pair = pair;
          given = ap (λ p. p.0) ran;
          signed_for = (w, law.issue id s.access_expiry w);
          valid = rw ran v₃;
          stored = λ u.
              ap (λ (p : Result TokenPair × W). holds p.1 u) ran
              ∙ stored u
              ∙ ap (λ b. if fresh == u then some id else b)
                  (law.uuid_holds w₁ u ∙ law.issue_holds id s.access_expiry w u);
        }

    pub redeem_lem :
        (t : String) (w : W)
        → Valid w
        → HandsOut s Valid holds id (λ u. if t == u then none else holds w u) (redeem s t id w)
    unfolding redeem
    redeem_lem t w v =
        let (gone, v', left) = law.store.delete t w v in
        let w' = (s.token_store.delete t w).1 in
        let out = issue_token_pair_lem w' v' in
        let ran : redeem s t id w ≡ issue_token_pair s id w' =
          rescue_of_ok (s.token_store.delete t w) _ _ tt gone in
        record {
          pair = out.pair;
          given = ap (λ p. p.0) ran ∙ out.given;
          signed_for = out.signed_for;
          valid = rw ran out.valid;
          stored = λ u.
              ap (λ (p : Result TokenPair × W). holds p.1 u) ran
              ∙ out.stored u
              ∙ ap (λ b. if out.pair.refresh_token == u then some id else b) (left u);
        }

    -- While the token store answers and the issuer signs every id: Refresh with a stored token hands
    -- out a new pair. Its access token is one that the issuer signed for the token's user, its
    -- refresh token is stored for that user, the old token is gone (unless the new one is the same
    -- text), and every other token is as it was.
    pub refresh-HandsOut :
        (t : String) (w : W)
        → Valid w
        → holds w t ≡ some id
        → HandsOut s Valid holds id (λ u. if t == u then none else holds w u) (refresh s t w)
    unfolding refresh
    refresh-HandsOut t w v e = rw (law.store.found t id w v e) (redeem_lem t w v)

    -- A refresh token is good once: after a Refresh that drew another token, the old one is
    -- refused as unknown, and the refusal changes nothing.
    pub refresh-refresh :
        (t : String) (w : W) (pair : TokenPair)
        → Valid w
        → holds w t ≡ some id
        → (refresh s t w).0 ≡ ok pair
        → pair.refresh_token ≢ t
        → refresh s t (refresh s t w).1 ≡ (err no_such_token, (refresh s t w).1)
    refresh-refresh t w pair v e given differ =
        let out = refresh-HandsOut t w v e in
        let same : out.pair ≡ pair = cc (sym out.given ∙ given) in
        let other : (out.pair.refresh_token == t) ≡ false =
          ne-eq_false _ t (λ q. differ (ap (λ (p : TokenPair). p.refresh_token) (sym same) ∙ q)) in
        refresh_unknown t (refresh s t w).1 out.valid (out.stored t ∙ rw (other, eq_refl))

  -- While the token store answers, so that its Delete succeeds: Logout succeeds, and after it the
  -- token is refused as unknown, and the refusal changes nothing.
  pub refresh-logout :
      (t : String) (w : W)
      → Valid w
      → ((logout s t w).0 ≡ ok tt)
        × (refresh s t (logout s t w).1 ≡ (err no_such_token, (logout s t w).1))
  unfolding logout
  refresh-logout t w v =
      let (gone, v', left) = law.store.delete t w v in
      (gone, refresh_unknown t (s.token_store.delete t w).1 v' (left t ∙ rw eq_refl))
