-- ===== src/Token.antt =====
-- pkg/token/jwt.go and issuer.go. Signing and verifying are the JWT library's, and parameters here;
-- NewNumericDate cuts an instant to its second.
pub mod Trust
use go_microservice.Prelude.{String, Bool, Option, none, some, if◌then◌else◌}
use go_microservice.Prelude.Int.{ℤ, ◌+ℤ◌}
use go_microservice.Prelude.Text.{◌⧺◌}
use go_microservice.Apperror.{Error, foreign, plain}
use go_microservice.Effect.{Result, ok, err, Prog}
use go_microservice.Http.{Time}

abbrev pub issuer : String
issuer = "go-microservice"

-- the dates in seconds since 1970
pub record Claims : Type 0 where
  pub user_id : ℤ
  pub issuer : String
  pub expires_at : ℤ
  pub issued_at : ℤ

module _ {W K : Type 0} (now : W → Time × W) (seconds : Time → ℤ)
    (sign : Claims → K → Prog W String) where
  -- the clock is read twice
  unfoldable pub generate : ℤ → K → ℤ → Prog W String
  generate user_id private_key expiry w =
      let (t, w₁) = now w in
      let (t', w₂) = now w₁ in
      sign
        (record {
          user_id = user_id;
          issuer = issuer;
          expires_at = seconds (record { unix_nano = t.unix_nano +ℤ expiry });
          issued_at = seconds t';
        })
        private_key w₂

  -- RSAIssuer.Issue
  unfoldable pub issue : K → ℤ → ℤ → Prog W String
  unfolding generate
  issue key user_id expiry = generate user_id key expiry

unfoldable pub key_for : {P : Type 0} → P → Bool → String → Result P
key_for public_key is_rsa alg =
    if is_rsa then ok public_key else err (foreign plain ("unexpected signing method: " ⧺ alg))

-- A parsed token: its claims, if they are *Claims, and its Valid flag. `parse` is
-- jwt.ParseWithClaims, given the key function; a token's method is an RSA one or its name.
module _ {P : Type 0} (parse : String → (Bool → String → Result P) → Result (Option Claims × Bool))
    (invalid_claims : Error) where
  claimed : Result (Option Claims × Bool) → Result ℤ
  claimed (err e) = err e
  claimed (ok (none, valid)) = err invalid_claims
  claimed (ok (some c, valid)) = if valid then ok c.user_id else err invalid_claims

  unfoldable pub parse_user_id : String → P → Result ℤ
  unfolding key_for claimed
  parse_user_id text public_key = claimed (parse text (key_for public_key))
