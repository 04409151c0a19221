-- ===== src/Token/Trust.antt =====
-- pkg/token: which tokens ParseUserID takes.
use go_microservice.Prelude.{String, Bool, true, false, Option, some, ◌≡◌, refl, ap, ◌∙◌}
use go_microservice.Prelude.Int.{ℤ}
use go_microservice.Prelude.Text.{◌⧺◌}
use go_microservice.Apperror.{Error, foreign, plain}
use go_microservice.Effect.{Result, ok, err, Prog}
use go_microservice.Http.{Time}
use go_microservice.Token.{Claims, generate, issue, key_for, claimed, parse_user_id}

-- What jwt.ParseWithClaims is documented to do. It asks the key function for the key of the token's
-- method: if that fails, so does the parse; `signed p c text` says that `text` carries the claims
-- `c` and a signature by the private half of `p`, and such a token with an RSA method is valid
-- before it expires. `unverifiable` is the library's error round the key function's.
pub record ParseLaws {P : Type 0}
    (parse : String → (Bool → String → Result P) → Result (Option Claims × Bool))
    (method : String → Bool × String) (signed : P → Claims → String → Type 0)
    (expired : Claims → Bool) (unverifiable : Error → Error) : Type 0 where
  pub no_key :
      (text : String) (f : Bool → String → Result P) (e : Error)
      → f (method text).0 (method text).1 ≡ err e
      → parse text f ≡ err (unverifiable e)
  pub valid :
      (text : String) (f : Bool → String → Result P) (p : P) (c : Claims)
      → f (method text).0 (method text).1 ≡ ok p
      → signed p c text
      → expired c ≡ false
      → parse text f ≡ ok (some c, true)
  pub rsa : (p : P) (c : Claims) (text : String) → signed p c text → (method text).0 ≡ true

module _ {P : Type 0} (parse : String → (Bool → String → Result P) → Result (Option Claims × Bool))
    (invalid_claims : Error) (method : String → Bool × String)
    (signed : P → Claims → String → Type 0) (expired : Claims → Bool) (unverifiable : Error → Error)
    (law : ParseLaws parse method signed expired unverifiable) where
  key_for-rsa : (p : P) (b : Bool) (alg : String) → b ≡ true → key_for p b alg ≡ ok p
  unfolding key_for
  key_for-rsa p b alg h = rw h refl

  parse_user_id-signed :
      (p : P) (c : Claims) (text : String)
      → signed p c text
      → expired c ≡ false
      → parse_user_id parse invalid_claims text p ≡ ok c.user_id
  unfolding parse_user_id claimed
  parse_user_id-signed p c text by fresh =
      ap (claimed parse invalid_claims)
        (law.valid text (key_for p) p c (key_for-rsa p _ _ (law.rsa p c text by)) by fresh)

  key_for-other :
      (p : P) (b : Bool) (alg : String)
      → b ≡ false
      → key_for p b alg ≡ err (foreign plain ("unexpected signing method: " ⧺ alg))
  unfolding key_for
  key_for-other p b alg h = rw h refl

  module _ {W K : Type 0} (now : W → Time × W) (seconds : Time → ℤ)
      (sign : Claims → K → Prog W String) (public_of : K → P)
      (signs : (c : Claims) (k : K) (w : W) (text : String)
        → (sign c k w).0 ≡ ok text
        → (c' : Claims) × (signed (public_of k) c' text × (c'.user_id ≡ c.user_id))) where
    issue-signed :
        (k : K) (user_id expiry : ℤ) (w : W) (text : String)
        → (issue now seconds sign k user_id expiry w).0 ≡ ok text
        → (c : Claims) × (signed (public_of k) c text × (c.user_id ≡ user_id))
    unfolding issue generate
    issue-signed k user_id expiry w text h = signs _ k _ text h

    -- If the JWT library signs and verifies as it is documented to, a token that Issue made for a
    -- user is read back as that user's by ParseUserID with the other half of the key, before it
    -- expires; and a token whose header names a method that is no RSA one is refused, whatever its
    -- signature, so that a public key is never taken for another method's secret.
    pub parse_user_id-issue :
        (k : K) (user_id expiry : ℤ) (w : W) (text forged : String)
        → (issue now seconds sign k user_id expiry w).0 ≡ ok text
        → ((c : Claims) → signed (public_of k) c text → expired c ≡ false)
        → (method forged).0 ≡ false
        → (parse_user_id parse invalid_claims text (public_of k) ≡ ok user_id)
          × (parse_user_id parse invalid_claims forged (public_of k)
              ≡ err (
                  unverifiable (foreign plain ("unexpected signing method: " ⧺ (method forged).1))))
    unfolding parse_user_id claimed
    parse_user_id-issue k user_id expiry w text forged made fresh other =
        let (c, (by, same)) = issue-signed k user_id expiry w text made in
        (
          parse_user_id-signed (public_of k) c text by (fresh c by) ∙ ap ok same,
          ap (claimed parse invalid_claims)
              (law.no_key forged (key_for (public_of k)) _ (key_for-other (public_of k) _ _ other)),
        )
