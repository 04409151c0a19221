-- ===== src/Tests/Tokens.antt =====
-- A token issued and read back, over a library that signs for user 0 only.
use go_microservice.Prelude.{
  ℕ, zero, suc, String, Bool, true, false, Option, some, ◌≡◌, refl, ◌∙◌, ◌==◌, if◌then◌else◌, sym,
  ap,
}
use go_microservice.Prelude.Int.{ℤ, pos, negsuc}
use go_microservice.Prelude.Text.{◌⧺◌}
use go_microservice.Apperror.{Error, foreign, plain}
use go_microservice.Effect.{Result, ok, err, Prog}
use go_microservice.Http.{Time, zero_time}
use go_microservice.Token.{Claims, issue, parse_user_id}
use go_microservice.Token.Trust.{ParseLaws, parse_user_id-issue}

abbrev claims : Claims
claims = record {
  user_id = pos 0;
  issuer = "go-microservice";
  expires_at = pos 900;
  issued_at = pos 0;
}

abbrev no_signature : Error
no_signature = foreign plain "no signature"

sign_id : ℤ → Result String
sign_id (pos zero) = ok "rs.0"
sign_id (pos (suc n)) = err no_signature
sign_id (negsuc n) = err no_signature

abbrev sign : Claims → ℕ → Prog ℕ String
sign c k w = (sign_id c.user_id, w)

abbrev Signed : ℕ → Claims → String → Type 0
Signed p c text = (c ≡ claims) × (text ≡ "rs.0")

abbrev method : String → Bool × String
method text = (text == "rs.0", if text == "rs.0" then "RS256" else "HS256")

abbrev checked : Result ℕ → Result (Option Claims × Bool)
checked (ok p) = ok (some claims, true)
checked (err e) = err e

abbrev parse : String → (Bool → String → Result ℕ) → Result (Option Claims × Bool)
parse text f = checked (f (method text).0 (method text).1)

laws : ParseLaws parse method Signed (λ c. false) (λ e. e)
laws = record {
  no_key = λ text f e h. ap checked h;
  valid = λ text f p c h by fresh. ap checked h ∙ ap (λ (x : Claims). ok (some x, true)) (sym by.0);
  rsa = λ p c text by. (rw by.1 refl);
}

id-Signed :
    (id : ℤ) (text : String)
    → sign_id id ≡ ok text
    → (c : Claims) × (Signed 1 c text × (c.user_id ≡ id))
unfolding sign_id
id-Signed (pos zero) text h = (claims, ((refl, cc), refl))
id-Signed (pos (suc n)) text h = cc
id-Signed (negsuc n) text h = cc

abbrev now : ℕ → Time × ℕ
now w = (zero_time, w)

parse_user_id-issue_example :
    (parse_user_id parse no_signature "rs.0" 1 ≡ ok (pos 0))
    × (parse_user_id parse no_signature "hs.0" 1
        ≡ err (foreign plain ("unexpected signing method: " ⧺ "HS256")))
unfolding issue sign_id
parse_user_id-issue_example =
    parse_user_id-issue parse no_signature method Signed (λ c. false) (λ e. e) laws now (λ t. pos 0)
      sign (λ k. 1) (λ c k w text h. id-Signed c.user_id text h) 1 (pos 0) (pos 900) 0 "rs.0" "hs.0"
      refl (λ c by. refl) refl
