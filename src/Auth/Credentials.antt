-- ===== src/Auth/Credentials.antt =====
-- services/auth: Register and Login.
use go_microservice.Prelude.{String, true, false, ◌≡◌, refl, ap, Bool-cases, inl, inr, ◌⊎◌}
use mathlib.Core.Path.{fun_ext}
use go_microservice.Apperror.{Error, app, conflict}
use go_microservice.Effect.{Result, ok, err, continue_of_ok}
use go_microservice.Auth.{
  Service, User, LoginDto, RegisterDto, invalid_credentials, login, register, issue_token_pair,
}

module _ {W : Type 0} (s : Service W) where
  -- the lookup of `email` did not give a user whose password is the given one
  abbrev Rejected : LoginDto → W → Type 0
  Rejected req w =
      ((e : Error) × ((s.repo.get_by_email req.email w).0 ≡ err e))
      ⊎ ((u : User) × ((s.repo.get_by_email req.email w).0 ≡ ok u)
          × (s.matches u.password req.password ≡ false))

  -- the lookup gave a user whose password is the given one
  abbrev Accepted : LoginDto → W → Type 0
  Accepted req w =
      (u : User) × ((s.repo.get_by_email req.email w).0 ≡ ok u)
      × (s.matches u.password req.password ≡ true)
      × (login s req w ≡ issue_token_pair s u.id (s.repo.get_by_email req.email w).1)

  -- Login either finds a user with this password, and then it issues tokens for that user's id, or
  -- it fails with one and the same error, changing nothing beyond the lookup, whether the lookup
  -- failed or the password was wrong.
  login_cases :
      (req : LoginDto) (w : W)
      → Accepted req w
        ⊎ (Rejected req w
            × (login s req w ≡ (err invalid_credentials, (s.repo.get_by_email req.email w).1)))
  unfolding login
  login_cases req w = go (s.repo.get_by_email req.email w) refl
    where
      go :
          (p : Result User × W)
          → s.repo.get_by_email req.email w ≡ p
          → Accepted req w
            ⊎ (Rejected req w
                × (login s req w ≡ (err invalid_credentials, (s.repo.get_by_email req.email w).1)))
      go (err e, w') h = inr (inl (e, ap (λ p. p.0) h), rw h)
      go (ok u, w') h = elim (Bool-cases (s.matches u.password req.password)) [
        | inl same ↦ inl (u, ap (λ p. p.0) h, same, rw (h, same))
        | inr other ↦ inr (inr (u, ap (λ p. p.0) h, other), rw (h, other))
      ]

  -- A taken email is a conflict, and nothing is hashed or created.
  pub register_taken :
      (req : RegisterDto) (w : W)
      → (s.repo.exists_by_email req.email w).0 ≡ ok true
      → register s req w
        ≡ (err (app (conflict "email already exists")), (s.repo.exists_by_email req.email w).1)
  unfolding register
  register_taken req w h = continue_of_ok (s.repo.exists_by_email req.email w) _ true h

  -- The password that the user service is given is the hash, so two passwords with one hash, made
  -- with one effect, register alike.
  pub register-hides_password :
      (name email p q : String) (w : W)
      → ((w' : W) → s.hash p w' ≡ s.hash q w')
      → register s (record { name = name; email = email; password = p }) w
        ≡ register s (record { name = name; email = email; password = q }) w
  unfolding register
  register-hides_password name email p q w h = rw (fun_ext h)
