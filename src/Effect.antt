-- ===== src/Effect.antt =====
-- Go functions that return `(T, error)`: results, and actions on a world `W` that holds what the
-- services talk to (databases, Redis, the broker, the network).
use go_microservice.Prelude.{◌≡◌}
use go_microservice.Apperror.{Error, AppError, app}

pub data Result {ℓ} (A : Type ℓ) : Type ℓ where
  ok : A → Result A
  err : Error → Result A

-- What was done before an error stays done, so the world comes back beside the error too.
abbrev pub Prog : Type 0 → Type 0 → Type 0
Prog W A = W → Result A × W

module _ {W A : Type 0} where
  abbrev pub pure : A → Prog W A
  pure a w = (ok a, w)

  abbrev pub fail : Error → Prog W A
  fail e w = (err e, w)

  abbrev pub reject : AppError → Prog W A
  reject a w = (err (app a), w)

  -- `if err != nil { return ..., f(err) }` with a call that makes the error anew
  abbrev pub on_error : Result A × W → (Error → Prog W A) → Result A × W
  on_error (ok a, w) f = (ok a, w)
  on_error (err e, w) f = f e w

  abbrev pub rescue : Prog W A → (Error → Prog W A) → Prog W A
  rescue m f w = on_error (m w) f

module _ {W A B : Type 0} where
  abbrev pub continue : Result A × W → (A → Prog W B) → Result B × W
  continue (ok a, w) f = f a w
  continue (err e, w) f = (err e, w)

  infixl 5 ◌>>=◌ ◌>>◌
  abbrev pub ◌>>=◌ : Prog W A → (A → Prog W B) → Prog W B
  ◌>>=◌ m f w = continue (m w) f

  abbrev pub ◌>>◌ : Prog W A → Prog W B → Prog W B
  ◌>>◌ m k w = continue (m w) (λ _. k)

  -- `if err := m(); err != nil { ... }` where both ways go on
  abbrev pub handle_result : Result A × W → (Result A → Prog W B) → Result B × W
  handle_result (r, w) f = f r w

  abbrev pub inspect : Prog W A → (Result A → Prog W B) → Prog W B
  inspect m f w = handle_result (m w) f

-- Running a chain whose first call succeeds, with and without an error handler on it.
module _ {W A B : Type 0} where
  pub continue_of_ok :
      (p : Result A × W) (k : A → Prog W B) (a : A) → p.0 ≡ ok a → continue p k ≡ k a p.1
  continue_of_ok (ok b, w) k a h = cc
  continue_of_ok (err e, w) k a h = cc

  pub rescue_of_ok :
      (p : Result A × W) (f : Error → Prog W A) (k : A → Prog W B) (a : A)
      → p.0 ≡ ok a
      → continue (on_error p f) k ≡ k a p.1
  rescue_of_ok (ok b, w) f k a h = cc
  rescue_of_ok (err e, w) f k a h = cc

  pub rescue_of_err :
      (p : Result A × W) (f : Error → Prog W A) (k : A → Prog W B) (e : Error)
      → p.0 ≡ err e
      → continue (on_error p f) k ≡ continue (f e p.1) k
  rescue_of_err (ok b, w) f k e h = cc
  rescue_of_err (err d, w) f k e h = cc
