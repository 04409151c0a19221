-- ===== src/Auth/Registrations.antt =====
-- services/auth: Register requests for one email that are served at the same time. A request stops at each call
-- of Register that another one can see: the lookup of the email, the hashing, the creation.
pub mod Unique
pub mod Deployed
use go_microservice.Prelude.{String, Bool, true, false, ◌≡◌, refl, List, [], ◌∷◌}
use go_microservice.Apperror.{Error, app, internal}
use go_microservice.Effect.{Result, ok, err}
use go_microservice.Schedule.{run}
use go_microservice.Auth.{User, Service, register}
use go_microservice.Auth.Account.{taken}
use go_microservice.Auth.Account.Login.{by}

pub data Worker : Type 0 where
  asking hashing : (name password : String) → Worker
  creating : (name hashed : String) → Worker
  finished : Result User → Worker

module _ {W : Type 0} (s : Service W) (email : String) where
  looked_up : (name password : String) → Result Bool × W → Worker × W
  looked_up name password (ok true, w) = (finished (err taken), w)
  looked_up name password (ok false, w) = (hashing name password, w)
  looked_up name password (err e, w) = (finished (err e), w)

  was_hashed : String → Result String × W → Worker × W
  was_hashed name (ok h, w) = (creating name h, w)
  was_hashed name (err e, w) = (finished (err (app (internal e))), w)

  -- one turn of a request
  unfoldable pub advance : Worker → W → Worker × W
  unfolding looked_up was_hashed
  advance (asking name password) w = looked_up name password (s.repo.exists_by_email email w)
  advance (hashing name password) w = was_hashed name (s.hash password w)
  advance (creating name h) w = let (r, w') = s.repo.create name email h w in (finished r, w')
  advance (finished r) w = (finished r, w)

  -- Three turns of a request that is alone are Register.
  abbrev pub Alone : (name password : String) → W → Type 0
  Alone name password w =
      run advance (0 ∷ 0 ∷ 0 ∷ []) (asking name password ∷ [], w)
      ≡ (let out = register s (by name email password) w in (finished out.0 ∷ [], out.1))

  pub run-register : (name password : String) (w : W) → Alone name password w
  unfolding run advance register
  run-register name password w = looked (s.repo.exists_by_email email w) refl
    where
      digest :
          (w' : W) (o : Result String × W)
          → s.repo.exists_by_email email w ≡ (ok false, w')
          → s.hash password w' ≡ o
          → Alone name password w
      digest w' (ok h, w₂) e g = rw e (rw g refl)
      digest w' (err x, w₂) e g = rw e (rw g refl)

      looked : (o : Result Bool × W) → s.repo.exists_by_email email w ≡ o → Alone name password w
      looked (ok true, w') e = rw e refl
      looked (ok false, w') e = digest w' _ e refl
      looked (err x, w') e = rw e refl
