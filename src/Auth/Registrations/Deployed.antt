-- ===== src/Auth/Registrations/Deployed.antt =====
-- services/auth over services/user: Register requests for one email, down to the users table.
use go_microservice.Prelude.{
  ℕ, ◌≤◌, ◌<◌, String, false, ◌≡◌, List, Option, ◌==◌, if◌then◌else◌, length, All,
}
use go_microservice.Schedule.{turns, run, total}
use go_microservice.Auth.{User}
use go_microservice.Auth.Account.{Deployment, DeploymentLaws, Accepts, joined}
use go_microservice.Auth.Account.Directory.{has, refuses, joined-DirectoryLaws}
use go_microservice.Auth.Registrations.{advance, Alone}
use go_microservice.Auth.Registrations.Unique.{requests, succeeded, Answered, run-registers}

module _ {W : Type 0} (d : Deployment W) (row : W → String → Option User)
    (laws : DeploymentLaws d row)
    (hash_keeps : (p : String) (w : W) (other : String)
      → has d row laws ((d.auth).hash p w).1 other ≡ has d row laws w other)
    (email : String) (fits : Accepts d email) where
  -- While the user service's database answers, the network delivers with a request id, neither
  -- hashing nor publishing touches the users, and the user service's validation accepts the email:
  -- however the Register requests for that email, which is free, interleave at their calls of the
  -- user service and of bcrypt, once each has had three turns each is answered: with a user, with a
  -- conflict while there is a user with that email, with InvalidInput and the validation's error on
  -- a user to create with that email, or with an internal error.
  -- The successes are exactly one if afterwards there is a user with that email and none if there
  -- is not, and the other emails are as before. Three turns of a request that is alone are
  -- Register.
  pub run-joined :
      (rs : List (String × String)) (is : List ℕ) (w : W)
      → has d row laws w email ≡ false
      → ((j : ℕ) → j < length rs → 3 ≤ turns j is)
      → let out = run (advance (joined d) email) is (requests rs, w) in
        (length out.0 ≡ length rs)
        × All
            (Answered
              (joined d)
              (has d row laws)
              email
              (refuses d row laws email)
              (joined-DirectoryLaws d row laws email fits)
              hash_keeps
              out.1)
            out.0
        × (total succeeded out.0 ≡ (if has d row laws out.1 email then 1 else 0))
        × ((j : String) → (email == j) ≡ false → has d row laws out.1 j ≡ has d row laws w j)
        × ((name password : String) (w' : W) → Alone (joined d) email name password w')
  run-joined rs is w free enough =
      run-registers (joined d) (has d row laws) email (refuses d row laws email)
        (joined-DirectoryLaws d row laws email fits) hash_keeps rs is w free enough
