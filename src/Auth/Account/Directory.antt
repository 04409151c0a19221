-- ===== src/Auth/Account/Directory.antt =====
-- services/user as services/auth relies on it: who is registered, and a Create that succeeds once.
use go_microservice.Prelude.{
  Bool, Bool-cases, inl, inr, String, true, false, ◌≡◌, refl, ap, ◌∙◌, Option, none, some, ◌==◌,
  if◌then◌else◌,
}
use go_microservice.Apperror.{Error, app, invalid_input, error_text, is_some}
use go_microservice.Effect.{ok, err}
use go_microservice.Users.{new_user}
use go_microservice.Auth.{User, UserLookup}
use go_microservice.Auth.Account.{
  Deployment, DeploymentLaws, joined, taken, crossed, exists_of_none, exists_of_some,
  create_of_inserted, create_of_some, create_of_refused, creating, Accepts,
}

-- The user service as auth relies on it for one email: `has w email` tells if there is a user with
-- that email, and `refuses` what its validation says of a user with that email to create.
pub record DirectoryLaws {W : Type 0} (repo : UserLookup W) (has : W → String → Bool)
    (email : String) (refuses : (name hashed : String) → Option Error) : Type 0 where
  pub exists : (w : W) → repo.exists_by_email email w ≡ (ok (has w email), w)
  pub create_new :
      (name hashed : String) (w : W)
      → refuses name hashed ≡ none
      → has w email ≡ false
      → (u : User) × (w' : W) × (repo.create name email hashed w ≡ (ok u, w'))
        × ((other : String) → has w' other ≡ (if email == other then true else has w other))
  pub create_again :
      (name hashed : String) (w : W)
      → refuses name hashed ≡ none
      → has w email ≡ true
      → repo.create name email hashed w ≡ (err taken, w)
  pub create_refused :
      (name hashed : String) (e : Error) (w : W)
      → refuses name hashed ≡ some e
      → repo.create name email hashed w ≡ (err (app (invalid_input (error_text e))), w)

module _ {W : Type 0} (d : Deployment W) (row : W → String → Option User)
    (laws : DeploymentLaws d row) where
  some_of_is_some : (o : Option User) → is_some o ≡ true → (u : User) × (o ≡ some u)
  some_of_is_some none h = cc
  some_of_is_some (some u) h = (u, refl)

  none_of_is_some : (o : Option User) → is_some o ≡ false → o ≡ none
  none_of_is_some none h = refl
  none_of_is_some (some u) h = cc

  is_some-if :
      (b : Bool) (m : User) (o : Option User)
      → is_some (if b then some m else o) ≡ (if b then true else is_some o)
  is_some-if true m o = refl
  is_some-if false m o = refl

  abbrev pub has : W → String → Bool
  has w email = is_some (row w email)

  -- what the validation says of a user to create with this email
  abbrev pub refuses : (email name hashed : String) → Option Error
  refuses email name hashed = d.check_create (creating name email hashed)

  joined-exists :
      (email : String) (w : W)
      → Accepts d email
      → ((joined d).repo).exists_by_email email w ≡ (ok (has w email), w)
  joined-exists email w fits = elim (Bool-cases (has w email)) [
    | inl old ↦
        let (u, e) = some_of_is_some (row w email) old in
        exists_of_some d row laws email u w fits e ∙ rw old refl
    | inr new ↦
        exists_of_none d row laws email w fits (none_of_is_some (row w email) new) ∙ rw new refl
  ]

  -- The user service, through gRPC, is such a directory for an email that its validation accepts,
  -- while its database answers.
  pub joined-DirectoryLaws :
      (email : String) → Accepts d email → DirectoryLaws (joined d).repo has email (refuses email)
  joined-DirectoryLaws email fits = record {
    exists = λ w. joined-exists email w fits;
    create_new = λ name hashed w valid new.
        let (m, w', made, _, same, _, rows) =
          (laws.table).insert_new (new_user name email hashed) w
            (none_of_is_some (row w email) new) in
        (
          crossed d row laws m,
          (d.publish m w').1,
          create_of_inserted d row laws name email hashed w w' m valid made,
          λ other.
              ap (λ (o : Option User). is_some o) (laws.publish_keeps m w' other ∙ rows other)
              ∙ is_some-if (email == other) m (row w other),
        );
    create_again = λ name hashed w valid old.
        let (u, e) = some_of_is_some (row w email) old in
        create_of_some d row laws name email hashed u w valid e;
    create_refused = λ name hashed e w h. create_of_refused d row laws name email hashed e w h;
  }
