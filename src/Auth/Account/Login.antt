-- ===== src/Auth/Account/Login.antt =====
-- services/auth over services/user: what a Register means for the requests behind it.
use go_microservice.Prelude.{
  String, ◌≡◌, refl, ◌∙◌, Option, none, some, ◌==◌, eq_refl, if◌then◌else◌, arith,
}
use go_microservice.Apperror.{Error, app, invalid_input, error_text}
use go_microservice.Effect.{ok, err}
use go_microservice.Users.{new_user}
use go_microservice.Users.Rpc.{to_proto, from_proto}
use go_microservice.Auth.{
  User, RegisterDto, LoginDto, check_password, register, login, issue_token_pair,
  invalid_credentials,
}
use go_microservice.Auth.Account.{
  Deployment, DeploymentLaws, joined, taken, crossed, exists_of_none, exists_of_some, get_of_some,
  create_of_inserted, create_of_some, create_of_refused, creating, Accepts,
}

abbrev pub by : (name email password : String) → RegisterDto
by name email password = record { name = name; email = email; password = password }

abbrev pub with_password : (email password : String) → LoginDto
with_password email password = record { email = email; password = password }

-- a second Create for an email: its validation's refusal, or else the conflict
abbrev pub second_answer : Option Error → Error
second_answer none = taken
second_answer (some e) = app (invalid_input (error_text e))

module _ {W : Type 0} (d : Deployment W) (row : W → String → Option User)
    (laws : DeploymentLaws d row) where
  -- what Register leaves: the user that it returned, the row, and the world
  pub record Registered (req : RegisterDto) (h : String) (w : W) : Type 0 where
    pub user : User
    pub row_of : User
    pub after : W
    pub ran : register (joined d) req w ≡ (ok user, after)
    pub same : user ≡ crossed d row laws row_of
    pub name : row_of.name ≡ req.name
    pub email : row_of.email ≡ req.email
    pub password : row_of.password ≡ h
    pub rows :
        (email : String)
        → row after email ≡ (if req.email == email then some row_of else row w email)

  register_new :
      (req : RegisterDto) (h : String) (w : W)
      → Accepts d req.email
      → d.check_create (creating req.name req.email h) ≡ none
      → row w req.email ≡ none
      → (d.auth).hash req.password w ≡ (ok h, w)
      → Registered req h w
  unfolding register
  register_new req h w fits valid new hashed =
      let (m, w', made, name, email, password, rows) =
        (laws.table).insert_new (new_user req.name req.email h) w new in
      record {
        user = crossed d row laws m;
        row_of = m;
        after = (d.publish m w').1;
        ran =
            rw (exists_of_none d row laws req.email w fits new, hashed)
              (create_of_inserted d row laws req.name req.email h w w' m valid made);
        same = refl;
        name = name;
        email = email;
        password = password;
        rows = λ e. laws.publish_keeps m w' e ∙ rows e;
      }

  register_of_some :
      (req : RegisterDto) (u : User) (w : W)
      → Accepts d req.email
      → row w req.email ≡ some u
      → register (joined d) req w ≡ (err taken, w)
  unfolding register
  register_of_some req u w fits e = rw (exists_of_some d row laws req.email u w fits e) refl

  login_of_some :
      (req : LoginDto) (u : User) (w : W)
      → Accepts d req.email
      → row w req.email ≡ some u
      → login (joined d) req w ≡ (
          if (d.auth).matches u.password req.password
          then issue_token_pair (joined d) (crossed d row laws u).id w
          else (err invalid_credentials, w))
  unfolding login check_password from_proto to_proto
  login_of_some req u w fits e = rw (get_of_some d row laws req.email u w fits e) (ground arith)

  create_again :
      (name email hashed : String) (u : User) (w : W) (v : Option Error)
      → d.check_create (creating name email hashed) ≡ v
      → row w email ≡ some u
      → ((joined d).repo).create name email hashed w ≡ (err (second_answer v), w)
  create_again name email hashed u w none h e = create_of_some d row laws name email hashed u w h e
  create_again name email hashed u w (some x) h e =
      create_of_refused d row laws name email hashed x w h

  -- If the user service's database answers, the network delivers with a request id, its validation
  -- accepts the email and the user to create, publishing leaves the users alone and the password can
  -- be hashed, a Register with a free email succeeds. Afterwards Login with that email issues tokens
  -- for the id of the user that Register returned if the password matches the hash, and refuses any
  -- other password; another Register with that email is a conflict that changes nothing; and a
  -- Create of one that had looked the email up before changes nothing and is a conflict, or
  -- InvalidInput if the validation refuses the user.
  pub register-login :
      (req : RegisterDto) (h : String) (w : W)
      → Accepts d req.email
      → d.check_create (creating req.name req.email h) ≡ none
      → row w req.email ≡ none
      → (d.auth).hash req.password w ≡ (ok h, w)
      → (u : User) × (w' : W) × (register (joined d) req w ≡ (ok u, w'))
        × ((password : String)
            → login (joined d) (with_password req.email password) w' ≡ (
                if (d.auth).matches h password
                then issue_token_pair (joined d) u.id w'
                else (err invalid_credentials, w')))
        × ((name password : String)
            → register (joined d) (by name req.email password) w' ≡ (err taken, w'))
        × ((name hashed : String)
            → ((joined d).repo).create name req.email hashed w'
              ≡ (err (second_answer (d.check_create (creating name req.email hashed))), w'))
  register-login req h w fits valid new hashed =
      let made = register_new req h w fits valid new hashed in
      let m = made.row_of in
      let there : row made.after req.email ≡ some m = made.rows req.email ∙ rw eq_refl refl in
      (
        made.user,
        made.after,
        made.ran,
        λ password.
            login_of_some (with_password req.email password) m made.after fits there
            ∙ rw (made.password, made.same) refl,
        λ name password. register_of_some (by name req.email password) m made.after fits there,
        λ name hashed. create_again name req.email hashed m made.after _ refl there,
      )
