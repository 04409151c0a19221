-- ===== src/Tests/Account.antt =====
-- Register and Login over a users table that is a function of the email.
use go_microservice.Prelude.{
  ℕ, zero, suc, ◌≤◌, ◌<◌, Bool, List, [], ◌∷◌, length, All, arith, true, false, String, ◌≡◌, refl,
  Option, none, some, ◌==◌, if◌then◌else◌,
}
use go_microservice.Prelude.Int.{ℤ, pos}
use go_microservice.Prelude.Text.{◌⧺◌}
use go_microservice.Prelude.Strconv.{itoa}
use go_microservice.Apperror.{Error, grpc_internal, foreign, plain, pg_error, record_not_found}
use go_microservice.Effect.{Result, ok, err, Prog}
use go_microservice.Grpc.{request_id_from_incoming}
use go_microservice.Http.{zero_time, background}
use go_microservice.Users.{Db}
use go_microservice.Auth.{
  User, Service, RegisterDto, register, login, issue_token_pair, invalid_credentials,
}
use go_microservice.Auth.Account.{Accepts, UserTableLaws, Deployment, DeploymentLaws, joined, taken}
use go_microservice.Auth.Account.Directory.{DirectoryLaws, has, joined-DirectoryLaws}
use go_microservice.Auth.Account.Login.{second_answer, with_password, by, register-login}
use go_microservice.Auth.Registrations.{Worker, advance, Alone}
use go_microservice.Auth.Registrations.Unique.{requests, succeeded, Answered}
use go_microservice.Auth.Registrations.Deployed.{run-joined}
use go_microservice.Schedule.{turns, run, total}
use go_microservice.Tests.Users.{status_error, from_error}

abbrev Rows : Type 0
Rows = String → Option User

abbrev row : Rows → String → Option User
row w email = w email

abbrev counted : Option User → Rows → Result ℤ × Rows
counted none w = (ok (pos 0), w)
counted (some u) w = (ok (pos 1), w)

abbrev fetched : Option User → Rows → Result User × Rows
fetched none w = (err (foreign record_not_found "record not found"), w)
fetched (some u) w = (ok u, w)

abbrev inserted : User → Rows → Option User → Result User × Rows
inserted u w none = (
  ok (record u { id = pos 7 }),
  λ e. if u.email == e then some (record u { id = pos 7 }) else w e,
)
inserted u w (some old) = (err (foreign (pg_error "23505") "duplicate key"), w)

abbrev unused : {A : Type 0} → Prog Rows A
unused w = (err (foreign plain "unused"), w)

abbrev db : Db Rows
db = record {
  count = λ q. unused;
  find = λ q o l. unused;
  first = λ id. unused;
  first_by_email = λ email w. fetched (w email) w;
  count_email = λ email w. counted (w email) w;
  insert = λ u w. inserted u w (w u.email);
  updates = λ id u. unused;
  delete = λ id. unused;
  transaction = λ m. m;
}

laws : UserTableLaws db row
laws = record {
  count_none = λ email w e. rw e refl;
  count_some = λ email u w e. rw e refl;
  first_some = λ email u w e. rw e refl;
  insert_new = λ u w e. (
    record u { id = pos 7 },
    λ k. if u.email == k then some (record u { id = pos 7 }) else w k,
    rw e refl,
    refl,
    refl,
    refl,
    λ k. refl,
  );
  insert_again = λ u old w e. ("duplicate key", rw e refl);
}

-- no user yet; the event is not published
abbrev empty : Rows
empty email = none

abbrev service : Service Rows
service = record {
  repo = record {
    exists_by_email = λ e. unused;
    get_by_email = λ e. unused;
    create = λ n e p. unused;
  };
  token_store = record { save = λ t i x. unused; user_id = λ t. unused; delete = λ t. unused };
  issue = λ id expiry w. (ok ("jwt-" ⧺ itoa id), w);
  access_expiry = pos 900000000000;
  refresh_expiry = pos 604800000000000;
  hash = λ p w. (ok ("#" ⧺ p), w);
  matches = λ hashed p. hashed == "#" ⧺ p;
  new_uuid = λ w. ("new", w);
  seconds = λ d. d;
}

abbrev ada : RegisterDto
ada = record { name = "Ada"; email = "ada@x.org"; password = "secret" }

abbrev invalid_if : Bool → Option Error
invalid_if true = some (foreign plain "validation error")
invalid_if false = none

abbrev deployment : Deployment Rows
deployment = record {
  auth = service;
  db = db;
  publish = λ u. unused;
  format = λ t. "now";
  parse = λ s. some zero_time;
  status_error = status_error;
  from_error = from_error;
  incoming = record {
    values = background;
    incoming = some (("x-request-id", "req-1" ∷ []) ∷ []);
    outgoing = [];
    deadline = none;
  };
  new_uuid = λ w. ("new", w);
  status_code = λ e. grpc_internal;
  check_exists = λ email. invalid_if (email == "");
  check_get = λ email. invalid_if (email == "");
  check_create = λ r. invalid_if (r.name == "");
  lost = foreign plain "the server is gone";
}

fits : Accepts deployment "ada@x.org"
fits = record { to_exists = refl; to_get = refl }

deployment_laws : DeploymentLaws deployment row
unfolding request_id_from_incoming
deployment_laws = record {
  table = laws;
  publish_keeps = λ u w email. refl;
  status = λ c m. refl;
  identified = refl;
}

abbrev auth : Service Rows
auth = joined deployment

register-login_example :
    (u : User) × (w' : Rows) × (register auth ada empty ≡ (ok u, w'))
    × ((password : String)
        → login auth (with_password "ada@x.org" password) w' ≡ (
            if "#secret" == "#" ⧺ password
            then issue_token_pair auth u.id w'
            else (err invalid_credentials, w')))
    × ((name password : String) → register auth (by name "ada@x.org" password) w' ≡ (err taken, w'))
    × ((name hashed : String)
        → auth.repo.create name "ada@x.org" hashed w'
          ≡ (err (second_answer (invalid_if (name == ""))), w'))
register-login_example =
    register-login deployment row deployment_laws ada "#secret" empty fits refl refl refl

-- two Register requests that both look the email up before either creates the user
abbrev racing : List ℕ
racing = 0 ∷ 1 ∷ 0 ∷ 1 ∷ 0 ∷ 1 ∷ []

enough : (j : ℕ) → j < 2 → 3 ≤ turns j racing
enough zero h = omega arith
enough (suc zero) h = omega arith
enough (suc (suc j)) h = absurd (omega arith)

abbrev both : List (String × String)
both = ("Ada", "secret") ∷ ("Eve", "guess") ∷ []

abbrev has_row : Rows → String → Bool
has_row = has deployment row deployment_laws

abbrev refused : (name hashed : String) → Option Error
refused name hashed = invalid_if (name == "")

directory : DirectoryLaws auth.repo has_row "ada@x.org" refused
directory = joined-DirectoryLaws deployment row deployment_laws "ada@x.org" fits

abbrev out : List Worker × Rows
out = run (advance auth "ada@x.org") racing (requests both, empty)

run-joined_example :
    (length out.0 ≡ 2)
    × All (Answered auth has_row "ada@x.org" refused directory (λ p w j. refl) out.1) out.0
    × (total succeeded out.0 ≡ (if has_row out.1 "ada@x.org" then 1 else 0))
    × ((j : String) → ("ada@x.org" == j) ≡ false → has_row out.1 j ≡ has_row empty j)
    × ((name password : String) (w' : Rows) → Alone auth "ada@x.org" name password w')
run-joined_example =
    run-joined deployment row deployment_laws (λ p w j. refl) "ada@x.org" fits both racing empty
      refl enough
