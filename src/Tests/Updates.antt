-- ===== src/Tests/Updates.antt =====
-- Update over a users table of one row, whose id is 0.
use go_microservice.Prelude.{
  zero, suc, String, Option, none, some, ◌≡◌, ◌≢◌, refl, ap, ◌==◌, eq_refl, if◌then◌else◌,
}
use go_microservice.Prelude.Int.{ℤ, pos, negsuc}
use go_microservice.Apperror.{Error, foreign, plain, record_not_found}
use go_microservice.Effect.{Result, ok, err, Prog}
use go_microservice.Http.{zero_time}
use go_microservice.Auth.{User}
use go_microservice.Users.{Db, UpdateUserRequest, update}
use go_microservice.Users.Updates.{TransactionLaws, RowLaws, Updated, or_kept, update-Updated}

abbrev unused : {A : Type 0} → Prog User A
unused w = (err (foreign plain "unused"), w)

abbrev row : User → ℤ → Option User
row w (pos zero) = some w
row w (pos (suc n)) = none
row w (negsuc n) = none

abbrev holder : User → String → Option ℤ
holder w email = if w.email == email then some (pos 0) else none

abbrev written : User → User → User
written u old = record old {
  name = or_kept u.name old.name;
  email = or_kept u.email old.email;
  password = or_kept u.password old.password;
}

abbrev fetched : Option User → Prog User User
fetched (some u) w = (ok u, w)
fetched none w = (err (foreign record_not_found "record not found"), w)

abbrev counted : Option ℤ → Prog User ℤ
counted none w = (ok (pos 0), w)
counted (some i) w = (ok (pos 1), w)

abbrev rewritten : User → Option User → Prog User (User × ℤ)
rewritten u (some old) w = (ok (u, pos 1), written u old)
rewritten u none w = (ok (u, pos 0), w)

abbrev settle : User → Result User × User → Result User × User
settle w (ok u, w') = (ok u, w')
settle w (err e, w') = (err e, w)

abbrev db : Db User
db = record {
  count = λ q. unused;
  find = λ q o l. unused;
  first = λ id w. fetched (row w id) w;
  first_by_email = λ email. unused;
  count_email = λ email w. counted (holder w email) w;
  insert = λ u. unused;
  updates = λ id u w. rewritten u (row w id) w;
  delete = λ id. unused;
  transaction = λ m w. settle w (m w);
}

settle_ok : (w u : User) (p : Result User × User) → p.0 ≡ ok u → settle w p ≡ p
settle_ok w u (ok v, w') h = refl
settle_ok w u (err e, w') h = cc

settle_err : (w : User) (e : Error) (p : Result User × User) → p.0 ≡ err e → settle w p ≡ (err e, w)
settle_err w e (ok v, w') h = cc
settle_err w e (err e', w') h = ap (λ (r : Result User). (r, w)) h

db_laws : TransactionLaws db
db_laws = record {
  commit = λ m u w h. settle_ok w u (m w) h;
  rollback = λ m e w h. settle_err w e (m w) h;
}

same_row : (id : ℤ) (u w : User) → row w id ≡ some u → (w ≡ u) × (id ≡ pos 0)
same_row (pos zero) u w h = (cc, refl)
same_row (pos (suc n)) u w h = cc
same_row (negsuc n) u w h = cc

others_kept : (w w' : User) (other : ℤ) → other ≢ pos 0 → row w' other ≡ row w other
others_kept w w' (pos zero) h = absurd (h refl)
others_kept w w' (pos (suc n)) h = refl
others_kept w w' (negsuc n) h = refl

row_laws : RowLaws db row holder
row_laws = record {
  first_some = λ id u w e. rw e refl;
  first_none = λ id w e. ("record not found", rw e refl);
  own = λ id u w e. let (a, b) = same_row id u w e in rw (a, b, eq_refl u.email) refl;
  count_none = λ email w e. rw e refl;
  count_some = λ email id w e. rw e refl;
  updates = λ id u old w e free.
      let (a, b) = same_row id old w e in
      (
        u,
        written u old,
        written u old,
        rw e refl,
        refl,
        refl,
        rw b refl,
        record { name = refl; email = refl; password = refl; created_at = λ h. refl },
        λ other h. others_kept w (written u old) other (λ q. h (rw b q)),
      );
}

abbrev ada : User
ada = record {
  id = pos 0;
  name = "Ada";
  email = "ada@x.org";
  password = "#secret";
  created_at = zero_time;
  updated_at = zero_time;
}

abbrev renamed : UpdateUserRequest
renamed = record { name = "Ada L."; email = "ada@y.org" }

update-Updated_example :
    Updated row (pos 0) renamed ada (some ada) none (update db (pos 0) renamed ada)
update-Updated_example = update-Updated db row holder db_laws row_laws (pos 0) renamed ada
