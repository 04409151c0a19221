-- ===== src/Users/Updates.antt =====
-- Update: the transaction round the check of the email and the write.
use go_microservice.Prelude.{
  String, Bool, true, false, Option, none, some, ◌≡◌, ◌≢◌, refl, ap, ◌∙◌, ◌⊎◌, inl, inr, ◌==◌,
  eq_iff, if◌then◌else◌,
}
use go_microservice.Prelude.Int.{ℤ, pos}
use go_microservice.Apperror.{Error, app, conflict, foreign, record_not_found, find_kind}
use go_microservice.Effect.{Result, ok, err, Prog}
use go_microservice.Auth.{User}
use go_microservice.Users.{
  Db, UpdateUserRequest, replaced, unknown_id, update, update_in_tx, check_email, get_by_id,
  exists_by_email, update_user, if_affected,
}

-- db.Transaction of a function that succeeds commits what it did, and of one that fails rolls it
-- back and returns its error. (Neither Begin nor Commit fails.)
pub record TransactionLaws {W : Type 0} (db : Db W) : Type 0 where
  pub commit : (m : Prog W User) (u : User) (w : W) → (m w).0 ≡ ok u → db.transaction m w ≡ m w
  pub rollback :
      (m : Prog W User) (e : Error) (w : W) → (m w).0 ≡ err e → db.transaction m w ≡ (err e, w)

-- GORM's Updates of a struct skips the fields that are zero.
abbrev pub or_kept : (new old : String) → String
or_kept new old = if new == "" then old else new

-- The row that Updates of `u` makes of the row `old`, with any updated_at.
pub record Written (u old stored : User) : Type 0 where
  pub name : stored.name ≡ or_kept u.name old.name
  pub email : stored.email ≡ or_kept u.email old.email
  pub password : stored.password ≡ or_kept u.password old.password
  pub created_at : u.created_at ≡ old.created_at → stored.created_at ≡ old.created_at

-- The users table while the database answers: `row w id` is the row with that id, and `holder w
-- email` the id of the row with that email, which the UNIQUE constraint keeps single.
pub record RowLaws {W : Type 0} (db : Db W) (row : W → ℤ → Option User)
    (holder : W → String → Option ℤ) : Type 0 where
  pub first_some : (id : ℤ) (u : User) (w : W) → row w id ≡ some u → db.first id w ≡ (ok u, w)
  pub first_none :
      (id : ℤ) (w : W)
      → row w id ≡ none
      → (text : String) × (db.first id w ≡ (err (foreign record_not_found text), w))
  pub own : (id : ℤ) (u : User) (w : W) → row w id ≡ some u → holder w u.email ≡ some id
  pub count_none :
      (email : String) (w : W) → holder w email ≡ none → db.count_email email w ≡ (ok (pos 0), w)
  pub count_some :
      (email : String) (id : ℤ) (w : W)
      → holder w email ≡ some id
      → db.count_email email w ≡ (ok (pos 1), w)
  pub updates :
      (id : ℤ) (u old : User) (w : W)
      → row w id ≡ some old
      → (holder w u.email ≡ none) ⊎ (holder w u.email ≡ some id)
      → (u' : User) × (stored : User) × (w' : W) × (db.updates id u w ≡ (ok (u', pos 1), w'))
        × (u'.name ≡ u.name)
        × (u'.email ≡ u.email)
        × (row w' id ≡ some stored)
        × Written u old stored
        × ((other : ℤ) → other ≢ id → row w' other ≡ row w other)

module _ {W : Type 0} (row : W → ℤ → Option User) (id : ℤ) (req : UpdateUserRequest) (w : W) where
  -- the row of `u` is rewritten and returned, and no other
  abbrev pub Rewritten : User → Result User × W → Type 0
  Rewritten u out =
      (u' : User) × (stored : User) × (w' : W) × (out ≡ (ok u', w'))
      × (u'.name ≡ req.name)
      × (u'.email ≡ req.email)
      × (row w' id ≡ some stored)
      × (stored.name ≡ or_kept req.name u.name)
      × (stored.email ≡ or_kept req.email u.email)
      × (stored.password ≡ u.password)
      × (stored.created_at ≡ u.created_at)
      × ((other : ℤ) → other ≢ id → row w' other ≡ row w other)

  abbrev pub Checked : (same : Bool) → Option ℤ → User → Result User × W → Type 0
  Checked true holder u out = Rewritten u out
  Checked false none u out = Rewritten u out
  Checked false (some other) u out = out ≡ (err (app (conflict "email already exists")), w)

  abbrev pub Updated : Option User → Option ℤ → Result User × W → Type 0
  Updated none holder out = out ≡ (err (app (unknown_id id)), w)
  Updated (some u) holder out = Checked (req.email == u.email) holder u out

or_kept-same : (s : String) → or_kept s s ≡ s
or_kept-same s = go (s == "")
  where
    go : (b : Bool) → (if b then s else s) ≡ s
    go true = refl
    go false = refl

module _ {W : Type 0} (db : Db W) (row : W → ℤ → Option User) (holder : W → String → Option ℤ)
    (law : TransactionLaws db) (rows : RowLaws db row holder) (id : ℤ) (req : UpdateUserRequest)
    (w : W) where
  rolls_back : (e : Error) → update_in_tx db id req w ≡ (err e, w) → update db id req w ≡ (err e, w)
  unfolding update
  rolls_back e h = law.rollback (update_in_tx db id req) e w (ap (λ p. p.0) h)

  commits :
      (u : User) (w' : W) → update_in_tx db id req w ≡ (ok u, w') → update db id req w ≡ (ok u, w')
  unfolding update
  commits u w' h = law.commit (update_in_tx db id req) u w (ap (λ p. p.0) h) ∙ h

  unknown : row w id ≡ none → update_in_tx db id req w ≡ (err (app (unknown_id id)), w)
  unfolding update_in_tx get_by_id find_kind
  unknown gone = let (text, missing) = rows.first_none id w gone in rw missing refl

  module _ (u : User) (there : row w id ≡ some u) where
    update_user-Rewritten :
        (holder w req.email ≡ none) ⊎ (holder w req.email ≡ some id)
        → update_in_tx db id req w ≡ update_user db id (replaced req u) w
        → Rewritten row id req w u (update db id req w)
    unfolding update_user if_affected
    update_user-Rewritten free reached =
        let (u', stored, w', ran, name, email, now, written, others) =
          rows.updates id (replaced req u) u w there free in
        let done : update_user db id (replaced req u) w ≡ (ok u', w') = rw ran refl in
        (
          u',
          stored,
          w',
          commits u' w' (reached ∙ done),
          name,
          email,
          now,
          written.name,
          written.email,
          written.password ∙ or_kept-same u.password,
          written.created_at refl,
          others,
        )

    Checked-update :
        (same : Bool) (h : Option ℤ)
        → (req.email == u.email) ≡ same
        → holder w req.email ≡ h
        → Checked row id req w same h u (update db id req w)
    unfolding update_in_tx check_email get_by_id exists_by_email
    Checked-update true h same held =
        update_user-Rewritten
          (inr (ap (holder w) ((eq_iff req.email u.email).0 same) ∙ rows.own id u w there))
          (rw (rows.first_some id u w there, same) refl)
    Checked-update false none differs free =
        update_user-Rewritten (inl free)
          (rw (rows.first_some id u w there, differs, rows.count_none req.email w free) refl)
    Checked-update false (some other) differs held =
        rolls_back (app (conflict "email already exists"))
          (rw (rows.first_some id u w there, differs, rows.count_some req.email other w held) refl)

  Updated-update :
      (found : Option User)
      → row w id ≡ found
      → Updated row id req w found (holder w req.email) (update db id req w)
  Updated-update none gone = rolls_back (app (unknown_id id)) (unknown gone)
  Updated-update (some u) there = Checked-update u there (req.email == u.email) _ refl refl

  -- Update, in a transaction that commits or rolls back, while the database answers. If no row has
  -- the id, the answer is that the user is not found and nothing changes. If the email is not the
  -- row's own and a row has it, the answer is a conflict and nothing changes. Otherwise the answer is
  -- a user with the request's name and email; the row with the id has them too, except that an empty
  -- text leaves the old one, with the password and the created_at that it had, and no other row is
  -- changed.
  pub update-Updated : Updated row id req w (row w id) (holder w req.email) (update db id req w)
  update-Updated = Updated-update (row w id) refl
