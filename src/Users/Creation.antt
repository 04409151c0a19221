-- ===== src/Users/Creation.antt =====
-- Creating a user and announcing it.
use go_microservice.Prelude.{ℕ, suc, true, ◌≡◌, refl, ap, ◌⊎◌, inl, inr, arith, Bool-cases}
use go_microservice.Prelude.Int.{pos}
use go_microservice.Apperror.{Error, app, conflict, internal}
use go_microservice.Effect.{Result, ok, err, Prog}
use go_microservice.Auth.{User}
use go_microservice.Notification.{is_unique_violation}
use go_microservice.Users.{
  Db, CreateUserRequest, insert_user, create, create_user, new_user, exists_by_email, unwritten,
  as_internal,
}

module _ {W : Type 0} (db : Db W) (publish_created : User → Prog W (Unit {0})) where
  module _ (u : User) (w : W) where
    abbrev pub Announced : Type 0
    Announced =
        (row : User) × ((db.insert u w).0 ≡ ok row)
        × (create db publish_created u w ≡ (ok row, (publish_created row (db.insert u w).1).1))

    abbrev pub Refused : Type 0
    Refused =
        (e : Error) × (e' : Error) × ((db.insert u w).0 ≡ err e)
        × (create db publish_created u w ≡ (err e', (db.insert u w).1))
        × (is_unique_violation e ≡ true → e' ≡ app (conflict "email already exists"))

    -- Creating a user either inserts a row, and then that row is published once and returned,
    -- whatever the publish comes to, or the insert fails, and then nothing is published: a unique
    -- violation is a conflict.
    pub create_cases : Announced ⊎ Refused
    unfolding create insert_user unwritten
    create_cases = go (db.insert u w) refl
      where
        go : (p : Result User × W) → db.insert u w ≡ p → Announced ⊎ Refused
        go (ok row, w') h = inl (row, ap (λ p. p.0) h, rw h)
        go (err e, w') h = elim (Bool-cases (is_unique_violation e)) [
          | inl dup ↦
              inr
                (e, app (conflict "email already exists"), ap (λ p. p.0) h, rw (h, dup), λ _. refl)
          | inr other ↦ inr (e, app (internal e), ap (λ p. p.0) h, rw (h, other), λ same. cc)
        ]

  -- A taken email is the same conflict, whether Create sees it in its own check or only the
  -- database's unique index does, and in neither case is anything published.
  pub create_user-taken :
      (req : CreateUserRequest) (w : W) (w' : W)
      → ((n : ℕ) × (db.count_email req.email w ≡ (ok (pos (suc n)), w')))
        ⊎ ((e : Error) × (w'' : W) × (db.count_email req.email w ≡ (ok (pos 0), w''))
            × (db.insert (new_user req.name req.email "") w'' ≡ (err e, w'))
            × (is_unique_violation e ≡ true))
      → create_user db publish_created req w ≡ (err (app (conflict "email already exists")), w')
  unfolding create_user exists_by_email create insert_user unwritten as_internal
  create_user-taken req w w' (inl (n, seen)) = rw seen (ground arith)
  create_user-taken req w w' (inr (e, w'', free, failed, dup)) = rw (free, failed, dup)
