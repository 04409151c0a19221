-- ===== src/Users/Handlers/Answers.antt =====
-- services/user: what the GET handlers ask of the database, and what they answer.
use go_microservice.Prelude.{◌≡◌, refl, ap, ◌∙◌, List, [], ◌∷◌, map, some, Bool-cases, inl, inr}
use mathlib.Core.Path.{fun_ext}
use go_microservice.Apperror.{is_record_not_found}
use go_microservice.Response.{success}
use go_microservice.Prelude.Int.{ℤ, pos, ◌≤ℤ◌}
use go_microservice.Prelude.Strconv.{atoi}
use go_microservice.Effect.{Result, ok, err, continue, on_error, pure}
use go_microservice.Http.{Request, Conn, get_value, item}
use go_microservice.Serving.{answer, with_id, page_params, items_json}
use go_microservice.Query.{no_clauses, Clauses, Options, parse, filters, sorts}
use go_microservice.Pagination.{Params, offset}
use go_microservice.Pagination.Pages.{new_params_bounds}
use go_microservice.Auth.{User}
use go_microservice.Auth.Handlers.{user_json}
use go_microservice.Users.{Db, get_all, get_by_id, list_schema, as_internal}
use go_microservice.Users.Handlers.{handle_get_all, handle_get_by_id, users_found}

abbrev pub conceal : User → User
conceal u = record u { password = "" }

abbrev mapped : {A B : Type 0} → (A → B) → Result A → Result B
mapped f (ok a) = ok (f a)
mapped f (err e) = err e

-- the same database, with every password that a read returns made empty
abbrev pub concealed : {W : Type 0} → Db W → Db W
concealed db = record db {
  find = λ q o l w. let (rows, w') = db.find q o l w in (mapped (map conceal) rows, w');
  first = λ id w. let (row, w') = db.first id w in (mapped conceal row, w');
}

items_json-conceal :
    (us : List User) → items_json user_json (map conceal us) ≡ items_json user_json us
items_json-conceal [] = refl
items_json-conceal (u ∷ us) = ap (item (user_json u)) (items_json-conceal us)

-- a page that the listing may ask for
abbrev pub OnePage : ℤ → Type 0
OnePage limit = (pos 1 ≤ℤ limit) × (limit ≤ℤ pos 100)

module _ {W : Type 0} (db db' : Db W) where
  abbrev pub AgreeOnPages : Type 0
  AgreeOnPages =
      ((q : Clauses) → db.count q ≡ db'.count q)
      × ((q : Clauses) (o l : ℤ) → OnePage l → db.find q o l ≡ db'.find q o l)

  get_all-agree :
      (p : Params) (opts : Options) (w : W)
      → AgreeOnPages
      → OnePage p.limit
      → get_all db p opts w ≡ get_all db' p opts w
  unfolding get_all
  get_all-agree p opts w (counts, finds) h = rw (counts, finds _ _ p.limit h) refl

  -- Whatever the query string asks for, the listing reads at most 100 rows: it answers alike on two
  -- databases that agree on counts and on pages of 1 to 100 rows.
  pub handle_get_all-one_page :
      (r : Request) (c : Conn W) → AgreeOnPages → handle_get_all db r c ≡ handle_get_all db' r c
  unfolding handle_get_all
  handle_get_all-one_page r c agree =
      let b =
        new_params_bounds (atoi (get_value r.query "page")).0
          (atoi (get_value r.query "limit")).0 in
      ap (answer r (users_found r) c) (
        get_all-agree (page_params r) (parse r.query list_schema) c.world agree
          (unfold page_params in (b.1, b.2)))

module _ {W : Type 0} (db : Db W) where
  abbrev hide : List User × ℤ → List User × ℤ
  hide (us, total) = (map conceal us, total)

  abbrev hidden : {A : Type 0} → (A → A) → Result A × W → Result A × W
  hidden f (r, w) = (mapped f r, w)

  get_all-concealed :
      (p : Params) (opts : Options) (w : W)
      → get_all (concealed db) p opts w ≡ hidden hide (get_all db p opts w)
  unfolding get_all as_internal
  get_all-concealed p opts w = counted (db.count (filters opts no_clauses) w) refl
    where
      found :
          (t : ℤ) (q : Result (List User) × W)
          → continue (on_error (hidden (map conceal) q) as_internal) (λ us. pure (us, t))
            ≡ hidden hide (continue (on_error q as_internal) (λ us. pure (us, t)))
      found t (ok us, w') = refl
      found t (err e, w') = refl

      counted :
          (p' : Result ℤ × W)
          → db.count (filters opts no_clauses) w ≡ p'
          → get_all (concealed db) p opts w ≡ hidden hide (get_all db p opts w)
      counted (ok t, w') h =
          rw h (found t (db.find (sorts opts (filters opts no_clauses)) (offset p) p.limit w'))
      counted (err e, w') h = rw h refl

  get_by_id-concealed :
      (id : ℤ) (w : W) → get_by_id (concealed db) id w ≡ hidden conceal (get_by_id db id w)
  unfolding get_by_id
  get_by_id-concealed id w = go (db.first id w) refl
    where
      go :
          (p : Result User × W)
          → db.first id w ≡ p
          → get_by_id (concealed db) id w ≡ hidden conceal (get_by_id db id w)
      go (ok u, w') h = rw h refl
      go (err e, w') h = elim (Bool-cases (is_record_not_found e)) [
        | inl missing ↦ rw (h, missing) refl
        | inr other ↦ rw (h, other) refl
      ]

  module _ (r : Request) where
    found-concealed :
        (c : Conn W) (x : Result (List User × ℤ) × W)
        → answer r (users_found r) c (hidden hide x) ≡ answer r (users_found r) c x
    unfolding users_found answer
    found-concealed c (ok (us, t), w) = rw items_json-conceal refl
    found-concealed c (err e, w) = refl

    one-concealed :
        (d : Conn W) (x : Result User × W)
        → answer r
            (λ u. success 200 "User retrieved successfully" (some (user_json u)))
            d
            (hidden conceal x)
          ≡ answer r (λ u. success 200 "User retrieved successfully" (some (user_json u))) d x
    unfolding answer
    one-concealed d (ok u, w) = refl
    one-concealed d (err e, w) = refl

    -- The two GET handlers answer as if every stored password were empty.
    pub handle_get-concealed :
        (c : Conn W)
        → (handle_get_all (concealed db) r c ≡ handle_get_all db r c)
          × (handle_get_by_id (concealed db) r c ≡ handle_get_by_id db r c)
    unfolding handle_get_all handle_get_by_id
    handle_get-concealed c = (
      ap (answer r (users_found r) c) (get_all-concealed (page_params r) _ c.world)
          ∙ found-concealed c (get_all db (page_params r) _ c.world),
      ap (λ k. with_id r "invalid user id" k c)
          (fun_ext (λ id. fun_ext (λ d.
            ap (answer r (λ u. success 200 "User retrieved successfully" (some (user_json u))) d)
              (get_by_id-concealed id d.world)
            ∙ one-concealed d (get_by_id db id d.world)))),
    )
