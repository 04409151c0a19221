-- ===== src/Query/Allowed.antt =====
-- pkg/query: which texts reach a query.
use go_microservice.Prelude.{
  String, Bool, true, ◌≡◌, refl, List, [], ◌∷◌, some, none, ◌==◌, Option, All, All-append, lookup,
  Bool-cases, inl, inr, ◌⊎◌,
}
use go_microservice.Prelude.Text.{◌⧺◌, trim_space, cut_prefix}
use go_microservice.Query.{
  Schema, FieldSpec, Values, Sort, Filter, Clauses, parse, filters, sorts, sort_part, sort_parts,
  sort_by, filter_part, filter_parts, filter_by, filter_key, add_filters, add_sorts, where_of,
  order_of, signed,
}

module _ (schema : Schema) where
  -- a column of the schema that `allowed` lets through
  abbrev pub Allows : (FieldSpec → Bool) → String → Type 0
  Allows allowed column =
      (name : String) × (spec : FieldSpec) × (lookup name schema ≡ some spec)
      × (allowed spec ≡ true)
      × (spec.column ≡ column)

  abbrev pub Orders : String → Type 0
  Orders clause =
      (column : String) × Allows (λ spec. spec.sortable) column
      × ((clause ≡ column ⧺ " ASC") ⊎ (clause ≡ column ⧺ " DESC"))

  abbrev pub Wheres : String × String → Type 0
  Wheres (clause, arg) =
      (column : String) × Allows (λ spec. spec.filterable) column
      × ((clause ≡ column ⧺ " ILIKE ?") ⊎ (clause ≡ column ⧺ " = ?"))

  abbrev SortOk : Sort → Type 0
  SortOk s = Allows (λ spec. spec.sortable) s.column

  abbrev FilterOk : Filter → Type 0
  FilterOk f = Allows (λ spec. spec.filterable) f.column

  sort_by_lem :
      (desc : Bool) (name : String) (found : Option FieldSpec)
      → lookup name schema ≡ found
      → All SortOk (sort_by desc found)
  sort_by_lem desc name none e = tt
  sort_by_lem desc name (some spec) e = elim (Bool-cases spec.sortable) [
    | inl on ↦ rw on ((name, spec, e, on, refl), tt)
    | inr off ↦ rw off tt
  ]

  sort_part_lem : (raw : String) → All SortOk (sort_part schema raw)
  unfolding sort_part
  sort_part_lem raw =
      let (desc, name) = signed (trim_space raw) (cut_prefix "-" (trim_space raw)) in
      elim (Bool-cases (name == "")) [
        | inl empty ↦ rw empty tt
        | inr other ↦ rw other (sort_by_lem desc name (lookup name schema) refl)
      ]

  sort_parts_lem : (raws : List String) → All SortOk (sort_parts schema raws)
  unfolding sort_parts
  sort_parts_lem [] = tt
  sort_parts_lem (raw ∷ raws) = All-append SortOk _ _ (sort_part_lem raw) (sort_parts_lem raws)

  filter_by_lem :
      (value name : String) (found : Option FieldSpec)
      → lookup name schema ≡ found
      → All FilterOk (filter_by value found)
  filter_by_lem value name none e = tt
  filter_by_lem value name (some spec) e = elim (Bool-cases spec.filterable) [
    | inl on ↦ rw on ((name, spec, e, on, refl), tt)
    | inr off ↦ rw off tt
  ]

  filter_part_lem :
      (name : Option String) (vals : List String) → All FilterOk (filter_part schema name vals)
  unfolding filter_part
  filter_part_lem none vals = tt
  filter_part_lem (some name) [] = tt
  filter_part_lem (some name) (value ∷ vals) = elim (Bool-cases (value == "")) [
    | inl empty ↦ rw empty tt
    | inr other ↦ rw other (filter_by_lem value name (lookup name schema) refl)
  ]

  filter_parts_lem : (values : Values) → All FilterOk (filter_parts schema values)
  unfolding filter_parts
  filter_parts_lem [] = tt
  filter_parts_lem ((key, vals) ∷ values) =
      All-append FilterOk _ _ (filter_part_lem (filter_key key) vals) (filter_parts_lem values)

  where_of_lem : (f : Filter) → FilterOk f → Wheres (where_of f)
  where_of_lem f ok = elim (Bool-cases f.partial) [
    | inl on ↦ rw on (f.column, ok, inl refl)
    | inr off ↦ rw off (f.column, ok, inr refl)
  ]

  order_of_lem : (s : Sort) → SortOk s → Orders (order_of s)
  order_of_lem s ok = elim (Bool-cases s.desc) [
    | inl on ↦ rw on (s.column, ok, inr refl)
    | inr off ↦ rw off (s.column, ok, inl refl)
  ]

  -- every clause is made from the schema
  abbrev pub Clean : Clauses → Type 0
  Clean db = All Wheres db.wheres × All Orders db.orders

  add_filters_lem :
      (fs : List Filter) (db : Clauses) → All FilterOk fs → Clean db → Clean (add_filters fs db)
  unfolding add_filters
  add_filters_lem [] db oks clean = clean
  add_filters_lem (f ∷ fs) db (ok, oks) (w, o) =
      add_filters_lem fs _ oks (All-append Wheres db.wheres _ w (where_of_lem f ok, tt), o)

  add_sorts_lem :
      (ss : List Sort) (db : Clauses) → All SortOk ss → Clean db → Clean (add_sorts ss db)
  unfolding add_sorts
  add_sorts_lem [] db oks clean = clean
  add_sorts_lem (s ∷ ss) db (ok, oks) (w, o) =
      add_sorts_lem ss _ oks (w, All-append Orders db.orders _ o (order_of_lem s ok, tt))

  -- Whatever the client sends, every WHERE text that the parsed options add to a query is a
  -- filterable column of the schema with " ILIKE ?" or " = ?", and every ORDER BY text is a sortable
  -- column of the schema with " ASC" or " DESC".
  pub parse-Clean :
      (values : Values)
      → Clean (
          sorts
            (parse values schema)
            (filters (parse values schema) (record { wheres = []; orders = [] })))
  unfolding parse filters sorts
  parse-Clean values =
      add_sorts_lem (parse values schema).sorts _ (sort_parts_lem _)
        (add_filters_lem (parse values schema).filters _ (filter_parts_lem values) (tt, tt))
