-- ===== src/Query.antt =====
-- pkg/query/query.go and the scopes of pkg/query/gorm/gorm.go. A url.Values or a Schema is a list
-- of its entries, in the order in which the map is walked; a *gorm.DB is what was added to it.
pub mod Allowed
use Prim.Native.Char.{Char, code}
use Prim.Native.String.{[], ◌∷◌}
use mathlib.Core.List.{List, [], ◌∷◌, ◌++◌}
use go_microservice.Prelude.{
  ℕ, String, Bool, true, false, ◌||◌, ◌&&◌, Option, none, some, ◌==◌, lookup, leb, nat_eq,
  if◌then◌else◌,
}
use go_microservice.Prelude.Text.{◌⧺◌, split, trim_space, cut_prefix}
use go_microservice.Http.{get_value}

pub record Sort : Type 0 where
  pub column : String
  pub desc : Bool

pub record Filter : Type 0 where
  pub column : String
  pub value : String
  pub partial : Bool

pub record Options : Type 0 where
  pub sorts : List Sort
  pub filters : List Filter

pub record FieldSpec : Type 0 where
  pub column : String
  pub sortable : Bool
  pub filterable : Bool
  pub partial : Bool

-- the spec of a sortable column, as both schemas have them
abbrev pub column : String → Bool → Bool → FieldSpec
column name filterable partial = record {
  column = name;
  sortable = true;
  filterable = filterable;
  partial = partial;
}

abbrev pub Schema : Type 0
Schema = List (String × FieldSpec)

abbrev pub Values : Type 0
Values = List (String × List String)

-- \w
abbrev is_word : ℕ → Bool
is_word n =
    (leb b'0' n && leb n b'9')
    || (leb b'A' n && leb n b'Z')
    || (leb b'a' n && leb n b'z')
    || nat_eq n b'_'

abbrev push : Char → Option String → Option String
push c none = none
push c (some w) = some (c ∷ w)

-- `\w*\]$`, and the word
closed_word : String → Option String
closed_word [] = none
closed_word (c ∷ []) = if nat_eq (code c) b']' then some "" else none
closed_word (c ∷ d ∷ s) =
    let rest = closed_word (d ∷ s) in if is_word (code c) then push c rest else none

abbrev non_empty : Option String → Option String
non_empty none = none
non_empty (some []) = none
non_empty (some (c ∷ w)) = some (c ∷ w)

bracketed : Option String → Option String
unfolding closed_word
bracketed none = none
bracketed (some rest) = non_empty (closed_word rest)

-- filterKey.FindStringSubmatch: the group of `^filter\[(\w+)\]$`
unfoldable pub filter_key : String → Option String
unfolding bracketed
filter_key key = bracketed (cut_prefix "filter[" key)

abbrev signed : String → Option String → Bool × String
signed name none = (false, name)
signed name (some rest) = (true, rest)

abbrev sort_by : Bool → Option FieldSpec → List Sort
sort_by desc none = []
sort_by desc (some spec) =
    if spec.sortable then record { column = spec.column; desc = desc } ∷ [] else []

-- one turn of the first loop: what it appends
sort_part : Schema → String → List Sort
sort_part schema raw =
    let name = trim_space raw in
    let (desc, name') = signed name (cut_prefix "-" name) in
    if name' == "" then [] else sort_by desc (lookup name' schema)

sort_parts : Schema → List String → List Sort
unfolding sort_part
sort_parts schema [] = []
sort_parts schema (raw ∷ raws) = sort_part schema raw ++ sort_parts schema raws

abbrev filter_by : String → Option FieldSpec → List Filter
filter_by value none = []
filter_by value (some spec) =
    if spec.filterable
    then record { column = spec.column; value = value; partial = spec.partial } ∷ []
    else []

-- one turn of the second loop
filter_part : Schema → Option String → List String → List Filter
filter_part schema none vals = []
filter_part schema (some name) [] = []
filter_part schema (some name) (value ∷ vals) =
    if value == "" then [] else filter_by value (lookup name schema)

filter_parts : Schema → Values → List Filter
unfolding filter_part
filter_parts schema [] = []
filter_parts schema ((key, vals) ∷ values) =
    filter_part schema (filter_key key) vals ++ filter_parts schema values

-- Parse
unfoldable pub parse : Values → Schema → Options
unfolding sort_parts filter_parts
parse values schema = record {
  sorts = sort_parts schema (split b',' (get_value values "sort"));
  filters = filter_parts schema values;
}

-- db.Where(text, arg) and db.Order(text)
pub record Clauses : Type 0 where
  pub wheres : List (String × String)
  pub orders : List String

abbrev pub no_clauses : Clauses
no_clauses = record { wheres = []; orders = [] }

abbrev pub where_of : Filter → String × String
where_of f =
    if f.partial then (f.column ⧺ " ILIKE ?", "%" ⧺ f.value ⧺ "%") else (f.column ⧺ " = ?", f.value)

abbrev pub order_of : Sort → String
order_of s = s.column ⧺ " " ⧺ (if s.desc then "DESC" else "ASC")

add_filters : List Filter → Clauses → Clauses
add_filters [] db = db
add_filters (f ∷ fs) db = add_filters fs (record db { wheres = db.wheres ++ where_of f ∷ [] })

add_sorts : List Sort → Clauses → Clauses
add_sorts [] db = db
add_sorts (s ∷ ss) db = add_sorts ss (record db { orders = db.orders ++ order_of s ∷ [] })

-- the scopes Filters and Sorts
unfoldable pub filters : Options → Clauses → Clauses
unfolding add_filters
filters opts = add_filters opts.filters

unfoldable pub sorts : Options → Clauses → Clauses
unfolding add_sorts
sorts opts = add_sorts opts.sorts
