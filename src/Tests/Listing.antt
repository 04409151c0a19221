-- ===== src/Tests/Listing.antt =====
-- pkg/pagination and pkg/query at concrete query strings.
use go_microservice.Prelude.{◌≡◌, refl, [], ◌∷◌, ◌↔◌, arith}
use go_microservice.Prelude.Int.{pos, negsuc, ◌≤ℤ◌, ◌<ℤ◌}
use go_microservice.Prelude.Strconv.{atoi}
use go_microservice.Prelude.Text.{split, trim_space, cut_prefix}
use go_microservice.Pagination.{new_params, offset, new_meta}
use go_microservice.Pagination.Pages.{at, page-has_rows_iff}
use go_microservice.Query.{Values, parse, filters, sorts, filter_key, no_clauses}
use go_microservice.Query.Allowed.{Clean, parse-Clean}
use go_microservice.Users.{list_schema}

-- the third page of ten, of 25 rows
page-has_rows_iff_example :
    ((at 2 9).page ≤ℤ (new_meta (at 2 9) (pos 25)).total_pages) ↔ (offset (at 2 9) <ℤ pos 25)
page-has_rows_iff_example = page-has_rows_iff 2 9 25 (omega arith) (omega arith)

-- a page number that Atoi clamps, and an offset below zero
offset_wraps : offset (new_params (atoi "99999999999999999999").0 (pos 10)) ≡ negsuc 19
unfolding offset new_params atoi
offset_wraps = refl

abbrev values : Values
values =
    ("sort", "-name, password,id" ∷ [])
    ∷ ("filter[email]", "x.org" ∷ [])
    ∷ ("filter[password]", "secret" ∷ [])
    ∷ ("page", "2" ∷ [])
    ∷ []

parsed :
    sorts (parse values list_schema) (filters (parse values list_schema) no_clauses)
    ≡ record { wheres = ("email ILIKE ?", "%x.org%") ∷ []; orders = "name DESC" ∷ "id ASC" ∷ [] }
unfolding parse filters sorts filter_key split trim_space cut_prefix
parsed = refl

parse-Clean_example :
    Clean list_schema
      (sorts (parse values list_schema) (filters (parse values list_schema) no_clauses))
parse-Clean_example = parse-Clean list_schema values
