-- ===== src/Tests/Requests.antt =====
-- pkg/request, pkg/validation, the rate limiter and the auth handlers at concrete requests.
use go_microservice.Prelude.{
  ℕ, suc, String, true, ◌≡◌, refl, List, [], ◌∷◌, Option, some, none, ◌<◌, ◌≤◌,
}
use go_microservice.Prelude.Int.{pos}
use go_microservice.Apperror.{Error, Violation, app, foreign, invalid_fields, invalid_input}
use go_microservice.Effect.{Result, ok, err}
use go_microservice.Http.{Request, Conn, Handler, returned, fresh, set_header}
use go_microservice.Response
use go_microservice.Request.{decode_json, tag_name}
use go_microservice.Middleware.RateLimit.{Counters, rate_limit, too_many_requests}
use go_microservice.Middleware.RateLimit.Window.{CountsHits, counted, rate_limit_cases}
use go_microservice.Auth.Handlers.{handle_refresh}
use go_microservice.Auth.Handlers.Cookies.{Answers, exchange, handle_refresh_lem}
use go_microservice.Tests.Auth.{service, keys, Keys}

-- two JSON values in one body
abbrev decode : String → Result (String × String)
decode body = ok ("{}", "{}")

abbrev decode_empty : String → Option Error
decode_empty rest = none

abbrev two_values : Error
two_values = app (invalid_input "request body must contain a single JSON object")

two_values_refused : decode_json decode decode_empty "{}{}" ≡ err two_values
unfolding decode_json
two_values_refused = refl

abbrev violations : List Violation
violations =
    record { field = "name"; tag = "required"; param = "" }
    ∷ record { field = "password"; tag = "min"; param = "8" }
    ∷ []

abbrev check : String → Option Error
check s = some (foreign (invalid_fields violations) "Key: ...")

-- one counter for every key
abbrev db : Counters ℕ
db = record { incr = λ k w. (ok (pos (suc w)), suc w); expire = λ k x w. (ok tt, w) }

db_laws : CountsHits db (λ w k. w)
db_laws = record {
  incr = λ k w. refl;
  incr_hits = λ k w. refl;
  expire = λ k x w. refl;
  expire_hits = λ k x w. refl;
}

abbrev request : Request
request = record {
  method = "POST";
  path = "/v1/auth/refresh";
  header = [];
  cookies = ("refresh_token", "old") ∷ [];
  query = [];
  path_id = "";
  remote_addr = "10.0.0.1:4000";
  body = "";
  ctx = record { request_id = none; user_id = none; logger = none };
}

abbrev conn : Conn ℕ
conn = record { world = 5; writer = fresh; log = [] }

abbrev next : Handler ℕ
next r c = (returned, c)

abbrev split : String → Option String
split addr = some "10.0.0.1"

abbrev after : Conn ℕ
after = counted db (λ w k. w) db_laws split "auth" "60" 5 next request conn

rate_limit_cases_example :
    (after.world ≡ 6)
    × (5 < 5
        → rate_limit split (some db) "auth" (pos 5) "60" next request conn ≡ next request after)
    × (5 ≤ 5
        → rate_limit split (some db) "auth" (pos 5) "60" next request conn ≡ (
          returned,
          Response.json_response 429 too_many_requests (set_header "Retry-After" "60" after),
        ))
rate_limit_cases_example =
    rate_limit_cases db (λ w k. w) db_laws split "auth" "60" 5 next request conn 5 refl

abbrev session : Conn Keys
session = record { world = keys; writer = fresh; log = [] }

handle_refresh_lem_example :
    Answers true []
      (exchange service (some "old") keys)
      (handle_refresh service true request session).writer
handle_refresh_lem_example = handle_refresh_lem service true request session refl

tag_name_of_omitted : tag_name "Password" "-" ≡ "Password"
unfolding tag_name
tag_name_of_omitted = refl

tag_name_of_options : tag_name "Name" "name,omitempty" ≡ "name"
unfolding tag_name
tag_name_of_options = refl
