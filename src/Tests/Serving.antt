-- ===== src/Tests/Serving.antt =====
-- The HTTP handlers and the routers of the services at concrete requests.
use go_microservice.Prelude.{
  ap, Bool, ℕ, suc, String, false, ◌≡◌, refl, List, [], arith, if◌then◌else◌, sym,
}
use go_microservice.Prelude.Int.{ℤ, pos, ltb_ℤ}
use go_microservice.Apperror.{foreign, plain}
use go_microservice.Effect.{Result, err}
use go_microservice.Http.{Request, Conn, Handler, fresh, returned}
use go_microservice.Auth.{User}
use go_microservice.Users.{Db}
use go_microservice.Users.Handlers.{handle_get_all, handle_get_by_id}
use go_microservice.Users.Handlers.Answers.{
  concealed, AgreeOnPages, handle_get_all-one_page, handle_get-concealed,
}
use go_microservice.Middleware.Guards.{Identifies, not-Identifies_empty, as_user}
use go_microservice.Http.Mux.{
  serve_mux, redirect, path_segments, find_route, exact_match, path_known, dispatch, with_method,
  prefer, match_segments, narrower, at_root,
}
use go_microservice.Routers.{
  user_routes, register_user_routes, UserHandler, HealthHandler, register_user,
}
use go_microservice.Middleware.{auth, router_stack}
use go_microservice.Prelude.Strconv.{atoi}
use go_microservice.Prelude.Text.{◌⧺◌, split}
use go_microservice.Routers.Reached.{IsName, register_user-get_by_id}
use go_microservice.Routers.Guarded.{register_user-guards}
use go_microservice.Tests.Users.{db}
use go_microservice.Tests.Http.{request}

abbrev pub conn : Conn ℕ
conn = record { world = 0; writer = fresh; log = [] }

-- a database that refuses to read more than a hundred rows
abbrev strict : Db ℕ
strict = record db {
  find = λ q o l w. (err (foreign plain (if ltb_ℤ (pos 100) l then "too many" else "unused")), w);
}

agree : AgreeOnPages db strict
agree = (
  λ q. refl,
  λ q o l h.
      let small : ltb_ℤ (pos 100) l ≡ false = ground arith in
      let answers : Bool → ℕ → Result (List User) × ℕ =
        λ b w. (err (foreign plain (if b then "too many" else "unused")), w) in
      ap answers (sym small),
)

handle_get_all-one_page_example :
    handle_get_all db request conn ≡ handle_get_all strict request conn
handle_get_all-one_page_example = handle_get_all-one_page db strict request conn agree

handle_get-concealed_example :
    (handle_get_all (concealed db) request conn ≡ handle_get_all db request conn)
    × (handle_get_by_id (concealed db) request conn ≡ handle_get_by_id db request conn)
handle_get-concealed_example = handle_get-concealed db request conn

abbrev pub stranger : Request
stranger = record request { header = []; path = "/v1/users/7" }

abbrev draw : ℕ → String × ℕ
draw n = ("minted", suc n)

abbrev same_path : String → String
same_path p = p

abbrev all : Handler ℕ → UserHandler ℕ
all h = record { get_all = h; get_by_id = h; create = h; update = h; delete = h }

abbrev stays : Handler ℕ
stays r c = (returned, c)

abbrev counts : Handler ℕ
counts r c = (returned, record c { world = suc c.world })

abbrev healthy : HealthHandler ℕ
healthy = record { live = stays; ready = stays }

unidentified : (id : ℤ) → ¬ Identifies "" id
unidentified id h = not-Identifies_empty "" id refl h

register_user-guards_example :
    register_user same_path draw (all counts) healthy stranger conn
    ≡ register_user same_path draw (all stays) healthy stranger conn
register_user-guards_example =
    register_user-guards draw same_path healthy (all counts) (all stays) stranger conn unidentified

abbrev known : Request
known = record request { path = "/v1/users/" ⧺ "7" }

seven_IsName : IsName "7"
unfolding IsName split
seven_IsName = (refl, refl)

register_user-get_by_id_example :
    register_user same_path draw (all counts) healthy known conn
    ≡ router_stack draw
        (λ q d. counts (record (as_user q (pos 7)) { path = "/" ⧺ "7"; path_id = "7" }) d)
        known
        conn
unfolding atoi
register_user-get_by_id_example =
    register_user-get_by_id same_path healthy (all counts) "7" seven_IsName (pos 7) refl refl refl
      draw known conn refl refl (refl, omega arith)

-- Behind StripPrefix, a listing without its slash is redirected to a path that the service does not
-- have.
abbrev no_slash : Request
no_slash = record stranger { path = "/users" }

listing_redirected :
    serve_mux same_path (register_user_routes same_path (all counts) auth) no_slash conn
    ≡ redirect "/users/" no_slash conn
unfolding serve_mux path_segments find_route exact_match path_known dispatch with_method prefer
    match_segments at_root register_user_routes split
listing_redirected = refl

abbrev below_user : Request
below_user = record stranger { path = "/7/anything" }

-- The listing answers every GET below an id.
listing_below_user :
    serve_mux same_path (user_routes (all counts)) below_user conn
    ≡ counts (record below_user { path_id = "" }) conn
unfolding serve_mux path_segments find_route exact_match path_known dispatch with_method prefer
    match_segments narrower at_root user_routes split
listing_below_user = refl
