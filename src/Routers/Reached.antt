-- ===== src/Routers/Reached.antt =====
-- Which handler of the user service a request reaches.
use Prim.Native.String.{[], ◌∷◌}
use text.Mathlib.TextLemmas.{nil-append, cons-append}
use mathlib.Core.List.{[], ◌∷◌}
use go_microservice.Prelude.{String, false, List, some, ◌≡◌, refl, sym, ap, ◌∙◌, ◌==◌, eq_refl}
use go_microservice.Prelude.Int.{ℤ}
use go_microservice.Prelude.Text.{◌⧺◌, split, cut_prefix}
use go_microservice.Http.{Request, get_header, Handler, Conn}
use go_microservice.Http.Mux.{
  Route, literal, serve_mux, strip_prefix, cut, path_segments, find_route, exact_match, dispatch,
  with_method, prefer, match_segments, narrower, path_known, at_root,
}
use go_microservice.Middleware.{auth, router_stack}
use go_microservice.Middleware.Stack.{router_stack_of_inner}
use go_microservice.Middleware.Guards.{Identifies, auth_of_known, as_user}
use go_microservice.Routers.{
  below, at, UserHandler, HealthHandler, user_routes, register_user_routes, register, register_user,
}

-- the same text, with an append that computes on the first one's characters
abbrev appended : String → String → String
appended [] t = t
appended (c ∷ s) t = c ∷ appended s t

append-eq : (s t : String) → s ⧺ t ≡ appended s t
append-eq [] t = nil-append t
append-eq (c ∷ s) t = cons-append c s t ∙ ap (λ (u : String). c ∷ u) (append-eq s t)

-- the last part of a path: not empty, and without a slash
unfoldable pub IsName : String → Type 0
IsName s = (split b'/' s ≡ s ∷ []) × ((s == "") ≡ false)

module _ {W : Type 0} (clean : String → String) (health : HealthHandler W) (h : UserHandler W)
    (s : String) (name : IsName s) where
  segments_of_user : path_segments ("/" ⧺ s) ≡ s ∷ []
  unfolding path_segments split IsName
  segments_of_user = rw (append-eq "/" s, name.0) refl

  segments_of_users : path_segments ("/users/" ⧺ s) ≡ "users" ∷ s ∷ []
  unfolding path_segments split IsName
  segments_of_users = rw (append-eq "/users/" s, name.0) refl

  segments_of_v1 : path_segments ("/v1/users/" ⧺ s) ≡ "v1" ∷ "users" ∷ s ∷ []
  unfolding path_segments split IsName
  segments_of_v1 = rw (append-eq "/v1/users/" s, name.0) refl

  cut_users : cut_prefix "/users" ("/users/" ⧺ s) ≡ some ("/" ⧺ s)
  unfolding cut_prefix
  cut_users = rw (append-eq "/users/" s, append-eq "/" s) refl

  cut_v1 : cut_prefix "/v1" ("/v1/users/" ⧺ s) ≡ some ("/users/" ⧺ s)
  unfolding cut_prefix
  cut_v1 = rw (append-eq "/v1/users/" s, append-eq "/users/" s) refl

  -- the mux of the users, at a path with one part
  user_mux-get :
      (q : Request) (d : Conn W)
      → q.method ≡ "GET"
      → q.path ≡ "/" ⧺ s
      → clean q.path ≡ q.path
      → serve_mux clean (user_routes h) q d ≡ h.get_by_id (record q { path_id = s }) d
  unfolding serve_mux user_routes IsName find_route with_method prefer match_segments narrower
      exact_match path_known at_root dispatch
  user_mux-get q d get here tidy = rw (tidy, here, segments_of_user, get, name.1) (rw eq_refl refl)

  v1_mux-users :
      (q : Request) (d : Conn W)
      → q.method ≡ "GET"
      → q.path ≡ "/users/" ⧺ s
      → clean q.path ≡ q.path
      → serve_mux clean (register_user_routes clean h auth) q d
        ≡ auth
            (strip_prefix "/users" (serve_mux clean (user_routes h)))
            (record q { path_id = "" })
            d
  unfolding serve_mux register_user_routes IsName find_route with_method prefer match_segments
      narrower exact_match path_known at_root dispatch
  v1_mux-users q d get here tidy = rw (tidy, here, segments_of_users, get, name.1) (rw eq_refl refl)

  abbrev root : List (Route W)
  root =
      below "v1" (strip_prefix "/v1" (serve_mux clean (register_user_routes clean h auth)))
      ∷ at "GET" (literal "healthz" ∷ []) health.live
      ∷ at "GET" (literal "readyz" ∷ []) health.ready
      ∷ []

  root_mux-v1 :
      (q : Request) (d : Conn W)
      → q.method ≡ "GET"
      → q.path ≡ "/v1/users/" ⧺ s
      → clean q.path ≡ q.path
      → serve_mux clean root q d
        ≡ strip_prefix "/v1"
            (serve_mux clean (register_user_routes clean h auth))
            (record q { path_id = "" })
            d
  unfolding serve_mux IsName find_route with_method prefer match_segments narrower exact_match
      path_known at_root dispatch
  root_mux-v1 q d get here tidy = rw (tidy, here, segments_of_v1, get, name.1) (rw eq_refl refl)

  stripped :
      (prefix rest : String) (next : Handler W) (q : Request) (d : Conn W)
      → cut_prefix prefix q.path ≡ some rest
      → strip_prefix prefix next q d ≡ next (record q { path = rest }) d
  unfolding strip_prefix cut
  stripped prefix rest next q d e = rw e refl

  module _ (id : ℤ) (tidy_root : clean ("/v1/users/" ⧺ s) ≡ "/v1/users/" ⧺ s)
      (tidy_v1 : clean ("/users/" ⧺ s) ≡ "/users/" ⧺ s)
      (tidy_users : clean ("/" ⧺ s) ≡ "/" ⧺ s) where
    inner-get :
        (q : Request) (d : Conn W)
        → q.method ≡ "GET"
        → q.path ≡ "/v1/users/" ⧺ s
        → Identifies (get_header q "X-User-ID") id
        → serve_mux clean root q d
          ≡ h.get_by_id (record (as_user q id) { path = "/" ⧺ s; path_id = s }) d
    inner-get q d get here known =
        let q₁ = record q { path_id = "" } in
        let q₂ = record q₁ { path = "/users/" ⧺ s } in
        let q₃ = as_user q₂ id in
        root_mux-v1 q d get here (ap clean here ∙ tidy_root ∙ sym here)
        ∙ stripped "/v1" ("/users/" ⧺ s) _ q₁ d (ap (cut_prefix "/v1") here ∙ cut_v1)
        ∙ v1_mux-users q₂ d get refl tidy_v1
        ∙ auth_of_known _ q₂ d id known
        ∙ stripped "/users" ("/" ⧺ s) _ q₃ d cut_users
        ∙ user_mux-get (record q₃ { path = "/" ⧺ s }) d get refl tidy_users

    -- GET /v1/users/{id} of a client that the gateway knows reaches GetByID, under the stack, with
    -- the last part of the path as its id and with the client's id in the context, where path.Clean
    -- leaves the path and its two ends as they are.
    pub register_user-get_by_id :
        (new_uuid : W → String × W) (r : Request) (c : Conn W)
        → r.method ≡ "GET"
        → r.path ≡ "/v1/users/" ⧺ s
        → Identifies (get_header r "X-User-ID") id
        → register_user clean new_uuid h health r c
          ≡ router_stack new_uuid
              (λ q d. h.get_by_id (record (as_user q id) { path = "/" ⧺ s; path_id = s }) d)
              r
              c
    unfolding register_user register
    register_user-get_by_id new_uuid r c get here known =
        router_stack_of_inner new_uuid _ _ r c
          (λ x d. inner-get (record r { ctx = x }) d get here known)
