-- ===== src/Http/Mux.antt =====
-- What the routers use of net/http's ServeMux: patterns with a method, at most one wildcard, and a
-- last "/" for a subtree. The Allow header of a 405, the header X-Content-Type-Options of http.Error
-- and the query of a redirect are left out, and the escapes of a location; path.Clean is a
-- parameter.
use go_microservice.Prelude.{
  ℕ, String, Bool, true, false, not, ◌&&◌, ◌||◌, List, [], ◌∷◌, ◌++◌, Option, none, some, ◌==◌,
  lookup, if◌then◌else◌,
}
use go_microservice.Prelude.Text.{◌⧺◌, split, cut_prefix}
use go_microservice.Apperror.{is_some}
use go_microservice.Http.{
  Request, Handler, Conn, Exit, returned, write_header, set_header, write_chunk, plain_text,
  link_page,
}

pub data Segment : Type 0 where
  literal : String → Segment
  wild : Segment

-- `method` is none where the pattern names none; a subtree's pattern ends in "/"
pub record Pattern : Type 0 where
  pub method : Option String
  pub segments : List Segment
  pub subtree : Bool

pub record Route (W : Type 0) : Type 0 where
  pub pattern : Pattern
  pub handler : Handler W

-- the parts between the slashes of a path that begins with one
abbrev behind_first : List String → List String
behind_first [] = []
behind_first (s ∷ ss) = ss

unfoldable pub path_segments : String → List String
path_segments path = behind_first (split b'/' path)

-- what the wildcard stands for, "" without one
bound : String → Option String → Option String
bound s none = none
bound s (some later) = if s == "" then none else some s

unfoldable pub match_segments : List Segment → Bool → List String → Option String
unfolding bound
match_segments [] false [] = some ""
match_segments [] false (s ∷ ss) = none
match_segments [] true [] = none
match_segments [] true (s ∷ ss) = some ""
match_segments (p ∷ ps) subtree [] = none
match_segments (literal a ∷ ps) subtree (s ∷ ss) =
    let rest = match_segments ps subtree ss in if a == s then rest else none
match_segments (wild ∷ ps) subtree (s ∷ ss) = bound s (match_segments ps subtree ss)

-- Of two patterns that match one path the mux takes the one with a literal, or else with a wildcard,
-- where the other has something wider.
unfoldable pub narrower : List Segment → List Segment → Bool
narrower [] q = false
narrower (p ∷ ps) [] = true
narrower (literal a ∷ ps) (literal b ∷ qs) = narrower ps qs
narrower (literal a ∷ ps) (wild ∷ qs) = true
narrower (wild ∷ ps) (literal b ∷ qs) = false
narrower (wild ∷ ps) (wild ∷ qs) = narrower ps qs

abbrev pub same_method : Option String → Option String → Bool
same_method none none = true
same_method (some a) (some b) = a == b
same_method _ _ = false

-- the end of a path that matches a subtree's pattern and no more
unfoldable pub at_root : List Segment → List String → Bool
at_root [] [] = false
at_root [] (s ∷ []) = s == ""
at_root [] (s ∷ t ∷ ss) = false
at_root (p ∷ ps) [] = false
at_root (p ∷ ps) (s ∷ ss) = at_root ps ss

abbrev pub ends_in_slash : List String → Bool
ends_in_slash [] = false
ends_in_slash (s ∷ []) = s == ""
ends_in_slash (s ∷ t ∷ ss) = ends_in_slash (t ∷ ss)

abbrev pub Found : Type 0 → Type 0
Found W = Option (Route W × String)

abbrev pub or_else : {A : Type 0} → Option A → Option A → Option A
or_else none g = g
or_else (some f) g = some f

abbrev pub known_or : Option String → Bool → Bool
known_or none rest = rest
known_or (some id) rest = true

module _ {W : Type 0} where
  unfoldable pub prefer : Route W → Option String → Found W → Found W
  unfolding narrower
  prefer new none old = old
  prefer new (some id) none = some (new, id)
  prefer new (some id) (some (old, old_id)) =
      if narrower (new.pattern).segments (old.pattern).segments
      then some (new, id)
      else some (old, old_id)

  unfoldable pub with_method : Option String → List String → List (Route W) → Found W
  unfolding match_segments prefer
  with_method m ss [] = none
  with_method m ss (route ∷ routes) =
      let rest = with_method m ss routes in
      let p = route.pattern in
      if same_method p.method m
      then prefer route (match_segments p.segments p.subtree ss) rest
      else rest

  -- the request's method first, GET for HEAD, and then the patterns without a method
  unfoldable pub find_route : String → List String → List (Route W) → Found W
  unfolding with_method
  find_route m ss routes =
      let get = if m == "HEAD" then with_method (some "GET") ss routes else none in
      or_else (with_method (some m) ss routes) (or_else get (with_method none ss routes))

  unfoldable pub exact_match : List String → Found W → Bool
  unfolding at_root
  exact_match ss none = false
  exact_match ss (some (route, id)) =
      if (route.pattern).subtree then at_root (route.pattern).segments ss else true

  -- whether the path is known under some method
  unfoldable pub path_known : List String → List (Route W) → Bool
  unfolding match_segments
  path_known ss [] = false
  path_known ss (route ∷ routes) =
      let p = route.pattern in
      known_or (match_segments p.segments p.subtree ss) (path_known ss routes)

  -- http.Error
  unfoldable pub http_error : String → ℕ → Conn W → Conn W
  unfolding set_header write_header write_chunk
  http_error text code c =
      write_chunk (plain_text (text ⧺ "\n"))
        (write_header code (set_header "Content-Type" "text/plain; charset=utf-8" c))

  unfoldable pub not_found : Handler W
  unfolding http_error
  not_found r c = (returned, http_error "404 page not found" 404 c)

  unfoldable pub set_if : Bool → String → String → Conn W → Conn W
  unfolding set_header
  set_if true k v c = set_header k v c
  set_if false k v c = c

  unfoldable pub page_if : Bool → String → Conn W → Conn W
  unfolding write_chunk
  page_if true location c = write_chunk (link_page location) c
  page_if false location c = c

  -- http.Redirect with StatusMovedPermanently: GET has a page, unless a Content-Type was set
  unfoldable pub redirect : String → Handler W
  unfolding write_header set_header set_if page_if
  redirect location r c =
      let untyped = not (is_some (lookup "Content-Type" c.writer.header.fields)) in
      let located = set_header "Location" location c in
      let get = r.method == "GET" in
      let typed =
        set_if (untyped && (get || r.method == "HEAD")) "Content-Type" "text/html; charset=utf-8"
          located in
      (returned, page_if (untyped && get) location (write_header 301 typed))

  unfoldable pub dispatch : Bool → Found W → Handler W
  unfolding not_found http_error
  dispatch known (some (route, id)) r c = route.handler (record r { path_id = id }) c
  dispatch true none r c = (returned, http_error "Method Not Allowed" 405 c)
  dispatch false none r c = not_found r c

  -- mux.ServeHTTP
  unfoldable pub serve_mux : (String → String) → List (Route W) → Handler W
  unfolding path_segments find_route exact_match path_known redirect dispatch
  serve_mux clean routes r c =
      let path = clean r.path in
      let ss = path_segments path in
      let found = find_route r.method ss routes in
      let slashed = ss ++ "" ∷ [] in
      if not (exact_match ss found)
        && not (ends_in_slash ss)
        && exact_match slashed (find_route r.method slashed routes)
      then redirect (path ⧺ "/") r c
      else if not (path == r.path)
      then redirect path r c
      else dispatch (path_known ss routes || (not (ends_in_slash ss) && path_known slashed routes))
          found r c

  unfoldable pub cut : Handler W → Request → Conn W → Option String → Exit × Conn W
  unfolding not_found
  cut next r c none = not_found r c
  cut next r c (some path) = next (record r { path = path }) c

  -- http.StripPrefix
  unfoldable pub strip_prefix : String → Handler W → Handler W
  unfolding cut cut_prefix
  strip_prefix prefix next r c = cut next r c (cut_prefix prefix r.path)
