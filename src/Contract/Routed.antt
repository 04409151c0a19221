-- ===== src/Contract/Routed.antt =====
-- The shared steps of the handlers and net/http's mux: what they do to a response
-- that nothing was sent of.
use go_microservice.Prelude.{
  ℕ, String, refl, true, false, List, [], ◌∷◌, Option, none, some, if◌then◌else◌, Bool, not, ◌&&◌,
  ◌||◌, ◌==◌, ◌++◌,
}
use go_microservice.Prelude.Text.{◌⧺◌, cut_prefix}
use go_microservice.Prelude.Int.{ℤ}
use go_microservice.Prelude.Strconv.{atoi, NumError}
use go_microservice.Apperror.{Error, AppError, app}
use go_microservice.Effect.{Result, ok, err}
use go_microservice.Http.{
  Request, Conn, Exit, returned, panicked, Handler, set_header, write_header, write_chunk,
  plain_text,
}
use go_microservice.Http.Mux.{
  Route, Found, serve_mux, strip_prefix, cut, dispatch, redirect, not_found, http_error, set_if,
  page_if, find_route, with_method, prefer, or_else, narrower, path_segments, ends_in_slash,
  exact_match, path_known,
}
use go_microservice.Request.{validate}
use go_microservice.Serving.{answer, with_valid, with_id, func, validated, id_given}
use go_microservice.Contract.{Shape}
use go_microservice.Contract.Envelope.{
  Blank, Answered, Body, unknown_path, unknown_method, moved, moved_quietly, error-Answered,
}

module _ {W : Type 0} (s : Shape) where
  module _ {A : Type 0} (r : Request) (k : A → Conn W → Conn W)
      (next : (a : A) (d : Conn W) → Blank d → Answered s (k a d)) where
    pub answer-Answered : (c : Conn W) (p : Result A × W) → Blank c → Answered s (answer r k c p)
    unfolding answer
    answer-Answered c (ok a, w) b = next a (record c { world = w }) b
    answer-Answered c (err e, w) b = error-Answered s r e (record c { world = w }) b

    validated-Answered :
        (c : Conn W) (v : A) (e : Option AppError) → Blank c → Answered s (validated r k c v e)
    unfolding validated
    validated-Answered c v none b = next v c b
    validated-Answered c v (some e) b = error-Answered s r (app e) c b

    pub with_valid-Answered :
        (check : A → Option Error) (c : Conn W) (p : Result A)
        → Blank c
        → Answered s (with_valid r check k c p)
    unfolding with_valid
    with_valid-Answered check c (err e) b = error-Answered s r e c b
    with_valid-Answered check c (ok v) b = validated-Answered c v (validate check v) b

  module _ (r : Request) (msg : String) (k : ℤ → Conn W → Conn W)
      (next : (id : ℤ) (d : Conn W) → Blank d → Answered s (k id d)) where
    id_given-Answered :
        (c : Conn W) (p : ℤ × Option NumError) → Blank c → Answered s (id_given r msg k c p)
    unfolding id_given
    id_given-Answered c (id, none) b = next id c b
    id_given-Answered c (id, some e) b = error-Answered s r _ c b

    pub with_id-Answered : (c : Conn W) → Blank c → Answered s (with_id r msg k c)
    unfolding with_id
    with_id-Answered c b = id_given-Answered c (atoi r.path_id) b

  -- It answers before it returns, or panics before it sends anything.
  pub data Outcome : Exit × Conn W → Type 0 where
    served : (c : Conn W) → Answered s c → Outcome (returned, c)
    crashed : (v : String) (c : Conn W) → Blank c → Outcome (panicked v, c)

  abbrev pub Answers : Handler W → Type 0
  Answers h = (r : Request) (c : Conn W) → Blank c → Outcome (h r c)

  pub func-Answers :
      (h : Request → Conn W → Conn W)
      → ((r : Request) (c : Conn W) → Blank c → Answered s (h r c))
      → Answers (func h)
  func-Answers h k r c b = served _ (k r c b)

  -- net/http
  pub data AllAnswer : List (Route W) → Type 0 where
    no_routes : AllAnswer []
    routes :
        (p : Route W) (rs : List (Route W)) → Answers p.handler → AllAnswer rs → AllAnswer (p ∷ rs)

  data FoundAnswers : Found W → Type 0 where
    nothing : FoundAnswers none
    hit : (p : Route W) (id : String) → Answers p.handler → FoundAnswers (some (p, id))

  if-FoundAnswers :
      (b : Bool) (f g : Found W)
      → FoundAnswers f
      → FoundAnswers g
      → FoundAnswers (if b then f else g)
  if-FoundAnswers true f g h k = h
  if-FoundAnswers false f g h k = k

  prefer-FoundAnswers :
      (p : Route W) (o : Option String) (f : Found W)
      → Answers p.handler
      → FoundAnswers f
      → FoundAnswers (prefer p o f)
  unfolding prefer
  prefer-FoundAnswers p none f h k = k
  prefer-FoundAnswers p (some id) none h k = hit p id h
  prefer-FoundAnswers p (some id) (some (q, old)) h k =
      if-FoundAnswers (narrower (p.pattern).segments (q.pattern).segments) (some (p, id))
        (some (q, old)) (hit p id h) k

  with_method-FoundAnswers :
      (m : Option String) (path : List String) (rs : List (Route W))
      → AllAnswer rs
      → FoundAnswers (with_method m path rs)
  unfolding with_method
  with_method-FoundAnswers m path _ no_routes = nothing
  with_method-FoundAnswers m path _ (routes p rs h k) =
      let rest = with_method-FoundAnswers m path rs k in
      if-FoundAnswers _ _ _ (prefer-FoundAnswers p _ _ h rest) rest

  or_else-FoundAnswers :
      (f g : Found W) → FoundAnswers f → FoundAnswers g → FoundAnswers (or_else f g)
  or_else-FoundAnswers _ g nothing k = k
  or_else-FoundAnswers _ g (hit p id h) k = hit p id h

  find_route-FoundAnswers :
      (m : String) (path : List String) (rs : List (Route W))
      → AllAnswer rs
      → FoundAnswers (find_route m path rs)
  unfolding find_route
  find_route-FoundAnswers m path rs h =
      or_else-FoundAnswers _ _ (with_method-FoundAnswers (some m) path rs h) (
        or_else-FoundAnswers _ _
          (if-FoundAnswers (m == "HEAD") _ _ (with_method-FoundAnswers (some "GET") path rs h)
            nothing)
          (with_method-FoundAnswers none path rs h))

  http_error-Answered :
      (text : String) (status : ℕ) (c : Conn W)
      → Body s status (plain_text (text ⧺ "\n") ∷ [])
      → Blank c
      → Answered s (http_error text status c)
  unfolding http_error set_header write_header write_chunk
  http_error-Answered text status c h (unsent, empty) = rw (unsent, empty) (_, refl, h)

  dispatch-Answers : (known : Bool) (f : Found W) → FoundAnswers f → Answers (dispatch known f)
  unfolding dispatch not_found
  dispatch-Answers true _ nothing r c b =
      served _ (http_error-Answered "Method Not Allowed" 405 c unknown_method b)
  dispatch-Answers false _ nothing r c b =
      served _ (http_error-Answered "404 page not found" 404 c unknown_path b)
  dispatch-Answers known _ (hit p id h) r c b = h _ c b

  set_header-Blank : (k v : String) (c : Conn W) → Blank c → Blank (set_header k v c)
  unfolding set_header
  set_header-Blank k v c b = b

  set_if-Blank : (x : Bool) (k v : String) (c : Conn W) → Blank c → Blank (set_if x k v c)
  unfolding set_if
  set_if-Blank true k v c b = set_header-Blank k v c b
  set_if-Blank false k v c b = b

  paged :
      (x : Bool) (location : String) (c : Conn W)
      → Blank c
      → Answered s (page_if x location (write_header 301 c))
  unfolding page_if write_header write_chunk
  paged true location c (unsent, empty) = rw (unsent, empty) (_, refl, moved location)
  paged false location c (unsent, empty) = rw (unsent, empty) (_, refl, moved_quietly)

  redirect-Answers : (location : String) → Answers (redirect location)
  unfolding redirect
  redirect-Answers location r c b = served _ (
      paged _ location _ (
        set_if-Blank _ "Content-Type" _ (set_header "Location" location c)
          (set_header-Blank "Location" location c b)))

  pub if-Outcome :
      (x : Bool) (f g : Exit × Conn W) → Outcome f → Outcome g → Outcome (if x then f else g)
  if-Outcome true f g h k = h
  if-Outcome false f g h k = k

  pub serve_mux-Answers :
      (clean : String → String) (rs : List (Route W)) → AllAnswer rs → Answers (serve_mux clean rs)
  unfolding serve_mux
  serve_mux-Answers clean rs h r c b =
      let path = clean r.path in
      let ss = path_segments path in
      let slashed = ss ++ "" ∷ [] in
      let found = find_route r.method ss rs in
      let known = path_known ss rs || (not (ends_in_slash ss) && path_known slashed rs) in
      if-Outcome
        (not (exact_match ss found)
          && not (ends_in_slash ss)
          && exact_match slashed (find_route r.method slashed rs))
        (redirect (path ⧺ "/") r c) _ (redirect-Answers _ r c b)
        (if-Outcome (not (path == r.path)) (redirect path r c) (dispatch known found r c)
          (redirect-Answers _ r c b)
          (dispatch-Answers known found (find_route-FoundAnswers r.method ss rs h) r c b))

  pub strip_prefix-Answers :
      (prefix : String) (h : Handler W) → Answers h → Answers (strip_prefix prefix h)
  unfolding strip_prefix cut not_found
  strip_prefix-Answers prefix h k r c b = go (cut_prefix prefix r.path)
    where
      go : (o : Option String) → Outcome (cut h r c o)
      go none = served _ (http_error-Answered "404 page not found" 404 c unknown_path b)
      go (some path) = k _ c b
