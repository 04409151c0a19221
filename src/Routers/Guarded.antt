-- ===== src/Routers/Guarded.antt =====
-- What the services answer to a request without the X-User-ID header of the gateway.
use go_microservice.Prelude.{
  String, Bool, true, false, not, ◌&&◌, List, [], ◌∷◌, ◌++◌, Option, none, some, ◌≡◌, refl, ap,
  ◌||◌, Bool-cases, inl, inr, if◌then◌else◌, ◌==◌,
}
use go_microservice.Prelude.Text.{cut_prefix}
use go_microservice.Prelude.Int.{ℤ}
use go_microservice.Http.{Request, get_header, Handler, Conn}
use go_microservice.Http.Mux.{
  Pattern, Route, Found, match_segments, narrower, prefer, with_method, find_route, path_segments,
  same_method, or_else, ends_in_slash, exact_match, path_known, known_or, dispatch, serve_mux, cut,
  strip_prefix,
}
use go_microservice.Middleware.{auth, router_stack}
use go_microservice.Middleware.Stack.{router_stack_of_inner}
use go_microservice.Middleware.Guards.{Identifies, auth_of_anonymous}
use go_microservice.Routers.{
  UserHandler, NotificationHandler, HealthHandler, register_user_routes, register, register_user,
  register_notification_routes, register_notification,
}

abbrev pub Anonymous : Request → Type 0
Anonymous r = (id : ℤ) → ¬ Identifies (get_header r "X-User-ID") id

module _ {W : Type 0} where
  -- handlers that do the same for every anonymous request
  abbrev pub Agree : Handler W → Handler W → Type 0
  Agree f g = (r : Request) (c : Conn W) → Anonymous r → f r c ≡ g r c

  abbrev route : Pattern → Handler W → Route W
  route p f = record { pattern = p; handler = f }

  -- the same patterns, with handlers that agree
  data Alike : List (Route W) → List (Route W) → Type 0 where
    no_routes : Alike [] []
    routes :
        (p : Pattern) (f g : Handler W) (rs ss : List (Route W))
        → Agree f g
        → Alike rs ss
        → Alike (route p f ∷ rs) (route p g ∷ ss)

  data AlikeFound : Found W → Found W → Type 0 where
    neither : AlikeFound none none
    both :
        (p : Pattern) (f g : Handler W) (id : String)
        → Agree f g
        → AlikeFound (some (route p f, id)) (some (route p g, id))

  prefer-Alike :
      (p : Pattern) (f g : Handler W) (o : Option String) (a b : Found W)
      → Agree f g
      → AlikeFound a b
      → AlikeFound (prefer (route p f) o a) (prefer (route p g) o b)
  unfolding prefer
  prefer-Alike p f g none a b h k = k
  prefer-Alike p f g (some id) _ _ h neither = both p f g id h
  prefer-Alike p f g (some id) _ _ h (both q u v old k) =
      elim (Bool-cases (narrower p.segments q.segments)) [
        | inl new ↦ rw new (both p f g id h)
        | inr wide ↦ rw wide (both q u v old k)
      ]

  if-AlikeFound :
      (b : Bool) (f g f' g' : Found W)
      → AlikeFound f g
      → AlikeFound f' g'
      → AlikeFound (if b then f else f') (if b then g else g')
  if-AlikeFound true f g f' g' h k = h
  if-AlikeFound false f g f' g' h k = k

  with_method-Alike :
      (m : Option String) (path : List String) (rs ss : List (Route W))
      → Alike rs ss
      → AlikeFound (with_method m path rs) (with_method m path ss)
  unfolding with_method
  with_method-Alike m path _ _ no_routes = neither
  with_method-Alike m path _ _ (routes p f g rs ss h k) =
      let rest = with_method-Alike m path rs ss k in
      if-AlikeFound (same_method p.method m) _ _ _ _ (prefer-Alike p f g _ _ _ h rest) rest

  or_else-Alike :
      (a b a' b' : Found W)
      → AlikeFound a b
      → AlikeFound a' b'
      → AlikeFound (or_else a a') (or_else b b')
  or_else-Alike _ _ a' b' neither k = k
  or_else-Alike _ _ a' b' (both p f g id h) k = both p f g id h

  module _ (rs ss : List (Route W)) (alike : Alike rs ss) where
    find_route-Alike :
        (m : String) (path : List String) → AlikeFound (find_route m path rs) (find_route m path ss)
    unfolding find_route
    find_route-Alike m path = or_else-Alike _ _ _ _ (with_method-Alike (some m) path rs ss alike) (
        or_else-Alike _ _ _ _
          (if-AlikeFound (m == "HEAD") _ _ _ _ (with_method-Alike (some "GET") path rs ss alike)
            neither)
          (with_method-Alike none path rs ss alike))

  exact_match-Alike :
      (path : List String) (a b : Found W)
      → AlikeFound a b
      → exact_match path a ≡ exact_match path b
  unfolding exact_match
  exact_match-Alike path _ _ neither = refl
  exact_match-Alike path _ _ (both p f g id h) = refl

  path_known-Alike :
      (path : List String) (rs ss : List (Route W))
      → Alike rs ss
      → path_known path rs ≡ path_known path ss
  unfolding path_known
  path_known-Alike path _ _ no_routes = refl
  path_known-Alike path _ _ (routes p f g rs ss h k) =
      ap (known_or (match_segments p.segments p.subtree path)) (path_known-Alike path rs ss k)

  dispatch-Alike :
      (known : Bool) (a b : Found W) → AlikeFound a b → Agree (dispatch known a) (dispatch known b)
  unfolding dispatch
  dispatch-Alike true _ _ neither r c n = refl
  dispatch-Alike false _ _ neither r c n = refl
  dispatch-Alike known _ _ (both p f g id h) r c n = h _ c n

  serve_mux-Agree :
      (clean : String → String) (rs ss : List (Route W))
      → Alike rs ss
      → Agree (serve_mux clean rs) (serve_mux clean ss)
  unfolding serve_mux
  serve_mux-Agree clean rs ss k r c n =
      let path = path_segments (clean r.path) in
      let slashed = path ++ "" ∷ [] in
      let found = find_route-Alike rs ss k r.method path in
      rw
        (
          exact_match-Alike path _ _ found,
          exact_match-Alike slashed _ _ (find_route-Alike rs ss k r.method slashed),
          path_known-Alike path rs ss k,
          path_known-Alike slashed rs ss k,
          dispatch-Alike (path_known path ss || not (ends_in_slash path) && path_known slashed ss) _
              _ found r c n,
        )
        refl

  cut-Agree :
      (f g : Handler W) (o : Option String) (r : Request) (c : Conn W)
      → Agree f g
      → Anonymous r
      → cut f r c o ≡ cut g r c o
  unfolding cut
  cut-Agree f g none r c h n = refl
  cut-Agree f g (some path) r c h n = h _ c n

  strip_prefix-Agree :
      (prefix : String) (f g : Handler W)
      → Agree f g
      → Agree (strip_prefix prefix f) (strip_prefix prefix g)
  unfolding strip_prefix
  strip_prefix-Agree prefix f g h r c n = cut-Agree f g (cut_prefix prefix r.path) r c h n

  -- Handlers behind Auth agree, whatever they are.
  auth-Agree : (f g : Handler W) → Agree (auth f) (auth g)
  auth-Agree f g r c n = auth_of_anonymous f g r c n

  Agree-refl : (f : Handler W) → Agree f f
  Agree-refl f r c n = refl

  router_stack-Agree :
      (new_uuid : W → String × W) (f g : Handler W)
      → Agree f g
      → Agree (router_stack new_uuid f) (router_stack new_uuid g)
  router_stack-Agree new_uuid f g h r c n =
      router_stack_of_inner new_uuid f g r c (λ x d. h (record r { ctx = x }) d n)

  module _ (new_uuid : W → String × W) (clean : String → String) (health : HealthHandler W) where
    register-Agree :
        (v1 v1' : List (Route W))
        → Alike v1 v1'
        → Agree (register clean new_uuid v1 health) (register clean new_uuid v1' health)
    unfolding register
    register-Agree v1 v1' k = router_stack-Agree new_uuid _ _ (
        serve_mux-Agree clean _ _ (
          routes _ _ _ _ _ (strip_prefix-Agree "/v1" _ _ (serve_mux-Agree clean v1 v1' k)) (
            routes _ _ _ _ _ (Agree-refl health.live)
              (routes _ _ _ _ _ (Agree-refl health.ready) no_routes))))

    -- A request whose X-User-ID is missing or is not a positive number reaches no handler of the
    -- user service's users: its answer, its log and its effects are the same whatever they do.
    pub register_user-guards :
        (h h' : UserHandler W) (r : Request) (c : Conn W)
        → ((id : ℤ) → ¬ Identifies (get_header r "X-User-ID") id)
        → register_user clean new_uuid h health r c ≡ register_user clean new_uuid h' health r c
    unfolding register_user register_user_routes
    register_user-guards h h' r c n =
        register-Agree _ _ (routes _ _ _ _ _ (auth-Agree _ _) no_routes) r c n

    -- The same of the notification service's notifications.
    register_notification-guards :
        (h h' : NotificationHandler W) (r : Request) (c : Conn W)
        → ((id : ℤ) → ¬ Identifies (get_header r "X-User-ID") id)
        → register_notification clean new_uuid h health r c
          ≡ register_notification clean new_uuid h' health r c
    unfolding register_notification register_notification_routes
    register_notification-guards h h' r c n =
        register-Agree _ _ (routes _ _ _ _ _ (auth-Agree _ _) no_routes) r c n
