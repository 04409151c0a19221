-- ===== src/Routers.antt =====
-- services/*/internal/router: the routes of the three services. The handlers are parameters here,
-- which Process fills with those of the services; `clean` is path.Clean.
pub mod Guarded
pub mod Reached
pub mod Answered
use go_microservice.Prelude.{String, false, true, List, [], ◌∷◌, none, some}
use go_microservice.Apperror.{Error}
use go_microservice.Effect.{Result, Prog}
use go_microservice.Http.{Handler}
use go_microservice.Http.Mux.{Segment, literal, wild, Pattern, Route, serve_mux, strip_prefix}
use go_microservice.Middleware.{Middleware, auth, router_stack}

pub record HealthHandler (W : Type 0) : Type 0 where
  pub live : Handler W
  pub ready : Handler W

pub record UserHandler (W : Type 0) : Type 0 where
  pub get_all : Handler W
  pub get_by_id : Handler W
  pub create : Handler W
  pub update : Handler W
  pub delete : Handler W

pub record NotificationHandler (W : Type 0) : Type 0 where
  pub get_all : Handler W
  pub get_by_id : Handler W

pub record AuthHandler (W : Type 0) : Type 0 where
  pub register : Handler W
  pub login : Handler W
  pub refresh : Handler W
  pub logout : Handler W

module _ {W : Type 0} where
  -- mux.HandleFunc with "METHOD /", "METHOD /name" and "METHOD /{id}", mux.Handle with "/name/"
  abbrev pub at : String → List Segment → Handler W → Route W
  at m ss h = record {
    pattern = record { method = some m; segments = ss; subtree = false };
    handler = h;
  }

  abbrev pub under : String → Handler W → Route W
  under m h = record {
    pattern = record { method = some m; segments = []; subtree = true };
    handler = h;
  }

  abbrev pub below : String → Handler W → Route W
  below name h = record {
    pattern = record { method = none; segments = literal name ∷ []; subtree = true };
    handler = h;
  }

  unfoldable pub user_routes : UserHandler W → List (Route W)
  user_routes h =
      under "GET" h.get_all
      ∷ at "GET" (wild ∷ []) h.get_by_id
      ∷ under "POST" h.create
      ∷ at "PUT" (wild ∷ []) h.update
      ∷ at "DELETE" (wild ∷ []) h.delete
      ∷ []

module _ {W : Type 0} (clean : String → String) where
  -- registerUserRoutes
  unfoldable pub register_user_routes : UserHandler W → Middleware W → List (Route W)
  unfolding user_routes
  register_user_routes h auth =
      below "users" (auth (strip_prefix "/users" (serve_mux clean (user_routes h)))) ∷ []

  -- registerNotificationRoutes
  unfoldable pub register_notification_routes :
      NotificationHandler W → Middleware W → List (Route W)
  register_notification_routes h auth =
      below "notifications" (
        auth (
          strip_prefix "/notifications"
            (serve_mux clean (under "GET" h.get_all ∷ at "GET" (wild ∷ []) h.get_by_id ∷ []))))
      ∷ []

  -- registerAuthRoutes
  unfoldable pub register_auth_routes : AuthHandler W → List (Route W)
  register_auth_routes h =
      below "auth" (
        strip_prefix "/auth" (
          serve_mux clean (
            at "POST" (literal "register" ∷ []) h.register
            ∷ at "POST" (literal "login" ∷ []) h.login
            ∷ at "POST" (literal "refresh" ∷ []) h.refresh
            ∷ at "POST" (literal "logout" ∷ []) h.logout
            ∷ [])))
      ∷ []

  module _ (new_uuid : W → String × W) where
    -- Register, with the routes of the mux `v1`
    unfoldable pub register : List (Route W) → HealthHandler W → Handler W
    register v1 health = router_stack new_uuid (
        serve_mux clean (
          below "v1" (strip_prefix "/v1" (serve_mux clean v1))
          ∷ at "GET" (literal "healthz" ∷ []) health.live
          ∷ at "GET" (literal "readyz" ∷ []) health.ready
          ∷ []))

    unfoldable pub register_user : UserHandler W → HealthHandler W → Handler W
    unfolding register register_user_routes
    register_user h = register (register_user_routes h auth)

    unfoldable pub register_notification : NotificationHandler W → HealthHandler W → Handler W
    unfolding register register_notification_routes
    register_notification h = register (register_notification_routes h auth)

    unfoldable pub register_auth : AuthHandler W → HealthHandler W → Handler W
    unfolding register register_auth_routes
    register_auth h = register (register_auth_routes h)
