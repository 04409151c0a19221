-- ===== src/Auth/Handlers.antt =====
-- services/auth/internal/auth/http_handler.go
pub mod Cookies
use go_microservice.Prelude.{
  ℕ, String, Bool, true, false, List, [], ◌∷◌, Option, none, some, lookup, ◌==◌, if◌then◌else◌,
}
use go_microservice.Prelude.Int.{ℤ, pos, negsuc}
use go_microservice.Apperror.{Error, AppError, app, unauthorized}
use go_microservice.Effect.{Result, ok, err, Prog}
use go_microservice.Http.{
  Json, obj, str, int, time, no_field, field, Request, Cookie, strict_mode, Conn, set_cookie,
}
use go_microservice.Response
use go_microservice.Response.{success, no_content}
use go_microservice.Request.{decode_json}
use go_microservice.Serving.{answer, with_valid}
use go_microservice.Auth.{
  User, TokenPair, RegisterDto, LoginDto, Service, register, login, refresh, logout,
}

-- the struct tags of User: the password is left out
abbrev pub user_json : User → Json
user_json u = obj (
    field "id" (int u.id) (
      field "name" (str u.name) (
        field "email" (str u.email) (
          field "created_at" (time u.created_at)
            (field "updated_at" (time u.updated_at) no_field)))))

abbrev pub pair_json : TokenPair → Json
pair_json pair = obj (
    field "access_token" (str pair.access_token)
      (field "expires_in" (int pair.access_expires_in) no_field))

abbrev pub refresh_cookie : Bool → String → ℤ → Cookie
refresh_cookie secure value max_age = record {
  name = "refresh_token";
  value = value;
  http_only = true;
  secure = secure;
  same_site = strict_mode;
  path = "/v1/auth";
  max_age = max_age;
}

module _ {W : Type 0} (s : Service W) (cookie_secure : Bool) where
  unfoldable pub set_refresh_cookie : String → ℤ → Conn W → Conn W
  set_refresh_cookie value max_age = set_cookie (refresh_cookie cookie_secure value max_age)

  unfoldable pub hand_out : String → TokenPair → Conn W → Conn W
  unfolding set_refresh_cookie
  hand_out text pair c =
      success 200 text (some (pair_json pair))
        (set_refresh_cookie pair.refresh_token pair.refresh_expires_in c)

  -- `decode`, `decode_empty` and `check` are those of pkg/request and pkg/validation.
  unfoldable pub handle_register :
      (String → Result (RegisterDto × String))
      → (String → Option Error)
      → (RegisterDto → Option Error)
      → Request
      → Conn W
      → Conn W
  unfolding with_valid answer
  handle_register decode decode_empty check r c =
      with_valid r check
        (λ req d.
          answer r (λ u. success 201 "User registered successfully" (some (user_json u))) d
            (register s req d.world))
        c (decode_json decode decode_empty r.body)

  unfoldable pub handle_login :
      (String → Result (LoginDto × String))
      → (String → Option Error)
      → (LoginDto → Option Error)
      → Request
      → Conn W
      → Conn W
  unfolding with_valid answer hand_out
  handle_login decode decode_empty check r c =
      with_valid r check (λ req d. answer r (hand_out "Login successful") d (login s req d.world)) c
        (decode_json decode decode_empty r.body)

  unfoldable pub refresh_with : Request → Conn W → Option String → Conn W
  unfolding answer hand_out
  refresh_with r c none = Response.error r (app (unauthorized "missing refresh token")) c
  refresh_with r c (some value) = answer r (hand_out "Token refreshed") c (refresh s value c.world)

  unfoldable pub handle_refresh : Request → Conn W → Conn W
  unfolding refresh_with
  handle_refresh r c = refresh_with r c (lookup "refresh_token" r.cookies)

  -- the error of Logout is dropped
  unfoldable pub logout_with : Conn W → Option String → Conn W
  logout_with c none = c
  logout_with c (some value) = record c { world = (logout s value c.world).1 }

  unfoldable pub handle_logout : Request → Conn W → Conn W
  unfolding logout_with set_refresh_cookie
  handle_logout r c =
      no_content
        (set_refresh_cookie "" (negsuc 0) (logout_with c (lookup "refresh_token" r.cookies)))
