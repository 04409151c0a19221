-- ===== src/Contract/Sessions.antt =====
-- services/auth: the answers of its HTTP handlers, as Build assembles them, behind its router.
use go_microservice.Prelude.{String, Bool, refl, Option, none, some, lookup}
use go_microservice.Prelude.Int.{negsuc}
use go_microservice.Apperror.{Error, app, unauthorized}
use go_microservice.Effect.{Result}
use go_microservice.Http.{Request, Conn, set_cookie}
use go_microservice.Contract.{Shape, either, user, object, required, no_member, text, integer}
use go_microservice.Contract.Envelope.{
  Blank, Answered, success-Answered, no_content-Answered, error-Answered,
}
use go_microservice.Contract.Routed.{answer-Answered, with_valid-Answered, Answers, func-Answers}
use go_microservice.Contract.Probes.{handle_live-Answers, handle_ready_redis-Answers}
use go_microservice.Middleware.Answered.{Served}
use go_microservice.Routers.{register_auth}
use go_microservice.Routers.Answered.{register_auth-Served}
use go_microservice.Request.{decode_json}
use go_microservice.Serving.{func, answer}
use go_microservice.Response.{success}
use go_microservice.Auth.{Service, RegisterDto, LoginDto, TokenPair, User, register, login, refresh}
use go_microservice.Auth.Handlers.{
  user_json, pair_json, hand_out, set_refresh_cookie, refresh_with, logout_with, handle_register,
  handle_login, handle_refresh, handle_logout,
}
use go_microservice.Config.Services.{AuthConfig}
use go_microservice.Process.{Runtime}
use go_microservice.Process.Auth.{Platform, build}

-- AccessToken: the refresh token is no member
abbrev pub access_token : Shape
access_token = object (required "access_token" text (required "expires_in" integer no_member))

abbrev pub auth_payload : Shape
auth_payload = either user access_token

module _ {W : Type 0} (s : Service W) (secure : Bool) where
  hand_out-Answered :
      (message : String) (pair : TokenPair) (c : Conn W)
      → Blank c
      → Answered auth_payload (hand_out s secure message pair c)
  unfolding hand_out set_refresh_cookie set_cookie
  hand_out-Answered message pair c b =
      success-Answered auth_payload 200 message (some (pair_json pair))
        (set_refresh_cookie s secure pair.refresh_token pair.refresh_expires_in c) refl b

  handle_register-Answers :
      (decode : String → Result (RegisterDto × String)) (decode_empty : String → Option Error)
      (check : RegisterDto → Option Error)
      → Answers auth_payload (func (handle_register s secure decode decode_empty check))
  unfolding handle_register
  handle_register-Answers decode decode_empty check = func-Answers auth_payload _ (λ r c b.
      let show : User → Conn W → Conn W =
        λ u. success 201 "User registered successfully" (some (user_json u)) in
      with_valid-Answered auth_payload r (λ req d. answer r show d (register s req d.world))
        (λ req d k.
          answer-Answered auth_payload r show
            (λ u e j.
              success-Answered auth_payload 201 "User registered successfully" (some (user_json u))
                e refl j)
            d (register s req d.world) k)
        check c (decode_json decode decode_empty r.body) b)

  handle_login-Answers :
      (decode : String → Result (LoginDto × String)) (decode_empty : String → Option Error)
      (check : LoginDto → Option Error)
      → Answers auth_payload (func (handle_login s secure decode decode_empty check))
  unfolding handle_login
  handle_login-Answers decode decode_empty check = func-Answers auth_payload _ (λ r c b.
      let show = hand_out s secure "Login successful" in
      with_valid-Answered auth_payload r (λ req d. answer r show d (login s req d.world))
        (λ req d k.
          answer-Answered auth_payload r show (hand_out-Answered "Login successful") d
            (login s req d.world) k)
        check c (decode_json decode decode_empty r.body) b)

  refresh_with-Answered :
      (r : Request) (c : Conn W) (o : Option String)
      → Blank c
      → Answered auth_payload (refresh_with s secure r c o)
  unfolding refresh_with
  refresh_with-Answered r c none b =
      error-Answered auth_payload r (app (unauthorized "missing refresh token")) c b
  refresh_with-Answered r c (some tok) b =
      answer-Answered auth_payload r (hand_out s secure "Token refreshed")
        (hand_out-Answered "Token refreshed") c (refresh s tok c.world) b

  handle_refresh-Answers : Answers auth_payload (func (handle_refresh s secure))
  unfolding handle_refresh
  handle_refresh-Answers = func-Answers auth_payload _ (λ r c b. refresh_with-Answered r c _ b)

  logout_with-Blank : (c : Conn W) (o : Option String) → Blank c → Blank (logout_with s secure c o)
  unfolding logout_with
  logout_with-Blank c none b = b
  logout_with-Blank c (some tok) b = b

  handle_logout-Answers : Answers auth_payload (func (handle_logout s secure))
  unfolding handle_logout set_refresh_cookie set_cookie
  handle_logout-Answers = func-Answers auth_payload _ (λ r c b.
      let d = logout_with s secure c (lookup "refresh_token" r.cookies) in
      no_content-Answered auth_payload (set_refresh_cookie s secure "" (negsuc 0) d)
        (logout_with-Blank c (lookup "refresh_token" r.cookies) b))

module _ {W K R C : Type 0} (os : Runtime W) (p : Platform W K R C) where
  -- The auth service answers every request, whatever its handlers meet: with nothing sent before,
  -- its router returns, with one status line and a body that goes with it. The body is one
  -- ApiResponse, whose status_code is that status and whose data is a user without a password or an
  -- access token with its lifetime; or it is net/http's own, the text of a 404 or a 405 or the page
  -- of a 301; or it is empty, with a 204 or with a 301.
  pub register_auth-conforms :
      (cfg : AuthConfig K) (rdb : R) (conn : C) (r : Request) (c : Conn W)
      → Blank c
      → let a = build os p cfg rdb conn in
        Served auth_payload (register_auth p.clean p.new_uuid a.auth_handler a.health_handler r c)
  unfolding build
  register_auth-conforms cfg rdb conn =
      register_auth-Served auth_payload p.clean p.new_uuid _
        (record {
          live = handle_live-Answers auth_payload;
          ready = handle_ready_redis-Answers auth_payload (p.ping rdb);
        })
        _
        (record {
          register = handle_register-Answers _ _ p.decode_register p.decode_empty p.check_register;
          login = handle_login-Answers _ _ p.decode_login p.decode_empty p.check_login;
          refresh = handle_refresh-Answers _ _;
          logout = handle_logout-Answers _ _;
        })
