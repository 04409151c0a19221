-- ===== src/Auth/Handlers/Cookies.antt =====
-- What Refresh and Logout answer, and the refresh cookie that goes with it.
use go_microservice.Prelude.{
  ℕ, String, Bool, true, ◌≡◌, refl, List, [], ◌∷◌, ◌++◌, Option, none, some, lookup,
}
use go_microservice.Prelude.Int.{ℤ, negsuc}
use go_microservice.Apperror.{Error, app, unauthorized, from, http_status}
use go_microservice.Effect.{Result, ok, err}
use go_microservice.Http.{
  Request, Conn, Head, Writer, Cookie, strict_mode, set_cookie, write_header,
}
use go_microservice.Response
use go_microservice.Response.{ApiResponse, success, no_content, json_response}
use go_microservice.Response.Envelope.{json_head, json_response_lem, error_lem}
use go_microservice.Serving.{answer}
use go_microservice.Auth.{Service, TokenPair, refresh, logout}
use go_microservice.Auth.Handlers.{
  pair_json, handle_refresh, handle_logout, hand_out, set_refresh_cookie, refresh_with, logout_with,
}

-- One head was sent, with this status and these cookies.
abbrev pub Sent : ℕ → List Cookie → Writer → Type 0
Sent status cookies w =
    (h : Head) × (w.sent ≡ some h) × (h.status ≡ status) × (h.header.cookies ≡ cookies)

abbrev granted : String → TokenPair → ApiResponse
granted text pair = record {
  success = true;
  status_code = 0;
  message = text;
  payload = some (pair_json pair);
  meta = none;
  error = none;
}

-- A cookie that no script reads, that other sites' requests do not carry, and that the browser
-- sends to the auth routes alone.
abbrev pub locked_cookie : Bool → String → ℤ → Cookie
locked_cookie secure value max_age = record {
  name = "refresh_token";
  value = value;
  http_only = true;
  secure = secure;
  same_site = strict_mode;
  path = "/v1/auth";
  max_age = max_age;
}

-- The refresh that a request asks for, by its refresh cookie.
abbrev pub exchange : {W : Type 0} → Service W → Option String → W → Result TokenPair
exchange s none w = err (app (unauthorized "missing refresh token"))
exchange s (some value) w = (refresh s value w).0

-- The answer to a refresh with this result, where the cookies `before` were set already.
abbrev pub Answers : Bool → List Cookie → Result TokenPair → Writer → Type 0
Answers secure before (ok pair) =
    Sent 200 (before ++ locked_cookie secure pair.refresh_token pair.refresh_expires_in ∷ [])
Answers secure before (err e) = Sent (http_status (from e)) before

module _ {W : Type 0} (s : Service W) (secure : Bool) where
  hand_out_lem :
      (text : String) (pair : TokenPair) (c : Conn W)
      → c.writer.sent ≡ none
      → Sent 200
          (c.writer.header.cookies
            ++ locked_cookie secure pair.refresh_token pair.refresh_expires_in ∷ [])
          (hand_out s secure text pair c).writer
  unfolding hand_out success set_cookie set_refresh_cookie
  hand_out_lem text pair c h =
      let c' = set_cookie (locked_cookie secure pair.refresh_token pair.refresh_expires_in) c in
      (json_head 200 c', (json_response_lem 200 (granted text pair) c' h).0, refl, refl)

  error_sent :
      (r : Request) (e : Error) (c : Conn W)
      → c.writer.sent ≡ none
      → Sent (http_status (from e)) c.writer.header.cookies (Response.error r e c).writer
  error_sent r e c h = (json_head (http_status (from e)) c, (error_lem r e c h).0, refl, refl)

  answered_lem :
      (r : Request) (c : Conn W) (out : Result TokenPair × W)
      → c.writer.sent ≡ none
      → Answers secure c.writer.header.cookies out.0
          (answer r (hand_out s secure "Token refreshed") c out).writer
  unfolding answer
  answered_lem r c (ok pair, w) h = hand_out_lem "Token refreshed" pair (record c { world = w }) h
  answered_lem r c (err e, w) h = error_sent r e (record c { world = w }) h

  -- A refresh request before anything was sent, answered by what the service does with the request's
  -- refresh cookie, or by the error that it is missing: if a pair is handed out, the answer is 200
  -- and the response's cookies gain one named refresh_token, with the new refresh token and its
  -- lifetime, HttpOnly, SameSite strict, for the path /v1/auth and Secure as configured; if not, the
  -- answer has the error's status and the response's cookies are as they were.
  pub handle_refresh_lem :
      (r : Request) (c : Conn W)
      → c.writer.sent ≡ none
      → Answers secure c.writer.header.cookies
          (exchange s (lookup "refresh_token" r.cookies) c.world)
          (handle_refresh s secure r c).writer
  unfolding handle_refresh
  handle_refresh_lem r c h = go (lookup "refresh_token" r.cookies)
    where
      go :
          (found : Option String)
          → Answers secure c.writer.header.cookies
              (exchange s found c.world)
              (refresh_with s secure r c found).writer
      go none = unfold refresh_with in error_sent r (app (unauthorized "missing refresh token")) c h
      go (some value) = unfold refresh_with in answered_lem r c (refresh s value c.world) h

  -- Before anything was sent, Logout answers 204 and clears the refresh cookie, whatever the service says; the service is
  -- asked to log out the cookie's token, if there is one.
  handle_logout_lem :
      (r : Request) (c : Conn W)
      → c.writer.sent ≡ none
      → Sent 204
          (c.writer.header.cookies ++ locked_cookie secure "" (negsuc 0) ∷ [])
          (handle_logout s secure r c).writer
        × ((value : String)
            → lookup "refresh_token" r.cookies ≡ some value
            → (handle_logout s secure r c).world ≡ (logout s value c.world).1)
  unfolding handle_logout set_refresh_cookie set_cookie no_content write_header logout_with
  handle_logout_lem r c h = (go (lookup "refresh_token" r.cookies), λ value given. rw given refl)
    where
      go :
          (found : Option String)
          → Sent 204
              (c.writer.header.cookies ++ locked_cookie secure "" (negsuc 0) ∷ [])
              (no_content
                (set_refresh_cookie s secure "" (negsuc 0) (logout_with s secure c found))).writer
      go none = rw h (_, refl, refl, refl)
      go (some value) = rw h (_, refl, refl, refl)
