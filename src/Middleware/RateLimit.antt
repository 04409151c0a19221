-- ===== src/Middleware/RateLimit.antt =====
-- pkg/middleware/ratelimit.go. Redis, net.SplitHostPort and the text of the window are parameters;
-- the Lua script, which Redis runs as one step, is translated.
pub mod Window
use go_microservice.Prelude.{String, Bool, false, [], Option, none, some, ◌==◌, if◌then◌else◌}
use go_microservice.Prelude.Int.{ℤ, pos, ltb_ℤ}
use go_microservice.Prelude.Text.{◌⧺◌, trim_space, before}
use go_microservice.Apperror.{code_too_many_requests}
use go_microservice.Effect.{Result, ok, err, Prog, pure, ◌>>=◌, ◌>>◌}
use go_microservice.Http.{Request, get_header, Handler, Conn, Exit, returned, set_header}
use go_microservice.Response
use go_microservice.Response.{ApiResponse}

pub record Counters (W : Type 0) : Type 0 where
  pub incr : String → Prog W ℤ
  pub expire : String → String → Prog W (Unit {0})

abbrev pub is_one : ℤ → Bool
is_one n = if ltb_ℤ n (pos 2) then ltb_ℤ (pos 0) n else false

-- incrScript
pub incr_script : {W : Type 0} → Counters W → String → String → Prog W ℤ
incr_script db key window = do
  count ← db.incr key
  if is_one count then (do db.expire key window; pure count) else pure count

abbrev pub too_many_requests : ApiResponse
too_many_requests = record {
  success = false;
  status_code = 0;
  message = "";
  payload = none;
  meta = none;
  error =
      some (record { code = code_too_many_requests; message = "too many requests"; fields = [] });
}

or_remote : String → Option String → String
or_remote addr none = addr
or_remote addr (some host) = host

pub client_ip : (String → Option String) → Request → String
unfolding or_remote
client_ip split_host_port r =
    let real = get_header r "X-Real-IP" in
    let fwd = get_header r "X-Forwarded-For" in
    if real == ""
    then (if fwd == ""
        then or_remote r.remote_addr (split_host_port r.remote_addr)
        else trim_space (before b',' fwd))
    else trim_space real

module _ {W : Type 0} (split_host_port : String → Option String) where
  decide : String → ℤ → Handler W → Request → Result ℤ → Conn W → Exit × Conn W
  decide window requests next r (err e) c = next r c
  decide window requests next r (ok count) c =
      if ltb_ℤ requests count
      then (
        returned,
        Response.json_response 429 too_many_requests (set_header "Retry-After" window c),
      )
      else next r c

  limited : Counters W → String → ℤ → String → Handler W → Handler W
  unfolding client_ip decide incr_script
  limited db namespace requests window next r c =
      let key = "rl:" ⧺ namespace ⧺ ":" ⧺ client_ip split_host_port r in
      let (count, w) = incr_script db key window c.world in
      decide window requests next r count (record c { world = w })

  -- `window` is the text of int64(window.Seconds()).
  unfoldable pub rate_limit : Option (Counters W) → String → ℤ → String → Handler W → Handler W
  unfolding limited
  rate_limit none namespace requests window next = next
  rate_limit (some db) namespace requests window next = limited db namespace requests window next
