-- ===== src/Health.antt =====
-- services/*/internal/health/handler.go: auth pings Redis, user and notification their database,
-- each with a deadline of two seconds. The ping is a parameter.
use go_microservice.Prelude.{String, false, none}
use go_microservice.Effect.{Result, ok, err, Prog}
use go_microservice.Http.{Request, Conn}
use go_microservice.Response.{ApiResponse, success, json_response}

abbrev pub unreachable : String → ApiResponse
unreachable message = record {
  success = false;
  status_code = 0;
  message = message;
  payload = none;
  meta = none;
  error = none;
}

module _ {W : Type 0} where
  unfoldable pub handle_live : Request → Conn W → Conn W
  unfolding success
  handle_live r = success 200 "alive" none

  unfoldable pub pinged : String → Conn W → Result (Unit {0}) × W → Conn W
  unfolding success json_response
  pinged message c (ok _, w) = success 200 "ready" none (record c { world = w })
  pinged message c (err e, w) = json_response 503 (unreachable message) (record c { world = w })

  -- `message` is "database unreachable" in user and notification.
  unfoldable pub handle_ready : String → Prog W (Unit {0}) → Request → Conn W → Conn W
  unfolding pinged
  handle_ready message ping r c = pinged message c (ping c.world)

  -- auth's Ready
  unfoldable pub handle_ready_redis : Prog W (Unit {0}) → Request → Conn W → Conn W
  unfolding handle_ready
  handle_ready_redis = handle_ready "redis unreachable"
