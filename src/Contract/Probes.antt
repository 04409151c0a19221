-- ===== src/Contract/Probes.antt =====
-- services/*/internal/health: what the probes answer.
use go_microservice.Prelude.{String, none}
use go_microservice.Effect.{Result, ok, err, Prog}
use go_microservice.Http.{Conn}
use go_microservice.Serving.{func}
use go_microservice.Health.{handle_live, handle_ready, handle_ready_redis, pinged, unreachable}
use go_microservice.Contract.{Shape}
use go_microservice.Contract.Envelope.{Blank, Answered, success-Answered, json_response-Answered}
use go_microservice.Contract.Routed.{Answers, func-Answers}

module _ {W : Type 0} (s : Shape) where
  pub handle_live-Answers : Answers {W = W} s (func handle_live)
  unfolding handle_live
  handle_live-Answers = func-Answers s _ (λ r c b. success-Answered s 200 "alive" none c tt b)

  pinged-Answered :
      (message : String) (c : Conn W) (p : Result (Unit {0}) × W)
      → Blank c
      → Answered s (pinged message c p)
  unfolding pinged
  pinged-Answered message c (ok u, w) b =
      success-Answered s 200 "ready" none (record c { world = w }) tt b
  pinged-Answered message c (err e, w) b =
      json_response-Answered s 503 (unreachable message) (record c { world = w }) tt tt b

  pub handle_ready-Answers :
      (message : String) (ping : Prog W (Unit {0})) → Answers s (func (handle_ready message ping))
  unfolding handle_ready
  handle_ready-Answers message ping =
      func-Answers s _ (λ r c b. pinged-Answered message c (ping c.world) b)

  pub handle_ready_redis-Answers :
      (ping : Prog W (Unit {0})) → Answers s (func (handle_ready_redis ping))
  unfolding handle_ready_redis
  handle_ready_redis-Answers ping = handle_ready-Answers "redis unreachable" ping
