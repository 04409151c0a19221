-- ===== src/Middleware.antt =====
-- pkg/middleware: middleware.go, auth.go, panicrecovery.go, logger.go and requestid.go.
-- A middleware takes the next handler and returns a handler.
pub mod Cors
pub mod RateLimit
pub mod Chaining
pub mod Stack
pub mod Guards
pub mod Answered
use go_microservice.Prelude.{
  ℕ, zero, suc, String, Bool, true, false, List, [], ◌∷◌, Option, none, some, ◌==◌, ◌||◌,
  if◌then◌else◌, length,
}
use go_microservice.Prelude.Int.{ℤ, pos, ltb_ℤ}
use go_microservice.Prelude.Text.{◌⧺◌}
use go_microservice.Prelude.Strconv.{atoi, NumError}
use go_microservice.Apperror.{Error, app, foreign, plain, unauthorized, internal}
use go_microservice.Http.{
  Context, Request, get_header, Handler, Conn, Writer, Exit, returned, panicked, LoggerRef,
  with_request_id, with_context, from_context, set_header, write_log, panic_recovered,
  request_completed,
}
use go_microservice.Response

abbrev pub Middleware : Type 0 → Type 0
Middleware W = Handler W → Handler W

-- requestid.go: WithRequestID and GetRequestID
unfoldable pub with_request : Context → String → Context
with_request ctx id = record ctx { request_id = some id }

unfoldable pub get_request_id : Context → String
get_request_id ctx = elim ctx.request_id [ none ↦ "" | some id ↦ id ]

-- auth.go: GetUserID
unfoldable pub get_user_id : Context → ℤ × Bool
get_user_id ctx = elim ctx.user_id [ none ↦ (pos 0, false) | some id ↦ (id, true) ]

abbrev pub first_recorder : List ℕ → ℕ
first_recorder [] = 200
first_recorder (s ∷ ss) = s

abbrev pub rest_recorders : List ℕ → List ℕ
rest_recorders [] = []
rest_recorders (s ∷ ss) = ss

module _ {W : Type 0} where
  -- middlewares[i]
  apply_at : List (Middleware W) → ℕ → Handler W → Handler W
  apply_at [] i h = h
  apply_at (m ∷ ms) zero h = m h
  apply_at (m ∷ ms) (suc i) h = apply_at ms i h

  -- the loop of Chain, with i + 1 middlewares left to apply, the last one first
  chain_loop : List (Middleware W) → ℕ → Handler W → Handler W
  unfolding apply_at
  chain_loop ms zero final = final
  chain_loop ms (suc i) final = chain_loop ms i (apply_at ms i final)

  pub chain : List (Middleware W) → Middleware W
  unfolding chain_loop
  chain ms final = chain_loop ms (length ms) final

  -- With
  pub with_handler : Handler W → List (Middleware W) → Handler W
  unfolding chain
  with_handler h ms = chain ms h

  abbrev refuse : Request → String → Conn W → Exit × Conn W
  refuse r msg c = (returned, Response.error r (app (unauthorized msg)) c)

  -- `err != nil || userID <= 0`
  auth_id : Handler W → Request → ℤ × Option NumError → Conn W → Exit × Conn W
  auth_id next r (id, some e) c = refuse r "invalid user ID" c
  auth_id next r (id, none) c =
      if ltb_ℤ (pos 0) id
      then next (record r { ctx = record (r.ctx) { user_id = some id } }) c
      else refuse r "invalid user ID" c

  pub auth : Middleware W
  unfolding auth_id
  auth next r c =
      let given = get_header r "X-User-ID" in
      if given == ""
      then refuse r "missing or invalid authorization header" c
      else auth_id next r (atoi given) c

  -- the deferred function: recover, log, answer
  recovered : Request → Exit × Conn W → Exit × Conn W
  recovered r (returned, c) = (returned, c)
  recovered r (panicked v, c) =
      let line = panic_recovered (from_context (some r.ctx)) r.method r.path v in
      let cause = foreign plain ("panic: " ⧺ v) in
      (returned, Response.error r (app (internal cause)) (write_log line c))

  pub panic_recovery : Middleware W
  unfolding recovered
  panic_recovery next r c = recovered r (next r c)

  -- a new statusRecorder round the writer, and the recorders without it
  abbrev pub push_recorder : Conn W → Conn W
  push_recorder c =
      let w = c.writer in record c { writer = record w { recorders = 200 ∷ w.recorders } }

  abbrev pop_recorder : Conn W → Conn W
  pop_recorder c =
      let w = c.writer in record c { writer = record w { recorders = rest_recorders w.recorders } }

  -- A panic passes through: the access line is written only after `next` returns.
  logged : LoggerRef → Request → Exit × Conn W → Exit × Conn W
  logged l r (panicked v, c) = (panicked v, pop_recorder c)
  logged l r (returned, c) =
      let status = first_recorder c.writer.recorders in
      (returned, write_log (request_completed l r.method r.path status) (pop_recorder c))

  pub logger : Middleware W
  unfolding logged get_request_id
  logger next r c =
      let l = with_request_id (get_request_id r.ctx) in
      logged l r (next (record r { ctx = with_context r.ctx l }) (push_recorder c))

  -- uuid.NewString is a parameter: it draws the next identifier from the world.
  module _ (new_uuid : W → String × W) where
    abbrev pub take_id : String → W → String × W
    take_id given w = let minted = new_uuid w in if given == "" then minted else (given, w)

    pub request_id : Middleware W
    unfolding with_request
    request_id next r c =
        let (id, w) = take_id (get_header r "X-Request-ID") c.world in
        let c' = set_header "X-Request-ID" id (record c { world = w }) in
        next (record r { ctx = with_request r.ctx id }) c'

    -- The stack round the mux of every service (services/*/internal/router/router.go).
    unfoldable pub router_stack : Middleware W
    router_stack = chain (request_id ∷ logger ∷ panic_recovery ∷ [])
