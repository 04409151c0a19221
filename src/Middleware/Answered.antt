-- ===== src/Middleware/Answered.antt =====
-- What the middlewares of a service do to handlers that answer, and to handlers that panic before
-- they send anything.
use go_microservice.Prelude.{String, ◌≡◌, refl, none, some, ◌==◌, Option}
use go_microservice.Prelude.Int.{ℤ, pos, ltb_ℤ}
use go_microservice.Prelude.Strconv.{atoi, NumError}
use go_microservice.Http.{
  Request, Conn, Exit, returned, panicked, Handler, LoggerRef, set_header, get_header,
}
use go_microservice.Contract.{Shape}
use go_microservice.Contract.Envelope.{Blank, Answered, error-Answered}
use go_microservice.Contract.Routed.{Outcome, served, crashed, Answers, if-Outcome}
use go_microservice.Middleware.{
  auth, auth_id, router_stack, request_id, logger, panic_recovery, recovered, logged,
}
use go_microservice.Middleware.Stack.{stack-eq}

module _ {W : Type 0} (s : Shape) where
  auth_id-Outcome :
      (h : Handler W) (r : Request) (p : ℤ × Option NumError) (c : Conn W)
      → Answers s h
      → Blank c
      → Outcome s (auth_id h r p c)
  unfolding auth_id
  auth_id-Outcome h r (id, some e) c k b = served _ (error-Answered s r _ c b)
  auth_id-Outcome h r (id, none) c k b =
      if-Outcome s (ltb_ℤ (pos 0) id) _ _ (k _ c b) (served _ (error-Answered s r _ c b))

  pub auth-Answers : (h : Handler W) → Answers s h → Answers s (auth h)
  unfolding auth
  auth-Answers h k r c b =
      let given = get_header r "X-User-ID" in
      if-Outcome s (given == "") _ _ (served _ (error-Answered s r _ c b))
        (auth_id-Outcome h r (atoi given) c k b)

  -- one that returns, answered
  abbrev pub Served : Exit × Conn W → Type 0
  Served p = (p.0 ≡ returned) × Answered s p.1

  recovered-Served : (r : Request) (p : Exit × Conn W) → Outcome s p → Served (recovered r p)
  unfolding recovered
  recovered-Served r _ (served c a) = (refl, a)
  recovered-Served r _ (crashed v c b) = (refl, error-Answered s r _ _ b)

  logged-Served :
      (l : LoggerRef) (r : Request) (p : Exit × Conn W) → Served p → Served (logged l r p)
  unfolding logged
  logged-Served l r (returned, c) (e, a) = (refl, a)
  logged-Served l r (panicked v, c) (e, a) = cc

  panic_recovery-Served :
      (h : Handler W)
      → Answers s h
      → (r : Request) (c : Conn W) → Blank c
      → Served (panic_recovery h r c)
  unfolding panic_recovery
  panic_recovery-Served h k r c b = recovered-Served r (h r c) (k r c b)

  logger-Served :
      (h : Handler W)
      → ((r : Request) (c : Conn W) → Blank c → Served (h r c))
      → (r : Request) (c : Conn W) → Blank c
      → Served (logger h r c)
  unfolding logger
  logger-Served h k r c b = logged-Served _ r _ (k _ _ b)

  request_id-Served :
      (new_uuid : W → String × W) (h : Handler W)
      → ((r : Request) (c : Conn W) → Blank c → Served (h r c))
      → (r : Request) (c : Conn W) → Blank c
      → Served (request_id new_uuid h r c)
  unfolding request_id set_header
  request_id-Served new_uuid h k r c b = k _ _ b

  -- Whatever a handler does to a request, panics included, the stack of a service answers it, if
  -- the handler panics only before it sends anything.
  pub router_stack-Served :
      (new_uuid : W → String × W) (h : Handler W)
      → Answers s h
      → (r : Request) (c : Conn W) → Blank c
      → Served (router_stack new_uuid h r c)
  router_stack-Served new_uuid h k r c b =
      rw (stack-eq new_uuid h)
        (request_id-Served new_uuid _ (logger-Served _ (panic_recovery-Served h k)) r c b)
