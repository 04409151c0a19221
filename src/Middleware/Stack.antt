-- ===== src/Middleware/Stack.antt =====
-- services/*/internal/router: RequestID, then Logger, then PanicRecovery round every mux.
use go_microservice.Prelude.{ℕ, String, ◌≡◌, refl, sym, ap, ◌∙◌, map, List, [], ◌∷◌, ◌++◌, some}
use go_microservice.Http.{
  Context, Request, get_header, Handler, Conn, Head, Exit, returned, panicked, LogLine,
  request_completed, panic_recovered, from_context, write_log, with_request_id, with_context,
  LoggerRef,
}
use go_microservice.Apperror.{app, foreign, plain, internal, from, as_app, http_status}
use go_microservice.Prelude.Text.{◌⧺◌}
use go_microservice.Response
use go_microservice.Response.Envelope.{error_of_sent}
use go_microservice.Middleware.{
  request_id, logger, panic_recovery, recovered, logged, router_stack, take_id, first_recorder,
  push_recorder, get_request_id,
}
use go_microservice.Middleware.Chaining.{chain-eq-nest}

module _ {W : Type 0} (next : Handler W) (r : Request) where
  recovered-returns : (p : Exit × Conn W) → (recovered r p).0 ≡ returned
  unfolding recovered
  recovered-returns (returned, c) = refl
  recovered-returns (panicked v, c) = refl

  -- Whatever the handler does, PanicRecovery returns.
  pub panic_recovery-returns : (c : Conn W) → (panic_recovery next r c).0 ≡ returned
  unfolding panic_recovery
  panic_recovery-returns c = recovered-returns (next r c)

  -- Logger over a handler that returns: it returns too, and the last log line is the access line.
  pub logger_of_returned :
      (c : Conn W)
      → ((q : Request) (d : Conn W) → (next q d).0 ≡ returned)
      → ((logger next r c).0 ≡ returned)
        × ((before : List LogLine) × (status : ℕ) × ((logger next r c).1.log
              ≡ before
                ++ request_completed (with_request_id (get_request_id r.ctx)) r.method r.path status
                  ∷ []))
  unfolding logger
  logger_of_returned c h =
      let l = with_request_id (get_request_id r.ctx) in logged_of_returned l _ (h _ _)
    where
      logged_of_returned :
          (l : LoggerRef) (p : Exit × Conn W)
          → p.0 ≡ returned
          → ((logged l r p).0 ≡ returned)
            × ((before : List LogLine) × (status : ℕ) × ((logged l r p).1.log
                  ≡ before ++ request_completed l r.method r.path status ∷ []))
      logged_of_returned l (returned, d) e =
          (refl, (d.log, first_recorder d.writer.recorders, refl))
      logged_of_returned l (panicked v, d) e = cc

-- The access line after a panic behind a response that was already sent.
module _ {W : Type 0} (next : Handler W) (r : Request) (c : Conn W) where
  abbrev pub request_logger : LoggerRef
  request_logger = with_request_id (get_request_id r.ctx)

  logged_of_recorders :
      (l : LoggerRef) (d : Conn W) (s : ℕ) (ss : List ℕ)
      → d.writer.recorders ≡ s ∷ ss
      → ((logged l r (returned, d)).1.writer.sent ≡ d.writer.sent)
        × ((logged l r (returned, d)).1.log ≡ d.log ++ request_completed l r.method r.path s ∷ [])
  unfolding logged
  logged_of_recorders l d s ss e = (refl, rw e)

  -- If a handler has sent a response head and then panics, the client has that head's status, and
  -- the access line says 500.
  pub logger_after_panic :
      (v : String) (d : Conn W) (h : Head) (s : ℕ) (ss : List ℕ)
      → next (record r { ctx = with_context r.ctx request_logger }) (push_recorder c)
        ≡ (panicked v, d)
      → d.writer.sent ≡ some h
      → d.writer.recorders ≡ s ∷ ss
      → ((logger (panic_recovery next) r c).1.writer.sent ≡ some h)
        × ((before : List LogLine) × ((logger (panic_recovery next) r c).1.log
              ≡ before ++ request_completed request_logger r.method r.path 500 ∷ []))
  unfolding logger panic_recovery recovered
  logger_after_panic v d h s ss e sent rec =
      let q = record r { ctx = with_context r.ctx request_logger } in
      let a = internal (foreign plain ("panic: " ⧺ v)) in
      let line = panic_recovered (from_context (some q.ctx)) r.method r.path v in
      let answered = error_of_sent q (app a) (write_log line d) h sent in
      let status : http_status (from (app a)) ≡ 500 = unfold from as_app http_status in refl in
      let out = Response.error q (app a) (write_log line d) in
      let first : out.writer.recorders ≡ 500 ∷ map (λ _. 500) ss =
        answered.1 ∙ rw (status, rec) refl in
      let lines = logged_of_recorders request_logger out 500 (map (λ _. 500) ss) first in
      rw e (lines.0 ∙ answered.0, (out.log, lines.1))

module _ {W : Type 0} (new_uuid : W → String × W) (next : Handler W) where
  pub stack-eq : router_stack new_uuid next ≡ request_id new_uuid (logger (panic_recovery next))
  unfolding router_stack
  stack-eq = chain-eq-nest (request_id new_uuid ∷ logger ∷ panic_recovery ∷ []) next

  -- Whatever the handler does, panics included, the stack of a service returns, and the last line
  -- of the log is the access line of the request, with the id that the client sent in X-Request-ID
  -- or, if it sent none, a new one.
  pub router_stack-returns :
      (r : Request) (c : Conn W)
      → ((router_stack new_uuid next r c).0 ≡ returned)
        × ((before : List LogLine) × (status : ℕ) × ((router_stack new_uuid next r c).1.log
              ≡ before
                ++ request_completed
                    (with_request_id (take_id new_uuid (get_header r "X-Request-ID") c.world).0)
                    r.method
                    r.path
                    status
                  ∷ []))
  router_stack-returns r c = rw stack-eq (
      unfold request_id get_request_id in
      logger_of_returned (panic_recovery next) _ _ (λ q d. panic_recovery-returns next q d))

-- Handlers that do the same to a request whatever its context, under the stack.
module _ {W : Type 0} (new_uuid : W → String × W) (f g : Handler W) (r : Request) (c : Conn W)
    (same : (x : Context) (d : Conn W)
      → f (record r { ctx = x }) d ≡ g (record r { ctx = x }) d) where
  panic_recovery-same :
      (x : Context) (d : Conn W)
      → panic_recovery f (record r { ctx = x }) d ≡ panic_recovery g (record r { ctx = x }) d
  unfolding panic_recovery
  panic_recovery-same x d = ap (recovered (record r { ctx = x })) (same x d)

  logger-same :
      (x : Context) (d : Conn W)
      → logger (panic_recovery f) (record r { ctx = x }) d
        ≡ logger (panic_recovery g) (record r { ctx = x }) d
  unfolding logger
  logger-same x d = ap (logged _ (record r { ctx = x })) (panic_recovery-same _ _)

  request_id-same :
      request_id new_uuid (logger (panic_recovery f)) r c
      ≡ request_id new_uuid (logger (panic_recovery g)) r c
  unfolding request_id
  request_id-same = logger-same _ _

  pub router_stack_of_inner : router_stack new_uuid f r c ≡ router_stack new_uuid g r c
  unfolding router_stack
  router_stack_of_inner =
      ap (λ (k : Handler W). k r c) (chain-eq-nest _ f)
      ∙ request_id-same
      ∙ sym (ap (λ (k : Handler W). k r c) (chain-eq-nest _ g))
