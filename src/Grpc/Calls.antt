-- ===== src/Grpc/Calls.antt =====
-- What the chains of interceptors do to a call: the request id on its way from the client's context
-- to the server's, and the answer and the log line of the server.
use go_microservice.Prelude.{
  String, false, [], ◌∷◌, Option, none, some, ◌≡◌, refl, ◌∙◌, inl, inr, ◌==◌, if◌then◌else◌, lookup,
  Bool-cases, eq_refl,
}
use go_microservice.Prelude.Int.{ℤ, ◌+ℤ◌}
use go_microservice.Apperror.{Error, GrpcCode, grpc_internal, grpc_invalid_argument, error_text}
use go_microservice.Effect.{Result, err}
use go_microservice.Http.{with_request_id, from_context, with_context}
use go_microservice.Middleware.{with_request, get_request_id}
use go_microservice.Grpc.{
  Metadata, RpcContext, Outcome, answered, panicked, Served, UnaryHandler, Invoker, rpc_log,
  rpc_completed, rpc_panicked, request_id_from_incoming, with_id, request_id, code_of, completed,
  logger, recovered, recovery, valid, validation, server_chain, tightened, timeout, append_value,
  propagate_request_id, client_chain,
}

lookup-append_value :
    (k v : String) (md : Metadata)
    → lookup k md ≡ none
    → lookup k (append_value k v md) ≡ some (v ∷ [])
unfolding append_value
lookup-append_value k v [] h = rw (eq_refl k)
lookup-append_value k v ((j, vs) ∷ md) h = elim (Bool-cases (j == k)) [
  | inl same ↦ (let g = rw same at h in cc)
  | inr other ↦ let h' = rw other at h in rw other (rw other (lookup-append_value k v md h'))
]

-- the identifier that RequestID serves a call under, and the world once it has it
abbrev pub call_id : {W : Type 0} → (W → String × W) → RpcContext → W → String × W
call_id new_uuid ctx w =
    if request_id_from_incoming ctx == "" then new_uuid w else (request_id_from_incoming ctx, w)

module _ {W A B : Type 0} (method : String) (next : UnaryHandler W A B) where
  abbrev serve_as : RpcContext → A → Served W → String × W → Outcome B × Served W
  serve_as ctx req s (id, w) = next (with_id ctx id) req (record s { world = w })

  request_id-call_id :
      (new_uuid : W → String × W) (ctx : RpcContext) (req : A) (s : Served W)
      → request_id method new_uuid next ctx req s
        ≡ serve_as ctx req s (call_id new_uuid ctx s.world)
  unfolding request_id
  request_id-call_id new_uuid ctx req s = elim (Bool-cases (request_id_from_incoming ctx == "")) [
    | inl missing ↦ rw missing
    | inr given ↦ rw given
  ]

module _ {W A B : Type 0} (method : String) (next : UnaryHandler W A B) where
  -- the ways a call ends before it is logged: refused, answered by the handler, or stopped by a panic
  pub data Ended (status_error : GrpcCode → String → Error) (check : A → Option Error) (id : String)
      (ctx : RpcContext) (req : A) (s : Served W) : Result B → Served W → Type 0 where
    refused :
        (e : Error)
        → check req ≡ some e
        → Ended status_error check id ctx req s
            (err (status_error grpc_invalid_argument (error_text e)))
            s
    finished :
        (r : Result B) (t : Served W)
        → check req ≡ none
        → next (with_id ctx id) req s ≡ (answered r, t)
        → Ended status_error check id ctx req s r t
    crashed :
        (v : String) (t : Served W)
        → check req ≡ none
        → next (with_id ctx id) req s ≡ (panicked v, t)
        → Ended status_error check id ctx req s
            (err (status_error grpc_internal "internal server error"))
            (rpc_log (rpc_panicked (with_request_id id) method v) t)

  module _ (new_uuid : W → String × W) (status_code : Error → GrpcCode)
      (status_error : GrpcCode → String → Error) (check : A → Option Error) where
    abbrev pub Answers : RpcContext → A → Served W → String × W → Type 0
    Answers ctx req s (id, w) =
        (r : Result B) × (t : Served W) × (Ended status_error check id ctx req
            (record s { world = w }) r t
          × (server_chain method new_uuid status_code status_error check next ctx req s ≡ (
            answered r,
            rpc_log (rpc_completed (with_request_id id) method (code_of status_code r)) t,
          )))

    served-inner :
        (id : String) (ctx : RpcContext) (req : A) (s : Served W) (v : Option Error)
        (o : Outcome B × Served W)
        → check req ≡ v
        → next (with_id ctx id) req s ≡ o
        → (r : Result B) × (t : Served W) × (Ended status_error check id ctx req s r t
            × (logger method status_code
                  (recovery method status_error (validation method status_error check next))
                  (with_id ctx id)
                  req
                  s
                ≡ (
                  answered r,
                  rpc_log (rpc_completed (with_request_id id) method (code_of status_code r)) t,
                )))
    unfolding logger recovery validation with_context with_request from_context valid recovered
        completed
    served-inner id ctx req s (some e) o h g = (_, _, (refused e h, rw h))
    served-inner id ctx req s none (answered r, t) h g = (_, _, (finished r t h g, rw (h, g)))
    served-inner id ctx req s none (panicked v, t) h g = (_, _, (crashed v t h g, rw (h, g)))

    Answers-served :
        (ctx : RpcContext) (req : A) (s : Served W) (p : String × W)
        → server_chain method new_uuid status_code status_error check next ctx req s
          ≡ serve_as method
              (logger method status_code
                (recovery method status_error (validation method status_error check next)))
              ctx
              req
              s
              p
        → Answers ctx req s p
    Answers-served ctx req s (id, w) h =
        let (r, t, (ended, e)) = served-inner id ctx req (record s { world = w }) _ _ refl refl in
        (r, t, (ended, h ∙ e))

    -- The user service's server answers every call, whatever the handler does, and the last line it
    -- logs says that the call was completed, under the call's request id, with the code of the
    -- answer. The answer is InvalidArgument where the request is not valid, the handler's where it
    -- gives one, and Internal where it panics.
    pub server_chain-Answers :
        (ctx : RpcContext) (req : A) (s : Served W)
        → Answers ctx req s (call_id new_uuid ctx s.world)
    unfolding server_chain
    server_chain-Answers ctx req s = Answers-served ctx req s _ (
        request_id-call_id method
          (logger method status_code
            (recovery method status_error (validation method status_error check next)))
          new_uuid ctx req s)

-- the context that the auth service's client makes a call with
abbrev pub sent_with : (now d : ℤ) → String → RpcContext → RpcContext
sent_with now d id ctx = record ctx {
  outgoing = append_value "x-request-id" id ctx.outgoing;
  deadline = some (tightened ctx.deadline (now +ℤ d));
}

-- A call that the auth service makes while it serves a request with an identifier carries that
-- identifier, if nothing was put under its key before; and the server that receives the call's
-- metadata runs its handler with that identifier, in the context and in its logger, and mints none.
pub request_id-client_chain :
    {W V A B : Type 0} (now d : ℤ) (invoker : Invoker V A B) (ctx : RpcContext) (id method : String)
    (new_uuid : W → String × W) (next : UnaryHandler W A B) (server_ctx : RpcContext) (req : A)
    (s : Served W)
    → ctx.values.request_id ≡ some id
    → (id == "") ≡ false
    → lookup "x-request-id" ctx.outgoing ≡ none
    → server_ctx.incoming ≡ some ((sent_with now d id ctx).outgoing)
    → (client_chain now d invoker ctx ≡ invoker (sent_with now d id ctx))
      × (request_id method new_uuid next server_ctx req s ≡ next (with_id server_ctx id) req s)
unfolding client_chain timeout propagate_request_id get_request_id request_id
    request_id_from_incoming
request_id-client_chain now d invoker ctx id method new_uuid next server_ctx req s known full unset
      arrives =
    let found = lookup-append_value "x-request-id" id ctx.outgoing unset in
    (rw (known, full), rw (arrives, found, full))
