-- ===== src/Grpc.antt =====
-- pkg/grpcmiddleware, and the chains of interceptors in services/user/cmd/api/main.go (server) and
-- services/auth/cmd/api/main.go (client). A context has the values of Http's contexts, the metadata
-- of the call and a deadline; grpc chains interceptors with the first one outermost. The status
-- package, protovalidate, uuid.NewString and the clock are parameters.
pub mod Calls
use go_microservice.Prelude.{
  String, Bool, List, [], ◌∷◌, ◌++◌, Option, none, some, ◌==◌, lookup, if◌then◌else◌,
}
use go_microservice.Prelude.Int.{ℤ, ltb_ℤ, ◌+ℤ◌}
use go_microservice.Apperror.{
  Error, GrpcCode, grpc_ok, grpc_internal, grpc_invalid_argument, error_text,
}
use go_microservice.Effect.{Result, ok, err, Prog}
use go_microservice.Http.{
  Time, Context, background, LoggerRef, with_request_id, with_context, from_context,
}
use go_microservice.Middleware.{with_request, get_request_id}

-- metadata.MD, its keys in lower case
abbrev pub Metadata : Type 0
Metadata = List (String × List String)

pub record RpcContext : Type 0 where
  pub values : Context
  pub incoming : Option Metadata
  pub outgoing : Metadata
  pub deadline : Option ℤ

-- what a handler does: it answers, or it panics
pub data Outcome (B : Type 0) : Type 0 where
  answered : Result B → Outcome B
  panicked : String → Outcome B

pub data RpcLine : Type 0 where
  rpc_completed : LoggerRef → (method : String) → GrpcCode → RpcLine
  rpc_panicked : LoggerRef → (method panic : String) → RpcLine

-- one call being served
pub record Served (W : Type 0) : Type 0 where
  pub world : W
  pub log : List RpcLine

abbrev pub UnaryHandler : Type 0 → Type 0 → Type 0 → Type 0
UnaryHandler W A B = RpcContext → A → Served W → Outcome B × Served W

abbrev pub rpc_log : {W : Type 0} → RpcLine → Served W → Served W
rpc_log l s = record s { log = s.log ++ l ∷ [] }

abbrev first_text : Option (List String) → String
first_text none = ""
first_text (some []) = ""
first_text (some (v ∷ vs)) = v

abbrev metadata_id : Option Metadata → String
metadata_id none = ""
metadata_id (some md) = first_text (lookup "x-request-id" md)

unfoldable pub request_id_from_incoming : RpcContext → String
request_id_from_incoming ctx = metadata_id ctx.incoming

abbrev pub with_id : RpcContext → String → RpcContext
with_id ctx id = record ctx {
  values = with_context (with_request ctx.values id) (with_request_id id);
}

unfoldable pub code_of : {B : Type 0} → (Error → GrpcCode) → Result B → GrpcCode
code_of status_code (ok b) = grpc_ok
code_of status_code (err e) = status_code e

-- A panic passes through Logger unlogged.
unfoldable pub completed :
    {W B : Type 0}
    → String
    → (Error → GrpcCode)
    → LoggerRef
    → Outcome B × Served W
    → Outcome B × Served W
unfolding code_of
completed method status_code l (panicked v, s) = (panicked v, s)
completed method status_code l (answered r, s) =
    (answered r, rpc_log (rpc_completed l method (code_of status_code r)) s)

unfoldable pub recovered :
    {W B : Type 0}
    → String
    → (GrpcCode → String → Error)
    → LoggerRef
    → Outcome B × Served W
    → Outcome B × Served W
recovered method status_error l (answered r, s) = (answered r, s)
recovered method status_error l (panicked v, s) = (
  answered (err (status_error grpc_internal "internal server error")),
  rpc_log (rpc_panicked l method v) s,
)

module _ {W A B : Type 0} (method : String) where
  -- RequestID
  unfoldable pub request_id : (W → String × W) → UnaryHandler W A B → UnaryHandler W A B
  unfolding request_id_from_incoming with_context with_request
  request_id new_uuid next ctx req s =
      let id = request_id_from_incoming ctx in
      if id == ""
      then (let (minted, w) = new_uuid s.world in
          next (with_id ctx minted) req (record s { world = w }))
      else next (with_id ctx id) req s

  -- Logger; `status_code` is status.Code of an error that is not nil
  unfoldable pub logger : (Error → GrpcCode) → UnaryHandler W A B → UnaryHandler W A B
  unfolding completed from_context
  logger status_code next ctx req s =
      completed method status_code (from_context (some ctx.values)) (next ctx req s)

  -- Recovery
  unfoldable pub recovery : (GrpcCode → String → Error) → UnaryHandler W A B → UnaryHandler W A B
  unfolding recovered from_context
  recovery status_error next ctx req s =
      recovered method status_error (from_context (some ctx.values)) (next ctx req s)

  unfoldable pub valid :
      (GrpcCode → String → Error)
      → UnaryHandler W A B
      → RpcContext
      → A
      → Served W
      → Option Error
      → Outcome B × Served W
  valid status_error next ctx req s none = next ctx req s
  valid status_error next ctx req s (some e) =
      (answered (err (status_error grpc_invalid_argument (error_text e))), s)

  -- Validation; `check` is protovalidate.Validate, and every request is a proto.Message
  unfoldable pub validation :
      (GrpcCode → String → Error) → (A → Option Error) → UnaryHandler W A B → UnaryHandler W A B
  unfolding valid
  validation status_error check next ctx req s = valid status_error next ctx req s (check req)

  -- the chain of the user service's server
  unfoldable pub server_chain :
      (W → String × W)
      → (Error → GrpcCode)
      → (GrpcCode → String → Error)
      → (A → Option Error)
      → UnaryHandler W A B
      → UnaryHandler W A B
  unfolding request_id logger recovery validation
  server_chain new_uuid status_code status_error check next =
      request_id new_uuid
        (logger status_code (recovery status_error (validation status_error check next)))

-- the client's side: the call that an interceptor makes
abbrev pub Invoker : Type 0 → Type 0 → Type 0 → Type 0
Invoker W A B = RpcContext → A → Prog W B

-- context.WithTimeout: an earlier deadline stays
abbrev tightened : Option ℤ → ℤ → ℤ
tightened none t = t
tightened (some d) t = if ltb_ℤ d t then d else t

-- metadata.AppendToOutgoingContext
unfoldable pub append_value : String → String → Metadata → Metadata
append_value k v [] = (k, v ∷ []) ∷ []
append_value k v ((j, vs) ∷ md) =
    if j == k then (j, vs ++ v ∷ []) ∷ md else (j, vs) ∷ append_value k v md

module _ {W A B : Type 0} where
  -- Timeout; `now` is the clock, in nanoseconds
  unfoldable pub timeout : (now d : ℤ) → Invoker W A B → Invoker W A B
  timeout now d invoker ctx =
      invoker (record ctx { deadline = some (tightened ctx.deadline (now +ℤ d)) })

  -- PropagateRequestID
  unfoldable pub propagate_request_id : Invoker W A B → Invoker W A B
  unfolding append_value get_request_id
  propagate_request_id invoker ctx =
      let id = get_request_id ctx.values in
      if id == ""
      then invoker ctx
      else invoker (record ctx { outgoing = append_value "x-request-id" id ctx.outgoing })

  -- the chain of the auth service's client
  unfoldable pub client_chain : (now d : ℤ) → Invoker W A B → Invoker W A B
  unfolding timeout propagate_request_id
  client_chain now d invoker = timeout now d (propagate_request_id invoker)
