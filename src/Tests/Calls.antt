-- ===== src/Tests/Calls.antt =====
-- A gRPC call from the auth service that panics in the user service.
use go_microservice.Prelude.{ℕ, suc, String, ◌≡◌, refl, [], some, none, Option}
use go_microservice.Prelude.Int.{pos}
use go_microservice.Apperror.{Error, GrpcCode, foreign, grpc_status, grpc_internal}
use go_microservice.Effect.{ok}
use go_microservice.Http.{background}
use go_microservice.Grpc.{
  RpcContext, panicked, Served, UnaryHandler, Invoker, request_id, client_chain, with_id,
}
use go_microservice.Grpc.Calls.{
  Answers, call_id, server_chain-Answers, sent_with, request_id-client_chain,
}

abbrev caller : RpcContext
caller = record {
  values = record background { request_id = some "r1" };
  incoming = none;
  outgoing = [];
  deadline = none;
}

abbrev callee : RpcContext
callee = record {
  values = background;
  incoming = some ((sent_with (pos 0) (pos 2) "r1" caller).outgoing);
  outgoing = [];
  deadline = none;
}

abbrev draw : ℕ → String × ℕ
draw n = ("minted", suc n)

abbrev panics : UnaryHandler ℕ String String
panics ctx req s = (panicked "boom", s)

abbrev invokes : Invoker ℕ String String
invokes ctx req w = (ok "done", w)

abbrev fresh_call : Served ℕ
fresh_call = record { world = 0; log = [] }

abbrev status_code : Error → GrpcCode
status_code e = grpc_internal

abbrev make_status : GrpcCode → String → Error
make_status c m = foreign (grpc_status c m) m

abbrev accepts : String → Option Error
accepts req = none

request_id-client_chain_example :
    (client_chain (pos 0) (pos 2) invokes caller ≡ invokes (sent_with (pos 0) (pos 2) "r1" caller))
    × (request_id "GetUser" draw panics callee "q" fresh_call
        ≡ panics (with_id callee "r1") "q" fresh_call)
request_id-client_chain_example =
    request_id-client_chain (pos 0) (pos 2) invokes caller "r1" "GetUser" draw panics callee "q"
      fresh_call refl refl refl refl

server_chain-Answers_example :
    Answers "GetUser" panics draw status_code make_status accepts callee "q" fresh_call
      (call_id draw callee 0)
server_chain-Answers_example =
    server_chain-Answers "GetUser" panics draw status_code make_status accepts callee "q" fresh_call
