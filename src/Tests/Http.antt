-- ===== src/Tests/Http.antt =====
-- pkg/apperror, pkg/response, pkg/middleware and strconv at concrete requests.
use go_microservice.Prelude.{
  ℕ, String, ◌≡◌, ◌≢◌, refl, List, [], ◌∷◌, ◌++◌, some, none, arith, ◌+◌, ◌⊎◌,
}
use go_microservice.Prelude.Int.{ℤ, pos, negsuc}
use go_microservice.Prelude.Strconv.{atoi, itoa, atoi-itoa}
use go_microservice.Apperror.{
  Error, AppError, Kind, app, foreign, plain, record_not_found, not_found, internal, from,
  unauthorized,
}
use go_microservice.Apperror.Chain.{wraps, from-wraps}
use go_microservice.Http.{
  Request, Conn, Handler, returned, panicked, LogLine, request_completed, with_request_id, fresh,
  write_header, get_header, Head,
}
use go_microservice.Response.{error}
use go_microservice.Middleware.{auth, logger, panic_recovery, router_stack, take_id, push_recorder}
use go_microservice.Middleware.Guards.{Identifies, as_user, auth_cases}
use go_microservice.Middleware.Stack.{request_logger, logger_after_panic, router_stack-returns}

atoi-itoa_example : atoi (itoa (negsuc 41)) ≡ (negsuc 41, none)
atoi-itoa_example = atoi-itoa (negsuc 41) (omega arith)

from-wraps_example :
    ((a : AppError) → from (wraps ("reading" ∷ []) (app a)) ≡ a)
    × ((t : String)
        → from (wraps ("reading" ∷ []) (foreign record_not_found t))
          ≡ not_found "resource not found")
    × ((k : Kind) (t : String)
        → k ≢ record_not_found
        → from (wraps ("reading" ∷ []) (foreign k t))
          ≡ internal (wraps ("reading" ∷ []) (foreign k t)))
from-wraps_example = from-wraps ("reading" ∷ [])

abbrev pub request : Request
request = record {
  method = "GET";
  path = "/users/7";
  header = ("X-User-ID", "7") ∷ [];
  cookies = [];
  query = [];
  path_id = "7";
  remote_addr = "10.0.0.1:4000";
  body = "";
  ctx = record { request_id = none; user_id = none; logger = none };
}

-- The world is the number of identifiers drawn.
abbrev conn : Conn ℕ
conn = record { world = 0; writer = fresh; log = [] }

abbrev dial : Error
dial = foreign plain "dial tcp: no such host"

abbrev syntax : Error
syntax = foreign plain "syntax error at or near"

-- a handler that sends 201, and one that panics after it did
abbrev created : Handler ℕ
created r c = (returned, write_header 201 c)

abbrev panics : Handler ℕ
panics r c = (panicked "index out of range", write_header 201 c)

auth_cases_example :
    ((id : ℤ) × Identifies (get_header request "X-User-ID") id
      × (auth created request conn ≡ created (as_user request id) conn))
    ⊎ (((id : ℤ) → ¬ Identifies (get_header request "X-User-ID") id)
        × (msg : String) × (auth created request conn
            ≡ (returned, error request (app (unauthorized msg)) conn)))
auth_cases_example = auth_cases created request conn

seven : "7" ≡ itoa (pos 7)
unfolding itoa
seven = refl

abbrev sent_head : Head
sent_head = record { status = 201; header = fresh.header }

logger_after_panic_example :
    ((logger (panic_recovery panics) request conn).1.writer.sent ≡ some sent_head)
    × ((before : List LogLine) × ((logger (panic_recovery panics) request conn).1.log
          ≡ before
            ++ request_completed (request_logger panics request conn) "GET" "/users/7" 500 ∷ []))
unfolding write_header
logger_after_panic_example =
    logger_after_panic panics request conn "index out of range"
      (write_header 201 (push_recorder conn)) sent_head 201 [] refl refl refl

abbrev new_uuid : ℕ → String × ℕ
new_uuid n = (itoa (pos n), n + 1)

router_stack-returns_example :
    ((router_stack new_uuid panics request conn).0 ≡ returned)
    × ((before : List LogLine) × (status : ℕ) × ((router_stack new_uuid panics request conn).1.log
          ≡ before
            ++ request_completed (with_request_id (take_id new_uuid "" 0).0) "GET" "/users/7" status
              ∷ []))
router_stack-returns_example = router_stack-returns new_uuid panics request conn
