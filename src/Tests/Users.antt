-- ===== src/Tests/Users.antt =====
-- services/user over a database with one row, and its gRPC boundary.
use go_microservice.Prelude.{
  ℕ, suc, String, ◌≡◌, ◌≢◌, refl, ◌⊎◌, ◌==◌, Option, some, none, if◌then◌else◌,
}
use go_microservice.Prelude.Int.{pos}
use go_microservice.Prelude.Text.{◌⧺◌}
use go_microservice.Apperror.{
  Error, GrpcCode, app, app_code, app_message, foreign, pg_error, grpc_status, record_not_found,
  plain, conflict, from, http_status, code_too_many_requests, grpc_internal,
}
use go_microservice.Effect.{Result, ok, err, Prog}
use go_microservice.Http.{Time, zero_time}
use go_microservice.Auth.{User}
use go_microservice.Users.{Db}
use go_microservice.Users.Creation.{Announced, Refused, create_cases}
use go_microservice.Users.Rpc.{grpc_code, to_grpc_error, from_grpc_error}
use go_microservice.Users.Transport.{from_grpc_error-to_grpc_error}

-- The world is the number of events published.
abbrev ada : User
ada = record {
  id = pos 7;
  name = "Ada";
  email = "ada@x.org";
  password = "#secret";
  created_at = zero_time;
  updated_at = zero_time;
}

abbrev settle : ℕ → Result User × ℕ → Result User × ℕ
settle w (ok u, w') = (ok u, w')
settle w (err e, w') = (err e, w)

abbrev pub db : Db ℕ
db = record {
  count = λ q w. (ok (pos 1), w);
  find = λ q o l w. (err (foreign plain "unused"), w);
  first = λ id w. (ok ada, w);
  first_by_email = λ email w. (err (foreign record_not_found "record not found"), w);
  count_email = λ email w. (ok (pos (if email == "ada@x.org" then 1 else 0)), w);
  insert = λ u w. (err (foreign (pg_error "23505") "duplicate key"), w);
  updates = λ id u w. (ok (u, pos 1), w);
  delete = λ id w. (ok (pos 1), w);
  transaction = λ m w. settle w (m w);
}

abbrev pub publishes : User → Prog ℕ (Unit {0})
publishes u w = (ok tt, suc w)

create_cases_example : Announced db publishes ada 0 ⊎ Refused db publishes ada 0
create_cases_example = create_cases db publishes ada 0

abbrev pub status_error : GrpcCode → String → Error
status_error c m = foreign (grpc_status c m) ("rpc error: " ⧺ m)

abbrev pub from_error : Error → Option (GrpcCode × String)
from_error (foreign (grpc_status c m) t) = some (c, m)
from_error _ = none

from_grpc_error-to_grpc_error_example :
    let crossed =
      from_grpc_error from_error (to_grpc_error status_error (app (conflict "taken"))) in
    (app_code (from (app (conflict "taken"))) ≢ code_too_many_requests
      → http_status (from crossed) ≡ http_status (from (app (conflict "taken"))))
    × (grpc_code (app_code (from (app (conflict "taken")))) ≢ grpc_internal
        → app_message (from crossed) ≡ app_message (from (app (conflict "taken"))))
from_grpc_error-to_grpc_error_example =
    from_grpc_error-to_grpc_error status_error from_error (λ c m. refl) (app (conflict "taken"))

abbrev format : Time → String
format t = "0001-01-01T00:00:00Z"

abbrev parse_time : String → Option Time
parse_time s = some zero_time
