-- ===== src/Apperror.antt =====
-- pkg/apperror/apperror.go, and the `error` values that pass through the services.
-- An error of another package is a `foreign` value: the kind that errors.As and errors.Is can see,
-- and its text.
pub mod Chain
use go_microservice.Prelude.{
  ℕ, String, Bool, true, false, List, [], ◌∷◌, Option, none, some, if◌then◌else◌,
}
use go_microservice.Prelude.Text.{◌⧺◌}

pub data Code : Type 0 where
  code_not_found code_invalid_input code_conflict code_unauthorized code_forbidden : Code
  code_too_many_requests code_internal : Code

-- the JSON value of a code
abbrev pub code_text : Code → String
code_text code_not_found = "NOT_FOUND"
code_text code_invalid_input = "INVALID_INPUT"
code_text code_conflict = "CONFLICT"
code_text code_unauthorized = "UNAUTHORIZED"
code_text code_forbidden = "FORBIDDEN"
code_text code_too_many_requests = "TOO_MANY_REQUESTS"
code_text code_internal = "INTERNAL"

pub record FieldError : Type 0 where
  pub field : String
  pub message : String

-- codes.Code of google.golang.org/grpc
pub data GrpcCode : Type 0 where
  grpc_ok grpc_canceled grpc_unknown grpc_invalid_argument grpc_deadline_exceeded : GrpcCode
  grpc_not_found grpc_already_exists grpc_permission_denied grpc_resource_exhausted : GrpcCode
  grpc_failed_precondition grpc_aborted grpc_out_of_range grpc_unimplemented : GrpcCode
  grpc_internal grpc_unavailable grpc_data_loss grpc_unauthenticated : GrpcCode

-- validator.FieldError: the field's JSON name, the tag that failed and its parameter
pub record Violation : Type 0 where
  pub field : String
  pub tag : String
  pub param : String

pub data Kind : Type 0 where
  record_not_found redis_nil max_bytes eof plain : Kind
  pg_error : (sqlstate : String) → Kind
  grpc_status : GrpcCode → (text : String) → Kind
  invalid_fields : List Violation → Kind

-- `wrap s e` is fmt.Errorf(s + ": %w", e).
mutual
  pub data AppError : Type 0 where
    app_error : Code → String → List FieldError → Cause → AppError

  pub data Cause : Type 0 where
    nil : Cause
    because : Error → Cause

  pub data Error : Type 0 where
    app : AppError → Error
    wrap : String → Error → Error
    foreign : Kind → String → Error

abbrev pub app_code : AppError → Code
app_code (app_error c m fs e) = c

abbrev pub app_message : AppError → String
app_message (app_error c m fs e) = m

abbrev pub app_fields : AppError → List FieldError
app_fields (app_error c m fs e) = fs

abbrev pub app_err : AppError → Cause
app_err (app_error c m fs e) = e

-- Error() of each error value
unfoldable mutual
  pub error_text : Error → String
  error_text (app a) = app_text a
  error_text (wrap s e) = s ⧺ ": " ⧺ error_text e
  error_text (foreign k t) = t

  pub app_text : AppError → String
  app_text (app_error c m fs e) = m ⧺ cause_text e

  pub cause_text : Cause → String
  cause_text nil = ""
  cause_text (because e) = ": " ⧺ error_text e

unfoldable pub http_status : AppError → ℕ
http_status (app_error code_not_found m fs e) = 404
http_status (app_error code_invalid_input m fs e) = 400
http_status (app_error code_conflict m fs e) = 409
http_status (app_error code_unauthorized m fs e) = 401
http_status (app_error code_forbidden m fs e) = 403
http_status (app_error code_too_many_requests m fs e) = 429
http_status (app_error _ m fs e) = 500

abbrev pub not_found : String → AppError
not_found msg = app_error code_not_found msg [] nil

abbrev pub invalid_input : String → AppError
invalid_input msg = app_error code_invalid_input msg [] nil

abbrev pub conflict : String → AppError
conflict msg = app_error code_conflict msg [] nil

abbrev pub unauthorized : String → AppError
unauthorized msg = app_error code_unauthorized msg [] nil

abbrev pub forbidden : String → AppError
forbidden msg = app_error code_forbidden msg [] nil

abbrev pub internal : Error → AppError
internal e = app_error code_internal "internal server error" [] (because e)

abbrev pub validation : String → List FieldError → AppError
validation msg fields = app_error code_invalid_input msg fields nil

-- errors.As for *AppError: the first one along Unwrap
unfoldable pub as_app : Error → Option AppError
as_app (app a) = some a
as_app (wrap s e) = as_app e
as_app (foreign k t) = none

-- errors.As and errors.Is for the other kinds: the first value along Unwrap that `pick` accepts
module _ {A : Type 0} (pick : Kind → Option A) where
  unfoldable mutual
    pub find_kind : Error → Option A
    find_kind (app a) = find_app a
    find_kind (wrap s e) = find_kind e
    find_kind (foreign k t) = pick k

    pub find_app : AppError → Option A
    find_app (app_error c m fs e) = find_cause e

    pub find_cause : Cause → Option A
    find_cause nil = none
    find_cause (because e) = find_kind e

abbrev pub pick_not_found : Kind → Option (Unit {0})
pick_not_found record_not_found = some tt
pick_not_found _ = none

abbrev pub pick_pg : Kind → Option String
pick_pg (pg_error s) = some s
pick_pg _ = none

abbrev pub is_some {ℓ} : {A : Type ℓ} → Option A → Bool
is_some none = false
is_some (some a) = true

-- errors.Is(err, gorm.ErrRecordNotFound)
abbrev pub is_record_not_found : Error → Bool
is_record_not_found e = is_some (find_kind pick_not_found e)

from_untyped : Error → Option AppError → AppError
from_untyped e (some a) = a
from_untyped e none = if is_record_not_found e then not_found "resource not found" else internal e

-- From, for an error that is not nil
unfoldable pub from : Error → AppError
unfolding from_untyped
from e = from_untyped e (as_app e)
