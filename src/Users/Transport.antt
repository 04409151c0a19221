-- ===== src/Users/Transport.antt =====
-- services/user and services/auth: values on both sides of the gRPC boundary.
use go_microservice.Prelude.{String, ◌≡◌, ◌≢◌, refl, Option, some, arith}
use go_microservice.Prelude.Int.{ℤ, pos, negsuc}
use go_microservice.Apperror.{
  Error, AppError, GrpcCode, grpc_internal, app_error, app_code, app_message, from, http_status,
  as_app, code_not_found, code_conflict, code_invalid_input, code_unauthorized, code_forbidden,
  code_too_many_requests, code_internal,
}
use go_microservice.Http.{Time}
use go_microservice.Auth.{User}
use go_microservice.Users.Rpc.{
  IsInt32, int32, grpc_code, to_grpc_error, from_grpc_error, to_proto, from_proto,
}

module _ (status_error : GrpcCode → String → Error)
    (from_error : Error → Option (GrpcCode × String))
    (law : (c : GrpcCode) (m : String) → from_error (status_error c m) ≡ some (c, m)) where
  status_kept :
      (a : AppError)
      → app_code a ≢ code_too_many_requests
      → http_status (
          from (from_grpc_error from_error (status_error (grpc_code (app_code a)) (app_message a))))
        ≡ http_status a
  unfolding from_grpc_error from as_app http_status
  status_kept (app_error code_not_found m fs e) h = rw law refl
  status_kept (app_error code_invalid_input m fs e) h = rw law refl
  status_kept (app_error code_conflict m fs e) h = rw law refl
  status_kept (app_error code_unauthorized m fs e) h = rw law refl
  status_kept (app_error code_forbidden m fs e) h = rw law refl
  status_kept (app_error code_too_many_requests m fs e) h = absurd (h refl)
  status_kept (app_error code_internal m fs e) h = rw law refl

  message_kept :
      (a : AppError)
      → grpc_code (app_code a) ≢ grpc_internal
      → app_message (
          from (from_grpc_error from_error (status_error (grpc_code (app_code a)) (app_message a))))
        ≡ app_message a
  unfolding from_grpc_error from as_app
  message_kept (app_error code_not_found m fs e) h = rw law refl
  message_kept (app_error code_invalid_input m fs e) h = rw law refl
  message_kept (app_error code_conflict m fs e) h = rw law refl
  message_kept (app_error code_unauthorized m fs e) h = rw law refl
  message_kept (app_error code_forbidden m fs e) h = rw law refl
  message_kept (app_error code_too_many_requests m fs e) h = absurd (h refl)
  message_kept (app_error code_internal m fs e) h = absurd (h refl)

  -- An error of the user service that crosses gRPC gets the HTTP status from auth that it would
  -- have got at home, unless its code is TOO_MANY_REQUESTS; and if its code has a gRPC code of its
  -- own, it keeps its message.
  pub from_grpc_error-to_grpc_error :
      (e : Error)
      → let crossed = from_grpc_error from_error (to_grpc_error status_error e) in
        (app_code (from e) ≢ code_too_many_requests
          → http_status (from crossed) ≡ http_status (from e))
        × (grpc_code (app_code (from e)) ≢ grpc_internal
            → app_message (from crossed) ≡ app_message (from e))
  unfolding to_grpc_error
  from_grpc_error-to_grpc_error e = (status_kept (from e), message_kept (from e))

int32_of_IsInt32 : (z : ℤ) → IsInt32 z → int32 z ≡ z
int32_of_IsInt32 (pos n) h = ground arith
int32_of_IsInt32 (negsuc n) h = ground arith

-- A user whose id fits int32 and whose times can be read back as they were printed is the same on
-- the other side.
pub from_proto-to_proto :
    (format : Time → String) (parse : String → Option Time) (u : User)
    → IsInt32 u.id
    → parse (format u.created_at) ≡ some u.created_at
    → parse (format u.updated_at) ≡ some u.updated_at
    → from_proto format parse (to_proto format parse u) ≡ u
unfolding from_proto to_proto
from_proto-to_proto format parse u small created updated =
    rw (int32_of_IsInt32 u.id small, created, updated) refl
