-- ===== src/Users/Rpc.antt =====
-- The gRPC boundary between auth and user: services/user/internal/user/grpc_server.go and
-- services/auth/internal/clients/user/client.go. The status package, the RFC 3339 functions of
-- package time and the generated stub are parameters.
use go_microservice.Prelude.{
  ℕ, ◌-◌, ◌%◌, ◌^◌, ◌<◌, String, Bool, Option, none, some, ltb, if◌then◌else◌,
}
use go_microservice.Prelude.Int.{ℤ, pos, negsuc}
use go_microservice.Apperror.{
  Error, Code, GrpcCode, app, app_code, app_message, from, not_found, invalid_input, conflict,
  unauthorized, forbidden, internal, code_not_found, code_conflict, code_invalid_input,
  code_unauthorized, code_forbidden, grpc_not_found, grpc_already_exists, grpc_invalid_argument,
  grpc_unauthenticated, grpc_permission_denied, grpc_internal,
}
use go_microservice.Effect.{Prog, pure, fail, rescue, ◌>>=◌}
use go_microservice.Http.{Time, zero_time}
use go_microservice.Auth.{User, UserLookup}
use go_microservice.Users.{Db, exists_by_email, get_by_email, create_with_password}

-- UserResponse of pkg/proto/user
pub record UserResponse : Type 0 where
  pub id : ℤ
  pub name : String
  pub email : String
  pub password : String
  pub created_at : String
  pub updated_at : String

-- The methods of UserServiceServer and of UserServiceClient.
pub record UserServiceRpc (W : Type 0) : Type 0 where
  pub exists_by_email : String → Prog W Bool
  pub get_by_email : String → Prog W UserResponse
  pub create : (name email password : String) → Prog W UserResponse

abbrev pub grpc_code : Code → GrpcCode
grpc_code code_not_found = grpc_not_found
grpc_code code_conflict = grpc_already_exists
grpc_code code_invalid_input = grpc_invalid_argument
grpc_code code_unauthorized = grpc_unauthenticated
grpc_code code_forbidden = grpc_permission_denied
grpc_code _ = grpc_internal

-- int32(n): the low 32 bits
abbrev pub IsInt32 : ℤ → Type 0
IsInt32 (pos n) = n < 2 ^ 31
IsInt32 (negsuc n) = n < 2 ^ 31

abbrev of_bits_32 : ℕ → ℤ
of_bits_32 n = if ltb n (2 ^ 31) then pos n else negsuc (2 ^ 32 - 1 - n)

abbrev pub int32 : ℤ → ℤ
int32 (pos n) = of_bits_32 (n % 2 ^ 32)
int32 (negsuc n) = of_bits_32 (2 ^ 32 - 1 - n % 2 ^ 32)

abbrev time_or_zero : Option Time → Time
time_or_zero none = zero_time
time_or_zero (some t) = t

module _ (status_error : GrpcCode → String → Error) where
  unfoldable pub to_grpc_error : Error → Error
  unfolding from
  to_grpc_error e = let a = from e in status_error (grpc_code (app_code a)) (app_message a)

module _ (from_error : Error → Option (GrpcCode × String)) where
  abbrev from_status : Error → Option (GrpcCode × String) → Error
  from_status e none = app (internal e)
  from_status e (some (grpc_not_found, m)) = app (not_found m)
  from_status e (some (grpc_already_exists, m)) = app (conflict m)
  from_status e (some (grpc_invalid_argument, m)) = app (invalid_input m)
  from_status e (some (grpc_unauthenticated, m)) = app (unauthorized m)
  from_status e (some (grpc_permission_denied, m)) = app (forbidden m)
  from_status e (some (_, m)) = app (internal e)

  unfoldable pub from_grpc_error : Error → Error
  from_grpc_error e = from_status e (from_error e)

-- An instant that does not parse leaves the zero value.
module _ (format : Time → String) (parse : String → Option Time) where
  unfoldable pub to_proto : User → UserResponse
  to_proto u = record {
    id = int32 u.id;
    name = u.name;
    email = u.email;
    password = u.password;
    created_at = format u.created_at;
    updated_at = format u.updated_at;
  }

  unfoldable pub from_proto : UserResponse → User
  from_proto r = record {
    id = r.id;
    name = r.name;
    email = r.email;
    password = r.password;
    created_at = time_or_zero (parse r.created_at);
    updated_at = time_or_zero (parse r.updated_at);
  }

-- GRPCServer
module _ {W : Type 0} (db : Db W) (publish_created : User → Prog W (Unit {0}))
    (format : Time → String) (parse : String → Option Time)
    (status_error : GrpcCode → String → Error) where
  unfoldable pub server : UserServiceRpc W
  unfolding to_grpc_error to_proto exists_by_email get_by_email create_with_password
  server = record {
    exists_by_email =
        λ email. rescue (exists_by_email db email) (λ e. fail (to_grpc_error status_error e));
    get_by_email = λ email. do
      u ← rescue (get_by_email db email) (λ e. fail (to_grpc_error status_error e))
      pure (to_proto format parse u);
    create = λ name email password. do
      u ←
          rescue (create_with_password db publish_created name email password)
            (λ e. fail (to_grpc_error status_error e))
      pure (to_proto format parse u);
  }

-- Client: the user lookup of the auth service
module _ {W : Type 0} (stub : UserServiceRpc W) (format : Time → String)
    (parse : String → Option Time) (from_error : Error → Option (GrpcCode × String)) where
  unfoldable pub client : UserLookup W
  unfolding from_grpc_error from_proto
  client = record {
    exists_by_email =
        λ email. rescue (stub.exists_by_email email) (λ e. fail (from_grpc_error from_error e));
    get_by_email = λ email. do
      resp ← rescue (stub.get_by_email email) (λ e. fail (from_grpc_error from_error e))
      pure (from_proto format parse resp);
    create = λ name email password. do
      resp ← rescue (stub.create name email password) (λ e. fail (from_grpc_error from_error e))
      pure (from_proto format parse resp);
  }
