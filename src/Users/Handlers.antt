-- ===== src/Users/Handlers.antt =====
-- services/user/internal/user/http_handler.go. The JSON decoders and the validator's checks are
-- parameters, as in Request.
pub mod Answers
use go_microservice.Prelude.{String, List, Option, some}
use go_microservice.Prelude.Int.{ℤ}
use go_microservice.Apperror.{Error}
use go_microservice.Effect.{Result, Prog}
use go_microservice.Http.{Json, arr, Context, Request, Conn}
use go_microservice.Response.{success, success_with_meta, no_content}
use go_microservice.Request.{decode_json}
use go_microservice.Serving.{answer, with_valid, with_id, page_params, meta_json, items_json}
use go_microservice.Pagination.{new_meta}
use go_microservice.Query.{parse}
use go_microservice.Auth.{User}
use go_microservice.Auth.Handlers.{user_json}
use go_microservice.Users.{
  Db, CreateUserRequest, UpdateUserRequest, list_schema, get_all, get_by_id, create_user, update,
  delete_user,
}

module _ {W : Type 0} where
  unfoldable pub users_found : Request → List User × ℤ → Conn W → Conn W
  users_found r (users, total) =
      success_with_meta 200 "Users retrieved successfully" (arr (items_json user_json users))
        (meta_json (new_meta (page_params r) total))

module _ {W : Type 0} (db : Db W) where
  unfoldable pub handle_get_all : Request → Conn W → Conn W
  unfolding users_found
  handle_get_all r c =
      answer r (users_found r) c (get_all db (page_params r) (parse r.query list_schema) c.world)

  unfoldable pub handle_get_by_id : Request → Conn W → Conn W
  handle_get_by_id r = with_id r "invalid user id" (λ id d.
      answer r (λ u. success 200 "User retrieved successfully" (some (user_json u))) d
        (get_by_id db id d.world))

  -- `decode`, `decode_empty` and `check` are those of pkg/request and pkg/validation.
  unfoldable pub handle_create :
      (Context → User → Prog W (Unit {0}))
      → (String → Result (CreateUserRequest × String))
      → (String → Option Error)
      → (CreateUserRequest → Option Error)
      → Request
      → Conn W
      → Conn W
  handle_create publish_created decode decode_empty check r c =
      with_valid r check
        (λ req d.
          answer r (λ u. success 201 "User created successfully" (some (user_json u))) d
            (create_user db (publish_created r.ctx) req d.world))
        c (decode_json decode decode_empty r.body)

  unfoldable pub handle_update :
      (String → Result (UpdateUserRequest × String))
      → (String → Option Error)
      → (UpdateUserRequest → Option Error)
      → Request
      → Conn W
      → Conn W
  handle_update decode decode_empty check r = with_id r "invalid user id" (λ id c.
      with_valid r check
        (λ req d.
          answer r (λ u. success 200 "User updated successfully" (some (user_json u))) d
            (update db id req d.world))
        c (decode_json decode decode_empty r.body))

  unfoldable pub handle_delete : Request → Conn W → Conn W
  handle_delete r =
      with_id r "invalid user id" (λ id d. answer r (λ _. no_content) d (delete_user db id d.world))
