-- ===== src/Contract/Users.antt =====
-- services/user: the answers of its HTTP handlers, as Build assembles them, behind its router.
use go_microservice.Prelude.{String, true, ◌≡◌, refl, List, [], ◌∷◌, Option, some}
use go_microservice.Prelude.Int.{ℤ}
use go_microservice.Apperror.{Error}
use go_microservice.Effect.{Result, Prog}
use go_microservice.Http.{arr, Context, Request, Conn}
use go_microservice.Contract.{Shape, either, list_of, user, all_conform}
use go_microservice.Contract.Envelope.{
  Blank, Answered, success-Answered, success_with_meta-Answered, no_content-Answered,
}
use go_microservice.Contract.Routed.{
  answer-Answered, with_valid-Answered, with_id-Answered, Answers, func-Answers,
}
use go_microservice.Contract.Probes.{handle_live-Answers, handle_ready-Answers}
use go_microservice.Middleware.Answered.{Served}
use go_microservice.Routers.{register_user}
use go_microservice.Routers.Answered.{register_user-Served}
use go_microservice.Request.{decode_json}
use go_microservice.Pagination.{new_meta}
use go_microservice.Serving.{items_json, meta_json, func, page_params}
use go_microservice.Auth.{User}
use go_microservice.Auth.Handlers.{user_json}
use go_microservice.Users.{Db, EventPublisher, CreateUserRequest, UpdateUserRequest}
use go_microservice.Users.Handlers.{
  users_found, handle_get_all, handle_get_by_id, handle_create, handle_update, handle_delete,
}
use go_microservice.Process.{Runtime}
use go_microservice.Process.Users.{Platform, build}

-- what `data` may be: a user, or a list of them; a user has no password
abbrev pub user_payload : Shape
user_payload = either user (list_of user)

users-conform : (us : List User) → all_conform user (items_json user_json us) ≡ true
users-conform [] = refl
users-conform (u ∷ us) = users-conform us

module _ {W : Type 0} (db : Db W) where
  found-Answered :
      (r : Request) (p : List User × ℤ) (c : Conn W)
      → Blank c
      → Answered user_payload (users_found r p c)
  unfolding users_found
  found-Answered r (us, total) c b =
      success_with_meta-Answered user_payload 200 "Users retrieved successfully"
        (arr (items_json user_json us)) (meta_json (new_meta (page_params r) total)) c
        (users-conform us) refl b

  handle_get_all-Answers : Answers user_payload (func (handle_get_all db))
  unfolding handle_get_all
  handle_get_all-Answers =
      func-Answers user_payload _
        (λ r c b. answer-Answered user_payload r (users_found r) (found-Answered r) c _ b)

  handle_get_by_id-Answers : Answers user_payload (func (handle_get_by_id db))
  unfolding handle_get_by_id
  handle_get_by_id-Answers = func-Answers user_payload _ (λ r c b.
      with_id-Answered user_payload r "invalid user id" _
        (λ id d k.
          answer-Answered user_payload r _
            (λ u e j. success-Answered user_payload 200 _ (some (user_json u)) e refl j) d _ k)
        c b)

  handle_create-Answers :
      (publish : Context → User → Prog W (Unit {0}))
      (decode : String → Result (CreateUserRequest × String)) (decode_empty : String → Option Error)
      (check : CreateUserRequest → Option Error)
      → Answers user_payload (func (handle_create db publish decode decode_empty check))
  unfolding handle_create
  handle_create-Answers publish decode decode_empty check = func-Answers user_payload _ (λ r c b.
      with_valid-Answered user_payload r _
        (λ req d k.
          answer-Answered user_payload r _
            (λ u e j. success-Answered user_payload 201 _ (some (user_json u)) e refl j) d _ k)
        check c (decode_json decode decode_empty r.body) b)

  handle_update-Answers :
      (decode : String → Result (UpdateUserRequest × String)) (decode_empty : String → Option Error)
      (check : UpdateUserRequest → Option Error)
      → Answers user_payload (func (handle_update db decode decode_empty check))
  unfolding handle_update
  handle_update-Answers decode decode_empty check = func-Answers user_payload _ (λ r c b.
      with_id-Answered user_payload r "invalid user id" _
        (λ id d k.
          with_valid-Answered user_payload r _
            (λ req e j.
              answer-Answered user_payload r _
                (λ u f i. success-Answered user_payload 200 _ (some (user_json u)) f refl i) e _ j)
            check d (decode_json decode decode_empty r.body) k)
        c b)

  handle_delete-Answers : Answers user_payload (func (handle_delete db))
  unfolding handle_delete
  handle_delete-Answers = func-Answers user_payload _ (λ r c b.
      with_id-Answered user_payload r "invalid user id" _
        (λ id d k.
          answer-Answered user_payload r _ (λ u e j. no_content-Answered user_payload e j) d _ k)
        c b)

module _ {W D S Q C L : Type 0} (os : Runtime W) (p : Platform W D S Q C L) where
  -- The user service answers every request, whatever its handlers meet: with nothing sent before,
  -- its router returns, with one status line and a body that goes with it. The body is one
  -- ApiResponse, whose status_code is that status and whose data is a user or a list of users,
  -- without a password; or it is net/http's own, the text of a 404 or a 405 or the page of a 301; or
  -- it is empty, with a 204 or with a 301.
  pub register_user-conforms :
      (db : D) (publisher : EventPublisher C) (r : Request) (c : Conn W)
      → Blank c
      → let a = build os p db publisher in
        Served user_payload
          (register_user p.clean p.new_uuid a.user_http_handler a.health_handler r c)
  unfolding build
  register_user-conforms db publisher =
      let b = p.bindings in
      register_user-Served user_payload p.clean p.new_uuid _
        (record {
          live = handle_live-Answers user_payload;
          ready = handle_ready-Answers user_payload "database unreachable" (p.ping db);
        })
        _
        (record {
          get_all = handle_get_all-Answers (p.gorm db);
          get_by_id = handle_get_by_id-Answers (p.gorm db);
          create =
              handle_create-Answers (p.gorm db) _ b.decode_create b.decode_empty b.check_create;
          update = handle_update-Answers (p.gorm db) b.decode_update b.decode_empty b.check_update;
          delete = handle_delete-Answers (p.gorm db);
        })
