-- ===== src/Contract/Notifications.antt =====
-- services/notification: the answers of its HTTP handlers, as Build assembles them, behind its
-- router.
use go_microservice.Prelude.{true, ◌≡◌, refl, List, [], ◌∷◌, some, inl, inr, Bool-cases, ◌==◌}
use go_microservice.Prelude.Int.{ℤ}
use go_microservice.Effect.{Prog}
use go_microservice.Http.{arr, Request, Conn}
use go_microservice.Contract.{Shape, either, list_of, notification, conforms, all_conform}
use go_microservice.Contract.Envelope.{
  Blank, Answered, &&-true, success-Answered, success_with_meta-Answered,
}
use go_microservice.Contract.Routed.{answer-Answered, with_id-Answered, Answers, func-Answers}
use go_microservice.Contract.Probes.{handle_live-Answers, handle_ready-Answers}
use go_microservice.Middleware.Answered.{Served}
use go_microservice.Routers.{register_notification}
use go_microservice.Routers.Answered.{register_notification-Served}
use go_microservice.Pagination.{new_meta}
use go_microservice.Serving.{items_json, meta_json, func, page_params}
use go_microservice.Notification.{Notification, Message, Table}
use go_microservice.Notification.Handlers.{
  notification_json, notifications_found, handle_get_all, handle_get_by_id,
}
use go_microservice.Process.{Runtime}
use go_microservice.Process.Notifications.{Platform, build}

abbrev pub notification_payload : Shape
notification_payload = either notification (list_of notification)

notification-conforms : (n : Notification) → conforms notification (notification_json n) ≡ true
notification-conforms n = elim (Bool-cases (n.error == "")) [
  | inl empty ↦ rw empty refl
  | inr given ↦ rw given refl
]

payload-conforms : (n : Notification) → conforms notification_payload (notification_json n) ≡ true
payload-conforms n = rw notification-conforms refl

notifications-conform :
    (ns : List Notification) → all_conform notification (items_json notification_json ns) ≡ true
notifications-conform [] = refl
notifications-conform (n ∷ ns) = &&-true (notification-conforms n) (notifications-conform ns)

module _ {W : Type 0} (db : Table W) where
  found-Answered :
      (r : Request) (p : List Notification × ℤ) (c : Conn W)
      → Blank c
      → Answered notification_payload (notifications_found r p c)
  unfolding notifications_found
  found-Answered r (ns, total) c b =
      success_with_meta-Answered notification_payload 200 "Notifications retrieved successfully"
        (arr (items_json notification_json ns)) (meta_json (new_meta (page_params r) total)) c
        (notifications-conform ns) refl b

  handle_get_all-Answers : Answers notification_payload (func (handle_get_all db))
  unfolding handle_get_all
  handle_get_all-Answers = func-Answers notification_payload _ (λ r c b.
      answer-Answered notification_payload r (notifications_found r) (found-Answered r) c _ b)

  handle_get_by_id-Answers : Answers notification_payload (func (handle_get_by_id db))
  unfolding handle_get_by_id
  handle_get_by_id-Answers = func-Answers notification_payload _ (λ r c b.
      with_id-Answered notification_payload r "invalid notification id" _
        (λ id d k.
          answer-Answered notification_payload r _
            (λ n e j.
              success-Answered notification_payload 200 _ (some (notification_json n)) e
                (payload-conforms n) j)
            d _ k)
        c b)

module _ {W D S Q C : Type 0} (os : Runtime W) (p : Platform W D S Q C) where
  -- The notification service answers every request, whatever its handlers meet: with nothing sent
  -- before, its router returns, with one status line and a body that goes with it; an ApiResponse
  -- has that status as its status_code, and its data is a notification or a list of notifications.
  register_notification-conforms :
      (db : D) (sender : Message → Prog W (Unit {0})) (r : Request) (c : Conn W)
      → Blank c
      → let a = build os p db sender in
        Served notification_payload (
          register_notification p.clean p.new_uuid a.notification_http_handler a.health_handler r c)
  unfolding build
  register_notification-conforms db sender =
      register_notification-Served notification_payload p.clean p.new_uuid _
        (record {
          live = handle_live-Answers notification_payload;
          ready = handle_ready-Answers notification_payload "database unreachable" (p.ping db);
        })
        _
        (record {
          get_all = handle_get_all-Answers (p.gorm db);
          get_by_id = handle_get_by_id-Answers (p.gorm db);
        })
