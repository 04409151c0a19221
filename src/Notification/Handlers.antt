-- ===== src/Notification/Handlers.antt =====
-- services/notification/internal/notification/http_handler.go
use go_microservice.Prelude.{List, some}
use go_microservice.Prelude.Int.{ℤ}
use go_microservice.Http.{Json, arr, obj, int, str, time, field, no_field, Request, Conn}
use go_microservice.Response.{success, success_with_meta, omit_text}
use go_microservice.Serving.{answer, with_id, page_params, meta_json, items_json}
use go_microservice.Pagination.{new_meta}
use go_microservice.Query.{parse}
use go_microservice.Notification.{Notification, Table, list_schema, get_all, get_by_id}

-- the struct tags of Notification
abbrev pub notification_json : Notification → Json
notification_json n = obj (
    field "id" (int n.id) (
      field "event_id" (str n.event_id) (
        field "type" (str n.type) (
          field "recipient" (str n.recipient) (
            field "status" (str n.status) (
              omit_text "error" n.error (
                field "created_at" (time n.created_at)
                  (field "updated_at" (time n.updated_at) no_field))))))))

module _ {W : Type 0} where
  unfoldable pub notifications_found : Request → List Notification × ℤ → Conn W → Conn W
  notifications_found r (rows, total) =
      success_with_meta 200 "Notifications retrieved successfully"
        (arr (items_json notification_json rows)) (meta_json (new_meta (page_params r) total))

module _ {W : Type 0} (db : Table W) where
  unfoldable pub handle_get_all : Request → Conn W → Conn W
  unfolding notifications_found
  handle_get_all r c =
      answer r (notifications_found r) c
        (get_all db (page_params r) (parse r.query list_schema) c.world)

  unfoldable pub handle_get_by_id : Request → Conn W → Conn W
  handle_get_by_id r = with_id r "invalid notification id" (λ id d.
      answer r (λ n. success 200 "Notification retrieved successfully" (some (notification_json n)))
        d (get_by_id db id d.world))
