-- ===== src/Response.antt =====
-- pkg/response/response.go
pub mod Envelope
use go_microservice.Prelude.{
  ℕ, String, Bool, true, false, List, [], ◌∷◌, Option, none, some, ◌==◌, if◌then◌else◌,
}
use go_microservice.Prelude.Int.{pos}
use go_microservice.Apperror.{
  Error, AppError, Code, code_internal, code_text, FieldError, Cause, nil, because, app_code,
  app_message, app_fields, app_err, http_status, from,
}
use go_microservice.Http.{
  Json, bool, int, str, arr, obj, Items, no_item, item, Fields, no_field, field, Request, Conn,
  internal_error, from_context, write_header, encode, set_header, write_log,
}

pub record ErrorBody : Type 0 where
  pub code : Code
  pub message : String
  pub fields : List FieldError

pub record ApiResponse : Type 0 where
  pub success : Bool
  pub status_code : ℕ
  pub message : String
  pub payload : Option Json
  pub meta : Option Json
  pub error : Option ErrorBody

abbrev pub omit_text : String → String → Fields → Fields
omit_text k s fs = if s == "" then fs else field k (str s) fs

abbrev pub omit_json : String → Option Json → Fields → Fields
omit_json k none fs = fs
omit_json k (some j) fs = field k j fs

unfoldable pub field_errors_json : List FieldError → Items
field_errors_json [] = no_item
field_errors_json (e ∷ es) =
    item (obj (field "field" (str e.field) (field "message" (str e.message) no_field)))
      (field_errors_json es)

abbrev pub omit_fields : List FieldError → Fields
omit_fields [] = no_field
omit_fields (e ∷ es) = field "fields" (arr (field_errors_json (e ∷ es))) no_field

unfoldable pub error_body_json : ErrorBody → Json
unfolding field_errors_json
error_body_json b =
    obj (
      field "code" (str (code_text b.code))
        (field "message" (str b.message) (omit_fields b.fields)))

abbrev pub omit_error : Option ErrorBody → Fields
omit_error none = no_field
omit_error (some b) = field "error" (error_body_json b) no_field

-- the struct tags of ApiResponse: each `omitempty` member is left out when it is empty
unfoldable pub response_json : ApiResponse → Json
unfolding error_body_json
response_json p = obj (
    field "success" (bool p.success) (
      field "status_code" (int (pos p.status_code)) (
        omit_text "message" p.message
          (omit_json "data" p.payload (omit_json "meta" p.meta (omit_error p.error))))))

abbrev pub error_response : AppError → ApiResponse
error_response a = record {
  success = false;
  status_code = 0;
  message = "";
  payload = none;
  meta = none;
  error = some (record { code = app_code a; message = app_message a; fields = app_fields a });
}

module _ {W : Type 0} where
  unfoldable pub json_response : ℕ → ApiResponse → Conn W → Conn W
  unfolding response_json write_header encode set_header
  json_response status payload c =
      let p = record payload { status_code = status } in
      encode (response_json p)
        (write_header status (set_header "Content-Type" "application/json" c))

  unfoldable pub success : ℕ → String → Option Json → Conn W → Conn W
  unfolding json_response
  success status message payload = json_response status (record {
    success = true;
    status_code = 0;
    message = message;
    payload = payload;
    meta = none;
    error = none;
  })

  unfoldable pub no_content : Conn W → Conn W
  unfolding write_header
  no_content c = write_header 204 c

  unfoldable pub success_with_meta : ℕ → String → Json → Json → Conn W → Conn W
  unfolding json_response
  success_with_meta status message payload meta = json_response status (record {
    success = true;
    status_code = 0;
    message = message;
    payload = some payload;
    meta = some meta;
    error = none;
  })

  log_internal : Request → AppError → Code → Cause → Conn W → Conn W
  unfolding from_context
  log_internal r a code_internal (because e) c =
      write_log (internal_error (from_context (some r.ctx)) r.method r.path e) c
  log_internal r a _ _ c = c

  write_app_error : Request → AppError → Conn W → Conn W
  unfolding log_internal json_response http_status
  write_app_error r a c =
      json_response (http_status a) (error_response a) (log_internal r a (app_code a) (app_err a) c)

  -- response.Error
  unfoldable pub error : Request → Error → Conn W → Conn W
  unfolding write_app_error from
  error r e c = write_app_error r (from e) c
