-- ===== src/Response/Envelope.antt =====
-- What a client sees of a response: Success, Error and their common JSONResponse.
use go_microservice.Prelude.{ℕ, ◌≡◌, refl, false, none, some, [], ◌∷◌, ◌++◌, sym, ◌∙◌, map}
use go_microservice.Apperror.{
  Error, foreign, plain, AppError, Code, code_internal, Cause, nil, because, as_app,
  is_record_not_found, from, http_status, internal, app_code, app_err,
}
use go_microservice.Http.{Request, json, Conn, Head, set_field}
use go_microservice.Response.{
  ApiResponse, response_json, error_response, json_response, log_internal, error,
}

module _ {W : Type 0} where
  -- the head that JSONResponse sends, if nothing was sent before
  abbrev pub json_head : ℕ → Conn W → Head
  json_head status c = record {
    status = status;
    header = record (c.writer.header) {
      fields = set_field "Content-Type" ("application/json" ∷ []) c.writer.header.fields;
    };
  }

  pub json_response_lem :
      (status : ℕ) (p : ApiResponse) (c : Conn W)
      → c.writer.sent ≡ none
      → ((json_response status p c).writer.sent ≡ some (json_head status c))
        × ((json_response status p c).writer.body
            ≡ c.writer.body ++ json (response_json (record p { status_code = status })) ∷ [])
  unfolding json_response
  json_response_lem status p c h = rw h (refl, refl)

  -- After the head is sent, JSONResponse changes what the recorders say and not the status line.
  pub json_response_of_sent :
      (status : ℕ) (p : ApiResponse) (c : Conn W) (h : Head)
      → c.writer.sent ≡ some h
      → ((json_response status p c).writer.sent ≡ some h)
        × ((json_response status p c).writer.recorders ≡ map (λ _. status) c.writer.recorders)
  unfolding json_response
  json_response_of_sent status p c h e = rw e (refl, refl)

  -- JSONResponse reads nothing but the writer to make the new one.
  pub json_response_writer :
      (status : ℕ) (p : ApiResponse) (c d : Conn W)
      → c.writer ≡ d.writer
      → (json_response status p c).writer ≡ (json_response status p d).writer
  unfolding json_response
  json_response_writer status p c d h = cc

from-untyped : (e : Error) → as_app e ≡ none → is_record_not_found e ≡ false → from e ≡ internal e
unfolding from
from-untyped e h k = rw (h, k)

-- the body for every error that is not known
abbrev hidden : ApiResponse
hidden = error_response (internal (foreign plain ""))

module _ {W : Type 0} (r : Request) where
  log_internal_writer :
      (a : AppError) (k : Code) (e : Cause) (c : Conn W)
      → (log_internal r a k e c).writer ≡ c.writer
  unfolding log_internal
  log_internal_writer a code_internal (because e) c = refl
  log_internal_writer a code_internal nil c = refl
  log_internal_writer a _ e c = refl

  -- the response is made from the normalized error alone
  pub error_writer :
      (e : Error) (c : Conn W)
      → (error r e c).writer
        ≡ (json_response (http_status (from e)) (error_response (from e)) c).writer
  unfolding error
  error_writer e c =
      json_response_writer (http_status (from e)) (error_response (from e))
        (log_internal r (from e) (app_code (from e)) (app_err (from e)) c) c
        (log_internal_writer (from e) (app_code (from e)) (app_err (from e)) c)

  -- If nothing has been sent, an error response sends one status line, with the HTTP status of the
  -- normalized error, and appends one JSON value to the body, whose status_code is that status.
  pub error_lem :
      (e : Error) (c : Conn W)
      → c.writer.sent ≡ none
      → ((error r e c).writer.sent ≡ some (json_head (http_status (from e)) c))
        × ((error r e c).writer.body
            ≡ c.writer.body
              ++ json (
                  response_json
                    (record (error_response (from e)) { status_code = http_status (from e) }))
                ∷ [])
  error_lem e c h =
      rw error_writer (json_response_lem (http_status (from e)) (error_response (from e)) c h)

  -- An error response behind a head that is sent: the head stays, and each recorder has the new
  -- status.
  pub error_of_sent :
      (e : Error) (c : Conn W) (h : Head)
      → c.writer.sent ≡ some h
      → ((error r e c).writer.sent ≡ some h)
        × ((error r e c).writer.recorders ≡ map (λ _. http_status (from e)) c.writer.recorders)
  error_of_sent e c h sent =
      rw error_writer
        (json_response_of_sent (http_status (from e)) (error_response (from e)) c h sent)

  error_writer-untyped :
      (e : Error) (c : Conn W)
      → as_app e ≡ none
      → is_record_not_found e ≡ false
      → (error r e c).writer ≡ (json_response 500 hidden c).writer
  unfolding http_status
  error_writer-untyped e c h k = rw (error_writer, from-untyped e h k)

  -- Two errors that carry no AppError and no gorm.ErrRecordNotFound get the same response, byte
  -- for byte: nothing of the cause reaches the client.
  error-hides_cause :
      (e e' : Error) (c : Conn W)
      → as_app e ≡ none
      → as_app e' ≡ none
      → is_record_not_found e ≡ false
      → is_record_not_found e' ≡ false
      → (error r e c).writer ≡ (error r e' c).writer
  error-hides_cause e e' c h h' k k' =
      error_writer-untyped e c h k ∙ sym (error_writer-untyped e' c h' k')
