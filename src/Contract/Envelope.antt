-- ===== src/Contract/Envelope.antt =====
-- The envelope of every answer, and the ways that the handlers write one.
use go_microservice.Prelude.{
  ℕ, String, Bool, true, ◌≡◌, refl, ◌&&◌, List, [], ◌∷◌, Option, none, some, inl, inr, ◌==◌,
  Bool-cases, arith, nat_eq,
}
use go_microservice.Apperror.{
  Error, Code, FieldError, code_not_found, code_invalid_input, code_conflict, code_unauthorized,
  code_forbidden, code_too_many_requests, code_internal, code_text, from, http_status,
}
use go_microservice.Http.{
  Json, Chunk, json, plain_text, link_page, str, Fields, Request, Conn, Head, write_header,
}
use go_microservice.Contract.{
  Shape, conforms, all_conform, fit, api_response, envelope, error_body, error_members,
  pagination_meta, codes, field_error, one_of,
}
use go_microservice.Response.{
  ApiResponse, ErrorBody, omit_text, omit_json, omit_error, omit_fields, error_body_json,
  field_errors_json, response_json, json_response, success, success_with_meta, no_content, error,
  error_response,
}
use go_microservice.Response.Envelope.{json_response_lem, error_lem, json_head}

abbrev pub Fits : Shape → Option Json → Type 0
Fits s none = Unit {0}
Fits s (some j) = conforms s j ≡ true

pub &&-true : {a b : Bool} → a ≡ true → b ≡ true → (a && b) ≡ true
&&-true h k = rw (h, k)

field_errors-conform :
    (es : List FieldError) → all_conform field_error (field_errors_json es) ≡ true
unfolding field_errors_json
field_errors-conform [] = refl
field_errors-conform (e ∷ es) = field_errors-conform es

code_text-conforms : (c : Code) → conforms (one_of codes) (str (code_text c)) ≡ true
code_text-conforms code_not_found = refl
code_text-conforms code_invalid_input = refl
code_text-conforms code_conflict = refl
code_text-conforms code_unauthorized = refl
code_text-conforms code_forbidden = refl
code_text-conforms code_too_many_requests = refl
code_text-conforms code_internal = refl

error_body_json-conforms : (b : ErrorBody) → conforms error_body (error_body_json b) ≡ true
unfolding error_body_json
error_body_json-conforms b = rw (code_text-conforms b.code) (fields b.fields)
  where
    fields : (es : List FieldError) → (fit error_members (omit_fields es)) ≡ true
    fields [] = refl
    fields (e ∷ es) = rw (field_errors-conform (e ∷ es)) refl

nat_eq_refl : (n : ℕ) → nat_eq n n ≡ true
nat_eq_refl n = ground arith

module _ (n : ℕ) (s : Shape) where
  message-Fits :
      (m : String) (fs : Fields)
      → fit (envelope n s) fs ≡ true
      → fit (envelope n s) (omit_text "message" m fs) ≡ true
  message-Fits m fs h = elim (Bool-cases (m == "")) [
    | inl empty ↦ rw empty h
    | inr given ↦ rw given h
  ]

  payload-Fits :
      (o : Option Json) (fs : Fields)
      → Fits s o
      → fit (envelope n s) fs ≡ true
      → fit (envelope n s) (omit_json "data" o fs) ≡ true
  payload-Fits none fs h k = k
  payload-Fits (some j) fs h k = rw (h, k) refl

  meta-Fits :
      (o : Option Json) (fs : Fields)
      → Fits pagination_meta o
      → fit (envelope n s) fs ≡ true
      → fit (envelope n s) (omit_json "meta" o fs) ≡ true
  meta-Fits none fs h k = k
  meta-Fits (some j) fs h k = rw (h, k) refl

  error-Fits : (o : Option ErrorBody) → fit (envelope n s) (omit_error o) ≡ true
  error-Fits none = refl
  error-Fits (some b) = rw error_body_json-conforms refl

  response_json-conforms :
      (p : ApiResponse)
      → Fits s p.payload
      → Fits pagination_meta p.meta
      → conforms (api_response n s) (response_json (record p { status_code = n })) ≡ true
  unfolding response_json
  response_json-conforms p h k = rw nat_eq_refl (
      message-Fits p.message _
        (payload-Fits p.payload _ h (meta-Fits p.meta _ k (error-Fits p.error))))

-- The body that goes with a status: none with a 204, or with a 301 to a method that gets no page;
-- one ApiResponse with that status; or the mux's own text for a path or a method that it does not
-- know, or its page for a path that is spelled otherwise.
pub data Body (s : Shape) : ℕ → List Chunk → Type 0 where
  no_body : Body s 204 []
  moved_quietly : Body s 301 []
  response :
      (status : ℕ) (j : Json)
      → conforms (api_response status s) j ≡ true
      → Body s status (json j ∷ [])
  unknown_path : Body s 404 (plain_text "404 page not found\n" ∷ [])
  unknown_method : Body s 405 (plain_text "Method Not Allowed\n" ∷ [])
  moved : (location : String) → Body s 301 (link_page location ∷ [])

module _ {W : Type 0} where
  -- nothing was sent
  abbrev pub Blank : Conn W → Type 0
  Blank c = (c.writer.sent ≡ none) × (c.writer.body ≡ [])

  -- A status line was sent, with a body that goes with it.
  abbrev pub Answered : Shape → Conn W → Type 0
  Answered s c = (h : Head) × (c.writer.sent ≡ some h) × Body s h.status c.writer.body

  module _ (s : Shape) where
    pub json_response-Answered :
        (status : ℕ) (p : ApiResponse) (c : Conn W)
        → Fits s p.payload
        → Fits pagination_meta p.meta
        → Blank c
        → Answered s (json_response status p c)
    json_response-Answered status p c h k (unsent, empty) =
        let sent = json_response_lem status p c unsent in
        let j = response_json (record p { status_code = status }) in
        (
          json_head status c,
          sent.0,
          rw (sent.1, empty) (response status j (response_json-conforms status s p h k)),
        )

    pub success-Answered :
        (status : ℕ) (message : String) (payload : Option Json) (c : Conn W)
        → Fits s payload
        → Blank c
        → Answered s (success status message payload c)
    unfolding success
    success-Answered status message payload c h b =
        let p : ApiResponse = record {
          success = true;
          status_code = 0;
          message = message;
          payload = payload;
          meta = none;
          error = none;
        } in
        json_response-Answered status p c h tt b

    pub success_with_meta-Answered :
        (status : ℕ) (message : String) (payload meta : Json) (c : Conn W)
        → conforms s payload ≡ true
        → conforms pagination_meta meta ≡ true
        → Blank c
        → Answered s (success_with_meta status message payload meta c)
    unfolding success_with_meta
    success_with_meta-Answered status message payload meta c h k b =
        let p : ApiResponse = record {
          success = true;
          status_code = 0;
          message = message;
          payload = some payload;
          meta = some meta;
          error = none;
        } in
        json_response-Answered status p c h k b

    pub no_content-Answered : (c : Conn W) → Blank c → Answered s (no_content c)
    unfolding no_content write_header
    no_content-Answered c (unsent, empty) = rw (unsent, empty) (_, refl, no_body)

    pub error-Answered : (r : Request) (e : Error) (c : Conn W) → Blank c → Answered s (error r e c)
    error-Answered r e c (unsent, empty) =
        let sent = error_lem r e c unsent in
        let j =
          response_json (record (error_response (from e)) { status_code = http_status (from e) }) in
        (
          json_head (http_status (from e)) c,
          sent.0,
          rw (sent.1, empty)
              (response (http_status (from e)) j
                (response_json-conforms (http_status (from e)) s (error_response (from e)) tt tt)),
        )
