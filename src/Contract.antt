-- ===== src/Contract.antt =====
-- The answers that services/docs/static/openapi.yaml promises: schemas for JSON values, and the
-- ApiResponse that every endpoint shares. Beside the document, an object has no member but the
-- listed ones, and those that the code always writes are required.
pub mod Envelope
pub mod Routed
pub mod Probes
pub mod Users
pub mod Notifications
pub mod Sessions
use go_microservice.Prelude.{
  ℕ, String, Bool, true, false, ◌&&◌, ◌||◌, List, [], ◌∷◌, Option, none, some, ◌==◌, if◌then◌else◌,
  nat_eq,
}
use go_microservice.Prelude.Int.{ℤ, pos, negsuc}
use go_microservice.Http.{
  Json, null, bool, int, str, time, arr, obj, Items, no_item, item, Fields, no_field, field,
}

mutual
  pub data Shape : Type 0 where
    boolean integer text date_time absent : Shape
    constant : ℕ → Shape
    one_of : List String → Shape
    list_of : Shape → Shape
    either : Shape → Shape → Shape
    object : Members → Shape

  pub data Members : Type 0 where
    no_member : Members
    required optional : String → Shape → Members → Members

abbrev pub member : String → Members → Option Shape
member k no_member = none
member k (required j s ms) = let rest = member k ms in if k == j then some s else rest
member k (optional j s ms) = let rest = member k ms in if k == j then some s else rest

abbrev pub has : String → Fields → Bool
has k no_field = false
has k (field j v fs) = (k == j) || has k fs

abbrev pub complete : Members → Fields → Bool
complete no_member fs = true
complete (required k s ms) fs = has k fs && complete ms fs
complete (optional k s ms) fs = complete ms fs

abbrev elem : String → List String → Bool
elem s [] = false
elem s (t ∷ ts) = (s == t) || elem s ts

abbrev is_constant : ℕ → ℤ → Bool
is_constant n (pos m) = nat_eq m n
is_constant n (negsuc m) = false

-- whether a JSON value has a shape
abbrev mutual
  pub conforms : Shape → Json → Bool
  conforms (either s t) j = conforms s j || conforms t j
  conforms boolean (bool b) = true
  conforms integer (int n) = true
  conforms (constant n) (int m) = is_constant n m
  conforms text (str s) = true
  conforms (one_of ts) (str s) = elem s ts
  conforms date_time (time t) = true
  conforms (list_of s) (arr xs) = all_conform s xs
  conforms (object ms) (obj fs) = complete ms fs && fit ms fs
  conforms _ _ = false

  pub all_conform : Shape → Items → Bool
  all_conform s no_item = true
  all_conform s (item j xs) = conforms s j && all_conform s xs

  -- each field is a member, and its value has the member's shape
  pub fit : Members → Fields → Bool
  fit ms no_field = true
  fit ms (field k j fs) = elim (member k ms) [ none ↦ false | some s ↦ conforms s j ] && fit ms fs

-- components.schemas of the document
abbrev pub field_error : Shape
field_error = object (required "field" text (required "message" text no_member))

abbrev pub codes : List String
codes =
    "NOT_FOUND" ∷ "INVALID_INPUT" ∷ "CONFLICT" ∷ "UNAUTHORIZED" ∷ "FORBIDDEN" ∷ "TOO_MANY_REQUESTS"
    ∷ "INTERNAL" ∷ []

abbrev pub error_members : Members
error_members =
    required "code" (one_of codes)
      (required "message" text (optional "fields" (list_of field_error) no_member))

abbrev pub error_body : Shape
error_body = object error_members

abbrev pub pagination_meta : Shape
pagination_meta = object (
    required "page" integer (
      required "limit" integer
        (required "total" integer (required "total_pages" integer no_member))))

abbrev pub user : Shape
user = object (
    required "id" integer (
      required "name" text (
        required "email" text
          (required "created_at" date_time (required "updated_at" date_time no_member)))))

abbrev pub notification : Shape
notification = object (
    required "id" integer (
      required "event_id" text (
        required "type" text (
          required "recipient" text (
            required "status" text (
              optional "error" text
                (required "created_at" date_time (required "updated_at" date_time no_member))))))))

abbrev pub envelope : ℕ → Shape → Members
envelope status payload = required "success" boolean (
    required "status_code" (constant status) (
      optional "message" text (
        optional "data" payload
          (optional "meta" pagination_meta (optional "error" error_body no_member)))))

-- ApiResponse with the given status code and, in `data`, a value of the given shape
abbrev pub api_response : ℕ → Shape → Shape
api_response status payload = object (envelope status payload)
