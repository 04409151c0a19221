-- ===== src/Request.antt =====
-- pkg/request/request.go and pkg/validation/validator.go. The JSON decoder and validator.Struct are
-- parameters. The JSON names of validated fields are ASCII.
pub mod Refusals
use Prim.Native.Char.{Char, code}
use Prim.Native.String.{[], ◌∷◌}
use mathlib.Core.List.{List, [], ◌∷◌}
use go_microservice.Prelude.{
  ℕ, String, Bool, true, false, Option, none, some, ◌==◌, nat_eq, if◌then◌else◌,
}
use go_microservice.Prelude.Text.{◌⧺◌, cut_prefix, before}
use go_microservice.Apperror.{
  Error, AppError, FieldError, Kind, Violation, max_bytes, eof, invalid_fields, app, error_text,
  find_kind, is_some, invalid_input, validation,
}
use go_microservice.Effect.{Result, ok, err}

abbrev pick_max_bytes : Kind → Option (Unit {0})
pick_max_bytes max_bytes = some tt
pick_max_bytes _ = none

abbrev pick_eof : Kind → Option (Unit {0})
pick_eof eof = some tt
pick_eof _ = none

abbrev pick_fields : Kind → Option (List Violation)
pick_fields (invalid_fields vs) = some vs
pick_fields _ = none

abbrev invalid : {A : Type 0} → String → Result A
invalid msg = err (app (invalid_input msg))

module _ {A : Type 0} where
  unknown_field : Option String → Result A
  unknown_field none = invalid "invalid request body"
  unknown_field (some name) = invalid ("unknown field " ⧺ name)

  undecoded : Error → Result A
  undecoded e =
      if is_some (find_kind pick_max_bytes e)
      then invalid "request body too large"
      else unknown_field (cut_prefix "json: unknown field " (error_text e))

  at_end : A → Option Error → Result A
  at_end v none = invalid "request body must contain a single JSON object"
  at_end v (some e) =
      if is_some (find_kind pick_eof e)
      then ok v
      else invalid "request body must contain a single JSON object"

  -- `decode` is the first Decode, with the byte limit and without unknown fields: the value and
  -- what is left of the body. `decode_empty` is the error of the second Decode.
  module _ (decode : String → Result (A × String)) (decode_empty : String → Option Error) where
    decoded : Result (A × String) → Result A
    unfolding undecoded unknown_field at_end
    decoded (err e) = undecoded e
    decoded (ok (v, rest)) = at_end v (decode_empty rest)

    unfoldable pub decode_json : String → Result A
    unfolding decoded
    decode_json body = decoded (decode body)

-- strings.ToUpper of one ASCII character
upper_in : String → String → Char → Char
upper_in (l ∷ ls) (u ∷ us) c =
    let rest = upper_in ls us c in if nat_eq (code c) (code l) then u else rest
upper_in _ _ c = c

unfoldable pub title_case : String → String
unfolding upper_in
title_case [] = []
title_case (c ∷ s) = upper_in "abcdefghijklmnopqrstuvwxyz" "ABCDEFGHIJKLMNOPQRSTUVWXYZ" c ∷ s

unfoldable pub message : Violation → String
unfolding title_case
message v =
    let name = title_case v.field in
    if v.tag == "required"
    then name ⧺ " is required"
    else if v.tag == "email"
    then name ⧺ " must be a valid email address"
    else if v.tag == "min"
    then name ⧺ " must be at least " ⧺ v.param ⧺ " characters long"
    else if v.tag == "max"
    then name ⧺ " must be at most " ⧺ v.param ⧺ " characters long"
    else name ⧺ " is invalid (" ⧺ v.tag ⧺ ")"

-- the name of a field in messages: that of its json tag, or its own
unfoldable pub tag_name : (field_name json_tag : String) → String
unfolding before
tag_name field_name json_tag =
    let name = before b',' json_tag in
    if name == "" then field_name else if name == "-" then field_name else name

field_errors : List Violation → List FieldError
unfolding message
field_errors [] = []
field_errors (v ∷ vs) = record { field = v.field; message = message v } ∷ field_errors vs

invalid_struct : Option (List Violation) → AppError
unfolding field_errors
invalid_struct none = invalid_input "invalid request"
invalid_struct (some vs) = validation "validation failed" (field_errors vs)

checked : Option Error → Option AppError
unfolding invalid_struct
checked none = none
checked (some e) = some (invalid_struct (find_kind pick_fields e))

-- Validate; `check` is validate.Struct.
unfoldable pub validate : {A : Type 0} → (check : A → Option Error) → A → Option AppError
unfolding checked
validate check v = checked (check v)
