-- ===== src/Request/Refusals.antt =====
-- What a client is told about a body that is refused.
use go_microservice.Prelude.{
  String, ◌≡◌, refl, ap, List, [], ◌∷◌, map, Option, none, some, Bool-cases, inl, inr,
}
use go_microservice.Apperror.{
  Error, AppError, FieldError, Violation, app, foreign, invalid_fields, find_kind, is_some, as_app,
  from, http_status, app_code, code_invalid_input, app_fields, invalid_input, validation,
}
use go_microservice.Effect.{Result, ok, err}
use go_microservice.Request.{
  decode_json, decoded, undecoded, unknown_field, at_end, validate, checked, invalid_struct,
  field_errors, pick_max_bytes, pick_eof,
}

-- an error that the client gets as 400 INVALID_INPUT
abbrev pub IsInvalidInput : Error → Type 0
IsInvalidInput e = (http_status (from e) ≡ 400) × (app_code (from e) ≡ code_invalid_input)

refused : (msg : String) → IsInvalidInput (app (invalid_input msg))
unfolding from as_app http_status
refused msg = (refl, refl)

module _ {A : Type 0} where
  abbrev Refuses : Result A → Type 0
  Refuses r = (e : Error) → r ≡ err e → IsInvalidInput e

  is_refused : (msg : String) → Refuses (err (app (invalid_input msg)))
  is_refused msg e h = let same : app (invalid_input msg) ≡ e = cc in rw (← same) (refused msg)

  unknown_field-Refuses : (found : Option String) → Refuses (unknown_field found)
  unfolding unknown_field
  unknown_field-Refuses none = is_refused _
  unknown_field-Refuses (some name) = is_refused _

  undecoded-Refuses : (e : Error) → Refuses (undecoded e)
  unfolding undecoded
  undecoded-Refuses e = elim (Bool-cases (is_some (find_kind pick_max_bytes e))) [
    | inl large ↦ rw large (is_refused _)
    | inr other ↦ rw other (unknown_field-Refuses _)
  ]

  at_end-Refuses : (v : A) (found : Option Error) → Refuses (at_end v found)
  unfolding at_end
  at_end-Refuses v none = is_refused _
  at_end-Refuses v (some e) = elim (Bool-cases (is_some (find_kind pick_eof e))) [
    | inl end ↦ rw end (λ e' h. cc)
    | inr more ↦ rw more (is_refused _)
  ]

  module _ (decode : String → Result (A × String)) (decode_empty : String → Option Error) where
    decoded-Refuses : (r : Result (A × String)) → Refuses (decoded decode decode_empty r)
    unfolding decoded
    decoded-Refuses (err e) = undecoded-Refuses e
    decoded-Refuses (ok (v, rest)) = at_end-Refuses v (decode_empty rest)

    -- Whatever is wrong with a body, DecodeJSON's error is answered with 400 and INVALID_INPUT.
    pub decode_json-IsInvalidInput :
        (body : String) (e : Error)
        → decode_json decode decode_empty body ≡ err e
        → IsInvalidInput e
    unfolding decode_json
    decode_json-IsInvalidInput body = decoded-Refuses (decode body)

field_errors-field :
    (vs : List Violation)
    → map (λ (f : FieldError). f.field) (field_errors vs) ≡ map (λ (v : Violation). v.field) vs
unfolding field_errors
field_errors-field [] = refl
field_errors-field (v ∷ vs) = ap (λ fs. v.field ∷ fs) (field_errors-field vs)

-- Validate reports a struct that breaks its tags as INVALID_INPUT, with one entry for each violated
-- field, in the validator's order.
pub validate_fields :
    {A : Type 0} (check : A → Option Error) (v : A) (vs : List Violation) (text : String)
    → check v ≡ some (foreign (invalid_fields vs) text)
    → (a : AppError) × (validate check v ≡ some a)
      × (app_code a ≡ code_invalid_input)
      × (map (λ (f : FieldError). f.field) (app_fields a) ≡ map (λ (u : Violation). u.field) vs)
unfolding validate checked invalid_struct find_kind
validate_fields check v vs text h =
    (validation "validation failed" (field_errors vs), rw h refl, refl, field_errors-field vs)
