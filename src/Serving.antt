-- ===== src/Serving.antt =====
-- The steps that the HTTP handlers of all services share: an early return with response.Error, the
-- decoding of a body, the id in the path, and the listing parameters.
use go_microservice.Prelude.{String, List, [], ◌∷◌, Option, none, some}
use go_microservice.Prelude.Int.{ℤ}
use go_microservice.Prelude.Strconv.{atoi, NumError}
use go_microservice.Apperror.{Error, AppError, app, invalid_input}
use go_microservice.Effect.{Result, ok, err}
use go_microservice.Http.{
  Json, Items, no_item, item, obj, int, no_field, field, Request, get_value, Conn, Handler,
  returned,
}
use go_microservice.Response
use go_microservice.Request.{validate}
use go_microservice.Pagination.{Params, Meta, new_params}

module _ {W A : Type 0} where
  -- `x, err := call(); if err != nil { response.Error; return }`, and what follows
  unfoldable pub answer : Request → (A → Conn W → Conn W) → Conn W → Result A × W → Conn W
  answer r k c (ok a, w) = k a (record c { world = w })
  answer r k c (err e, w) = Response.error r e (record c { world = w })

  -- DecodeJSON and Validate, and what follows
  unfoldable pub validated : Request → (A → Conn W → Conn W) → Conn W → A → Option AppError → Conn W
  validated r k c v none = k v c
  validated r k c v (some e) = Response.error r (app e) c

  unfoldable pub with_valid :
      Request → (A → Option Error) → (A → Conn W → Conn W) → Conn W → Result A → Conn W
  unfolding validated
  with_valid r check k c (err e) = Response.error r e c
  with_valid r check k c (ok v) = validated r k c v (validate check v)

-- `id, err := strconv.Atoi(r.PathValue("id"))`, and what follows
module _ {W : Type 0} where
  unfoldable pub id_given :
      Request → String → (ℤ → Conn W → Conn W) → Conn W → ℤ × Option NumError → Conn W
  id_given r msg k c (id, none) = k id c
  id_given r msg k c (id, some e) = Response.error r (app (invalid_input msg)) c

  unfoldable pub with_id : Request → String → (ℤ → Conn W → Conn W) → Conn W → Conn W
  unfolding id_given
  with_id r msg k c = id_given r msg k c (atoi r.path_id)

  -- a http.HandlerFunc that does not panic
  abbrev pub func : (Request → Conn W → Conn W) → Handler W
  func h r c = (returned, h r c)

-- the page and the limit of the query string, the errors of Atoi dropped
unfoldable pub page_params : Request → Params
unfolding new_params
page_params r = new_params (atoi (get_value r.query "page")).0 (atoi (get_value r.query "limit")).0

-- the struct tags of Meta
abbrev pub meta_json : Meta → Json
meta_json m = obj (
    field "page" (int m.page) (
      field "limit" (int m.limit)
        (field "total" (int m.total) (field "total_pages" (int m.total_pages) no_field))))

abbrev pub items_json : {A : Type 0} → (A → Json) → List A → Items
items_json f [] = no_item
items_json f (x ∷ xs) = item (f x) (items_json f xs)
