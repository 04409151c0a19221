-- ===== src/Apperror/Chain.antt =====
-- pkg/apperror: From and layers of wrapping.
use go_microservice.Prelude.{String, ◌≡◌, ◌≢◌, refl, List, [], ◌∷◌, Option}
use go_microservice.Apperror.{
  Error, AppError, Kind, app, wrap, foreign, record_not_found, redis_nil, max_bytes, eof, plain,
  pg_error, grpc_status, invalid_fields, as_app, find_kind, from, not_found, internal,
}

-- an error inside any number of fmt.Errorf("...: %w", err)
abbrev pub wraps : List String → Error → Error
wraps [] e = e
wraps (s ∷ ss) e = wrap s (wraps ss e)

as_app-wraps : (ss : List String) (e : Error) → as_app (wraps ss e) ≡ as_app e
unfolding as_app
as_app-wraps [] e = refl
as_app-wraps (s ∷ ss) e = as_app-wraps ss e

find_kind-wraps :
    {A : Type 0} (pick : Kind → Option A) (ss : List String) (e : Error)
    → find_kind pick (wraps ss e) ≡ find_kind pick e
unfolding find_kind
find_kind-wraps pick [] e = refl
find_kind-wraps pick (s ∷ ss) e = find_kind-wraps pick ss e

from-foreign :
    (k : Kind) (t : String) (ss : List String)
    → k ≢ record_not_found
    → from (wraps ss (foreign k t)) ≡ internal (wraps ss (foreign k t))
unfolding from as_app find_kind
from-foreign record_not_found t ss h = absurd (h refl)
from-foreign redis_nil t ss h = rw (as_app-wraps, find_kind-wraps)
from-foreign max_bytes t ss h = rw (as_app-wraps, find_kind-wraps)
from-foreign eof t ss h = rw (as_app-wraps, find_kind-wraps)
from-foreign plain t ss h = rw (as_app-wraps, find_kind-wraps)
from-foreign (pg_error s) t ss h = rw (as_app-wraps, find_kind-wraps)
from-foreign (grpc_status c s) t ss h = rw (as_app-wraps, find_kind-wraps)
from-foreign (invalid_fields vs) t ss h = rw (as_app-wraps, find_kind-wraps)

-- `From` returns the AppError that is wrapped, whatever stands round it; a wrapped
-- gorm.ErrRecordNotFound becomes the fixed not-found error, and any other foreign error becomes
-- Internal with the whole error as its cause.
pub from-wraps :
    (ss : List String)
    → ((a : AppError) → from (wraps ss (app a)) ≡ a)
      × ((t : String)
          → from (wraps ss (foreign record_not_found t)) ≡ not_found "resource not found")
      × ((k : Kind) (t : String)
          → k ≢ record_not_found
          → from (wraps ss (foreign k t)) ≡ internal (wraps ss (foreign k t)))
unfolding from
from-wraps ss = (
  λ a. unfold as_app in rw as_app-wraps,
  λ t. unfold as_app find_kind in rw (as_app-wraps, find_kind-wraps),
  λ k t. from-foreign k t ss,
)
