-- ===== src/Pagination/Pages.antt =====
-- The parameters that NewParams lets through, and which pages exist.
use go_microservice.Prelude.{ℕ, suc, ◌+◌, ◌*◌, ◌/◌, ◌≤◌, ◌<◌, true, ◌≡◌, ◌↔◌, arith}
use go_microservice.Prelude.Int.{
  ℤ, pos, negsuc, ◌≤ℤ◌, ◌<ℤ◌, ltb_ℤ, wrap_of_IsInt64, word_half, ◌-ℤ◌, ◌+ℤ◌,
}
use native.Mathlib.Nat.{le-div_iff_mul-le, div-le_self}
use go_microservice.Pagination.{Params, at_least_one, at_most, new_params, offset, new_meta}

at_least_one-bound : (n : ℤ) → pos 1 ≤ℤ at_least_one n (pos 1)
at_least_one-bound (pos n) = ground arith
at_least_one-bound (negsuc n) = ground arith

limit-bounds :
    (n : ℤ)
    → (pos 1 ≤ℤ at_most (at_least_one n (pos 10)) (pos 100))
      × (at_most (at_least_one n (pos 10)) (pos 100) ≤ℤ pos 100)
limit-bounds (pos n) = (ground arith, ground arith)
limit-bounds (negsuc n) = (ground arith, ground arith)

page_kept : (n : ℤ) → pos 1 ≤ℤ n → at_least_one n (pos 1) ≡ n
page_kept (pos n) h = ground arith
page_kept (negsuc n) h = ground arith

limit_kept : (n : ℤ) → pos 1 ≤ℤ n → n ≤ℤ pos 100 → at_most (at_least_one n (pos 10)) (pos 100) ≡ n
limit_kept (pos n) h h' = ground arith
limit_kept (negsuc n) h h' = ground arith

-- NewParams gives a page of at least 1 and a limit of 1 to 100, and leaves what was in these bounds
-- as it was.
pub new_params_bounds :
    (page limit : ℤ)
    → (pos 1 ≤ℤ (new_params page limit).page)
      × (pos 1 ≤ℤ (new_params page limit).limit)
      × ((new_params page limit).limit ≤ℤ pos 100)
      × (pos 1 ≤ℤ page → (new_params page limit).page ≡ page)
      × (pos 1 ≤ℤ limit → limit ≤ℤ pos 100 → (new_params page limit).limit ≡ limit)
unfolding new_params
new_params_bounds page limit = (
  at_least_one-bound page,
  (limit-bounds limit).0,
  (limit-bounds limit).1,
  page_kept page,
  limit_kept limit,
)

module _ (k l : ℕ) where
  abbrev pub at : Params
  at = record { page = pos (suc k); limit = pos (suc l) }

  offset_lem : k * suc l < word_half → offset at ≡ pos (k * suc l)
  unfolding offset
  offset_lem h =
      let less : pos (suc k) -ℤ pos 1 ≡ pos k = ground arith in
      let grows : k ≤ k * suc l = omega arith in
      let small : k < word_half = omega (arith, grows, h) in
      rw (less, wrap_of_IsInt64 (pos k) small, wrap_of_IsInt64 (pos (k * suc l)) h)

  total_pages_lem :
      (t : ℕ) → t + suc l < word_half → (new_meta at (pos t)).total_pages ≡ pos ((t + l) / suc l)
  unfolding new_meta
  total_pages_lem t h =
      let less : pos (t + suc l) -ℤ pos 1 ≡ pos (t + l) = ground arith in
      let cut : (t + l) / suc l < word_half = omega (arith, h, div-le_self (t + l) (suc l)) in
      let plus : pos t +ℤ pos (suc l) ≡ pos (t + suc l) = ground arith in
      let positive : ltb_ℤ (pos 0) (pos (suc l)) ≡ true = ground arith in
      rw (
        positive,
        plus,
        wrap_of_IsInt64 (pos (t + suc l)) h,
        less,
        wrap_of_IsInt64 (pos (t + l)) (omega (arith, h)),
        wrap_of_IsInt64 (pos ((t + l) / suc l)) cut,
      )

  -- While neither the offset nor the total overflows, a page is within NewMeta's total_pages exactly
  -- if its offset is below the total, so that it has a row.
  pub page-has_rows_iff :
      (t : ℕ)
      → k * suc l < word_half
      → t + suc l < word_half
      → (at.page ≤ℤ (new_meta at (pos t)).total_pages) ↔ (offset at <ℤ pos t)
  page-has_rows_iff t h h' =
      let (fits, back) = le-div_iff_mul-le {k = suc l} {x = suc k} {y = t + l} (omega arith) in
      rw (offset_lem h, total_pages_lem t h')
        (λ e. omega (arith, fits (omega (arith, e))), λ e. omega (arith, back (omega (arith, e))))
