-- ===== src/Pagination.antt =====
-- pkg/pagination/pagination.go
pub mod Pages
use go_microservice.Prelude.{if◌then◌else◌}
use go_microservice.Prelude.Int.{ℤ, pos, ltb_ℤ, ◌+ℤ◌, ◌-ℤ◌, ◌*ℤ◌, ◌/ℤ◌, wrap}

pub record Params : Type 0 where
  pub page : ℤ
  pub limit : ℤ

pub record Meta : Type 0 where
  pub page : ℤ
  pub limit : ℤ
  pub total : ℤ
  pub total_pages : ℤ

abbrev at_least_one : ℤ → ℤ → ℤ
at_least_one n default = if ltb_ℤ n (pos 1) then default else n

abbrev at_most : ℤ → ℤ → ℤ
at_most n bound = if ltb_ℤ bound n then bound else n

unfoldable pub new_params : ℤ → ℤ → Params
new_params page limit = record {
  page = at_least_one page (pos 1);
  limit = at_most (at_least_one limit (pos 10)) (pos 100);
}

unfoldable pub offset : Params → ℤ
offset p = wrap (wrap (p.page -ℤ pos 1) *ℤ p.limit)

unfoldable pub new_meta : Params → ℤ → Meta
new_meta p total = record {
  page = p.page;
  limit = p.limit;
  total = total;
  total_pages =
      if ltb_ℤ (pos 0) p.limit
      then wrap (wrap (wrap (total +ℤ p.limit) -ℤ pos 1) /ℤ p.limit)
      else pos 0;
}
