-- ===== src/HttpApi/Pagination.antt =====
-- http_api/pagination.rs: the parameters of a page, and the response that a page is.
pub mod Pages
use stratum_server_nng.Base.{
  ℕ, ◌+◌, ◌-◌, ◌^◌, Bool, Option, none, some, List, [], ltb, leb, if◌then◌else◌, length, take, drop,
}
use stratum_server_nng.Int.{ℤ, pos, negsuc, ltb_ℤ, leb_ℤ}

pub record PaginationParams : Type 0 where
  pub limit : Option ℤ
  pub offset : Option ℤ

abbrev default_limit : ℤ
default_limit = pos 100

abbrev pub max_limit : ℤ
max_limit = pos 1000

-- `i64::clamp` and `i64::max`.
abbrev clamp_ℤ : ℤ → ℤ → ℤ → ℤ
clamp_ℤ x lo hi = if ltb_ℤ x lo then lo else (if ltb_ℤ hi x then hi else x)

abbrev max_ℤ : ℤ → ℤ → ℤ
max_ℤ x y = if leb_ℤ x y then y else x

-- `limit` and `offset`.
unfoldable pub effective_limit : PaginationParams → ℤ
effective_limit p = elim p.limit [ none ↦ default_limit | some l ↦ clamp_ℤ l (pos 1) max_limit ]

unfoldable pub effective_offset : PaginationParams → ℤ
effective_offset p = elim p.offset [ none ↦ pos 0 | some o ↦ max_ℤ o (pos 0) ]

-- `as usize`.
abbrev as_usize : ℤ → ℕ
as_usize (pos n) = n
as_usize (negsuc n) = 2 ^ 64 - 1 - n

pub record PaginatedResponse (T : Type 0) : Type 0 where
  pub page_data : List T
  pub total : ℤ
  pub has_more : Bool

-- `PaginatedResponse::new`; the sum of an offset and a limit fits a usize.
unfoldable pub new : {T : Type 0} → List T → ℤ → PaginationParams → PaginatedResponse T
unfolding effective_limit effective_offset
new all_data total p =
    let offset = as_usize (effective_offset p) in
    let limit = as_usize (effective_limit p) in
    record {
      page_data = if leb (length all_data) offset then [] else take limit (drop offset all_data);
      total = total;
      has_more = ltb (offset + limit) (as_usize total);
    }
