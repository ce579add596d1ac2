-- ===== src/Pagination.antt =====
-- src/shared/utils/pagination.util.ts, src/shared/responses/api.response.ts (buildPaginationMeta),
-- src/shared/dto/pagination.dto.ts (skip, take) and src/core/database/repositories/base.repository.ts
-- (findManyPaginated). Prisma's model delegate is third-party: `Delegate`.
pub mod Pages
mod Tests
use Prim.Native.Nat.{min, max}
use project_saas_backend.Common.{
  ℕ, zero, suc, ◌+◌, ◌-◌, ◌*◌, ◌/◌, Text, Option, none, some, List, [], ◌∷◌, Bool, true, false, ◌≡◌,
  ltb, ◌==◌, get_or, if◌then◌else◌, length, take, drop,
}

-- A number that a caller of the helpers passes: negative ones are clamped.
pub data ℤ : Type 0 where
  pos : ℕ → ℤ
  negsuc : ℕ → ℤ

-- `Math.max(1, n)`
abbrev pub at_least_one : ℤ → ℕ
at_least_one (pos n) = max 1 n
at_least_one (negsuc n) = 1

pub record PaginationParams : Type 0 where
  pub page : Option ℤ
  pub limit : Option ℤ

pub record PrismaSkipTake : Type 0 where
  pub skip : ℕ
  pub take : ℕ

unfoldable pub get_pagination_params : PaginationParams → PrismaSkipTake
get_pagination_params params =
    let page = at_least_one (get_or params.page (pos 1)) in
    let limit = min 100 (at_least_one (get_or params.limit (pos 10))) in
    record { skip = (page - 1) * limit; take = limit }

-- `Math.ceil(total / limit)`: a division by zero is Infinity, or NaN for 0 / 0.
pub data PageCount : Type 0 where
  pages : ℕ → PageCount
  infinity : PageCount
  nan : PageCount

abbrev pub ceil_div : ℕ → ℕ → PageCount
ceil_div zero zero = nan
ceil_div (suc total) zero = infinity
ceil_div total (suc l) = pages ((total + l) / suc l)

-- `page < totalPages`
abbrev pub below : ℕ → PageCount → Bool
below page (pages n) = ltb page n
below page infinity = true
below page nan = false

pub record PaginationMeta : Type 0 where
  pub page : ℕ
  pub limit : ℕ
  pub total : ℕ
  pub total_pages : PageCount
  pub has_next_page : Bool
  pub has_previous_page : Bool

unfoldable pub build_pagination_meta : ℕ → ℕ → ℕ → PaginationMeta
build_pagination_meta total page limit = record {
  page = page;
  limit = limit;
  total = total;
  total_pages = ceil_div total limit;
  has_next_page = below page (ceil_div total limit);
  has_previous_page = ltb 1 page;
}

pub data SortOrder : Type 0 where
  asc : SortOrder
  desc : SortOrder

pub record OrderBy : Type 0 where
  pub field : Text
  pub order : SortOrder

unfoldable pub build_order_by : Option Text → Option SortOrder → OrderBy → OrderBy
build_order_by none order default_sort = default_sort
build_order_by (some []) order default_sort = default_sort
build_order_by (some (c ∷ s)) order default_sort = record {
  field = c ∷ s;
  order = get_or order desc;
}

-- A model with the condition and the order of a query: `findMany({ skip, take })` and `count()`.
pub record Delegate {ℓ} (A : Type ℓ) : Type (ℓ + 1) where
  pub Db : Type ℓ
  pub find_many : Db → ℕ → ℕ → List A
  pub count : Db → ℕ

pub record PaginatedFindResult {ℓ} (A : Type ℓ) : Type ℓ where
  pub items : List A
  pub meta : PaginationMeta

-- `(page - 1) * limit`; a negative number of rows to skip is an error of Prisma.
abbrev pub skip_of : ℕ → ℕ → Option ℕ
skip_of zero zero = some 0
skip_of zero (suc l) = none
skip_of (suc p) l = some (p * l)

module _ {ℓ} {A : Type ℓ} (D : Delegate A) where
  abbrev pub page_of : ℕ → ℕ → D.Db → Option ℕ → Option (PaginatedFindResult A)
  page_of page limit db none = none
  page_of page limit db (some s) = some (record {
    items = D.find_many db s limit;
    meta = build_pagination_meta (D.count db) page limit;
  })

  -- `page` and `limit` are 1 and 10 where they are absent.
  unfoldable pub find_many_paginated : Option ℕ → Option ℕ → D.Db → Option (PaginatedFindResult A)
  unfolding build_pagination_meta
  find_many_paginated page limit db =
      page_of (get_or page 1) (get_or limit 10) db (skip_of (get_or page 1) (get_or limit 10))
