-- ===== src/Pagination/Pages.antt =====
-- The pages of a query make up its rows, and the flags of the meta say which page is the last.
use native.Mathlib.Nat.{le-div_iff_mul-le, lt-div-mul-add}
use Prim.Native.Nat.{min}
use project_saas_backend.Common.{
  Option, none, ℕ, zero, suc, ◌+◌, ◌-◌, ◌*◌, ◌/◌, ◌≤◌, ◌<◌, some, List, [], ◌∷◌, ◌++◌, true, ◌≡◌,
  ◌↔◌, refl, ap, ◌∙◌, arith, get_or, length, take, drop,
}
use project_saas_backend.Pagination.{
  PaginatedFindResult, ℤ, pos, negsuc, at_least_one, PaginationParams, get_pagination_params, pages,
  build_pagination_meta, Delegate, find_many_paginated,
}

mul_suc : (a b : ℕ) → suc a * b ≡ a * b + b
mul_suc a b = omega arith

next_page : (total page l : ℕ) → (page < (total + l) / suc l) ↔ (page * suc l < total)
next_page total page l =
    let (f, g) = le-div_iff_mul-le {k = suc l} {x = suc page} {y = total + l} (omega arith) in
    (
      (λ h. omega (arith, f (omega (arith, h)), mul_suc page (suc l))),
      λ h. omega (arith, g (omega (arith, mul_suc page (suc l), h))),
    )

-- For a limit of at least one: there is a next page exactly when the pages up to this one do not
-- hold all the rows, and a previous one exactly when this is not the first.
pub build_pagination_meta_flags :
    (total page limit : ℕ)
    → 0 < limit
    → (((build_pagination_meta total page limit).has_next_page ≡ true) ↔ (page * limit < total))
      × (((build_pagination_meta total page limit).has_previous_page ≡ true) ↔ (1 < page))
unfolding build_pagination_meta
build_pagination_meta_flags total page zero h = absurd (omega (arith, h))
build_pagination_meta_flags total page (suc l) h =
    let (f, g) = next_page total page l in
    (((λ e. f (ground (arith, e))), (λ k. ground (arith, g k))), ground arith)

-- The skip and the take of the helper are in bounds whatever numbers it is given: between 1 and 100
-- rows, from a multiple of their number.
pub get_pagination_params_bounds :
    (params : PaginationParams)
    → let r = get_pagination_params params in
      (1 ≤ r.take) × (r.take ≤ 100) × ((k : ℕ) × (r.skip ≡ k * r.take))
unfolding get_pagination_params
get_pagination_params_bounds params =
    let page = at_least_one (get_or params.page (pos 1)) in
    let (low, high) = clamp (get_or params.limit (pos 10)) in (low, high, (page - 1, refl))
  where
    clamp : (z : ℤ) → (1 ≤ min 100 (at_least_one z)) × (min 100 (at_least_one z) ≤ 100)
    clamp (pos n) = (omega arith, omega arith)
    clamp (negsuc n) = (omega arith, omega arith)

module _ {ℓ} {A : Type ℓ} where
  take-take-drop : (m n : ℕ) (xs : List A) → take m xs ++ take n (drop m xs) ≡ take (m + n) xs
  take-take-drop zero n xs = let e : zero + n ≡ n = omega arith in rw e refl
  take-take-drop (suc m) zero [] = let e : suc m + zero ≡ suc m = omega arith in rw e refl
  take-take-drop (suc m) (suc n) [] =
      let e : suc m + suc n ≡ suc (m + suc n) = omega arith in rw e refl
  take-take-drop (suc m) n (x ∷ xs) =
      let e : suc m + n ≡ suc (m + n) = omega arith in
      rw e (ap (λ l. x ∷ l) (take-take-drop m n xs))

  take_all : (n : ℕ) (xs : List A) → length xs ≤ n → take n xs ≡ xs
  take_all zero [] h = refl
  take_all zero (x ∷ xs) h = absurd (omega (arith, h))
  take_all (suc n) [] h = refl
  take_all (suc n) (x ∷ xs) h = ap (λ l. x ∷ l) (take_all n xs (omega (arith, h)))

-- The database cuts every page out of one list of rows, which it also counts. An order that leaves
-- rows undecided, such as one by a time of creation that two rows share, need not give this.
pub record OneOrder {ℓ} {A : Type ℓ} (D : Delegate A) (db : D.Db) : Type ℓ where
  pub rows : List A
  pub find_many_rows : (s t : ℕ) → D.find_many db s t ≡ take t (drop s rows)
  pub count_rows : D.count db ≡ length rows

module _ {ℓ} {A : Type ℓ} (D : Delegate A) (db : D.Db) (one : OneOrder D db) where
  abbrev pub items_of : Option (PaginatedFindResult A) → List A
  items_of none = []
  items_of (some r) = r.items

  -- The items of the pages 1 to n, one after the other.
  abbrev pub pages_up_to : ℕ → ℕ → List A
  pages_up_to limit zero = []
  pages_up_to limit (suc n) =
      pages_up_to limit n ++ items_of (find_many_paginated D (some (suc n)) (some limit) db)

  pages_take : (limit n : ℕ) → pages_up_to limit n ≡ take (n * limit) (one.rows)
  unfolding find_many_paginated
  pages_take limit zero = let e : zero * limit ≡ 0 = omega arith in rw e refl
  pages_take limit (suc n) =
      rw (mul_suc n limit, one.find_many_rows (n * limit) limit, pages_take limit n)
        (take-take-drop (n * limit) limit (one.rows))

  -- Where the database cuts every page of the query out of one list of rows, which takes an order
  -- that leaves no two rows undecided: for a limit of at least one, every page from the first on is
  -- found; its meta counts a finite number of pages, and the items of these pages, one after the
  -- other, are the rows of the query: each row is on one page.
  pub pages_cover :
      (page l : ℕ)
      → (n : ℕ) × (r : PaginatedFindResult A) × (find_many_paginated D
            (some (suc page))
            (some (suc l))
            db
          ≡ some r)
        × (r.meta.total_pages ≡ pages n)
        × (pages_up_to (suc l) n ≡ one.rows)
  unfolding find_many_paginated build_pagination_meta
  pages_cover page l =
      let n = (D.count db + l) / suc l in
      let large : D.count db + l < n * suc l + suc l =
        lt-div-mul-add {a = D.count db + l} {b = suc l} (omega arith) in
      (
        n,
        _,
        refl,
        refl,
        pages_take (suc l) n
            ∙ take_all (n * suc l) (one.rows) (omega (arith, large, one.count_rows)),
      )
