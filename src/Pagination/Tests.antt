-- ===== src/Pagination/Tests.antt =====
-- A delegate over a list, and the witnesses of the theorems on pages.
use project_saas_backend.Common.{ℕ, some, List, [], ◌∷◌, ◌≡◌, refl, length, take, drop}
use project_saas_backend.Pagination.{pages, Delegate, PaginatedFindResult, find_many_paginated}
use project_saas_backend.Pagination.Pages.{OneOrder, pages_up_to, pages_cover}

abbrev list_delegate : Delegate ℕ
list_delegate = record {
  Db = List ℕ;
  find_many = λ db s t. take t (drop s db);
  count = λ db. length db;
}

abbrev rows : List ℕ
rows = 7 ∷ 8 ∷ 9 ∷ []

abbrev one_order : OneOrder list_delegate rows
one_order = record { rows = rows; find_many_rows = λ s t. refl; count_rows = refl }

pages_cover_example :
    (n : ℕ) × (r : PaginatedFindResult ℕ) × (find_many_paginated list_delegate
        (some 2)
        (some 2)
        rows
      ≡ some r)
    × (r.meta.total_pages ≡ pages n)
    × (pages_up_to list_delegate rows one_order 2 n ≡ rows)
pages_cover_example = pages_cover list_delegate rows one_order 1 1
