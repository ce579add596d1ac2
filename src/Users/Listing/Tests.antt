-- ===== src/Users/Listing/Tests.antt =====
-- The witness of the theorem on the listing of users, on a table with a soft-deleted row.
use project_saas_backend.Common.{
  codes, to_lower, starts_with, none, some, List, [], ◌∷◌, All, length, filter, ◌≡◌, ◌⊎◌, inl, inr,
  refl,
}
use project_saas_backend.Accounts.{User, user, default_row}
use project_saas_backend.Pagination.{
  PaginatedFindResult, OrderBy, build_pagination_meta, find_many_paginated,
}
use project_saas_backend.Users.{PublicUserProfile, to_public_profile}
use project_saas_backend.Users.Listing.{
  Query, UserFilters, contains, is_selected, find_all, find_all_paginated,
}
use project_saas_backend.Users.Listing.Laws.{Shown, find_all-Shown}
use project_saas_backend.Users.Listing.Selection.{is_selected_iff}

abbrev ann : User
ann = default_row (codes "u-1") 1 (record {
  email = codes "ann@x.org";
  password = [];
  first_name = codes "Ann";
  last_name = codes "Lee";
  phone = none;
})

abbrev gone : User
gone = record ann { id = codes "u-2"; deleted_at = some 5 }

abbrev table : List User
table = gone ∷ ann ∷ []

abbrev as_stored : OrderBy → List User → List User
as_stored o users = users

abbrev named_an : UserFilters
named_an = record { role = some user; status = none; search = some (codes "an") }

abbrev first_page : Query
first_page = record { page = some 1; limit = some 10; sort_by = none; sort_order = none }

abbrev shown : PaginatedFindResult PublicUserProfile
unfolding build_pagination_meta to_public_profile
shown = record { items = to_public_profile ann ∷ []; meta = build_pagination_meta 1 1 10 }

find_all-Shown_example :
    All (Shown as_stored named_an (λ u. (u ≡ gone) ⊎ (u ≡ ann))) shown.items
    × (shown.meta.total ≡ length (filter (is_selected named_an) table))
unfolding codes to_lower starts_with filter find_all find_all_paginated find_many_paginated
    build_pagination_meta to_public_profile contains
find_all-Shown_example =
    find_all-Shown as_stored named_an (λ P o users h. h) (λ u. (u ≡ gone) ⊎ (u ≡ ann))
      (is_selected named_an) first_page table shown (inl refl, (inr refl, tt))
      (is_selected_iff named_an) refl
