-- ===== src/Users/Listing.antt =====
-- findAll of src/modules/user/application/use-cases/user.service.ts over findAllPaginated of
-- src/modules/user/infrastructure/prisma/user.repository.ts. The order in which the database sorts is a
-- parameter. A role or status outside the enums, which Prisma refuses, is not modelled.
pub mod Laws
pub mod Selection
mod Tests
use project_saas_backend.Common.{
  ℕ, Text, codes, to_lower, starts_with, Option, none, some, List, [], ◌∷◌, map, filter, take, drop,
  length, Bool, true, false, ◌&&◌, ◌||◌, get_or, ◌≡◌, refl,
}
use project_saas_backend.Accounts.{
  Role, super_admin, admin, user, UserStatus, active, inactive, suspended, pending_verification,
  User,
}
use project_saas_backend.Pagination.{
  Delegate, PaginatedFindResult, SortOrder, desc, OrderBy, find_many_paginated,
}
use project_saas_backend.Users.{PublicUserProfile, to_public_profile, is_live}

-- `PaginationDto`, without the search text, which nothing reads.
pub record Query : Type 0 where
  pub page : Option ℕ
  pub limit : Option ℕ
  pub sort_by : Option Text
  pub sort_order : Option SortOrder

pub record UserFilters : Type 0 where
  pub role : Option Role
  pub status : Option UserStatus
  pub search : Option Text

abbrev pub same_role : Role → Role → Bool
same_role super_admin super_admin = true
same_role admin admin = true
same_role user user = true
same_role _ _ = false

abbrev pub same_status : UserStatus → UserStatus → Bool
same_status active active = true
same_status inactive inactive = true
same_status suspended suspended = true
same_status pending_verification pending_verification = true
same_status _ _ = false

-- `contains`, `mode: 'insensitive'`
unfoldable pub contains : Text → Text → Bool
unfolding starts_with
contains part [] = starts_with [] part
contains part (c ∷ s) = let later = contains part s in starts_with (c ∷ s) part || later

abbrev pub contains_insensitive : Text → Text → Bool
unfolding starts_with to_lower
contains_insensitive part s = contains (to_lower part) (to_lower s)

-- A filter that is absent asks for nothing.
abbrev pub has_role : Option Role → Role → Bool
has_role none r = true
has_role (some wanted) r = same_role wanted r

abbrev pub has_status : Option UserStatus → UserStatus → Bool
has_status none s = true
has_status (some wanted) s = same_status wanted s

abbrev pub is_found : Option Text → User → Bool
unfolding starts_with to_lower
is_found none u = true
is_found (some []) u = true
is_found (some (c ∷ s)) u =
    contains_insensitive (c ∷ s) u.first_name
    || contains_insensitive (c ∷ s) u.last_name
    || contains_insensitive (c ∷ s) u.email

-- The condition of the query, as the database reads it.
abbrev pub is_selected : UserFilters → User → Bool
unfolding starts_with to_lower
is_selected filters u =
    is_live u.deleted_at
    && has_role filters.role u.role
    && has_status filters.status u.status
    && is_found filters.search u

abbrev pub order_of : Query → OrderBy
unfolding codes
order_of query = record {
  field = get_or query.sort_by (codes "createdAt");
  order = get_or query.sort_order desc;
}

module _ (sorted : OrderBy → List User → List User) where
  -- The rows of the condition in the order of the query, and the count of the condition alone.
  abbrev pub selected_users : OrderBy → UserFilters → Delegate User
  selected_users order filters = record {
    Db = List User;
    find_many = λ users s t. take t (drop s (filter (is_selected filters) (sorted order users)));
    count = λ users. length (filter (is_selected filters) users);
  }

  -- `none`: the database refuses the number of rows to skip.
  unfoldable pub find_all_paginated :
      Query → UserFilters → List User → Option (PaginatedFindResult User)
  unfolding find_many_paginated codes
  find_all_paginated query filters users =
      find_many_paginated (selected_users (order_of query) filters) query.page query.limit users

  abbrev pub profiles :
      Option (PaginatedFindResult User) → Option (PaginatedFindResult PublicUserProfile)
  unfolding to_public_profile
  profiles none = none
  profiles (some r) = some (record { items = map to_public_profile r.items; meta = r.meta })

  unfoldable pub find_all :
      Query → UserFilters → List User → Option (PaginatedFindResult PublicUserProfile)
  unfolding find_all_paginated
  find_all query filters users = profiles (find_all_paginated query filters users)
