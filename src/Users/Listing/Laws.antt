-- ===== src/Users/Listing/Laws.antt =====
-- What a listing of users shows.
use mathlib.Core.Path.{subst}
use project_saas_backend.Common.{
  ℕ, zero, suc, List, [], ◌∷◌, Option, none, some, map, filter, take, drop, length, Bool,
  Bool-cases, inl, inr, true, false, All, ◌≡◌, ◌↔◌, refl, ap, sym, ◌∙◌,
}
use project_saas_backend.Accounts.{User}
use project_saas_backend.Pagination.{
  PaginatedFindResult, OrderBy, page_of, build_pagination_meta, find_many_paginated,
}
use project_saas_backend.Users.{PublicUserProfile, to_public_profile}
use project_saas_backend.Users.Listing.{
  Query, UserFilters, is_selected, selected_users, order_of, find_all_paginated, profiles, find_all,
}
use project_saas_backend.Users.Listing.Selection.{Selected, is_selected_iff}

module _ {A : Type 0} (P : A → Type 0) where
  All-take : (n : ℕ) (xs : List A) → All P xs → All P (take n xs)
  All-take zero xs h = tt
  All-take (suc n) [] h = tt
  All-take (suc n) (x ∷ xs) h = (h.0, All-take n xs h.1)

  All-drop : (n : ℕ) (xs : List A) → All P xs → All P (drop n xs)
  All-drop zero xs h = h
  All-drop (suc n) [] h = tt
  All-drop (suc n) (x ∷ xs) h = All-drop n xs h.1

  All-filter : (f : A → Bool) (xs : List A) → All P xs → All (λ x. P x × (f x ≡ true)) (filter f xs)
  unfolding filter
  All-filter f [] h = tt
  All-filter f (x ∷ xs) h = elim (Bool-cases (f x)) [
    | inl kept ↦ rw kept ((h.0, kept), All-filter f xs h.1)
    | inr dropped ↦ rw dropped (All-filter f xs h.1)
  ]

All-map :
    {A B : Type 0} (P : A → Type 0) (Q : B → Type 0) (f : A → B)
    → ((x : A) → P x → Q (f x))
    → (xs : List A) → All P xs
    → All Q (map f xs)
All-map P Q f g [] h = tt
All-map P Q f g (x ∷ xs) h = (g x h.0, All-map P Q f g xs h.1)

same_iff : (a b : Bool) → ((a ≡ true) ↔ (b ≡ true)) → a ≡ b
same_iff true b (f, g) = sym (f refl)
same_iff false true (f, g) = g refl
same_iff false false (f, g) = refl

same_filter :
    {A : Type 0} (f g : A → Bool)
    → ((x : A) → f x ≡ g x)
    → (xs : List A) → filter f xs ≡ filter g xs
unfolding filter
same_filter f g e [] = refl
same_filter f g e (x ∷ xs) = rw (e x) (rw (same_filter f g e xs) refl)

module _ (sorted : OrderBy → List User → List User) (filters : UserFilters) where
  -- What is true of each user of a table is true of each user of the sorted table.
  abbrev pub Sorts : Type 1
  Sorts =
      (P : User → Type 0) (o : OrderBy) (users : List User) → All P users → All P (sorted o users)

  -- The profile of a user of whom `P` is true and who is selected.
  abbrev pub Shown : (User → Type 0) → PublicUserProfile → Type 0
  Shown P p = (u : User) × P u × Selected filters u × (p ≡ to_public_profile u)

  abbrev Listed : (User → Type 0) → ℕ → Option (PaginatedFindResult PublicUserProfile) → Type 0
  Listed P total none = Unit
  Listed P total (some r) = All (Shown P) r.items × (r.meta.total ≡ total)

  page-Listed :
      (P : User → Type 0) (page limit : ℕ) (order : OrderBy) (users : List User)
      → All P (sorted order users)
      → (skip : Option ℕ)
      → Listed P
          (length (filter (is_selected filters) users))
          (profiles sorted (page_of (selected_users sorted order filters) page limit users skip))
  unfolding profiles build_pagination_meta
  page-Listed P page limit order users h none = tt
  page-Listed P page limit order users h (some skip) =
      let chosen = filter (is_selected filters) (sorted order users) in
      (
        All-map (λ u. P u × (is_selected filters u ≡ true)) (Shown P) to_public_profile
            (λ u k. (u, k.0, (is_selected_iff filters u).0 k.1, refl))
            (take limit (drop skip chosen))
            (All-take _ limit _
              (All-drop _ skip _ (All-filter P (is_selected filters) (sorted order users) h))),
        refl,
      )

  -- When sorting brings no user that the table does not have: a listing that is answered shows only
  -- profiles of users of the table (`P` is any predicate that is true of all of them) that are not
  -- soft-deleted, have the role and the status that are asked for, and have the search text, ASCII
  -- letter case aside, in a name or in the email address; and its total is the number of such users in
  -- the table (`test` is any test that tells them).
  pub find_all-Shown :
      (sorts : Sorts) (P : User → Type 0) (test : User → Bool) (query : Query) (users : List User)
      (r : PaginatedFindResult PublicUserProfile)
      → All P users
      → ((u : User) → (test u ≡ true) ↔ Selected filters u)
      → find_all sorted query filters users ≡ some r
      → All (Shown P) r.items × (r.meta.total ≡ length (filter test users))
  unfolding find_all find_all_paginated find_many_paginated
  find_all-Shown sorts P test query users r h tells e =
      let same =
        same_filter test (is_selected filters)
          (λ u. same_iff (test u) (is_selected filters u) (
            λ k. (is_selected_iff filters u).1 ((tells u).0 k),
            λ k. (tells u).1 ((is_selected_iff filters u).0 k),
          ))
          users in
      let (shown, total) =
        subst (Listed P (length (filter (is_selected filters) users))) e
          (page-Listed P _ _ (order_of query) users (sorts P (order_of query) users h) _) in
      (shown, total ∙ ap length (sym same))
