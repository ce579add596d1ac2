-- ===== src/Users/Listing/Selection.antt =====
-- Which users the condition of a listing selects.
use mathlib.Core.Path.{subst}
use project_saas_backend.Common.{
  ℕ, Text, to_lower, starts_with, [], ◌∷◌, ◌++◌, Option, none, some, Bool, inl, inr, true, false,
  ◌≡◌, ◌⊎◌, ◌↔◌, ◌&&◌, ◌||◌, ◌==◌, refl, ap, sym, arith,
}
use project_saas_backend.Accounts.{
  Role, super_admin, admin, user, UserStatus, active, inactive, suspended, pending_verification,
  User,
}
use project_saas_backend.Users.{is_live}
use project_saas_backend.Users.Listing.{
  UserFilters, same_role, same_status, contains, contains_insensitive, has_role, has_status,
  is_found, is_selected,
}

-- The column is the one that is asked for, where one is.
abbrev pub Asked : {A : Type 0} → Option A → A → Type 0
Asked none a = Unit
Asked (some wanted) a = a ≡ wanted

-- The text has the part somewhere, the letter case of ASCII aside.
abbrev pub Has : Text → Text → Type 0
Has part s = (before : Text) × (after : Text) × (to_lower s ≡ before ++ (to_lower part ++ after))

-- The search text, where there is one, is in a name or in the email address.
abbrev pub Searched : Option Text → User → Type 0
Searched none u = Unit
Searched (some []) u = Unit
Searched (some (c ∷ s)) u =
    Has (c ∷ s) u.first_name ⊎ (Has (c ∷ s) u.last_name ⊎ Has (c ∷ s) u.email)

-- The user is not soft-deleted and is what the filters ask for.
pub record Selected (filters : UserFilters) (u : User) : Type 0 where
  pub live : u.deleted_at ≡ none
  pub role : Asked filters.role u.role
  pub status : Asked filters.status u.status
  pub search : Searched filters.search u

and_iff : (a b : Bool) → ((a && b) ≡ true) ↔ ((a ≡ true) × (b ≡ true))
and_iff true b = (λ h. (refl, h), λ h. h.1)
and_iff false b = (λ h. absurd (cc (h)), λ h. absurd (cc (h.0)))

or_iff : (a b : Bool) → ((a || b) ≡ true) ↔ ((a ≡ true) ⊎ (b ≡ true))
or_iff true b = (λ h. inl refl, λ h. refl)
or_iff false b = (λ h. inr h, λ h. elim h [ inl e ↦ absurd (cc (e)) | inr e ↦ e ])

starts_with_sound : (s p : Text) → starts_with s p ≡ true → (after : Text) × (s ≡ p ++ after)
unfolding starts_with
starts_with_sound s [] h = (s, refl)
starts_with_sound [] (b ∷ p) h = absurd (cc (h))
starts_with_sound (a ∷ s) (b ∷ p) h =
    let (here, later) = (and_iff (a == b) (starts_with s p)).0 h in
    let (after, e) = starts_with_sound s p later in
    let same : a ≡ b = ground (arith, here) in (after, cc (same, e))

starts_with_self : (p after : Text) → starts_with (p ++ after) p ≡ true
unfolding starts_with
starts_with_self [] after = refl
starts_with_self (b ∷ p) after = ground (arith, starts_with_self p after)

contains_start : (p s : Text) → starts_with s p ≡ true → contains p s ≡ true
unfolding contains
contains_start p [] h = h
contains_start p (c ∷ s) h = (or_iff (starts_with (c ∷ s) p) (contains p s)).1 (inl h)

contains_iff :
    (p s : Text)
    → (contains p s ≡ true) ↔ ((before : Text) × (after : Text) × (s ≡ before ++ (p ++ after)))
unfolding starts_with contains
contains_iff p s = (sound s, λ h. subst (λ t. contains p t ≡ true) (sym h.2) (complete h.0 h.1))
  where
    sound :
        (s : Text)
        → contains p s ≡ true
        → (before : Text) × (after : Text) × (s ≡ before ++ (p ++ after))
    sound [] h = let (after, e) = starts_with_sound [] p h in ([], after, e)
    sound (c ∷ s) h = elim ((or_iff (starts_with (c ∷ s) p) (contains p s)).0 h) [
      | inl here ↦ let (after, e) = starts_with_sound (c ∷ s) p here in ([], after, e)
      | inr later ↦ let (before, after, e) = sound s later in (c ∷ before, after, ap (λ t. c ∷ t) e)
    ]

    complete : (before after : Text) → contains p (before ++ (p ++ after)) ≡ true
    complete [] after = contains_start p (p ++ after) (starts_with_self p after)
    complete (c ∷ before) after =
        (or_iff (starts_with (c ∷ (before ++ (p ++ after))) p)
            (contains p (before ++ (p ++ after)))).1
          (inr (complete before after))

role_iff : (o : Option Role) (r : Role) → (has_role o r ≡ true) ↔ Asked o r
role_iff none r = (λ h. tt, λ h. refl)
role_iff (some a) b = (sound a b, λ h. subst (λ r. same_role a r ≡ true) (sym h) (self a))
  where
    sound : (a b : Role) → same_role a b ≡ true → b ≡ a
    sound super_admin super_admin h = refl
    sound admin admin h = refl
    sound user user h = refl
    sound super_admin admin h = absurd (cc (h))
    sound super_admin user h = absurd (cc (h))
    sound admin super_admin h = absurd (cc (h))
    sound admin user h = absurd (cc (h))
    sound user super_admin h = absurd (cc (h))
    sound user admin h = absurd (cc (h))

    self : (a : Role) → same_role a a ≡ true
    self super_admin = refl
    self admin = refl
    self user = refl

status_iff : (o : Option UserStatus) (s : UserStatus) → (has_status o s ≡ true) ↔ Asked o s
status_iff none s = (λ h. tt, λ h. refl)
status_iff (some a) b = (sound a b, λ h. subst (λ r. same_status a r ≡ true) (sym h) (self a))
  where
    sound : (a b : UserStatus) → same_status a b ≡ true → b ≡ a
    sound active active h = refl
    sound inactive inactive h = refl
    sound suspended suspended h = refl
    sound pending_verification pending_verification h = refl
    sound active inactive h = absurd (cc (h))
    sound active suspended h = absurd (cc (h))
    sound active pending_verification h = absurd (cc (h))
    sound inactive active h = absurd (cc (h))
    sound inactive suspended h = absurd (cc (h))
    sound inactive pending_verification h = absurd (cc (h))
    sound suspended active h = absurd (cc (h))
    sound suspended inactive h = absurd (cc (h))
    sound suspended pending_verification h = absurd (cc (h))
    sound pending_verification active h = absurd (cc (h))
    sound pending_verification inactive h = absurd (cc (h))
    sound pending_verification suspended h = absurd (cc (h))

    self : (a : UserStatus) → same_status a a ≡ true
    self active = refl
    self inactive = refl
    self suspended = refl
    self pending_verification = refl

live_iff : (o : Option ℕ) → (is_live o ≡ true) ↔ (o ≡ none)
live_iff none = (λ h. refl, λ h. refl)
live_iff (some t) = (λ h. absurd (cc (h)), λ h. absurd (cc (h)))

found_iff : (o : Option Text) (u : User) → (is_found o u ≡ true) ↔ Searched o u
unfolding is_found contains_insensitive
found_iff none u = (λ h. tt, λ h. refl)
found_iff (some []) u = (λ h. tt, λ h. refl)
found_iff (some (c ∷ s)) u =
    let p = to_lower (c ∷ s) in
    let a = contains p (to_lower u.first_name) in
    let b = contains p (to_lower u.last_name) in
    let d = contains p (to_lower u.email) in
    let first = contains_iff p (to_lower u.first_name) in
    let last = contains_iff p (to_lower u.last_name) in
    let mail = contains_iff p (to_lower u.email) in
    (
      λ h. elim ((or_iff (a || b) d).0 h) [
        | inr k ↦ inr (inr (mail.0 k))
        | inl k ↦ elim ((or_iff a b).0 k) [ inl j ↦ inl (first.0 j) | inr j ↦ inr (inl (last.0 j)) ]
      ],
      λ h. (or_iff (a || b) d).1 (elim h [
        | inl k ↦ inl ((or_iff a b).1 (inl (first.1 k)))
        | inr (inl k) ↦ inl ((or_iff a b).1 (inr (last.1 k)))
        | inr (inr k) ↦ inr (mail.1 k)
      ]),
    )

-- The condition of the query selects exactly these users.
pub is_selected_iff :
    (filters : UserFilters) (u : User) → (is_selected filters u ≡ true) ↔ Selected filters u
unfolding is_selected
is_selected_iff filters u =
    let l = is_live u.deleted_at in
    let r = has_role filters.role u.role in
    let s = has_status filters.status u.status in
    let f = is_found filters.search u in
    (
      λ h.
          let (h3, hf) = (and_iff (l && r && s) f).0 h in
          let (h2, hs) = (and_iff (l && r) s).0 h3 in
          let (hl, hr) = (and_iff l r).0 h2 in
          record {
            live = (live_iff u.deleted_at).0 hl;
            role = (role_iff filters.role u.role).0 hr;
            status = (status_iff filters.status u.status).0 hs;
            search = (found_iff filters.search u).0 hf;
          },
      λ k. (and_iff (l && r && s) f).1 (
        (and_iff (l && r) s).1 (
          (and_iff l r).1
              ((live_iff u.deleted_at).1 k.live, (role_iff filters.role u.role).1 k.role),
          (status_iff filters.status u.status).1 k.status,
        ),
        (found_iff filters.search u).1 k.search,
      ),
    )
