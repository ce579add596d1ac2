-- ===== src/Accounts/Memory.antt =====
-- A table in memory that satisfies `UserTable`, which shows that the interface can be met: a log of
-- row versions, the newest first. The newest version of a row is the one that counts.
use project_saas_backend.Common.{
  ℕ, ap, ◌∙◌, Text, text_eq, text_eq_iff, text_eq_refl, Option, none, some, List, [], ◌∷◌, Bool,
  true, false, ◌≡◌, ◌≢◌, refl, arith, ◌&&◌, ◌||◌, if◌then◌else◌, Bool-cases, Option-cases, inl, inr,
  is_some, ◌⊎◌,
}
use project_saas_backend.Accounts.{User, UserTable, KeepsKeys}

unfoldable pub find_unique : List User → Text → Option User
find_unique [] i = none
find_unique (u ∷ l) i = if text_eq u.id i then some u else find_unique l i

pub find_unique-id : (db : List User) (i : Text) (u : User) → find_unique db i ≡ some u → u.id ≡ i
unfolding find_unique
find_unique-id [] i u h = cc
find_unique-id (v ∷ l) i u h = ground (arith, text_eq_iff v.id i, find_unique-id l i u)

abbrev keep_if : (User → Bool) → Option User → Option User → Option User
keep_if p none rest = rest
keep_if p (some u) rest = if p u then some u else rest

-- The first row of `l`, in its newest version, that passes the test.
search : (User → Bool) → List User → List User → Option User
search p [] db = none
search p (r ∷ l) db = let rest = search p l db in keep_if p (find_unique db r.id) rest

module _ (p : User → Bool) where
  keep_if-cases :
      (o rest : Option User) (u : User)
      → keep_if p o rest ≡ some u
      → ((o ≡ some u) × (p u ≡ true)) ⊎ (rest ≡ some u)
  keep_if-cases none rest u h = inr h
  keep_if-cases (some v) rest u h = elim (Bool-cases (p v)) [
    | inl e ↦ inl (cc (h, e), cc (h, e))
    | inr e ↦ inr (rw e at h)
  ]

  keep_if-ne-none : (o rest : Option User) → rest ≢ none → keep_if p o rest ≢ none
  keep_if-ne-none none rest h e = h e
  keep_if-ne-none (some v) rest h e = ground arith

  keep_if-some :
      (o rest : Option User) (u : User) → o ≡ some u → p u ≡ true → keep_if p o rest ≢ none
  keep_if-some none rest u h ok e = cc
  keep_if-some (some v) rest u h ok e = cc

  search_sound :
      (l db : List User) (u : User)
      → search p l db ≡ some u
      → (find_unique db u.id ≡ some u) × (p u ≡ true)
  unfolding search
  search_sound [] db u h = absurd (cc)
  search_sound (r ∷ l) db u h = elim (keep_if-cases (find_unique db r.id) (search p l db) u h) [
    | inl q ↦ (cc (find_unique-id db r.id u q.0, q.0), q.1)
    | inr q ↦ search_sound l db u q
  ]

  search_complete :
      (l db : List User) (i : Text) (w u : User)
      → find_unique l i ≡ some w
      → find_unique db i ≡ some u
      → p u ≡ true
      → search p l db ≢ none
  unfolding search find_unique
  search_complete [] db i w u h found ok e = cc
  search_complete (r ∷ l) db i w u h found ok e = elim (Bool-cases (text_eq r.id i)) [
    | inl same ↦
        let id : r.id ≡ i = (text_eq_iff r.id i).0 same in
        let here : find_unique db r.id ≡ some u = cc in
        keep_if-some (find_unique db r.id) (search p l db) u here ok e
    | inr other ↦
        keep_if-ne-none (find_unique db r.id) (search p l db)
          (search_complete l db i w u (rw other at h) found ok) e
  ]

abbrev has_email : Text → User → Bool
has_email e u = text_eq u.email e

abbrev is_none : Option ℕ → Bool
is_none none = true
is_none (some n) = false

abbrev is_active_at : Text → User → Bool
is_active_at e u = text_eq u.email e && is_none u.deleted_at

unfoldable pub find_active : List User → Text → Option User
unfolding search
find_active db e = search (is_active_at e) db db

unfoldable pub insert : List User → User → Option (List User)
unfolding search find_unique
insert db u =
    if is_some (find_unique db u.id) || is_some (search (has_email u.email) db db)
    then none
    else some (u ∷ db)

abbrev updated : List User → (User → User) → Option User → Option (User × List User)
updated db f none = none
updated db f (some u) = some (f u, f u ∷ db)

unfoldable pub update : List User → Text → (User → User) → Option (User × List User)
unfolding find_unique
update db i f = updated db f (find_unique db i)

pub find_active_sound :
    (db : List User) (e : Text) (u : User)
    → find_active db e ≡ some u
    → (find_unique db u.id ≡ some u) × (u.email ≡ e) × (u.deleted_at ≡ none)
unfolding find_active
find_active_sound db e u h =
    let (found, ok) = search_sound (is_active_at e) db db u h in
    (found, ground (arith, text_eq_iff u.email e), ground arith)

pub find_active_complete :
    (db : List User) (i : Text) (u : User)
    → find_unique db i ≡ some u
    → u.deleted_at ≡ none
    → find_active db u.email ≢ none
unfolding find_active
find_active_complete db i u found alive =
    search_complete (is_active_at u.email) db db i u u found found
      (ground (arith, text_eq_refl u.email))

is_some-of_ne-none {ℓ} : {A : Type ℓ} (o : Option A) → o ≢ none → is_some o ≡ true
is_some-of_ne-none none h = absurd (h refl)
is_some-of_ne-none (some a) h = refl

pub insert_taken :
    (db : List User) (i : Text) (u v : User)
    → find_unique db i ≡ some v
    → v.email ≡ u.email
    → insert db u ≡ none
unfolding insert
insert_taken db i u v found same =
    let hit =
      search_complete (has_email u.email) db db i v v found found
        ((text_eq_iff v.email u.email).1 same) in
    ground (arith, is_some-of_ne-none (search (has_email u.email) db db) hit)

pub insert_free :
    (db : List User) (u : User)
    → find_unique db u.id ≡ none
    → ((i : Text) (v : User) → find_unique db i ≡ some v → v.email ≢ u.email)
    → (db' : List User) × (insert db u ≡ some db')
unfolding insert
insert_free db u fresh free = elim (Option-cases (search (has_email u.email) db db)) [
  | inl missing ↦ (u ∷ db, rw fresh (rw missing refl))
  | inr q ↦
      let (v, hit) = q in
      let (found, ok) = search_sound (has_email u.email) db db v hit in
      absurd (free v.id v found ((text_eq_iff v.email u.email).0 ok))
]

pub find-insert :
    (db db' : List User) (u : User) (j : Text)
    → insert db u ≡ some db'
    → find_unique db' j ≡ (if text_eq u.id j then some u else find_unique db j)
unfolding insert find_unique
find-insert db db' u j h = ground arith

pub update_found :
    (db : List User) (i : Text) (f : User → User) (u : User)
    → KeepsKeys f
    → find_unique db i ≡ some u
    → (db' : List User) × (update db i f ≡ some (f u, db'))
      × ((j : Text) → find_unique db' j ≡ (if text_eq i j then some (f u) else find_unique db j))
unfolding update find_unique
update_found db i f u keeps found =
    let id : (f u).id ≡ i = (keeps u).0 ∙ find_unique-id db i u found in
    (
      f u ∷ db,
      rw found refl,
      λ j. ap (λ x. if text_eq x j then some (f u) else find_unique db j) id,
    )

pub update_missing :
    (db : List User) (i : Text) (f : User → User) → find_unique db i ≡ none → update db i f ≡ none
unfolding update
update_missing db i f missing = rw missing refl

abbrev pub memory_table : UserTable
memory_table = record {
  Db = List User;
  find_unique = find_unique;
  find_active = find_active;
  insert = insert;
  update = update;
  find_unique-id = find_unique-id;
  find_active_sound = find_active_sound;
  find_active_complete = find_active_complete;
  insert_taken = insert_taken;
  insert_free = insert_free;
  find-insert = find-insert;
  update_found = update_found;
  update_missing = update_missing;
}
