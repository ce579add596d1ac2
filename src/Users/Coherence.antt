-- ===== src/Users/Coherence.antt =====
-- The cache of profiles against the users table.
use mathlib.Core.Path.{subst}
use project_saas_backend.Common.{
  ℕ, ◌*◌, Text, codes, text_eq, text_eq_iff, Option, none, some, true, ◌≡◌, ◌⊎◌, refl, sym, ap, ◌∙◌,
  inl, inr, if◌then◌else◌, Bool-cases,
}
use project_saas_backend.Common.Result.{Result, ok, err}
use project_saas_backend.Errors
use project_saas_backend.Errors.{Thrown, thrown_api}
use project_saas_backend.Accounts.{User, UserTable}
use project_saas_backend.Accounts.Steps.{Replaced}
use project_saas_backend.Users.{
  PublicUserProfile, Attempt, done, failed, CacheManager, to_public_profile, user_key, is_live,
  State, store_or_old, cache_get, cache_set, live_row, load_profile, find_profile,
}

user_key_inj : (i j : Text) → text_eq (user_key i) (user_key j) ≡ text_eq i j
unfolding user_key codes text_eq
user_key_inj i j = refl

module _ (T : UserTable) (C : CacheManager) where
  -- The profile of a row that is not soft-deleted.
  abbrev pub live_profile : Option User → Option PublicUserProfile
  live_profile none = none
  live_profile (some u) = if is_live u.deleted_at then some (to_public_profile u) else none

  -- Every cached profile is the one that the table has now.
  pub record Coherent (s : State T C) : Type 0 where
    pub agrees :
        (i : Text) (p : PublicUserProfile)
        → C.peek s.cache (user_key i) ≡ some p
        → live_profile (T.find_unique s.db i) ≡ some p

  -- The cache after a deletion that succeeded has nothing for the key, and all else as before.
  pub record Cleared (s s' : C.Store) (i : Text) : Type 0 where
    pub at :
        (j : Text) → C.peek s' (user_key j) ≡ (if text_eq i j then none else C.peek s (user_key j))

  pub cleared : (s s' : C.Store) (i : Text) → C.del s (user_key i) ≡ done s' → Cleared s s' i
  cleared s s' i e = record {
    at = λ j.
        C.peek-del s s' (user_key i) (user_key j) e
        ∙ ap (λ b. if b then none else C.peek s (user_key j)) (user_key_inj i j);
  }

  -- Other rows as before, and nothing cached for the one that changed: still coherent.
  pub clear_Coherent :
      (s : State T C) (db' : T.Db) (cache' : C.Store) (i : Text) (u : User)
      → Coherent s
      → Replaced T s.db db' i u
      → Cleared s.cache cache' i
      → Coherent (record { db = db'; cache = cache' })
  clear_Coherent s db' cache' i u coherent r c = record {
    agrees = λ j p h. elim (Bool-cases (text_eq i j)) [
      | inl same ↦ cc (h, c.at j, same)
      | inr other ↦
          let h' : C.peek s.cache (user_key j) ≡ some p = cc (c.at j) in
          rw (r.at j, other) (coherent.agrees j p h')
    ];
  }

  abbrev pub profile_or_404 : Option PublicUserProfile → Result Thrown PublicUserProfile
  profile_or_404 none = err (thrown_api Errors.user_not_found)
  profile_or_404 (some p) = ok p

  -- Caching the profile of a row keeps the cache coherent, whether or not the manager stores it.
  set_Coherent :
      (s : State T C) (i : Text) (p : PublicUserProfile) (ttl : ℕ)
      → Coherent s
      → live_profile (T.find_unique s.db i) ≡ some p
      → Coherent (cache_set T C (user_key i) p ttl s)
  unfolding cache_set
  set_Coherent s i p ttl coherent live = set_at (C.set s.cache (user_key i) p (ttl * 1000)) refl
    where
      set_at :
          (a : Attempt C.Store)
          → C.set s.cache (user_key i) p (ttl * 1000) ≡ a
          → Coherent (record { db = s.db; cache = store_or_old T C s.cache a })
      set_at failed e = coherent
      set_at (done c') e = record {
        agrees = λ j q h.
            let at = C.peek-set s.cache c' (user_key i) (user_key j) p (ttl * 1000) e in
            elim (Bool-cases (text_eq i j)) [
              | inl same ↦
                  let id : i ≡ j = (text_eq_iff i j).0 same in
                  let q' : some p ≡ some q = cc (h, at, user_key_inj i j, same) in
                  subst (λ x. live_profile (T.find_unique s.db x) ≡ some q) id (live ∙ q')
              | inr other ↦ coherent.agrees j q (cc (h, at, user_key_inj i j, other))
            ];
      }

  -- What a read promises: the answer that the table gives, an unchanged table, a coherent cache.
  pub record Reads (s : State T C) (i : Text) : Type 0 where
    pub answer : (find_profile T C i s).0 ≡ profile_or_404 (live_profile (T.find_unique s.db i))
    pub db : (find_profile T C i s).1.db ≡ s.db
    pub coherent : Coherent (find_profile T C i s).1

  pub live_profile-cases :
      (o : Option User)
      → ((u : User) × (o ≡ some u)
          × (is_live u.deleted_at ≡ true)
          × (live_profile o ≡ some (to_public_profile u)))
        ⊎ ((live_profile o ≡ none)
            × ((s : State T C) → live_row T C o s ≡ (err (thrown_api Errors.user_not_found), s)))
  live_profile-cases none = inr (refl, λ s. refl)
  live_profile-cases (some u) = elim (Bool-cases (is_live u.deleted_at)) [
    | inl live ↦ inl (u, refl, live, rw live refl)
    | inr dead ↦ inr (rw dead refl, λ s. rw dead refl)
  ]

  load_live :
      (s : State T C) (i : Text) (u : User)
      → T.find_unique s.db i ≡ some u
      → is_live u.deleted_at ≡ true
      → load_profile T C i s
        ≡ (ok (to_public_profile u), cache_set T C (user_key i) (to_public_profile u) 300 s)
  load_live s i u found live = rw found (rw live refl)

  db-cache_set :
      (s : State T C) (k : Text) (p : PublicUserProfile) (ttl : ℕ)
      → (cache_set T C k p ttl s).db ≡ s.db
  unfolding cache_set
  db-cache_set s k p ttl = refl

  load_Reads :
      (s : State T C) (i : Text)
      → Coherent s
      → find_profile T C i s ≡ load_profile T C i s
      → Reads s i
  load_Reads s i coherent e = elim (live_profile-cases (T.find_unique s.db i)) [
    | inl p ↦
        let (u, found, live, shown) = p in
        let loaded = e ∙ load_live s i u found live in
        record {
          answer = ap (λ x. x.0) loaded ∙ sym (ap profile_or_404 shown);
          db = ap (λ x. x.1.db) loaded ∙ db-cache_set s (user_key i) (to_public_profile u) 300;
          coherent =
              subst Coherent (sym (ap (λ x. x.1) loaded))
                (set_Coherent s i (to_public_profile u) 300 coherent shown);
        }
    | inr p ↦
        let (hidden, missing) = p in
        let loaded = e ∙ rw (missing s) refl in
        record {
          answer = ap (λ x. x.0) loaded ∙ sym (ap profile_or_404 hidden);
          db = ap (λ x. x.1.db) loaded;
          coherent = subst Coherent (sym (ap (λ x. x.1) loaded)) coherent;
        }
  ]

  -- With a coherent cache a read answers as the table does, the profile of a row that is not
  -- soft-deleted and 404 otherwise, whether the cache hits, misses or fails; it changes no row and
  -- leaves the cache coherent.
  pub find_profile-Reads : (s : State T C) (i : Text) → Coherent s → Reads s i
  unfolding find_profile cache_get
  find_profile-Reads s i coherent = got (C.get s.cache (user_key i)) refl
    where
      got : (a : Attempt (Option PublicUserProfile)) → C.get s.cache (user_key i) ≡ a → Reads s i
      got (done (some p)) e =
          let held = sym (C.get-peek s.cache (user_key i) (some p) e) in
          let hit : find_profile T C i s ≡ (ok p, s) = rw e refl in
          record {
            answer = ap (λ x. x.0) hit ∙ sym (ap profile_or_404 (coherent.agrees i p held));
            db = ap (λ x. x.1.db) hit;
            coherent = subst Coherent (sym (ap (λ x. x.1) hit)) coherent;
          }
      got (done none) e = load_Reads s i coherent (rw e refl)
      got failed e = load_Reads s i coherent (rw e refl)
