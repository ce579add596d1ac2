-- ===== src/Users/Writes.antt =====
-- Updating and removing a profile: what a later read is told.
use project_saas_backend.Common.{ℕ, Text, none, some, true, false, ◌≡◌, refl, ap, ◌∙◌, inl, inr}
use project_saas_backend.Common.Result.{ok, err}
use project_saas_backend.Errors
use project_saas_backend.Errors.{Thrown, thrown_api}
use project_saas_backend.Accounts.{User, UserTable, set_deleted, soft_delete}
use project_saas_backend.Accounts.Steps.{Replaced, Replaced_self, update_row_found}
use project_saas_backend.Users.{
  PublicUserProfile, done, failed, CacheManager, UpdateUserDto, set_profile, is_refused,
  to_public_profile, user_key, is_live, State, cache_del, find_profile, update, remove,
}
use project_saas_backend.Users.Coherence.{
  live_profile, live_profile-cases, Coherent, clear_Coherent, cleared, profile_or_404,
  find_profile-Reads,
}

module _ (T : UserTable) (C : CacheManager) where
  -- A write of a row that is not soft-deleted, through a cache whose deletion succeeds.
  module _ (s : State T C) (i : Text) (u : User) (c' : C.Store)
      (found : T.find_unique s.db i ≡ some u) (live : is_live u.deleted_at ≡ true)
      (del : C.del s.cache (user_key i) ≡ done c') (coherent : Coherent T C s) where
    update_run :
        (refused : Thrown) (now : ℕ) (dto : UpdateUserDto)
        → is_refused dto ≡ false
        → (db' : T.Db) × (update T C refused now i dto s
            ≡ (ok (to_public_profile (set_profile now dto u)), record { db = db'; cache = c' }))
          × Replaced T s.db db' i (set_profile now dto u)
    unfolding update cache_del
    update_run refused now dto fine =
        let (db', e, r) =
          update_row_found T i (set_profile now dto) s.db u (λ v. (refl, refl)) found in
        (db', rw found (rw live (rw fine (rw e (rw del refl)))), r)

    remove_run :
        (now : ℕ)
        → (db' : T.Db) × (remove T C now i s ≡ (ok tt, record { db = db'; cache = c' }))
          × Replaced T s.db db' i (set_deleted now u)
    unfolding remove cache_del soft_delete
    remove_run now =
        let (db', e, r) = update_row_found T i (set_deleted now) s.db u (λ v. (refl, refl)) found in
        (db', rw found (rw live (rw e (rw del refl))), r)

    after_write :
        (db' : T.Db) (w : User)
        → Replaced T s.db db' i w
        → let s' : State T C = record { db = db'; cache = c' } in
          Coherent T C s'
          × ((find_profile T C i s').0 ≡ profile_or_404 T C (live_profile T C (some w)))
    after_write db' w r =
        let ok_after = clear_Coherent T C s db' c' i w coherent r (cleared T C s.cache c' i del) in
        let read = (find_profile-Reads T C (record { db = db'; cache = c' }) i ok_after).answer in
        (ok_after, read ∙ ap (λ o. profile_or_404 T C (live_profile T C o)) (Replaced_self T r))

    -- On a row that is not soft-deleted, with a coherent cache whose deletion of the entry succeeds,
    -- an update that sets no name to null returns the profile of the changed row and leaves the cache
    -- coherent, and the next read returns that same profile.
    pub update-find_profile :
        (refused : Thrown) (now : ℕ) (dto : UpdateUserDto)
        → is_refused dto ≡ false
        → let p = to_public_profile (set_profile now dto u) in
          let s' = (update T C refused now i dto s).1 in
          ((update T C refused now i dto s).0 ≡ ok p)
          × Coherent T C s'
          × ((find_profile T C i s').0 ≡ ok p)
    update-find_profile refused now dto fine =
        let (db', e, r) = update_run refused now dto fine in
        let (fresh, read) = after_write db' (set_profile now dto u) r in
        rw e (refl, fresh, read ∙ rw live refl)

    -- On a row that is not soft-deleted, with a coherent cache whose deletion of the entry succeeds, a
    -- removal succeeds and leaves the cache coherent, and the next read answers 404.
    pub remove-find_profile :
        (now : ℕ)
        → let s' = (remove T C now i s).1 in
          ((remove T C now i s).0 ≡ ok tt)
          × Coherent T C s'
          × ((find_profile T C i s').0 ≡ err (thrown_api Errors.user_not_found))
    remove-find_profile now =
        let (db', e, r) = remove_run now in
        let (fresh, read) = after_write db' (set_deleted now u) r in rw e (refl, fresh, read)

  -- A row that is absent or soft-deleted is answered with 404 by both writes, and nothing changes.
  pub writes_refuse :
      (s : State T C) (i : Text) (refused : Thrown) (now : ℕ) (dto : UpdateUserDto)
      → live_profile T C (T.find_unique s.db i) ≡ none
      → (update T C refused now i dto s ≡ (err (thrown_api Errors.user_not_found), s))
        × (remove T C now i s ≡ (err (thrown_api Errors.user_not_found), s))
  unfolding update remove
  writes_refuse s i refused now dto hidden = elim (live_profile-cases T C (T.find_unique s.db i)) [
    | inl p ↦ absurd (cc (hidden, p.3))
    | inr p ↦ (rw (p.1 s) refl, rw (p.1 s) refl)
  ]

  -- A removal succeeds also when the cache manager fails to delete the entry; the removed user's
  -- profile is then still answered for as long as the entry lives.
  pub remove_stale :
      (s : State T C) (i : Text) (u : User) (p : PublicUserProfile) (now : ℕ)
      → T.find_unique s.db i ≡ some u
      → is_live u.deleted_at ≡ true
      → C.del s.cache (user_key i) ≡ failed
      → C.get s.cache (user_key i) ≡ done (some p)
      → let s' = (remove T C now i s).1 in
        ((remove T C now i s).0 ≡ ok tt)
        × (T.find_unique s'.db i ≡ some (set_deleted now u))
        × ((find_profile T C i s').0 ≡ ok p)
  unfolding remove cache_del soft_delete find_profile
  remove_stale s i u p now found live del got =
      let (db', e, r) = update_row_found T i (set_deleted now) s.db u (λ v. (refl, refl)) found in
      let run : remove T C now i s ≡ (ok tt, record { db = db'; cache = s.cache }) =
        rw found (rw live (rw e (rw del refl))) in
      rw run (refl, Replaced_self T r, rw got refl)
