-- ===== src/Auth/Session.antt =====
-- The tokens of a session: what issuing, refreshing and closing one does to the users table.
use project_saas_backend.Common.{
  Text, Option, none, some, [], ◌∷◌, true, ◌≡◌, ◌≢◌, refl, Bool-cases, inl, inr, ◌⊎◌,
}
use project_saas_backend.Common.Result.{ok, err}
use project_saas_backend.Errors.Registry
use project_saas_backend.Accounts.{
  User, UserTable, set_refresh_token, set_last_login, update_refresh_token, update_last_login,
}
use project_saas_backend.Accounts.Steps.{Replaced, Replaced_self, Replaced-trans, update_row_found}
use project_saas_backend.Auth.{
  Crypto, Draw, AuthTokens, generate_tokens, save_refresh_token, start_session, to_public_user,
  rotate, refusal,
}

module _ (T : UserTable) (C : Crypto) where
  open T use {Db, find_unique, find_unique-id}
  open C use {hash, compare, compare-hash, hash-IsText}

  -- The row of a user who was handed these tokens.
  abbrev pub with_token : Draw → AuthTokens → User → User
  with_token d t u = set_refresh_token d.now (some (hash d.token_salt t.refresh_token)) u

  abbrev pub logged_in : Draw → AuthTokens → User → User
  logged_in d t u = set_last_login d.now (with_token d t u)

  abbrev pub tokens_of : Draw → User → AuthTokens
  tokens_of d u = generate_tokens T C d u.id u.email u.role

  pub save_refresh_token_found :
      (d : Draw) (t : AuthTokens) (u : User) (db : Db)
      → find_unique db u.id ≡ some u
      → (db' : Db) × (save_refresh_token T C d u.id t.refresh_token db
          ≡ (ok (with_token d t u), db'))
        × Replaced T db db' u.id (with_token d t u)
  unfolding save_refresh_token update_refresh_token
  save_refresh_token_found d t u db found =
      update_row_found T u.id (set_refresh_token d.now (some (hash d.token_salt t.refresh_token)))
        db u (λ v. (refl, refl)) found

  pub start_session_found :
      (d : Draw) (u : User) (db : Db)
      → find_unique db u.id ≡ some u
      → (db' : Db) × (start_session T C d u db
          ≡ (ok (record { user = to_public_user u; tokens = tokens_of d u }), db'))
        × Replaced T db db' u.id (logged_in d (tokens_of d u) u)
  unfolding update_last_login
  start_session_found d u db found =
      let (db1, e1, r1) = save_refresh_token_found d (tokens_of d u) u db found in
      let (db2, e2, r2) =
        update_row_found T u.id (set_last_login d.now) db1 (with_token d (tokens_of d u) u)
          (λ v. (refl, refl)) (Replaced_self T r1) in
      (db2, rw (e1, e2) refl, Replaced-trans T db db1 db2 u.id _ _ r1 r2)

  -- What a request to refresh has to present: the id of a row, whatever its status and whether or
  -- not it is soft-deleted, and a token that bcrypt matches against the row's hash.
  pub record Accepted (db : Db) (i raw : Text) (u : User) : Type 0 where
    pub found : find_unique db i ≡ some u
    pub stored : Text
    pub kept : u.refresh_token ≡ some stored
    pub nonempty : stored ≢ []
    pub matches : compare raw stored ≡ true

  pub rotate_accepts :
      (d : Draw) (raw : Text) (u : User) (token : Option Text) (stored : Text) (db : Db)
      → token ≡ some stored
      → stored ≢ []
      → compare raw stored ≡ true
      → find_unique db u.id ≡ some u
      → (db' : Db) × (rotate T C d raw u token db ≡ (ok (tokens_of d u), db'))
        × Replaced T db db' u.id (with_token d (tokens_of d u) u)
  rotate_accepts d raw u none stored db e ne m found = absurd (cc)
  rotate_accepts d raw u (some []) stored db e ne m found = absurd (ne (cc))
  rotate_accepts d raw u (some (c ∷ s)) stored db e ne m found =
      let (db', saved, r) = save_refresh_token_found d (tokens_of d u) u db found in
      let m' : compare raw (c ∷ s) ≡ true = cc in (db', rw (m', saved) refl, r)

  pub rotate_cases :
      (d : Draw) (raw : Text) (u : User) (token : Option Text) (db : Db)
      → ((stored : Text) × (token ≡ some stored) × (stored ≢ []) × (compare raw stored ≡ true))
        ⊎ (rotate T C d raw u token db ≡ (err (refusal Registry.refresh_token_invalid), db))
  rotate_cases d raw u none db = inr refl
  rotate_cases d raw u (some []) db = inr refl
  rotate_cases d raw u (some (c ∷ s)) db = elim (Bool-cases (compare raw (c ∷ s))) [
    | inl m ↦ inl (c ∷ s, refl, (λ e. cc), m)
    | inr m ↦ inr (rw m refl)
  ]
