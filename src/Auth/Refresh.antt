-- ===== src/Auth/Refresh.antt =====
-- Refresh-token rotation and logout: which requests `refreshTokens` accepts, and what it leaves.
use project_saas_backend.Common.{
  Text, take, none, some, true, ◌≡◌, ◌≢◌, refl, sym, Option-cases, inl, inr, ◌⊎◌,
}
use mathlib.Core.Path.{subst, subst₂}
use project_saas_backend.Common.Result.{ok, err}
use project_saas_backend.Errors.Registry
use project_saas_backend.Accounts.{User, UserTable, set_refresh_token}
use project_saas_backend.Accounts.Steps.{Replaced, Replaced_self, update_row_found}
use project_saas_backend.Auth.{Crypto, Draw, AuthTokens, refresh_tokens, logout, refusal}
use project_saas_backend.Auth.Session.{
  with_token, tokens_of, Accepted, rotate_accepts, rotate_cases,
}

module _ (T : UserTable) (C : Crypto) where
  open T use {Db, find_unique, find_unique-id}
  open C use {hash, compare, compare-hash, hash-IsText}

  abbrev Refused : Draw → Text → Text → Db → Type 0
  Refused d i raw db =
      refresh_tokens T C d i raw db ≡ (err (refusal Registry.refresh_token_invalid), db)

  -- A request that presents a matching token for an existing row is given new tokens, and the row
  -- then holds the hash of the new refresh token; no other row changes. Nothing is asked of the
  -- row's `status` or `deletedAt`.
  pub refresh_accepts :
      (d : Draw) (i raw : Text) (u : User) (db : Db)
      → Accepted T C db i raw u
      → (db' : Db) × (refresh_tokens T C d i raw db ≡ (ok (tokens_of T C d u), db'))
        × Replaced T db db' i (with_token T C d (tokens_of T C d u) u)
  unfolding refresh_tokens
  refresh_accepts d i raw u db a =
      let same = find_unique-id db i u a.found in
      let found = subst (λ j. find_unique db j ≡ some u) (sym same) a.found in
      let (db', e, r) =
        rotate_accepts T C d raw u u.refresh_token a.stored db a.kept a.nonempty a.matches found in
      (
        db',
        rw a.found e,
        subst (λ j. Replaced T db db' j (with_token T C d (tokens_of T C d u) u)) same r,
      )

  -- Every request either presents a matching token, or is refused and changes nothing.
  pub refresh_cases :
      (d : Draw) (i raw : Text) (db : Db)
      → ((u : User) × Accepted T C db i raw u) ⊎ Refused d i raw db
  unfolding refresh_tokens
  refresh_cases d i raw db = elim (Option-cases (find_unique db i)) [
    | inl missing ↦ inr (rw missing refl)
    | inr p ↦
        let (u, found) = p in
        elim (rotate_cases T C d raw u u.refresh_token db) [
          | inl q ↦
              let (stored, kept, ne, m) = q in
              inl (
                u,
                record { found = found; stored = stored; kept = kept; nonempty = ne; matches = m },
              )
          | inr e ↦ inr (rw found e)
        ]
  ]

  refresh_refuses :
      (d : Draw) (i raw : Text) (u : User) (db : Db)
      → find_unique db i ≡ some u
      → ((stored : Text) → u.refresh_token ≡ some stored → compare raw stored ≢ true)
      → Refused d i raw db
  refresh_refuses d i raw u db found no_match = elim (refresh_cases d i raw db) [
    | inl p ↦
        let (v, a) = p in
        let same : v ≡ u = cc (a.found) in absurd (no_match a.stored (cc (a.kept)) a.matches)
    | inr e ↦ e
  ]

  -- A row that holds the hash of the token of `t` accepts what agrees with it in 72 bytes.
  holder_accepts :
      (d d2 : Draw) (i raw2 : Text) (t : AuthTokens) (u : User) (db : Db)
      → find_unique db i ≡ some (with_token T C d t u)
      → take 72 raw2 ≡ take 72 t.refresh_token
      → (t2 : AuthTokens) × (db2 : Db) × (refresh_tokens T C d2 i raw2 db ≡ (ok t2, db2))
  holder_accepts d d2 i raw2 t u db found agree =
      let (c, s, is_text) = hash-IsText d.token_salt t.refresh_token in
      let (db2, e, _) = refresh_accepts d2 i raw2 (with_token T C d t u) db (record {
        found = found;
        stored = hash d.token_salt t.refresh_token;
        kept = refl;
        nonempty = λ z. cc (is_text);
        matches = (compare-hash raw2 t.refresh_token d.token_salt).1 agree;
      }) in
      (tokens_of T C d2 (with_token T C d t u), db2, e)

  holder_refuses :
      (d d2 : Draw) (i raw2 : Text) (t : AuthTokens) (u : User) (db : Db)
      → find_unique db i ≡ some (with_token T C d t u)
      → take 72 raw2 ≢ take 72 t.refresh_token
      → Refused d2 i raw2 db
  holder_refuses d d2 i raw2 t u db found differ =
      refresh_refuses d2 i raw2 (with_token T C d t u) db found
        λ stored e m. differ ((compare-hash raw2 t.refresh_token d.token_salt).0 (cc))

  refresh_holds :
      (d : Draw) (i raw : Text) (t : AuthTokens) (db db' : Db)
      → refresh_tokens T C d i raw db ≡ (ok t, db')
      → (u : User) × (find_unique db' i ≡ some (with_token T C d t u))
  refresh_holds d i raw t db db' h = elim (refresh_cases d i raw db) [
    | inr e ↦ absurd (cc)
    | inl p ↦
        let (u, a) = p in
        let (db1, e, r) = refresh_accepts d i raw u db a in
        let same_t : tokens_of T C d u ≡ t = cc in
        let same_db : db1 ≡ db' = cc in
        (
          u,
          subst₂ (λ x y. find_unique y i ≡ some (with_token T C d x u)) same_t same_db
              (Replaced_self T r),
        )
  ]

  -- After a refresh that returned the tokens `t`, a later request for the same user is accepted if
  -- the first 72 bytes of what it presents are those of the new refresh token, and refused, with
  -- nothing changed, if they are not. The rotated-out token is such a request like any other.
  pub refresh_rotation :
      (d d2 : Draw) (i raw raw2 : Text) (t : AuthTokens) (db db' : Db)
      → refresh_tokens T C d i raw db ≡ (ok t, db')
      → (take 72 raw2 ≡ take 72 t.refresh_token
          → (t2 : AuthTokens) × (db2 : Db) × (refresh_tokens T C d2 i raw2 db' ≡ (ok t2, db2)))
        × (take 72 raw2 ≢ take 72 t.refresh_token → Refused d2 i raw2 db')
  refresh_rotation d d2 i raw raw2 t db db' h =
      let (u, held) = refresh_holds d i raw t db db' h in
      (holder_accepts d d2 i raw2 t u db' held, holder_refuses d d2 i raw2 t u db' held)

  -- After a logout every refresh for that user is refused, whatever it presents.
  pub logout_ends :
      (d : Draw) (i : Text) (u : User) (db : Db)
      → find_unique db i ≡ some u
      → (db' : Db) × (logout T C d i db ≡ (ok tt, db'))
        × ((d2 : Draw) (raw : Text) → Refused d2 i raw db')
  unfolding logout
  logout_ends d i u db found =
      let (db', e, r) =
        update_row_found T i (set_refresh_token d.now none) db u (λ v. (refl, refl)) found in
      (
        db',
        rw e refl,
        λ d2 raw.
            refresh_refuses d2 i raw (set_refresh_token d.now none u) db' (Replaced_self T r)
              (λ stored e. cc),
      )
