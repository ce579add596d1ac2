-- ===== src/Auth/Login.antt =====
-- `login`: which credentials open a session, and what every refusal leaves.
use project_saas_backend.Common.{
  to_lower, to_lower_idem, none, some, true, false, ◌≡◌, refl, ◌∙◌, Bool-cases, Option-cases, inl,
  inr, ◌⊎◌,
}
use project_saas_backend.Common.Result.{ok, err}
use project_saas_backend.Errors
use project_saas_backend.Errors.{thrown_api}
use project_saas_backend.Errors.Registry
use project_saas_backend.Accounts.{
  User, UserStatus, active, inactive, suspended, pending_verification, UserTable,
}
use project_saas_backend.Accounts.Steps.{Replaced}
use project_saas_backend.Auth.{Crypto, Draw, LoginDto, login, refusal, admit, to_public_user}
use project_saas_backend.Auth.Session.{logged_in, tokens_of, start_session_found}

abbrev pub MayLogIn : UserStatus → Type 0
MayLogIn active = Unit
MayLogIn pending_verification = Unit
MayLogIn _ = ⊥

module _ (T : UserTable) (C : Crypto) where
  open T use {Db, find_unique, find_active, find_active_sound}
  open C use {compare}

  -- The session that a login opened, for the row that holds the email address.
  pub record Opened (d : Draw) (dto : LoginDto) (db : Db) : Type 0 where
    pub user : User
    pub found : find_active db (to_lower dto.email) ≡ some user
    pub matches : compare dto.password user.password ≡ true
    pub allowed : MayLogIn user.status
    pub after : T.Db
    pub result :
        login T C d dto db
        ≡ (ok (record { user = to_public_user user; tokens = tokens_of T C d user }), after)
    pub replaced : Replaced T db after user.id (logged_in T C d (tokens_of T C d user) user)

  -- The refusal of each reason, with the table unchanged.
  abbrev pub Refused : Draw → LoginDto → Db → Type 0
  Refused d dto db =
      ((find_active db (to_lower dto.email) ≡ none)
        × (login T C d dto db ≡ (err (thrown_api Errors.invalid_credentials), db)))
      ⊎ ((u : User) × (find_active db (to_lower dto.email) ≡ some u)
          × (((compare dto.password u.password ≡ false)
                × (login T C d dto db ≡ (err (thrown_api Errors.invalid_credentials), db)))
              ⊎ ((compare dto.password u.password ≡ true)
                  × (((u.status ≡ suspended)
                        × (login T C d dto db ≡ (err (refusal Registry.account_suspended), db)))
                      ⊎ ((u.status ≡ inactive)
                          × (login T C d dto db
                              ≡ (err (refusal Registry.account_inactive), db)))))))

  admit_cases :
      (d : Draw) (u : User) (s : UserStatus) (db : Db)
      → find_unique db u.id ≡ some u
      → (MayLogIn s
          × ((db' : Db) × (admit T C d u s db
                ≡ (ok (record { user = to_public_user u; tokens = tokens_of T C d u }), db'))
              × Replaced T db db' u.id (logged_in T C d (tokens_of T C d u) u)))
        ⊎ (((s ≡ suspended) × (admit T C d u s db ≡ (err (refusal Registry.account_suspended), db)))
            ⊎ ((s ≡ inactive)
                × (admit T C d u s db ≡ (err (refusal Registry.account_inactive), db))))
  admit_cases d u suspended db found = inr (inl (refl, refl))
  admit_cases d u inactive db found = inr (inr (refl, refl))
  admit_cases d u active db found = inl (tt, start_session_found T C d u db found)
  admit_cases d u pending_verification db found = inl (tt, start_session_found T C d u db found)

  login_found-some :
      (d : Draw) (dto : LoginDto) (db : Db) (u : User)
      → find_active db (to_lower dto.email) ≡ some u
      → compare dto.password u.password ≡ true
      → login T C d dto db ≡ admit T C d u u.status db
  unfolding login
  login_found-some d dto db u found m = rw (to_lower_idem dto.email) (rw found (rw m refl))

  -- Every login either opens a session for an active row with this email address, a password that
  -- bcrypt matches and a status that is neither suspended nor inactive, or is refused with the
  -- table unchanged: an unknown address and a wrong password are refused with the same error, and a
  -- suspended or inactive account is told so only after the right password.
  pub login_cases : (d : Draw) (dto : LoginDto) (db : Db) → Opened d dto db ⊎ Refused d dto db
  login_cases d dto db = elim (Option-cases (find_active db (to_lower dto.email))) [
    | inl missing ↦
        inr (inl (missing, unfold login in rw (to_lower_idem dto.email) (rw missing refl)))
    | inr p ↦
        let (u, found) = p in
        elim (Bool-cases (compare dto.password u.password)) [
          | inr wrong ↦ inr (
              inr (
                u,
                found,
                inl (
                  wrong,
                  unfold login in rw (to_lower_idem dto.email) (rw found (rw wrong refl)),
                ),
              ))
          | inl m ↦
              let e = login_found-some d dto db u found m in
              let row = (find_active_sound db (to_lower dto.email) u found).0 in
              elim (admit_cases d u u.status db row) [
                | inl q ↦ inl (record {
                  user = u;
                  found = found;
                  matches = m;
                  allowed = q.0;
                  after = q.1.0;
                  result = e ∙ q.1.1;
                  replaced = q.1.2;
                })
                | inr (inl r) ↦ inr (inr (u, found, inr (m, inl (r.0, e ∙ r.1))))
                | inr (inr r) ↦ inr (inr (u, found, inr (m, inr (r.0, e ∙ r.1))))
              ]
        ]
  ]

  admit_opens :
      (d : Draw) (u : User) (s : UserStatus) (db : Db)
      → MayLogIn s
      → find_unique db u.id ≡ some u
      → (db' : Db) × (admit T C d u s db
          ≡ (ok (record { user = to_public_user u; tokens = tokens_of T C d u }), db'))
        × Replaced T db db' u.id (logged_in T C d (tokens_of T C d u) u)
  admit_opens d u active db h found = start_session_found T C d u db found
  admit_opens d u pending_verification db h found = start_session_found T C d u db found
  admit_opens d u inactive db h found = absurd h
  admit_opens d u suspended db h found = absurd h

  -- The right password for an active row whose status is neither suspended nor inactive opens a
  -- session: tokens are returned, the row holds the hash of the refresh token and the time of the
  -- login, and no other row changes.
  pub login_opens :
      (d : Draw) (dto : LoginDto) (db : Db) (u : User)
      → find_active db (to_lower dto.email) ≡ some u
      → compare dto.password u.password ≡ true
      → MayLogIn u.status
      → (o : Opened d dto db) × (o.user ≡ u)
  login_opens d dto db u found m allowed =
      let row = (find_active_sound db (to_lower dto.email) u found).0 in
      let (db', e, r) = admit_opens d u u.status db allowed row in
      (
        record {
          user = u;
          found = found;
          matches = m;
          allowed = allowed;
          after = db';
          result = login_found-some d dto db u found m ∙ e;
          replaced = r;
        },
        refl,
      )
