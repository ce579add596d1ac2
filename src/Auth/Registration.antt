-- ===== src/Auth/Registration.antt =====
-- `register`: the new row, and the address that is already taken.
use project_saas_backend.Common.{
  Text, take, text_eq, text_eq_iff, text_eq_refl, to_lower, to_lower_idem, none, some, true, false,
  ◌≡◌, ◌≢◌, refl, sym, ap, ◌∙◌, arith, Bool-cases, Option-cases, inl, inr,
}
use project_saas_backend.Common.Result.{ok, err}
use project_saas_backend.Errors
use project_saas_backend.Errors.{thrown_api}
use project_saas_backend.Accounts.{
  User, user, pending_verification, UserTable, default_row, unique_violation,
}
use project_saas_backend.Accounts.Steps.{Replaced, Replaced_self, Replaced-other}
use project_saas_backend.Auth.{
  Crypto, Draw, RegisterDto, LoginDto, register, generate_tokens, to_public_user,
}
use project_saas_backend.Auth.Session.{logged_in, tokens_of, start_session_found}
use project_saas_backend.Auth.Login.{MayLogIn, Opened, login_opens}

module _ (T : UserTable) (C : Crypto) where
  open T use {Db, find_unique, find_active, find_active_sound, find_active_complete}
  open T use {find_unique-id, insert_taken, insert_free, find-insert}
  open C use {hash, compare, compare-hash}

  -- The row that a registration creates.
  abbrev pub new_row : Draw → RegisterDto → User
  new_row d dto = default_row d.user_id d.now (record {
    email = to_lower dto.email;
    password = hash d.password_salt dto.password;
    first_name = dto.first_name;
    last_name = dto.last_name;
    phone = dto.phone;
  })

  -- An address that an active row holds is refused as taken, whatever its case. One that only a
  -- soft-deleted row holds passes that test and then fails on the unique column of the table: the
  -- database's own error is thrown. Either way nothing is stored.
  pub register_refuses :
      (d : Draw) (dto : RegisterDto) (db : Db) (i : Text) (v : User)
      → find_unique db i ≡ some v
      → v.email ≡ to_lower dto.email
      → (find_active db (to_lower dto.email) ≢ none
          → register T C d dto db ≡ (err (thrown_api Errors.email_already_exists), db))
        × (find_active db (to_lower dto.email) ≡ none
            → register T C d dto db ≡ (err unique_violation, db))
  unfolding register
  register_refuses d dto db i v found taken = (
    λ held. elim (Option-cases (find_active db (to_lower dto.email))) [
      | inl missing ↦ absurd (held missing)
      | inr p ↦ rw (to_lower_idem dto.email) (rw (p.1) refl)
    ],
    λ missing.
        rw (to_lower_idem dto.email)
          (rw missing (rw (insert_taken db i (new_row d dto) v found taken) refl)),
  )

  abbrev pub IsFree : Db → Draw → RegisterDto → Type 0
  IsFree db d dto =
      (find_unique db d.user_id ≡ none)
      × ((i : Text) (v : User) → find_unique db i ≡ some v → v.email ≢ to_lower dto.email)

  find_active-none :
      (db : Db) (d : Draw) (dto : RegisterDto)
      → IsFree db d dto
      → find_active db (to_lower dto.email) ≡ none
  find_active-none db d dto free = elim (Option-cases (find_active db (to_lower dto.email))) [
    | inl missing ↦ missing
    | inr p ↦
        let (v, e) = p in
        let (row, same, _) = find_active_sound db (to_lower dto.email) v e in
        absurd (free.1 v.id v row same)
  ]

  register_creates :
      (d : Draw) (dto : RegisterDto) (db : Db)
      → IsFree db d dto
      → (db' : Db) × (register T C d dto db ≡ (
        ok (record {
          user = to_public_user (new_row d dto);
          tokens = tokens_of T C d (new_row d dto);
        }),
        db',
      ))
        × Replaced T db db' d.user_id
            (logged_in T C d (tokens_of T C d (new_row d dto)) (new_row d dto))
  unfolding register
  register_creates d dto db free =
      let (db1, e1) = insert_free db (new_row d dto) free.0 free.1 in
      let at1 = λ (j : Text). find-insert db db1 (new_row d dto) j e1 in
      let here = at1 d.user_id ∙ rw (text_eq_refl d.user_id) refl in
      let (db2, e2, r2) = start_session_found T C d (new_row d dto) db1 here in
      (
        db2,
        rw (to_lower_idem dto.email) (rw (find_active-none db d dto free) (rw (e1) (rw e2 refl))),
        record { at = λ j. ground (arith, at1 j, r2.at j) },
      )

  -- The row of an account that has just registered, column by column.
  abbrev pub registered_row : Draw → RegisterDto → User
  registered_row d dto = record {
    id = d.user_id;
    email = to_lower dto.email;
    password = hash d.password_salt dto.password;
    first_name = dto.first_name;
    last_name = dto.last_name;
    phone = dto.phone;
    avatar = none;
    role = user;
    status = pending_verification;
    email_verified = false;
    email_verified_at = none;
    last_login_at = some d.now;
    refresh_token = some (hash d.token_salt (C.sign_refresh d.user_id d.jti d.now));
    password_reset_token = none;
    password_reset_expiry = none;
    created_at = d.now;
    updated_at = d.now;
    deleted_at = none;
  }

  -- What follows a registration at a free address.
  pub record Registered (d : Draw) (dto : RegisterDto) (db : Db) : Type 0 where
    pub after : T.Db
    pub result : register T C d dto db ≡ (
      ok (record {
        user = to_public_user (new_row d dto);
        tokens = tokens_of T C d (new_row d dto);
      }),
      after,
    )
    pub row : find_unique after d.user_id ≡ some (registered_row d dto)
    pub others : (j : Text) → d.user_id ≢ j → find_unique after j ≡ find_unique db j
    pub login_works :
        (d2 : Draw) (creds : LoginDto)
        → to_lower creds.email ≡ to_lower dto.email
        → take 72 creds.password ≡ take 72 dto.password
        → (o : Opened T C d2 creds after) × (o.user.id ≡ d.user_id)

  -- The one row that holds the address after a registration is the new one.
  only_row :
      (d : Draw) (dto : RegisterDto) (db db' : Db) (w : User)
      → IsFree db d dto
      → ((j : Text) → d.user_id ≢ j → find_unique db' j ≡ find_unique db j)
      → find_unique db' w.id ≡ some w
      → w.email ≡ to_lower dto.email
      → d.user_id ≡ w.id
  only_row d dto db db' w free others found same = elim (Bool-cases (text_eq d.user_id w.id)) [
    | inl e ↦ (text_eq_iff d.user_id w.id).0 e
    | inr ne ↦
        let differ : d.user_id ≢ w.id = λ e. cc ((text_eq_iff d.user_id w.id).1 e) in
        absurd (free.1 w.id w (sym (others w.id differ) ∙ found) same)
  ]

  login_after :
      (d d2 : Draw) (dto : RegisterDto) (creds : LoginDto) (db db' : Db) (u : User)
      → IsFree db d dto
      → ((j : Text) → d.user_id ≢ j → find_unique db' j ≡ find_unique db j)
      → find_unique db' d.user_id ≡ some u
      → u.deleted_at ≡ none
      → u.email ≡ to_lower dto.email
      → MayLogIn u.status
      → compare creds.password u.password ≡ true
      → to_lower creds.email ≡ to_lower dto.email
      → (o : Opened T C d2 creds db') × (o.user.id ≡ d.user_id)
  login_after d d2 dto creds db db' u free others row alive email allowed m same =
      elim (Option-cases (find_active db' (to_lower creds.email))) [
        | inl missing ↦
            absurd (find_active_complete db' d.user_id u row alive (cc (missing, same, email)))
        | inr p ↦
            let (w, found) = p in
            let (w_row, w_email, _) = find_active_sound db' (to_lower creds.email) w found in
            let id = only_row d dto db db' w free others w_row (w_email ∙ same) in
            let is_u : w ≡ u = cc (w_row, row, id) in
            let (o, who) = login_opens T C d2 creds db' u (found ∙ ap some is_u) m allowed in
            (o, ap (λ (x : User). x.id) who ∙ find_unique-id db' d.user_id u row)
      ]

  -- A registration at a free address and id creates a row with the given data, the hash of the
  -- password, the schema's defaults, the hash of the refresh token that it returns and the time as
  -- the last login, and changes no other row. After it, a login with the address, in any letter case,
  -- and a password that agrees in the first 72 bytes opens a session for that row.
  pub register-login :
      (d : Draw) (dto : RegisterDto) (db : Db) → IsFree db d dto → Registered d dto db
  unfolding generate_tokens
  register-login d dto db free =
      let (db', e, r) = register_creates d dto db free in
      let row = logged_in T C d (tokens_of T C d (new_row d dto)) (new_row d dto) in
      let others : (j : Text) → d.user_id ≢ j → find_unique db' j ≡ find_unique db j =
        λ j ne. Replaced-other T db db' d.user_id j row r ne in
      record {
        after = db';
        result = e;
        row = Replaced_self T r;
        others = others;
        login_works = λ d2 creds same agree.
            login_after d d2 dto creds db db' row free others (Replaced_self T r) refl refl tt
              ((compare-hash creds.password dto.password d.password_salt).1 agree) same;
      }
