-- ===== src/Auth.antt =====
-- src/modules/auth/application/use-cases/auth.service.ts and the domain types of
-- src/modules/auth/domain/entities/auth.entity.ts. Hashing and signing are third-party: `Crypto`.
pub mod Login
pub mod Session
pub mod Refresh
pub mod Registration
mod Tests
use project_saas_backend.Common.{
  ℕ, String, Text, codes, to_lower, take, Option, none, some, List, [], ◌∷◌, Bool, true, false, ◌≡◌,
  ◌↔◌, ◌*◌, not, if◌then◌else◌,
}
use project_saas_backend.Common.Result.{Result, ok, err, Exec, pure, throw, ◌>>=◌, ◌>>◌}
use project_saas_backend.Errors
use project_saas_backend.Errors.{Thrown, thrown_api, ErrorDefinition, from_definition}
use project_saas_backend.Errors.Registry
use project_saas_backend.Accounts.{
  Role, UserStatus, active, inactive, suspended, pending_verification, User, NewUser, UserTable,
  find_by_email, find_by_id, create, update_refresh_token, update_last_login,
}

-- `bcryptjs` (texts of one-byte characters) and `JwtService`. The salt is an argument. bcrypt reads
-- the first 72 bytes of its input and no more.
pub record Crypto : Type 0 where
  pub hash : Text → Text → Text
  pub compare : Text → Text → Bool
  pub sign_access : Text → Text → Role → ℕ → Text
  -- subject, `jti`, time
  pub sign_refresh : Text → Text → ℕ → Text
  pub compare-hash :
      (raw other salt : Text)
      → (compare raw (hash salt other) ≡ true) ↔ (take 72 raw ≡ take 72 other)
  pub hash-IsText : (salt raw : Text) → (c : ℕ) × (s : Text) × (hash salt raw ≡ c ∷ s)

-- What the calls of one request draw from outside: the time, the salts, the random ids.
pub record Draw : Type 0 where
  pub now : ℕ
  pub user_id : Text
  pub password_salt : Text
  pub token_salt : Text
  pub jti : Text

pub record AuthTokens : Type 0 where
  pub access_token : Text
  pub refresh_token : Text
  pub expires_in : ℕ

pub record PublicUser : Type 0 where
  pub id : Text
  pub email : Text
  pub first_name : Text
  pub last_name : Text
  pub role : Role
  pub avatar : Option Text
  pub email_verified : Bool
  pub created_at : ℕ

pub record AuthResponse : Type 0 where
  pub user : PublicUser
  pub tokens : AuthTokens

pub record RegisterDto : Type 0 where
  pub email : Text
  pub password : Text
  pub first_name : Text
  pub last_name : Text
  pub phone : Option Text

pub record LoginDto : Type 0 where
  pub email : Text
  pub password : Text

unfoldable pub to_public_user : User → PublicUser
to_public_user u = record {
  id = u.id;
  email = u.email;
  first_name = u.first_name;
  last_name = u.last_name;
  role = u.role;
  avatar = u.avatar;
  email_verified = u.email_verified;
  created_at = u.created_at;
}

-- `ApiError.fromDefinition(d)` as a thrown value.
abbrev pub refusal : ErrorDefinition → Thrown
refusal d = thrown_api (from_definition d none none)

-- `!token`: absent or empty
abbrev is_missing : Option Text → Bool
is_missing none = true
is_missing (some []) = true
is_missing (some (c ∷ s)) = false

module _ (T : UserTable) (C : Crypto) where
  open T use {Db}
  open C use {hash, compare, sign_access, sign_refresh}

  unfoldable pub generate_tokens : Draw → Text → Text → Role → AuthTokens
  generate_tokens d user_id email role = record {
    access_token = sign_access user_id email role d.now;
    refresh_token = sign_refresh user_id d.jti d.now;
    expires_in = 7 * 24 * 60 * 60;
  }

  unfoldable pub save_refresh_token : Draw → Text → Text → Exec Thrown Db User
  save_refresh_token d user_id raw_token =
      update_refresh_token T d.now user_id (some (hash d.token_salt raw_token))

  -- The end of `register` and of `login`.
  abbrev start_session : Draw → User → Exec Thrown Db AuthResponse
  start_session d u = do
    let tokens = generate_tokens d u.id u.email u.role
    save_refresh_token d u.id tokens.refresh_token
    update_last_login T d.now u.id
    pure (record { user = to_public_user u; tokens = tokens })

  abbrev register_new : Draw → RegisterDto → Option User → Exec Thrown Db AuthResponse
  register_new d dto (some existing) = throw (thrown_api Errors.email_already_exists)
  register_new d dto none = do
    u ← create T d.user_id d.now (record {
      email = to_lower dto.email;
      password = hash d.password_salt dto.password;
      first_name = dto.first_name;
      last_name = dto.last_name;
      phone = dto.phone;
    })
    start_session d u

  unfoldable pub register : Draw → RegisterDto → Exec Thrown Db AuthResponse
  unfolding generate_tokens save_refresh_token update_refresh_token update_last_login
  register d dto = do existing ← find_by_email T (to_lower dto.email); register_new d dto existing

  -- The tests on `user.status`, in order.
  abbrev pub admit : Draw → User → UserStatus → Exec Thrown Db AuthResponse
  admit d u suspended = throw (refusal Registry.account_suspended)
  admit d u inactive = throw (refusal Registry.account_inactive)
  admit d u active = start_session d u
  admit d u pending_verification = start_session d u

  abbrev login_found : Draw → LoginDto → Option User → Exec Thrown Db AuthResponse
  login_found d dto none = throw (thrown_api Errors.invalid_credentials)
  login_found d dto (some u) =
      if not (compare dto.password u.password)
      then throw (thrown_api Errors.invalid_credentials)
      else admit d u u.status

  unfoldable pub login : Draw → LoginDto → Exec Thrown Db AuthResponse
  unfolding generate_tokens save_refresh_token update_refresh_token update_last_login
  login d dto = do found ← find_by_email T (to_lower dto.email); login_found d dto found

  abbrev pub rotate : Draw → Text → User → Option Text → Exec Thrown Db AuthTokens
  rotate d raw u none = throw (refusal Registry.refresh_token_invalid)
  rotate d raw u (some stored) =
      if is_missing (some stored)
      then throw (refusal Registry.refresh_token_invalid)
      else if not (compare raw stored)
      then throw (refusal Registry.refresh_token_invalid)
      else do
        let tokens = generate_tokens d u.id u.email u.role
        save_refresh_token d u.id tokens.refresh_token
        pure tokens

  abbrev refresh_found : Draw → Text → Option User → Exec Thrown Db AuthTokens
  refresh_found d raw none = throw (refusal Registry.refresh_token_invalid)
  refresh_found d raw (some u) = rotate d raw u u.refresh_token

  unfoldable pub refresh_tokens : Draw → Text → Text → Exec Thrown Db AuthTokens
  refresh_tokens d user_id raw = do found ← find_by_id T user_id; refresh_found d raw found

  unfoldable pub logout : Draw → Text → Exec Thrown Db (Unit {0})
  unfolding update_refresh_token
  logout d user_id = do update_refresh_token T d.now user_id none; pure tt
