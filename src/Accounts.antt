-- ===== src/Accounts.antt =====
-- prisma/schema/user.schema.prisma, the users table behind an interface, and the queries that the
-- repositories make on it: src/modules/auth/infrastructure/prisma/auth.repository.ts and the
-- single-row operations of src/core/database/repositories/base.repository.ts.
-- The database client is not part of the repository: `UserTable` has what the code relies on.
pub mod Steps
pub mod Memory
use project_saas_backend.Common.{
  ℕ, String, Text, codes, to_lower, text_eq, Option, none, some, List, [], ◌∷◌, Bool, true, false,
  ◌≡◌, ◌≢◌, if◌then◌else◌,
}
use project_saas_backend.Common.Result.{Result, ok, err, Exec}
use project_saas_backend.Errors.{Thrown, coded}

pub data Role : Type 0 where
  super_admin admin user : Role

pub data UserStatus : Type 0 where
  active inactive suspended pending_verification : UserStatus

pub record User : Type 0 where
  pub id : Text
  pub email : Text
  pub password : Text
  pub first_name : Text
  pub last_name : Text
  pub phone : Option Text
  pub avatar : Option Text
  pub role : Role
  pub status : UserStatus
  pub email_verified : Bool
  pub email_verified_at : Option ℕ
  pub last_login_at : Option ℕ
  pub refresh_token : Option Text
  pub password_reset_token : Option Text
  pub password_reset_expiry : Option ℕ
  pub created_at : ℕ
  pub updated_at : ℕ
  pub deleted_at : Option ℕ

-- What `AuthService.register` hands to `create`.
pub record NewUser : Type 0 where
  pub email : Text
  pub password : Text
  pub first_name : Text
  pub last_name : Text
  pub phone : Option Text

-- The row that the schema's defaults make of it.
abbrev pub default_row : Text → ℕ → NewUser → User
default_row id now fields = record {
  id = id;
  email = fields.email;
  password = fields.password;
  first_name = fields.first_name;
  last_name = fields.last_name;
  phone = fields.phone;
  avatar = none;
  role = user;
  status = pending_verification;
  email_verified = false;
  email_verified_at = none;
  last_login_at = none;
  refresh_token = none;
  password_reset_token = none;
  password_reset_expiry = none;
  created_at = now;
  updated_at = now;
  deleted_at = none;
}

-- A change that leaves the unique columns of a row alone.
abbrev pub KeepsKeys : (User → User) → Type 0
KeepsKeys f = (u : User) → ((f u).id ≡ u.id) × ((f u).email ≡ u.email)

pub record UserTable : Type 1 where
  pub Db : Type 0
  -- `findUnique({ where: { id } })`
  pub find_unique : Db → Text → Option User
  -- `findFirst({ where: { email, deletedAt: null } })`
  pub find_active : Db → Text → Option User
  -- `create`; `none` is the violation of a unique constraint
  pub insert : Db → User → Option Db
  -- `update({ where: { id }, data })`; `none` is a missing row
  pub update : Db → Text → (User → User) → Option (User × Db)
  pub find_unique-id : (db : Db) (i : Text) (u : User) → find_unique db i ≡ some u → u.id ≡ i
  pub find_active_sound :
      (db : Db) (e : Text) (u : User)
      → find_active db e ≡ some u
      → (find_unique db u.id ≡ some u) × (u.email ≡ e) × (u.deleted_at ≡ none)
  pub find_active_complete :
      (db : Db) (i : Text) (u : User)
      → find_unique db i ≡ some u
      → u.deleted_at ≡ none
      → find_active db u.email ≢ none
  pub insert_taken :
      (db : Db) (i : Text) (u v : User)
      → find_unique db i ≡ some v
      → v.email ≡ u.email
      → insert db u ≡ none
  pub insert_free :
      (db : Db) (u : User)
      → find_unique db u.id ≡ none
      → ((i : Text) (v : User) → find_unique db i ≡ some v → v.email ≢ u.email)
      → (db' : Db) × (insert db u ≡ some db')
  pub find-insert :
      (db db' : Db) (u : User) (j : Text)
      → insert db u ≡ some db'
      → find_unique db' j ≡ (if text_eq u.id j then some u else find_unique db j)
  pub update_found :
      (db : Db) (i : Text) (f : User → User) (u : User)
      → KeepsKeys f
      → find_unique db i ≡ some u
      → (db' : Db) × (update db i f ≡ some (f u, db'))
        × ((j : Text) → find_unique db' j ≡ (if text_eq i j then some (f u) else find_unique db j))
  pub update_missing :
      (db : Db) (i : Text) (f : User → User) → find_unique db i ≡ none → update db i f ≡ none

-- Errors of the client: `PrismaClientKnownRequestError`s, by their code.
abbrev pub unique_violation : Thrown
unique_violation = coded "P2002" (codes "Unique constraint failed") (some ("email" ∷ [])) []

abbrev pub record_not_found : Thrown
record_not_found = coded "P2025" (codes "Record to update not found.") none []

-- The changes that the repositories make; every `update` also stamps `updatedAt`.
module _ (now : ℕ) where
  abbrev pub set_refresh_token : Option Text → User → User
  set_refresh_token token u = record u { refresh_token = token; updated_at = now }

  abbrev pub set_last_login : User → User
  set_last_login u = record u { last_login_at = some now; updated_at = now }

  abbrev pub set_password_reset : Text → ℕ → User → User
  set_password_reset token expiry u = record u {
    password_reset_token = some token;
    password_reset_expiry = some expiry;
    updated_at = now;
  }

  abbrev pub clear_password_reset : User → User
  clear_password_reset u = record u {
    password_reset_token = none;
    password_reset_expiry = none;
    updated_at = now;
  }

  abbrev pub set_email_verified : User → User
  set_email_verified u = record u {
    email_verified = true;
    email_verified_at = some now;
    updated_at = now;
  }

  abbrev pub set_deleted : User → User
  set_deleted u = record u { deleted_at = some now; updated_at = now }

  abbrev pub set_restored : User → User
  set_restored u = record u { deleted_at = none; updated_at = now }

  abbrev pub set_avatar : Text → User → User
  set_avatar url u = record u { avatar = some url; updated_at = now }

module _ (T : UserTable) where
  open T use {Db, find_unique, find_active, insert, update}

  abbrev updated : Db → Option (User × Db) → Result Thrown User × Db
  updated db none = (err record_not_found, db)
  updated db (some (u, db')) = (ok u, db')

  abbrev inserted : Db → User → Option Db → Result Thrown User × Db
  inserted db u none = (err unique_violation, db)
  inserted db u (some db') = (ok u, db')

  -- `findById`: soft-deleted rows included
  abbrev pub find_by_id : Text → Exec Thrown Db (Option User)
  find_by_id id db = (ok (find_unique db id), db)

  -- `findByEmail`: lowers the case, and leaves soft-deleted rows out
  abbrev pub find_by_email : Text → Exec Thrown Db (Option User)
  find_by_email email db = (ok (find_active db (to_lower email)), db)

  abbrev pub create : Text → ℕ → NewUser → Exec Thrown Db User
  create id now fields db =
      inserted db (default_row id now fields) (insert db (default_row id now fields))

  -- `model.update`, with the change to make
  abbrev pub update_row : Text → (User → User) → Exec Thrown Db User
  update_row id f db = updated db (update db id f)

  unfoldable pub update_refresh_token : ℕ → Text → Option Text → Exec Thrown Db User
  update_refresh_token now id token = update_row id (set_refresh_token now token)

  unfoldable pub update_last_login : ℕ → Text → Exec Thrown Db User
  update_last_login now id = update_row id (set_last_login now)

  unfoldable pub set_password_reset_token : ℕ → Text → Text → ℕ → Exec Thrown Db User
  set_password_reset_token now id token expiry = update_row id (set_password_reset now token expiry)

  unfoldable pub clear_password_reset_token : ℕ → Text → Exec Thrown Db User
  clear_password_reset_token now id = update_row id (clear_password_reset now)

  unfoldable pub verify_email : ℕ → Text → Exec Thrown Db User
  verify_email now id = update_row id (set_email_verified now)

  unfoldable pub soft_delete : ℕ → Text → Exec Thrown Db User
  soft_delete now id = update_row id (set_deleted now)

  unfoldable pub restore : ℕ → Text → Exec Thrown Db User
  restore now id = update_row id (set_restored now)

  unfoldable pub update_avatar : ℕ → Text → Text → Exec Thrown Db User
  update_avatar now id url = update_row id (set_avatar now url)
