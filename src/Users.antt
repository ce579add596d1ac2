-- ===== src/Users.antt =====
-- src/modules/user/application/use-cases/user.service.ts over src/core/cache/cache.service.ts: a
-- profile is read through a cache that writes invalidate. The cache manager (Redis or memory) is
-- third-party and may fail at any call: `CacheManager`.
pub mod Coherence
pub mod Writes
pub mod Listing
mod Tests
use project_saas_backend.Common.{
  ℕ, ◌*◌, Text, codes, text_eq, Option, none, some, List, [], ◌∷◌, ◌++◌, ◌||◌, Bool, true, false,
  ◌≡◌, get_or, if◌then◌else◌,
}
use project_saas_backend.Common.Result.{Result, ok, err, Exec, pure, throw, ◌>>=◌, ◌>>◌}
use project_saas_backend.Errors
use project_saas_backend.Errors.{Thrown, thrown_api}
use project_saas_backend.Accounts.{
  Role, UserStatus, User, UserTable, set_deleted, record_not_found, find_by_id, update_row,
  soft_delete,
}

pub record PublicUserProfile : Type 0 where
  pub id : Text
  pub email : Text
  pub first_name : Text
  pub last_name : Text
  pub phone : Option Text
  pub avatar : Option Text
  pub role : Role
  pub status : UserStatus
  pub email_verified : Bool
  pub created_at : ℕ
  pub updated_at : ℕ

-- A call of the cache manager: it returns or it throws.
pub data Attempt {ℓ} (A : Type ℓ) : Type ℓ where
  done : A → Attempt A
  failed : Attempt A

pub record CacheManager : Type 1 where
  pub Store : Type 0
  -- what is held for a key at this moment
  pub peek : Store → Text → Option PublicUserProfile
  pub get : Store → Text → Attempt (Option PublicUserProfile)
  -- the time to live is in milliseconds
  pub set : Store → Text → PublicUserProfile → ℕ → Attempt Store
  pub del : Store → Text → Attempt Store
  pub get-peek :
      (s : Store) (k : Text) (o : Option PublicUserProfile) → get s k ≡ done o → o ≡ peek s k
  pub peek-set :
      (s s' : Store) (k j : Text) (p : PublicUserProfile) (ttl : ℕ)
      → set s k p ttl ≡ done s'
      → peek s' j ≡ (if text_eq k j then some p else peek s j)
  pub peek-del :
      (s s' : Store) (k j : Text)
      → del s k ≡ done s'
      → peek s' j ≡ (if text_eq k j then none else peek s j)

-- `UpdateUserDto`: a field that is absent is left as it is; `@IsOptional` lets null through, which is
-- `some none`.
pub record UpdateUserDto : Type 0 where
  pub first_name : Option (Option Text)
  pub last_name : Option (Option Text)
  pub phone : Option (Option Text)
  pub avatar : Option (Option Text)

-- A required column keeps its text; null for it is refused before.
abbrev text_or_kept : Option (Option Text) → Text → Text
text_or_kept (some (some new)) old = new
text_or_kept _ old = old

abbrev pub set_profile : ℕ → UpdateUserDto → User → User
set_profile now dto u = record u {
  first_name = text_or_kept dto.first_name u.first_name;
  last_name = text_or_kept dto.last_name u.last_name;
  phone = get_or dto.phone u.phone;
  avatar = get_or dto.avatar u.avatar;
  updated_at = now;
}

abbrev is_null : Option (Option Text) → Bool
is_null (some none) = true
is_null _ = false

-- Prisma refuses null for a required column.
abbrev pub is_refused : UpdateUserDto → Bool
is_refused dto = is_null dto.first_name || is_null dto.last_name

unfoldable pub to_public_profile : User → PublicUserProfile
to_public_profile u = record {
  id = u.id;
  email = u.email;
  first_name = u.first_name;
  last_name = u.last_name;
  phone = u.phone;
  avatar = u.avatar;
  role = u.role;
  status = u.status;
  email_verified = u.email_verified;
  created_at = u.created_at;
  updated_at = u.updated_at;
}

-- `CACHE_KEYS.USER(id)`
unfoldable pub user_key : Text → Text
unfolding codes
user_key id = codes "user:" ++ id

-- `!user || user.deletedAt`
abbrev pub is_live : Option ℕ → Bool
is_live none = true
is_live (some t) = false

module _ (T : UserTable) (C : CacheManager) where
  pub record State : Type 0 where
    pub db : T.Db
    pub cache : C.Store

  -- `CacheService`: an error of the manager is logged and swallowed.
  abbrev value_or_null : Attempt (Option PublicUserProfile) → Option PublicUserProfile
  value_or_null (done o) = o
  value_or_null failed = none

  abbrev store_or_old : C.Store → Attempt C.Store → C.Store
  store_or_old old (done s) = s
  store_or_old old failed = old

  cache_get : Text → State → Option PublicUserProfile
  cache_get key s = value_or_null (C.get s.cache key)

  cache_set : Text → PublicUserProfile → ℕ → State → State
  cache_set key p ttl_seconds s = record s {
    cache = store_or_old s.cache (C.set s.cache key p (ttl_seconds * 1000));
  }

  cache_del : Text → State → State
  cache_del key s = record s { cache = store_or_old s.cache (C.del s.cache key) }

  -- `getOrSet`: what the factory throws is thrown, and nothing is written then.
  abbrev value_or_made :
      Text
      → Exec Thrown State PublicUserProfile
      → ℕ
      → Option PublicUserProfile
      → Exec Thrown State PublicUserProfile
  unfolding cache_set
  value_or_made key factory ttl (some p) = pure p
  value_or_made key factory ttl none = do p ← factory; λ s. (ok p, cache_set key p ttl s)

  unfoldable pub get_or_set :
      Text → Exec Thrown State PublicUserProfile → ℕ → Exec Thrown State PublicUserProfile
  unfolding cache_get cache_set
  get_or_set key factory ttl s = value_or_made key factory ttl (cache_get key s) s

  -- `Promise.all` starts every deletion; one that fails stops none of the others.
  abbrev del_all : List Text → State → State
  unfolding cache_del
  del_all [] s = s
  del_all (key ∷ keys) s = del_all keys (cache_del key s)

  abbrev del_listed : Attempt (List Text) → State → State
  unfolding cache_del
  del_listed failed s = s
  del_listed (done keys) s = del_all keys s

  abbrev invalidate_listed : Option (Text → C.Store → Attempt (List Text)) → Text → State → State
  unfolding cache_del
  invalidate_listed none pattern s = s
  invalidate_listed (some keys) pattern s = del_listed (keys pattern s.cache) s

  -- A store may have no listing of its keys.
  unfoldable pub invalidate_by_pattern :
      Option (Text → C.Store → Attempt (List Text)) → Text → State → State
  unfolding cache_del
  invalidate_by_pattern keys pattern s = invalidate_listed keys pattern s

  -- Repository calls act on the `db` part.
  abbrev on_db : {A : Type 0} → Exec Thrown T.Db A → Exec Thrown State A
  on_db m s = let (r, db') = m s.db in (r, record s { db = db' })

  -- The row that is not soft-deleted, or 404.
  abbrev live_row : Option User → Exec Thrown State User
  live_row none = throw (thrown_api Errors.user_not_found)
  live_row (some u) =
      if is_live u.deleted_at then pure u else throw (thrown_api Errors.user_not_found)

  abbrev load_profile : Text → Exec Thrown State PublicUserProfile
  load_profile id = do
    found ← on_db (find_by_id T id)
    u ← live_row found
    λ s. (ok (to_public_profile u), cache_set (user_key id) (to_public_profile u) 300 s)

  abbrev cached_or_load : Text → Option PublicUserProfile → Exec Thrown State PublicUserProfile
  cached_or_load id (some p) = pure p
  cached_or_load id none = load_profile id

  unfoldable pub find_profile : Text → Exec Thrown State PublicUserProfile
  unfolding cache_get cache_set
  find_profile id s = cached_or_load id (cache_get (user_key id) s) s

  -- `validation_error` is what Prisma throws for a null that it refuses.
  abbrev accepted : Thrown → UpdateUserDto → Exec Thrown State (Unit {0})
  accepted validation_error dto = if is_refused dto then throw validation_error else pure tt

  unfoldable pub update : Thrown → ℕ → Text → UpdateUserDto → Exec Thrown State PublicUserProfile
  unfolding cache_del
  update validation_error now id dto = do
    found ← on_db (find_by_id T id)
    u ← live_row found
    accepted validation_error dto
    updated ← on_db (update_row T id (set_profile now dto))
    λ s. (ok (to_public_profile updated), cache_del (user_key id) s)

  unfoldable pub remove : ℕ → Text → Exec Thrown State (Unit {0})
  unfolding cache_del
  remove now id = do
    found ← on_db (find_by_id T id)
    u ← live_row found
    on_db (soft_delete T now id)
    λ s. (ok tt, cache_del (user_key id) s)
