-- ===== src/Idempotency.antt =====
-- src/core/interceptors/idempotency.interceptor.ts and prisma/schema/idempotency.schema.prisma: a
-- POST is answered from a stored record, refused as a duplicate, or processed and recorded. The
-- records table and SHA-256 are third-party: `RecordTable`, `sha256`. Times are milliseconds.
pub mod Json
pub mod Persistence
pub mod Replay
pub mod Window
pub mod Duplicates
pub mod Answers
mod Memory
mod Tests
use project_saas_backend.Common.{
  ℕ, ◌+◌, ◌-◌, ◌*◌, Text, codes, text_eq, to_lower, starts_with, Option, none, some, List, [], ◌∷◌,
  ◌++◌, Bool, true, false, ◌≡◌, ◌≢◌, not, ◌||◌, ◌&&◌, ltb, leb, get_or, if◌then◌else◌,
}
use project_saas_backend.Common.Result.{Result, ok, err}
use project_saas_backend.Errors.{Thrown, thrown_api, from_definition}
use project_saas_backend.Errors.Registry
use project_saas_backend.Idempotency.Json.{Value, obj, end, stable_stringify}

abbrev pub keyed_ttl_ms : ℕ
keyed_ttl_ms = 24 * 60 * 60 * 1000

abbrev pub hash_ttl_ms : ℕ
hash_ttl_ms = 30 * 1000

-- What a handler answers: the response's status code, and its body as text.
pub record Response : Type 0 where
  pub status_code : ℕ
  pub body : Text

-- `user` is who the guards found; the interceptor does not look at it.
pub record Request : Type 0 where
  pub method : Text
  pub path : Text
  pub content_type : Option Text
  pub idempotency_key : Option Text
  pub body : Option Value
  pub user : Option Text

pub record IdempotencyRecord : Type 0 where
  pub idempotency_key : Option Text
  pub request_hash : Text
  pub status_code : ℕ
  pub response_body : Text
  pub expires_at : ℕ
  pub created_at : ℕ

-- The outcome of `create`: stored, refused by the unique key (P2002), or another error.
pub data Created {ℓ} (Db : Type ℓ) : Type ℓ where
  stored : Db → Created Db
  taken : Created Db
  broken : Thrown → Created Db

abbrev pub has_key : Option Text → Text → Bool
has_key none k = false
has_key (some j) k = text_eq j k

pub record RecordTable : Type 1 where
  pub Db : Type 0
  -- `findUnique({ where: { idempotencyKey } })`
  pub find_unique : Db → Text → Option IdempotencyRecord
  -- `findFirst({ where })`, the condition as a test on rows
  pub find_first : Db → (IdempotencyRecord → Bool) → Option IdempotencyRecord
  -- `delete({ where: { idempotencyKey } })`; `none` is an error
  pub delete : Db → Text → Option Db
  pub create : Db → IdempotencyRecord → Created Db
  pub find-create :
      (db db' : Db) (r : IdempotencyRecord) (k : Text)
      → create db r ≡ stored db'
      → find_unique db' k ≡ (if has_key r.idempotency_key k then some r else find_unique db k)
  pub create_taken :
      (db : Db) (r s : IdempotencyRecord) (k : Text)
      → r.idempotency_key ≡ some k
      → find_unique db k ≡ some s
      → create db r ≡ taken
  pub find-delete :
      (db db' : Db) (j k : Text)
      → delete db j ≡ some db'
      → find_unique db' k ≡ (if text_eq j k then none else find_unique db k)
  pub find_first-create :
      (db db' : Db) (r : IdempotencyRecord) (p : IdempotencyRecord → Bool)
      → create db r ≡ stored db'
      → find_first db p ≢ none
      → find_first db' p ≢ none
  pub find_first-delete :
      (db db' : Db) (k : Text) (p : IdempotencyRecord → Bool)
      → delete db k ≡ some db'
      → ((r : IdempotencyRecord) → has_key r.idempotency_key k ≡ true → p r ≡ false)
      → find_first db p ≢ none
      → find_first db' p ≢ none
  pub find_first_hit :
      (db db' : Db) (r : IdempotencyRecord) (p : IdempotencyRecord → Bool)
      → create db r ≡ stored db'
      → p r ≡ true
      → find_first db' p ≢ none
  pub find_first_miss :
      (db db' : Db) (r : IdempotencyRecord) (p : IdempotencyRecord → Bool)
      → create db r ≡ stored db'
      → p r ≡ false
      → find_first db p ≡ none
      → find_first db' p ≡ none

-- `req.headers[...] ?? ''`
abbrev is_multipart_request : Request → Bool
is_multipart_request req =
    starts_with (to_lower (get_or req.content_type [])) (codes "multipart/form-data")

-- The guard of `intercept`: only POSTs that are not multipart are looked at.
unfoldable pub is_guarded : Request → Bool
unfolding to_lower
is_guarded req = text_eq req.method (codes "POST") && not (is_multipart_request req)

-- The header as a key: absent and empty are both falsy.
abbrev pub truthy_key : Option Text → Option Text
truthy_key none = none
truthy_key (some []) = none
truthy_key (some (c ∷ s)) = some (c ∷ s)

-- `${req.method}:${req.path}:${stableStringify(req.body ?? {})}`
pub fingerprint : Request → Text
fingerprint req = req.method ++ 58 ∷ req.path ++ 58 ∷ stable_stringify (get_or req.body (obj end))

pub key_mismatch : Text → Thrown
key_mismatch key = thrown_api (
    from_definition Registry.idempotency_key_mismatch
      (some (codes "Key '" ++ key ++ codes "' was previously used with a different request body."))
      none)

pub duplicate_request : Thrown
duplicate_request = thrown_api (
    from_definition Registry.duplicate_request
      (some (codes "Identical request received within the 30-second duplicate-detection window."))
      none)

-- The condition of the hash-only lookup.
abbrev is_null : Option Text → Bool
is_null none = true
is_null (some k) = false

unfoldable pub in_window : Text → ℕ → IdempotencyRecord → Bool
unfolding text_eq
in_window hash now r =
    text_eq r.request_hash hash
    && (is_null r.idempotency_key && (leb (now - hash_ttl_ms) r.created_at && ltb now r.expires_at))

-- What the lookup found: a response to replay, or nothing; the table after it.
pub data Existing {ℓ} (Db : Type ℓ) : Type ℓ where
  replay : Response → Existing Db
  fresh : Db → Existing Db
  refuse : Thrown → Existing Db

module _ (T : RecordTable) (sha256 : Text → Text) where
  open T use {Db, find_unique, find_first, delete, create}

  pub compute_hash : Request → Text
  compute_hash req = sha256 (fingerprint req)

  -- A failed deletion of an expired record is ignored.
  abbrev pub db_or_old : Db → Option Db → Db
  db_or_old old none = old
  db_or_old old (some db) = db

  abbrev pub resolve_record : Text → Text → ℕ → Db → Option IdempotencyRecord → Existing Db
  resolve_record key hash now db none = fresh db
  resolve_record key hash now db (some r) =
      if ltb r.expires_at now
      then fresh (db_or_old db (delete db key))
      else if not (text_eq r.request_hash hash)
      then refuse (key_mismatch key)
      else replay (record { status_code = r.status_code; body = r.response_body })

  abbrev resolve_keyed : Text → Text → ℕ → Db → Existing Db
  resolve_keyed key hash now db = resolve_record key hash now db (find_unique db key)

  abbrev refuse_found : Db → Option IdempotencyRecord → Existing Db
  refuse_found db none = fresh db
  refuse_found db (some r) = refuse duplicate_request

  abbrev resolve_hash_only : Text → ℕ → Db → Existing Db
  resolve_hash_only hash now db = refuse_found db (find_first db (in_window hash now))

  abbrev resolve_by : Option Text → Text → ℕ → Db → Existing Db
  resolve_by none hash now db = resolve_hash_only hash now db
  resolve_by (some key) hash now db = resolve_keyed key hash now db

  unfoldable pub resolve_existing : Option Text → Text → ℕ → Db → Existing Db
  resolve_existing header hash now db = resolve_by (truthy_key header) hash now db

  abbrev ttl : Option Text → ℕ
  ttl none = hash_ttl_ms
  ttl (some key) = keyed_ttl_ms

  -- The record that `storeRecord` creates: the lifetime goes by the truth of the header, the key is
  -- the header as it is.
  abbrev pub record_of : Option Text → Text → ℕ → Response → IdempotencyRecord
  record_of header hash now response = record {
    idempotency_key = header;
    request_hash = hash;
    status_code = response.status_code;
    response_body = response.body;
    expires_at = now + ttl (truthy_key header);
    created_at = now;
  }

  -- P2002 is ignored by `storeRecord`, any other error by the caller.
  abbrev pub stored_or_old : Db → Created Db → Db
  stored_or_old old (stored db) = db
  stored_or_old old taken = old
  stored_or_old old (broken e) = old

  unfoldable pub store_record : Option Text → Text → ℕ → Response → Db → Db
  store_record header hash now response db =
      stored_or_old db (create db (record_of header hash now response))

  -- `next.handle()` acts on the application's state.
  module _ {S : Type 0} (handler : Request → S → Result Thrown Response × S) where
    -- An error of the handler passes through, and nothing is recorded.
    abbrev pub finish :
        Option Text → Text → ℕ → Db → Result Thrown Response × S → Result Thrown Response × (Db × S)
    finish header hash now db (ok response, app) =
        (ok response, (store_record header hash now response db, app))
    finish header hash now db (err e, app) = (err e, (db, app))

    abbrev act_on : Request → ℕ → Db → S → Existing Db → Result Thrown Response × (Db × S)
    act_on req now' db app (replay response) = (ok response, (db, app))
    act_on req now' db app (refuse e) = (err e, (db, app))
    act_on req now' db app (fresh db') =
        finish req.idempotency_key (compute_hash req) now' db' (handler req app)

    abbrev untouched : Db → Result Thrown Response × S → Result Thrown Response × (Db × S)
    untouched db (r, app) = (r, (db, app))

    -- `now` is the time of the lookup, `now'` that of the storing.
    unfoldable pub intercept : ℕ → ℕ → Request → Db → S → Result Thrown Response × (Db × S)
    unfolding resolve_existing
    intercept now now' req db app =
        if not (is_guarded req)
        then untouched db (handler req app)
        else act_on req now' db app (resolve_existing req.idempotency_key (compute_hash req) now db)
