-- ===== src/Idempotency/Answers.antt =====
-- What `intercept` may answer: one of its own refusals, a stored response, or what the handler
-- answered.
use mathlib.Core.Path.{subst}
use project_saas_backend.Common.{
  ℕ, Text, text_eq, text_eq_iff, Option, none, some, true, false, ◌≡◌, refl, inl, inr, ltb,
  Bool-cases,
}
use project_saas_backend.Common.Result.{Result, ok, err}
use project_saas_backend.Errors.{Thrown}
use project_saas_backend.Idempotency.{
  Response, Request, IdempotencyRecord, RecordTable, is_guarded, truthy_key, key_mismatch,
  duplicate_request, Existing, replay, fresh, refuse, compute_hash, resolve_record, refuse_found,
  resolve_by, resolve_existing, finish, act_on, store_record, intercept, in_window,
}

module _ (T : RecordTable) (sha256 : Text → Text) where
  open T use {Db, find_unique, find_first}

  -- The stored record that a lookup replays.
  pub record Replayable (key : Option Text) (hash : Text) (now : ℕ) (db : Db) (a : Response)
      : Type 0 where
    pub k : Text
    pub entry : IdempotencyRecord
    pub keyed : truthy_key key ≡ some k
    pub found : find_unique db k ≡ some entry
    pub same_hash : entry.request_hash ≡ hash
    pub alive : ltb entry.expires_at now ≡ false
    pub status : a.status_code ≡ entry.status_code
    pub same_body : a.body ≡ entry.response_body

  pub data Looked (key : Option Text) (hash : Text) (now : ℕ) (db : Db) : Existing Db → Type 0 where
    replayed : {a : Response} → Replayable key hash now db a → Looked key hash now db (replay a)
    mismatched :
        (k : Text) → truthy_key key ≡ some k → Looked key hash now db (refuse (key_mismatch k))
    repeated : truthy_key key ≡ none → Looked key hash now db (refuse duplicate_request)
    new : (db' : Db) → Looked key hash now db (fresh db')

  record_Looked :
      (key : Option Text) (k hash : Text) (now : ℕ) (db : Db) (o : Option IdempotencyRecord)
      → truthy_key key ≡ some k
      → find_unique db k ≡ o
      → Looked key hash now db (resolve_record T sha256 k hash now db o)
  record_Looked key k hash now db none keyed found = new db
  record_Looked key k hash now db (some r) keyed found = elim (Bool-cases (ltb r.expires_at now)) [
    | inl dead ↦ rw dead (new _)
    | inr alive ↦ elim (Bool-cases (text_eq r.request_hash hash)) [
      | inl same ↦ rw alive (
          rw same (
            replayed (record {
              k = k;
              entry = r;
              keyed = keyed;
              found = found;
              same_hash = (text_eq_iff r.request_hash hash).0 same;
              alive = alive;
              status = refl;
              same_body = refl;
            })))
      | inr other ↦ rw alive (rw other (mismatched k keyed))
    ]
  ]

  first_Looked :
      (key : Option Text) (hash : Text) (now : ℕ) (db : Db) (o : Option IdempotencyRecord)
      → truthy_key key ≡ none
      → Looked key hash now db (refuse_found T sha256 db o)
  first_Looked key hash now db none anonymous = new db
  first_Looked key hash now db (some r) anonymous = repeated anonymous

  by_Looked :
      (key o : Option Text) (hash : Text) (now : ℕ) (db : Db)
      → truthy_key key ≡ o
      → Looked key hash now db (resolve_by T sha256 o hash now db)
  by_Looked key none hash now db e =
      first_Looked key hash now db (find_first db (in_window hash now)) e
  by_Looked key (some k) hash now db e = record_Looked key k hash now db (find_unique db k) e refl

  module _ {S : Type 0} (handler : Request → S → Result Thrown Response × S) where
    -- The answer to a request, with the application's state after it.
    pub data Answered (req : Request) (now : ℕ) (db : Db) (app : S)
        : Result Thrown Response × (Db × S) → Type 0 where
      handled :
          (db' : Db) → Answered req now db app ((handler req app).0, (db', (handler req app).1))
      from_record :
          (a : Response)
          → is_guarded req ≡ true
          → Replayable req.idempotency_key (compute_hash T sha256 req) now db a
          → Answered req now db app (ok a, (db, app))
      refused_key :
          (k : Text)
          → is_guarded req ≡ true
          → truthy_key req.idempotency_key ≡ some k
          → Answered req now db app (err (key_mismatch k), (db, app))
      refused_repeat :
          is_guarded req ≡ true
          → truthy_key req.idempotency_key ≡ none
          → Answered req now db app (err duplicate_request, (db, app))

    handled_Answered :
        (req : Request) (now now' : ℕ) (db db' : Db) (app : S) (o : Result Thrown Response × S)
        → handler req app ≡ o
        → Answered req now db app
            (finish T sha256 handler req.idempotency_key (compute_hash T sha256 req) now' db' o)
    handled_Answered req now now' db db' app (ok a, app') e =
        subst
          (λ o. Answered req now db app (
            o.0,
            (store_record T sha256 req.idempotency_key (compute_hash T sha256 req) now' a db', o.1),
          ))
          e
          (handled
            (store_record T sha256 req.idempotency_key (compute_hash T sha256 req) now' a db'))
    handled_Answered req now now' db db' app (err x, app') e =
        subst (λ o. Answered req now db app (o.0, (db', o.1))) e (handled db')

    looked_Answered :
        (req : Request) (now now' : ℕ) (db : Db) (app : S) (o : Existing Db)
        → is_guarded req ≡ true
        → Looked req.idempotency_key (compute_hash T sha256 req) now db o
        → Answered req now db app (act_on T sha256 handler req now' db app o)
    looked_Answered req now now' db app (replay _) guards (replayed p) = from_record _ guards p
    looked_Answered req now now' db app (refuse _) guards (mismatched k keyed) =
        refused_key k guards keyed
    looked_Answered req now now' db app (refuse _) guards (repeated anonymous) =
        refused_repeat guards anonymous
    looked_Answered req now now' db app (fresh _) guards (new db') =
        handled_Answered req now now' db db' app (handler req app) refl

    -- Whatever the table holds and whether or not storing works, a request is answered in one of four
    -- ways: with what the handler answers, the application's state being the handler's; or, only
    -- for a POST that is not multipart, with the response of a stored, unexpired record of its key and
    -- hash, with a key mismatch where it has a key, or as a duplicate where it has none, in which cases
    -- neither the table nor the application's state changes.
    pub intercept-Answered :
        (req : Request) (now now' : ℕ) (db : Db) (app : S)
        → Answered req now db app (intercept T sha256 handler now now' req db app)
    unfolding intercept resolve_existing
    intercept-Answered req now now' db app = elim (Bool-cases (is_guarded req)) [
      | inl guards ↦ rw guards (
          looked_Answered req now now' db app
            (resolve_by T sha256 (truthy_key req.idempotency_key) (compute_hash T sha256 req) now
              db)
            guards
            (by_Looked req.idempotency_key (truthy_key req.idempotency_key)
              (compute_hash T sha256 req) now db refl))
      | inr skip ↦ rw skip (handled db)
    ]
