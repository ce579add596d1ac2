-- ===== src/Idempotency/Persistence.antt =====
-- What is stored under an Idempotency-Key stays in the table through every later request, until it
-- has expired.
use project_saas_backend.Common.{
  ℕ, Text, text_eq, text_eq_iff, Option, none, some, [], ◌∷◌, true, false, ◌≡◌, refl, ap, ◌∙◌, inl,
  inr, ltb, Bool-cases, Option-cases,
}
use project_saas_backend.Common.Result.{Result, ok, err}
use project_saas_backend.Errors.{Thrown}
use project_saas_backend.Idempotency.{
  Response, Request, IdempotencyRecord, RecordTable, Created, stored, taken, broken, is_guarded,
  truthy_key, Existing, replay, fresh, refuse, compute_hash, resolve_record, refuse_found,
  resolve_by, resolve_existing, record_of, store_record, stored_or_old, db_or_old, finish, act_on,
  intercept, in_window,
}

pub truthy_key_is : (o : Option Text) (k : Text) → truthy_key o ≡ some k → o ≡ some k
truthy_key_is none k h = h
truthy_key_is (some []) k h = absurd (cc (h))
truthy_key_is (some (c ∷ s)) k h = h

module _ (T : RecordTable) (sha256 : Text → Text) where
  open T use {Db, find_unique, find_first, delete, create}

  -- What is stored under a key stays there as long as it has not expired.
  module _ (k : Text) (r : IdempotencyRecord) where
    delete_keeps :
        (j : Text) (s : IdempotencyRecord) (db : Db) (now : ℕ)
        → find_unique db k ≡ some r
        → ltb r.expires_at now ≡ false
        → find_unique db j ≡ some s
        → ltb s.expires_at now ≡ true
        → find_unique (db_or_old T sha256 db (delete db j)) k ≡ some r
    delete_keeps j s db now here alive there dead =
        let other : text_eq j k ≡ false = elim (Bool-cases (text_eq j k)) [
          | inl same ↦ absurd (cc (((text_eq_iff j k).0 same), here, alive, there, dead))
          | inr e ↦ e
        ] in
        elim (Option-cases (delete db j)) [
          | inl gone ↦ rw gone here
          | inr p ↦ let (db', e) = p in rw e (T.find-delete db db' j k e ∙ rw other here)
        ]

    record_keeps :
        (j hash : Text) (now : ℕ) (db db' : Db) (o : Option IdempotencyRecord)
        → find_unique db j ≡ o
        → find_unique db k ≡ some r
        → ltb r.expires_at now ≡ false
        → resolve_record T sha256 j hash now db o ≡ fresh db'
        → find_unique db' k ≡ some r
    record_keeps j hash now db db' none there here alive e = cc
    record_keeps j hash now db db' (some s) there here alive e =
        elim (Bool-cases (ltb s.expires_at now)) [
          | inl dead ↦
              let kept = delete_keeps j s db now here alive there dead in cc (kept, e, dead)
          | inr young ↦ elim (Bool-cases (text_eq s.request_hash hash)) [
            | inl same ↦ absurd (cc (e, young, same))
            | inr other ↦ absurd (cc (e, young, other))
          ]
        ]

    first_keeps :
        (db db' : Db) (o : Option IdempotencyRecord)
        → find_unique db k ≡ some r
        → refuse_found T sha256 db o ≡ fresh db'
        → find_unique db' k ≡ some r
    first_keeps db db' none here e = cc
    first_keeps db db' (some s) here e = absurd (cc (e))

    lookup_keeps :
        (o : Option Text) (hash : Text) (now : ℕ) (db db' : Db)
        → find_unique db k ≡ some r
        → ltb r.expires_at now ≡ false
        → resolve_by T sha256 o hash now db ≡ fresh db'
        → find_unique db' k ≡ some r
    lookup_keeps none hash now db db' here alive e =
        first_keeps db db' (find_first db (in_window hash now)) here e
    lookup_keeps (some j) hash now db db' here alive e =
        record_keeps j hash now db db' (find_unique db j) refl here alive e

    created_keeps :
        (db : Db) (s : IdempotencyRecord) (c : Created Db)
        → create db s ≡ c
        → find_unique db k ≡ some r
        → find_unique (stored_or_old T sha256 db c) k ≡ some r
    created_keeps db s (stored db') e here = elim (Option-cases s.idempotency_key) [
      | inl anonymous ↦ T.find-create db db' s k e ∙ rw anonymous here
      | inr p ↦
          let (j, named) = p in
          elim (Bool-cases (text_eq j k)) [
            | inl same ↦
                let t = T.create_taken db s r k (named ∙ ap some ((text_eq_iff j k).0 same)) here in
                absurd (cc (t, e))
            | inr other ↦ T.find-create db db' s k e ∙ rw named (rw other here)
          ]
    ]
    created_keeps db s taken e here = here
    created_keeps db s (broken x) e here = here

    module _ {S : Type 0} (handler : Request → S → Result Thrown Response × S) where
      finish_keeps :
          (header : Option Text) (hash : Text) (now : ℕ) (db : Db) (o : Result Thrown Response × S)
          → find_unique db k ≡ some r
          → find_unique (finish T sha256 handler header hash now db o).1.0 k ≡ some r
      unfolding store_record
      finish_keeps header hash now db (ok response, app) here =
          let s = record_of T sha256 header hash now response in
          created_keeps db s (create db s) refl here
      finish_keeps header hash now db (err e, app) here = here

      act_keeps :
          (req : Request) (now now' : ℕ) (db : Db) (app : S) (o : Existing Db)
          → resolve_by T sha256 (truthy_key req.idempotency_key) (compute_hash T sha256 req) now db
            ≡ o
          → find_unique db k ≡ some r
          → ltb r.expires_at now ≡ false
          → find_unique (act_on T sha256 handler req now' db app o).1.0 k ≡ some r
      act_keeps req now now' db app (replay response) e here alive = here
      act_keeps req now now' db app (refuse x) e here alive = here
      act_keeps req now now' db app (fresh db') e here alive =
          finish_keeps req.idempotency_key (compute_hash T sha256 req) now' db' (handler req app) (
            lookup_keeps (truthy_key req.idempotency_key) (compute_hash T sha256 req) now db db'
              here alive e)

      -- A record that has not expired when a request looks up is still stored after the request.
      pub intercept_keeps :
          (req : Request) (now now' : ℕ) (db : Db) (app : S)
          → find_unique db k ≡ some r
          → ltb r.expires_at now ≡ false
          → find_unique (intercept T sha256 handler now now' req db app).1.0 k ≡ some r
      unfolding intercept resolve_existing
      intercept_keeps req now now' db app here alive = elim (Bool-cases (is_guarded req)) [
        | inl guards ↦ rw guards (
            act_keeps req now now' db app
              (resolve_by T sha256 (truthy_key req.idempotency_key) (compute_hash T sha256 req) now
                db)
              refl here alive)
        | inr skip ↦ rw skip here
      ]
