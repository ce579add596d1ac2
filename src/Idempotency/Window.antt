-- ===== src/Idempotency/Window.antt =====
-- The duplicate window of the hash mode: a row that is found in it stays found through every later
-- request.
use project_saas_backend.Common.{
  ℕ, Text, text_eq, Option, none, some, true, false, ◌≡◌, ◌≢◌, refl, inl, inr, ltb, Bool-cases,
  Option-cases,
}
use project_saas_backend.Common.Result.{Result, ok, err}
use project_saas_backend.Errors.{Thrown}
use project_saas_backend.Idempotency.{
  Response, Request, IdempotencyRecord, RecordTable, Created, stored, taken, broken, has_key,
  is_null, is_guarded, truthy_key, Existing, replay, fresh, refuse, compute_hash, resolve_record,
  resolve_by, resolve_existing, record_of, store_record, stored_or_old, db_or_old, finish, act_on,
  intercept, in_window,
}

null_no_key : (o : Option Text) (k : Text) → has_key o k ≡ true → is_null o ≡ false
null_no_key none k h = cc
null_no_key (some j) k h = refl

module _ (T : RecordTable) (sha256 : Text → Text) where
  open T use {Db, find_unique, find_first, delete, create}

  pub in_window_null :
      (hash : Text) (now : ℕ) (r : IdempotencyRecord)
      → is_null r.idempotency_key ≡ false
      → in_window hash now r ≡ false
  unfolding in_window
  in_window_null hash now r named = elim (Bool-cases (text_eq r.request_hash hash)) [
    | inl e ↦ rw e (rw named refl)
    | inr e ↦ rw e refl
  ]

  -- A row found in the duplicate window stays found whatever is deleted or stored.
  module _ (hash : Text) (at : ℕ) where
    old_hit :
        (db : Db) (k : Text)
        → find_first db (in_window hash at) ≢ none
        → find_first (db_or_old T sha256 db (delete db k)) (in_window hash at) ≢ none
    old_hit db k hit = elim (Option-cases (delete db k)) [
      | inl gone ↦ rw gone hit
      | inr p ↦
          let (db', e) = p in
          rw e (
            T.find_first-delete db db' k (in_window hash at) e
              (λ r named. in_window_null hash at r (null_no_key r.idempotency_key k named)) hit)
    ]

    record_hit :
        (j h : Text) (now : ℕ) (db db' : Db) (o : Option IdempotencyRecord)
        → find_first db (in_window hash at) ≢ none
        → resolve_record T sha256 j h now db o ≡ fresh db'
        → find_first db' (in_window hash at) ≢ none
    record_hit j h now db db' none hit e none_after = hit (cc (none_after, e))
    record_hit j h now db db' (some s) hit e none_after = elim (Bool-cases (ltb s.expires_at now)) [
      | inl dead ↦ old_hit db j hit (cc (none_after, e, dead))
      | inr young ↦ elim (Bool-cases (text_eq s.request_hash h)) [
        | inl same ↦ absurd (cc (e, young, same))
        | inr other ↦ absurd (cc (e, young, other))
      ]
    ]

    lookup_hit :
        (o : Option Text) (h : Text) (now : ℕ) (db db' : Db)
        → find_first db (in_window hash at) ≢ none
        → resolve_by T sha256 o h now db ≡ fresh db'
        → find_first db' (in_window hash at) ≢ none
    lookup_hit none h now db db' hit e none_after =
        elim (Option-cases (find_first db (in_window h now))) [
          | inl miss ↦ hit (cc (none_after, e, miss))
          | inr p ↦ absurd (cc (e, p.1))
        ]
    lookup_hit (some j) h now db db' hit e none_after =
        record_hit j h now db db' (find_unique db j) hit e none_after

    created_hit :
        (db : Db) (s : IdempotencyRecord) (c : Created Db)
        → create db s ≡ c
        → find_first db (in_window hash at) ≢ none
        → find_first (stored_or_old T sha256 db c) (in_window hash at) ≢ none
    created_hit db s (stored db') e hit = T.find_first-create db db' s (in_window hash at) e hit
    created_hit db s taken e hit = hit
    created_hit db s (broken x) e hit = hit

    module _ {S : Type 0} (handler : Request → S → Result Thrown Response × S) where
      finish_hit :
          (header : Option Text) (h : Text) (now : ℕ) (db : Db) (o : Result Thrown Response × S)
          → find_first db (in_window hash at) ≢ none
          → find_first (finish T sha256 handler header h now db o).1.0 (in_window hash at) ≢ none
      unfolding store_record
      finish_hit header h now db (ok response, app) hit =
          let s = record_of T sha256 header h now response in
          created_hit db s (create db s) refl hit
      finish_hit header h now db (err e, app) hit = hit

      act_hit :
          (req : Request) (now now' : ℕ) (db : Db) (app : S) (o : Existing Db)
          → resolve_by T sha256 (truthy_key req.idempotency_key) (compute_hash T sha256 req) now db
            ≡ o
          → find_first db (in_window hash at) ≢ none
          → find_first (act_on T sha256 handler req now' db app o).1.0 (in_window hash at) ≢ none
      act_hit req now now' db app (replay response) e hit = hit
      act_hit req now now' db app (refuse x) e hit = hit
      act_hit req now now' db app (fresh db') e hit =
          finish_hit req.idempotency_key (compute_hash T sha256 req) now' db' (handler req app) (
            lookup_hit (truthy_key req.idempotency_key) (compute_hash T sha256 req) now db db' hit
              e)

      pub intercept_hit :
          (req : Request) (now now' : ℕ) (db : Db) (app : S)
          → find_first db (in_window hash at) ≢ none
          → find_first (intercept T sha256 handler now now' req db app).1.0 (in_window hash at)
            ≢ none
      unfolding intercept resolve_existing
      intercept_hit req now now' db app hit = elim (Bool-cases (is_guarded req)) [
        | inl guards ↦ rw guards (
            act_hit req now now' db app
              (resolve_by T sha256 (truthy_key req.idempotency_key) (compute_hash T sha256 req) now
                db)
              refl hit)
        | inr skip ↦ rw skip hit
      ]
