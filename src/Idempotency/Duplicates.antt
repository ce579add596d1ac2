-- ===== src/Idempotency/Duplicates.antt =====
-- Requests without an Idempotency-Key, and with an empty one, that are sent twice.
use project_saas_backend.Common.{
  ℕ, ◌+◌, Text, text_eq_refl, Option, none, some, List, [], ◌∷◌, true, ◌≡◌, ◌≢◌, ◌≤◌, ◌<◌, refl, ap,
  arith,
}
use project_saas_backend.Common.Result.{Result, ok, err}
use project_saas_backend.Errors.{Thrown}
use project_saas_backend.Idempotency.{
  hash_ttl_ms, Response, Request, IdempotencyRecord, RecordTable, stored, is_null, is_guarded,
  truthy_key, finish, duplicate_request, compute_hash, resolve_existing, record_of, store_record,
  intercept, in_window,
}
use project_saas_backend.Idempotency.Replay.{Call, serve}
use project_saas_backend.Idempotency.Window.{intercept_hit, in_window_null}

some_of : (o : Option IdempotencyRecord) → o ≢ none → (r : IdempotencyRecord) × (o ≡ some r)
some_of none h = absurd (h refl)
some_of (some r) h = (r, refl)

window_lem :
    (T : RecordTable) (sha256 : Text → Text) (header : Option Text) (hash : Text) (now' later : ℕ)
    (response : Response)
    → header ≡ none
    → now' ≤ later
    → later < now' + hash_ttl_ms
    → in_window hash later (record_of T sha256 header hash now' response) ≡ true
unfolding in_window
window_lem T sha256 none hash now' later response e after before =
    rw (text_eq_refl hash) (ground arith)
window_lem T sha256 (some k) hash now' later response e after before = absurd (cc (e))

module _ (T : RecordTable) (sha256 : Text → Text) {S : Type 0}
    (handler : Request → S → Result Thrown Response × S) where
  open T use {Db, find_unique, find_first, delete, create}

  finish_answer :
      (header : Option Text) (hash : Text) (now : ℕ) (db : Db) (o : Result Thrown Response × S)
      → ((finish T sha256 handler header hash now db o).0 ≡ o.0)
        × ((finish T sha256 handler header hash now db o).1.1 ≡ o.1)
  finish_answer header hash now db (ok a, app) = (refl, refl)
  finish_answer header hash now db (err e, app) = (refl, refl)

  serve_hit :
      (hash : Text) (at : ℕ) (cs : List Call) (s : Db × S)
      → find_first s.0 (in_window hash at) ≢ none
      → find_first (serve T sha256 handler cs s).0 (in_window hash at) ≢ none
  serve_hit hash at [] s hit = hit
  serve_hit hash at (c ∷ cs) s hit =
      serve_hit hash at cs (intercept T sha256 handler c.now c.now' c.request s.0 s.1).1
        (intercept_hit T sha256 hash at handler c.request c.now c.now' s.0 s.1 hit)

  -- A first request that the handler answers, and whose answer is stored.
  module _ (req : Request) (now now' : ℕ) (db db' : Db) (app app' : S) (response : Response)
      (guards : is_guarded req ≡ true)
      (new : find_first db (in_window (compute_hash T sha256 req) now) ≡ none)
      (handled : handler req app ≡ (ok response, app'))
      (kept : create db
          (record_of T sha256 req.idempotency_key (compute_hash T sha256 req) now' response)
        ≡ stored db') where
    first_run :
        truthy_key req.idempotency_key ≡ none
        → intercept T sha256 handler now now' req db app ≡ (ok response, (db', app'))
    unfolding intercept resolve_existing store_record
    first_run keyless = rw guards (rw keyless (rw new (rw handled (rw kept refl))))

    -- Without a key, a second request with the same hash that is looked up less than 30 seconds after
    -- the first was stored, whatever other requests came between, is refused with
    -- ERR_DUPLICATE_REQUEST; the handler does not run and the table does not change.
    pub duplicate_refused :
        (again : Request) (cs : List Call) (later later' : ℕ)
        → req.idempotency_key ≡ none
        → again.idempotency_key ≡ none
        → is_guarded again ≡ true
        → compute_hash T sha256 again ≡ compute_hash T sha256 req
        → now' ≤ later
        → later < now' + hash_ttl_ms
        → (intercept T sha256 handler now now' req db app ≡ (ok response, (db', app')))
          × (intercept T sha256 handler later later' again
                (serve T sha256 handler cs (db', app')).0
                (serve T sha256 handler cs (db', app')).1
              ≡ (err duplicate_request, serve T sha256 handler cs (db', app')))
    unfolding intercept resolve_existing
    duplicate_refused again cs later later' anonymous anonymous' guards' same after before =
        let hash = compute_hash T sha256 req in
        let entry = record_of T sha256 req.idempotency_key hash now' response in
        let seen =
          window_lem T sha256 req.idempotency_key hash now' later response anonymous after before in
        let hit =
          serve_hit hash later cs (db', app')
            (T.find_first_hit db db' entry (in_window hash later) kept seen) in
        let (r, found) =
          some_of (find_first (serve T sha256 handler cs (db', app')).0 (in_window hash later))
            hit in
        let keyless : truthy_key again.idempotency_key ≡ none = ap truthy_key anonymous' in
        (first_run (ap truthy_key anonymous), rw guards' (rw keyless (rw same (rw found refl))))

    -- With a header that is present but empty, both modes are off: the same request is handled again
    -- at any later time at which no request without a header is in the window, and its answer is the
    -- handler's.
    pub empty_key_handled_twice :
        (later later' : ℕ)
        → req.idempotency_key ≡ some []
        → find_first db (in_window (compute_hash T sha256 req) later) ≡ none
        → (intercept T sha256 handler now now' req db app ≡ (ok response, (db', app')))
          × ((intercept T sha256 handler later later' req db' app').0 ≡ (handler req app').0)
          × ((intercept T sha256 handler later later' req db' app').1.1 ≡ (handler req app').1)
    unfolding intercept resolve_existing
    empty_key_handled_twice later later' empty quiet =
        let hash = compute_hash T sha256 req in
        let entry = record_of T sha256 req.idempotency_key hash now' response in
        let miss =
          T.find_first_miss db db' entry (in_window hash later) kept
            (in_window_null T sha256 hash later entry (ap is_null empty)) quiet in
        let keyless : truthy_key req.idempotency_key ≡ none = ap truthy_key empty in
        let run : intercept T sha256 handler later later' req db' app'
            ≡ finish T sha256 handler req.idempotency_key hash later' db' (handler req app') =
          rw guards (rw keyless (rw miss refl)) in
        let (a, b) = finish_answer req.idempotency_key hash later' db' (handler req app') in
        (first_run keyless, rw run a, rw run b)
