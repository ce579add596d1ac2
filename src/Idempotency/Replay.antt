-- ===== src/Idempotency/Replay.antt =====
-- The Idempotency-Key mode of the interceptor: what a client that repeats its request is told.
use project_saas_backend.Common.{
  ℕ, ◌+◌, Text, text_eq, text_eq_iff, text_eq_refl, none, some, List, [], ◌∷◌, true, false, ◌≡◌,
  ◌≢◌, refl, ◌∙◌, inl, inr, ltb, Bool-cases, All,
}
use project_saas_backend.Common.Result.{Result, ok, err}
use project_saas_backend.Errors.{Thrown}
use project_saas_backend.Idempotency.{
  keyed_ttl_ms, Response, Request, IdempotencyRecord, RecordTable, stored, is_guarded, truthy_key,
  fingerprint, key_mismatch, compute_hash, resolve_existing, record_of, store_record, intercept,
}
use project_saas_backend.Idempotency.Persistence.{truthy_key_is, intercept_keeps}

-- A request with the times of its lookup and of its storing.
pub record Call : Type 0 where
  pub now : ℕ
  pub now' : ℕ
  pub request : Request

module _ (T : RecordTable) (sha256 : Text → Text) {S : Type 0}
    (handler : Request → S → Result Thrown Response × S) where
  open T use {Db, find_unique, find_first, delete, create}

  -- The table and the application's state after a sequence of requests.
  abbrev pub serve : List Call → Db × S → Db × S
  serve [] s = s
  serve (c ∷ cs) s = serve cs (intercept T sha256 handler c.now c.now' c.request s.0 s.1).1

  abbrev pub AllBefore : ℕ → List Call → Type 0
  AllBefore t cs = All (λ (c : Call). ltb t c.now ≡ false) cs

  serve_keeps :
      (k : Text) (r : IdempotencyRecord) (cs : List Call) (s : Db × S)
      → find_unique s.0 k ≡ some r
      → AllBefore r.expires_at cs
      → find_unique (serve cs s).0 k ≡ some r
  serve_keeps k r [] s here early = here
  serve_keeps k r (c ∷ cs) s here early =
      serve_keeps k r cs (intercept T sha256 handler c.now c.now' c.request s.0 s.1).1
        (intercept_keeps T sha256 k r handler c.request c.now c.now' s.0 s.1 here early.0) early.1

  -- The first request: no response is stored under its key yet, the handler answers, and the answer
  -- is stored.
  module _ (req : Request) (k : Text) (now now' : ℕ) (db db' : Db) (app app' : S)
      (response : Response) (guards : is_guarded req ≡ true)
      (keyed : truthy_key req.idempotency_key ≡ some k) (new : find_unique db k ≡ none)
      (handled : handler req app ≡ (ok response, app'))
      (kept : create db
          (record_of T sha256 req.idempotency_key (compute_hash T sha256 req) now' response)
        ≡ stored db') where
    abbrev entry : IdempotencyRecord
    entry = record_of T sha256 req.idempotency_key (compute_hash T sha256 req) now' response

    first_stored : find_unique db' k ≡ some entry
    first_stored =
        T.find-create db db' entry k kept
        ∙ rw (truthy_key_is req.idempotency_key k keyed) (rw (text_eq_refl k) refl)

    first_run : intercept T sha256 handler now now' req db app ≡ (ok response, (db', app'))
    unfolding intercept resolve_existing store_record
    first_run = rw guards (rw keyed (rw new (rw handled (rw kept refl))))

    -- The client's retry, after any sequence of requests before the record expires.
    module _ (cs : List Call) (early : AllBefore (now' + keyed_ttl_ms) cs) (again : Request)
        (guards' : is_guarded again ≡ true) (keyed' : truthy_key again.idempotency_key ≡ some k)
        (later later' : ℕ) (in_time : ltb (now' + keyed_ttl_ms) later ≡ false) where
      expiry : entry.expires_at ≡ now' + keyed_ttl_ms
      expiry = rw keyed refl

      found_later : find_unique (serve cs (db', app')).0 k ≡ some entry
      found_later = serve_keeps k entry cs (db', app') first_stored (subst_early cs early)
        where
          subst_early :
              (xs : List Call) → AllBefore (now' + keyed_ttl_ms) xs → AllBefore entry.expires_at xs
          subst_early xs h = rw keyed h

      -- A POST with a key under which nothing is stored is answered by the handler. When its answer
      -- is stored, a later POST with the same key, method, path and body, whoever sends it and whatever
      -- other requests came between, is answered with the same response until 24 hours have passed
      -- since the storing; the handler does not run and the table does not change.
      pub keyed_replay :
          fingerprint again ≡ fingerprint req
          → (intercept T sha256 handler now now' req db app ≡ (ok response, (db', app')))
            × (intercept T sha256 handler later later' again
                  (serve cs (db', app')).0
                  (serve cs (db', app')).1
                ≡ (ok response, serve cs (db', app')))
      unfolding intercept resolve_existing compute_hash
      keyed_replay same = (
        first_run,
        rw guards' (
            rw keyed' (
              rw found_later (
                rw keyed
                  (rw in_time (rw same (rw (text_eq_refl (sha256 (fingerprint req))) refl)))))),
      )

      -- When the answer to a POST with a key is stored, a later POST with the same key and another hash
      -- is refused with ERR_IDEMPOTENCY_KEY_MISMATCH until 24 hours have passed since the storing,
      -- whatever other requests came between; the handler does not run and the table does not change.
      pub keyed_mismatch :
          compute_hash T sha256 req ≢ compute_hash T sha256 again
          → intercept T sha256 handler later later' again
              (serve cs (db', app')).0
              (serve cs (db', app')).1
            ≡ (err (key_mismatch k), serve cs (db', app'))
      unfolding intercept resolve_existing
      keyed_mismatch differ =
          let hashes : text_eq (compute_hash T sha256 req) (compute_hash T sha256 again) ≡ false =
            elim (Bool-cases (text_eq (compute_hash T sha256 req) (compute_hash T sha256 again))) [
              | inl same ↦ absurd (
                  differ (
                    (text_eq_iff (compute_hash T sha256 req) (compute_hash T sha256 again)).0 same))
              | inr e ↦ e
            ] in
          rw guards' (rw keyed' (rw found_later (rw keyed (rw in_time (rw hashes refl)))))
