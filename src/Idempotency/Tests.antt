-- ===== src/Idempotency/Tests.antt =====
-- The witnesses of the theorems on the idempotency interceptor, over the table in memory.
use project_saas_backend.Common.{
  ℕ, ◌+◌, Text, codes, text_eq, to_lower, starts_with, Option, none, some, List, [], ◌∷◌, ◌≡◌, refl,
  ap, arith,
}
use project_saas_backend.Common.Result.{Result, ok, err}
use project_saas_backend.Errors.{Thrown}
use project_saas_backend.Idempotency.{
  Response, Request, IdempotencyRecord, is_guarded, key_mismatch, duplicate_request, compute_hash,
  fingerprint, intercept, in_window, record_of,
}
use project_saas_backend.Idempotency.Json.{Value, num, obj, end, field, stable_stringify, str}
use project_saas_backend.Idempotency.Json.Canonical.{fields, swap, stable_stringify-Same}
use project_saas_backend.Idempotency.Memory.{memory_table, find_unique, find_first, create}
use project_saas_backend.Idempotency.Replay.{Call, serve, keyed_replay, keyed_mismatch}
use project_saas_backend.Idempotency.Duplicates.{duplicate_refused}
use project_saas_backend.Idempotency.Answers.{Answered, intercept-Answered}

-- A stand-in for the hash, and a handler that counts its calls.
abbrev identity : Text → Text
identity t = t

abbrev count : Request → ℕ → Result Thrown Response × ℕ
count req n = (ok (record { status_code = 201; body = codes "created" }), n + 1)

abbrev post : Option Text → Value → Option Text → Request
post key body user = record {
  method = codes "POST";
  path = codes "/orders";
  content_type = none;
  idempotency_key = key;
  body = some body;
  user = user;
}

abbrev created : Response
created = record { status_code = 201; body = codes "created" }

abbrev first : Request
first = post (some (codes "k-1")) (num 1) (some (codes "u-1"))

abbrev by_other : Request
by_other = post (some (codes "k-1")) (num 1) (some (codes "u-2"))

abbrev changed : Request
changed = post (some (codes "k-1")) (num 2) (some (codes "u-1"))

abbrev plain : Request
plain = post none (num 1) none

abbrev empty : Request
empty = post (some []) (num 1) none

abbrev between : List Call
between = record { now = 200; now' = 210; request = plain } ∷ []

abbrev entry_of : Request → IdempotencyRecord
entry_of req =
    record_of memory_table identity req.idempotency_key (compute_hash memory_table identity req) 110
      created

keyed_replay_example :
    let s = serve memory_table identity count between (entry_of first ∷ [], 1) in
    (intercept memory_table identity count 100 110 first [] 0
      ≡ (ok created, (entry_of first ∷ [], 1)))
    × (intercept memory_table identity count 300 310 by_other s.0 s.1 ≡ (ok created, s))
unfolding is_guarded to_lower text_eq codes starts_with create find_unique find_first compute_hash
    fingerprint stable_stringify in_window
keyed_replay_example =
    keyed_replay memory_table identity count first (codes "k-1") 100 110 [] (entry_of first ∷ []) 0
      1 created refl refl refl refl refl between (refl, tt) by_other refl refl 300 310 refl refl

keyed_mismatch_example :
    let s = serve memory_table identity count between (entry_of first ∷ [], 1) in
    intercept memory_table identity count 300 310 changed s.0 s.1
    ≡ (err (key_mismatch (codes "k-1")), s)
unfolding is_guarded to_lower text_eq codes starts_with create find_unique find_first compute_hash
    fingerprint stable_stringify in_window
keyed_mismatch_example =
    keyed_mismatch memory_table identity count first (codes "k-1") 100 110 [] (entry_of first ∷ [])
      0 1 created refl refl refl refl refl between (refl, tt) changed refl refl 300 310 refl
      (λ e. absurd (cc (ap (text_eq (compute_hash memory_table identity first)) e)))

duplicate_refused_example :
    let s = serve memory_table identity count [] (entry_of plain ∷ [], 1) in
    (intercept memory_table identity count 100 110 plain [] 0
      ≡ (ok created, (entry_of plain ∷ [], 1)))
    × (intercept memory_table identity count 300 310 plain s.0 s.1 ≡ (err duplicate_request, s))
unfolding is_guarded to_lower text_eq codes starts_with create find_unique find_first compute_hash
    fingerprint stable_stringify in_window
duplicate_refused_example =
    duplicate_refused memory_table identity count plain 100 110 [] (entry_of plain ∷ []) 0 1 created
      refl refl refl refl plain [] 300 310 refl refl refl refl (omega arith) (omega arith)

intercept-Answered_example :
    Answered memory_table identity count by_other 300
      (entry_of first ∷ [])
      1
      (intercept memory_table identity count 300 310 by_other (entry_of first ∷ []) 1)
intercept-Answered_example =
    intercept-Answered memory_table identity count by_other 300 310 (entry_of first ∷ []) 1

-- {"a":1,"b":"x"} and {"b":"x","a":1}
stable_stringify-Same_example :
    stable_stringify (obj (field (codes "a") (num 1) (field (codes "b") (str (codes "x")) end)))
    ≡ stable_stringify (obj (field (codes "b") (str (codes "x")) (field (codes "a") (num 1) end)))
unfolding text_eq codes
stable_stringify-Same_example =
    stable_stringify-Same
      (obj (field (codes "a") (num 1) (field (codes "b") (str (codes "x")) end)))
      (obj (field (codes "b") (str (codes "x")) (field (codes "a") (num 1) end)))
      (fields (swap refl refl))
