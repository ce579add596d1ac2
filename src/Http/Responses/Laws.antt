-- ===== src/Http/Responses/Laws.antt =====
-- What the answer of a handler becomes.
use project_saas_backend.Common.{ℕ, ◌+◌, ◌*◌, ◌≤◌, ◌<◌, Text, none, some, true, ◌≡◌, arith}
use project_saas_backend.Http.Context.Laws.{Totals}
use project_saas_backend.Http.Responses.{
  TimingMeta, SuccessResponseBody, Returned, structured, value, round_ms, path_or_none,
}

round_ms-near : (t : ℕ) → (round_ms t * 10 ≤ t + 5) × (t < round_ms t * 10 + 5)
unfolding round_ms
round_ms-near t = (omega arith, omega arith)

-- The counters of the answer are the totals of the request.
abbrev pub Timed : Totals → ℕ → TimingMeta → Type 0
Timed t elapsed timing =
    (timing.db_queries ≡ t.queries)
    × (timing.db_ms ≡ round_ms t.query_time)
    × (timing.cache_ops ≡ t.uses)
    × (timing.cache_hits ≡ t.hits)
    × (timing.cache_misses ≡ t.misses)
    × (timing.external_calls ≡ t.calls)
    × (timing.total_ms ≡ round_ms elapsed)

module _ {ℓ} {T : Type ℓ} where
  -- The envelope without the diagnostics: the data of the request, of its times and of the server,
  -- and the tags.
  abbrev pub bare : SuccessResponseBody T → SuccessResponseBody T
  bare body = record body { request = none; timing = none; server = none; tags = none }

  -- The envelope that is due: the one that the handler returned, or one around its value.
  abbrev pub due : ℕ → ℕ → Text → Returned T → SuccessResponseBody T
  due timestamp status url (structured body) = body
  due timestamp status url (value v) = record {
    success = true;
    status_code = status;
    message = "Operation successful";
    payload = v;
    meta = none;
    request = none;
    timing = none;
    server = none;
    tags = none;
    timestamp = timestamp;
    path = path_or_none (some url);
  }
