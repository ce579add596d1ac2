-- ===== src/Http/Context/Laws.antt =====
-- What the counters of a request add up to.
use project_saas_backend.Common.{
  ℕ, ◌+◌, Text, Option, some, List, [], ◌∷◌, Bool, true, false, ◌≡◌, refl, ◌∙◌, arith,
}
use project_saas_backend.Http.Context.{
  RequestContextData, record_db, record_cache, record_external, tag, count_if, put_tag,
}

-- What the infrastructure reports during a request: a query, a use of the cache, a call outside.
pub data Event : Type 0 where
  db : ℕ → Event
  cache : ℕ → Bool → Bool → Event
  external : ℕ → Event
  tagged : Text → Text → Event

abbrev pub report : Event → Option RequestContextData → Option RequestContextData
unfolding record_db record_cache record_external tag
report (db d) ctx = record_db d ctx
report (cache d hit miss) ctx = record_cache d hit miss ctx
report (external d) ctx = record_external d ctx
report (tagged k v) ctx = tag k v ctx

unfoldable pub report_all : List Event → Option RequestContextData → Option RequestContextData
unfolding record_db record_cache record_external tag
report_all [] ctx = ctx
report_all (e ∷ es) ctx = report_all es (report e ctx)

-- What the events say themselves.
pub record Totals : Type 0 where
  pub queries : ℕ
  pub query_time : ℕ
  pub uses : ℕ
  pub use_time : ℕ
  pub hits : ℕ
  pub misses : ℕ
  pub calls : ℕ
  pub call_time : ℕ

abbrev add : Event → Totals → Totals
add (db d) t = record t { queries = t.queries + 1; query_time = t.query_time + d }
add (cache d hit miss) t = record t {
  uses = t.uses + 1;
  use_time = t.use_time + d;
  hits = count_if hit t.hits;
  misses = count_if miss t.misses;
}
add (external d) t = record t { calls = t.calls + 1; call_time = t.call_time + d }
add (tagged k v) t = t

unfoldable pub totals : List Event → Totals
totals [] = record {
  queries = 0;
  query_time = 0;
  uses = 0;
  use_time = 0;
  hits = 0;
  misses = 0;
  calls = 0;
  call_time = 0;
}
totals (e ∷ es) = add e (totals es)

-- The counters of the context are more by these totals.
abbrev pub Added : RequestContextData → Totals → RequestContextData → Type 0
Added before t after =
    (after.db_queries ≡ before.db_queries + t.queries)
    × (after.db_time ≡ before.db_time + t.query_time)
    × (after.cache_ops ≡ before.cache_ops + t.uses)
    × (after.cache_time ≡ before.cache_time + t.use_time)
    × (after.cache_hits ≡ before.cache_hits + t.hits)
    × (after.cache_misses ≡ before.cache_misses + t.misses)
    × (after.external_calls ≡ before.external_calls + t.calls)
    × (after.external_time ≡ before.external_time + t.call_time)
    × (after.started_at_perf ≡ before.started_at_perf)
    × (after.request_id ≡ before.request_id)

count_if-add : (b : Bool) (m n : ℕ) → count_if b m + n ≡ m + count_if b n
count_if-add true m n = omega arith
count_if-add false m n = refl

pub report_all-Added :
    (es : List Event) (ctx : RequestContextData)
    → (after : RequestContextData) × (report_all es (some ctx) ≡ some after)
      × Added ctx (totals es) after
unfolding report_all totals record_db record_cache record_external tag
report_all-Added [] ctx = (
  ctx,
  refl,
  (
    omega arith,
    omega arith,
    omega arith,
    omega arith,
    omega arith,
    omega arith,
    omega arith,
    omega arith,
    refl,
    refl,
  ),
)
report_all-Added (db d ∷ es) ctx =
    let (after, e, (q, qt, u, ut, h, m, c, ct, s, r)) =
      report_all-Added es
        (record ctx { db_queries = ctx.db_queries + 1; db_time = ctx.db_time + d }) in
    (after, e, (omega (arith, q), omega (arith, qt), u, ut, h, m, c, ct, s, r))
report_all-Added (cache d hit miss ∷ es) ctx =
    let (after, e, (q, qt, u, ut, h, m, c, ct, s, r)) = report_all-Added es (record ctx {
      cache_ops = ctx.cache_ops + 1;
      cache_time = ctx.cache_time + d;
      cache_hits = count_if hit ctx.cache_hits;
      cache_misses = count_if miss ctx.cache_misses;
    }) in
    (
      after,
      e,
      (
        q,
        qt,
        omega (arith, u),
        omega (arith, ut),
        h ∙ count_if-add hit ctx.cache_hits (totals es).hits,
        m ∙ count_if-add miss ctx.cache_misses (totals es).misses,
        c,
        ct,
        s,
        r,
      ),
    )
report_all-Added (external d ∷ es) ctx =
    let (after, e, (q, qt, u, ut, h, m, c, ct, s, r)) = report_all-Added es (record ctx {
      external_calls = ctx.external_calls + 1;
      external_time = ctx.external_time + d;
    }) in
    (after, e, (q, qt, u, ut, h, m, omega (arith, c), omega (arith, ct), s, r))
report_all-Added (tagged k v ∷ es) ctx =
    report_all-Added es (record ctx { tags = put_tag k v ctx.tags })
