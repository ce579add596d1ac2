-- ===== src/Http/Context.antt =====
-- src/shared/context/request-context.ts: the context of a request, where one is active, and the
-- counters that the infrastructure adds to. Times are whole microseconds.
pub mod Laws
use project_saas_backend.Common.{
  ℕ, ◌+◌, Text, text_eq, Option, none, some, List, [], ◌∷◌, Bool, true, false, if◌then◌else◌,
  get_or,
}

pub record RequestContextData : Type 0 where
  pub request_id : Text
  pub method : Option Text
  pub path : Option Text
  pub api_version : Option Text
  pub ip : Option Text
  pub user_agent : Option Text
  pub user_id : Option Text
  pub started_at_perf : ℕ
  pub finished_at_perf : Option ℕ
  pub db_time : ℕ
  pub db_queries : ℕ
  pub cache_time : ℕ
  pub cache_ops : ℕ
  pub cache_hits : ℕ
  pub cache_misses : ℕ
  pub external_time : ℕ
  pub external_calls : ℕ
  pub tags : List (Text × Text)

-- What the middleware gives; the identifier is optional.
pub record Seed : Type 0 where
  pub request_id : Option Text
  pub method : Option Text
  pub path : Option Text
  pub api_version : Option Text
  pub ip : Option Text
  pub user_agent : Option Text
  pub user_id : Option Text

-- The context that `run` makes, with a new identifier where none is given.
unfoldable pub start : Text → ℕ → Seed → RequestContextData
start random_uuid now seed = record {
  request_id = get_or seed.request_id random_uuid;
  method = seed.method;
  path = seed.path;
  api_version = seed.api_version;
  ip = seed.ip;
  user_agent = seed.user_agent;
  user_id = seed.user_id;
  started_at_perf = now;
  finished_at_perf = none;
  db_time = 0;
  db_queries = 0;
  cache_time = 0;
  cache_ops = 0;
  cache_hits = 0;
  cache_misses = 0;
  external_time = 0;
  external_calls = 0;
  tags = [];
}

-- Outside a request nothing happens.
abbrev pub on_context :
    (RequestContextData → RequestContextData)
    → Option RequestContextData
    → Option RequestContextData
on_context f none = none
on_context f (some ctx) = some (f ctx)

abbrev pub put_tag : Text → Text → List (Text × Text) → List (Text × Text)
unfolding text_eq
put_tag key value [] = (key, value) ∷ []
put_tag key value ((k, v) ∷ tags) =
    let rest = put_tag key value tags in if text_eq k key then (k, value) ∷ tags else (k, v) ∷ rest

unfoldable pub tag : Text → Text → Option RequestContextData → Option RequestContextData
unfolding text_eq
tag key value = on_context (λ ctx. record ctx { tags = put_tag key value ctx.tags })

unfoldable pub record_db : ℕ → Option RequestContextData → Option RequestContextData
record_db duration =
    on_context
      (λ ctx. record ctx { db_queries = ctx.db_queries + 1; db_time = ctx.db_time + duration })

abbrev pub count_if : Bool → ℕ → ℕ
count_if b n = if b then n + 1 else n

unfoldable pub record_cache :
    ℕ → Bool → Bool → Option RequestContextData → Option RequestContextData
record_cache duration hit miss = on_context (λ ctx. record ctx {
  cache_ops = ctx.cache_ops + 1;
  cache_time = ctx.cache_time + duration;
  cache_hits = count_if hit ctx.cache_hits;
  cache_misses = count_if miss ctx.cache_misses;
})

unfoldable pub record_external : ℕ → Option RequestContextData → Option RequestContextData
record_external duration = on_context (λ ctx. record ctx {
  external_calls = ctx.external_calls + 1;
  external_time = ctx.external_time + duration;
})

unfoldable pub finish : ℕ → Option RequestContextData → Option RequestContextData
finish now = on_context (λ ctx. record ctx { finished_at_perf = some now })
