-- ===== src/Http/Middleware.antt =====
-- src/core/middleware/request-context.middleware.ts: the seed of a request's context. The header and
-- the addresses of the request are given.
use project_saas_backend.Common.{
  ℕ, Text, codes, starts_with, Option, none, some, [], ◌∷◌, Bool, true, false, ◌&&◌, leb, ◌==◌,
  if◌then◌else◌, drop,
}
use project_saas_backend.Common.Trim.{trim}
use project_saas_backend.Http.Context.{RequestContextData, Seed, start}

abbrev pub is_digit : ℕ → Bool
is_digit c = leb b'0' c && leb c b'9'

-- `(\d+)(\/|$)`, the digits so far before the rest
abbrev pub version_digits : Text → Option Text
version_digits [] = none
version_digits (c ∷ s) = if is_digit c then digits_then c (ended s) (version_digits s) else none
  where
    ended : Text → Bool
    ended [] = true
    ended (d ∷ t) = d == 47

    digits_then : ℕ → Bool → Option Text → Option Text
    digits_then c true later = some (c ∷ [])
    digits_then c false none = none
    digits_then c false (some ds) = some (c ∷ ds)

abbrev prefixed : Option Text → Option Text
prefixed none = none
prefixed (some ds) = some (b'v' ∷ ds)

abbrev or_later : Option Text → Option Text → Option Text
or_later none later = later
or_later (some v) later = some v

-- The first match of `/\/api\/(v\d+)(\/|$)/`.
unfoldable pub extract_api_version : Text → Option Text
unfolding starts_with codes
extract_api_version [] = none
extract_api_version (c ∷ s) =
    let later = extract_api_version s in
    if starts_with (c ∷ s) (codes "/api/v")
    then or_later (prefixed (version_digits (drop 5 s))) later
    else later

abbrev pub non_empty : Text → Option Text
non_empty [] = none
non_empty (c ∷ s) = some (c ∷ s)

abbrev pub inbound_id : Option Text → Option Text
unfolding trim
inbound_id none = none
inbound_id (some header) = non_empty (trim header)

abbrev pub original_or : Text → Text → Text
original_or [] url = url
original_or (c ∷ s) url = c ∷ s

pub record Incoming : Type 0 where
  pub x_request_id : Option Text
  pub method : Text
  pub original_url : Text
  pub url : Text
  pub ip : Option Text
  pub user_agent : Option Text

unfoldable pub seed_of : Incoming → Seed
unfolding trim extract_api_version
seed_of req = record {
  request_id = inbound_id req.x_request_id;
  method = some req.method;
  path = some (original_or req.original_url req.url);
  api_version = extract_api_version (original_or req.original_url req.url);
  ip = req.ip;
  user_agent = req.user_agent;
  user_id = none;
}

-- The context of the request, and the header that is set.
unfoldable pub use_middleware : Text → ℕ → Incoming → RequestContextData × (Text × Text)
unfolding seed_of start codes
use_middleware random_uuid now req =
    let ctx = start random_uuid now (seed_of req) in (ctx, (codes "X-Request-Id", ctx.request_id))
