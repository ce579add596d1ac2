-- ===== src/Http/Responses.antt =====
-- src/shared/responses/api.response.ts and src/shared/constants/response.constants.ts: the success
-- envelope and its diagnostics, and src/core/interceptors/response.interceptor.ts. Times are whole
-- microseconds; a rounded time counts hundredths of a millisecond. The server's own data, which the
-- code computes once, is an argument.
pub mod Laws
use project_saas_backend.Common.{
  ℕ, ◌+◌, ◌-◌, ◌/◌, String, Text, codes, Option, none, some, List, [], ◌∷◌, Bool, true, false,
  get_or,
}
use project_saas_backend.Pagination.{PaginationMeta}
use project_saas_backend.Http.Context.{RequestContextData, finish}

pub record ResponseDefinition : Type 0 where
  pub message : String
  pub status_code : ℕ

abbrev pub ok_response : ResponseDefinition
ok_response = record { message = "Request completed successfully."; status_code = 200 }

abbrev pub created_response : ResponseDefinition
created_response = record { message = "Resource created successfully."; status_code = 201 }

abbrev pub deleted : ResponseDefinition
deleted = record { message = "Resource deleted successfully."; status_code = 200 }

abbrev pub register_success : ResponseDefinition
register_success = record { message = "Registration successful. Welcome!"; status_code = 201 }

abbrev pub login_success : ResponseDefinition
login_success = record { message = "Login successful."; status_code = 200 }

abbrev pub token_refreshed : ResponseDefinition
token_refreshed = record { message = "Token refreshed successfully."; status_code = 200 }

abbrev pub logout_success : ResponseDefinition
logout_success = record { message = "Logged out successfully."; status_code = 200 }

abbrev pub user_fetched : ResponseDefinition
user_fetched = record { message = "User retrieved successfully."; status_code = 200 }

abbrev pub users_fetched : ResponseDefinition
users_fetched = record { message = "Users retrieved successfully."; status_code = 200 }

abbrev pub profile_fetched : ResponseDefinition
profile_fetched = record { message = "Profile retrieved successfully."; status_code = 200 }

abbrev pub profile_updated : ResponseDefinition
profile_updated = record { message = "Profile updated successfully."; status_code = 200 }

abbrev pub user_updated : ResponseDefinition
user_updated = record { message = "User updated successfully."; status_code = 200 }

abbrev pub user_deleted : ResponseDefinition
user_deleted = record { message = "User deleted successfully."; status_code = 200 }

abbrev pub file_uploaded : ResponseDefinition
file_uploaded = record {
  message = "File uploaded successfully. Use POST /upload/commit to promote to permanent storage.";
  status_code = 201;
}

abbrev pub file_committed : ResponseDefinition
file_committed = record { message = "File committed to permanent storage."; status_code = 200 }

abbrev pub file_deleted : ResponseDefinition
file_deleted = record { message = "File deleted successfully."; status_code = 200 }

abbrev pub health_ok : ResponseDefinition
health_ok = record { message = "pong"; status_code = 200 }

pub record RequestMeta : Type 0 where
  pub request_id : Text
  pub method : Text
  pub path : Text
  pub api_version : Option Text
  pub ip : Option Text
  pub user_agent : Option Text
  pub user_id : Option Text

pub record TimingMeta : Type 0 where
  pub total_ms : ℕ
  pub db_ms : ℕ
  pub db_queries : ℕ
  pub cache_ms : ℕ
  pub cache_ops : ℕ
  pub cache_hits : ℕ
  pub cache_misses : ℕ
  pub external_ms : ℕ
  pub external_calls : ℕ

pub record ServerMeta : Type 0 where
  pub hostname : Text
  pub pid : ℕ
  pub env : Text
  pub node_version : Text
  pub region : Option Text
  pub app_version : Option Text

pub record SuccessResponseBody {ℓ} (T : Type ℓ) : Type ℓ where
  pub success : Bool
  pub status_code : ℕ
  pub message : String
  pub payload : T
  pub meta : Option PaginationMeta
  pub request : Option RequestMeta
  pub timing : Option TimingMeta
  pub server : Option ServerMeta
  pub tags : Option (List (Text × Text))
  pub timestamp : ℕ
  pub path : Option Text

-- `Math.round(ms * 100) / 100`
unfoldable pub round_ms : ℕ → ℕ
round_ms micros = (micros + 5) / 10

unfoldable pub build_request_meta : RequestContextData → RequestMeta
unfolding codes
build_request_meta ctx = record {
  request_id = ctx.request_id;
  method = get_or ctx.method (codes "UNKNOWN");
  path = get_or ctx.path [];
  api_version = ctx.api_version;
  ip = ctx.ip;
  user_agent = ctx.user_agent;
  user_id = ctx.user_id;
}

unfoldable pub build_timing_meta : ℕ → RequestContextData → TimingMeta
unfolding round_ms
build_timing_meta now ctx = record {
  total_ms = round_ms (get_or ctx.finished_at_perf now - ctx.started_at_perf);
  db_ms = round_ms ctx.db_time;
  db_queries = ctx.db_queries;
  cache_ms = round_ms ctx.cache_time;
  cache_ops = ctx.cache_ops;
  cache_hits = ctx.cache_hits;
  cache_misses = ctx.cache_misses;
  external_ms = round_ms ctx.external_time;
  external_calls = ctx.external_calls;
}

abbrev pub tags_or_none :
    List (Text × Text) → Option (List (Text × Text)) → Option (List (Text × Text))
tags_or_none [] before = before
tags_or_none (t ∷ ts) before = some (t ∷ ts)

-- `...(path ? { path } : {})`
abbrev pub path_or_none : Option Text → Option Text
path_or_none none = none
path_or_none (some []) = none
path_or_none (some (c ∷ s)) = some (c ∷ s)

-- What a handler returns: a success envelope, or a value without the field `success`. An object with
-- that field and another shape, which the interceptor passes on as well, has no constructor here.
pub data Returned {ℓ} (T : Type ℓ) : Type ℓ where
  structured : SuccessResponseBody T → Returned T
  value : T → Returned T

module _ {ℓ} {T : Type ℓ} where
  unfoldable pub build_success : ℕ → String → T → ℕ → Option Text → SuccessResponseBody T
  build_success timestamp message contents status_code path = record {
    success = true;
    status_code = status_code;
    message = message;
    payload = contents;
    meta = none;
    request = none;
    timing = none;
    server = none;
    tags = none;
    timestamp = timestamp;
    path = path_or_none path;
  }

  unfoldable pub from_definition :
      ℕ → ResponseDefinition → T → Option PaginationMeta → SuccessResponseBody T
  unfolding build_success
  from_definition timestamp definition contents meta =
      record (build_success timestamp definition.message contents definition.status_code none) {
        meta = meta;
      }

  abbrev pub stamp :
      ServerMeta → ℕ → SuccessResponseBody T → Option RequestContextData → SuccessResponseBody T
  unfolding build_request_meta build_timing_meta
  stamp server now body none = record body { server = some server }
  stamp server now body (some ctx) = record body {
    request = some (build_request_meta ctx);
    timing = some (build_timing_meta now ctx);
    server = some server;
    tags = tags_or_none ctx.tags body.tags;
  }

  unfoldable pub attach_diagnostics :
      ServerMeta → ℕ → Option RequestContextData → SuccessResponseBody T → SuccessResponseBody T
  unfolding finish build_request_meta build_timing_meta
  attach_diagnostics server now context body = stamp server now body (finish now context)

  unfoldable pub intercept :
      ServerMeta → ℕ → ℕ → Option RequestContextData → ℕ → Text → Returned T → SuccessResponseBody T
  unfolding attach_diagnostics build_success
  intercept server timestamp now context status_code url (structured body) =
      attach_diagnostics server now context body
  intercept server timestamp now context status_code url (value contents) =
      attach_diagnostics server now context
        (build_success timestamp "Operation successful" contents status_code (some url))

  -- The Express helpers: the status and the body that are sent.
  unfoldable pub success :
      ServerMeta
      → ℕ
      → ℕ
      → Option RequestContextData
      → Option Text
      → String
      → T
      → ℕ
      → ℕ × SuccessResponseBody T
  unfolding attach_diagnostics build_success
  success server timestamp now context path message contents status_code = (
    status_code,
    attach_diagnostics server now context
        (build_success timestamp message contents status_code path),
  )

  unfoldable pub created :
      ServerMeta
      → ℕ
      → ℕ
      → Option RequestContextData
      → Option Text
      → String
      → T
      → ℕ × SuccessResponseBody T
  unfolding success
  created server timestamp now context path message contents =
      success server timestamp now context path message contents 201

module _ {ℓ} {T : Type ℓ} where
  unfoldable pub build_paginated :
      ℕ → String → List T → PaginationMeta → Option Text → SuccessResponseBody (List T)
  build_paginated timestamp message items meta path = record {
    success = true;
    status_code = 200;
    message = message;
    payload = items;
    meta = some meta;
    request = none;
    timing = none;
    server = none;
    tags = none;
    timestamp = timestamp;
    path = path_or_none path;
  }

  unfoldable pub paginated :
      ServerMeta
      → ℕ
      → ℕ
      → Option RequestContextData
      → Option Text
      → String
      → List T
      → PaginationMeta
      → ℕ × SuccessResponseBody (List T)
  unfolding attach_diagnostics build_paginated
  paginated server timestamp now context path message items meta = (
    200,
    attach_diagnostics server now context (build_paginated timestamp message items meta path),
  )
