-- ===== src/Errors/Filter.antt =====
-- src/core/filters/all-exceptions.filter.ts: every thrown value becomes one error envelope.
-- `production` stands for `process.env.NODE_ENV === 'production'`.
pub mod Envelope
mod Tests
use Prim.Native.String
use text.Mathlib.Text.{◌==◌ as str_eq, starts_with as str_starts_with}
use project_saas_backend.Common.{
  ℕ, String, Text, codes, Option, none, some, List, [], ◌∷◌, ◌++◌, map, Bool, true, false, leb, ltb,
  length, if◌then◌else◌, ◌==◌,
}
use project_saas_backend.Common.Decimal.{decimal, decimal_string}
use project_saas_backend.Errors.{
  FieldError, ApiErrorPayload, ApiError, HttpMessage, one, many, absent, HttpObject, HttpResponse,
  object, plain, Thrown, api, http, coded, native, other,
}

pub record Resolved : Type 0 where
  pub status_code : ℕ
  pub error : ApiErrorPayload

abbrev plain_payload : String → String → String → Option Text → ApiErrorPayload
plain_payload name code message details = record {
  name = name;
  code = code;
  message = message;
  details = details;
  fields = none;
  stack = none;
}

-- `a || b` on an optional text: an empty text is falsy.
abbrev or_empty : Option String → String → String
or_empty none d = d
or_empty (some s) d = if str_eq s "" then d else s

unfoldable pub http_code : ℕ → String
http_code status = String.◌++◌ "ERR_HTTP_" (decimal_string status)

-- `msg.split(' ')[0] || 'unknown'`
first_word : Text → Text
first_word [] = []
first_word (c ∷ s) = if c == b' ' then [] else c ∷ first_word s

abbrev or_unknown : Text → Text
or_unknown [] = codes "unknown"
or_unknown (c ∷ s) = c ∷ s

constraint_of : Option String → Option Text
constraint_of none = none
constraint_of (some s) = some (codes s)

field_of : Option String → Text → FieldError
unfolding first_word constraint_of
field_of error msg = record {
  field = or_unknown (first_word msg);
  message = msg;
  value = none;
  constraint = constraint_of error;
}

validation_payload : List FieldError → ApiErrorPayload
validation_payload fields = record {
  name = "ValidationError";
  code = "ERR_VALIDATION_FAILED";
  message = "The request contains invalid data.";
  details = some (decimal (length fields) ++ codes " field(s) failed validation.");
  fields = some fields;
  stack = none;
}

resolve_http : ℕ → HttpResponse → String → ApiErrorPayload
unfolding validation_payload field_of
resolve_http status (object res) message = elim res.message [
  | many messages ↦ validation_payload (map (field_of res.error) messages)
  | one text ↦
      plain_payload (or_empty res.error "HttpError") (http_code status)
        (or_empty (some text) message) none
  | absent ↦ plain_payload (or_empty res.error "HttpError") (http_code status) message none
]
resolve_http status (plain text) message = plain_payload "HttpError" (http_code status) text none

is_prisma_error : String → Bool
is_prisma_error code = str_starts_with code "P"

join_names : List String → String
join_names [] = ""
join_names (n ∷ []) = n
join_names (n ∷ m ∷ ns) = String.◌++◌ n (String.◌++◌ ", " (join_names (m ∷ ns)))

-- `fields?.join(', ') || 'value'`
target_names : Option (List String) → String
unfolding join_names
target_names none = "value"
target_names (some names) = or_empty (some (join_names names)) "value"

unless : Bool → Text → Option Text
unless true details = none
unless false details = some details

handle_prisma_error : Bool → String → Text → Option (List String) → Resolved
unfolding unless target_names
handle_prisma_error production code message target =
    if str_eq code "P2002"
    then record {
      status_code = 409;
      error =
          plain_payload "ConflictError" "ERR_UNIQUE_CONSTRAINT"
            (String.◌++◌ "A record with this "
              (String.◌++◌ (target_names target) " already exists."))
            (some message);
    }
    else if str_eq code "P2025"
    then record {
      status_code = 404;
      error =
          plain_payload "NotFoundError" "ERR_RECORD_NOT_FOUND" "The requested record was not found."
            (some message);
    }
    else if str_eq code "P2003"
    then record {
      status_code = 400;
      error =
          plain_payload "ForeignKeyError" "ERR_FOREIGN_KEY_CONSTRAINT" "Related record not found."
            (some message);
    }
    else record {
      status_code = 500;
      error =
          plain_payload "DatabaseError" "ERR_DATABASE" "A database error occurred."
            (unless production message);
    }

unknown_error : Bool → Text → Resolved
unfolding unless
unknown_error production message = record {
  status_code = 500;
  error =
      plain_payload "InternalServerError" "ERR_INTERNAL_SERVER"
        "An unexpected error occurred. Please try again later." (unless production message);
}

pub resolve_exception : Bool → Thrown → Resolved
unfolding handle_prisma_error unknown_error resolve_http is_prisma_error
resolve_exception production (api e stack) = record { status_code = e.status; error = e.payload }
resolve_exception production (http status response message stack) = record {
  status_code = status;
  error = resolve_http status response message;
}
resolve_exception production (coded code message target stack) =
    if is_prisma_error code
    then handle_prisma_error production code message target
    else unknown_error production message
resolve_exception production (native message stack) = unknown_error production message
resolve_exception production other =
    unknown_error production (codes "An unexpected error occurred.")

-- `exception instanceof Error`, with its stack trace.
stack_of : Thrown → Option Text
stack_of (api e stack) = some stack
stack_of (http status response message stack) = some stack
stack_of (coded code message target stack) = some stack
stack_of (native message stack) = some stack
stack_of other = none

attach_stack : Bool → Option Text → Resolved → Resolved
attach_stack false (some stack) r = record r { error = record (r.error) { stack = some stack } }
attach_stack _ _ r = r

pub data LogLevel : Type 0 where
  error warn : LogLevel

pub log_level : ℕ → LogLevel
log_level status_code = if leb 500 status_code then error else warn

-- `catch`: the status and error payload that the client is sent.
unfoldable pub catch : Bool → Thrown → Resolved
unfolding resolve_exception stack_of attach_stack
catch production exception =
    attach_stack production (stack_of exception) (resolve_exception production exception)
