-- ===== src/Errors.antt =====
-- src/core/exceptions/api.error.ts: the application's exception class, and the other values that
-- code of the program throws.
pub mod Registry
pub mod Filter
pub use Registry.{ErrorDefinition}
use project_saas_backend.Common.{ℕ, String, Text, Option, none, some, List, []}

pub record FieldError : Type 0 where
  pub field : Text
  pub message : Text
  -- the rejected value, as text
  pub value : Option Text
  pub constraint : Option Text

pub record ApiErrorPayload : Type 0 where
  pub name : String
  pub code : String
  pub message : String
  pub details : Option Text
  pub fields : Option (List FieldError)
  pub stack : Option Text

-- `ApiError` extends HttpException: its response is the payload, its status the status code.
pub record ApiError : Type 0 where
  pub payload : ApiErrorPayload
  pub status : ℕ

-- The constructor; `code` and `name` have defaults.
pub record ApiErrorOptions : Type 0 where
  pub code : Option String
  pub name : Option String
  pub details : Option Text
  pub fields : Option (List FieldError)

abbrev or_default : Option String → String → String
or_default none d = d
or_default (some s) d = s

unfoldable pub new : String → ℕ → ApiErrorOptions → ApiError
new message status_code options = record {
  payload = record {
    name = or_default options.name "ApiError";
    code = or_default options.code "ERR_UNKNOWN";
    message = message;
    details = options.details;
    fields = options.fields;
    stack = none;
  };
  status = status_code;
}

unfoldable pub from_definition : ErrorDefinition → Option Text → Option (List FieldError) → ApiError
unfolding new
from_definition definition details fields = new definition.message definition.status_code (record {
  code = some definition.code;
  name = some definition.name;
  details = details;
  fields = fields;
})

-- The factories by HTTP status; `code` is `none` where the caller leaves the default.
abbrev factory : String → ℕ → String → String → Option Text → Option (List FieldError) → ApiError
factory message status code name details fields =
    new message status
      (record { code = some code; name = some name; details = details; fields = fields })

pub bad_request : String → Option String → Option Text → ApiError
unfolding new
bad_request message code details =
    factory message 400 (or_default code "ERR_BAD_REQUEST") "BadRequestError" details none

pub unauthorized : String → Option String → Option Text → ApiError
unfolding new
unauthorized message code details =
    factory message 401 (or_default code "ERR_UNAUTHORIZED") "UnauthorizedError" details none

pub forbidden : String → Option String → Option Text → ApiError
unfolding new
forbidden message code details =
    factory message 403 (or_default code "ERR_FORBIDDEN") "ForbiddenError" details none

pub not_found : String → Option String → Option Text → ApiError
unfolding new
not_found message code details =
    factory message 404 (or_default code "ERR_NOT_FOUND") "NotFoundError" details none

pub conflict : String → Option String → Option Text → ApiError
unfolding new
conflict message code details =
    factory message 409 (or_default code "ERR_CONFLICT") "ConflictError" details none

pub unprocessable : String → Option String → Option (List FieldError) → ApiError
unfolding new
unprocessable message code fields =
    factory message 422 (or_default code "ERR_UNPROCESSABLE") "UnprocessableEntityError" none fields

pub internal : String → Option String → ApiError
unfolding new
internal message code =
    factory message 500 (or_default code "ERR_INTERNAL_SERVER") "InternalServerError" none none

pub validation : String → List FieldError → ApiError
unfolding new
validation message fields =
    factory message 422 "ERR_VALIDATION_FAILED" "ValidationError" none (some fields)

pub user_not_found : ApiError
unfolding from_definition
user_not_found = from_definition Registry.user_not_found none none

pub invalid_credentials : ApiError
unfolding from_definition
invalid_credentials = from_definition Registry.invalid_credentials none none

pub email_already_exists : ApiError
unfolding from_definition
email_already_exists = from_definition Registry.email_already_exists none none

pub token_expired : ApiError
unfolding from_definition
token_expired = from_definition Registry.token_expired none none

pub token_invalid : ApiError
unfolding from_definition
token_invalid = from_definition Registry.token_invalid none none

-- The `message` of a Nest exception's response object: one text, a list of texts (class-validator),
-- or absent.
pub data HttpMessage : Type 0 where
  one : String → HttpMessage
  many : List Text → HttpMessage
  absent : HttpMessage

-- An object given to a Nest exception: its fields `error`, `message`, `code`, `name`, `details`.
pub record HttpObject : Type 0 where
  pub error : Option String
  pub message : HttpMessage
  pub code : Option String
  pub name : Option String
  pub details : Option Text
  pub fields : Option (List FieldError)

pub data HttpResponse : Type 0 where
  object : HttpObject → HttpResponse
  plain : String → HttpResponse

-- What is thrown; an Error carries a stack trace.
pub data Thrown : Type 0 where
  api : ApiError → Text → Thrown
  -- a Nest exception: status, response, message, stack
  http : ℕ → HttpResponse → String → Text → Thrown
  -- any other Error with a text `code`: code, message, `meta.target`, stack
  coded : String → Text → Option (List String) → Text → Thrown
  -- any other Error: message, stack
  native : Text → Text → Thrown
  -- a value that is no Error
  other : Thrown

-- An `ApiError` as a thrown value; the programs that throw never read the stack trace.
abbrev pub thrown_api : ApiError → Thrown
thrown_api e = api e []
