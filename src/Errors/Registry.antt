-- ===== src/Errors/Registry.antt =====
-- src/shared/constants/error.constants.ts: the typed application errors.
use project_saas_backend.Common.{ℕ, String, List, [], ◌∷◌}

pub record ErrorDefinition : Type 0 where
  pub code : String
  pub message : String
  pub status_code : ℕ
  pub name : String

abbrev pub internal_server_error : ErrorDefinition
internal_server_error = record {
  code = "ERR_INTERNAL_SERVER";
  message = "An unexpected error occurred. Please try again later.";
  status_code = 500;
  name = "InternalServerError";
}

abbrev pub bad_request : ErrorDefinition
bad_request = record {
  code = "ERR_BAD_REQUEST";
  message = "The request is invalid or malformed.";
  status_code = 400;
  name = "BadRequestError";
}

abbrev pub validation_failed : ErrorDefinition
validation_failed = record {
  code = "ERR_VALIDATION_FAILED";
  message = "The request contains invalid data.";
  status_code = 422;
  name = "ValidationError";
}

abbrev pub not_found : ErrorDefinition
not_found = record {
  code = "ERR_NOT_FOUND";
  message = "The requested resource was not found.";
  status_code = 404;
  name = "NotFoundError";
}

abbrev pub unauthorized : ErrorDefinition
unauthorized = record {
  code = "ERR_UNAUTHORIZED";
  message = "Authentication is required to access this resource.";
  status_code = 401;
  name = "UnauthorizedError";
}

abbrev pub forbidden : ErrorDefinition
forbidden = record {
  code = "ERR_FORBIDDEN";
  message = "You do not have permission to access this resource.";
  status_code = 403;
  name = "ForbiddenError";
}

abbrev pub conflict : ErrorDefinition
conflict = record {
  code = "ERR_CONFLICT";
  message = "The request conflicts with the current state of the resource.";
  status_code = 409;
  name = "ConflictError";
}

abbrev pub too_many_requests : ErrorDefinition
too_many_requests = record {
  code = "ERR_TOO_MANY_REQUESTS";
  message = "Too many requests. Please slow down.";
  status_code = 429;
  name = "TooManyRequestsError";
}

abbrev pub invalid_credentials : ErrorDefinition
invalid_credentials = record {
  code = "ERR_INVALID_CREDENTIALS";
  message = "Invalid email or password.";
  status_code = 401;
  name = "InvalidCredentialsError";
}

abbrev pub token_expired : ErrorDefinition
token_expired = record {
  code = "ERR_TOKEN_EXPIRED";
  message = "Your session has expired. Please log in again.";
  status_code = 401;
  name = "TokenExpiredError";
}

abbrev pub token_invalid : ErrorDefinition
token_invalid = record {
  code = "ERR_TOKEN_INVALID";
  message = "The provided token is invalid.";
  status_code = 401;
  name = "TokenInvalidError";
}

abbrev pub refresh_token_invalid : ErrorDefinition
refresh_token_invalid = record {
  code = "ERR_REFRESH_TOKEN_INVALID";
  message = "Refresh token is invalid or has expired.";
  status_code = 401;
  name = "RefreshTokenInvalidError";
}

abbrev pub email_not_verified : ErrorDefinition
email_not_verified = record {
  code = "ERR_EMAIL_NOT_VERIFIED";
  message = "Please verify your email address before logging in.";
  status_code = 403;
  name = "EmailNotVerifiedError";
}

abbrev pub account_suspended : ErrorDefinition
account_suspended = record {
  code = "ERR_ACCOUNT_SUSPENDED";
  message = "Your account has been suspended. Please contact support.";
  status_code = 403;
  name = "AccountSuspendedError";
}

abbrev pub account_inactive : ErrorDefinition
account_inactive = record {
  code = "ERR_ACCOUNT_INACTIVE";
  message = "Your account is inactive.";
  status_code = 403;
  name = "AccountInactiveError";
}

abbrev pub user_not_found : ErrorDefinition
user_not_found = record {
  code = "ERR_USER_NOT_FOUND";
  message = "User not found.";
  status_code = 404;
  name = "UserNotFoundError";
}

abbrev pub email_already_exists : ErrorDefinition
email_already_exists = record {
  code = "ERR_EMAIL_ALREADY_EXISTS";
  message = "An account with this email already exists.";
  status_code = 409;
  name = "EmailAlreadyExistsError";
}

abbrev pub invalid_password : ErrorDefinition
invalid_password = record {
  code = "ERR_INVALID_PASSWORD";
  message = "Current password is incorrect.";
  status_code = 400;
  name = "InvalidPasswordError";
}

abbrev pub file_not_uploaded : ErrorDefinition
file_not_uploaded = record {
  code = "ERR_FILE_NOT_UPLOADED";
  message = "No file was provided in the request.";
  status_code = 400;
  name = "FileNotUploadedError";
}

abbrev pub file_url_required : ErrorDefinition
file_url_required = record {
  code = "ERR_FILE_URL_REQUIRED";
  message = "File URL is required.";
  status_code = 400;
  name = "FileUrlRequiredError";
}

abbrev pub file_not_found : ErrorDefinition
file_not_found = record {
  code = "ERR_FILE_NOT_FOUND";
  message = "File not found or already deleted.";
  status_code = 404;
  name = "FileNotFoundError";
}

abbrev pub file_too_large : ErrorDefinition
file_too_large = record {
  code = "ERR_FILE_TOO_LARGE";
  message = "File size exceeds the maximum allowed limit.";
  status_code = 413;
  name = "FileTooLargeError";
}

abbrev pub invalid_file_type : ErrorDefinition
invalid_file_type = record {
  code = "ERR_INVALID_FILE_TYPE";
  message = "The uploaded file type is not allowed.";
  status_code = 415;
  name = "InvalidFileTypeError";
}

abbrev pub duplicate_request : ErrorDefinition
duplicate_request = record {
  code = "ERR_DUPLICATE_REQUEST";
  message = "A duplicate request was detected. Please wait before retrying.";
  status_code = 409;
  name = "DuplicateRequestError";
}

abbrev pub idempotency_key_mismatch : ErrorDefinition
idempotency_key_mismatch = record {
  code = "ERR_IDEMPOTENCY_KEY_MISMATCH";
  message = "This Idempotency-Key was already used with a different request payload.";
  status_code = 422;
  name = "IdempotencyKeyMismatchError";
}

-- Every entry of `Errors`.
abbrev pub all : List ErrorDefinition
all =
    internal_server_error ∷ bad_request ∷ validation_failed ∷ not_found ∷ unauthorized ∷ forbidden
    ∷ conflict ∷ too_many_requests ∷ invalid_credentials ∷ token_expired ∷ token_invalid
    ∷ refresh_token_invalid ∷ email_not_verified ∷ account_suspended ∷ account_inactive
    ∷ user_not_found ∷ email_already_exists ∷ invalid_password ∷ file_not_uploaded
    ∷ file_url_required ∷ file_not_found ∷ file_too_large ∷ invalid_file_type ∷ duplicate_request
    ∷ idempotency_key_mismatch ∷ []
