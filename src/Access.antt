-- ===== src/Access.antt =====
-- Who reaches a handler: src/core/guards/jwt-auth.guard.ts, src/core/guards/roles.guard.ts and
-- src/modules/auth/infrastructure/jwt/jwt.strategy.ts. Passport's own verification of the token is
-- third-party: its outcome, a payload or an error, is an input.
pub mod Guarantees
mod Tests
use Prim.Native.String
use text.Mathlib.Text.{◌==◌ as str_eq}
use project_saas_backend.Common.{
  ℕ, String, Text, Option, none, some, List, [], ◌∷◌, Bool, true, false, ◌≡◌, ◌||◌, if◌then◌else◌,
}
use project_saas_backend.Common.Result.{Result, ok, err}
use project_saas_backend.Errors.{HttpObject, HttpMessage, one, absent, object, Thrown, http}
use project_saas_backend.Accounts.{
  Role, super_admin, admin, user, UserStatus, suspended, User, UserTable,
}

pub record AuthenticatedUser : Type 0 where
  pub id : Text
  pub email : Text
  pub role : Role

pub record JwtPayload : Type 0 where
  pub sub : Text
  pub email : Text
  pub role : Role

-- `new UnauthorizedException({...})`, `new ForbiddenException({...})`
-- An exception's `message` is that of the object.
abbrev exception : ℕ → String → String → String → Thrown
exception status name code message =
    http status
      (object (record {
        error = none;
        message = one message;
        code = some code;
        name = some name;
        details = none;
        fields = none;
      }))
      message []

abbrev pub unauthorized : String → String → String → Thrown
unauthorized name code message = exception 401 name code message

abbrev pub forbidden : String → String → String → Thrown
forbidden name code message = exception 403 name code message

-- What passport's verification ends with: `err`, `user`, `info`; of the errors their messages.
pub record Verified : Type 0 where
  pub error : Option String
  pub user : Option AuthenticatedUser
  pub info : Option String

-- `e?.message === 'jwt expired'`
abbrev is_expired : Option String → Bool
is_expired none = false
is_expired (some message) = str_eq message "jwt expired"

pub jwt_rejection : Option String → Option String → Thrown
jwt_rejection error info =
    unauthorized "UnauthorizedError"
      (if is_expired error then "ERR_TOKEN_EXPIRED" else "ERR_TOKEN_INVALID")
      (if is_expired info then "Token has expired." else "Invalid or missing token.")

abbrev accept_user :
    Option String → Option String → Option AuthenticatedUser → Result Thrown AuthenticatedUser
accept_user (some e) info u = err (jwt_rejection (some e) info)
accept_user none info none = err (jwt_rejection none info)
accept_user none info (some u) = ok u

-- `JwtAuthGuard.handleRequest`
unfoldable pub handle_request : Verified → Result Thrown AuthenticatedUser
unfolding jwt_rejection
handle_request v = accept_user v.error v.info v.user

abbrev is_suspended : UserStatus → Bool
is_suspended suspended = true
is_suspended _ = false

abbrev is_deleted : Option ℕ → Bool
is_deleted none = false
is_deleted (some t) = true

abbrev validate_row : Option User → Result Thrown AuthenticatedUser
validate_row none = err (unauthorized "UnauthorizedError" "ERR_TOKEN_INVALID" "Token is invalid.")
validate_row (some u) =
    if is_deleted u.deleted_at
    then err (unauthorized "UnauthorizedError" "ERR_TOKEN_INVALID" "Token is invalid.")
    else if is_suspended u.status
    then err (
        unauthorized "AccountSuspendedError" "ERR_ACCOUNT_SUSPENDED"
          "Your account has been suspended.")
    else ok (record { id = u.id; email = u.email; role = u.role })

-- `JwtStrategy.validate`: the row is read again for each request.
unfoldable pub validate : (T : UserTable) → T.Db → JwtPayload → Result Thrown AuthenticatedUser
validate T db payload = validate_row (T.find_unique db payload.sub)

same_role : Role → Role → Bool
same_role super_admin super_admin = true
same_role admin admin = true
same_role user user = true
same_role _ _ = false

-- `requiredRoles.includes(role)`
pub includes : List Role → Role → Bool
unfolding same_role
includes [] r = false
includes (x ∷ xs) r = same_role x r || includes xs r

role_name : Role → String
role_name super_admin = "SUPER_ADMIN"
role_name admin = "ADMIN"
role_name user = "USER"

join_roles : List Role → String
unfolding role_name
join_roles [] = ""
join_roles (r ∷ []) = role_name r
join_roles (r ∷ s ∷ rs) = String.◌++◌ (role_name r) (String.◌++◌ ", " (join_roles (s ∷ rs)))

abbrev check_role : List Role → Option AuthenticatedUser → Result Thrown Bool
check_role roles none = err (forbidden "ForbiddenError" "ERR_FORBIDDEN" "Access denied.")
check_role roles (some u) =
    if includes roles u.role
    then ok true
    else err (
        forbidden "ForbiddenError" "ERR_INSUFFICIENT_PERMISSIONS" (
          String.◌++◌ "This action requires one of the following roles: "
            (String.◌++◌ (join_roles roles) ".")))

-- `RolesGuard.canActivate`; `none` is a route with no `@Roles`.
unfoldable pub roles_guard : Option (List Role) → Option AuthenticatedUser → Result Thrown Bool
unfolding includes join_roles
roles_guard none u = ok true
roles_guard (some []) u = ok true
roles_guard (some (r ∷ rs)) u = check_role (r ∷ rs) u

-- The outcome of passport for a token: a payload, once signature and expiry are verified, or the
-- message of what is wrong with it.
pub data Token : Type 0 where
  valid : JwtPayload → Token
  refused : String → Token

-- `e.message` of what the strategy throws.
abbrev message_of : Thrown → String
message_of (http status response message stack) = message
message_of _ = ""

-- passport-jwt hands what the verification found wrong over as `info`, and what the strategy's
-- `validate` threw as `err`.
abbrev verified : Result Thrown AuthenticatedUser → Verified
verified (ok u) = record { error = none; user = some u; info = none }
verified (err e) = record { error = some (message_of e); user = none; info = none }

unfoldable pub passport : (T : UserTable) → T.Db → Token → Verified
unfolding validate
passport T db (valid payload) = verified (validate T db payload)
passport T db (refused message) = record { error = none; user = none; info = some message }

abbrev to_option : Result Thrown AuthenticatedUser → Result Thrown (Option AuthenticatedUser)
to_option (ok u) = ok (some u)
to_option (err e) = err e

-- `JwtAuthGuard.canActivate`: a `@Public` route has no user.
can_activate : (T : UserTable) → T.Db → Bool → Token → Result Thrown (Option AuthenticatedUser)
unfolding handle_request passport
can_activate T db true token = ok none
can_activate T db false token = to_option (handle_request (passport T db token))

abbrev after_roles :
    Result Thrown Bool → Option AuthenticatedUser → Result Thrown (Option AuthenticatedUser)
after_roles (ok b) u = ok u
after_roles (err e) u = err e

abbrev then_roles :
    Option (List Role)
    → Result Thrown (Option AuthenticatedUser)
    → Result Thrown (Option AuthenticatedUser)
then_roles roles (err e) = err e
then_roles roles (ok u) = after_roles (roles_guard roles u) u

-- The two guards in the order in which AppModule lists them; the `Bool` marks a `@Public` route.
unfoldable pub guarded :
    (T : UserTable)
    → T.Db
    → Bool
    → Option (List Role)
    → Token
    → Result Thrown (Option AuthenticatedUser)
unfolding can_activate
guarded T db is_public roles token = then_roles roles (can_activate T db is_public token)
