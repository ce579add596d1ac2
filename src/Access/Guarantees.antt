-- ===== src/Access/Guarantees.antt =====
-- What a guarded route can rely on, and what a client with an expired token is told.
use text.Mathlib.Text.{◌==◌ as str_eq}
use project_saas_backend.Common.{
  String, Option, none, some, List, [], ◌∷◌, Bool, true, false, ◌≡◌, ◌≢◌, refl, ap, arith,
  if◌then◌else◌,
}
use mathlib.Core.Path.{subst}
use project_saas_backend.Common.Result.{Result, ok, err}
use project_saas_backend.Errors.{Thrown}
use project_saas_backend.Errors.Filter.{catch, http_code}
use project_saas_backend.Errors.Filter.Envelope.{http_object-catch}
use project_saas_backend.Accounts.{Role, suspended, User, UserTable}
use project_saas_backend.Access.{
  AuthenticatedUser, JwtPayload, Token, refused, valid, validate, validate_row, passport,
  handle_request, guarded, includes, roles_guard, Verified, unauthorized, then_roles, after_roles,
  verified, to_option, can_activate,
}

-- The role is one that the route asks for.
abbrev pub Listed : Option (List Role) → Role → Type 0
Listed none r = Unit
Listed (some []) r = Unit
Listed (some (x ∷ xs)) r = includes (x ∷ xs) r ≡ true

-- What the guards establish before a handler runs.
pub record Admitted (T : UserTable) (db : T.Db) (roles : Option (List Role)) (token : Token)
    (who : AuthenticatedUser) : Type 0 where
  pub payload : JwtPayload
  pub signed : token ≡ valid payload
  pub row : User
  pub found : T.find_unique db payload.sub ≡ some row
  pub alive : row.deleted_at ≡ none
  pub allowed : row.status ≢ suspended
  pub same : who ≡ record { id = row.id; email = row.email; role = row.role }
  pub listed : Listed roles row.role

validate_row-ok :
    (o : Option User) (who : AuthenticatedUser)
    → validate_row o ≡ ok who
    → (row : User) × (o ≡ some row)
      × (row.deleted_at ≡ none)
      × (row.status ≢ suspended)
      × (who ≡ record { id = row.id; email = row.email; role = row.role })
validate_row-ok none who h = absurd (cc)
validate_row-ok (some u) who h = (u, refl, ground arith, ground arith, ground arith)

roles_guard-ok :
    (roles : Option (List Role)) (u : AuthenticatedUser) (b : Bool)
    → roles_guard roles (some u) ≡ ok b
    → Listed roles u.role
unfolding roles_guard
roles_guard-ok none u b h = tt
roles_guard-ok (some []) u b h = tt
roles_guard-ok (some (x ∷ xs)) u b h = ground arith

handle_request-ok :
    (v : Verified) (u : AuthenticatedUser) → handle_request v ≡ ok u → v.user ≡ some u
unfolding handle_request
handle_request-ok v u h = ground arith

after_roles-ok :
    (g : Result Thrown Bool) (o p : Option AuthenticatedUser)
    → after_roles g o ≡ ok p
    → (b : Bool) × (g ≡ ok b) × (o ≡ p)
after_roles-ok (ok b) o p h = (b, refl, cc)
after_roles-ok (err e) o p h = absurd (cc)

then_roles-some :
    (roles : Option (List Role)) (r : Result Thrown (Option AuthenticatedUser))
    (u : AuthenticatedUser)
    → then_roles roles r ≡ ok (some u)
    → (r ≡ ok (some u)) × Listed roles u.role
then_roles-some roles (err e) u h = absurd (cc)
then_roles-some roles (ok o) u h =
    let (b, g, same) = after_roles-ok (roles_guard roles o) o (some u) h in
    (ap ok same, roles_guard-ok roles u b (subst (λ x. roles_guard roles x ≡ ok b) same g))

verified-user :
    (r : Result Thrown AuthenticatedUser) (u : AuthenticatedUser)
    → (verified r).user ≡ some u
    → r ≡ ok u
verified-user (ok v) u h = cc
verified-user (err e) u h = absurd (cc)

to_option-some :
    (r : Result Thrown AuthenticatedUser) (u : AuthenticatedUser)
    → to_option r ≡ ok (some u)
    → r ≡ ok u
to_option-some (ok v) u h = cc
to_option-some (err e) u h = absurd (cc)

can_activate-user :
    (T : UserTable) (db : T.Db) (token : Token) (u : AuthenticatedUser)
    → can_activate T db false token ≡ ok (some u)
    → (payload : JwtPayload) × (token ≡ valid payload) × (validate T db payload ≡ ok u)
unfolding can_activate passport
can_activate-user T db (valid payload) u h = (
  payload,
  refl,
  verified-user (validate T db payload) u (
      handle_request-ok (verified (validate T db payload)) u
        (to_option-some (handle_request (verified (validate T db payload))) u h)),
)
can_activate-user T db (refused message) u h = absurd (unfold handle_request in cc (h))

-- A handler that runs for a user, on a route that is not public, runs for a row that is in the
-- table at that moment, is not soft-deleted and not suspended, and it gets that row's id, email and
-- role; if the route lists roles, the row's role is one of them.
pub guarded-Admitted :
    (T : UserTable) (db : T.Db) (roles : Option (List Role)) (token : Token)
    (who : AuthenticatedUser)
    → guarded T db false roles token ≡ ok (some who)
    → Admitted T db roles token who
unfolding guarded validate
guarded-Admitted T db roles token who h =
    let (reached, listed) = then_roles-some roles (can_activate T db false token) who h in
    let (payload, signed, valid_row) = can_activate-user T db token who reached in
    let (row, found, alive, allowed, same) =
      validate_row-ok (T.find_unique db payload.sub) who valid_row in
    record {
      payload = payload;
      signed = signed;
      row = row;
      found = found;
      alive = alive;
      allowed = allowed;
      same = same;
      listed = subst (λ (x : AuthenticatedUser). Listed roles x.role) same listed;
    }

validate_row_admits :
    (o : Option User) (row : User)
    → o ≡ some row
    → row.deleted_at ≡ none
    → row.status ≢ suspended
    → validate_row o ≡ ok (record { id = row.id; email = row.email; role = row.role })
validate_row_admits o row found alive allowed = ground arith

roles_guard_admits :
    (roles : Option (List Role)) (u : AuthenticatedUser)
    → Listed roles u.role
    → roles_guard roles (some u) ≡ ok true
unfolding roles_guard
roles_guard_admits none u h = refl
roles_guard_admits (some []) u h = refl
roles_guard_admits (some (x ∷ xs)) u h = ground arith

-- A signed token for a row that is not soft-deleted and not suspended passes every route whose
-- roles the row's role is among: nothing else is asked of the row, so an inactive account passes.
pub guarded_admits :
    (T : UserTable) (db : T.Db) (roles : Option (List Role)) (payload : JwtPayload) (row : User)
    → T.find_unique db payload.sub ≡ some row
    → row.deleted_at ≡ none
    → row.status ≢ suspended
    → Listed roles row.role
    → guarded T db false roles (valid payload)
      ≡ ok (some (record { id = row.id; email = row.email; role = row.role }))
unfolding guarded validate
guarded_admits T db roles payload row found alive allowed listed =
    rw (validate_row_admits (T.find_unique db payload.sub) row found alive allowed) (
      rw
        (roles_guard_admits roles (record { id = row.id; email = row.email; role = row.role })
          listed)
        refl)

-- A token that passport refuses is answered with status 401. The exception's code is
-- ERR_TOKEN_INVALID for an expired token too, and what the filter sends is the code that it makes
-- of the status: only the message tells an expired token from another.
pub refused_code :
    (T : UserTable) (db : T.Db) (roles : Option (List Role)) (message : String) (production : Bool)
    → let e = unauthorized "UnauthorizedError" "ERR_TOKEN_INVALID" (
        if str_eq message "jwt expired"
        then "Token has expired."
        else "Invalid or missing token.") in
      (guarded T db false roles (refused message) ≡ err e)
      × ((catch production e).status_code ≡ 401)
      × ((catch production e).error.code ≡ http_code 401)
unfolding guarded handle_request
refused_code T db roles message production =
    let told = http_object-catch production 401 _ _ [] tt in (refl, told.0, told.1)
