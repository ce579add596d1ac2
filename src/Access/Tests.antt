-- ===== src/Access/Tests.antt =====
-- Runs of the guards, and the witnesses of their theorems.
use project_saas_backend.Common.{
  codes, text_eq, Option, none, some, List, [], ◌∷◌, Bool, false, ◌≡◌, refl,
}
use project_saas_backend.Common.Result.{ok, err}
use project_saas_backend.Errors.Filter.{catch, http_code}
use project_saas_backend.Accounts.{Role, admin, super_admin, User, active, default_row}
use project_saas_backend.Accounts.Memory.{memory_table, find_unique}
use project_saas_backend.Access.{
  AuthenticatedUser, JwtPayload, valid, refused, guarded, roles_guard, unauthorized,
}
use project_saas_backend.Access.Guarantees.{Admitted, guarded-Admitted}

abbrev root : User
root =
    let u = default_row (codes "u-1") 1 (record {
      email = codes "root@example.com";
      password = [];
      first_name = codes "Root";
      last_name = codes "User";
      phone = none;
    }) in
    record u { role = admin; status = active }

abbrev payload : JwtPayload
payload = record { sub = codes "u-1"; email = codes "root@example.com"; role = Role.user }

abbrev staff : Option (List Role)
staff = some (admin ∷ super_admin ∷ [])

abbrev as_root : AuthenticatedUser
as_root = record { id = codes "u-1"; email = codes "root@example.com"; role = admin }

root_passes : guarded memory_table (root ∷ []) false staff (valid payload) ≡ ok (some as_root)
unfolding guarded find_unique text_eq codes roles_guard
root_passes = refl

guarded-Admitted_example : Admitted memory_table (root ∷ []) staff (valid payload) as_root
guarded-Admitted_example =
    guarded-Admitted memory_table (root ∷ []) staff (valid payload) as_root root_passes

abbrev Expired : (production : Bool) → Type 0
Expired production =
    let e = unauthorized "UnauthorizedError" "ERR_TOKEN_INVALID" "Token has expired." in
    (guarded memory_table (root ∷ []) false staff (refused "jwt expired") ≡ err e)
    × ((catch production e).status_code ≡ 401)
    × ((catch production e).error.code ≡ http_code 401)
