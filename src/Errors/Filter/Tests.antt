-- ===== src/Errors/Filter/Tests.antt =====
-- The witnesses of the theorems on the exception filter.
use text.Mathlib.TextEquality.{eq_iff}
use project_saas_backend.Common.{codes, none, some, [], ◌∷◌, true, ◌≡◌}
use project_saas_backend.Errors.{one, HttpObject, coded, native}
use project_saas_backend.Errors.Filter.{catch}
use project_saas_backend.Errors.Filter.Envelope.{IsUnmapped, production_hides}

connection_IsUnmapped : IsUnmapped "P1001"
connection_IsUnmapped = (
  λ e. absurd (cc ((eq_iff "P1001" "P2002").1 e)),
  λ e. absurd (cc ((eq_iff "P1001" "P2025").1 e)),
  λ e. absurd (cc ((eq_iff "P1001" "P2003").1 e)),
)

production_hides_example :
    (catch true (native (codes "host db-1") (codes "at connect"))
      ≡ catch true (native (codes "host db-2") []))
    × (catch true (coded "P1001" (codes "host db-1") none (codes "at connect"))
        ≡ catch true (coded "P1001" (codes "host db-2") (some ("email" ∷ [])) []))
production_hides_example =
    production_hides "P1001" (codes "host db-1") (codes "host db-2") (codes "at connect") [] none
      (some ("email" ∷ [])) connection_IsUnmapped

abbrev forbidden_object : HttpObject
forbidden_object = record {
  error = some "Forbidden";
  message = one "Insufficient permissions";
  code = some "ERR_INSUFFICIENT_PERMISSIONS";
  name = some "InsufficientPermissionsError";
  details = some (codes "Required: ADMIN");
  fields = none;
}
