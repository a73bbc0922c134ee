-- ===== src/Auth/Tests.antt =====
-- Runs of the dependency, and its theorems at concrete inputs.
use dawos_agent.Prelude.{String, ◌≡◌, refl, some, none, [], ◌∷◌}
use dawos_agent.Rbac.{
  Role, viewer, operator, admin, KeyResolver, resolve, role_has_access, role_value,
}
use dawos_agent.Auth.{Request, granted, http_exception, require_role, operator_key}
use dawos_agent.Auth.Access.{IsGranted, require_role-granted_iff}

abbrev resolver : KeyResolver
resolver = record { primary_key = "root"; extra_keys = ("mon", viewer) ∷ [] }

abbrev with_key : String → Request
with_key k = record { key = some k; state_role = none }

abbrev stored : String → Role → Request
stored k role = record { key = some k; state_role = some (role_value role) }

primary_passes : operator_key resolver (with_key "root") ≡ granted "root" (stored "root" admin)
unfolding require_role resolve role_has_access
primary_passes = refl

viewer_forbidden : operator_key resolver (with_key "mon") ≡ http_exception 403
unfolding require_role resolve role_has_access
viewer_forbidden = refl

require_role-granted_iff_example :
    IsGranted resolver operator (with_key "root") (stored "root" admin) "root"
require_role-granted_iff_example =
    (require_role-granted_iff resolver operator (with_key "root") (stored "root" admin) "root").0
      primary_passes
