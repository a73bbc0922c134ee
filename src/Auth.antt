-- ===== src/Auth.antt =====
-- dawos_agent/auth.py: the FastAPI dependency that enforces a minimum role.
pub mod Access
mod Tests
use dawos_agent.Prelude.{ℕ, String, Option, none, some, if◌then◌else◌}
use dawos_agent.Rbac.{
  Role, viewer, operator, admin, KeyResolver, resolve, role_has_access, role_value,
}

-- The part of a request that the dependency reads and writes: the `X-API-Key` header, and
-- `request.state.role`.
pub record Request : Type 0 where
  pub key : Option String
  pub state_role : Option String

-- The dependency returns the key with the request as it leaves it, or raises an `HTTPException`.
pub data Outcome : Type 0 where
  granted : String → Request → Outcome
  http_exception : ℕ → Outcome

-- The code after the resolution of the key.
check_role : Role → String → Request → Option Role → Outcome
check_role min_role key request none = http_exception 401
check_role min_role key request (some resolved) =
    if role_has_access resolved min_role
    then granted key (record request { state_role = some (role_value resolved) })
    else http_exception 403

dependency : KeyResolver → Role → Request → Option String → Outcome
unfolding check_role
dependency resolver min_role request none = http_exception 401
dependency resolver min_role request (some key) =
    check_role min_role key request (resolve resolver key)

unfoldable pub require_role : KeyResolver → Role → Request → Outcome
unfolding dependency
require_role resolver min_role request = dependency resolver min_role request request.key

-- `ViewerKey`, `OperatorKey`, `AdminKey`
abbrev pub viewer_key : KeyResolver → Request → Outcome
viewer_key resolver = require_role resolver viewer

abbrev pub operator_key : KeyResolver → Request → Outcome
operator_key resolver = require_role resolver operator

abbrev pub admin_key : KeyResolver → Request → Outcome
admin_key resolver = require_role resolver admin
