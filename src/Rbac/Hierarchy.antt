-- ===== src/Rbac/Hierarchy.antt =====
-- The order of the roles.
use dawos_agent.Prelude.{◌≡◌, ◌⊎◌, true, arith}
use dawos_agent.Rbac.{Role, viewer, operator, admin, role_has_access}

-- The roles are totally ordered by access: of two roles one has the access of the other, and roles
-- with the same access are the same role.
pub role_has_access_total :
    (a b : Role)
    → ((role_has_access a b ≡ true) ⊎ (role_has_access b a ≡ true))
      × (role_has_access a b ≡ true → role_has_access b a ≡ true → a ≡ b)
unfolding role_has_access
role_has_access_total viewer b = ground arith
role_has_access_total operator b = ground arith
role_has_access_total admin b = ground arith

-- Access is handed down: a role that may do what `b` may do, may do all that is open to `b`.
pub role_has_access_trans :
    (a b c : Role)
    → role_has_access a b ≡ true
    → role_has_access b c ≡ true
    → role_has_access a c ≡ true
unfolding role_has_access
role_has_access_trans a b c h k = ground arith
