-- ===== src/Auth/Access.antt =====
-- Who passes the dependency, and with what answer the others are turned away.
use dawos_agent.Prelude.{
  String, ℕ, ◌≡◌, ◌↔◌, arith, some, none, ◌⊎◌, true, false, Option-cases, inl, inr,
}
use dawos_agent.Rbac.{Role, KeyResolver, resolve, role_has_access, role_value}
use dawos_agent.Rbac.Hierarchy.{role_has_access_trans}
use dawos_agent.Auth.{Request, granted, http_exception, require_role}

-- The request carries the key, the key resolves to a role with the access that is asked for, and
-- the request is left as it was but for the role that is stored on it.
pub record IsGranted (resolver : KeyResolver) (min_role : Role) (request after : Request)
    (key : String) : Type 0 where
  pub role : Role
  pub sent : request.key ≡ some key
  pub resolved : resolve resolver key ≡ some role
  pub access : role_has_access role min_role ≡ true
  pub stored : after ≡ record request { state_role = some (role_value role) }

module _ (resolver : KeyResolver) (min_role : Role) (request : Request) where
  granted_sound :
      (after : Request) (key : String)
      → require_role resolver min_role request ≡ granted key after
      → IsGranted resolver min_role request after key
  unfolding require_role
  granted_sound after key h = elim (Option-cases (resolve resolver key)) [
    | inl unknown ↦ absurd (ground arith)
    | inr (role, known) ↦ record {
      role = role;
      sent = ground arith;
      resolved = known;
      access = ground arith;
      stored = ground arith;
    }
  ]

  granted_complete :
      {after : Request} {key : String}
      → IsGranted resolver min_role request after key
      → require_role resolver min_role request ≡ granted key after
  unfolding require_role
  granted_complete g = ground arith

  -- 401 is the answer exactly when there is no key or the key is unknown, and 403 exactly when the
  -- key resolves to a role without the access that is asked for. There is no other error.
  pub require_role-http_exception_iff :
      (code : ℕ)
      → (require_role resolver min_role request ≡ http_exception code) ↔ (
          ((code ≡ 401) × (request.key ≡ none))
          ⊎ ((key : String) × (request.key ≡ some key)
              × (((code ≡ 401) × (resolve resolver key ≡ none))
                  ⊎ ((role : Role) × (code ≡ 403)
                      × (resolve resolver key ≡ some role)
                      × (role_has_access role min_role ≡ false)))))
  unfolding require_role
  require_role-http_exception_iff code = ground arith

-- A request is granted exactly when it carries a key that resolves to a role with the access that
-- is asked for; what is stored on the request is that role.
pub require_role-granted_iff :
    (resolver : KeyResolver) (min_role : Role) (request after : Request) (key : String)
    → (require_role resolver min_role request ≡ granted key after)
      ↔ IsGranted resolver min_role request after key
require_role-granted_iff resolver min_role request after key =
    (granted_sound resolver min_role request after key, granted_complete resolver min_role request)

-- What passes at one role passes with the same result at every role that this one has access to;
-- so what `AdminKey` lets in is let in everywhere.
pub require_role_mono :
    (resolver : KeyResolver) (strict lax : Role) (request after : Request) (key : String)
    → role_has_access strict lax ≡ true
    → require_role resolver strict request ≡ granted key after
    → require_role resolver lax request ≡ granted key after
require_role_mono resolver strict lax request after key lower h =
    let g = granted_sound resolver strict request after key h in
    granted_complete resolver lax request (record {
      role = g.role;
      sent = g.sent;
      resolved = g.resolved;
      access = role_has_access_trans g.role strict lax g.access lower;
      stored = g.stored;
    })
