-- ===== src/Ws/Keys.antt =====
-- Who gets through the handshake.
use dawos_agent.Prelude.{
  String, Option, none, some, ◌≡◌, ◌≢◌, ◌↔◌, arith, string_eq, eq_iff, inl, inr, refl, Option-cases,
}
use dawos_agent.Rbac.{Role, KeyResolver, resolve, role_has_access}
use dawos_agent.Ws.{accepted, invalid_key, insufficient, authenticate, check_key, or_next}

accepted_iff :
    (resolver : KeyResolver) (sent : Option String)
    → (check_key resolver sent ≡ accepted)
      ↔ ((key : String) × (sent ≡ some key) × ((role : Role) × (resolve resolver key ≡ some role)))
unfolding check_key role_has_access
accepted_iff resolver none = (λ h. cc, λ h. ground arith)
accepted_iff resolver (some key) = elim (Option-cases (resolve resolver key)) [
  | inl unknown ↦ (λ h. absurd (ground arith), λ h. ground arith)
  | inr (role, known) ↦ (λ h. (key, refl, (role, known)), λ h. ground arith)
]

-- Every role has the access of a viewer, so nobody is turned away for a lack of it: the handshake
-- accepts exactly when the first key that is not empty, in the order header, subprotocol, query,
-- resolves to a role. A wrong key in the header is not made good by a right one in the query.
pub authenticate_lem :
    (resolver : KeyResolver) (header subprotocol query : Option String)
    → ((authenticate resolver header subprotocol query ≡ accepted) ↔ (
        (key : String) × (or_next header (or_next subprotocol (or_next query none)) ≡ some key)
        × ((role : Role) × (resolve resolver key ≡ some role))))
      × (authenticate resolver header subprotocol query ≢ insufficient)
      × ((key : String)
          → header ≡ some key
          → key ≢ ""
          → resolve resolver key ≡ none
          → authenticate resolver header subprotocol query ≡ invalid_key)
unfolding authenticate role_has_access
authenticate_lem resolver header subprotocol query = (
  accepted_iff resolver (or_next header (or_next subprotocol (or_next query none))),
  ground arith,
  λ key sent filled unknown. ground (arith, eq_iff key ""),
)
