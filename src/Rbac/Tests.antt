-- ===== src/Rbac/Tests.antt =====
-- Runs of the role code, and its theorems at concrete inputs.
use dawos_agent.Prelude.{◌≡◌, refl, none, some, ok, err, [], ◌∷◌, string_eq, ◌≢◌}
use dawos_agent.Prelude.Dict.{put}
use dawos_agent.Rbac.{
  viewer, operator, admin, load_keys_file, new_resolver, resolve, object, document, Fields, field,
  end, text, role_named, invalid_role,
}

abbrev entries : Fields
entries = field "mon" (text "viewer") (field "auto" (text "operator") end)

abbrev with_primary : Fields
with_primary = field "primary" (text "viewer") end

loads : load_keys_file (document (object entries)) ≡ ok (("mon", viewer) ∷ ("auto", operator) ∷ [])
unfolding load_keys_file role_named put
loads = refl

refuses : load_keys_file (document (object (field "x" (text "root") end))) ≡ err (invalid_role "x")
unfolding load_keys_file role_named
refuses = refl

resolves :
    (resolve (new_resolver "k" (some (document (object entries)))) "auto" ≡ some operator)
    × (resolve (new_resolver "k" (some (document (object entries)))) "k" ≡ some admin)
    × (resolve (new_resolver "k" (some (document (object entries)))) "other" ≡ none)
unfolding resolve new_resolver role_named put
resolves = (refl, refl, refl)

viewer_named : role_named "viewer" ≢ none
unfolding role_named
viewer_named h = cc
