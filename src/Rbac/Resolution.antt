-- ===== src/Rbac/Resolution.antt =====
-- Which role an API key resolves to.
use dawos_agent.Prelude.{
  String, ◌≡◌, refl, ◌↔◌, ◌≢◌, arith, none, some, string_eq, ◌⊎◌, eq_iff, false,
}
use dawos_agent.Prelude.Dict.{get}
use dawos_agent.Rbac.{
  Role, viewer, operator, admin, KeyResolver, new_resolver, resolve, object, document, Fields,
  role_has_access,
}
use dawos_agent.Rbac.KeysFile.{get-load_keys_file, last_role, AllValid, load_keys_file_iff}

-- A key has a role exactly when the keys file gives it that role, or when the file does not name
-- it, it is the primary key, and the role is admin.
pub resolve_iff :
    (r : KeyResolver) (key : String) (role : Role)
    → (resolve r key ≡ some role) ↔ (
        (get key r.extra_keys ≡ some role)
        ⊎ ((get key r.extra_keys ≡ none) × (key ≡ r.primary_key) × (role ≡ admin)))
unfolding resolve
resolve_iff r key role = ground (arith, eq_iff key r.primary_key)

-- A file whose entries are all valid decides the role of every key that it names, the primary
-- key's included.
pub resolve-new_resolver :
    (primary key : String) (fs : Fields) (role : Role)
    → AllValid fs
    → last_role key fs ≡ some role
    → resolve (new_resolver primary (some (document (object fs)))) key ≡ some role
unfolding resolve new_resolver
resolve-new_resolver primary key fs role valid named =
    let (keys, loaded) = (load_keys_file_iff fs).1 valid in
    let found = get-load_keys_file fs keys key loaded in rw loaded (ground (arith, found))

-- The documentation says that the primary key always keeps admin access. It does not where a valid
-- file gives the primary key a lesser role: then it has no admin access.
pub primary_key_demoted :
    (primary : String) (fs : Fields) (role : Role)
    → AllValid fs
    → last_role primary fs ≡ some role
    → role ≢ admin
    → (resolve (new_resolver primary (some (document (object fs)))) primary ≢ some admin)
      × (role_has_access role admin ≡ false)
unfolding role_has_access
primary_key_demoted primary fs role valid named lesser =
    (ground (arith, resolve-new_resolver primary primary fs role valid named), lower role lesser)
  where
    lower : (r : Role) → r ≢ admin → role_has_access r admin ≡ false
    lower viewer h = refl
    lower operator h = refl
    lower admin h = absurd (h refl)
