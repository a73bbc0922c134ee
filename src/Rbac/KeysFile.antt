-- ===== src/Rbac/KeysFile.antt =====
-- What loading a keys file gives: all of its entries, or nothing.
use dawos_agent.Prelude.{
  String, ◌≡◌, refl, ◌↔◌, ◌==◌, ◌≢◌, arith, Option, none, some, [], ok, string_eq, if◌then◌else◌,
  Option-cases, inl, inr,
}
use dawos_agent.Prelude.Dict.{Dict, get, put, get-put}
use dawos_agent.Rbac.{
  Role, Fields, end, field, object, document, role_of, load_items, load_keys_file,
}

-- The role of a key by the document: that of its last entry.
unfoldable pub last_role : String → Fields → Option Role
last_role key end = none
last_role key (field k value rest) = elim (last_role key rest) [
  | some role ↦ some role
  | none ↦ if k == key then role_of value else none
]

-- Every entry names a valid role.
abbrev pub AllValid : Fields → Type 0
AllValid end = Unit
AllValid (field k value rest) = (role_of value ≢ none) × AllValid rest

load_items_valid :
    (fs : Fields) (keys : Dict String Role)
    → AllValid fs
    → (out : Dict String Role) × (load_items fs keys ≡ ok out)
unfolding load_items
load_items_valid end keys h = (keys, refl)
load_items_valid (field k value rest) keys (p, h) = elim (Option-cases (role_of value)) [
  | inl bad ↦ absurd (p bad)
  | inr (role, good) ↦ rw (good, load_items) (load_items_valid rest (put k role keys) h)
]

load_items_ok :
    (fs : Fields) (keys out : Dict String Role) → load_items fs keys ≡ ok out → AllValid fs
unfolding load_items
load_items_ok end keys out h = tt
load_items_ok (field k value rest) keys out h = elim (Option-cases (role_of value)) [
  | inl bad ↦ ground arith
  | inr (role, good) ↦
      (ground arith, load_items_ok rest (put k role keys) out (rw (good, load_items) at h))
]

abbrev or_else : Option Role → Option Role → Option Role
or_else (some r) d = some r
or_else none d = d

load_items-get :
    (fs : Fields) (keys out : Dict String Role) (key : String)
    → load_items fs keys ≡ ok out
    → get key out ≡ or_else (last_role key fs) (get key keys)
unfolding load_items last_role
load_items-get end keys out key h = ground arith
load_items-get (field k value rest) keys out key h = elim (Option-cases (role_of value)) [
  | inl bad ↦ ground arith
  | inr (role, good) ↦ ground (
    arith,
    load_items-get rest (put k role keys) out key (rw (good, load_items) at h),
    get-put k key role keys,
  )
]

-- A document loads exactly when each of its entries names a valid role; any other file is an error.
pub load_keys_file_iff :
    (fs : Fields)
    → ((keys : Dict String Role) × (load_keys_file (document (object fs)) ≡ ok keys)) ↔ AllValid fs
unfolding load_keys_file
load_keys_file_iff fs = (λ loaded. load_items_ok fs [] loaded.0 loaded.1, load_items_valid fs [])

-- What is loaded gives each key the role of its last entry in the document, and no other key a role.
pub get-load_keys_file :
    (fs : Fields) (keys : Dict String Role) (key : String)
    → load_keys_file (document (object fs)) ≡ ok keys
    → get key keys ≡ last_role key fs
unfolding load_keys_file get
get-load_keys_file fs keys key h = ground (arith, load_items-get fs [] keys key h)
