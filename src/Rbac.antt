-- ===== src/Rbac.antt =====
-- dawos_agent/rbac.py: the three roles, the keys file, and the resolution of an API key to a role.
-- A keys file is read as the document that `json.loads` returns, or as the failure to get one.
pub mod Hierarchy
pub mod KeysFile
pub mod Resolution
mod Tests
use dawos_agent.Prelude.{
  ℕ, String, Bool, true, false, not, List, [], ◌∷◌, ◌==◌, leb, Option, none, some, Result, ok, err,
  string_eq, if◌then◌else◌,
}
use dawos_agent.Prelude.Dict.{Dict, get, put}

pub data Role : Type 0 where
  viewer operator admin : Role

abbrev pub role_weight : Role → ℕ
role_weight viewer = 0
role_weight operator = 1
role_weight admin = 2

unfoldable pub role_has_access : Role → Role → Bool
role_has_access user_role required_role = leb (role_weight required_role) (role_weight user_role)

-- `role.value`
abbrev pub role_value : Role → String
role_value viewer = "viewer"
role_value operator = "operator"
role_value admin = "admin"

-- `Role(name)` for a name in `valid_roles`, `none` for any other.
unfoldable pub role_named : String → Option Role
role_named name =
    if name == "viewer"
    then some viewer
    else if name == "operator"
    then some operator
    else if name == "admin"
    then some admin
    else none

mutual
  pub data Json : Type 0 where
    null : Json
    boolean : Bool → Json
    number : ℕ → Json
    text : String → Json
    array : Items → Json
    object : Fields → Json

  pub data Items : Type 0 where
    nil : Items
    cons : Json → Items → Items

  pub data Fields : Type 0 where
    end : Fields
    field : String → Json → Fields → Fields

-- What reading the path gives: no file, text that is not JSON, or a document.
pub data KeysFileContent : Type 0 where
  missing malformed : KeysFileContent
  document : Json → KeysFileContent

pub data LoadError : Type 0 where
  file_not_found json_decode_error not_an_object : LoadError
  invalid_role : String → LoadError

-- The role that one value of the document names, if it is a valid one.
abbrev pub role_of : Json → Option Role
role_of (text name) = role_named name
role_of _ = none

-- The loop over `data.items()`.
unfoldable pub load_items : Fields → Dict String Role → Result LoadError (Dict String Role)
load_items end keys = ok keys
load_items (field key value rest) keys = elim (role_of value) [
  | none ↦ err (invalid_role key)
  | some role ↦ load_items rest (put key role keys)
]

unfoldable pub load_keys_file : KeysFileContent → Result LoadError (Dict String Role)
unfolding load_items
load_keys_file missing = err file_not_found
load_keys_file malformed = err json_decode_error
load_keys_file (document (object entries)) = load_items entries []
load_keys_file (document other) = err not_an_object

pub record KeyResolver : Type 0 where
  pub primary_key : String
  pub extra_keys : Dict String Role

-- A load that fails is logged, and leaves the extra keys empty.
abbrev pub or_empty : Result LoadError (Dict String Role) → Dict String Role
or_empty (ok keys) = keys
or_empty (err e) = []

-- The constructor; `none` is an empty or absent path.
unfoldable pub new_resolver : String → Option KeysFileContent → KeyResolver
unfolding load_keys_file
new_resolver primary none = record { primary_key = primary; extra_keys = [] }
new_resolver primary (some file) = record {
  primary_key = primary;
  extra_keys = or_empty (load_keys_file file);
}

-- The loop over `extra_keys.items()` returns at the first key that compares equal.
unfoldable pub resolve : KeyResolver → String → Option Role
unfolding get
resolve resolver api_key = elim (get api_key resolver.extra_keys) [
  | some role ↦ some role
  | none ↦ if api_key == resolver.primary_key then some admin else none
]

abbrev pub is_empty : Dict String Role → Bool
is_empty [] = true
is_empty (entry ∷ rest) = false

unfoldable pub rbac_enabled : KeyResolver → Bool
rbac_enabled resolver = not (is_empty resolver.extra_keys)
