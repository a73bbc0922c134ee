-- ===== src/ConfigManager/Paths.antt =====
-- A backup name never leaves the backup directory.
use dawos_agent.Prelude.{
  Text, codes, [], text_eq, ◌≡◌, ◌≢◌, ◌↔◌, arith, false, ok, err, if◌then◌else◌,
}
use dawos_agent.Prelude.Texts.{has_char, text_beq_iff}
use dawos_agent.ConfigManager.{safe_backup_path, file_not_found, value_error}

-- The name of a file right below the directory: not empty, not "." or "..", with no separator and no NUL
-- character.
pub record IsFileName (name : Text) : Type 0 where
  pub no_null : has_char 0 name ≡ false
  pub no_slash : has_char b'/' name ≡ false
  pub no_backslash : has_char b'\\' name ≡ false
  pub not_empty : name ≢ []
  pub not_here : name ≢ codes "."
  pub not_above : name ≢ codes ".."

-- A name is accepted exactly when it is the name of a file right below the directory, and it is
-- then the path that is used. Every other name has the answer of a file that is not there, but for one
-- with a NUL character, which is a ValueError.
pub safe_backup_path_iff :
    (name path : Text)
    → ((safe_backup_path name ≡ ok path) ↔ ((path ≡ name) × IsFileName name))
      × ((safe_backup_path name ≢ ok name)
          → safe_backup_path name
            ≡ (if has_char 0 name then err value_error else err file_not_found))
unfolding safe_backup_path
safe_backup_path_iff name path =
    ground
      (arith, text_beq_iff name [], text_beq_iff name (codes "."), text_beq_iff name (codes ".."))
