-- ===== src/ConfigManager/Backups.antt =====
-- Writing the configuration with a backup, and going back to a backup.
use dawos_agent.Prelude.{
  Text, codes, [], text_eq, ◌≡◌, refl, ◌≢◌, arith, Bool, true, false, ok, err, some, none, ◌⊎◌,
  if◌then◌else◌,
}
use dawos_agent.Prelude.Dict.{get, put, get-put, get-put_self}
use dawos_agent.Prelude.Texts.{has_char, strip, text_beq_iff}
use dawos_agent.Prelude.Texts.Laws.{has_char-append}
use dawos_agent.ConfigManager.{
  State, value_error, write_config, read_backup, rollback_to, backup_name, safe_backup_path,
}
use dawos_agent.ConfigManager.Paths.{IsFileName, safe_backup_path_iff}

-- What `write_config` asks of a text: something that is no white space, and a "[" in it.
pub record IsConfig (content : Text) : Type 0 where
  pub not_blank : strip content ≢ []
  pub has_section : has_char b'[' (strip content) ≡ true

pub write_config-IsConfig :
    (content : Text) (backup : Bool) (ts : Text) (s : State)
    → IsConfig content
    → write_config content backup ts s ≡ elim s.config [
      | none ↦ (ok none, record s { config = some content })
      | some old ↦
          if backup
          then (
            ok (some (backup_name ts)),
            record s { config = some content; backups = put (backup_name ts) old s.backups },
          )
          else (ok none, record s { config = some content })
    ]
unfolding write_config
write_config-IsConfig content backup ts s h = ground (arith, text_beq_iff (strip content) [])

-- A text that is blank or has no "[" is refused with a ValueError, and nothing is written.
pub write_config_refuses :
    (content : Text) (backup : Bool) (ts : Text) (s : State)
    → ((strip content ≡ []) ⊎ (has_char b'[' (strip content) ≡ false))
    → write_config content backup ts s ≡ (err value_error, s)
unfolding write_config
write_config_refuses content backup ts s h = ground (arith, text_beq_iff (strip content) [])

pub safe_backup_path-IsFileName : (name : Text) → IsFileName name → safe_backup_path name ≡ ok name
safe_backup_path-IsFileName name h = (safe_backup_path_iff name name).0.1 (refl, h)

pub read_backup_ok :
    (name content : Text) (s : State)
    → IsFileName name
    → get name s.backups ≡ some content
    → read_backup name s ≡ (ok content, s)
unfolding read_backup
read_backup_ok name content s h found = ground (arith, safe_backup_path-IsFileName name h, found)

-- The name of a backup is a file name if the time stamp has no separator and no NUL character in it.
pub backup_name-IsFileName :
    (ts : Text)
    → has_char 0 ts ≡ false
    → has_char b'/' ts ≡ false
    → has_char b'\\' ts ≡ false
    → IsFileName (backup_name ts)
unfolding backup_name
backup_name-IsFileName ts null slash backslash = record {
  no_null = rw (has_char-append 0 ts (codes ".bak"), null);
  no_slash = rw (has_char-append b'/' ts (codes ".bak"), slash);
  no_backslash = rw (has_char-append b'\\' ts (codes ".bak"), backslash);
  not_empty = λ e. cc;
  not_here = λ e. cc;
  not_above = λ e. cc;
}

-- A backup with a valid text is restored: it becomes the configuration, and the text that it
-- replaces is kept under the name that is returned. Every other file keeps its text.
pub rollback_to_restores :
    (name ts content old : Text) (s : State)
    → IsFileName name
    → get name s.backups ≡ some content
    → IsConfig content
    → s.config ≡ some old
    → (rollback_to name ts s).0 ≡ ok (backup_name ts)
      × ((rollback_to name ts s).1.config ≡ some content)
      × (get (backup_name ts) (rollback_to name ts s).1.backups ≡ some old)
      × ((other : Text)
          → backup_name ts ≢ other
          → get other (rollback_to name ts s).1.backups ≡ get other s.backups)
unfolding rollback_to
rollback_to_restores name ts content old s h found valid had =
    rw (read_backup_ok name content s h found, write_config-IsConfig content true ts s valid, had)
      (
        refl,
        refl,
        get-put_self (backup_name ts) old s.backups,
        λ other ne. ground (
          arith,
          get-put (backup_name ts) other old s.backups,
          text_beq_iff (backup_name ts) other,
        ),
      )

-- A rollback can be undone: rolling back to the safety backup that it returned brings the replaced
-- configuration back.
pub rollback_to_undo :
    (name ts ts' content old : Text) (s : State)
    → IsFileName name
    → get name s.backups ≡ some content
    → IsConfig content
    → s.config ≡ some old
    → IsConfig old
    → IsFileName (backup_name ts)
    → (rollback_to (backup_name ts) ts' (rollback_to name ts s).1).1.config ≡ some old
rollback_to_undo name ts ts' content old s h found valid had good plain =
    let (answer, now, kept, others) =
      rollback_to_restores name ts content old s h found valid had in
    (rollback_to_restores (backup_name ts) ts' old content (rollback_to name ts s).1 plain kept good
      now).1
