-- ===== src/ConfigManager/Tests.antt =====
-- Runs of the configuration code, and its theorems at concrete inputs.
use dawos_agent.Prelude.{
  Text, codes, text_eq, [], ◌∷◌, ◌≡◌, refl, ◌≢◌, ◌↔◌, arith, ok, err, some, if◌then◌else◌,
}
use dawos_agent.Prelude.Dict.{get}
use dawos_agent.Prelude.Texts.{strip, has_char}
use dawos_agent.ConfigManager.{
  State, file_not_found, value_error, sleeping, safe_backup_path, rollback_to, backup_name,
  list_backups,
}
use dawos_agent.ConfigManager.Paths.{IsFileName, safe_backup_path_iff}
use dawos_agent.ConfigManager.Backups.{IsConfig, rollback_to_restores}

abbrev older : Text
older = codes "[older]"

abbrev current : Text
current = codes "[now]"

abbrev saved : Text
saved = codes "b.bak"

abbrev before : State
before = record {
  config = some current;
  backups = (saved, older) ∷ [];
  checkpoint_path = some saved;
  rollback_task = some (sleeping 300);
  reloads = [];
}

older-IsConfig : IsConfig older
unfolding strip
older-IsConfig = record { not_blank = λ e. cc; has_section = refl }

current-IsConfig : IsConfig current
unfolding strip
current-IsConfig = record { not_blank = λ e. cc; has_section = refl }

saved-IsFileName : IsFileName saved
saved-IsFileName = record {
  no_null = refl;
  no_slash = refl;
  no_backslash = refl;
  not_empty = λ e. cc;
  not_here = λ e. ground arith;
  not_above = λ e. ground arith;
}

traversal : safe_backup_path (codes "../../etc/passwd") ≡ err file_not_found
unfolding safe_backup_path
traversal = refl

newest_first :
    (list_backups (record before {
      backups =
          (codes "accel-ppp.conf.1.bak", older)
          ∷ (codes "notes", older)
          ∷ (codes "accel-ppp.conf.2.checkpoint", current)
          ∷ [];
    })).0
    ≡ ok (codes "accel-ppp.conf.2.checkpoint" ∷ codes "accel-ppp.conf.1.bak" ∷ [])
unfolding list_backups
newest_first = refl

safe_backup_path_iff_example :
    ((safe_backup_path saved ≡ ok saved) ↔ ((saved ≡ saved) × IsFileName saved))
    × ((safe_backup_path saved ≢ ok saved)
        → safe_backup_path saved
          ≡ (if has_char 0 saved then err value_error else err file_not_found))
safe_backup_path_iff_example = safe_backup_path_iff saved saved

rollback_to_restores_example :
    ((rollback_to saved (codes "ts") before).0 ≡ ok (backup_name (codes "ts")))
    × ((rollback_to saved (codes "ts") before).1.config ≡ some older)
    × (get (backup_name (codes "ts")) (rollback_to saved (codes "ts") before).1.backups
        ≡ some current)
    × ((other : Text)
        → backup_name (codes "ts") ≢ other
        → get other (rollback_to saved (codes "ts") before).1.backups ≡ get other before.backups)
unfolding get
rollback_to_restores_example =
    rollback_to_restores saved (codes "ts") older current before saved-IsFileName refl
      older-IsConfig refl
