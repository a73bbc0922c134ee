-- ===== src/ConfigManager.antt =====
-- dawos_agent/services/config_manager.py: the configuration file, its backups, and the guarded
-- apply. The module's globals and the two places on disk are one state; the clock enters as the text
-- that `strftime` makes of it, and the daemon's answer to `accel-cmd reload` as an argument.
-- The backup directory is flat, holds regular files, and an absent one is an empty one. The text of a
-- file is the one that `read_text` gives, with every line end as a line feed.
pub mod Paths
pub mod Backups
pub mod Timer
pub mod Sound
mod Tests
use dawos_agent.Prelude.{
  ℕ, ◌++◌, Text, codes, text_eq, Bool, true, false, not, ◌==◌, ◌||◌, ◌&&◌, ltb, nat_eq, Option,
  none, some, List, [], ◌∷◌, Result, ok, err, if◌then◌else◌,
}
use dawos_agent.Prelude.Dict.{Dict, get, put}
use dawos_agent.Prelude.Exec.{Exec, pure, raise, gets, modify, continue, ◌>>=◌, ◌>>◌}
use dawos_agent.Prelude.Texts.{has_char, strip, starts_with, ends_with}

-- The task that `start_guarded_timer` spawns: it sleeps so many seconds, or it has ended. A task
-- that was cancelled is dropped.
pub data Task : Type 0 where
  sleeping : ℕ → Task
  done : Task

pub record State : Type 0 where
  pub config : Option Text
  pub backups : Dict Text Text
  pub checkpoint_path : Option Text
  pub rollback_task : Option Task
  -- the contents that the daemon was told to load, latest first
  pub reloads : List Text

pub data Failure : Type 0 where
  file_not_found value_error runtime_error : Failure

abbrev pub Run : Type 0 → Type 0
Run A = Exec State Failure A

-- What `(base / name).resolve()` gives for a name with no separator and no NUL character.
pub data Candidate : Type 0 where
  base outside : Candidate
  inside : Text → Candidate

resolve_flat : Text → Candidate
resolve_flat name =
    if name == [] || name == codes "."
    then base
    else if name == codes ".."
    then outside
    else inside name

contained : Candidate → Result Failure Text
contained base = err file_not_found
contained outside = err file_not_found
contained (inside name) = ok name

-- A NUL character has `resolve` raise a ValueError, before the separators are looked for.
unfoldable pub safe_backup_path : Text → Result Failure Text
unfolding resolve_flat contained
safe_backup_path name =
    if has_char 0 name
    then err value_error
    else if has_char b'/' name || has_char b'\\' name
    then err file_not_found
    else contained (resolve_flat name)

unfoldable pub read_config : Run Text
read_config s = elim s.config [ none ↦ (err file_not_found, s) | some content ↦ (ok content, s) ]

unfoldable pub backup_name : Text → Text
backup_name ts = codes "accel-ppp.conf." ++ (ts ++ codes ".bak")

unfoldable pub checkpoint_name : Text → Text
checkpoint_name ts = codes "accel-ppp.conf." ++ (ts ++ codes ".checkpoint")

-- The copy that `write_config` makes of the file that is there, if it is asked to.
copy_config : Text → Option Text → Run (Option Text)
copy_config name none s = (ok none, s)
copy_config name (some old) s = (ok (some name), record s { backups = put name old s.backups })

unfoldable pub write_config : Text → Bool → Text → Run (Option Text)
unfolding copy_config
write_config content backup ts s =
    if strip content == []
    then (err value_error, s)
    else if not (has_char b'[' (strip content))
    then (err value_error, s)
    else if backup
    then (do
      made ← copy_config (backup_name ts) s.config
      modify (λ s'. record s' { config = some content })
      pure made)
        s
    else (ok none, record s { config = some content })

-- Names are compared by code points, as `sorted` compares paths of one directory.
abbrev pub text_leb : Text → Text → Bool
text_leb [] t = true
text_leb (a ∷ s) [] = false
text_leb (a ∷ s) (b ∷ t) = ltb a b || (a == b && text_leb s t)

-- `sorted(…, reverse=True)`
unfoldable pub insert_desc : Text → List Text → List Text
insert_desc name [] = name ∷ []
insert_desc name (other ∷ rest) =
    if text_leb other name then name ∷ other ∷ rest else other ∷ insert_desc name rest

-- `BACKUP_DIR.glob("accel-ppp.conf.*")`, and the test of the suffix
abbrev pub is_listed : Text → Bool
is_listed name =
    starts_with (codes "accel-ppp.conf.") name
    && (ends_with (codes ".bak") name || ends_with (codes ".checkpoint") name)

-- The names of the entries; their sizes and times are not modelled.
unfoldable pub listed : Dict Text Text → List Text
unfolding insert_desc starts_with ends_with
listed [] = []
listed ((name, content) ∷ files) =
    if is_listed name then insert_desc name (listed files) else listed files

unfoldable pub list_backups : Run (List Text)
unfolding listed
list_backups s = (ok (listed s.backups), s)

existing : Text → Dict Text Text → Result Failure Text
existing name files = elim (get name files) [
  | none ↦ err file_not_found
  | some content ↦ ok content
]

-- The bytes and the time of the file are not modelled.
unfoldable pub read_backup : Text → Run Text
unfolding safe_backup_path existing
read_backup name s = elim (safe_backup_path name) [
  | err e ↦ (err e, s)
  | ok path ↦ (existing path s.backups, s)
]

-- The path of the safety backup, `""` when there was no file to back up.
path_or_empty : Option Text → Text
path_or_empty none = []
path_or_empty (some path) = path

unfoldable pub rollback_to : Text → Text → Run Text
unfolding read_backup write_config path_or_empty
rollback_to name ts = do
  content ← read_backup name
  safety ← write_config content true ts
  pure (path_or_empty safety)

unfoldable pub create_checkpoint : Text → Run (Option Text)
create_checkpoint ts s = elim s.config [
  | none ↦ (ok none, s)
  | some content ↦ (
    ok (some (checkpoint_name ts)),
    record s {
      backups = put (checkpoint_name ts) content s.backups;
      checkpoint_path = some (checkpoint_name ts);
    },
  )
]

-- `accel.reload_config`: the daemon loads the file on disk, or the command raises.
unfoldable pub reload_config : Bool → Run (Unit {0})
reload_config answers s =
    if answers
    then (
      ok tt,
      elim s.config [ none ↦ s | some content ↦ record s { reloads = content ∷ s.reloads } ],
    )
    else (err runtime_error, s)

-- `_auto_rollback` once its sleep is over; an exception of the reload ends the task.
restore : Bool → Option Text → State → State
restore answers none s = s
restore answers (some content) s = (reload_config answers (record s { config = some content })).1

unfoldable pub auto_rollback : Bool → State → State
unfolding restore reload_config
auto_rollback answers s = elim s.checkpoint_path [
  | none ↦ s
  | some path ↦ restore answers (get path s.backups) s
]

-- The sleeping task wakes up; a task that has ended, or none, does nothing.
unfoldable pub timer_expires : Bool → State → State
unfolding auto_rollback
timer_expires answers s = elim s.rollback_task [
  | none ↦ s
  | some done ↦ s
  | some (sleeping n) ↦ record (auto_rollback answers s) { rollback_task = some done }
]

unfoldable pub cancel_guarded_timer : State → State
cancel_guarded_timer s = record s { rollback_task = none; checkpoint_path = none }

unfoldable pub start_guarded_timer : ℕ → State → State
unfolding cancel_guarded_timer
start_guarded_timer seconds s = record (cancel_guarded_timer s) {
  rollback_task = some (sleeping seconds);
}

pub record Status : Type 0 where
  pub pending : Bool
  pub checkpoint : Option Text

abbrev pub is_pending : Option Task → Bool
is_pending none = false
is_pending (some done) = false
is_pending (some (sleeping n)) = true

unfoldable pub guarded_apply_status : State → Status
guarded_apply_status s = record {
  pending = is_pending s.rollback_task;
  checkpoint = s.checkpoint_path;
}
