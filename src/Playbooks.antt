-- ===== src/Playbooks.antt =====
-- dawos_agent/services/playbooks.py and the run endpoint of dawos_agent/routers/playbooks_router.py.
-- What accel-cmd and systemctl answer enters as an argument, in the order in which a playbook asks; an
-- exception is its text. The details of the steps are kept as their parts, before they are formatted.
pub mod Runs
pub mod Guarded
mod Tests
use dawos_agent.Prelude.{
  ℕ, String, Text, codes, text_eq, Bool, true, false, ◌==◌, nat_eq, string_eq, all, length, Option,
  none, some, List, [], ◌∷◌, ◌++◌, Result, ok, err, if◌then◌else◌,
}
use dawos_agent.Prelude.Dict.{Dict, get, values}
use dawos_agent.Prelude.Texts.{strip}
use dawos_agent.ConfigManager.{State, Failure, Run, create_checkpoint, list_backups, read_config}

pub data Detail : Type 0 where
  exception : Text → Detail
  failure : Failure → Detail
  version : Text → Detail
  active_sessions : Option Text → Detail
  config_present : ℕ → Detail
  checkpoint_created : Option Text → Detail
  total_revisions : ℕ → Detail
  service_restarted : Detail
  daemon_responding not_responding : Text → Detail

pub record PlaybookStep : Type 0 where
  pub step : String
  pub success : Bool
  pub detail : Detail

abbrev pub passed : String → Detail → PlaybookStep
passed name what = record { step = name; success = true; detail = what }

abbrev pub failed : String → Detail → PlaybookStep
failed name what = record { step = name; success = false; detail = what }

-- How `systemctl restart` ended: it could not be started, or its return code and error output.
pub data Restart : Type 0 where
  not_started : Text → Restart
  exited : ℕ → Text → Restart

-- What the daemon and systemd answer during one run.
pub record World : Type 0 where
  pub show_version : Result Text Text
  pub active : Result Text (Option Text)
  pub restart : Restart
  pub timestamp : Text

statistics_step : Result Text (Option Text) → PlaybookStep
statistics_step (ok active) = passed "session statistics" (active_sessions active)
statistics_step (err e) = failed "session statistics" (exception e)

config_step : Result Failure Text → PlaybookStep
config_step (ok content) = passed "config file check" (config_present (length content))
config_step (err e) = failed "config file check" (failure e)

unfoldable pub run_health_check : World → State → List PlaybookStep × State
unfolding statistics_step config_step
run_health_check w s = elim w.show_version [
  | err e ↦ (failed "accel-cmd connectivity" (exception e) ∷ [], s)
  | ok v ↦ (
    passed "accel-cmd connectivity" (version (strip v))
        ∷ statistics_step w.active
        ∷ config_step (read_config s).0
        ∷ [],
    s,
  )
]

revisions_step : Result Failure (List Text) → PlaybookStep
revisions_step (ok backups) = passed "verify backup" (total_revisions (length backups))
revisions_step (err e) = failed "verify backup" (failure e)

unfoldable pub run_backup_config : World → State → List PlaybookStep × State
unfolding revisions_step create_checkpoint list_backups
run_backup_config w s = elim (create_checkpoint w.timestamp s).0 [
  | err e ↦ (failed "create backup" (failure e) ∷ [], (create_checkpoint w.timestamp s).1)
  | ok checkpoint ↦ (
    passed "create backup" (checkpoint_created checkpoint)
        ∷ revisions_step (list_backups (create_checkpoint w.timestamp s).1).0
        ∷ [],
    (create_checkpoint w.timestamp s).1,
  )
]

-- `stderr.strip() or "systemctl restart failed"`, where the return code is not 0
restarted : Restart → Result Text (Unit {0})
restarted (not_started e) = err e
restarted (exited code stderr) =
    if code == 0
    then ok tt
    else if strip stderr == []
    then err (codes "systemctl restart failed")
    else err (strip stderr)

verification_step : Result Text Text → PlaybookStep
verification_step (ok v) = passed "post-restart verification" (daemon_responding (strip v))
verification_step (err e) = failed "post-restart verification" (not_responding e)

restart_steps : World → Result Text (Unit {0}) → List PlaybookStep
unfolding verification_step
restart_steps w (err e) = failed "restart service" (exception e) ∷ []
restart_steps w (ok done) =
    passed "restart service" service_restarted ∷ verification_step w.show_version ∷ []

unfoldable pub run_safe_restart : World → State → List PlaybookStep × State
unfolding restarted restart_steps create_checkpoint
run_safe_restart w s = elim (create_checkpoint w.timestamp s).0 [
  | err e ↦ (failed "pre-restart backup" (failure e) ∷ [], (create_checkpoint w.timestamp s).1)
  | ok checkpoint ↦ (
    passed "pre-restart backup" (checkpoint_created checkpoint)
        ∷ restart_steps w (restarted w.restart),
    (create_checkpoint w.timestamp s).1,
  )
]

pub record PlaybookInfo : Type 0 where
  pub name : String
  pub role_required : String

-- The descriptions are left out.
abbrev pub playbook_registry : Dict String PlaybookInfo
playbook_registry =
    ("health-check", record { name = "health-check"; role_required = "viewer" })
    ∷ ("backup-config", record { name = "backup-config"; role_required = "operator" })
    ∷ ("safe-restart", record { name = "safe-restart"; role_required = "admin" })
    ∷ []

abbrev pub playbook_executors : Dict String (World → State → List PlaybookStep × State)
playbook_executors =
    ("health-check", run_health_check)
    ∷ ("backup-config", run_backup_config)
    ∷ ("safe-restart", run_safe_restart)
    ∷ []

abbrev pub list_playbooks : List PlaybookInfo
list_playbooks = values playbook_registry

pub record PlaybookRunResponse : Type 0 where
  pub playbook : String
  pub success : Bool
  pub steps : List PlaybookStep

abbrev pub all_ok : List PlaybookStep → Bool
all_ok steps = all (λ s. s.success) steps

-- The body of the endpoint, once the key has been accepted; the state is kept on 404.
unfoldable pub run_playbook : String → World → State → Result ℕ PlaybookRunResponse × State
unfolding run_health_check run_backup_config run_safe_restart get
run_playbook name w s = elim (get name playbook_executors) [
  | none ↦ (err 404, s)
  | some executor ↦ (
    ok (record { playbook = name; success = all_ok (executor w s).0; steps = (executor w s).0 }),
    (executor w s).1,
  )
]
