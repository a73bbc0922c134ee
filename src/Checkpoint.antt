-- ===== src/Checkpoint.antt =====
-- dawos_agent/routers/checkpoint.py: the endpoints of the guarded apply and of the rollback.
-- `apply_lock` lets one apply run at a time; what may run while it waits for the daemon is in
-- `Checkpoint/Steps.antt`.
pub mod Apply
pub mod Steps
mod Tests
use dawos_agent.Prelude.{
  ℕ, ◌*◌, Text, Bool, true, false, Option, none, some, [], Result, ok, err, if◌then◌else◌,
}
use dawos_agent.Prelude.Exec.{Exec, pure, modify, gets, continue, ◌>>=◌, ◌>>◌}
use dawos_agent.ConfigManager.{
  State, Failure, file_not_found, value_error, runtime_error, Run, write_config, rollback_to,
  create_checkpoint, reload_config, start_guarded_timer, cancel_guarded_timer, guarded_apply_status,
  Status,
}

pub record GuardedApplyRequest : Type 0 where
  pub content : Text
  pub confirm_minutes : ℕ

pub record GuardedApplyResponse : Type 0 where
  pub checkpoint : Text
  pub confirm_deadline_seconds : ℕ

-- What the world outside gives to one apply: the two time stamps and the daemon's answer.
pub record Surroundings : Type 0 where
  pub checkpoint_ts : Text
  pub backup_ts : Text
  pub answers : Bool

-- An endpoint answers, or raises an `HTTPException` with a status code.
abbrev pub Endpoint : Type 0 → Type 0
Endpoint A = Exec State ℕ A

abbrev pub catch_all {ℓ} : {A : Type ℓ} → Result Failure A → Result ℕ A
catch_all (ok a) = ok a
catch_all (err e) = err 500

-- `except FileNotFoundError` is 404, `except Exception` is 500.
abbrev pub catch_missing {ℓ} : {A : Type ℓ} → Result Failure A → Result ℕ A
catch_missing (ok a) = ok a
catch_missing (err file_not_found) = err 404
catch_missing (err e) = err 500

abbrev or_blank : Option Text → Text
or_blank none = []
or_blank (some path) = path

-- Steps 1 and 2: the checkpoint, and the new configuration with its backup.
unfoldable pub begin_apply : Surroundings → GuardedApplyRequest → Run (Option Text)
begin_apply env req = do
  cp ← create_checkpoint env.checkpoint_ts
  made ← write_config req.content true env.backup_ts
  pure cp

-- Step 4, after the daemon has answered.
unfoldable pub finish_apply : GuardedApplyRequest → Option Text → Run GuardedApplyResponse
unfolding start_guarded_timer
finish_apply req cp = do
  modify (start_guarded_timer (req.confirm_minutes * 60))
  pure (record { checkpoint = or_blank cp; confirm_deadline_seconds = req.confirm_minutes * 60 })

unfoldable pub apply_body : Surroundings → GuardedApplyRequest → Run GuardedApplyResponse
unfolding begin_apply create_checkpoint write_config reload_config finish_apply
apply_body env req = do
  cp ← begin_apply env req
  reloaded ← reload_config env.answers
  finish_apply req cp

unfoldable pub guarded_apply : Surroundings → GuardedApplyRequest → Endpoint GuardedApplyResponse
unfolding apply_body
guarded_apply env req s = (catch_all (apply_body env req s).0, (apply_body env req s).1)

unfoldable pub confirm_apply : Endpoint (Unit {0})
unfolding guarded_apply_status cancel_guarded_timer
confirm_apply s =
    if (guarded_apply_status s).pending then (ok tt, cancel_guarded_timer s) else (err 409, s)

unfoldable pub rollback : Text → Text → Endpoint Text
unfolding rollback_to
rollback name ts s = (catch_missing (rollback_to name ts s).0, (rollback_to name ts s).1)

unfoldable pub apply_status : Endpoint Status
unfolding guarded_apply_status
apply_status s = (ok (guarded_apply_status s), s)
