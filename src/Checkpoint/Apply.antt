-- ===== src/Checkpoint/Apply.antt =====
-- One guarded apply with nothing in between, its confirmation and its timer.
use dawos_agent.Prelude.{
  ◌*◌, Text, text_eq, [], ◌∷◌, ◌≡◌, refl, ◌↔◌, ◌⊎◌, arith, Bool, true, false, ok, err, some, none,
}
use dawos_agent.Prelude.Dict.{get, put, get-put, get-put_self}
use dawos_agent.Prelude.Texts.{has_char, strip, text_beq_iff}
use dawos_agent.ConfigManager.{
  State, sleeping, checkpoint_name, backup_name, timer_expires, guarded_apply_status,
}
use dawos_agent.ConfigManager.Backups.{IsConfig}
use dawos_agent.Checkpoint.{
  GuardedApplyRequest, GuardedApplyResponse, Surroundings, guarded_apply, confirm_apply,
}

module _ (env : Surroundings) (req : GuardedApplyRequest) (s : State) where
  -- The state after an apply over a configuration `old` that the daemon has loaded.
  abbrev pub applied_over : Text → State
  applied_over old = record {
    config = some req.content;
    backups =
        put (backup_name env.backup_ts) old (put (checkpoint_name env.checkpoint_ts) old s.backups);
    checkpoint_path = none;
    rollback_task = some (sleeping (req.confirm_minutes * 60));
    reloads = req.content ∷ s.reloads;
  }

  applied :
      (old : Text)
      → IsConfig req.content
      → env.answers ≡ true
      → s.config ≡ some old
      → guarded_apply env req s ≡ (
        ok (record {
          checkpoint = checkpoint_name env.checkpoint_ts;
          confirm_deadline_seconds = req.confirm_minutes * 60;
        }),
        applied_over old,
      )
  unfolding guarded_apply
  applied old valid answers had = ground (arith, text_beq_iff (strip req.content) [])

  -- Whatever an apply returns, its write went through or nothing changed on disk.
  applied_ok :
      (resp : GuardedApplyResponse)
      → (guarded_apply env req s).0 ≡ ok resp
      → ((guarded_apply env req s).1.config ≡ some req.content)
        × ((guarded_apply env req s).1.reloads ≡ req.content ∷ s.reloads)
        × ((guarded_apply env req s).1.rollback_task ≡ some (sleeping (req.confirm_minutes * 60)))
        × ((guarded_apply env req s).1.checkpoint_path ≡ none)
  unfolding guarded_apply
  applied_ok resp h = ground (arith, text_beq_iff (strip req.content) [])

-- A valid text that the daemon loads is applied over a configuration: the answer names the
-- checkpoint and the deadline, the file has the new text, the daemon has loaded it, the text that it
-- replaces is kept under the checkpoint's name and as a backup, and the timer sleeps the minutes of the
-- request, in seconds. The apply is pending, and the status names no checkpoint.
pub guarded_apply_lem :
    (env : Surroundings) (req : GuardedApplyRequest) (s : State) (old : Text)
    → IsConfig req.content
    → env.answers ≡ true
    → s.config ≡ some old
    → ((guarded_apply env req s).0
        ≡ ok (record {
          checkpoint = checkpoint_name env.checkpoint_ts;
          confirm_deadline_seconds = req.confirm_minutes * 60;
        }))
      × ((guarded_apply env req s).1.config ≡ some req.content)
      × ((guarded_apply env req s).1.reloads ≡ req.content ∷ s.reloads)
      × (get (checkpoint_name env.checkpoint_ts) (guarded_apply env req s).1.backups ≡ some old)
      × (get (backup_name env.backup_ts) (guarded_apply env req s).1.backups ≡ some old)
      × ((guarded_apply env req s).1.rollback_task ≡ some (sleeping (req.confirm_minutes * 60)))
      × (guarded_apply_status (guarded_apply env req s).1
          ≡ record { pending = true; checkpoint = none })
unfolding guarded_apply_status
guarded_apply_lem env req s old valid answers had =
    let cp = checkpoint_name env.checkpoint_ts in
    let bak = backup_name env.backup_ts in
    let files = put cp old s.backups in
    rw (applied env req s old valid answers had) (
      refl,
      refl,
      refl,
      ground (arith, get-put bak cp old files, get-put_self cp old s.backups),
      get-put_self bak old files,
      refl,
      refl,
    )

-- Whenever an apply reports success and its timer then runs out unconfirmed, the new text stays:
-- nothing is restored and the daemon is told nothing. Already after the apply the status names no
-- checkpoint.
pub guarded_apply-never_rolls_back :
    (env : Surroundings) (req : GuardedApplyRequest) (s : State) (resp : GuardedApplyResponse)
    (answers : Bool)
    → (guarded_apply env req s).0 ≡ ok resp
    → ((timer_expires answers (guarded_apply env req s).1).config ≡ some req.content)
      × ((timer_expires answers (guarded_apply env req s).1).reloads ≡ req.content ∷ s.reloads)
      × ((guarded_apply_status (guarded_apply env req s).1)
          ≡ record { pending = true; checkpoint = none })
unfolding timer_expires guarded_apply_status
guarded_apply-never_rolls_back env req s resp answers h =
    let (config, reloads, task, path) = applied_ok env req s resp h in
    (ground arith, ground arith, ground arith)

-- If the daemon does not answer, the request fails with 500, but the new text is on disk all the
-- same, and no timer is started: what was pending before is what is pending after.
pub guarded_apply_unanswered :
    (env : Surroundings) (req : GuardedApplyRequest) (s : State)
    → IsConfig req.content
    → env.answers ≡ false
    → ((guarded_apply env req s).0 ≡ err 500)
      × ((guarded_apply env req s).1.config ≡ some req.content)
      × ((guarded_apply env req s).1.rollback_task ≡ s.rollback_task)
      × ((guarded_apply env req s).1.reloads ≡ s.reloads)
unfolding guarded_apply
guarded_apply_unanswered env req s valid answers =
    ground (arith, text_beq_iff (strip req.content) [])

-- A text that is refused fails with 500 and leaves the configuration, the timer and the daemon as
-- they were.
pub guarded_apply_refused :
    (env : Surroundings) (req : GuardedApplyRequest) (s : State)
    → ((strip req.content ≡ []) ⊎ (has_char b'[' (strip req.content) ≡ false))
    → ((guarded_apply env req s).0 ≡ err 500)
      × ((guarded_apply env req s).1.config ≡ s.config)
      × ((guarded_apply env req s).1.rollback_task ≡ s.rollback_task)
      × ((guarded_apply env req s).1.reloads ≡ s.reloads)
unfolding guarded_apply
guarded_apply_refused env req s bad = ground (arith, text_beq_iff (strip req.content) [])

-- A confirmation fails with 409 exactly when nothing is pending, and changes nothing then. Else it
-- ends the pending apply: the files stay, and the timer no longer changes anything.
pub confirm_apply_lem :
    (s : State) (answers : Bool)
    → (((confirm_apply s).0 ≡ err 409) ↔ ((guarded_apply_status s).pending ≡ false))
      × ((guarded_apply_status s).pending ≡ false → (confirm_apply s).1 ≡ s)
      × ((guarded_apply_status s).pending ≡ true
          → ((confirm_apply s).1.config ≡ s.config)
            × ((confirm_apply s).1.backups ≡ s.backups)
            × ((guarded_apply_status (confirm_apply s).1).pending ≡ false)
            × (timer_expires answers (confirm_apply s).1 ≡ (confirm_apply s).1))
unfolding confirm_apply timer_expires
confirm_apply_lem s answers = ground arith
