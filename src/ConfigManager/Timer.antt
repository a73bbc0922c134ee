-- ===== src/ConfigManager/Timer.antt =====
-- The checkpoint and the auto-rollback timer.
use dawos_agent.Prelude.{ℕ, Text, text_eq, ◌≡◌, refl, arith, Bool, true, false, ok, some, none, ◌∷◌}
use dawos_agent.Prelude.Dict.{get, get-put_self}
use dawos_agent.ConfigManager.{
  State, sleeping, done, timer_expires, create_checkpoint, checkpoint_name, cancel_guarded_timer,
  start_guarded_timer, guarded_apply_status,
}

-- A checkpoint keeps the text of the configuration under its name and is remembered; the
-- configuration and the timer are left alone. Without a configuration nothing happens.
pub create_checkpoint_lem :
    (ts : Text) (s : State)
    → ((s.config ≡ none) → create_checkpoint ts s ≡ (ok none, s))
      × ((content : Text)
          → s.config ≡ some content
          → ((create_checkpoint ts s).0 ≡ ok (some (checkpoint_name ts)))
            × ((create_checkpoint ts s).1.checkpoint_path ≡ some (checkpoint_name ts))
            × (get (checkpoint_name ts) (create_checkpoint ts s).1.backups ≡ some content)
            × ((create_checkpoint ts s).1.config ≡ s.config)
            × ((create_checkpoint ts s).1.rollback_task ≡ s.rollback_task))
unfolding create_checkpoint
create_checkpoint_lem ts s = (
  λ absent. rw absent,
  λ content there.
      rw there (refl, refl, get-put_self (checkpoint_name ts) content s.backups, refl, refl),
)

-- Where a checkpoint is remembered and its file is there, a timer that runs out puts its text back,
-- and has the daemon load it if the daemon answers.
pub timer_expires_restores :
    (s : State) (answers : Bool) (seconds : ℕ) (path content : Text)
    → s.rollback_task ≡ some (sleeping seconds)
    → s.checkpoint_path ≡ some path
    → get path s.backups ≡ some content
    → ((timer_expires answers s).config ≡ some content)
      × ((timer_expires answers s).rollback_task ≡ some done)
      × ((timer_expires true s).reloads ≡ content ∷ s.reloads)
unfolding timer_expires
timer_expires_restores s answers seconds path content running remembered there =
    (ground (arith, there), ground (arith, there), ground (arith, there))

-- But the timer starts by cancelling the old one, which forgets the checkpoint. So whatever was
-- remembered before, a timer that is started and runs out with nothing in between restores nothing:
-- the configuration, the files and the daemon are as they were.
pub start_guarded_timer-restores_nothing :
    (s : State) (answers : Bool) (seconds : ℕ)
    → timer_expires answers (start_guarded_timer seconds s)
      ≡ record s { checkpoint_path = none; rollback_task = some done }
unfolding timer_expires start_guarded_timer
start_guarded_timer-restores_nothing s answers seconds = refl

-- After a cancellation nothing is pending, no checkpoint is remembered, and a timer that was
-- sleeping no longer changes anything.
pub cancel_guarded_timer_lem :
    (s : State) (answers : Bool)
    → (guarded_apply_status (cancel_guarded_timer s)
        ≡ record { pending = false; checkpoint = none })
      × (timer_expires answers (cancel_guarded_timer s) ≡ cancel_guarded_timer s)
      × ((cancel_guarded_timer s).config ≡ s.config)
      × ((cancel_guarded_timer s).backups ≡ s.backups)
unfolding guarded_apply_status timer_expires cancel_guarded_timer
cancel_guarded_timer_lem s answers = (refl, refl, refl, refl)
