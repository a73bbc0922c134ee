-- ===== src/Playbooks/Guarded.antt =====
-- A playbook that takes a checkpoint while a guarded apply is pending.
use dawos_agent.Prelude.{
  ℕ, Text, ◌≡◌, ◌∙◌, text_eq, refl, Bool, true, some, ◌∷◌, Option-cases, inl, inr,
}
use dawos_agent.Prelude.Dict.{get}
use dawos_agent.ConfigManager.{
  State, sleeping, create_checkpoint, checkpoint_name, timer_expires, guarded_apply_status,
}
use dawos_agent.ConfigManager.Timer.{create_checkpoint_lem, timer_expires_restores}
use dawos_agent.Playbooks.{World, run_backup_config}

run_backup_config-state :
    (w : World) (s : State) → (run_backup_config w s).1 ≡ (create_checkpoint w.timestamp s).1
unfolding run_backup_config create_checkpoint
run_backup_config-state w s = elim (Option-cases s.config) [
  | inl absent ↦ rw absent refl
  | inr (c, there) ↦ rw there refl
]

-- While an apply is pending, the backup playbook keeps the configuration that is to be confirmed as a
-- file and makes that file the checkpoint, also where there was none, and the apply stays pending. When
-- the timer then runs out unconfirmed, that configuration stays, and a daemon that answers is told to
-- load it once more.
pub run_backup_config-disarms :
    (w : World) (answers : Bool) (seconds : ℕ) (content : Text) (s : State)
    → s.rollback_task ≡ some (sleeping seconds)
    → s.config ≡ some content
    → let after = (run_backup_config w s).1 in
      (get (checkpoint_name w.timestamp) after.backups ≡ some content)
      × (guarded_apply_status after
          ≡ record { pending = true; checkpoint = some (checkpoint_name w.timestamp) })
      × (after.rollback_task ≡ some (sleeping seconds))
      × ((timer_expires answers after).config ≡ some content)
      × ((timer_expires true after).reloads ≡ content ∷ after.reloads)
unfolding guarded_apply_status
run_backup_config-disarms w answers seconds content s pending there =
    let made = (create_checkpoint_lem w.timestamp s).1 content there in
    let restored =
      timer_expires_restores (create_checkpoint w.timestamp s).1 answers seconds
        (checkpoint_name w.timestamp) content (made.4 ∙ pending) made.1 made.2 in
    rw (run_backup_config-state w s)
      (made.2, rw (made.1, made.4 ∙ pending) refl, made.4 ∙ pending, restored.0, restored.2)
