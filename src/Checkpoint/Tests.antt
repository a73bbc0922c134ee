-- ===== src/Checkpoint/Tests.antt =====
-- Runs of the guarded apply, and its theorems at concrete inputs.
use dawos_agent.Prelude.{Text, codes, text_eq, [], ◌∷◌, ◌≡◌, refl, true, false, ok, some, none}
use dawos_agent.Prelude.Dict.{get}
use dawos_agent.Prelude.Texts.{strip}
use dawos_agent.ConfigManager.{
  State, sleeping, timer_expires, guarded_apply_status, checkpoint_name, backup_name,
}
use dawos_agent.ConfigManager.Backups.{IsConfig}
use dawos_agent.Checkpoint.{
  GuardedApplyRequest, Surroundings, begin_apply, finish_apply, guarded_apply,
}
use dawos_agent.Checkpoint.Apply.{guarded_apply_lem, guarded_apply-never_rolls_back}
use dawos_agent.Checkpoint.Steps.{apply_overtaken}

abbrev old : Text
old = codes "[old]"

abbrev request : GuardedApplyRequest
request = record { content = codes "[new]"; confirm_minutes = 5 }

abbrev blank : GuardedApplyRequest
blank = record { content = codes " "; confirm_minutes = 5 }

abbrev env : Surroundings
env = record { checkpoint_ts = codes "1"; backup_ts = codes "2"; answers = true }

abbrev deaf : Surroundings
deaf = record env { answers = false }

abbrev start : State
start = record {
  config = some old;
  backups = [];
  checkpoint_path = none;
  rollback_task = none;
  reloads = [];
}

abbrev pending_start : State
pending_start = record start { rollback_task = some (sleeping 300) }

request-IsConfig : IsConfig request.content
unfolding strip
request-IsConfig = record { not_blank = λ e. cc; has_section = refl }

guarded_apply_lem_example :
    ((guarded_apply env request start).0
      ≡ ok (record { checkpoint = checkpoint_name (codes "1"); confirm_deadline_seconds = 300 }))
    × ((guarded_apply env request start).1.config ≡ some (codes "[new]"))
    × ((guarded_apply env request start).1.reloads ≡ codes "[new]" ∷ [])
    × (get (checkpoint_name (codes "1")) (guarded_apply env request start).1.backups ≡ some old)
    × (get (backup_name (codes "2")) (guarded_apply env request start).1.backups ≡ some old)
    × ((guarded_apply env request start).1.rollback_task ≡ some (sleeping 300))
    × (guarded_apply_status (guarded_apply env request start).1
        ≡ record { pending = true; checkpoint = none })
guarded_apply_lem_example = guarded_apply_lem env request start old request-IsConfig refl refl

guarded_apply-never_rolls_back_example :
    ((timer_expires true (guarded_apply env request start).1).config ≡ some (codes "[new]"))
    × ((timer_expires true (guarded_apply env request start).1).reloads ≡ codes "[new]" ∷ [])
    × ((guarded_apply_status (guarded_apply env request start).1)
        ≡ record { pending = true; checkpoint = none })
guarded_apply-never_rolls_back_example =
    guarded_apply-never_rolls_back env request start
      (record { checkpoint = checkpoint_name (codes "1"); confirm_deadline_seconds = 300 }) true
      guarded_apply_lem_example.0

apply_overtaken_example :
    ((begin_apply env request pending_start).0 ≡ ok (some (checkpoint_name (codes "1"))))
    × ((begin_apply env request pending_start).1.config ≡ some (codes "[new]"))
    × ((timer_expires true (begin_apply env request pending_start).1).config ≡ some old)
    × ((finish_apply request
          (some (checkpoint_name (codes "1")))
          (timer_expires true (begin_apply env request pending_start).1)).0
        ≡ ok (record { checkpoint = checkpoint_name (codes "1"); confirm_deadline_seconds = 300 }))
    × ((finish_apply request
          (some (checkpoint_name (codes "1")))
          (timer_expires true (begin_apply env request pending_start).1)).1.config
        ≡ some old)
apply_overtaken_example =
    apply_overtaken env request pending_start old 300 true refl refl request-IsConfig
