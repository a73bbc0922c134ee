-- ===== src/Playbooks/Tests.antt =====
-- Runs of the playbooks, and their theorems at concrete inputs.
use dawos_agent.Prelude.{
  codes, text_eq, string_eq, ◌≡◌, refl, true, length, none, some, [], ◌∷◌, ok, err,
}
use dawos_agent.Prelude.Dict.{get}
use dawos_agent.ConfigManager.{
  State, sleeping, timer_expires, checkpoint_name, guarded_apply_status,
}
use dawos_agent.Playbooks.{World, exited, run_health_check, run_backup_config}
use dawos_agent.Playbooks.Guarded.{run_backup_config-disarms}

abbrev healthy : World
healthy = record {
  show_version = ok (codes "1.12 ");
  active = ok (some (codes "3"));
  restart = exited 0 [];
  timestamp = codes "t";
}

abbrev applied : State
applied = record {
  config = some (codes "[new]");
  backups = (codes "old.checkpoint", codes "[old]") ∷ [];
  checkpoint_path = none;
  rollback_task = some (sleeping 300);
  reloads = codes "[new]" ∷ [];
}

abbrev without_config : State
without_config = record applied { config = none }

statistics_fail :
    length (run_health_check (record healthy { active = err (codes "timeout") }) applied).0 ≡ 3
unfolding run_health_check
statistics_fail = refl

run_backup_config-disarms_example :
    let after = (run_backup_config healthy applied).1 in
    (get (checkpoint_name (codes "t")) after.backups ≡ some (codes "[new]"))
    × (guarded_apply_status after
        ≡ record { pending = true; checkpoint = some (checkpoint_name (codes "t")) })
    × (after.rollback_task ≡ some (sleeping 300))
    × ((timer_expires true after).config ≡ some (codes "[new]"))
    × ((timer_expires true after).reloads ≡ codes "[new]" ∷ after.reloads)
run_backup_config-disarms_example =
    run_backup_config-disarms healthy true 300 (codes "[new]") applied refl refl
