-- ===== src/Playbooks/Runs.antt =====
-- When the playbooks report success, and which steps they run.
use dawos_agent.Prelude.{
  String, Text, ◌≡◌, ◌≢◌, sym, refl, ◌↔◌, arith, Bool, true, false, length, none, some, Result, ok,
  err, nat_eq, text_eq, string_eq, nat_beq, if◌then◌else◌, Result-cases, Option-cases, inl, inr,
}
use dawos_agent.Prelude.Dict.{get, get-put_self}
use dawos_agent.ConfigManager.{State, create_checkpoint, checkpoint_name, read_config}
use dawos_agent.Playbooks.{
  World, Restart, exited, not_started, all_ok, run_health_check, run_safe_restart, run_playbook,
  playbook_registry, statistics_step, config_step, restarted, restart_steps, verification_step,
}

-- The answer came, whatever it says.
abbrev pub has_answer {ℓ} : {A : Type ℓ} → Result Text A → Bool
has_answer (ok a) = true
has_answer (err e) = false

-- The health check reports success exactly when accel-cmd answers both questions and the configuration
-- file is there. It stops after its first step only: with a failure of the second, the third still runs.
pub run_health_check_lem :
    (w : World) (s : State)
    → ((all_ok (run_health_check w s).0 ≡ true)
        ↔ ((has_answer w.show_version ≡ true) × (has_answer w.active ≡ true) × (s.config ≢ none)))
      × (length (run_health_check w s).0 ≡ (if has_answer w.show_version then 3 else 1))
      × ((run_health_check w s).1 ≡ s)
unfolding run_health_check statistics_step config_step read_config
run_health_check_lem w s = elim (Result-cases w.show_version) [
  | inr (e, unanswered) ↦ rw unanswered (ground arith)
  | inl (v, answered) ↦ rw answered (elim (Result-cases w.active) [
    | inl (a, stat) ↦ rw stat (elim (Option-cases s.config) [
      | inl absent ↦ rw absent (ground arith)
      | inr (c, there) ↦ rw there (ground arith)
    ])
    | inr (e, stat) ↦ rw stat (ground arith)
  ])
]

-- The exit code of the restart is 0.
abbrev pub exits_zero : Restart → Bool
exits_zero (not_started e) = false
exits_zero (exited code stderr) = nat_beq code 0

restarted-exits_zero : (r : Restart) → has_answer (restarted r) ≡ exits_zero r
unfolding restarted
restarted-exits_zero (not_started e) = refl
restarted-exits_zero (exited code stderr) = ground arith

restart_steps-all_ok :
    (w : World) (r : Result Text (Unit {0}))
    → (all_ok (restart_steps w r) ≡ true)
      ↔ ((has_answer r ≡ true) × (has_answer w.show_version ≡ true))
unfolding restart_steps verification_step
restart_steps-all_ok w (err e) = ground arith
restart_steps-all_ok w (ok done) = elim (Result-cases w.show_version) [
  | inl (v, answered) ↦ rw answered (ground arith)
  | inr (e, unanswered) ↦ rw unanswered (ground arith)
]

restart-all_ok :
    (w : World)
    → (all_ok (restart_steps w (restarted w.restart)) ≡ true)
      ↔ ((exits_zero w.restart ≡ true) × (has_answer w.show_version ≡ true))
restart-all_ok w =
    rw (sym (restarted-exits_zero w.restart)) (restart_steps-all_ok w (restarted w.restart))

-- The safe restart reports success exactly when the restart command exits with 0 and the daemon answers
-- afterwards. Whatever becomes of the restart, the configuration has been saved before it.
pub run_safe_restart_lem :
    (w : World) (s : State)
    → ((all_ok (run_safe_restart w s).0 ≡ true)
        ↔ ((exits_zero w.restart ≡ true) × (has_answer w.show_version ≡ true)))
      × ((content : Text)
          → s.config ≡ some content
          → get (checkpoint_name w.timestamp) (run_safe_restart w s).1.backups ≡ some content)
unfolding run_safe_restart create_checkpoint
run_safe_restart_lem w s = elim (Option-cases s.config) [
  | inl absent ↦ rw absent (restart-all_ok w, λ content there. absurd (ground arith))
  | inr (c, there) ↦ rw there (
    restart-all_ok w,
    λ content same. ground (arith, get-put_self (checkpoint_name w.timestamp) c s.backups),
  )
]

-- Without a configuration file the safe restart saves nothing, reports that step as done and restarts.
pub run_safe_restart-saves_nothing :
    (w : World) (s : State)
    → s.config ≡ none
    → exits_zero w.restart ≡ true
    → has_answer w.show_version ≡ true
    → (all_ok (run_safe_restart w s).0 ≡ true) × ((run_safe_restart w s).1 ≡ s)
unfolding run_safe_restart create_checkpoint
run_safe_restart-saves_nothing w s absent restarts answers =
    rw absent ((restart-all_ok w).1 (restarts, answers), refl)

-- The run endpoint is 404 exactly for the names that the registry does not list.
pub run_playbook-missing_iff :
    (name : String) (w : World) (s : State)
    → ((run_playbook name w s).0 ≡ err 404) ↔ (get name playbook_registry ≡ none)
unfolding run_playbook get
run_playbook-missing_iff name w s = ground arith
