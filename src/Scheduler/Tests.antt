-- ===== src/Scheduler/Tests.antt =====
-- Runs of the scheduler.
use dawos_agent.Prelude.{Text, codes, text_eq, nat_eq, true, [], ◌∷◌, ok, err, ◌≡◌, refl}
use dawos_agent.Prelude.Dict.{get, put, has}
use dawos_agent.Prelude.Texts.{starts_with}
use dawos_agent.Scheduler.{
  State, value_error, Outcome, empty, new_job, add_job, remove_job, begin_execute, finish_execute,
  resume, start_loop, loop_head,
}
use dawos_agent.Scheduler.Request.{validate_command_safety}
use dawos_agent.Scheduler.Sound.{IsSound}
use dawos_agent.Scheduler.Steps.{Reachable, starts, adds, resumes, Reachable-IsSound}
use dawos_agent.Scheduler.OneLoop.{stale_run}
use dawos_agent.Scheduler.Rounds.{Sleeps, rounds, after_runs, add_job_runs}

abbrev stats : Text
stats = codes "stats"

abbrev one_job : State
one_job = (add_job stats (codes "ss -s") 60 true empty).1

abbrev sleeping_job : State
sleeping_job = resume 1 (err value_error) one_job

one_job_reached : Reachable one_job
one_job_reached = adds stats (codes "ss -s") 60 true starts

sleeping_job_reached : Reachable sleeping_job
sleeping_job_reached = resumes 1 (err value_error) one_job_reached

abbrev outcome : Outcome
outcome = record { output = codes "x"; returncode = 0; timestamp = codes "t" }

accepted : validate_command_safety (codes "tc -s qdisc") ≡ ok (codes "tc -s qdisc")
unfolding validate_command_safety starts_with
accepted = refl

refused : validate_command_safety (codes "ss -s; reboot") ≡ err value_error
unfolding validate_command_safety starts_with
refused = refl

-- The prefix does not bound the path.
accepts_other_files :
    validate_command_safety (codes "cat /proc/../etc/shadow") ≡ ok (codes "cat /proc/../etc/shadow")
unfolding validate_command_safety starts_with
accepts_other_files = refl

Reachable-IsSound_example : IsSound sleeping_job
Reachable-IsSound_example = Reachable-IsSound sleeping_job sleeping_job_reached

job_there : has stats sleeping_job.jobs ≡ true
unfolding add_job resume get put start_loop loop_head
job_there = refl

stale_run_example :
    finish_execute stats 0 outcome
      (add_job stats (codes "free -m") 30 true (remove_job stats sleeping_job).1).1
    ≡ (add_job stats (codes "free -m") 30 true (remove_job stats sleeping_job).1).1
stale_run_example =
    stale_run sleeping_job stats (codes "free -m") 30 true 0 outcome sleeping_job_reached first
  where
    first : begin_execute stats sleeping_job ≡ ok 0
    first = unfold begin_execute add_job resume get put start_loop loop_head in refl

add_job_runs_example :
    Sleeps 1 stats
      (after_runs (ok outcome ∷ err value_error ∷ []) (new_job stats (codes "ss -s") 60 true 0))
      (rounds 1 (ok outcome ∷ err value_error ∷ []) sleeping_job)
unfolding get
add_job_runs_example =
    add_job_runs empty stats (codes "ss -s") 60 (ok outcome ∷ err value_error ∷ []) starts refl
