-- ===== src/Scheduler/Steps.antt =====
-- Every state that the scheduler reaches satisfies its invariant.
use dawos_agent.Prelude.{
  ℕ, Text, text_eq, nat_eq, Bool, true, false, Option, none, some, Result, ok, err, ◌≡◌, refl, sym,
  ap, ◌∙◌, arith, Bool-cases, inl, inr,
}
use dawos_agent.Prelude.Dict.{Dict, get, has, get-put}
use dawos_agent.Prelude.Texts.{text_beq_iff}
use dawos_agent.Scheduler.{
  Job, Phase, created, sleeping, executing, ended, Loop, State, Failure, value_error, Outcome,
  empty, enabled_job, new_job, register, spawn, start_loop, with_result, record_in, finish_execute,
  sleep_of, execute_of, loop_head, resume_phase, resume_loop, resume, add_job, remove_job,
}
use dawos_agent.Scheduler.Sound.{
  IsSound, is_live, live_name, waited, identity_of, empty-IsSound, set_loop-IsSound,
  register-IsSound, spawn-IsSound, idle_if_absent,
}
use dawos_agent.Scheduler.Removal.{remove-IsSound}

-- What any interleaving of requests, loop steps and manual runs leads to.
pub data Reachable : State → Type 0 where
  starts : Reachable empty
  adds :
      {s : State} (name command : Text) (interval_seconds : ℕ) (enabled : Bool)
      → Reachable s
      → Reachable (add_job name command interval_seconds enabled s).1
  removes : {s : State} (name : Text) → Reachable s → Reachable (remove_job name s).1
  resumes :
      {s : State} (t : ℕ) (r : Result Failure Outcome) → Reachable s → Reachable (resume t r s)
  finishes :
      {s : State} (name : Text) (identity : ℕ) (outcome : Outcome)
      → Reachable s
      → Reachable (finish_execute name identity outcome s)

-- Recording a result changes no job's identity and enables none.
record_in-same :
    (identity : ℕ) (outcome : Outcome) (o : Option Job) (name n : Text) (jobs : Dict Text Job)
    → get name jobs ≡ o
    → (enabled_job (get n (record_in identity outcome o name jobs)) ≡ enabled_job (get n jobs))
      × (identity_of (get n (record_in identity outcome o name jobs)) ≡ identity_of (get n jobs))
record_in-same identity outcome none name n jobs h = (refl, refl)
record_in-same identity outcome (some job) name n jobs h = (
  ground (arith, h, get-put name n (with_result outcome job) jobs, text_beq_iff name n),
  ground (arith, h, get-put name n (with_result outcome job) jobs, text_beq_iff name n),
)

pub finish_execute-IsSound :
    (s : State) (name : Text) (identity : ℕ) (outcome : Outcome)
    → IsSound s
    → IsSound (finish_execute name identity outcome s)
unfolding finish_execute
finish_execute-IsSound s name identity outcome sound = record {
  live_runs = λ t n h. sound.live_runs t n h;
  runs_live = λ t n h. sound.runs_live t n h;
  started = λ n. sound.started n ∙ sym (same n).0;
  waits = λ t n i h w. (same n).1 ∙ sound.waits t n i h w;
  tasks_fresh = λ t h. sound.tasks_fresh t h;
  jobs_fresh = λ n i h. sound.jobs_fresh n i (sym (same n).1 ∙ h);
}
  where
    same :
        (n : Text)
        → (enabled_job (get n (record_in identity outcome (get name s.jobs) name s.jobs))
            ≡ enabled_job (get n s.jobs))
          × (identity_of (get n (record_in identity outcome (get name s.jobs) name s.jobs))
              ≡ identity_of (get n s.jobs))
    same n = record_in-same identity outcome (get name s.jobs) name n s.jobs refl

-- A live loop's job is enabled, so its next phase is live.
sleep_of-live :
    (o : Option Job)
    → enabled_job o ≡ true
    → (is_live (sleep_of o) ≡ true)
      × ((i : ℕ) → waited (sleep_of o) ≡ some i → identity_of o ≡ some i)
sleep_of-live none h = absurd (cc)
sleep_of-live (some job) h = rw h (refl, λ i w. absurd (cc))

execute_of-live :
    (o : Option Job)
    → enabled_job o ≡ true
    → (is_live (execute_of o) ≡ true)
      × ((i : ℕ) → waited (execute_of o) ≡ some i → identity_of o ≡ some i)
execute_of-live none h = absurd (cc)
execute_of-live (some job) h = rw h (refl, λ i w. w)

pub live_enabled :
    (s : State) (t : ℕ) (name : Text)
    → IsSound s
    → live_name (get t s.tasks) ≡ some name
    → enabled_job (get name s.jobs) ≡ true
live_enabled s t name sound live = ground (arith, sound.started name, sound.live_runs t name live)

loop_head-IsSound :
    (s : State) (t : ℕ) (name : Text)
    → IsSound s
    → live_name (get t s.tasks) ≡ some name
    → IsSound (loop_head t name s)
unfolding loop_head
loop_head-IsSound s t name sound live =
    let next = sleep_of-live (get name s.jobs) (live_enabled s t name sound live) in
    set_loop-IsSound s t name (sleep_of (get name s.jobs)) sound live next.0 next.1

resume_phase-IsSound :
    (s : State) (t : ℕ) (name : Text) (phase : Phase) (r : Result Failure Outcome)
    → IsSound s
    → get t s.tasks ≡ some (record { job_name = name; phase = phase })
    → IsSound (resume_phase t name phase r s)
resume_phase-IsSound s t name created r sound at =
    loop_head-IsSound s t name sound (ap live_name at)
resume_phase-IsSound s t name (sleeping n) r sound at =
    let live = ap live_name at in
    let next = execute_of-live (get name s.jobs) (live_enabled s t name sound live) in
    set_loop-IsSound s t name (execute_of (get name s.jobs)) sound live next.0 next.1
resume_phase-IsSound s t name (executing i) (ok outcome) sound at =
    loop_head-IsSound (finish_execute name i outcome s) t name
      (finish_execute-IsSound s name i outcome sound) (unfold finish_execute in ap live_name at)
resume_phase-IsSound s t name (executing i) (err e) sound at =
    loop_head-IsSound s t name sound (ap live_name at)
resume_phase-IsSound s t name ended r sound at = sound

resume-IsSound :
    (s : State) (t : ℕ) (r : Result Failure Outcome) → IsSound s → IsSound (resume t r s)
unfolding resume
resume-IsSound s t r sound = at_task (get t s.tasks) refl
  where
    at_task : (o : Option Loop) → get t s.tasks ≡ o → IsSound (resume_loop t r o s)
    at_task none at = sound
    at_task (some loop) at = resume_phase-IsSound s t loop.job_name loop.phase r sound at

-- A job that is not registered has no loop to cancel.
start_loop-spawn :
    (s : State) (name : Text) → get name s.running_tasks ≡ none → start_loop name s ≡ spawn name s
unfolding start_loop
start_loop-spawn s name idle = rw idle refl

pub add_job-taken :
    (s : State) (name command : Text) (n : ℕ) (enabled : Bool)
    → has name s.jobs ≡ true
    → add_job name command n enabled s ≡ (err value_error, s)
unfolding add_job
add_job-taken s name command n enabled taken = rw taken refl

pub add_job-enabled :
    (s : State) (name command : Text) (n : ℕ)
    → IsSound s
    → has name s.jobs ≡ false
    → add_job name command n true s ≡ (
      ok (new_job name command n true s.fresh),
      spawn name (register (new_job name command n true s.fresh) s),
    )
unfolding add_job
add_job-enabled s name command n sound free =
    let idle : get name s.running_tasks ≡ none =
      idle_if_absent s name sound (ground (arith, free)) in
    rw free (
      ap (λ s'. (ok (new_job name command n true s.fresh), s'))
        (start_loop-spawn (register (new_job name command n true s.fresh) s) name idle))

pub add_job-disabled :
    (s : State) (name command : Text) (n : ℕ)
    → has name s.jobs ≡ false
    → add_job name command n false s ≡ (
      ok (new_job name command n false s.fresh),
      register (new_job name command n false s.fresh) s,
    )
unfolding add_job
add_job-disabled s name command n free = rw free refl

add_job-IsSound :
    (s : State) (name command : Text) (n : ℕ) (enabled : Bool)
    → IsSound s
    → IsSound (add_job name command n enabled s).1
add_job-IsSound s name command n enabled sound = elim (Bool-cases (has name s.jobs)) [
  | inl taken ↦ rw (add_job-taken s name command n enabled taken) sound
  | inr free ↦ new enabled free (ground (arith, free))
]
  where
    new :
        (enabled : Bool)
        → has name s.jobs ≡ false
        → get name s.jobs ≡ none
        → IsSound (add_job name command n enabled s).1
    new true free absent =
        rw (add_job-enabled s name command n sound free)
          (spawn-IsSound s (new_job name command n true s.fresh) sound absent refl refl)
    new false free absent =
        rw (add_job-disabled s name command n free)
          (register-IsSound s (new_job name command n false s.fresh) sound absent refl refl)

remove_job-IsSound : (s : State) (name : Text) → IsSound s → IsSound (remove_job name s).1
unfolding remove_job
remove_job-IsSound s name sound = elim (Bool-cases (has name s.jobs)) [
  | inl there ↦ rw there (remove-IsSound s name sound)
  | inr absent ↦ rw absent sound
]

-- Every state that is reached is sound: whatever the order of the requests, of the loops' steps and
-- of the ends of manual runs, the running tasks are the live loops, each enabled job has one and no
-- other job has any, and what a loop's execution changes is the job that is registered.
pub Reachable-IsSound : (s : State) → Reachable s → IsSound s
Reachable-IsSound _ starts = empty-IsSound
Reachable-IsSound _ (adds {s} name command n enabled r) =
    add_job-IsSound s name command n enabled (Reachable-IsSound s r)
Reachable-IsSound _ (removes {s} name r) = remove_job-IsSound s name (Reachable-IsSound s r)
Reachable-IsSound _ (resumes {s} t o r) = resume-IsSound s t o (Reachable-IsSound s r)
Reachable-IsSound _ (finishes {s} name identity outcome r) =
    finish_execute-IsSound s name identity outcome (Reachable-IsSound s r)
