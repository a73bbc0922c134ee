-- ===== src/Scheduler/Rounds.antt =====
-- The loop of an enabled job goes on, whatever its executions do.
use dawos_agent.Prelude.{
  ℕ, ◌+◌, Text, text_eq, nat_eq, ==_iff, true, false, some, List, [], ◌∷◌, Result, ok, err, ◌≡◌,
  refl, ap, ◌∙◌, arith, if◌then◌else◌,
}
use dawos_agent.Prelude.Dict.{Dict, get, put, has, get-put_self}
use dawos_agent.Scheduler.{
  Job, new_job, register, spawn, created, value_error, add_job, sleeping, executing, ended, State,
  Failure, Outcome, with_result, record_in, finish_execute, sleep_of, execute_of, set_loop,
  loop_head, resume_loop, resume_phase, resume,
}
use dawos_agent.Scheduler.Steps.{Reachable, Reachable-IsSound, add_job-enabled}

-- The loop wakes up, and its execution ends with `r`.
abbrev pub round : ℕ → Result Failure Outcome → State → State
round t r s = resume t r (resume t r s)

abbrev pub rounds : ℕ → List (Result Failure Outcome) → State → State
rounds t [] s = s
rounds t (r ∷ rs) s = rounds t rs (round t r s)

-- The job after these executions: an exception leaves it as it was.
abbrev pub after_run : Result Failure Outcome → Job → Job
after_run (ok outcome) job = with_result outcome job
after_run (err e) job = job

abbrev pub after_runs : List (Result Failure Outcome) → Job → Job
after_runs [] job = job
after_runs (r ∷ rs) job = after_runs rs (after_run r job)

-- The task sleeps for a job that is enabled.
pub record Sleeps (t : ℕ) (name : Text) (job : Job) (s : State) : Type 0 where
  pub job_there : get name s.jobs ≡ some job
  pub enabled : job.enabled ≡ true
  pub asleep :
      get t s.tasks ≡ some (record { job_name = name; phase = sleeping job.interval_seconds })

woken : ℕ → Text → Job → State → State
woken t name job s = set_loop t name (executing job.identity) s

wakes :
    (t : ℕ) (name : Text) (job : Job) (r : Result Failure Outcome) (s : State)
    → Sleeps t name job s
    → resume t r s ≡ woken t name job s
unfolding resume woken
wakes t name job r s h =
    ap (λ o. resume_loop t r o s) h.asleep
    ∙ ap (λ o. set_loop t name (execute_of o) s) h.job_there
    ∙ ap (λ b. set_loop t name (if b then executing job.identity else ended) s) h.enabled

ended_state : ℕ → Text → Job → Result Failure Outcome → State → State
ended_state t name job r s = record s {
  jobs = elim r [ ok outcome ↦ put name (with_result outcome job) s.jobs | err e ↦ s.jobs ];
  tasks =
      put t (record { job_name = name; phase = sleeping job.interval_seconds })
        (put t (record { job_name = name; phase = executing job.identity }) s.tasks);
}

recorded :
    (name : Text) (job : Job) (outcome : Outcome) (jobs : Dict Text Job)
    → get name jobs ≡ some job
    → record_in job.identity outcome (get name jobs) name jobs
      ≡ put name (with_result outcome job) jobs
recorded name job outcome jobs there =
    ap (λ o. record_in job.identity outcome o name jobs) there
    ∙ ground (arith, ==_iff job.identity job.identity)

slept :
    (t : ℕ) (name : Text) (job : Job) (s : State)
    → get name s.jobs ≡ some job
    → job.enabled ≡ true
    → loop_head t name s ≡ set_loop t name (sleeping job.interval_seconds) s
unfolding loop_head
slept t name job s there enabled =
    ap (λ o. set_loop t name (sleep_of o) s) there
    ∙ ap (λ b. set_loop t name (if b then sleeping job.interval_seconds else ended) s) enabled

finishes :
    (t : ℕ) (name : Text) (job : Job) (r : Result Failure Outcome) (s : State)
    → Sleeps t name job s
    → resume t r (woken t name job s) ≡ ended_state t name job r s
unfolding resume woken ended_state finish_execute
finishes t name job r s h =
    ap (λ o. resume_loop t r o (set_loop t name (executing job.identity) s))
      (get-put_self t (record { job_name = name; phase = executing job.identity }) s.tasks)
    ∙ ends r
  where
    ends :
        (r : Result Failure Outcome)
        → resume_phase t name
            (executing job.identity)
            r
            (set_loop t name (executing job.identity) s)
          ≡ ended_state t name job r s
    ends (ok outcome) =
        ap
          (λ jobs.
            loop_head t name (record (set_loop t name (executing job.identity) s) { jobs = jobs }))
          (recorded name job outcome s.jobs h.job_there)
        ∙ slept t name (with_result outcome job)
            (record (set_loop t name (executing job.identity) s) {
              jobs = put name (with_result outcome job) s.jobs;
            })
            (get-put_self name (with_result outcome job) s.jobs) h.enabled
    ends (err e) =
        slept t name job (set_loop t name (executing job.identity) s) h.job_there h.enabled

round-Sleeps :
    (t : ℕ) (name : Text) (job : Job) (r : Result Failure Outcome) (s : State)
    → Sleeps t name job s
    → Sleeps t name (after_run r job) (round t r s)
round-Sleeps t name job r s h =
    rw (wakes t name job r s h, finishes t name job r s h) (sleeps_again r)
  where
    sleeps_again :
        (r : Result Failure Outcome) → Sleeps t name (after_run r job) (ended_state t name job r s)
    sleeps_again (ok outcome) =
        unfold ended_state in
        record {
          job_there = get-put_self name (with_result outcome job) s.jobs;
          enabled = h.enabled;
          asleep = get-put_self t _ _;
        }
    sleeps_again (err e) =
        unfold ended_state in
        record { job_there = h.job_there; enabled = h.enabled; asleep = get-put_self t _ _ }

-- A loop that sleeps for an enabled job runs it once in each round, for as many rounds as there are,
-- and sleeps again after each: an execution that raises does not end the loop, and the ones that
-- return are recorded and counted in their order.
pub rounds-Sleeps :
    (t : ℕ) (name : Text) (job : Job) (rs : List (Result Failure Outcome)) (s : State)
    → Sleeps t name job s
    → Sleeps t name (after_runs rs job) (rounds t rs s)
rounds-Sleeps t name job [] s h = h
rounds-Sleeps t name job (r ∷ rs) s h =
    rounds-Sleeps t name (after_run r job) rs (round t r s) (round-Sleeps t name job r s h)

new_loop-Sleeps :
    (s : State) (name command : Text) (n : ℕ) (r : Result Failure Outcome)
    → Sleeps
        (s.fresh + 1)
        name
        (new_job name command n true s.fresh)
        (resume (s.fresh + 1) r (spawn name (register (new_job name command n true s.fresh) s)))
unfolding resume
new_loop-Sleeps s name command n r =
    let job : Job = new_job name command n true s.fresh in
    let begun : State = spawn name (register job s) in
    let started : resume_loop (s.fresh + 1) r (get (s.fresh + 1) begun.tasks) begun
        ≡ set_loop (s.fresh + 1) name (sleeping n) begun =
      ap (λ o. resume_loop (s.fresh + 1) r o begun)
        (get-put_self (s.fresh + 1) (record { job_name = name; phase = created }) s.tasks)
      ∙ slept (s.fresh + 1) name job begun (get-put_self name job s.jobs) refl in
    rw started (record {
      job_there = get-put_self name job s.jobs;
      enabled = refl;
      asleep = get-put_self (s.fresh + 1) _ _;
    })

-- A job that is added enabled, under a name that is free in a state that was reached, is run over and
-- over: its task starts, and after any list of executions, ones that raise among them, the job is
-- there with exactly the results of those that returned recorded and counted, and the task sleeps
-- for the job's interval again.
pub add_job_runs :
    (s : State) (name command : Text) (n : ℕ) (rs : List (Result Failure Outcome))
    → Reachable s
    → has name s.jobs ≡ false
    → Sleeps (s.fresh + 1) name (after_runs rs (new_job name command n true s.fresh)) (
        rounds
          (s.fresh + 1)
          rs
          (resume (s.fresh + 1) (err value_error) (add_job name command n true s).1))
add_job_runs s name command n rs reached free =
    rw (add_job-enabled s name command n (Reachable-IsSound s reached) free) (
      rounds-Sleeps (s.fresh + 1) name (new_job name command n true s.fresh) rs _
        (new_loop-Sleeps s name command n (err value_error)))
