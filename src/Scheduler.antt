-- ===== src/Scheduler.antt =====
-- dawos_agent/services/scheduler.py and dawos_agent/routers/scheduler.py: the registered jobs, the
-- asyncio task that loops for each, and the endpoints. What a command does is outside: an execution
-- ends with an outcome, or it raises. Every await is the end of one step.
pub mod Request
pub mod Steps
pub mod Sound
pub mod Removal
pub mod OneLoop
pub mod Rounds
mod Tests
use dawos_agent.Prelude.{
  ℕ, ◌+◌, Text, codes, text_eq, nat_eq, Bool, true, false, ◌==◌, ◌&&◌, Option, none, some, List, [],
  ◌∷◌, map, Result, ok, err, if◌then◌else◌,
}
use dawos_agent.Prelude.Dict.{Dict, get, put, delete, has, values}
use dawos_agent.Prelude.Exec.{Exec}

pub record Outcome : Type 0 where
  pub output : Text
  -- a code that is not zero stands for every failure
  pub returncode : ℕ
  pub timestamp : Text

-- The dict of one job. `identity` tells the object apart from a later one of the same name.
pub record Job : Type 0 where
  pub identity : ℕ
  pub name : Text
  pub command : Text
  pub interval_seconds : ℕ
  pub enabled : Bool
  pub last_run : Option Text
  pub last_result : Option Outcome
  pub run_count : ℕ

-- Where the coroutine `_loop` of a task stands: it has not run yet, it sleeps, it waits for the
-- command of one job object, or it has returned or was cancelled.
pub data Phase : Type 0 where
  created : Phase
  sleeping : ℕ → Phase
  executing : ℕ → Phase
  ended : Phase

pub record Loop : Type 0 where
  pub job_name : Text
  pub phase : Phase

pub record State : Type 0 where
  pub jobs : Dict Text Job
  pub running_tasks : Dict Text ℕ
  pub tasks : Dict ℕ Loop
  -- names the next object
  pub fresh : ℕ

abbrev pub empty : State
empty = record { jobs = []; running_tasks = []; tasks = []; fresh = 0 }

pub data Failure : Type 0 where
  value_error key_error : Failure

unfoldable pub list_jobs : State → List Job
list_jobs s = values s.jobs

abbrev set_phase : Phase → Option Loop → ℕ → Dict ℕ Loop → Dict ℕ Loop
set_phase phase none t tasks = tasks
set_phase phase (some loop) t tasks = put t (record loop { phase = phase }) tasks

-- `task.cancel()`: the coroutine ends at the await where it stands.
unfoldable pub cancel : ℕ → State → State
cancel t s = record s { tasks = set_phase ended (get t s.tasks) t s.tasks }

abbrev cancel_running : Option ℕ → State → State
cancel_running none s = s
cancel_running (some t) s = cancel t s

abbrev spawn : Text → State → State
spawn name s = record s {
  running_tasks = put name s.fresh s.running_tasks;
  tasks = put s.fresh (record { job_name = name; phase = created }) s.tasks;
  fresh = s.fresh + 1;
}

unfoldable pub start_loop : Text → State → State
start_loop name s = spawn name (cancel_running (get name s.running_tasks) s)

unfoldable pub stop_loop : Text → State → State
stop_loop name s =
    cancel_running (get name s.running_tasks)
      (record s { running_tasks = delete name s.running_tasks })

abbrev new_job : Text → Text → ℕ → Bool → ℕ → Job
new_job name command interval_seconds enabled identity = record {
  identity = identity;
  name = name;
  command = command;
  interval_seconds = interval_seconds;
  enabled = enabled;
  last_run = none;
  last_result = none;
  run_count = 0;
}

abbrev register : Job → State → State
register job s = record s { jobs = put job.name job s.jobs; fresh = s.fresh + 1 }

unfoldable pub add_job : Text → Text → ℕ → Bool → Exec State Failure Job
add_job name command interval_seconds enabled s =
    let job = new_job name command interval_seconds enabled s.fresh in
    if has name s.jobs
    then (err value_error, s)
    else if enabled
    then (ok job, start_loop name (register job s))
    else (ok job, register job s)

unfoldable pub remove_job : Text → Exec State Failure (Unit {0})
remove_job name s =
    if has name s.jobs
    then (ok tt, record (stop_loop name s) { jobs = delete name (stop_loop name s).jobs })
    else (err key_error, s)

abbrev looked_up : Option Job → Result Failure ℕ
looked_up none = err key_error
looked_up (some job) = ok job.identity

-- `_execute` up to its await: the object of the job that it has looked up.
unfoldable pub begin_execute : Text → State → Result Failure ℕ
begin_execute name s = looked_up (get name s.jobs)

abbrev with_result : Outcome → Job → Job
with_result outcome job = record job {
  last_run = some outcome.timestamp;
  last_result = some outcome;
  run_count = job.run_count + 1;
}

abbrev record_in : ℕ → Outcome → Option Job → Text → Dict Text Job → Dict Text Job
record_in identity outcome none name jobs = jobs
record_in identity outcome (some job) name jobs =
    if job.identity == identity then put name (with_result outcome job) jobs else jobs

-- `_execute` after its await: the object is changed; a job that was removed since is not seen again.
unfoldable pub finish_execute : Text → ℕ → Outcome → State → State
finish_execute name identity outcome s = record s {
  jobs = record_in identity outcome (get name s.jobs) name s.jobs;
}

abbrev enabled_job : Option Job → Bool
enabled_job none = false
enabled_job (some job) = job.enabled

-- `name in _jobs and _jobs[name]["enabled"]`
unfoldable pub is_active : Text → State → Bool
is_active name s = enabled_job (get name s.jobs)

abbrev sleep_of : Option Job → Phase
sleep_of none = ended
sleep_of (some job) = if job.enabled then sleeping job.interval_seconds else ended

abbrev execute_of : Option Job → Phase
execute_of none = ended
execute_of (some job) = if job.enabled then executing job.identity else ended

abbrev set_loop : ℕ → Text → Phase → State → State
set_loop t name phase s = record s {
  tasks = put t (record { job_name = name; phase = phase }) s.tasks;
}

-- The head of the `while`.
unfoldable pub loop_head : ℕ → Text → State → State
loop_head t name s = set_loop t name (sleep_of (get name s.jobs)) s

-- The task runs from its await to the next one. A sleep that is over leads to an execution, whose
-- lookup is at once, or to the head of the `while`, which then ends the loop too.
abbrev resume_phase : ℕ → Text → Phase → Result Failure Outcome → State → State
resume_phase t name created r s = loop_head t name s
resume_phase t name (sleeping n) r s = set_loop t name (execute_of (get name s.jobs)) s
resume_phase t name (executing identity) (ok outcome) s =
    loop_head t name (finish_execute name identity outcome s)
resume_phase t name (executing identity) (err e) s = loop_head t name s
resume_phase t name ended r s = s

abbrev resume_loop : ℕ → Result Failure Outcome → Option Loop → State → State
resume_loop t r none s = s
resume_loop t r (some loop) s = resume_phase t loop.job_name loop.phase r s

-- One step of the task `t`; `r` is how a command that it waits for has ended, where any exception
-- of an execution is logged only.
unfoldable pub resume : ℕ → Result Failure Outcome → State → State
resume t r s = resume_loop t r (get t s.tasks) s

-- The endpoints. `POST /jobs` answers 409 for a name that is taken, the others 404 for one that is not.
abbrev pub Endpoint : Type 0 → Type 0
Endpoint A = Exec State ℕ A

abbrev status {ℓ} : {A : Type ℓ} → ℕ → Result Failure A → Result ℕ A
status code (ok a) = ok a
status code (err e) = err code

unfoldable pub add_job_endpoint : Text → Text → ℕ → Bool → Endpoint Job
add_job_endpoint name command interval_seconds enabled s = (
  status 409 (add_job name command interval_seconds enabled s).0,
  (add_job name command interval_seconds enabled s).1,
)

unfoldable pub remove_job_endpoint : Text → Endpoint (Unit {0})
remove_job_endpoint name s = (status 404 (remove_job name s).0, (remove_job name s).1)

-- `POST /jobs/{name}/run` up to its await.
unfoldable pub begin_run : Text → State → Result ℕ ℕ
begin_run name s = status 404 (begin_execute name s)

pub record RunResponse : Type 0 where
  pub success : Bool
  pub outcome : Outcome

-- And after it; an exception of the execution is answered with 500.
unfoldable pub finish_run : Text → ℕ → Result Failure Outcome → Endpoint RunResponse
finish_run name identity (ok outcome) s = (
  ok (record { success = outcome.returncode == 0; outcome = outcome }),
  finish_execute name identity outcome s,
)
finish_run name identity (err key_error) s = (err 404, s)
finish_run name identity (err value_error) s = (err 500, s)
