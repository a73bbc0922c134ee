-- ===== src/Scheduler/Sound.antt =====
-- The invariant of the scheduler, and the changes of the state that keep it.
use dawos_agent.Prelude.{
  ℕ, ◌+◌, ◌≤◌, ◌<◌, Text, text_eq, nat_eq, ==_iff, Bool, true, false, Option, none, some, ◌≡◌, refl,
  arith, if◌then◌else◌,
}
use dawos_agent.Prelude.Dict.{get, has, get-put}
use dawos_agent.Prelude.Texts.{text_beq_iff}
use dawos_agent.Scheduler.{
  Job, Phase, created, sleeping, executing, ended, Loop, State, empty, enabled_job, set_loop,
  register, spawn,
}

abbrev pub is_live : Phase → Bool
is_live created = true
is_live (sleeping n) = true
is_live (executing identity) = true
is_live ended = false

-- The name of the job that a task loops for.
abbrev pub live_name : Option Loop → Option Text
live_name none = none
live_name (some loop) = if is_live loop.phase then some loop.job_name else none

-- The job object that a task waits for.
abbrev pub waited : Phase → Option ℕ
waited created = none
waited (sleeping n) = none
waited (executing identity) = some identity
waited ended = none

abbrev pub waits_for : Option Loop → Option ℕ
waits_for none = none
waits_for (some loop) = waited loop.phase

abbrev pub identity_of : Option Job → Option ℕ
identity_of none = none
identity_of (some job) = some job.identity

-- A task is live exactly if it is the running task of its job; a job has one exactly if it is enabled;
-- the object that a loop's execution will change is the one that is registered; names are fresh.
pub record IsSound (s : State) : Type 0 where
  pub live_runs :
      (t : ℕ) (name : Text)
      → live_name (get t s.tasks) ≡ some name
      → get name s.running_tasks ≡ some t
  pub runs_live :
      (t : ℕ) (name : Text)
      → get name s.running_tasks ≡ some t
      → live_name (get t s.tasks) ≡ some name
  pub started : (name : Text) → has name s.running_tasks ≡ enabled_job (get name s.jobs)
  pub waits :
      (t : ℕ) (name : Text) (identity : ℕ)
      → live_name (get t s.tasks) ≡ some name
      → waits_for (get t s.tasks) ≡ some identity
      → identity_of (get name s.jobs) ≡ some identity
  pub tasks_fresh : (t : ℕ) → s.fresh ≤ t → get t s.tasks ≡ none
  pub jobs_fresh :
      (name : Text) (identity : ℕ)
      → identity_of (get name s.jobs) ≡ some identity
      → identity < s.fresh

pub empty-IsSound : IsSound empty
unfolding get
empty-IsSound = record {
  live_runs = λ t name h. absurd (cc);
  runs_live = λ t name h. absurd (cc);
  started = λ name. refl;
  waits = λ t name identity h w. absurd (cc);
  tasks_fresh = λ t h. refl;
  jobs_fresh = λ name identity h. absurd (cc);
}

-- A live task goes on to another live phase.
pub set_loop-IsSound :
    (s : State) (t : ℕ) (name : Text) (phase : Phase)
    → IsSound s
    → live_name (get t s.tasks) ≡ some name
    → is_live phase ≡ true
    → ((identity : ℕ)
        → waited phase ≡ some identity
        → identity_of (get name s.jobs) ≡ some identity)
    → IsSound (set_loop t name phase s)
set_loop-IsSound s t name phase sound was live current = record {
  live_runs = λ u n h.
      ground (arith, sound.live_runs u n, h, was, get-put t u new s.tasks, ==_iff t u, live);
  runs_live = λ u n h.
      ground (arith, sound.runs_live u n h, was, get-put t u new s.tasks, ==_iff t u, live);
  started = λ n. sound.started n;
  waits = λ u n identity h w.
      ground
        (arith, h, w, sound.waits u n identity, current identity, get-put t u new s.tasks, live);
  tasks_fresh =
      λ u h. ground (arith, get-put t u new s.tasks, ==_iff t u, sound.tasks_fresh u h, was);
  jobs_fresh = λ n identity h. sound.jobs_fresh n identity h;
}
  where
    new : Loop
    new = record { job_name = name; phase = phase }

-- A new job, with its loop when it is enabled.
pub register-IsSound :
    (s : State) (job : Job)
    → IsSound s
    → get job.name s.jobs ≡ none
    → job.identity ≡ s.fresh
    → job.enabled ≡ false
    → IsSound (register job s)
register-IsSound s job sound absent new off = record {
  live_runs = λ t n h. sound.live_runs t n h;
  runs_live = λ t n h. sound.runs_live t n h;
  started = λ n.
      ground (
        arith,
        sound.started n,
        get-put job.name n job s.jobs,
        text_beq_iff job.name n,
        off,
        absent,
      );
  waits = λ t n i h w. ground (
    arith,
    sound.waits t n i h w,
    get-put job.name n job s.jobs,
    text_beq_iff job.name n,
    absent,
  );
  tasks_fresh = λ t h. sound.tasks_fresh t (omega (arith, h));
  jobs_fresh = λ n i h. ground (arith, h, sound.jobs_fresh n i, get-put job.name n job s.jobs, new);
}

pub idle_if_absent :
    (s : State) (name : Text) → IsSound s → get name s.jobs ≡ none → get name s.running_tasks ≡ none
idle_if_absent s name sound absent = ground (arith, sound.started name, absent)

pub spawn-IsSound :
    (s : State) (job : Job)
    → IsSound s
    → get job.name s.jobs ≡ none
    → job.identity ≡ s.fresh
    → job.enabled ≡ true
    → IsSound (spawn job.name (register job s))
spawn-IsSound s job sound absent new on =
    let idle : get job.name s.running_tasks ≡ none = idle_if_absent s job.name sound absent in
    let loop : Loop = record { job_name = job.name; phase = created } in
    record {
      live_runs = λ t n h. ground (
        arith,
        h,
        sound.live_runs t n,
        idle,
        get-put (s.fresh + 1) t loop s.tasks,
        get-put job.name n (s.fresh + 1) s.running_tasks,
        text_beq_iff job.name n,
        ==_iff (s.fresh + 1) t,
      );
      runs_live = λ t n h. ground (
        arith,
        h,
        sound.runs_live t n,
        sound.tasks_fresh t,
        get-put (s.fresh + 1) t loop s.tasks,
        get-put job.name n (s.fresh + 1) s.running_tasks,
        text_beq_iff job.name n,
        ==_iff (s.fresh + 1) t,
      );
      started = λ n. ground (
        arith,
        sound.started n,
        get-put job.name n job s.jobs,
        get-put job.name n (s.fresh + 1) s.running_tasks,
        text_beq_iff job.name n,
        on,
      );
      waits = λ t n i h w. ground (
        arith,
        h,
        w,
        sound.waits t n i,
        absent,
        get-put (s.fresh + 1) t loop s.tasks,
        get-put job.name n job s.jobs,
        text_beq_iff job.name n,
        ==_iff (s.fresh + 1) t,
      );
      tasks_fresh = λ t h. ground (
        arith,
        h,
        sound.tasks_fresh t,
        get-put (s.fresh + 1) t loop s.tasks,
        ==_iff (s.fresh + 1) t,
      );
      jobs_fresh =
          λ n i h. ground (arith, h, sound.jobs_fresh n i, get-put job.name n job s.jobs, new);
    }
