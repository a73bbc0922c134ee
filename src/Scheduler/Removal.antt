-- ===== src/Scheduler/Removal.antt =====
-- Removing a job ends its loop, and keeps the invariant.
use dawos_agent.Prelude.{
  ℕ, Text, text_eq, nat_eq, ==_iff, Option, none, some, ◌≡◌, refl, arith, Option-cases, inl, inr,
}
use dawos_agent.Prelude.Dict.{Dict, get, put, delete, get-put, get-delete}
use dawos_agent.Prelude.Texts.{text_beq_iff}
use dawos_agent.Scheduler.{ended, Loop, State, cancel, stop_loop}
use dawos_agent.Scheduler.Sound.{IsSound, live_name}

-- What is left without the job, for the tasks that are left.
abbrev pub without : Text → Dict ℕ Loop → State → State
without name tasks s = record s {
  jobs = delete name s.jobs;
  running_tasks = delete name s.running_tasks;
  tasks = tasks;
}

abbrev pub stopped : Loop → Loop
stopped loop = record loop { phase = ended }

-- A job that has no loop.
without-IsSound :
    (s : State) (name : Text)
    → IsSound s
    → get name s.running_tasks ≡ none
    → IsSound (without name s.tasks s)
without-IsSound s name sound idle = record {
  live_runs = λ t n h.
      ground (
        arith,
        sound.live_runs t n h,
        idle,
        get-delete name n s.running_tasks,
        text_beq_iff name n,
      );
  runs_live = λ t n h. ground (arith, h, sound.runs_live t n, get-delete name n s.running_tasks);
  started = λ n.
      ground (arith, sound.started n, get-delete name n s.running_tasks, get-delete name n s.jobs);
  waits = λ t n i h w. ground (
    arith,
    sound.waits t n i h w,
    sound.live_runs t n h,
    idle,
    get-delete name n s.jobs,
    text_beq_iff name n,
  );
  tasks_fresh = λ t h. sound.tasks_fresh t h;
  jobs_fresh = λ n i h. ground (arith, h, sound.jobs_fresh n i, get-delete name n s.jobs);
}

-- A job whose loop is a task that is ended with it.
without_loop-IsSound :
    (s : State) (name : Text) (t : ℕ) (loop : Loop)
    → IsSound s
    → get name s.running_tasks ≡ some t
    → get t s.tasks ≡ some loop
    → IsSound (without name (put t (stopped loop) s.tasks) s)
without_loop-IsSound s name t loop sound running there = record {
  live_runs = λ u n h. ground (
    arith,
    h,
    sound.live_runs u n,
    running,
    get-put t u (stopped loop) s.tasks,
    ==_iff t u,
    get-delete name n s.running_tasks,
    text_beq_iff name n,
  );
  runs_live = λ u n h. ground (
    arith,
    h,
    sound.runs_live u n,
    sound.runs_live t name running,
    get-put t u (stopped loop) s.tasks,
    ==_iff t u,
    get-delete name n s.running_tasks,
    text_beq_iff name n,
  );
  started = λ n.
      ground (arith, sound.started n, get-delete name n s.running_tasks, get-delete name n s.jobs);
  waits = λ u n i h w. ground (
    arith,
    h,
    w,
    sound.waits u n i,
    sound.live_runs u n,
    running,
    get-put t u (stopped loop) s.tasks,
    ==_iff t u,
    get-delete name n s.jobs,
    text_beq_iff name n,
  );
  tasks_fresh = λ u h.
      ground (arith, sound.tasks_fresh u h, there, get-put t u (stopped loop) s.tasks, ==_iff t u);
  jobs_fresh = λ n i h. ground (arith, h, sound.jobs_fresh n i, get-delete name n s.jobs);
}

live_is_there :
    (o : Option Loop) (name : Text) → live_name o ≡ some name → (loop : Loop) × (o ≡ some loop)
live_is_there none name h = absurd (cc)
live_is_there (some loop) name h = (loop, refl)

pub removed-without :
    (s : State) (name : Text)
    → record (stop_loop name s) { jobs = delete name (stop_loop name s).jobs }
      ≡ without name (stop_loop name s).tasks s
unfolding stop_loop cancel
removed-without s name = elim (Option-cases (get name s.running_tasks)) [
  | inl idle ↦ rw idle refl
  | inr (t, running) ↦ rw running refl
]

stop_loop-idle :
    (s : State) (name : Text) → get name s.running_tasks ≡ none → (stop_loop name s).tasks ≡ s.tasks
unfolding stop_loop
stop_loop-idle s name idle = rw idle refl

stop_loop-running :
    (s : State) (name : Text) (t : ℕ) (loop : Loop)
    → get name s.running_tasks ≡ some t
    → get t s.tasks ≡ some loop
    → (stop_loop name s).tasks ≡ put t (stopped loop) s.tasks
unfolding stop_loop cancel
stop_loop-running s name t loop running there = rw (running, there) refl

pub remove-IsSound :
    (s : State) (name : Text)
    → IsSound s
    → IsSound (record (stop_loop name s) { jobs = delete name (stop_loop name s).jobs })
remove-IsSound s name sound =
    rw (removed-without s name) (elim (Option-cases (get name s.running_tasks)) [
      | inl idle ↦ rw (stop_loop-idle s name idle) (without-IsSound s name sound idle)
      | inr (t, running) ↦
          let (loop, there) = live_is_there (get t s.tasks) name (sound.runs_live t name running) in
          rw (stop_loop-running s name t loop running there)
            (without_loop-IsSound s name t loop sound running there)
    ])
