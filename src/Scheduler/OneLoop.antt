-- ===== src/Scheduler/OneLoop.antt =====
-- Which jobs have a loop, and what a removal and a new job of the same name leave of the old one.
use dawos_agent.Prelude.{
  ℕ, Text, text_eq, nat_eq, ==_iff, Bool, true, false, ◌==◌, Option, none, some, ok, err, ◌≡◌, ◌≢◌,
  ◌↔◌, refl, ap, ◌∙◌, arith, if◌then◌else◌,
}
use dawos_agent.Prelude.Dict.{get, delete, has, get-put_self, get-delete_self, get-delete}
use dawos_agent.Scheduler.{
  Job, State, key_error, Outcome, enabled_job, new_job, stop_loop, record_in, looked_up,
  begin_execute, finish_execute, is_active, add_job, remove_job,
}
use dawos_agent.Scheduler.Sound.{IsSound, live_name, identity_of}
use dawos_agent.Scheduler.Removal.{removed-without}
use dawos_agent.Scheduler.Steps.{
  Reachable, Reachable-IsSound, live_enabled, add_job-enabled, add_job-disabled, removes,
}

has_some :
    {V : Type 0} (o : Option V)
    → (elim o [ none ↦ false | some v ↦ true ]) ≡ true
    → (v : V) × (o ≡ some v)
has_some none h = absurd (cc)
has_some (some v) h = (v, refl)

abbrev has_job : Option Job → Bool
has_job o = elim o [ none ↦ false | some v ↦ true ]

-- In a state that is reached, a job has a task that loops for it exactly if it is registered and
-- enabled, and it has at most one.
pub one_loop :
    (s : State) (name : Text)
    → Reachable s
    → ((is_active name s ≡ true) ↔ ((t : ℕ) × (live_name (get t s.tasks) ≡ some name)))
      × ((t u : ℕ)
          → live_name (get t s.tasks) ≡ some name
          → live_name (get u s.tasks) ≡ some name
          → t ≡ u)
unfolding is_active
one_loop s name reached =
    let sound = Reachable-IsSound s reached in
    (
      (
        (λ active.
            let (t, runs) = has_some (get name s.running_tasks) (sound.started name ∙ active) in
            (t, sound.runs_live t name runs)),
        (λ (t, live). live_enabled s t name sound live),
      ),
      (λ t u live live'. ground (arith, sound.live_runs t name live, sound.live_runs u name live')),
    )

remove_job-there :
    (s : State) (name : Text)
    → has name s.jobs ≡ true
    → remove_job name s
      ≡ (ok tt, record (stop_loop name s) { jobs = delete name (stop_loop name s).jobs })
unfolding remove_job
remove_job-there s name there = rw there refl

pub remove_job-absent :
    (s : State) (name : Text) → has name s.jobs ≡ false → remove_job name s ≡ (err key_error, s)
unfolding remove_job
remove_job-absent s name absent = rw absent refl

removed_jobs :
    (s : State) (name : Text)
    → has name s.jobs ≡ true
    → ((remove_job name s).1.jobs ≡ delete name s.jobs) × ((remove_job name s).1.fresh ≡ s.fresh)
removed_jobs s name there = (
  ap (λ r. r.1.jobs) (remove_job-there s name there) ∙ ap (λ x. x.jobs) (removed-without s name),
  ap (λ r. r.1.fresh) (remove_job-there s name there) ∙ ap (λ x. x.fresh) (removed-without s name),
)

-- Removing a job that is registered succeeds: the job is gone, the others are as they were, and no
-- task loops for it any more.
pub remove_job_ends :
    (s : State) (name : Text)
    → Reachable s
    → has name s.jobs ≡ true
    → ((remove_job name s).0 ≡ ok tt)
      × ((other : Text)
          → get other (remove_job name s).1.jobs
            ≡ (if name == other then none else get other s.jobs))
      × ((t : ℕ) → live_name (get t (remove_job name s).1.tasks) ≢ some name)
remove_job_ends s name reached there =
    let after = Reachable-IsSound (remove_job name s).1 (removes name reached) in
    let gone : get name (remove_job name s).1.jobs ≡ none =
      ap (get name) (removed_jobs s name there).0 ∙ get-delete_self name s.jobs in
    (
      ap (λ r. r.0) (remove_job-there s name there),
      (λ other. ap (get other) (removed_jobs s name there).0 ∙ get-delete name other s.jobs),
      (λ t live.
          absurd (cc (live_enabled (remove_job name s).1 t name after live, ap enabled_job gone))),
    )

-- A result of an object that is not the one registered is not seen.
finish_execute-stale :
    (s : State) (name : Text) (identity : ℕ) (outcome : Outcome) (job : Job)
    → get name s.jobs ≡ some job
    → (job.identity == identity) ≡ false
    → finish_execute name identity outcome s ≡ s
unfolding finish_execute
finish_execute-stale s name identity outcome job there other =
    ap (λ jobs. record s { jobs = jobs })
      (ap (λ o. record_in identity outcome o name s.jobs) there ∙ rw other refl)

begun :
    (o : Option Job) (i : ℕ) → looked_up o ≡ ok i → (identity_of o ≡ some i) × (has_job o ≡ true)
begun none i h = absurd (cc)
begun (some job) i h = (ground (arith, h), refl)

new_job_there :
    (s : State) (name command : Text) (n : ℕ) (enabled : Bool)
    → IsSound s
    → has name s.jobs ≡ false
    → get name (add_job name command n enabled s).1.jobs
      ≡ some (new_job name command n enabled s.fresh)
new_job_there s name command n true sound free =
    ap (λ r. get name r.1.jobs) (add_job-enabled s name command n sound free)
    ∙ get-put_self name (new_job name command n true s.fresh) s.jobs
new_job_there s name command n false sound free =
    ap (λ r. get name r.1.jobs) (add_job-disabled s name command n free)
    ∙ get-put_self name (new_job name command n false s.fresh) s.jobs

-- A run that was begun before its job was removed and a job of that name was added again changes
-- nothing of the new one when it ends.
pub stale_run :
    (s : State) (name command : Text) (n : ℕ) (enabled : Bool) (identity : ℕ) (outcome : Outcome)
    → Reachable s
    → begin_execute name s ≡ ok identity
    → finish_execute name identity outcome (add_job name command n enabled (remove_job name s).1).1
      ≡ (add_job name command n enabled (remove_job name s).1).1
unfolding begin_execute
stale_run s name command n enabled identity outcome reached began =
    let before = Reachable-IsSound s reached in
    let between = Reachable-IsSound (remove_job name s).1 (removes name reached) in
    let (known, there) = begun (get name s.jobs) identity began in
    let older = before.jobs_fresh name identity known in
    let gone = removed_jobs s name there in
    let free : has name (remove_job name s).1.jobs ≡ false =
      ap has_job (ap (get name) gone.0 ∙ get-delete_self name s.jobs) in
    finish_execute-stale (add_job name command n enabled (remove_job name s).1).1 name identity
      outcome (new_job name command n enabled (remove_job name s).1.fresh)
      (new_job_there (remove_job name s).1 name command n enabled between free)
      (ground (arith, gone.1, older, ==_iff (remove_job name s).1.fresh identity))
