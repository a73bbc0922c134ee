-- ===== src/Checkpoint/Steps.antt =====
-- The guarded apply among the other requests and the timer. An apply holds the lock from its
-- checkpoint to its timer, and waits in between for the daemon; anything else may run then, but no
-- second apply.
use dawos_agent.Prelude.{
  ℕ, ◌*◌, Text, text_eq, [], ◌≡◌, refl, arith, Bool, true, false, ok, err, some, Option,
}
use dawos_agent.Prelude.Dict.{get, put, get-put, get-put_self}
use dawos_agent.Prelude.Texts.{strip, text_beq_iff}
use dawos_agent.ConfigManager.{
  State, Failure, sleeping, write_config, create_checkpoint, checkpoint_name, backup_name,
  timer_expires, reload_config,
}
use dawos_agent.ConfigManager.Backups.{IsConfig}
use dawos_agent.ConfigManager.Timer.{timer_expires_restores}
use dawos_agent.Checkpoint.{
  GuardedApplyRequest, Surroundings, begin_apply, finish_apply, confirm_apply, rollback,
}

-- Whether an apply waits for the daemon, and the request and the checkpoint that it goes on with.
pub data Phase : Type 0 where
  idle : Phase
  waiting : GuardedApplyRequest → Option Text → Phase

pub data World : Type 0 where
  at : Phase → State → World

pub data Step : World → World → Type 0 where
  begins :
      {s : State} (env : Surroundings) (req : GuardedApplyRequest) (cp : Option Text)
      → (begin_apply env req s).0 ≡ ok cp
      → Step (at idle s) (at (waiting req cp) (begin_apply env req s).1)
  fails :
      {s : State} (env : Surroundings) (req : GuardedApplyRequest) (e : Failure)
      → (begin_apply env req s).0 ≡ err e
      → Step (at idle s) (at idle (begin_apply env req s).1)
  loaded :
      {s : State} {req : GuardedApplyRequest} {cp : Option Text}
      → Step (at (waiting req cp) s) (at idle (finish_apply req cp (reload_config true s).1).1)
  unanswered :
      {s : State} {req : GuardedApplyRequest} {cp : Option Text}
      → Step (at (waiting req cp) s) (at idle (reload_config false s).1)
  confirms : {p : Phase} {s : State} → Step (at p s) (at p (confirm_apply s).1)
  expires :
      {p : Phase} {s : State} (answers : Bool) → Step (at p s) (at p (timer_expires answers s))
  writes :
      {p : Phase} {s : State} (content : Text) (backup : Bool) (ts : Text)
      → Step (at p s) (at p (write_config content backup ts s).1)
  rolls_back :
      {p : Phase} {s : State} (name ts : Text) → Step (at p s) (at p (rollback name ts s).1)
  checkpoints :
      {p : Phase} {s : State} (ts : Text) → Step (at p s) (at p (create_checkpoint ts s).1)

pub data Reach (start : World) : World → Type 0 where
  here : Reach start start
  next : {v w : World} → Reach start v → Step v w → Reach start w

abbrev pub state_of : World → State
state_of (at p s) = s

-- The state in which an apply over a configuration `old` waits for the daemon.
abbrev waiting_over : Surroundings → GuardedApplyRequest → State → Text → State
waiting_over env req s old = record s {
  config = some req.content;
  backups =
      put (backup_name env.backup_ts) old (put (checkpoint_name env.checkpoint_ts) old s.backups);
  checkpoint_path = some (checkpoint_name env.checkpoint_ts);
}

begun_over :
    (env : Surroundings) (req : GuardedApplyRequest) (s : State) (old : Text)
    → s.config ≡ some old
    → IsConfig req.content
    → begin_apply env req s
      ≡ (ok (some (checkpoint_name env.checkpoint_ts)), waiting_over env req s old)
unfolding begin_apply create_checkpoint write_config
begun_over env req s old had valid = ground (arith, text_beq_iff (strip req.content) [])

checkpoint_kept :
    (env : Surroundings) (req : GuardedApplyRequest) (s : State) (old : Text)
    → get (checkpoint_name env.checkpoint_ts) (waiting_over env req s old).backups ≡ some old
checkpoint_kept env req s old =
    let cp = checkpoint_name env.checkpoint_ts in
    let bak = backup_name env.backup_ts in
    ground (arith, get-put bak cp old (put cp old s.backups), get-put_self cp old s.backups)

-- While an apply waits for the daemon, the timer of an earlier apply may run out. Then the text that
-- the new one replaced comes back, and the new apply still reports success when the daemon has
-- answered: its text is not the one on disk.
pub apply_overtaken :
    (env : Surroundings) (req : GuardedApplyRequest) (s : State) (old : Text) (seconds : ℕ)
    (answers : Bool)
    → s.config ≡ some old
    → s.rollback_task ≡ some (sleeping seconds)
    → IsConfig req.content
    → ((begin_apply env req s).0 ≡ ok (some (checkpoint_name env.checkpoint_ts)))
      × ((begin_apply env req s).1.config ≡ some req.content)
      × ((timer_expires answers (begin_apply env req s).1).config ≡ some old)
      × ((finish_apply req
            (some (checkpoint_name env.checkpoint_ts))
            (timer_expires answers (begin_apply env req s).1)).0
          ≡ ok (record {
            checkpoint = checkpoint_name env.checkpoint_ts;
            confirm_deadline_seconds = req.confirm_minutes * 60;
          }))
      × ((finish_apply req
            (some (checkpoint_name env.checkpoint_ts))
            (timer_expires answers (begin_apply env req s).1)).1.config
          ≡ some old)
unfolding finish_apply
apply_overtaken env req s old seconds answers had running valid =
    let w = waiting_over env req s old in
    let cp = checkpoint_name env.checkpoint_ts in
    let back =
      timer_expires_restores w answers seconds cp old running refl
        (checkpoint_kept env req s old) in
    rw (begun_over env req s old had valid) (refl, refl, back.0, refl, back.0)
