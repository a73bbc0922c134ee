-- ===== src/Shell.antt =====
-- The commands that the services run on the host: `_run` of dawos_agent/services/nat.py and
-- dawos_agent/services/conntrack.py. What a command does to the host is a parameter, as is what it
-- prints.
use dawos_agent.Prelude.{Text, Bool, ◌≡◌, if◌then◌else◌}
use dawos_agent.Prelude.Texts.{strip}

-- Standard output, and whether the return code is 0.
pub record Reply : Type 0 where
  pub output : Text
  pub passed : Bool

-- A host on which the commands of a service are run.
pub record Shell (C : Type 0) : Type 1 where
  pub World : Type 0
  pub exec : C → World → Reply × World

module _ {C : Type 0} (sh : Shell C) where
  open sh use {World, exec}

  -- `out, rc = await _run(cmd)`
  unfoldable pub run : C → World → Reply × World
  run cmd w = (
    record { output = strip (exec cmd w).0.output; passed = (exec cmd w).0.passed },
    (exec cmd w).1,
  )

  -- What a service relies on: a part of the host, which each command changes by its effect when it
  -- passes, and leaves as it is when it does not.
  pub record Effects {S : Type 0} (effect : C → S → S) : Type 0 where
    pub view : World → S
    pub runs :
        (cmd : C) (w : World)
        → view (run cmd w).1 ≡ (if (run cmd w).0.passed then effect cmd (view w) else view w)
