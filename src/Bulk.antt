-- ===== src/Bulk.antt =====
-- dawos_agent/services/bulk.py and dawos_agent/routers/bulk_router.py, with the operations that they
-- run once per subscriber: `terminate_session` and `ifname_of` of dawos_agent/services/accel.py and
-- `change_ratelimit` and `restore_ratelimit` of dawos_agent/services/traffic.py. The daemon behind
-- `run_cmd`, retries included, is a parameter; `shlex.quote` keeps each argument of a command one word.
pub mod Results
pub mod Shaper
mod Tests
use dawos_agent.Prelude.{
  ℕ, ◌-◌, String, Text, codes, text_eq, nat_eq, Bool, true, false, ◌==◌, ◌||◌, ◌&&◌, not, all,
  length, count_if, Option, none, some, List, [], ◌∷◌, ◌++◌, map, reverse, Result, ok, err,
  if◌then◌else◌,
}
use dawos_agent.Prelude.Exec.{Exec, pure, raise, ◌>>=◌, continue}
use dawos_agent.Prelude.Texts.{strip, has_char}
use dawos_agent.Prelude.Texts.Lines.{lines_of}

pub data Command : Type 0 where
  terminate_username match_username_ifname shaper_restore : Text → Command
  shaper_change : Text → Text → Command

-- The daemon, and how it answers a command: an exception is its text.
pub record Daemon : Type 1 where
  pub World : Type 0
  pub run_cmd : Command → Exec World Text Text

unfoldable pub is_rule : Text → Bool
is_rule line = all (λ c. (c == b'-') || (c == b'+') || (c == b' ')) line

first_name : List Text → Option Text
unfolding strip is_rule
first_name [] = none
first_name (line ∷ lines) =
    if not (strip line == []) && not (strip line == codes "ifname") && not (is_rule (strip line))
    then some (strip line)
    else first_name lines

-- The loop of `ifname_of` over the output.
unfoldable pub ifname_in : Text → Option Text
unfolding first_name
ifname_in output = first_name (lines_of output)

-- `rate.split("/", 1)`: what is before the first slash, and what is after it.
unfoldable pub before_slash : Text → Text
before_slash [] = []
before_slash (c ∷ cs) = if c == b'/' then [] else c ∷ before_slash cs

unfoldable pub after_slash : Text → Text
after_slash [] = []
after_slash (c ∷ cs) = if c == b'/' then cs else after_slash cs

unfoldable pub shaper_value : Text → Text
unfolding before_slash after_slash
shaper_value rate =
    if has_char b'/' rate then after_slash rate ++ (b'/' ∷ before_slash rate) else rate

no_session : Text → Text
no_session username = codes "No live session for " ++ username

-- `output.strip() or "Session terminated"`
abbrev pub terminated : Text → Text
terminated output = if strip output == [] then codes "Session terminated" else strip output

pub record BulkResultItem : Type 0 where
  pub target : Text
  pub success : Bool
  pub message : Text

pub record RateLimitItem : Type 0 where
  pub username : Text
  pub rate : Text

pub record BulkOperationResponse : Type 0 where
  pub operation : String
  pub total : ℕ
  pub succeeded : ℕ
  pub failed : ℕ
  pub results : List BulkResultItem

item_of : Text → Result Text Text → BulkResultItem
item_of target (ok message) = record { target = target; success = true; message = message }
item_of target (err e) = record { target = target; success = false; message = e }

-- The loop of the three operations: each target in its turn, whatever became of those before.
module _ {W : Type 0} {A : Type 0} where
  unfoldable pub each : (A → Text) → (A → Exec W Text Text) → List A → W → List BulkResultItem × W
  unfolding item_of
  each name run [] w = ([], w)
  each name run (x ∷ xs) w =
      let rest = each name run xs (run x w).1 in (item_of (name x) (run x w).0 ∷ rest.0, rest.1)

-- What the endpoints make of the results.
unfoldable pub respond : String → List BulkResultItem → BulkOperationResponse
respond operation items = record {
  operation = operation;
  total = length items;
  succeeded = count_if (λ i. i.success) items;
  failed = length items - count_if (λ i. i.success) items;
  results = items;
}

module _ (d : Daemon) where
  open d use {World, run_cmd}

  -- An empty name is refused before the daemon is asked.
  unfoldable pub terminate_session : Text → Exec World Text Text
  terminate_session [] = raise (codes "Either username or ifname must be provided")
  terminate_session (c ∷ cs) = run_cmd (terminate_username (c ∷ cs))

  unfoldable pub ifname_of : Text → Exec World Text (Option Text)
  unfolding ifname_in
  ifname_of username = do output ← run_cmd (match_username_ifname username); pure (ifname_in output)

  change_on : Text → Text → Option Text → Exec World Text Text
  unfolding no_session shaper_value
  change_on username rate none = raise (no_session username)
  change_on username rate (some ifname) = do
    output ← run_cmd (shaper_change ifname (shaper_value rate))
    pure (
        codes "Shaper changed to "
        ++ (rate ++ (codes " for " ++ (username ++ (codes " (" ++ (ifname ++ codes ")"))))))

  unfoldable pub change_ratelimit : Text → Text → Exec World Text Text
  unfolding change_on ifname_of
  change_ratelimit username rate = do ifname ← ifname_of username; change_on username rate ifname

  restore_on : Text → Option Text → Exec World Text Text
  unfolding no_session
  restore_on username none = raise (no_session username)
  restore_on username (some ifname) = do
    output ← run_cmd (shaper_restore ifname)
    pure (codes "Shaper restored for " ++ (username ++ (codes " (" ++ (ifname ++ codes ")"))))

  unfoldable pub restore_ratelimit : Text → Exec World Text Text
  unfolding restore_on ifname_of
  restore_ratelimit username = do ifname ← ifname_of username; restore_on username ifname

  pub terminate_one : Text → Exec World Text Text
  unfolding terminate_session
  terminate_one username = do output ← terminate_session username; pure (terminated output)

  unfoldable pub bulk_terminate : List Text → World → List BulkResultItem × World
  unfolding terminate_one each
  bulk_terminate usernames = each (λ u. u) terminate_one usernames

  unfoldable pub bulk_ratelimit : List RateLimitItem → World → List BulkResultItem × World
  unfolding change_ratelimit each
  bulk_ratelimit items = each (λ i. i.username) (λ i. change_ratelimit i.username i.rate) items

  unfoldable pub bulk_shaper_restore : List Text → World → List BulkResultItem × World
  unfolding restore_ratelimit each
  bulk_shaper_restore usernames = each (λ u. u) restore_ratelimit usernames

  unfoldable pub post_terminate : List Text → World → BulkOperationResponse × World
  unfolding respond bulk_terminate
  post_terminate usernames w =
      (respond "terminate" (bulk_terminate usernames w).0, (bulk_terminate usernames w).1)

  unfoldable pub post_ratelimit : List RateLimitItem → World → BulkOperationResponse × World
  unfolding respond bulk_ratelimit
  post_ratelimit items w =
      (respond "ratelimit" (bulk_ratelimit items w).0, (bulk_ratelimit items w).1)

  unfoldable pub post_shaper_restore : List Text → World → BulkOperationResponse × World
  unfolding respond bulk_shaper_restore
  post_shaper_restore usernames w = (
    respond "shaper-restore" (bulk_shaper_restore usernames w).0,
    (bulk_shaper_restore usernames w).1,
  )
