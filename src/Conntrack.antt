-- ===== src/Conntrack.antt =====
-- dawos_agent/services/conntrack.py and dawos_agent/routers/conntrack_router.py: the kernel's connection
-- tracking, read and set by sysctl. What sysctl, tee, lsmod and conntrack do is a parameter.
pub mod Applied
mod Tests
use dawos_agent.Prelude.{
  ℕ, Text, codes, text_eq, nat_eq, Bool, true, false, ◌==◌, ◌||◌, ◌&&◌, not, any, leb, Option, none,
  some, List, [], ◌∷◌, ◌++◌, map, Result, ok, err, if◌then◌else◌,
}
use dawos_agent.Prelude.Dict.{Dict, get}
use dawos_agent.Prelude.Exec.{Exec, pure, ◌>>=◌, ◌>>◌, continue}
use dawos_agent.Prelude.Integers.{ℤ, pos, negsuc, int_of}
use dawos_agent.Prelude.Texts.{starts_with, is_space, strip_left}
use dawos_agent.Prelude.Texts.Lines.{lines_of}
use dawos_agent.Prelude.Texts.Numbers.{decimal, is_digit, leading_digits}
use dawos_agent.Constants.{is_letter}
use dawos_agent.Shell.{Shell, Reply, run}
use dawos_agent.IpPool.{digit_run}

-- `sysctl -n key`, `sysctl -w key=value`, `tee` of the file below sysctl.d, `lsmod`, `conntrack -F`.
pub data Command : Type 0 where
  read_key tee : Text → Command
  write_key : Text → ℕ → Command
  lsmod flush : Command

pub data ConntrackFailure : Type 0 where
  value_error runtime_error : ConntrackFailure

abbrev pub full_key : Text → Text
full_key key = codes "net.netfilter.nf_conntrack_" ++ key

-- `_TIMEOUT_KEYS`, without what they all begin with.
abbrev pub short_keys : List Text
short_keys = map codes (
    "tcp_timeout_established" ∷ "tcp_timeout_close" ∷ "tcp_timeout_close_wait"
    ∷ "tcp_timeout_fin_wait" ∷ "tcp_timeout_syn_sent" ∷ "tcp_timeout_syn_recv"
    ∷ "tcp_timeout_time_wait" ∷ "tcp_timeout_last_ack" ∷ "udp_timeout" ∷ "udp_timeout_stream"
    ∷ "icmp_timeout" ∷ "generic_timeout" ∷ [])

abbrev pub or_zero : Option ℤ → ℤ
or_zero none = pos 0
or_zero (some n) = n

-- `_safe_int`
unfoldable pub safe_int : Text → ℤ
safe_int v = or_zero (int_of v)

-- The share of the table that is used: the quotient that is rounded, where the table has a size.
pub record ConntrackConfig : Type 0 where
  pub table_size : ℤ
  pub current_count : ℤ
  pub hash_size : ℤ
  pub usage : Option (ℤ × ℤ)

abbrev usage_of : ℤ → ℤ → Option (ℤ × ℤ)
usage_of count (pos n) = if n == 0 then none else some (count, pos n)
usage_of count (negsuc n) = none

pub record Helper : Type 0 where
  pub name : Text
  pub size : ℤ
  pub used_by : ℤ

-- `(\w+)` and a space behind it.
unfoldable pub word_run : Text → Text × Text
word_run [] = ([], [])
word_run (c ∷ cs) =
    if is_letter c || is_digit c || c == b'_'
    then (c ∷ (word_run cs).0, (word_run cs).1)
    else ([], c ∷ cs)

abbrev spaced : Text → Option Text
spaced [] = none
spaced (c ∷ cs) = if is_space c then some (strip_left cs) else none

abbrev helper_used : Text → Text → Text × Text → Option Helper
helper_used name size ([], rest) = none
helper_used name size (c ∷ cs, rest) =
    some (record { name = name; size = safe_int size; used_by = safe_int (c ∷ cs) })

abbrev then_used : Text → Text → Option Text → Option Helper
then_used name size none = none
then_used name size (some rest) = helper_used name size (digit_run rest)

abbrev helper_sized : Text → Text × Text → Option Helper
helper_sized name ([], rest) = none
helper_sized name (c ∷ cs, rest) = then_used name (c ∷ cs) (spaced rest)

abbrev then_sized : Text → Option Text → Option Helper
then_sized name none = none
then_sized name (some rest) = helper_sized name (digit_run rest)

-- The pattern of a helper's line; its name is longer than what all begin with.
unfoldable pub helper_at : Text → Option Helper
helper_at line =
    if starts_with (codes "nf_conntrack_") line && not ((word_run line).0 == codes "nf_conntrack_")
    then then_sized (word_run line).0 (spaced (word_run line).1)
    else none

abbrev add_helper : Option Helper → List Helper → List Helper
add_helper none helpers = helpers
add_helper (some h) helpers = h ∷ helpers

unfoldable pub helpers_of : List Text → List Helper
helpers_of [] = []
helpers_of (line ∷ lines) = add_helper (helper_at line) (helpers_of lines)

abbrev pub preset : ℕ → ℕ → ℕ → List (Text × ℕ)
preset established udp stream =
    (codes "tcp_timeout_established", established)
    ∷ (codes "udp_timeout", udp)
    ∷ (codes "udp_timeout_stream", stream)
    ∷ []

-- `_PROFILES`
unfoldable pub profiles : Dict Text (List (Text × ℕ))
profiles =
    (codes "default", preset 432000 30 180)
    ∷ (codes "gaming", preset 86400 60 300)
    ∷ (codes "streaming", preset 600000 60 600)
    ∷ []

abbrev pub list_profiles : List Text
list_profiles = map (λ p. p.0) profiles

-- `except ValueError` is 400, `except Exception` is 500.
abbrev pub status_of : ConntrackFailure → ℕ
status_of value_error = 400
status_of runtime_error = 500

abbrev pub respond : {A : Type 0} → Result ConntrackFailure A → Result ℕ A
respond (ok a) = ok a
respond (err e) = err (status_of e)

module _ (sh : Shell Command) where
  open sh use {World}

  -- A command whose failure is a RuntimeError.
  unfoldable pub run_checked : Command → Exec World ConntrackFailure (Unit {0})
  run_checked cmd w =
      if (run sh cmd w).0.passed
      then (ok tt, (run sh cmd w).1)
      else (err runtime_error, (run sh cmd w).1)

  unfoldable pub read_int : Text → World → ℤ × World
  read_int key w = (safe_int (run sh (read_key key) w).0.output, (run sh (read_key key) w).1)

  unfoldable pub get_config : Exec World ConntrackFailure ConntrackConfig
  get_config w =
      let size = read_int (full_key (codes "max")) w in
      let count = read_int (full_key (codes "count")) size.1 in
      let hash = read_int (full_key (codes "buckets")) count.1 in
      (
        ok (record {
          table_size = size.0;
          current_count = count.0;
          hash_size = hash.0;
          usage = usage_of count.0 size.0;
        }),
        hash.1,
      )

  unfoldable pub set_table_size : ℕ → Exec World ConntrackFailure ConntrackConfig
  set_table_size size = do
    written ← run_checked (write_key (full_key (codes "max")) size)
    saved ← run_checked (tee (codes "net.netfilter.nf_conntrack_max = " ++ decimal size))
    get_config

  -- The loop over the keys.
  unfoldable pub read_timeouts : List Text → World → Dict Text ℤ × World
  read_timeouts [] w = ([], w)
  read_timeouts (key ∷ keys) w =
      let rest = read_timeouts keys (read_int (full_key key) w).1 in
      ((key, (read_int (full_key key) w).0) ∷ rest.0, rest.1)

  unfoldable pub get_timeouts : Exec World ConntrackFailure (Dict Text ℤ)
  get_timeouts w = (ok (read_timeouts short_keys w).0, (read_timeouts short_keys w).1)

  unfoldable pub set_timeout : Text → ℕ → Exec World ConntrackFailure (Dict Text ℤ)
  set_timeout key seconds w =
      if any (λ k. full_key key == full_key k) short_keys
      then (run_checked (write_key (full_key key) seconds) >> get_timeouts) w
      else (err value_error, w)

  unfoldable pub list_helpers : World → List Helper × World
  list_helpers w =
      if (run sh lsmod w).0.passed
      then (helpers_of (lines_of (run sh lsmod w).0.output), (run sh lsmod w).1)
      else ([], (run sh lsmod w).1)

  -- The loop over the items of a profile; the first failure ends it.
  unfoldable pub write_all : List (Text × ℕ) → Exec World ConntrackFailure (Unit {0})
  write_all [] w = (ok tt, w)
  write_all ((key, n) ∷ items) w =
      let rest = write_all items (run sh (write_key (full_key key) n) w).1 in
      if (run sh (write_key (full_key key) n) w).0.passed
      then rest
      else (err runtime_error, (run sh (write_key (full_key key) n) w).1)

  abbrev apply_items : Option (List (Text × ℕ)) → Exec World ConntrackFailure (Dict Text ℤ)
  apply_items none w = (err value_error, w)
  apply_items (some items) w = (write_all items >> get_timeouts) w

  unfoldable pub apply_profile : Text → Exec World ConntrackFailure (Dict Text ℤ)
  apply_profile name = apply_items (get name profiles)

  -- The count of the entries before the flush.
  unfoldable pub flush_table : Exec World ConntrackFailure ℤ
  flush_table w =
      let before = read_int (full_key (codes "count")) w in
      if (run sh flush before.1).0.passed
      then (ok before.0, (run sh flush before.1).1)
      else (err runtime_error, (run sh flush before.1).1)

  unfoldable pub put_table_size : ℕ → Exec World ℕ ConntrackConfig
  put_table_size size w = (respond (set_table_size size w).0, (set_table_size size w).1)

  unfoldable pub put_timeout : Text → ℕ → Exec World ℕ (Dict Text ℤ)
  put_timeout key seconds w = (respond (set_timeout key seconds w).0, (set_timeout key seconds w).1)

  unfoldable pub post_profile : Text → Exec World ℕ (Dict Text ℤ)
  post_profile name w = (respond (apply_profile name w).0, (apply_profile name w).1)

  unfoldable pub post_flush : Exec World ℕ ℤ
  post_flush w = (respond (flush_table w).0, (flush_table w).1)
