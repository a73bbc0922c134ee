-- ===== src/Retry.antt =====
-- dawos_agent/retry.py: retries with exponential backoff. The calls of the coroutine factory enter
-- as a function that gives the outcome of each attempt; delays are counted in units of which the base
-- delay is a whole number.
pub mod Transient
pub mod Backoff
mod Tests
use dawos_agent.Prelude.{
  ℕ, zero, suc, ◌+◌, ◌*◌, ◌^◌, Text, codes, List, [], ◌∷◌, map, Bool, true, false, not, Option,
  none, some, ltb, any, if◌then◌else◌,
}
use dawos_agent.Prelude.Texts.{occurs_in, to_lower}

abbrev pub transient_patterns : List Text
transient_patterns =
    codes "connection refused"
    ∷ codes "connection reset"
    ∷ codes "timed out"
    ∷ codes "timeout"
    ∷ codes "resource temporarily unavailable"
    ∷ codes "no route to host"
    ∷ codes "network is unreachable"
    ∷ codes "broken pipe"
    ∷ []

unfoldable pub is_transient : Text → Bool
unfolding occurs_in to_lower
is_transient error_text =
    any (λ pattern. occurs_in pattern (map to_lower error_text)) transient_patterns

-- An exception, of the two classes that are caught or of any other, with its message.
pub data Exception : Type 0 where
  runtime_or_os_error other_error : Text → Exception

pub data Attempt (A : Type 0) : Type 0 where
  returns : A → Attempt A
  raises : Exception → Attempt A

-- The end: a value, an exception, or `raise None`, which is a TypeError.
pub data Outcome (A : Type 0) : Type 0 where
  returned : A → Outcome A
  raised : Exception → Outcome A
  type_error : Outcome A

-- `max_retries`, which may be negative: `below_zero n` is -(n + 1).
pub data MaxRetries : Type 0 where
  retries : ℕ → MaxRetries
  below_zero : ℕ → MaxRetries

-- `len(range(1 + max_retries))`
abbrev pub rounds : MaxRetries → ℕ
rounds (retries n) = suc n
rounds (below_zero n) = 0

abbrev pub is_below : ℕ → MaxRetries → Bool
is_below attempt (retries n) = ltb attempt n
is_below attempt (below_zero n) = false

abbrev pub raise_last : {A : Type 0} → Option Exception → Outcome A
raise_last none = type_error
raise_last (some exc) = raised exc

module _ {A : Type 0} (call : ℕ → Attempt A) (max_retries : MaxRetries) (base_delay : ℕ) where
  -- The delay before the next attempt, if there is one.
  sleep : ℕ → List ℕ → List ℕ
  sleep attempt later =
      if is_below attempt max_retries then (base_delay * 2 ^ attempt) ∷ later else later

  -- The rounds that are left from `attempt` on: the end, and the delays slept.
  unfoldable pub attempts : ℕ → ℕ → Option Exception → Outcome A × List ℕ
  unfolding sleep
  attempts zero attempt last = (raise_last last, [])
  attempts (suc left) attempt last = elim (call attempt) [
    | returns a ↦ (returned a, [])
    | raises (other_error message) ↦ (raised (other_error message), [])
    | raises (runtime_or_os_error message) ↦
        let rest = attempts left (attempt + 1) (some (runtime_or_os_error message)) in
        if not (is_transient message)
        then (raised (runtime_or_os_error message), [])
        else (rest.0, sleep attempt rest.1)
  ]

  unfoldable pub with_retry : Outcome A × List ℕ
  unfolding attempts
  with_retry = attempts (rounds max_retries) 0 none
