-- ===== src/Retry/Tests.antt =====
-- Runs of the retry loop, and its theorems at concrete inputs.
use dawos_agent.Prelude.{ℕ, zero, suc, ◌≤◌, ◌<◌, codes, [], ◌∷◌, ◌≡◌, refl, arith}
use dawos_agent.Retry.{
  Attempt, returns, raises, runtime_or_os_error, returned, raised, retries, is_transient,
  with_retry,
}
use dawos_agent.Retry.Backoff.{
  FailsTransiently, with_value, delays, with_retry_ends, with_retry_exhausted,
}

-- Two refused connections, and then a value.
abbrev third_time : ℕ → Attempt ℕ
third_time zero = raises (runtime_or_os_error (codes "Connection Refused"))
third_time (suc zero) = raises (runtime_or_os_error (codes "Connection Refused"))
third_time (suc (suc n)) = returns 7

refused-FailsTransiently :
    FailsTransiently {A = ℕ} (raises (runtime_or_os_error (codes "Connection Refused")))
unfolding is_transient
refused-FailsTransiently = record {
  message = codes "Connection Refused";
  failed = refl;
  transient = refl;
}

fails_twice : (i : ℕ) → i < 2 → FailsTransiently (third_time i)
fails_twice zero h = refused-FailsTransiently
fails_twice (suc zero) h = refused-FailsTransiently
fails_twice (suc (suc i)) h = absurd (omega arith)

fails_to_one : (i : ℕ) → i ≤ 1 → FailsTransiently (third_time i)
fails_to_one i h = fails_twice i (omega arith)

waits_one_and_two : with_retry third_time (retries 3) 1 ≡ (returned 7, 1 ∷ 2 ∷ [])
unfolding with_retry is_transient
waits_one_and_two = refl

with_retry_ends_example :
    with_retry third_time (retries 3) 5 ≡ (returned 7, delays third_time 3 5 0 2)
with_retry_ends_example =
    with_retry_ends third_time 3 5 2 (returned 7) fails_twice (with_value 7) (omega arith)

with_retry_exhausted_example :
    with_retry third_time (retries 1) 5
    ≡ (raised (runtime_or_os_error (codes "Connection Refused")), delays third_time 1 5 0 1)
unfolding refused-FailsTransiently
with_retry_exhausted_example =
    with_retry_exhausted third_time 1 5 refused-FailsTransiently fails_to_one
