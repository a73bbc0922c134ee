-- ===== src/Retry/Backoff.antt =====
-- The attempts that are made, and the delays between them.
use dawos_agent.Prelude.{
  ℕ, zero, suc, ◌+◌, ◌*◌, ◌^◌, ◌≤◌, ◌<◌, Text, List, [], ◌∷◌, ◌≡◌, refl, ap, arith, true, false,
  Option, none, some, length, ltb, if◌then◌else◌,
}
use native.Mathlib.Nat.{pow-suc}
use native.Mathlib.Numerals.{add-one}
use dawos_agent.Retry.{
  Exception, runtime_or_os_error, other_error, Attempt, returns, raises, Outcome, returned, raised,
  type_error, retries, below_zero, is_transient, attempts, with_retry, raise_last,
}

-- The attempt fails with an exception that is caught, and its message is transient.
pub record FailsTransiently {A : Type 0} (attempt : Attempt A) : Type 0 where
  pub message : Text
  pub failed : attempt ≡ raises (runtime_or_os_error message)
  pub transient : is_transient message ≡ true

-- The attempt ends the loop: with its value, with an exception that is not caught, or with one that
-- is caught and not transient.
pub data Settles {A : Type 0} : Attempt A → Outcome A → Type 0 where
  with_value : (a : A) → Settles (returns a) (returned a)
  uncaught :
      (message : Text) → Settles (raises (other_error message)) (raised (other_error message))
  permanent :
      (message : Text)
      → is_transient message ≡ false
      → Settles (raises (runtime_or_os_error message)) (raised (runtime_or_os_error message))

module _ {A : Type 0} (call : ℕ → Attempt A) (n base : ℕ) where
  -- The delays after `count` attempts from `attempt` on: each is twice the one before.
  abbrev pub delays : ℕ → ℕ → List ℕ
  delays attempt zero = []
  delays attempt (suc count) = (base * 2 ^ attempt) ∷ delays (attempt + 1) count

  ends_now :
      (attempt left : ℕ) (last : Option Exception) (x : Attempt A) (o : Outcome A)
      → call attempt ≡ x
      → Settles x o
      → attempts call (retries n) base (suc left) attempt last ≡ (o, [])
  unfolding attempts
  ends_now attempt left last x o e (with_value a) = rw (e, attempts)
  ends_now attempt left last x o e (uncaught message) = rw (e, attempts)
  ends_now attempt left last x o e (permanent message h) = ground (arith, e, h)

  goes_on :
      (attempt left : ℕ) (last : Option Exception) (f : FailsTransiently (call attempt))
      → attempts call (retries n) base (suc left) attempt last ≡ (
        (attempts call
            (retries n)
            base
            left
            (attempt + 1)
            (some (runtime_or_os_error f.message))).0,
        (if ltb attempt n
            then (base * 2 ^ attempt)
              ∷ (attempts call
                  (retries n)
                  base
                  left
                  (attempt + 1)
                  (some (runtime_or_os_error f.message))).1
            else (attempts call
                (retries n)
                base
                left
                (attempt + 1)
                (some (runtime_or_os_error f.message))).1),
      )
  unfolding attempts
  goes_on attempt left last f = ground (arith, f.failed, f.transient)

  ends_after :
      (k attempt left stop : ℕ) (last : Option Exception) (o : Outcome A)
      → ((i : ℕ) → attempt ≤ i → i < stop → FailsTransiently (call i))
      → Settles (call stop) o
      → stop ≡ attempt + k
      → k < left
      → attempt + left ≡ suc n
      → attempts call (retries n) base left attempt last ≡ (o, delays attempt k)
  ends_after zero attempt zero stop last o h e at room total = absurd (omega arith)
  ends_after zero attempt (suc left) stop last o h e at room total =
      ends_now attempt left last (call stop) o (ap call (omega arith)) e
  ends_after (suc k) attempt zero stop last o h e at room total = absurd (omega arith)
  ends_after (suc k) attempt (suc left) stop last o h e at room total =
      let f = h attempt (omega arith) (omega arith) in
      let later =
        ends_after k (attempt + 1) left stop (some (runtime_or_os_error f.message)) o
          (λ i low high. h i (omega arith) high) e (omega arith) (omega arith) (omega arith) in
      ground (arith, goes_on attempt left last f, later)

  out_of_rounds :
      (attempt : ℕ) (last : Option Exception)
      → attempts call (retries n) base 0 attempt last ≡ (raise_last last, [])
  unfolding attempts
  out_of_rounds attempt last = refl

  exhausted :
      (left attempt : ℕ) (last : Option Exception) (f : FailsTransiently (call n))
      → ((i : ℕ) → attempt ≤ i → i ≤ n → FailsTransiently (call i))
      → attempt + left ≡ n
      → attempts call (retries n) base (suc left) attempt last
        ≡ (raised (runtime_or_os_error f.message), delays attempt left)
  exhausted zero attempt last f h total =
      let g = h attempt (omega arith) (omega arith) in
      let same : call attempt ≡ call n = ap call (omega arith) in
      ground (
        arith,
        goes_on attempt 0 last g,
        out_of_rounds (attempt + 1) (some (runtime_or_os_error g.message)),
        same,
        g.failed,
        f.failed,
      )
  exhausted (suc left) attempt last f h total =
      let g = h attempt (omega arith) (omega arith) in
      let later =
        exhausted left (attempt + 1) (some (runtime_or_os_error g.message)) f
          (λ i low high. h i (omega arith) high) (omega arith) in
      ground (arith, goes_on attempt (suc left) last g, later)

-- If attempt `k` is one of those allowed and ends the loop, and all before it failed transiently,
-- its end is the end of the whole, and the delays are the base delay doubled after each of the `k`
-- failures.
pub with_retry_ends :
    {A : Type 0} (call : ℕ → Attempt A) (n base k : ℕ) (o : Outcome A)
    → ((i : ℕ) → i < k → FailsTransiently (call i))
    → Settles (call k) o
    → k ≤ n
    → with_retry call (retries n) base ≡ (o, delays call n base 0 k)
with_retry_ends call n base k o h e room =
    unfold with_retry in
    ends_after call n base k 0 (suc n) k none o (λ i low high. h i high) e (omega arith)
      (omega arith) (omega arith)

-- If every attempt that is allowed fails transiently, the exception of the last one is raised, and
-- nothing is waited for after it.
pub with_retry_exhausted :
    {A : Type 0} (call : ℕ → Attempt A) (n base : ℕ) (f : FailsTransiently (call n))
    → ((i : ℕ) → i ≤ n → FailsTransiently (call i))
    → with_retry call (retries n) base
      ≡ (raised (runtime_or_os_error f.message), delays call n base 0 n)
with_retry_exhausted call n base f h =
    unfold with_retry in exhausted call n base n 0 none f (λ i low high. h i high) (omega arith)

abbrev pub sum : List ℕ → ℕ
sum [] = 0
sum (x ∷ xs) = x + sum xs

-- The delays of `k` failures are `k` in number, and with the first of them they add up to what the
-- next one would be: from attempt 0 on, to `base * 2 ^ k - base` in all.
pub sum-delays :
    {A : Type 0} (call : ℕ → Attempt A) (n base attempt k : ℕ)
    → (sum (delays call n base attempt k) + base * 2 ^ attempt ≡ base * 2 ^ (attempt + k))
      × (length (delays call n base attempt k) ≡ k)
sum-delays call n base attempt zero =
    let index : attempt ≡ attempt + 0 = omega arith in
    (omega (arith, ap (λ (t : ℕ). base * 2 ^ t) index), refl)
sum-delays call n base attempt (suc k) =
    let ih = sum-delays call n base (attempt + 1) k in
    let twice : 2 ^ (attempt + 1) ≡ 2 ^ attempt * 2 = rw add-one (pow-suc 2 attempt) in
    let index : attempt + 1 + k ≡ attempt + suc k = omega arith in
    (
      omega (arith, ih.0, ap (λ (t : ℕ). base * t) twice, ap (λ (t : ℕ). base * 2 ^ t) index),
      ap suc ih.1,
    )

-- A negative number of retries makes no attempt at all: what is raised then is a TypeError.
pub with_retry_negative :
    {A : Type 0} (call : ℕ → Attempt A) (n base : ℕ)
    → with_retry call (below_zero n) base ≡ (type_error, [])
unfolding with_retry
with_retry_negative call n base = refl
