-- ===== src/Prelude/Texts/Numbers.antt =====
-- Decimal numbers: `str(n)`, the digits that `\\d+` takes, and `int` of them.
use Prim.Native.Nat.{ℕ, zero, suc, ◌+◌, ◌-◌, ◌*◌, ◌/◌, ◌%◌, ◌≤◌, ◌<◌}
use mathlib.Core.Path.{◌≡◌, refl, sym, ap, ◌∙◌}
use mathlib.Core.Logic.{◌≢◌}
use mathlib.Core.Bool.{Bool, true, false, ◌&&◌}
use mathlib.Core.Option.{Option, none, some}
use mathlib.Core.List.{[], ◌∷◌}
use native.Mathlib.Decide.{dec_lt}
use native.Mathlib.Omega.{arith}
use dawos_agent.Prelude.Tests.{nat_eq, ltb, leb, if◌then◌else◌}
use dawos_agent.Prelude.Lists.{all}
use dawos_agent.Prelude.Texts.{Text}

-- The ASCII digits.
abbrev pub is_digit : ℕ → Bool
is_digit c = leb b'0' c && leb c b'9'

-- The number that digits spell, behind the number `n`.
abbrev pub value : ℕ → Text → ℕ
value n [] = n
value n (c ∷ cs) = value (n * 10 + (c - b'0')) cs

-- `fuel` is more than the number, so the division by ten comes to an end before it.
unfoldable pub digits : ℕ → ℕ → Text → Text
digits zero n out = out
digits (suc fuel) n out = elim (ltb n 10) [
  | true ↦ (b'0' + n) ∷ out
  | false ↦ digits fuel (n / 10) ((b'0' + n % 10) ∷ out)
]

-- `str(n)`
unfoldable pub decimal : ℕ → Text
unfolding digits
decimal n = digits (suc n) n []

-- The digits at the front of a text.
unfoldable pub leading_digits : Text → Text
leading_digits [] = []
leading_digits (c ∷ cs) = if is_digit c then c ∷ leading_digits cs else []

-- `int(t) if t.isdigit() else none`
unfoldable pub digit_value : Text → Option ℕ
digit_value [] = none
digit_value (c ∷ cs) = if all is_digit (c ∷ cs) then some (value 0 (c ∷ cs)) else none

-- `(\\d+)` at the front of a text, and `int` of it.
unfoldable pub leading_number : Text → Option ℕ
unfolding leading_digits digit_value
leading_number text = digit_value (leading_digits text)

digits_step :
    (fuel n : ℕ) (out : Text)
    → (n < 10 → digits (suc fuel) n out ≡ (b'0' + n) ∷ out)
      × (10 ≤ n → digits (suc fuel) n out ≡ digits fuel (n / 10) ((b'0' + n % 10) ∷ out))
unfolding digits
digits_step fuel n out = (λ h. ground arith, λ h. ground arith)

value-digits : (fuel n : ℕ) (out : Text) → n < fuel → value 0 (digits fuel n out) ≡ value n out
unfolding digits
value-digits zero n out h = absurd (omega arith)
value-digits (suc fuel) n out h = elim (dec_lt n 10) [
  | yes small ↦
      ap (value 0) ((digits_step fuel n out).0 small)
      ∙ ap (λ k. value k out) {x = 0 * 10 + (b'0' + n - b'0')} (omega arith)
  | no large ↦
      ap (value 0) ((digits_step fuel n out).1 (omega arith))
      ∙ value-digits fuel (n / 10) ((b'0' + n % 10) ∷ out) (omega arith)
      ∙ ap (λ k. value k out) {x = n / 10 * 10 + (b'0' + n % 10 - b'0')} {y = n} (omega arith)
]

-- Reading a number back from its decimal text.
pub value-decimal : (n : ℕ) → value 0 (decimal n) ≡ n
unfolding decimal
value-decimal n = value-digits (suc n) n [] (omega arith)

all-digits :
    (fuel n : ℕ) (out : Text)
    → n < fuel
    → all is_digit out ≡ true
    → all is_digit (digits fuel n out) ≡ true
unfolding digits
all-digits zero n out h k = k
all-digits (suc fuel) n out h k = elim (dec_lt n 10) [
  | yes small ↦ ap (all is_digit) ((digits_step fuel n out).0 small) ∙ ground (arith, k)
  | no large ↦
      ap (all is_digit) ((digits_step fuel n out).1 (omega arith))
      ∙ all-digits fuel (n / 10) ((b'0' + n % 10) ∷ out) (omega arith) (ground (arith, k))
]

pub all-decimal : (n : ℕ) → all is_digit (decimal n) ≡ true
unfolding decimal
all-decimal n = all-digits (suc n) n [] (omega arith) refl

some_digits : (fuel n c : ℕ) (out : Text) → digits fuel n (c ∷ out) ≢ []
unfolding digits
some_digits zero n c out = λ e. cc
some_digits (suc fuel) n c out = elim (dec_lt n 10) [
  | yes small ↦ λ e. let shown = sym ((digits_step fuel n (c ∷ out)).0 small) ∙ e in cc
  | no large ↦ λ e.
      some_digits fuel (n / 10) (b'0' + n % 10) (c ∷ out)
        (sym ((digits_step fuel n (c ∷ out)).1 (omega arith)) ∙ e)
]

decimal-not_empty : (n : ℕ) → decimal n ≢ []
unfolding decimal
decimal-not_empty n = elim (dec_lt n 10) [
  | yes small ↦ λ e. let shown = sym ((digits_step n n []).0 small) ∙ e in cc
  | no large ↦ λ e.
      some_digits n (n / 10) (b'0' + n % 10) [] (sym ((digits_step n n []).1 (omega arith)) ∙ e)
]

digit_value-digits : (t : Text) → t ≢ [] → all is_digit t ≡ true → digit_value t ≡ some (value 0 t)
unfolding digit_value
digit_value-digits [] h k = absurd (h refl)
digit_value-digits (c ∷ cs) h k = rw k refl

leading_digits-all : (t : Text) → all is_digit t ≡ true → leading_digits t ≡ t
unfolding leading_digits
leading_digits-all [] h = refl
leading_digits-all (c ∷ cs) h = ground (arith, h, leading_digits-all cs)

pub digit_value-decimal : (n : ℕ) → digit_value (decimal n) ≡ some n
digit_value-decimal n =
    digit_value-digits (decimal n) (decimal-not_empty n) (all-decimal n) ∙ ap some (value-decimal n)

-- `int` of the digits at the front of `str(n)` is `n`.
pub leading_number-decimal : (n : ℕ) → leading_number (decimal n) ≡ some n
unfolding leading_number
leading_number-decimal n =
    ap digit_value (leading_digits-all (decimal n) (all-decimal n)) ∙ digit_value-decimal n
