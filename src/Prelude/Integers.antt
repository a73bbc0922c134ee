-- ===== src/Prelude/Integers.antt =====
-- Integers, and Python's `int` of a text of ASCII digits.
use Prim.Native.Nat.{ℕ, ◌+◌, ◌-◌, ◌*◌}
use mathlib.Core.Bool.{Bool, false, ◌&&◌, ◌||◌}
use mathlib.Core.Option.{Option, none, some}
use mathlib.Core.List.{[], ◌∷◌}
use dawos_agent.Prelude.Tests.{◌==◌, nat_eq, if◌then◌else◌}
use dawos_agent.Prelude.Texts.{Text, strip}
use dawos_agent.Prelude.Texts.Numbers.{is_digit}

pub data ℤ : Type 0 where
  pos negsuc : ℕ → ℤ

abbrev pub negate : ℕ → ℤ
negate n = if n == 0 then pos 0 else negsuc (n - 1)

-- Digits with single underscores between them; `after_digit` tells what stands before.
unfoldable pub number_from : Bool → ℕ → Text → Option ℕ
number_from after_digit n [] = if after_digit then some n else none
number_from after_digit n (c ∷ cs) =
    let rest = number_from (is_digit c) (if is_digit c then n * 10 + (c - b'0') else n) cs in
    if is_digit c || (after_digit && c == b'_') then rest else none

abbrev signed : (ℕ → ℤ) → Option ℕ → Option ℤ
signed f none = none
signed f (some n) = some (f n)

abbrev number_with_sign : Text → Option ℤ
number_with_sign [] = none
number_with_sign (c ∷ cs) =
    if c == b'-'
    then signed negate (number_from false 0 cs)
    else if c == b'+'
    then signed pos (number_from false 0 cs)
    else signed pos (number_from false 0 (c ∷ cs))

-- `int(text)`; a ValueError is no number.
unfoldable pub int_of : Text → Option ℤ
int_of text = number_with_sign (strip text)
