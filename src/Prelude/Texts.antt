-- ===== src/Prelude/Texts.antt =====
-- Text that the program walks: the list of its code points. Letters and digits are the ASCII ones.
pub mod Laws
pub mod Lines
pub mod Numbers
pub mod Split
pub mod Padding
pub mod Strip
use Prim.Native.Char.{code}
use Prim.Native.Nat.{ℕ, ◌+◌, ◌-◌}
use Prim.Native.String.{String}
use mathlib.Core.Path.{◌≡◌, refl}
use mathlib.Core.Logic.{◌↔◌}
use mathlib.Core.Bool.{Bool, true, false, ◌&&◌, ◌||◌}
use mathlib.Core.Option.{Option, none, some}
use mathlib.Core.List.{List, [], ◌∷◌, reverse}
use native.Mathlib.Omega.{arith}
use dawos_agent.Prelude.Tests.{Eq, ◌==◌, ==_iff, nat_eq, leb, if◌then◌else◌}

abbrev pub Text : Type 0
Text = List ℕ

abbrev pub codes : String → Text
codes String.[] = []
codes (String.◌∷◌ c s) = code c ∷ codes s

abbrev pub text_beq : Text → Text → Bool
text_beq [] [] = true
text_beq (a ∷ s) (b ∷ t) = a == b && text_beq s t
text_beq _ _ = false

pub text_beq_iff : (s t : Text) → (text_beq s t ≡ true) ↔ (s ≡ t)
text_beq_iff [] [] = ground arith
text_beq_iff (a ∷ s) (b ∷ t) = ground (arith, text_beq_iff s t, ==_iff a b)
text_beq_iff [] (b ∷ t) = ground arith
text_beq_iff (a ∷ s) [] = ground arith

instance abbrev pub text_eq : Eq Text
text_eq = record { beq = text_beq; beq_iff = text_beq_iff }

-- `c in text` for one character
abbrev pub has_char : ℕ → Text → Bool
has_char c [] = false
has_char c (d ∷ ds) = c == d || has_char c ds

-- `text.startswith(prefix)`
unfoldable pub starts_with : Text → Text → Bool
starts_with [] text = true
starts_with (p ∷ ps) [] = false
starts_with (p ∷ ps) (c ∷ cs) = p == c && starts_with ps cs

-- `sub in text`
unfoldable pub occurs_in : Text → Text → Bool
unfolding starts_with
occurs_in sub [] = starts_with sub []
occurs_in sub (c ∷ cs) = starts_with sub (c ∷ cs) || occurs_in sub cs

-- `str.lower`, on ASCII letters
unfoldable pub to_lower : ℕ → ℕ
to_lower c = if leb b'A' c && leb c b'Z' then c + 32 else c

-- `str.upper`, on ASCII letters
unfoldable pub to_upper : ℕ → ℕ
to_upper c = if leb b'a' c && leb c b'z' then c - 32 else c

-- `str.isspace` of one character
unfoldable pub is_space : ℕ → Bool
is_space c =
    (leb 9 c && leb c 13)
    || (leb 28 c && leb c 32)
    || (c == 133)
    || (c == 160)
    || (c == 5760)
    || (leb 8192 c && leb c 8202)
    || (c == 8232)
    || (c == 8233)
    || (c == 8239)
    || (c == 8287)
    || (c == 12288)

unfoldable pub strip_left : Text → Text
unfolding is_space
strip_left [] = []
strip_left (c ∷ cs) = if is_space c then strip_left cs else c ∷ cs

-- `str.strip`
unfoldable pub strip : Text → Text
unfolding strip_left
strip text = reverse (strip_left (reverse (strip_left text)))

-- The last character.
abbrev pub last? : Text → Option ℕ
last? [] = none
last? (c ∷ []) = some c
last? (c ∷ d ∷ ds) = last? (d ∷ ds)

-- `text.endswith(suffix)`
unfoldable pub ends_with : Text → Text → Bool
unfolding starts_with
ends_with suffix text = starts_with (reverse suffix) (reverse text)
