-- ===== src/Prelude/Texts/Laws.antt =====
-- Laws of the operations on text.
use Prim.Native.Nat.{ℕ}
use mathlib.Core.Path.{◌≡◌, refl}
use mathlib.Core.Bool.{◌||◌}
use mathlib.Core.List.{[], ◌∷◌, ◌++◌}
use native.Mathlib.Omega.{arith}
use dawos_agent.Prelude.Texts.{Text, has_char, last?}

-- The last character of a text with a suffix is the suffix's.
pub last?-append : (s : Text) (c : ℕ) (t : Text) → last? (s ++ c ∷ t) ≡ last? (c ∷ t)
last?-append [] c t = refl
last?-append (a ∷ []) c t = refl
last?-append (a ∷ b ∷ s) c t = last?-append (b ∷ s) c t

pub has_char-append : (c : ℕ) (s t : Text) → has_char c (s ++ t) ≡ (has_char c s || has_char c t)
has_char-append c [] t = refl
has_char-append c (d ∷ s) t = ground (arith, has_char-append c s t)
