-- ===== src/Prelude/Texts/Padding.antt =====
-- Texts with spaces about them, and what `str.strip` makes of them.
use Prim.Native.Nat.{ℕ}
use mathlib.Core.Path.{◌≡◌, refl, ap, ◌∙◌}
use mathlib.Core.Bool.{true, false, not}
use mathlib.Core.List.{[], ◌∷◌, ◌++◌, reverse, reverse-append, reverse-reverse, reverse-cons}
use native.Mathlib.Omega.{arith}
use dawos_agent.Prelude.Tests.{nat_eq}
use dawos_agent.Prelude.Lists.{all}
use dawos_agent.Prelude.Texts.{Text, is_space, strip_left, strip}
use dawos_agent.Prelude.Texts.Strip.{all-reverse, IsTrimmed}

-- There is a first character, and it is no space.
abbrev pub StartsPlain : Text → Type 0
StartsPlain [] = true ≡ false
StartsPlain (c ∷ cs) = is_space c ≡ false

-- The text begins and ends with a character that is no space.
abbrev pub IsSolid : Text → Type 0
IsSolid t = StartsPlain t × StartsPlain (reverse t)

strip_left-plain_start : (s : Text) → StartsPlain s → strip_left s ≡ s
unfolding strip_left
strip_left-plain_start [] h = refl
strip_left-plain_start (c ∷ s) h = rw h refl

pub solid-IsTrimmed : (t : Text) → IsSolid t → IsTrimmed t
solid-IsTrimmed t (h, k) = record {
  front = strip_left-plain_start t h;
  back = strip_left-plain_start (reverse t) k;
}

starts-append : (s t : Text) → StartsPlain s → StartsPlain (s ++ t)
starts-append [] t h = absurd (cc)
starts-append (c ∷ s) t h = h

-- What stands between two such texts does not matter.
pub around-IsSolid : (s m t : Text) → IsSolid s → IsSolid t → IsSolid (s ++ (m ++ t))
around-IsSolid s m t (h, k) (h', k') = (
  starts-append s (m ++ t) h,
  rw (reverse-append s (m ++ t), reverse-append m t)
      (starts-append (reverse t ++ reverse m) (reverse s)
        (starts-append (reverse t) (reverse m) k')),
)

-- One space behind the text.
pub strip-space_behind : (t : Text) → IsSolid t → strip (t ++ (32 ∷ [])) ≡ t
unfolding strip
strip-space_behind t (h, k) =
    rw (strip_left-plain_start (t ++ (32 ∷ [])) (starts-append t (32 ∷ []) h)) (
      rw (reverse-append t (32 ∷ [])) (
        ap reverse (unfold strip_left is_space in strip_left-plain_start (reverse t) k)
        ∙ reverse-reverse t))

-- One space before the text.
pub strip-space_before : (t : Text) → strip (32 ∷ t) ≡ strip t
unfolding strip strip_left is_space
strip-space_before t = refl

plain_end :
    (u : Text) (c : ℕ)
    → all (λ d. not (is_space d)) (u ++ (c ∷ [])) ≡ true
    → StartsPlain (u ++ (c ∷ []))
plain_end [] c h = ground (arith, h)
plain_end (d ∷ u) c h = ground (arith, h)

-- A text of one character at least and no space.
pub plain-IsSolid :
    (c : ℕ) (cs : Text) → all (λ d. not (is_space d)) (c ∷ cs) ≡ true → IsSolid (c ∷ cs)
plain-IsSolid c cs h = (
  ground (arith, h),
  let back = all-reverse (λ d. not (is_space d)) (c ∷ cs) h in
      rw (reverse-cons c cs) (plain_end (reverse cs) c (rw (reverse-cons c cs) at back)),
)
