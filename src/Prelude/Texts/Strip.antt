-- ===== src/Prelude/Texts/Strip.antt =====
-- Texts that `str.strip` leaves as they are.
use Prim.Native.Nat.{ℕ, ◌≤◌}
use mathlib.Core.Path.{◌≡◌, refl, ap}
use mathlib.Core.Logic.{inl, inr}
use mathlib.Core.Bool.{Bool, true, false, ◌&&◌}
use mathlib.Core.List.{[], ◌∷◌, ◌++◌, reverse, reverse-append, reverse-reverse, reverse-cons}
use native.Mathlib.Omega.{arith}
use dawos_agent.Prelude.Tests.{nat_eq, Bool-cases}
use dawos_agent.Prelude.Lists.{all, length}
use dawos_agent.Prelude.Texts.{Text, is_space, strip_left, strip}
use dawos_agent.Prelude.Texts.Numbers.{is_digit}

length-strip_left : (t : Text) → length (strip_left t) ≤ length t
unfolding strip_left
length-strip_left [] = omega arith
length-strip_left (c ∷ cs) = ground (arith, length-strip_left cs)

-- A text that nothing is stripped from does not begin with a space.
pub strip_left-plain : (c : ℕ) (cs : Text) → strip_left (c ∷ cs) ≡ c ∷ cs → is_space c ≡ false
unfolding strip_left
strip_left-plain c cs h = elim (Bool-cases (is_space c)) [
  | inr plain ↦ plain
  | inl space ↦
      let same : strip_left cs ≡ c ∷ cs = rw space at h in
      absurd (omega (arith, length-strip_left cs, ap length same))
]

pub strip_left-append :
    (s t : Text) → strip_left s ≡ s → strip_left t ≡ t → strip_left (s ++ t) ≡ s ++ t
strip_left-append [] t h k = k
strip_left-append (c ∷ s) t h k = unfold strip_left in rw (strip_left-plain c s h) refl

strip_left-last :
    (c : ℕ) (t : Text) → is_space c ≡ false → strip_left (t ++ (c ∷ [])) ≡ strip_left t ++ (c ∷ [])
unfolding strip_left
strip_left-last c [] h = rw h refl
strip_left-last c (d ∷ t) h = elim (Bool-cases (is_space d)) [
  | inr plain ↦ rw plain refl
  | inl space ↦ rw space (strip_left-last c t h)
]

-- A first character that is no space stays the first one.
pub strip-first :
    (c : ℕ) (t : Text) → is_space c ≡ false → strip (c ∷ t) ≡ c ∷ reverse (strip_left (reverse t))
unfolding strip strip_left
strip-first c t h =
    rw (h, reverse-cons c t, strip_left-last c (reverse t) h)
      (reverse-append (strip_left (reverse t)) (c ∷ []))

-- No space at either end.
pub record IsTrimmed (t : Text) : Type 0 where
  pub front : strip_left t ≡ t
  pub back : strip_left (reverse t) ≡ reverse t

pub strip-IsTrimmed : (t : Text) → IsTrimmed t → strip t ≡ t
unfolding strip
strip-IsTrimmed t h = rw (h.front, h.back) (reverse-reverse t)

pub append-IsTrimmed : (s t : Text) → IsTrimmed s → IsTrimmed t → IsTrimmed (s ++ t)
append-IsTrimmed s t h k = record {
  front = strip_left-append s t h.front k.front;
  back = rw (reverse-append s t) (strip_left-append (reverse t) (reverse s) k.back h.back);
}

digits-front : (t : Text) → all is_digit t ≡ true → strip_left t ≡ t
unfolding strip_left
digits-front [] h = refl
digits-front (c ∷ cs) h =
    let plain : is_space c ≡ false = unfold is_space in ground (arith, h) in rw plain refl

all-append : (p : ℕ → Bool) (s t : Text) → all p (s ++ t) ≡ (all p s && all p t)
all-append p [] t = refl
all-append p (c ∷ s) t = ground (arith, all-append p s t)

pub all-reverse : (p : ℕ → Bool) (t : Text) → all p t ≡ true → all p (reverse t) ≡ true
all-reverse p [] h = refl
all-reverse p (c ∷ t) h =
    rw (reverse-cons c t, all-append p (reverse t) (c ∷ []))
      (let rest : all p (reverse t) ≡ true = all-reverse p t (ground (arith, h)) in
        ground (arith, h, rest))

pub digits-IsTrimmed : (t : Text) → all is_digit t ≡ true → IsTrimmed t
digits-IsTrimmed t h = record {
  front = digits-front t h;
  back = digits-front (reverse t) (all-reverse is_digit t h);
}
