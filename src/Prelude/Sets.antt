-- ===== src/Prelude/Sets.antt =====
-- A set: a list whose order nothing observes.
use dawos_agent.Prelude.Tests.{Eq, ◌==◌, Bool-cases, if◌then◌else◌}
use mathlib.Core.Logic.{inl, inr}
use mathlib.Core.Path.{◌≡◌, refl}
use mathlib.Core.Bool.{Bool, false, ◌&&◌, ◌||◌, not}
use mathlib.Core.List.{List, [], ◌∷◌}
use native.Mathlib.Omega.{arith}

module _ {ℓ} {A : Type ℓ} ⦃e : Eq A⦄ where
  unfoldable pub contains : A → List A → Bool
  contains a [] = false
  contains a (x ∷ xs) = x == a || contains a xs

  unfoldable pub add : A → List A → List A
  unfolding contains
  add a xs = if contains a xs then xs else a ∷ xs

  unfoldable pub discard : A → List A → List A
  discard a [] = []
  discard a (x ∷ xs) = if x == a then discard a xs else x ∷ discard a xs

  -- The elements that `keep` contains too.
  unfoldable pub intersect : List A → List A → List A
  unfolding contains
  intersect [] keep = []
  intersect (x ∷ xs) keep = if contains x keep then x ∷ intersect xs keep else intersect xs keep

  pub contains-add : (a b : A) (xs : List A) → contains b (add a xs) ≡ (a == b || contains b xs)
  unfolding add
  contains-add a b xs = ground (arith, e.beq_iff a b)

  pub contains-discard :
      (a b : A) (xs : List A) → contains b (discard a xs) ≡ (not (a == b) && contains b xs)
  unfolding contains discard
  contains-discard a b [] = ground arith
  contains-discard a b (x ∷ xs) =
      ground (arith, contains-discard a b xs, e.beq_iff x a, e.beq_iff x b, e.beq_iff a b)

  pub contains-intersect :
      (b : A) (xs keep : List A)
      → contains b (intersect xs keep) ≡ (contains b xs && contains b keep)
  unfolding contains intersect
  contains-intersect b [] keep = refl
  contains-intersect b (x ∷ xs) keep = ground (arith, contains-intersect b xs keep, e.beq_iff x b)

-- No element stands twice.
abbrev pub Distinct {ℓ} : {A : Type ℓ} ⦃e : Eq A⦄ → List A → Type 0
Distinct [] = Unit
Distinct (x ∷ xs) = (contains x xs ≡ false) × Distinct xs

module _ {ℓ} {A : Type ℓ} ⦃e : Eq A⦄ where
  pub add-Distinct : (a : A) (xs : List A) → Distinct xs → Distinct (add a xs)
  unfolding add
  add-Distinct a xs h = elim (Bool-cases (contains a xs)) [
    | inl old ↦ rw old h
    | inr new ↦ rw new (new, h)
  ]

  pub discard-Distinct : (a : A) (xs : List A) → Distinct xs → Distinct (discard a xs)
  unfolding discard
  discard-Distinct a [] h = tt
  discard-Distinct a (x ∷ xs) (out, h) = elim (Bool-cases (x == a)) [
    | inl same ↦ rw same (discard-Distinct a xs h)
    | inr other ↦ rw other (ground (arith, contains-discard a x xs), discard-Distinct a xs h)
  ]
