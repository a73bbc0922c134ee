-- ===== src/Prelude/Dict.antt =====
-- A dict: its items in insertion order. Writing a key that is there keeps its place.
use dawos_agent.Prelude.Tests.{Eq, ◌==◌, if◌then◌else◌}
use mathlib.Core.Path.{◌≡◌, refl}
use mathlib.Core.Bool.{Bool, true, false}
use mathlib.Core.Option.{Option, none, some}
use mathlib.Core.List.{List, [], ◌∷◌}
use native.Mathlib.Omega.{arith}

abbrev pub Dict {ℓ κ} : Type ℓ → Type κ → Type (ℓ ⊔ κ)
Dict K V = List (K × V)

module _ {ℓ κ} {K : Type ℓ} ⦃e : Eq K⦄ {V : Type κ} where
  unfoldable pub get : K → Dict K V → Option V
  get k [] = none
  get k ((j, v) ∷ m) = if j == k then some v else get k m

  unfoldable pub put : K → V → Dict K V → Dict K V
  put k v [] = (k, v) ∷ []
  put k v ((j, w) ∷ m) = if j == k then (j, v) ∷ m else (j, w) ∷ put k v m

  -- `del d[k]`, `d.pop(k, None)`
  unfoldable pub delete : K → Dict K V → Dict K V
  delete k [] = []
  delete k ((j, w) ∷ m) = if j == k then delete k m else (j, w) ∷ delete k m

  abbrev pub values : Dict K V → List V
  values [] = []
  values ((j, v) ∷ m) = v ∷ values m

  -- `k in d`
  abbrev pub has : K → Dict K V → Bool
  has k m = elim (get k m) [ none ↦ false | some v ↦ true ]

  pub get-put :
      (k j : K) (v : V) (m : Dict K V) → get j (put k v m) ≡ (if k == j then some v else get j m)
  unfolding get put
  get-put k j v [] = refl
  get-put k j v ((i, w) ∷ m) =
      ground (arith, e.beq_iff k j, e.beq_iff i k, e.beq_iff i j, get-put k j v m)

  pub get-delete :
      (k j : K) (m : Dict K V) → get j (delete k m) ≡ (if k == j then none else get j m)
  unfolding get delete
  get-delete k j [] = ground arith
  get-delete k j ((i, w) ∷ m) =
      ground (arith, e.beq_iff k j, e.beq_iff i k, e.beq_iff i j, get-delete k j m)

  pub get-put_self : (k : K) (v : V) (m : Dict K V) → get k (put k v m) ≡ some v
  get-put_self k v m = ground (arith, get-put k k v m, e.beq_iff k k)

  pub get-delete_self : (k : K) (m : Dict K V) → get k (delete k m) ≡ none
  get-delete_self k m = ground (arith, get-delete k k m, e.beq_iff k k)

  -- Taking out what was put in under a new key gives the dict back.
  pub delete-absent : (k : K) (m : Dict K V) → get k m ≡ none → delete k m ≡ m
  unfolding get delete
  delete-absent k [] h = refl
  delete-absent k ((j, w) ∷ m) h = ground (arith, delete-absent k m)

  pub delete-put_new : (k : K) (v : V) (m : Dict K V) → get k m ≡ none → delete k (put k v m) ≡ m
  unfolding get put delete
  delete-put_new k v [] h = ground (arith, e.beq_iff k k)
  delete-put_new k v ((j, w) ∷ m) h = ground (arith, delete-put_new k v m)
