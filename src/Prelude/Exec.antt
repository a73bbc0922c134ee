-- ===== src/Prelude/Exec.antt =====
-- Code that reads and writes a state and may raise. What was written before a raise stays written,
-- so the state comes back beside the exception too.
use dawos_agent.Prelude.Results.{Result, ok, err}

abbrev pub Exec {ℓ κ λ'} : Type ℓ → Type κ → Type λ' → Type (ℓ ⊔ κ ⊔ λ')
Exec S E A = S → Result E A × S

module _ {ℓ κ λ' μ} {S : Type ℓ} {E : Type κ} {A : Type λ'} {B : Type μ} where
  abbrev pub continue : Result E A → (A → Exec S E B) → Exec S E B
  continue (ok a) f s = f a s
  continue (err e) f s = (err e, s)

  infixl 5 ◌>>=◌ ◌>>◌
  abbrev pub ◌>>=◌ : Exec S E A → (A → Exec S E B) → Exec S E B
  ◌>>=◌ m f s = continue (m s).0 f (m s).1

  abbrev pub ◌>>◌ : Exec S E A → Exec S E B → Exec S E B
  ◌>>◌ m n s = continue (m s).0 (λ a. n) (m s).1

module _ {ℓ κ λ'} {S : Type ℓ} {E : Type κ} {A : Type λ'} where
  abbrev pub pure : A → Exec S E A
  pure a s = (ok a, s)

  abbrev pub raise : E → Exec S E A
  raise e s = (err e, s)

  abbrev pub gets : (S → A) → Exec S E A
  gets f s = (ok (f s), s)

module _ {ℓ κ} {S : Type ℓ} {E : Type κ} where
  abbrev pub modify : (S → S) → Exec S E (Unit {0})
  modify f s = (ok tt, f s)
