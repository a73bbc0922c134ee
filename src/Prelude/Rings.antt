-- ===== src/Prelude/Rings.antt =====
-- A ring buffer: `collections.deque(maxlen=n)`, oldest element first.
use Prim.Native.Nat.{ℕ, zero, suc, ◌+◌, ◌-◌, ◌≤◌}
use mathlib.Core.Path.{◌≡◌, refl, sym, ap, ◌∙◌}
use mathlib.Core.Logic.{inl, inr}
use mathlib.Core.List.{List, [], ◌∷◌, ◌++◌, reverse, reverse_aux, reverse-append}
use native.Mathlib.Omega.{arith}
use dawos_agent.Prelude.Tests.{leb, Bool-cases}
use dawos_agent.Prelude.Lists.{length, take, drop, length-append, length-drop, take-append-drop}

module _ {ℓ} {A : Type ℓ} where
  -- The last `n` elements.
  unfoldable pub keep_last : ℕ → List A → List A
  keep_last n xs = drop (length xs - n) xs

  -- `deque.append`: the oldest element goes when the buffer is full.
  unfoldable pub append_bounded : ℕ → A → List A → List A
  unfolding keep_last
  append_bounded n x xs = keep_last n (xs ++ x ∷ [])

  pub length-keep_last : (n : ℕ) (xs : List A) → length (keep_last n xs) ≤ n
  unfolding keep_last
  length-keep_last n xs = omega (arith, length-drop (length xs - n) xs)

  drop-append : (n : ℕ) (xs ys : List A) → n ≤ length xs → drop n (xs ++ ys) ≡ drop n xs ++ ys
  drop-append zero xs ys h = refl
  drop-append (suc n) [] ys h = absurd (omega arith)
  drop-append (suc n) (x ∷ xs) ys h = drop-append n xs ys (omega arith)

  drop-nil : (n : ℕ) → drop {A = A} n [] ≡ []
  drop-nil zero = refl
  drop-nil (suc n) = refl

  pub keep_last-nil : (n : ℕ) → keep_last n [] ≡ []
  unfolding keep_last
  keep_last-nil n = drop-nil (0 - n)

  drop-drop : (m n : ℕ) (xs : List A) → drop m (drop n xs) ≡ drop (n + m) xs
  drop-drop m zero xs = ap (λ k. drop k xs) (omega arith)
  drop-drop m (suc n) [] = drop-nil m ∙ sym (drop-nil (suc n + m))
  drop-drop m (suc n) (x ∷ xs) =
      drop-drop m n xs ∙ ap (λ k. drop k (x ∷ xs)) {x = suc (n + m)} (omega arith)

  -- A buffer that holds the last elements of a history holds those of the longer one after an append.
  pub append_bounded-keep_last :
      (n : ℕ) (x : A) (xs : List A)
      → append_bounded n x (keep_last n xs) ≡ keep_last n (xs ++ x ∷ [])
  unfolding append_bounded keep_last
  append_bounded-keep_last n x xs =
      let m = length xs - n in
      ap (λ l. drop (length l - n) l) (sym (drop-append m xs (x ∷ []) (omega arith)))
      ∙ drop-drop (length (drop m (xs ++ x ∷ [])) - n) m (xs ++ x ∷ [])
      ∙ ap (λ k. drop k (xs ++ x ∷ []))
          (omega (arith, length-drop m (xs ++ x ∷ []), length-append xs (x ∷ [])))

  length-reverse_aux : (xs ys : List A) → length (reverse_aux xs ys) ≡ length xs + length ys
  length-reverse_aux [] ys = omega arith
  length-reverse_aux (x ∷ xs) ys = omega (arith, length-reverse_aux xs (x ∷ ys))

  pub length-reverse : (xs : List A) → length (reverse xs) ≡ length xs
  length-reverse xs = omega (arith, length-reverse_aux xs [])

  take-all : (n : ℕ) (xs : List A) → length xs ≤ n → take n xs ≡ xs
  take-all zero [] h = refl
  take-all (suc n) [] h = refl
  take-all zero (x ∷ xs) h = absurd (omega arith)
  take-all (suc n) (x ∷ xs) h = ap (λ l. x ∷ l) (take-all n xs (omega arith))

  take-length : (n : ℕ) (xs ys : List A) → length xs ≡ n → take n (xs ++ ys) ≡ xs
  take-length zero [] ys h = refl
  take-length (suc n) [] ys h = absurd (omega arith)
  take-length zero (x ∷ xs) ys h = absurd (omega arith)
  take-length (suc n) (x ∷ xs) ys h = ap (λ l. x ∷ l) (take-length n xs ys (omega arith))

  -- The last `n` elements, newest first, are the first `n` of the list turned round.
  pub reverse-keep_last : (n : ℕ) (xs : List A) → reverse (keep_last n xs) ≡ take n (reverse xs)
  unfolding keep_last
  reverse-keep_last n xs = elim (Bool-cases (leb (length xs) n)) [
    | inl short ↦
        ap (λ k. reverse (drop k xs)) {y = 0} (ground arith)
        ∙ sym (take-all n (reverse xs) (ground (arith, length-reverse xs)))
    | inr long ↦
        let m = length xs - n in
        sym (
          take-length n (reverse (drop m xs)) (reverse (take m xs))
            (ground (arith, length-reverse (drop m xs), length-drop m xs)))
        ∙ ap (take n) (sym (reverse-append (take m xs) (drop m xs)))
        ∙ ap (λ l. take n (reverse l)) (take-append-drop m xs)
  ]
