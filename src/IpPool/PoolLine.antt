-- ===== src/IpPool/PoolLine.antt =====
-- The line that is written for a new pool is read as that pool.
use dawos_agent.Prelude.{
  ℕ, Text, codes, text_eq, nat_eq, ==_iff, true, false, ◌==◌, all, Option, none, some, [], ◌∷◌,
  ◌++◌, ◌≡◌, refl, sym, ap, ◌∙◌, arith, Bool-cases, inl, inr,
}
use mathlib.Core.List.{append-nil}
use dawos_agent.Prelude.Texts.{strip, is_space, starts_with, text_beq_iff}
use dawos_agent.Prelude.Texts.Lines.{is_break, IsLine}
use dawos_agent.Prelude.Texts.Numbers.{is_digit}
use dawos_agent.Prelude.Texts.Strip.{IsTrimmed, strip-IsTrimmed, append-IsTrimmed}
use dawos_agent.Constants.{is_safe_name}
use dawos_agent.Constants.Laws.{is_solid, solid-IsTrimmed, solid-IsLine, is_safe_name-solid}
use dawos_agent.Sections.{is_header}
use dawos_agent.IpPool.{
  digits_part, then_part, cidr_part, is_whole, is_cidr, named, pool_at, listed_at, pool_line,
}
use dawos_agent.IpPool.Cidr.{Fits, grown, all-append, cidr_part-IsPart}

whole :
    (t : Text) (o : Option (Text × Text))
    → Fits t o
    → is_whole o ≡ true
    → (o ≡ some (t, [])) × (all is_solid t ≡ true)
whole t none h k = absurd (cc)
whole t (some (m, r)) h k =
    let ended : r ≡ [] = (text_beq_iff r []).0 k in
    let same : m ≡ t = sym (append-nil m) ∙ ap (λ l. m ++ l) (sym ended) ∙ h.0 in
    ((λ i. some (same i, ended i)), ap (all is_solid) (sym same) ∙ h.1)

-- A range is a text of digits, dots and a slash.
pub is_cidr-solid : (t : Text) → is_cidr t ≡ true → all is_solid t ≡ true
unfolding is_cidr
is_cidr-solid t h = (whole t (cidr_part t) (cidr_part-IsPart.fits t) h).1

cidr_part-line :
    (name t : Text) → is_cidr t ≡ true → cidr_part (pool_line name t) ≡ some (t, b',' ∷ name)
unfolding is_cidr
cidr_part-line name t h =
    cidr_part-IsPart.extends t name
    ∙ ap (grown name) (whole t (cidr_part t) (cidr_part-IsPart.fits t) h).0

pool_line-IsTrimmed :
    (name t : Text) → is_cidr t ≡ true → is_safe_name name ≡ true → IsTrimmed (pool_line name t)
pool_line-IsTrimmed name t h k =
    append-IsTrimmed t (b',' ∷ name) (solid-IsTrimmed t (is_cidr-solid t h))
      (solid-IsTrimmed (b',' ∷ name) (unfold is_space is_break in is_safe_name-solid name k))

pub pool_line-IsLine :
    (name t : Text) → is_cidr t ≡ true → is_safe_name name ≡ true → IsLine (pool_line name t)
pool_line-IsLine name t h k = solid-IsLine (pool_line name t) (
    all-append t (b',' ∷ name) (is_cidr-solid t h)
      (unfold is_space is_break in is_safe_name-solid name k))

named-line :
    (name t : Text)
    → is_safe_name name ≡ true
    → named (some (t, b',' ∷ name)) ≡ some (record { name = name; range = t })
unfolding is_safe_name
named-line [] t k = absurd (cc)
named-line (c ∷ cs) t k =
    ap (λ n. some (record { name = n; range = t }))
      (strip-IsTrimmed (c ∷ cs) (solid-IsTrimmed (c ∷ cs) (is_safe_name-solid (c ∷ cs) k)))

no_digit : (c : ℕ) (cs : Text) → is_digit c ≡ false → cidr_part (c ∷ cs) ≡ none
unfolding cidr_part then_part digits_part
no_digit c cs h = rw h refl

first_digit : (c : ℕ) (cs : Text) → is_cidr (c ∷ cs) ≡ true → is_digit c ≡ true
unfolding is_cidr
first_digit c cs h = elim (Bool-cases (is_digit c)) [
  | inl digit ↦ digit
  | inr other ↦ absurd (cc (h, ap is_whole (no_digit c cs other)))
]

no_text : is_cidr [] ≡ false
unfolding is_cidr cidr_part then_part digits_part
no_text = refl

-- The line of a pool is no header, and no gateway.
plain_line :
    (name t : Text)
    → is_cidr t ≡ true
    → (is_header (pool_line name t) ≡ false)
      × (starts_with (codes "gw=") (pool_line name t) ≡ false)
unfolding is_header starts_with
plain_line name [] h = absurd (cc (h, no_text))
plain_line name (c ∷ cs) h =
    let digit = first_digit c cs h in
    (ground (arith, digit, ==_iff c b'['), ground (arith, digit, ==_iff b'g' c))

-- It is read as the pool.
pub pool_line-read :
    (name t : Text)
    → is_cidr t ≡ true
    → is_safe_name name ≡ true
    → (is_header (strip (pool_line name t)) ≡ false)
      × (listed_at (strip (pool_line name t)) ≡ some (record { name = name; range = t }))
pool_line-read name t h k =
    let trimmed = strip-IsTrimmed (pool_line name t) (pool_line-IsTrimmed name t h k) in
    let plain = plain_line name t h in
    (
      ap is_header trimmed ∙ plain.0,
      ap listed_at trimmed
          ∙ unfold listed_at pool_at in
            rw plain.1 (ap named (cidr_part-line name t h) ∙ named-line name t k),
    )

-- A gateway line is no pool.
pub listed_at-pool_at : (line : Text) → listed_at line ≡ pool_at line
unfolding listed_at pool_at starts_with
listed_at-pool_at [] = unfold cidr_part then_part digits_part in refl
listed_at-pool_at (c ∷ cs) = elim (Bool-cases (is_digit c)) [
  | inl digit ↦
      let other : (b'g' == c) ≡ false = ground (arith, digit, ==_iff b'g' c) in rw other refl
  | inr letter ↦ rw (no_digit c cs letter) (ground arith)
]
