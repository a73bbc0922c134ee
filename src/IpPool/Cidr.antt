-- ===== src/IpPool/Cidr.antt =====
-- What the parts of the pattern of a range match.
use dawos_agent.Prelude.{
  ℕ, Text, text_eq, nat_eq, ==_iff, true, false, ◌==◌, all, Option, none, some, [], ◌∷◌, ◌++◌, ◌≡◌,
  refl, ap, ◌∙◌, arith, Bool-cases, inl, inr,
}
use mathlib.Core.List.{append_assoc}
use dawos_agent.Prelude.Texts.{is_space}
use dawos_agent.Prelude.Texts.Lines.{is_break}
use dawos_agent.Prelude.Texts.Numbers.{is_digit}
use dawos_agent.Constants.Laws.{is_solid, is_digit-solid}
use dawos_agent.IpPool.{
  Part, digit_run, digits_part, char_part, extended, then_after, then_part, cidr_part,
}

abbrev pub Fits : Text → Option (Text × Text) → Type 0
Fits t none = Unit {0}
Fits t (some (m, r)) = (m ++ r ≡ t) × (all is_solid m ≡ true)

-- The same match in front of a comma.
abbrev pub grown : Text → Option (Text × Text) → Option (Text × Text)
grown v none = none
grown v (some (m, r)) = some (m, r ++ (b',' ∷ v))

-- A part matches the beginning of a text, with no white space in it, and a comma behind the text
-- changes nothing.
pub record IsPart (p : Part) : Type 0 where
  pub fits : (t : Text) → Fits t (p t)
  pub extends : (t v : Text) → p (t ++ (b',' ∷ v)) ≡ grown v (p t)

digit_run-lem :
    (t : Text) → ((digit_run t).0 ++ (digit_run t).1 ≡ t) × (all is_solid (digit_run t).0 ≡ true)
unfolding digit_run
digit_run-lem [] = (refl, refl)
digit_run-lem (c ∷ cs) = elim (Bool-cases (is_digit c)) [
  | inl digit ↦
      let rest = digit_run-lem cs in
      rw digit (ap (λ l. c ∷ l) rest.0, rw (is_digit-solid c digit) rest.1)
  | inr other ↦ rw other (refl, refl)
]

digit_run-append :
    (t v : Text) → digit_run (t ++ (b',' ∷ v)) ≡ ((digit_run t).0, (digit_run t).1 ++ (b',' ∷ v))
unfolding digit_run
digit_run-append [] v = refl
digit_run-append (c ∷ cs) v = elim (Bool-cases (is_digit c)) [
  | inl digit ↦ rw digit (ap (λ r. (c ∷ r.0, r.1)) (digit_run-append cs v))
  | inr other ↦ rw other refl
]

digits_part-Fits : (t : Text) → Fits t (digits_part t)
unfolding digits_part
digits_part-Fits [] = tt
digits_part-Fits (c ∷ cs) = elim (Bool-cases (is_digit c)) [
  | inl digit ↦
      let rest = digit_run-lem cs in
      rw digit (ap (λ l. c ∷ l) rest.0, rw (is_digit-solid c digit) rest.1)
  | inr other ↦ rw other tt
]

digits_part-grown : (t v : Text) → digits_part (t ++ (b',' ∷ v)) ≡ grown v (digits_part t)
unfolding digits_part
digits_part-grown [] v = refl
digits_part-grown (c ∷ cs) v = elim (Bool-cases (is_digit c)) [
  | inl digit ↦ rw digit (ap (λ r. some (c ∷ r.0, r.1)) (digit_run-append cs v))
  | inr other ↦ rw other refl
]

digits_part-IsPart : IsPart digits_part
digits_part-IsPart = record { fits = digits_part-Fits; extends = digits_part-grown }

char_part-Fits : (ch : ℕ) → is_solid ch ≡ true → (t : Text) → Fits t (char_part ch t)
unfolding char_part
char_part-Fits ch solid [] = tt
char_part-Fits ch solid (c ∷ cs) = elim (Bool-cases (c == ch)) [
  | inl same ↦
      let here : is_solid c ≡ true = ap is_solid ((==_iff c ch).0 same) ∙ solid in
      rw same (refl, rw here refl)
  | inr other ↦ rw other tt
]

char_part-grown :
    (ch : ℕ)
    → (ch == b',') ≡ false
    → (t v : Text) → char_part ch (t ++ (b',' ∷ v)) ≡ grown v (char_part ch t)
unfolding char_part
char_part-grown ch other [] v =
    let differs : (b',' == ch) ≡ false = ground (arith, other, ==_iff ch b',', ==_iff b',' ch) in
    rw differs refl
char_part-grown ch other (c ∷ cs) v = elim (Bool-cases (c == ch)) [
  | inl same ↦ rw same refl
  | inr differs ↦ rw differs refl
]

char_part-IsPart : (ch : ℕ) → is_solid ch ≡ true → (ch == b',') ≡ false → IsPart (char_part ch)
char_part-IsPart ch solid other = record {
  fits = char_part-Fits ch solid;
  extends = char_part-grown ch other;
}

pub all-append :
    (m n : Text) → all is_solid m ≡ true → all is_solid n ≡ true → all is_solid (m ++ n) ≡ true
all-append [] n h k = k
all-append (c ∷ m) n h k =
    let rest : all is_solid (m ++ n) ≡ true = all-append m n (ground (arith, h)) k in
    ground (arith, h, rest)

module _ (q : Part) (hq : IsPart q) where
  then_after-Fits : (t : Text) (o : Option (Text × Text)) → Fits t o → Fits t (then_after q o)
  then_after-Fits t none h = tt
  then_after-Fits t (some (m, r)) h = of_rest (q r) (hq.fits r)
    where
      of_rest : (o : Option (Text × Text)) → Fits r o → Fits t (extended m o)
      of_rest none k = tt
      of_rest (some (n, u)) k =
          (append_assoc m n u ∙ ap (λ l. m ++ l) k.0 ∙ h.0, all-append m n h.1 k.1)

  then_after-grown :
      (v : Text) (o : Option (Text × Text)) → then_after q (grown v o) ≡ grown v (then_after q o)
  then_after-grown v none = refl
  then_after-grown v (some (m, r)) = ap (extended m) (hq.extends r v) ∙ of_rest (q r)
    where
      of_rest : (o : Option (Text × Text)) → extended m (grown v o) ≡ grown v (extended m o)
      of_rest none = refl
      of_rest (some (n, u)) = refl

then_part-IsPart : {p q : Part} → IsPart p → IsPart q → IsPart (then_part p q)
unfolding then_part
then_part-IsPart {p} {q} hp hq = record {
  fits = λ t. then_after-Fits q hq t (p t) (hp.fits t);
  extends = λ t v. ap (then_after q) (hp.extends t v) ∙ then_after-grown q hq v (p t);
}

pub cidr_part-IsPart : IsPart cidr_part
unfolding cidr_part is_space is_break
cidr_part-IsPart =
    let dot : IsPart (char_part b'.') = char_part-IsPart b'.' refl refl in
    let slash : IsPart (char_part b'/') = char_part-IsPart b'/' refl refl in
    let last : IsPart (then_part digits_part (then_part (char_part b'/') digits_part)) =
      then_part-IsPart digits_part-IsPart (then_part-IsPart slash digits_part-IsPart) in
    then_part-IsPart digits_part-IsPart (
      then_part-IsPart dot (
        then_part-IsPart digits_part-IsPart
          (then_part-IsPart dot (then_part-IsPart digits_part-IsPart (then_part-IsPart dot last)))))
