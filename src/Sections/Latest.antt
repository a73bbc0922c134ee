-- ===== src/Sections/Latest.antt =====
-- What edits of the lines do to the value that is read from a section.
use dawos_agent.Prelude.{
  Text, text_eq, Bool, true, false, ◌||◌, Option, none, some, List, [], ◌∷◌, ◌≡◌, refl, sym, ap,
  ◌∙◌, arith, if◌then◌else◌, Bool-cases, inl, inr,
}
use dawos_agent.Prelude.Texts.{strip}
use dawos_agent.Sections.{is_header, inside_after, has_section, value_after, latest}

module _ {A : Type 0} (opening : Text → Bool) (read : Text → Option A) where
  -- The edited lines give the value `a` in every section of that name: `written` tells that the one that
  -- is scanned has it already.
  pub data Sets (a : A) : Bool → Bool → List Text → List Text → Type 0 where
    end_outside : {written : Bool} → Sets a false written [] []
    end_written : {inside : Bool} → Sets a inside true [] []
    insert_other :
        {inside written : Bool} {lines out : List Text} (line : Text)
        → is_header (strip line) ≡ false
        → read (strip line) ≡ none
        → Sets a inside written lines out
        → Sets a inside written lines (line ∷ out)
    insert :
        {inside written : Bool} {lines out : List Text} (line : Text)
        → inside ≡ true
        → is_header (strip line) ≡ false
        → read (strip line) ≡ some a
        → Sets a inside true lines out
        → Sets a inside written lines (line ∷ out)
    drop_line :
        {inside written : Bool} {lines out : List Text} (line : Text)
        → is_header (strip line) ≡ false
        → Sets a inside written lines out
        → Sets a inside written (line ∷ lines) out
    copy_line :
        {inside written : Bool} {lines out : List Text} (line : Text)
        → is_header (strip line) ≡ false
        → (inside ≡ true → read (strip line) ≡ none)
        → Sets a inside written lines out
        → Sets a inside written (line ∷ lines) (line ∷ out)
    copy_header :
        {inside written next : Bool} {lines out : List Text} (line : Text)
        → is_header (strip line) ≡ true
        → (inside ≡ true → written ≡ true)
        → opening (strip line) ≡ next
        → Sets a next false lines out
        → Sets a inside written (line ∷ lines) (line ∷ out)

  -- A line that is no header leaves the scan in its section, and the value changes by what it reads.
  pub latest-line :
      (line : Text) (lines : List Text) (inside : Bool) (v : A)
      → is_header (strip line) ≡ false
      → (latest opening read (line ∷ lines) false v ≡ latest opening read lines false v)
        × (read (strip line) ≡ none
            → latest opening read (line ∷ lines) inside v ≡ latest opening read lines inside v)
        × ((a : A)
            → read (strip line) ≡ some a
            → latest opening read (line ∷ lines) true v ≡ latest opening read lines true a)
  unfolding latest inside_after value_after
  latest-line line lines true v plain =
      (rw plain refl, λ nothing. rw (plain, nothing) refl, λ a found. rw (plain, found) refl)
  latest-line line lines false v plain =
      (rw plain refl, λ nothing. rw plain refl, λ a found. rw (plain, found) refl)

  pub latest-header :
      (line : Text) (lines : List Text) (inside : Bool) (v : A)
      → is_header (strip line) ≡ true
      → latest opening read (line ∷ lines) inside v
        ≡ latest opening read lines (opening (strip line)) v
  unfolding latest inside_after value_after
  latest-header line lines inside v opened = rw opened refl

  pub latest-copy :
      (line : Text) (lines : List Text) (inside : Bool) (v : A)
      → is_header (strip line) ≡ false
      → (inside ≡ true → read (strip line) ≡ none)
      → latest opening read (line ∷ lines) inside v ≡ latest opening read lines inside v
  latest-copy line lines true v plain other = (latest-line line lines true v plain).1 (other refl)
  latest-copy line lines false v plain other = (latest-line line lines false v plain).0

  pub latest-found :
      (a : A) (line : Text) (lines : List Text) (inside : Bool) (v : A)
      → inside ≡ true
      → is_header (strip line) ≡ false
      → read (strip line) ≡ some a
      → latest opening read (line ∷ lines) inside v ≡ latest opening read lines inside a
  latest-found a line lines true v here plain found =
      (latest-line line lines true v plain).2 a found
  latest-found a line lines false v here plain found = absurd (cc)

  -- What is left once the lines of the section have the value.
  abbrev pub given : A → Bool → List Text → A → A
  given a inside lines v = if inside || has_section opening lines then a else v

  given-line :
      (a : A) (line : Text) (lines : List Text) (inside : Bool) (v : A)
      → is_header (strip line) ≡ false
      → given a inside (line ∷ lines) v ≡ given a inside lines v
  unfolding has_section
  given-line a line lines inside v plain = rw plain refl

  given-header :
      (a : A) (line : Text) (lines : List Text) (inside : Bool) (v : A)
      → is_header (strip line) ≡ true
      → (inside ≡ true → v ≡ a)
      → given a (opening (strip line)) lines v ≡ given a inside (line ∷ lines) v
  unfolding has_section
  given-header a line lines inside v opened h = rw opened (ground (arith, h))

  pub latest-Sets :
      {a : A} {inside written : Bool} {lines out : List Text}
      → Sets a inside written lines out
      → (v : A) → (written ≡ true → inside ≡ true → v ≡ a)
      → latest opening read out inside v ≡ given a inside lines v
  unfolding latest has_section
  latest-Sets end_outside v h = refl
  latest-Sets (end_written {inside}) v h = ground (arith, h refl)
  latest-Sets (insert_other {inside} {written} {lines} {out} line plain other s) v h =
      (latest-line line out inside v plain).1 other ∙ latest-Sets s v h
  latest-Sets {a} (insert {inside} {written} {lines} {out} line here plain found s) v h =
      latest-found a line out inside v here plain found
      ∙ latest-Sets s a (λ set here'. refl)
      ∙ ground (arith, here)
  latest-Sets {a} (drop_line {inside} {written} {lines} {out} line plain s) v h =
      latest-Sets s v h ∙ sym (given-line a line lines inside v plain)
  latest-Sets {a} (copy_line {inside} {written} {lines} {out} line plain other s) v h =
      latest-copy line out inside v plain other
      ∙ latest-Sets s v h
      ∙ sym (given-line a line lines inside v plain)
  latest-Sets {a} (copy_header {inside} {written} {next} {lines} {out} line opened done after s) v
        h =
      latest-header line out inside v opened
      ∙ ap (λ b. latest opening read out b v) after
      ∙ latest-Sets s v (λ unset. absurd (cc))
      ∙ ap (λ b. given a b lines v) (sym after)
      ∙ given-header a line lines inside v opened (λ here. h (done here) here)

  -- Nothing is read outside the section.
  pub latest_without :
      (lines : List Text) (v : A)
      → has_section opening lines ≡ false
      → latest opening read lines false v ≡ v
  unfolding has_section
  latest_without [] v h = unfold latest in refl
  latest_without (raw ∷ lines) v h = elim (Bool-cases (is_header (strip raw))) [
    | inl opened ↦
        let other : opening (strip raw) ≡ false = ground (arith, h, opened) in
        let later : has_section opening lines ≡ false = ground (arith, h) in
        latest-header raw lines false v opened
        ∙ ap (λ b. latest opening read lines b v) other
        ∙ latest_without lines v later
    | inr plain ↦
        let later : has_section opening lines ≡ false = ground (arith, h) in
        (latest-line raw lines false v plain).0 ∙ latest_without lines v later
  ]

  -- A value that is set: in every section of that name, and as it was if there is none.
  pub latest-Sets_file :
      {a : A} {lines out : List Text}
      → Sets a false false lines out
      → (v : A)
      → latest opening read out false v
        ≡ (if has_section opening lines then a else latest opening read lines false v)
  latest-Sets_file {a} {lines} s v =
      latest-Sets s v (λ unset. absurd (cc)) ∙ elim (Bool-cases (has_section opening lines)) [
        | inl here ↦ rw here refl
        | inr nowhere ↦ rw nowhere (sym (latest_without lines v nowhere))
      ]
