-- ===== src/Sections/Edits.antt =====
-- Edits that leave the value of a section as it was.
use dawos_agent.Prelude.{
  Text, Bool, true, false, Option, none, List, [], ◌∷◌, ◌≡◌, refl, sym, ap, ◌∙◌,
}
use dawos_agent.Prelude.Texts.{strip}
use dawos_agent.Sections.{is_header, inside_after, value_after, latest}
use dawos_agent.Sections.Latest.{latest-copy, latest-header}

module _ {A : Type 0} (opening : Text → Bool) (read : Text → Option A) where
  -- No line of the section that is read is taken out, and none is put in.
  pub data Keeps : Bool → List Text → List Text → Type 0 where
    ends : {inside : Bool} → Keeps inside [] []
    inserted :
        {inside : Bool} {lines out : List Text} (line : Text)
        → is_header (strip line) ≡ false
        → read (strip line) ≡ none
        → Keeps inside lines out
        → Keeps inside lines (line ∷ out)
    dropped :
        {inside : Bool} {lines out : List Text} (line : Text)
        → is_header (strip line) ≡ false
        → (inside ≡ true → read (strip line) ≡ none)
        → Keeps inside lines out
        → Keeps inside (line ∷ lines) out
    copied :
        {inside : Bool} {lines out : List Text} (line : Text)
        → is_header (strip line) ≡ false
        → Keeps inside lines out
        → Keeps inside (line ∷ lines) (line ∷ out)
    copied_header :
        {inside next : Bool} {lines out : List Text} (line : Text)
        → is_header (strip line) ≡ true
        → opening (strip line) ≡ next
        → Keeps next lines out
        → Keeps inside (line ∷ lines) (line ∷ out)

  inside_after-line :
      (line : Text) (inside : Bool)
      → is_header (strip line) ≡ false
      → inside_after opening line inside ≡ inside
  unfolding inside_after
  inside_after-line line inside plain = rw plain refl

  latest_same :
      (line : Text) (lines out : List Text) (inside : Bool) (v : A)
      → is_header (strip line) ≡ false
      → ((w : A) → latest opening read out inside w ≡ latest opening read lines inside w)
      → latest opening read (line ∷ out) inside v ≡ latest opening read (line ∷ lines) inside v
  unfolding latest
  latest_same line lines out inside v plain h =
      rw (inside_after-line line inside plain) (h (value_after opening read line inside v))

  pub latest-Keeps :
      {inside : Bool} {lines out : List Text}
      → Keeps inside lines out
      → (v : A) → latest opening read out inside v ≡ latest opening read lines inside v
  latest-Keeps ends v = refl
  latest-Keeps (inserted {inside} {lines} {out} line plain other k) v =
      latest-copy opening read line out inside v plain (λ here. other) ∙ latest-Keeps k v
  latest-Keeps (dropped {inside} {lines} {out} line plain other k) v =
      latest-Keeps k v ∙ sym (latest-copy opening read line lines inside v plain other)
  latest-Keeps (copied {inside} {lines} {out} line plain k) v =
      latest_same line lines out inside v plain (latest-Keeps k)
  latest-Keeps (copied_header {inside} {next} {lines} {out} line opened after k) v =
      latest-header opening read line out inside v opened
      ∙ ap (λ b. latest opening read out b v) after
      ∙ latest-Keeps k v
      ∙ ap (λ b. latest opening read lines b v) (sym after)
      ∙ sym (latest-header opening read line lines inside v opened)
