-- ===== src/Sections/Collected.antt =====
-- What is collected from the lines of a section, line by line and after it was written.
use dawos_agent.Prelude.{
  Text, Bool, true, false, Option, List, [], ◌∷◌, ◌≡◌, refl, ap, ◌∙◌, All, if◌then◌else◌,
}
use dawos_agent.Prelude.Texts.{strip}
use dawos_agent.Prelude.Texts.Lines.{IsLine, lines_of, lines_of-join_lines, lines_of-blank}
use dawos_agent.Sections.{is_header, new_content, before_rest, collect}

module _ {A : Type 0} (opening : Text → Bool) (read : Text → Option A) where
  pub collect-header :
      (line : Text) (lines : List Text) (inside : Bool)
      → is_header (strip line) ≡ true
      → collect opening read (line ∷ lines) inside
        ≡ collect opening read lines (opening (strip line))
  unfolding collect
  collect-header line lines inside opened = rw opened refl

  pub collect-line :
      (line : Text) (lines : List Text) (inside : Bool)
      → is_header (strip line) ≡ false
      → collect opening read (line ∷ lines) inside ≡ (
          if inside
          then before_rest (read (strip line)) (collect opening read lines inside)
          else collect opening read lines inside)
  unfolding collect
  collect-line line lines inside plain = rw plain refl

  pub collect-new_content :
      (out : List Text)
      → All IsLine out
      → collect opening read (lines_of (new_content out)) false ≡ collect opening read out false
  unfolding new_content
  collect-new_content [] lines =
      ap (λ l. collect opening read l false) lines_of-blank ∙ unfold collect is_header strip in refl
  collect-new_content (l ∷ ls) lines =
      ap (λ l. collect opening read l false) (lines_of-join_lines l ls lines)
