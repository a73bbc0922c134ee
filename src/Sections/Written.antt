-- ===== src/Sections/Written.antt =====
-- What is read from a file once edited lines have been written to it.
use dawos_agent.Prelude.{
  Text, text_eq, Bool, false, Option, none, List, [], ◌∷◌, ◌≡◌, refl, ap, ◌∙◌, All,
}
use dawos_agent.Prelude.Texts.{strip}
use dawos_agent.Prelude.Texts.Lines.{IsLine, lines_of, lines_of-join_lines, lines_of-blank}
use dawos_agent.Sections.{is_header, latest, new_content}
use dawos_agent.Sections.Latest.{latest-copy}

blank_is_no_header : is_header (strip []) ≡ false
unfolding is_header strip
blank_is_no_header = refl

strip-blank : strip [] ≡ []
unfolding strip
strip-blank = refl

pub latest-new_content :
    {A : Type 0} (opening : Text → Bool) (read : Text → Option A) (out : List Text) (v : A)
    → All IsLine out
    → read [] ≡ none
    → latest opening read (lines_of (new_content out)) false v ≡ latest opening read out false v
unfolding new_content
latest-new_content opening read [] v lines blank =
    ap (λ l. latest opening read l false v) lines_of-blank
    ∙ latest-copy opening read [] [] false v blank_is_no_header
        (λ here. ap read strip-blank ∙ blank)
latest-new_content opening read (l ∷ ls) v lines blank =
    ap (λ l. latest opening read l false v) (lines_of-join_lines l ls lines)
