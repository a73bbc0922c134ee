-- ===== src/Sections/Headers.antt =====
-- Edited lines that still have a section header can be written by `write_config`.
use dawos_agent.Prelude.{
  ℕ, Text, text_eq, nat_eq, Bool, true, false, ◌==◌, ==_iff, ◌||◌, any, Option, some, List, [], ◌∷◌,
  ◌++◌, reverse, ◌≡◌, refl, sym, ap, ◌∙◌, arith, ok, Bool-cases, inl, inr,
}
use mathlib.Core.List.{reverse-cons}
use dawos_agent.Prelude.Texts.{strip, strip_left, is_space, has_char}
use dawos_agent.Prelude.Texts.Lines.{join_lines}
use dawos_agent.Prelude.Texts.Laws.{has_char-append}
use dawos_agent.Prelude.Dict.{put}
use dawos_agent.ConfigManager.{State, write_config, backup_name}
use dawos_agent.ConfigManager.Backups.{IsConfig, write_config-IsConfig}
use dawos_agent.Sections.{is_header, has_section, new_content}
use dawos_agent.Sections.Edits.{Keeps, ends, inserted, dropped, copied, copied_header}

abbrev pub any_header : List Text → Bool
any_header lines = any (λ raw. is_header (strip raw)) lines

-- Edits that keep the lines of a section keep the headers.
pub Keeps-any_header :
    {A : Type 0} {opening : Text → Bool} {read : Text → Option A} {inside : Bool}
    {lines out : List Text}
    → Keeps opening read inside lines out
    → any_header out ≡ any_header lines
Keeps-any_header ends = refl
Keeps-any_header (inserted line plain other k) = rw plain (Keeps-any_header k)
Keeps-any_header (dropped line plain other k) = rw plain (Keeps-any_header k)
Keeps-any_header (copied line plain k) = ap (λ b. is_header (strip line) || b) (Keeps-any_header k)
Keeps-any_header (copied_header line opened after k) =
    ap (λ b. is_header (strip line) || b) (Keeps-any_header k)

pub has_section-any_header :
    (opening : Text → Bool) (lines : List Text)
    → has_section opening lines ≡ true
    → any_header lines ≡ true
unfolding has_section
has_section-any_header opening [] h = h
has_section-any_header opening (raw ∷ lines) h =
    ground (arith, h, has_section-any_header opening lines)

pub has_char-reverse : (c : ℕ) (t : Text) → has_char c (reverse t) ≡ has_char c t
has_char-reverse c [] = refl
has_char-reverse c (d ∷ t) =
    rw (reverse-cons d t, has_char-append c (reverse t) (d ∷ []))
      (ground (arith, has_char-reverse c t))

has_char-strip_left :
    (c : ℕ) (t : Text) → is_space c ≡ false → has_char c (strip_left t) ≡ has_char c t
unfolding strip_left
has_char-strip_left c [] h = refl
has_char-strip_left c (d ∷ t) h = elim (Bool-cases (is_space d)) [
  | inr plain ↦ rw plain refl
  | inl space ↦
      let other : (c == d) ≡ false = elim (Bool-cases (c == d)) [
        | inr other ↦ other
        | inl same ↦
            let equal : c ≡ d = ground (arith, same, ==_iff c d) in
            absurd (cc (ap is_space equal, h, space))
      ] in
      rw (space, other) (has_char-strip_left c t h)
]

-- A character that is no space stays in a text that is stripped.
pub has_char-strip : (c : ℕ) (t : Text) → is_space c ≡ false → has_char c (strip t) ≡ has_char c t
unfolding strip
has_char-strip c t h =
    has_char-reverse c (strip_left (reverse (strip_left t)))
    ∙ has_char-strip_left c (reverse (strip_left t)) h
    ∙ has_char-reverse c (strip_left t)
    ∙ has_char-strip_left c t h

bracket_first : (t : Text) → is_header t ≡ true → has_char b'[' t ≡ true
unfolding is_header
bracket_first [] h = absurd (cc)
bracket_first (c ∷ t) h = ground (arith, h, ==_iff c b'[', ==_iff b'[' c)

has_char-join_lines :
    (c : ℕ) (line : Text) (lines : List Text)
    → (has_char c line || has_char c (join_lines lines)) ≡ true
    → has_char c (join_lines (line ∷ lines)) ≡ true
unfolding join_lines
has_char-join_lines c line [] h = ground (arith, h)
has_char-join_lines c line (next ∷ rest) h =
    has_char-append c line (10 ∷ join_lines (next ∷ rest)) ∙ ground (arith, h)

pub any_header-join_lines :
    (out : List Text) → any_header out ≡ true → has_char b'[' (join_lines out) ≡ true
any_header-join_lines [] h = absurd (cc)
any_header-join_lines (line ∷ out) h =
    has_char-join_lines b'[' line out (elim (Bool-cases (is_header (strip line))) [
      | inl opened ↦
          let there : has_char b'[' line ≡ true =
            sym (has_char-strip b'[' line (unfold is_space in refl))
            ∙ bracket_first (strip line) opened in
          rw there refl
      | inr plain ↦
          let later : has_char b'[' (join_lines out) ≡ true =
            any_header-join_lines out (rw plain at h) in
          ground (arith, later)
    ])

-- `write_config` accepts the new content.
pub any_header-IsConfig : (out : List Text) → any_header out ≡ true → IsConfig (new_content out)
unfolding new_content
any_header-IsConfig out h =
    let there : has_char b'[' (strip (join_lines out ++ (10 ∷ []))) ≡ true =
      has_char-strip b'[' (join_lines out ++ (10 ∷ [])) (unfold is_space in refl)
      ∙ has_char-append b'[' (join_lines out) (10 ∷ [])
      ∙ ground (arith, any_header-join_lines out h) in
    record { not_blank = λ blank. absurd (cc (there, blank)); has_section = there }

-- The state with the edited lines, and the backup.
unfoldable pub written : Text → Text → List Text → State → State
written ts old out s = record s {
  config = some (new_content out);
  backups = put (backup_name ts) old s.backups;
}

pub write_config-new_content :
    (out : List Text) (old ts : Text) (s : State)
    → any_header out ≡ true
    → s.config ≡ some old
    → write_config (new_content out) true ts s ≡ (ok (some (backup_name ts)), written ts old out s)
unfolding written
write_config-new_content out old ts s h had =
    write_config-IsConfig (new_content out) true ts s (any_header-IsConfig out h) ∙ rw had refl
