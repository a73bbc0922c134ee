-- ===== src/ConfigValidator/Written.antt =====
-- A valid configuration is one that can be written.
use dawos_agent.Prelude.{
  ℕ, Text, text_eq, nat_eq, Bool, true, false, ◌==◌, ◌||◌, ◌&&◌, not, any, Option, none, some, List,
  [], ◌∷◌, ◌≡◌, refl, sym, ◌∙◌, arith, Bool-cases, Option-cases, inl, inr,
}
use dawos_agent.Prelude.Texts.{strip, has_char, is_space}
use dawos_agent.Prelude.Texts.Lines.{lines_of, split_lines, is_break}
use dawos_agent.ConfigManager.Backups.{IsConfig}
use dawos_agent.Sections.Headers.{has_char-strip, has_char-reverse}
use dawos_agent.ConfigValidator.{validate_config}
use dawos_agent.ConfigValidator.Patterns.{section_name}
use dawos_agent.ConfigValidator.Described.{has_modules, is_modules, is_skipped}
use dawos_agent.ConfigValidator.Accepted.{validate_config-accepts}

-- A character of a line is one of the text.
split_lines-char :
    (c : ℕ) (cs line : Text) (returned : Bool)
    → any (has_char c) (split_lines cs line returned) ≡ true
    → (has_char c line || has_char c cs) ≡ true
unfolding split_lines
split_lines-char c [] [] returned h = absurd (cc)
split_lines-char c [] (d ∷ line) returned h = ground (arith, h, has_char-reverse c (d ∷ line))
split_lines-char c (d ∷ cs) line returned h = elim (Bool-cases (returned && d == 10)) [
  | inl pair ↦ let rest = split_lines-char c cs line false (rw pair at h) in ground (arith, rest)
  | inr single ↦ elim (Bool-cases (is_break d)) [
    | inl ends ↦
        let both = rw (single, ends) at h in
        ground (arith, both, has_char-reverse c line, split_lines-char c cs [] (d == 13))
    | inr plain ↦
        let rest = split_lines-char c cs (d ∷ line) false (rw (single, plain) at h) in
        ground (arith, rest)
  ]
]

section_name-bracket :
    (t : Text) (name : Text) → section_name t ≡ some name → has_char b'[' t ≡ true
unfolding section_name
section_name-bracket [] name h = absurd (cc)
section_name-bracket (c ∷ t) name h = elim (Bool-cases (c == b'[')) [
  | inl e ↦ ground (arith, e)
  | inr e ↦ absurd (cc (rw e at h))
]

modules_later :
    (skipped : Bool) (opened : Option Text) (later : Bool)
    → opened ≡ none
    → ((not skipped && is_modules opened) || later) ≡ true
    → later ≡ true
modules_later skipped none later plain h = ground (arith, h)
modules_later skipped (some name) later plain h = absurd (cc)

has_modules-bracket :
    (lines : List Text) → has_modules lines ≡ true → any (has_char b'[') lines ≡ true
has_modules-bracket [] h = absurd (cc)
has_modules-bracket (raw ∷ lines) h = elim (Option-cases (section_name (strip raw))) [
  | inl plain ↦
      let rest : has_modules lines ≡ true =
        modules_later (is_skipped (strip raw)) (section_name (strip raw)) (has_modules lines) plain
          h in
      ground (arith, has_modules-bracket lines rest)
  | inr (name, opens) ↦
      let there = has_char-strip b'[' raw (unfold is_space in refl) in
      ground (arith, there, section_name-bracket (strip raw) name opens)
]

valid-has_modules :
    (modules no_orphan good : Bool) → (modules && no_orphan && good) ≡ true → modules ≡ true
valid-has_modules modules no_orphan good h = ground (arith, h)

-- `write_config` does not refuse a text that is valid.
pub validate_config-IsConfig :
    (is_network is_address : Text → Bool) (content : Text)
    → (validate_config is_network is_address content).valid ≡ true
    → IsConfig content
validate_config-IsConfig is_network is_address content h =
    let accepted = sym (validate_config-accepts is_network is_address content).0 ∙ h in
    let modules = valid-has_modules (has_modules (lines_of content)) _ _ accepted in
    let bracket : has_char b'[' content ≡ true =
      split_lines-char b'[' content [] false
        (unfold lines_of in has_modules-bracket (lines_of content) modules) in
    let there : has_char b'[' (strip content) ≡ true =
      has_char-strip b'[' content (unfold is_space in refl) ∙ bracket in
    record { not_blank = λ blank. absurd (cc (there, blank)); has_section = there }
