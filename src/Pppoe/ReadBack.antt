-- ===== src/Pppoe/ReadBack.antt =====
-- The line of an interface with a safe name is read as that interface.
use dawos_agent.Prelude.{
  Text, codes, text_eq, nat_eq, ==_iff, true, false, ◌==◌, all, any, none, some, [], ◌∷◌, ◌++◌, ◌≡◌,
  ◌≢◌, refl, ap, ◌∙◌, arith, if◌then◌else◌,
}
use dawos_agent.Prelude.Texts.{strip, strip_left, is_space, to_lower, text_beq_iff}
use dawos_agent.Prelude.Texts.Lines.{IsLine, is_break, any-append}
use dawos_agent.Prelude.Texts.Strip.{IsTrimmed, strip-IsTrimmed, append-IsTrimmed}
use dawos_agent.Constants.{is_safe_name, is_name_char}
use dawos_agent.Constants.Laws.{solid-IsTrimmed, solid-IsLine, is_safe_name-solid}
use dawos_agent.Sections.{is_header, key_rest}
use dawos_agent.Sections.Assign.{key_rest-assignment}
use dawos_agent.Pppoe.{
  PppoeInterface, matched_value, iface_value, cut_comma, stripped_or_blank, iface_of, iface_found,
  iface_at, iface_line,
}
use dawos_agent.Pppoe.Rebuilt.{ReadsBack}

abbrev prefix : Text
prefix = codes "interface="

-- What is written behind the sign.
abbrev value_of : PppoeInterface → Text
value_of iface = if iface.options == [] then iface.name else iface.name ++ (b',' ∷ iface.options)

cut_comma-name : (name : Text) → all is_name_char name ≡ true → cut_comma name ≡ (name, none)
unfolding cut_comma is_name_char
cut_comma-name [] h = refl
cut_comma-name (c ∷ name) h =
    let other : (c == b',') ≡ false = ground (arith, h, ==_iff c b',') in
    let rest = cut_comma-name name (ground (arith, h)) in rw other (ap (λ r. (c ∷ r.0, r.1)) rest)

cut_comma-options :
    (name options : Text)
    → all is_name_char name ≡ true
    → cut_comma (name ++ (b',' ∷ options)) ≡ (name, some options)
unfolding cut_comma is_name_char
cut_comma-options [] options h = refl
cut_comma-options (c ∷ name) options h =
    let other : (c == b',') ≡ false = ground (arith, h, ==_iff c b',') in
    let rest = cut_comma-options name options (ground (arith, h)) in
    rw other (ap (λ r. (c ∷ r.0, r.1)) rest)

safe_chars : (name : Text) → is_safe_name name ≡ true → all is_name_char name ≡ true
unfolding is_safe_name
safe_chars [] h = refl
safe_chars (c ∷ name) h = h

prefix-IsTrimmed : IsTrimmed prefix
unfolding strip_left is_space
prefix-IsTrimmed = record { front = refl; back = refl }

-- A value that nothing is stripped from is read as it was written.
value_read :
    (v : Text)
    → IsTrimmed v
    → IsLine v
    → v ≢ []
    → (is_header (strip (prefix ++ v)) ≡ false)
      × (iface_at (strip (prefix ++ v)) ≡ some (iface_of v))
      × IsLine (prefix ++ v)
unfolding iface_at iface_value
value_read v trimmed line filled =
    let same = strip-IsTrimmed (prefix ++ v) (append-IsTrimmed prefix v prefix-IsTrimmed trimmed) in
    (
      ap is_header same ∙ unfold is_header in refl,
      ap (λ l. iface_found (matched_value (key_rest (codes "interface") l))) same
          ∙ ap (λ o. iface_found (matched_value o))
              (key_rest-assignment (codes "interface") v (unfold to_lower in refl))
          ∙ matched v trimmed filled,
      any-append is_break prefix v ∙ unfold is_break in line,
    )
  where
    matched :
        (v : Text) → IsTrimmed v → v ≢ [] → iface_found (matched_value (some v)) ≡ some (iface_of v)
    matched [] trimmed filled = absurd (filled refl)
    matched (c ∷ v) trimmed filled = ap (λ w. some (iface_of w)) (strip-IsTrimmed (c ∷ v) trimmed)

safe-filled : (name : Text) → is_safe_name name ≡ true → name ≢ []
unfolding is_safe_name
safe-filled [] h = absurd (cc)
safe-filled (c ∷ name) h = λ e. cc

-- With no options, and with options that nothing is stripped from, on one line.
pub plain-ReadsBack :
    (name : Text) → is_safe_name name ≡ true → ReadsBack (record { name = name; options = [] })
unfolding iface_line
plain-ReadsBack name h =
    let solid = is_safe_name-solid name h in
    let back =
      value_read name (solid-IsTrimmed name solid) (solid-IsLine name solid) (safe-filled name h) in
    let read : iface_of name ≡ record { name = name; options = [] } =
      unfold iface_of in
      (ap (λ r. record { name = strip r.0; options = stripped_or_blank r.1 })
          (cut_comma-name name (safe_chars name h))
        ∙ ap (λ n. record { name = n; options = [] })
            (strip-IsTrimmed name (solid-IsTrimmed name solid))) in
    record { no_header = back.0; reads = back.1 ∙ ap some read; one_line = back.2 }

options-line :
    (name options : Text)
    → (options == []) ≡ false
    → iface_line (record { name = name; options = options }) ≡ prefix ++ (name ++ (b',' ∷ options))
unfolding iface_line
options-line name options given = rw given refl

pub options-ReadsBack :
    (name options : Text)
    → is_safe_name name ≡ true
    → IsTrimmed options
    → IsLine options
    → options ≢ []
    → ReadsBack (record { name = name; options = options })
options-ReadsBack name options h trimmed line filled =
    let solid = is_safe_name-solid name h in
    let own = solid-IsTrimmed name solid in
    let given : (options == []) ≡ false = ground (arith, filled, text_beq_iff options []) in
    let comma : IsTrimmed (b',' ∷ options) =
      append-IsTrimmed (b',' ∷ []) options
        (unfold strip_left is_space in record { front = refl; back = refl }) trimmed in
    let one_line : IsLine (name ++ (b',' ∷ options)) =
      any-append is_break name (b',' ∷ options)
      ∙ unfold is_break in ground (arith, line, solid-IsLine name solid) in
    let back =
      value_read (name ++ (b',' ∷ options)) (append-IsTrimmed name (b',' ∷ options) own comma)
        one_line (not_blank name options) in
    let read : iface_of (name ++ (b',' ∷ options)) ≡ record { name = name; options = options } =
      unfold iface_of in
      (ap (λ r. record { name = strip r.0; options = stripped_or_blank r.1 })
          (cut_comma-options name options (safe_chars name h))
        ∙ ap (λ n. record { name = n; options = strip options }) (strip-IsTrimmed name own)
        ∙ ap (λ o. record { name = name; options = o }) (strip-IsTrimmed options trimmed)) in
    let same = options-line name options given in
    record {
      no_header = ap (λ l. is_header (strip l)) same ∙ back.0;
      reads = ap (λ l. iface_at (strip l)) same ∙ back.1 ∙ ap some read;
      one_line = ap (any is_break) same ∙ back.2;
    }
  where
    not_blank : (name options : Text) → name ++ (b',' ∷ options) ≢ []
    not_blank [] options = λ e. cc
    not_blank (c ∷ name) options = λ e. cc
