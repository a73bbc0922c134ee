-- ===== src/Pppoe/Rebuilt.antt =====
-- What is listed from the rebuilt lines.
use dawos_agent.Prelude.{
  Text, text_eq, nat_eq, Bool, true, false, ◌||◌, ◌&&◌, not, some, List, [], ◌∷◌, ◌++◌, ◌≡◌, refl,
  sym, ap, ◌∙◌, if◌then◌else◌, Bool-cases, Option-cases, inl, inr, All,
}
use mathlib.Core.List.{append-nil}
use dawos_agent.Prelude.Texts.{strip}
use dawos_agent.Prelude.Texts.Lines.{IsLine}
use dawos_agent.Sections.{is_header, collect, before_rest, is_some}
use dawos_agent.Sections.Collected.{collect-header, collect-line}
use dawos_agent.Pppoe.{
  PppoeInterface, in_pppoe_section, iface_value, iface_found, iface_at, iface_line, iface_lines,
  rebuild_lines,
}

-- The line that is written for an interface is read as that interface.
pub record ReadsBack (iface : PppoeInterface) : Type 0 where
  pub no_header : is_header (strip (iface_line iface)) ≡ false
  pub reads : iface_at (strip (iface_line iface)) ≡ some iface
  pub one_line : IsLine (iface_line iface)

-- The interfaces once for every [pppoe] section.
unfoldable pub for_each_section : List PppoeInterface → List Text → List PppoeInterface
for_each_section ifaces [] = []
for_each_section ifaces (raw ∷ lines) =
    if is_header (strip raw) && in_pppoe_section (strip raw)
    then ifaces ++ for_each_section ifaces lines
    else for_each_section ifaces lines

abbrev pub interfaces_in : List Text → Bool → List PppoeInterface
interfaces_in lines inside = collect in_pppoe_section iface_at lines inside

pub lines-listed :
    (ifaces : List PppoeInterface) (out : List Text)
    → All ReadsBack ifaces
    → interfaces_in (iface_lines ifaces ++ out) true ≡ ifaces ++ interfaces_in out true
lines-listed [] out h = refl
lines-listed (iface ∷ ifaces) out (h, hs) =
    collect-line in_pppoe_section iface_at (iface_line iface) (iface_lines ifaces ++ out) true
      h.no_header
    ∙ ap (λ o. before_rest o (interfaces_in (iface_lines ifaces ++ out) true)) h.reads
    ∙ ap (λ l. iface ∷ l) (lines-listed ifaces out hs)

-- What the section that is scanned has yet to list.
abbrev pub due : List PppoeInterface → Bool → Bool → List PppoeInterface
due ifaces inside written = if inside && not written then ifaces else []

-- The rebuilding at a line, by what the line is.
module _ (ifaces : List PppoeInterface) (raw : Text) (lines : List Text) where
  abbrev pub flag : Bool → Bool → Bool
  flag inside written =
      if in_pppoe_section (strip raw) then false else (inside && not written) || written

  abbrev pub after_header : Bool → Bool → List Text
  after_header inside written =
      raw ∷ rebuild_lines ifaces lines (in_pppoe_section (strip raw)) (flag inside written)

  pub rebuild-header :
      (inside written : Bool)
      → is_header (strip raw) ≡ true
      → rebuild_lines ifaces (raw ∷ lines) inside written ≡ (
          if inside && not written
          then iface_lines ifaces ++ after_header inside written
          else after_header inside written)
  unfolding rebuild_lines
  rebuild-header inside written opened = rw opened refl

  pub rebuild-iface :
      (written : Bool)
      → is_header (strip raw) ≡ false
      → is_some (iface_value (strip raw)) ≡ true
      → rebuild_lines ifaces (raw ∷ lines) true written ≡ (
          if written
          then rebuild_lines ifaces lines true true
          else iface_lines ifaces ++ rebuild_lines ifaces lines true true)
  unfolding rebuild_lines
  rebuild-iface written plain found = rw (plain, found) refl

  pub rebuild-other :
      (inside written : Bool)
      → is_header (strip raw) ≡ false
      → (inside && is_some (iface_value (strip raw))) ≡ false
      → rebuild_lines ifaces (raw ∷ lines) inside written
        ≡ raw ∷ rebuild_lines ifaces lines inside written
  unfolding rebuild_lines
  rebuild-other inside written plain other = rw (plain, other) refl

  for_each-header :
      (inside written : Bool)
      → is_header (strip raw) ≡ true
      → due ifaces (in_pppoe_section (strip raw)) (flag inside written)
          ++ for_each_section ifaces lines
        ≡ for_each_section ifaces (raw ∷ lines)
  unfolding for_each_section
  for_each-header inside written opened = elim (Bool-cases (in_pppoe_section (strip raw))) [
    | inl opens ↦ rw (opened, opens) refl
    | inr other ↦ rw (opened, other) refl
  ]

  for_each-line :
      is_header (strip raw) ≡ false
      → for_each_section ifaces (raw ∷ lines) ≡ for_each_section ifaces lines
  unfolding for_each_section
  for_each-line plain = rw plain refl

  other-line :
      (inside : Bool) (out : List Text)
      → is_header (strip raw) ≡ false
      → (inside && is_some (iface_value (strip raw))) ≡ false
      → interfaces_in (raw ∷ out) inside ≡ interfaces_in out inside
  unfolding iface_at
  other-line false out plain other = collect-line in_pppoe_section iface_at raw out false plain
  other-line true out plain other = elim (Option-cases (iface_value (strip raw))) [
    | inl nothing ↦
        collect-line in_pppoe_section iface_at raw out true plain
        ∙ ap (λ o. before_rest (iface_found o) (interfaces_in out true)) nothing
    | inr (value, found) ↦ absurd (cc (other, ap is_some found))
  ]

-- The cases of a line, for what the lines behind it list.
module _ (ifaces : List PppoeInterface) (h : All ReadsBack ifaces) (raw : Text) (lines : List Text)
    (ih : (inside written : Bool)
      → interfaces_in (rebuild_lines ifaces lines inside written) inside
        ≡ due ifaces inside written ++ for_each_section ifaces lines) where
  next :
      (inside written : Bool)
      → is_header (strip raw) ≡ true
      → interfaces_in (after_header ifaces raw lines inside written) inside
        ≡ for_each_section ifaces (raw ∷ lines)
  next inside written opened =
      collect-header in_pppoe_section iface_at raw _ inside opened
      ∙ ih (in_pppoe_section (strip raw)) (flag ifaces raw lines inside written)
      ∙ for_each-header ifaces raw lines inside written opened

  headed :
      (inside written : Bool)
      → is_header (strip raw) ≡ true
      → interfaces_in
          (if inside && not written
            then iface_lines ifaces ++ after_header ifaces raw lines inside written
            else after_header ifaces raw lines inside written)
          inside
        ≡ due ifaces inside written ++ for_each_section ifaces (raw ∷ lines)
  headed false written opened = next false written opened
  headed true true opened = next true true opened
  headed true false opened =
      lines-listed ifaces (after_header ifaces raw lines true false) h
      ∙ ap (λ l. ifaces ++ l) (next true false opened)

  listing :
      (inside written : Bool)
      → is_header (strip raw) ≡ false
      → (inside && is_some (iface_value (strip raw))) ≡ true
      → interfaces_in (rebuild_lines ifaces (raw ∷ lines) inside written) inside
        ≡ due ifaces inside written ++ for_each_section ifaces (raw ∷ lines)
  listing false written plain found = absurd (cc)
  listing true true plain found =
      ap (λ l. interfaces_in l true) (rebuild-iface ifaces raw lines true plain found)
      ∙ ih true true
      ∙ sym (for_each-line ifaces raw lines plain)
  listing true false plain found =
      ap (λ l. interfaces_in l true) (rebuild-iface ifaces raw lines false plain found)
      ∙ lines-listed ifaces (rebuild_lines ifaces lines true true) h
      ∙ ap (λ l. ifaces ++ l) (ih true true ∙ sym (for_each-line ifaces raw lines plain))

-- The rebuilt lines list the interfaces once for every [pppoe] section, and no other.
pub rebuild_lines-listed :
    (ifaces : List PppoeInterface)
    → All ReadsBack ifaces
    → (lines : List Text) (inside written : Bool)
    → interfaces_in (rebuild_lines ifaces lines inside written) inside
      ≡ due ifaces inside written ++ for_each_section ifaces lines
rebuild_lines-listed ifaces h [] false written =
    unfold rebuild_lines for_each_section collect in refl
rebuild_lines-listed ifaces h [] true true = unfold rebuild_lines for_each_section collect in refl
rebuild_lines-listed ifaces h [] true false =
    unfold rebuild_lines for_each_section in
    (ap (λ l. interfaces_in l true) (sym (append-nil (iface_lines ifaces)))
      ∙ lines-listed ifaces [] h
      ∙ unfold collect in refl)
rebuild_lines-listed ifaces h (raw ∷ lines) inside written =
    elim (Bool-cases (is_header (strip raw))) [
      | inl opened ↦
          rw (rebuild-header ifaces raw lines inside written opened)
            (headed ifaces h raw lines (rebuild_lines-listed ifaces h lines) inside written opened)
      | inr plain ↦ elim (Bool-cases (inside && is_some (iface_value (strip raw)))) [
        | inl found ↦
            listing ifaces h raw lines (rebuild_lines-listed ifaces h lines) inside written plain
              found
        | inr other ↦ rw (rebuild-other ifaces raw lines inside written plain other) (
            other-line ifaces raw lines inside (rebuild_lines ifaces lines inside written) plain
              other
            ∙ rebuild_lines-listed ifaces h lines inside written
            ∙ ap (λ l. due ifaces inside written ++ l) (sym (for_each-line ifaces raw lines plain)))
      ]
    ]
