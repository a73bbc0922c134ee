-- ===== src/Sections.antt =====
-- The scan that the services share which read and edit accel-ppp.conf line by line: a line that begins
-- with a bracket opens a section, and only the lines of one section are looked at. The regular
-- expressions `key\s*=` and `key\s*=\s*(\d+)` with IGNORECASE are written out, for ASCII letters.
pub mod Latest
pub mod Edits
pub mod Written
pub mod Assign
pub mod Headers
pub mod Saves
pub mod Collected
use dawos_agent.Prelude.{
  ℕ, Text, codes, text_eq, nat_eq, Bool, true, false, ◌==◌, ◌||◌, ◌&&◌, map, any, Option, none,
  some, List, [], ◌∷◌, ◌++◌, if◌then◌else◌,
}
use dawos_agent.Prelude.Texts.{starts_with, strip, strip_left, to_lower}
use dawos_agent.Prelude.Texts.Lines.{join_lines}
use dawos_agent.Prelude.Texts.Numbers.{leading_number}

-- `line.startswith("[")`
unfoldable pub is_header : Text → Bool
is_header [] = false
is_header (c ∷ cs) = c == b'['

-- `line.lower() == header`
unfoldable pub opens : Text → Text → Bool
opens header line = map to_lower line == header

-- Whether the scan is in the section after this line.
unfoldable pub inside_after : (Text → Bool) → Text → Bool → Bool
inside_after opening raw inside = if is_header (strip raw) then opening (strip raw) else inside

-- Some line opens the section.
unfoldable pub has_section : (Text → Bool) → List Text → Bool
has_section opening [] = false
has_section opening (raw ∷ lines) =
    (is_header (strip raw) && opening (strip raw)) || has_section opening lines

-- What stands behind the key, in any case, and the spaces after it.
unfoldable pub after_key : Text → Text → Option Text
after_key [] line = some (strip_left line)
after_key (k ∷ key) [] = none
after_key (k ∷ key) (c ∷ line) =
    let rest = after_key key line in if to_lower c == k then rest else none

abbrev pub after_equals : Option Text → Option Text
after_equals none = none
after_equals (some []) = none
after_equals (some (c ∷ cs)) = if c == b'=' then some cs else none

-- `re.match(r"key\s*=", line, re.IGNORECASE)`: the text behind the sign.
unfoldable pub key_rest : Text → Text → Option Text
key_rest key line = after_equals (after_key key line)

abbrev pub is_some {ℓ} : {A : Type ℓ} → Option A → Bool
is_some none = false
is_some (some a) = true

-- The number of `re.match(r"key\s*=\s*(\d+)", line, re.IGNORECASE)`.
abbrev pub number_at : Option Text → Option ℕ
number_at none = none
number_at (some rest) = leading_number (strip_left rest)

unfoldable pub key_number : Text → Text → Option ℕ
key_number key line = number_at (key_rest key line)

-- `"\n".join(out) + "\n"`
unfoldable pub new_content : List Text → Text
new_content out = join_lines out ++ (10 ∷ [])

-- The last value that `read` finds in the lines of the section, from the value `v` on.
module _ {A : Type 0} (opening : Text → Bool) (read : Text → Option A) where
  unfoldable pub value_after : Text → Bool → A → A
  value_after raw inside v =
      if is_header (strip raw)
      then v
      else if inside
      then elim (read (strip raw)) [ none ↦ v | some a ↦ a ]
      else v

  unfoldable pub latest : List Text → Bool → A → A
  latest [] inside v = v
  latest (raw ∷ lines) inside v =
      latest lines (inside_after opening raw inside) (value_after raw inside v)

abbrev pub before_rest {ℓ} : {A : Type ℓ} → Option A → List A → List A
before_rest none rest = rest
before_rest (some a) rest = a ∷ rest

-- All that `read` finds in the lines of the sections, in order.
module _ {A : Type 0} (opening : Text → Bool) (read : Text → Option A) where
  unfoldable pub collect : List Text → Bool → List A
  collect [] inside = []
  collect (raw ∷ lines) inside =
      let after_header = collect lines (opening (strip raw)) in
      let rest = collect lines inside in
      if is_header (strip raw)
      then after_header
      else if inside
      then before_rest (read (strip raw)) rest
      else rest
