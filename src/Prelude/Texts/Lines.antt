-- ===== src/Prelude/Texts/Lines.antt =====
-- `str.splitlines`, `"\n".join`, and that the lines of a joined text are the lines again.
use Prim.Native.Nat.{ℕ}
use mathlib.Core.Path.{◌≡◌, refl, ap, ◌∙◌}
use mathlib.Core.Logic.{inl, inr}
use mathlib.Core.Bool.{Bool, false, ◌||◌, ◌&&◌}
use mathlib.Core.List.{List, [], ◌∷◌, ◌++◌, reverse, reverse_aux, append_assoc, reverse-cons}
use native.Mathlib.Omega.{arith}
use dawos_agent.Prelude.Tests.{◌==◌, nat_eq, if◌then◌else◌, Bool-cases}
use dawos_agent.Prelude.Lists.{any, All}
use dawos_agent.Prelude.Texts.{Text}

-- `str.splitlines` breaks at these, and at a carriage return with its line feed once.
unfoldable pub is_break : ℕ → Bool
is_break c =
    (c == 10)
    || (c == 11)
    || (c == 12)
    || (c == 13)
    || (c == 28)
    || (c == 29)
    || (c == 30)
    || (c == 133)
    || (c == 8232)
    || (c == 8233)

-- `line` is the line so far, from its end; `returned` tells that the last character was `\r`.
unfoldable pub split_lines : Text → Text → Bool → List Text
unfolding is_break
split_lines [] [] returned = []
split_lines [] (c ∷ line) returned = reverse (c ∷ line) ∷ []
split_lines (c ∷ cs) line returned =
    let broken = split_lines cs [] (c == 13) in
    let skipped = split_lines cs line false in
    let grown = split_lines cs (c ∷ line) false in
    if returned && c == 10 then skipped else if is_break c then reverse line ∷ broken else grown

unfoldable pub lines_of : Text → List Text
unfolding split_lines
lines_of text = split_lines text [] false

-- `"\n".join(lines)`
unfoldable pub join_lines : List Text → Text
join_lines [] = []
join_lines (line ∷ []) = line
join_lines (line ∷ next ∷ rest) = line ++ (10 ∷ join_lines (next ∷ rest))

-- The text stands on one line.
abbrev pub IsLine : Text → Type 0
IsLine line = any is_break line ≡ false

pub any-append : (p : ℕ → Bool) (s t : Text) → any p (s ++ t) ≡ (any p s || any p t)
any-append p [] t = refl
any-append p (c ∷ s) t = ground (arith, any-append p s t)

reverse-IsLine :
    (c : ℕ) (line : Text) → is_break c ≡ false → IsLine (reverse line) → IsLine (reverse (c ∷ line))
reverse-IsLine c line plain h =
    rw (reverse-cons c line, any-append is_break (reverse line) (c ∷ [])) (ground (arith, h))

split_lines-IsLine :
    (cs line : Text) (returned : Bool)
    → IsLine (reverse line)
    → All IsLine (split_lines cs line returned)
unfolding split_lines
split_lines-IsLine [] [] returned h = tt
split_lines-IsLine [] (c ∷ line) returned h = (h, tt)
split_lines-IsLine (c ∷ cs) line returned h = elim (Bool-cases (returned && c == 10)) [
  | inl pair ↦ rw pair (split_lines-IsLine cs line false h)
  | inr single ↦ rw single (elim (Bool-cases (is_break c)) [
    | inl ends ↦ rw ends (h, split_lines-IsLine cs [] (c == 13) refl)
    | inr plain ↦ rw plain (split_lines-IsLine cs (c ∷ line) false (reverse-IsLine c line plain h))
  ])
]

pub lines_of-IsLine : (text : Text) → All IsLine (lines_of text)
unfolding lines_of
lines_of-IsLine text = split_lines-IsLine text [] false refl

-- A line and its end are read as that line.
split_lines-append :
    (l rest line : Text)
    → IsLine l
    → split_lines (l ++ (10 ∷ rest)) line false ≡ reverse_aux line l ∷ split_lines rest [] false
unfolding split_lines
split_lines-append [] rest line h = unfold is_break in refl
split_lines-append (c ∷ l) rest line h =
    let plain : is_break c ≡ false = ground (arith, h) in
    let others : IsLine l = ground (arith, h) in
    rw plain (split_lines-append l rest (c ∷ line) others)

lines_of-cons : (l rest : Text) → IsLine l → lines_of (l ++ (10 ∷ rest)) ≡ l ∷ lines_of rest
unfolding lines_of
lines_of-cons l rest h = split_lines-append l rest [] h

-- The lines of a text that is joined from lines, with a line end behind, are those lines.
pub lines_of-join_lines :
    (l : Text) (ls : List Text)
    → All IsLine (l ∷ ls)
    → lines_of (join_lines (l ∷ ls) ++ (10 ∷ [])) ≡ l ∷ ls
unfolding join_lines lines_of
lines_of-join_lines l [] (h, hs) = lines_of-cons l [] h
lines_of-join_lines l (m ∷ ls) (h, hs) =
    ap lines_of (append_assoc l (10 ∷ join_lines (m ∷ ls)) (10 ∷ []))
    ∙ lines_of-cons l (join_lines (m ∷ ls) ++ (10 ∷ [])) h
    ∙ ap (λ r. l ∷ r) (lines_of-join_lines m ls hs)

-- A text of no lines at all is read as one blank line.
pub lines_of-blank : lines_of (join_lines [] ++ (10 ∷ [])) ≡ [] ∷ []
unfolding lines_of join_lines
lines_of-blank = unfold is_break in refl
