-- ===== src/Prelude/Texts/Split.antt =====
-- `str.split`, `str.replace` of one character, `shlex.quote`, and that a split text is found again.
use Prim.Native.Nat.{ℕ}
use mathlib.Core.Path.{◌≡◌, refl, ap, ◌∙◌}
use mathlib.Core.Bool.{Bool, true, false, ◌&&◌, ◌||◌, not}
use mathlib.Core.List.{List, [], ◌∷◌, ◌++◌}
use native.Mathlib.Omega.{arith}
use dawos_agent.Prelude.Tests.{◌==◌, nat_eq, leb, if◌then◌else◌}
use dawos_agent.Prelude.Lists.{any, all, select, All}
use dawos_agent.Prelude.Texts.{Text, codes, has_char, is_space}

-- The first part grows by a character.
abbrev grow : ℕ → List Text → List Text
grow c [] = (c ∷ []) ∷ []
grow c (part ∷ parts) = (c ∷ part) ∷ parts

-- `text.split(sep)` at one character
unfoldable pub split_on : ℕ → Text → List Text
split_on sep [] = [] ∷ []
split_on sep (c ∷ cs) = let rest = split_on sep cs in if c == sep then [] ∷ rest else grow c rest

split_spaces : Text → List Text
unfolding is_space
split_spaces [] = [] ∷ []
split_spaces (c ∷ cs) = let rest = split_spaces cs in if is_space c then [] ∷ rest else grow c rest

abbrev has_some : Text → Bool
has_some [] = false
has_some (c ∷ cs) = true

-- `text.split()`
unfoldable pub words : Text → List Text
unfolding split_spaces
words text = select has_some (split_spaces text)

-- `text.replace(c, "")`
abbrev pub remove_char : ℕ → Text → Text
remove_char c text = select (λ d. not (d == c)) text

-- `text.split(sep, 1)` where there is one: what is before it and what is behind it.
unfoldable pub cut : ℕ → Text → Text × Text
cut sep [] = ([], [])
cut sep (c ∷ cs) = if c == sep then ([], cs) else (c ∷ (cut sep cs).0, (cut sep cs).1)

-- `text.rstrip(c)` of one character
unfoldable pub strip_end : ℕ → Text → Text
strip_end c [] = []
strip_end c (d ∷ ds) =
    let rest = strip_end c ds in if (d == c) && not (has_some rest) then [] else d ∷ rest

-- A character that `shlex.quote` leaves alone.
abbrev pub is_shell_safe : ℕ → Bool
is_shell_safe c =
    (leb b'a' c && leb c b'z')
    || (leb b'A' c && leb c b'Z')
    || (leb b'0' c && leb c b'9')
    || any (λ d. c == d) (codes "_@%+=:,./-")

abbrev double_quoted : Text → Text
double_quoted [] = []
double_quoted (c ∷ cs) =
    let rest = double_quoted cs in if c == b'\'' then codes "'\"'\"'" ++ rest else c ∷ rest

-- `shlex.quote`
unfoldable pub quote : Text → Text
quote [] = codes "''"
quote (c ∷ cs) =
    if all is_shell_safe (c ∷ cs)
    then c ∷ cs
    else codes "'" ++ (double_quoted (c ∷ cs) ++ codes "'")

pub split_on-append :
    (sep : ℕ) (s t : Text)
    → has_char sep s ≡ false
    → split_on sep (s ++ (sep ∷ t)) ≡ s ∷ split_on sep t
unfolding split_on
split_on-append sep [] t h = ground (arith)
split_on-append sep (c ∷ s) t h = ground (arith, split_on-append sep s t)

pub split_on-whole : (sep : ℕ) (s : Text) → has_char sep s ≡ false → split_on sep s ≡ s ∷ []
unfolding split_on
split_on-whole sep [] h = refl
split_on-whole sep (c ∷ s) h = ground (arith, split_on-whole sep s)

-- The parts with the character between them.
unfoldable pub join_on : ℕ → List Text → Text
join_on sep [] = []
join_on sep (part ∷ []) = part
join_on sep (part ∷ next ∷ parts) = part ++ (sep ∷ join_on sep (next ∷ parts))

pub split_on-join_on :
    (sep : ℕ) (part : Text) (parts : List Text)
    → All (λ p. has_char sep p ≡ false) (part ∷ parts)
    → split_on sep (join_on sep (part ∷ parts)) ≡ part ∷ parts
unfolding join_on
split_on-join_on sep part [] (h, hs) = split_on-whole sep part h
split_on-join_on sep part (next ∷ parts) (h, hs) =
    split_on-append sep part (join_on sep (next ∷ parts)) h
    ∙ ap (λ ps. part ∷ ps) (split_on-join_on sep next parts hs)
