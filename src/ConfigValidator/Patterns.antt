-- ===== src/ConfigValidator/Patterns.antt =====
-- The patterns of dawos_agent/services/config_validator.py, with ASCII digits.
use dawos_agent.Prelude.{
  ℕ, Text, text_eq, nat_eq, Bool, false, ◌==◌, ◌||◌, ◌&&◌, not, all, leb, length, Option, none,
  some, List, [], ◌∷◌, if◌then◌else◌,
}
use dawos_agent.Prelude.Texts.{strip_left}
use dawos_agent.Prelude.Texts.Numbers.{is_digit}
use dawos_agent.Prelude.Texts.Split.{split_on}
use dawos_agent.Constants.{is_letter}

abbrev put_before : ℕ → Option Text → Option Text
put_before c none = none
put_before c (some t) = some (c ∷ t)

abbrev pub nonempty : Option Text → Option Text
nonempty none = none
nonempty (some []) = none
nonempty (some (c ∷ cs)) = some (c ∷ cs)

-- What is before a last `]` that is the only one.
abbrev pub closed : Text → Option Text
closed [] = none
closed (c ∷ []) = if c == b']' then some [] else none
closed (c ∷ d ∷ cs) = if c == b']' then none else put_before c (closed (d ∷ cs))

-- `_SECTION_RE`
unfoldable pub section_name : Text → Option Text
section_name [] = none
section_name (c ∷ cs) = if c == b'[' then nonempty (closed cs) else none

abbrev pub is_key_char : ℕ → Bool
is_key_char c = is_letter c || is_digit c || (c == b'_') || (c == b'-')

-- The key characters at the beginning, and what follows them.
unfoldable pub key_run : Text → Text × Text
key_run [] = ([], [])
key_run (c ∷ cs) = if is_key_char c then (c ∷ (key_run cs).0, (key_run cs).1) else ([], c ∷ cs)

abbrev with_sign : Text → Text → Option (Text × Text)
with_sign [] rest = none
with_sign (c ∷ cs) [] = none
with_sign (c ∷ cs) (d ∷ rest) = if d == b'=' then some (c ∷ cs, rest) else none

-- `_KEY_VALUE_RE`: the key, and what is behind the sign.
unfoldable pub key_value : Text → Option (Text × Text)
key_value line = with_sign (key_run line).0 (strip_left (key_run line).1)

abbrev short_number : ℕ → Text → Bool
short_number most t = not (t == []) && leb (length t) most && all is_digit t

abbrev four_numbers : List Text → Bool
four_numbers (a ∷ b ∷ c ∷ d ∷ []) =
    short_number 3 a && short_number 3 b && short_number 3 c && short_number 3 d
four_numbers parts = false

-- `_IP_RE`
unfoldable pub is_ip : Text → Bool
is_ip t = four_numbers (split_on b'.' t)

abbrev with_length : List Text → Bool
with_length (ip ∷ n ∷ []) = four_numbers (split_on b'.' ip) && short_number 2 n
with_length parts = false

-- `_CIDR_RE`
unfoldable pub is_cidr : Text → Bool
is_cidr t = with_length (split_on b'/' t)

-- `_PORT_RE`
unfoldable pub is_port : Text → Bool
is_port t = not (t == []) && all is_digit t
