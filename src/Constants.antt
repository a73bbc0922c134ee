-- ===== src/Constants.antt =====
-- The patterns of dawos_agent/constants.py that requests are checked against.
pub mod Laws
use dawos_agent.Prelude.{
  ℕ, Text, nat_eq, Bool, true, false, ◌==◌, ◌||◌, ◌&&◌, not, leb, all, List, [], ◌∷◌,
}
use dawos_agent.Prelude.Texts.Numbers.{is_digit}

abbrev pub is_letter : ℕ → Bool
is_letter c = (leb b'a' c && leb c b'z') || (leb b'A' c && leb c b'Z')

unfoldable pub is_name_char : ℕ → Bool
is_name_char c =
    is_letter c || is_digit c || (c == b'.') || (c == b'_') || (c == b'@') || (c == b'-')

-- `RE_SAFE_NAME`
unfoldable pub is_safe_name : Text → Bool
is_safe_name [] = false
is_safe_name (c ∷ cs) = all is_name_char (c ∷ cs)
