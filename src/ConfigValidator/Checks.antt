-- ===== src/ConfigValidator/Checks.antt =====
-- The checks of one value in dawos_agent/services/config_validator.py.
use dawos_agent.Prelude.{
  ℕ, Text, codes, text_eq, nat_eq, Bool, ◌==◌, ◌||◌, ◌&&◌, not, any, ltb, leb, length, take, List,
  [], ◌∷◌, ◌++◌, if◌then◌else◌,
}
use dawos_agent.Prelude.Texts.{strip, has_char}
use dawos_agent.Prelude.Texts.Numbers.{decimal, value}
use dawos_agent.Prelude.Texts.Split.{split_on, cut}
use dawos_agent.ConfigValidator.Patterns.{is_ip, is_cidr, is_port}

pub data Severity : Type 0 where
  error warning info : Severity

pub record Issue : Type 0 where
  pub severity : Severity
  pub line : ℕ
  pub section : Text
  pub message : Text

abbrev pub one_of : Text → List Text → Bool
one_of t names = any (λ name. t == name) names

abbrev pub bare_key_sections : List Text
bare_key_sections = codes "modules" ∷ codes "ip-pool" ∷ []

abbrev pub port_keys : List Text
port_keys =
    codes "tcp" ∷ codes "auth-port" ∷ codes "acct-port" ∷ codes "port" ∷ codes "cli-port" ∷ []

unfoldable pub truncated : Text → Text
truncated text = if leb (length text) 60 then text else take 60 text ++ codes "..."

-- The first part of `text.split(sep)`.
unfoldable pub first_part : ℕ → Text → Text
first_part sep [] = []
first_part sep (c ∷ cs) = if c == sep then [] else c ∷ first_part sep cs

-- `text.rsplit(sep, 1)[-1]`
unfoldable pub last_part : ℕ → Text → Text
last_part sep [] = []
last_part sep (c ∷ cs) =
    let rest = last_part sep cs in if has_char sep cs then rest else if c == sep then cs else c ∷ cs

abbrev pub out_of_range : ℕ → Bool
out_of_range port = ltb port 1 || ltb 65535 port

-- Python's `int` of a text of digits, without its limit on their number.
abbrev pub port_of : Text → ℕ
port_of = value 0

module _ (lineno : ℕ) (section key : Text) where
  abbrev error_at : Text → List Issue
  error_at message =
      record { severity = error; line = lineno; section = section; message = message } ∷ []

  abbrev pub bad_value : Text → Text → List Issue
  bad_value what shown = error_at (what ++ (codes " for '" ++ (key ++ (codes "': " ++ shown))))

  abbrev pub check_port : Text → List Issue
  check_port port_str =
      if is_port port_str && out_of_range (port_of port_str)
      then bad_value (codes "Port out of range (1-65535)") (decimal (port_of port_str))
      else []

module _ (is_network is_address : Text → Bool) where
  module _ (lineno : ℕ) (section key : Text) where
    -- An address that looks like one and is none.
    abbrev pub check_address : Text → Text → List Issue
    check_address shown host =
        if is_ip host && not (is_address host)
        then bad_value lineno section key (codes "Invalid IP address") shown
        else []

    unfoldable pub check_ip_values : Text → List Issue
    check_ip_values v =
        if is_cidr v
        then (if is_network v
            then []
            else bad_value lineno section key (codes "Invalid CIDR notation") v)
        else if is_ip v
        then check_address v v
        else ((if has_char b',' v
              then check_address (strip (first_part b',' v)) (strip (first_part b',' v))
              else [])
            ++ (if has_char b':' v && not (has_char b',' v)
                then check_address (first_part b':' v) (first_part b':' v)
                else []))

-- A part of a line of several values.
abbrev pub check_sub_key : ℕ → Text → Text → List Issue
check_sub_key lineno section part =
    if has_char b'=' part && one_of (strip (cut b'=' part).0) port_keys
    then check_port lineno section (strip (cut b'=' part).0) (strip (cut b'=' part).1)
    else []

unfoldable pub check_sub_keys : ℕ → Text → List Text → List Issue
check_sub_keys lineno section [] = []
check_sub_keys lineno section (part ∷ parts) =
    check_sub_key lineno section (strip part) ++ check_sub_keys lineno section parts

unfoldable pub check_port_value : ℕ → Text → Text → Text → List Issue
check_port_value lineno section key v =
    if one_of key port_keys
    then check_port lineno section key (if has_char b':' v then last_part b':' v else v)
    else if has_char b',' v
    then check_sub_keys lineno section (split_on b',' v)
    else []
