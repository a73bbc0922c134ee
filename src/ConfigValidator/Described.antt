-- ===== src/ConfigValidator/Described.antt =====
-- Which configurations are valid, said without the issues.
use dawos_agent.Prelude.{
  Text, codes, text_eq, nat_eq, Bool, true, false, ◌==◌, ◌||◌, ◌&&◌, not, any, all, leb, Option,
  none, some, List, [], ◌∷◌, if◌then◌else◌,
}
use dawos_agent.Prelude.Texts.{strip, starts_with, has_char}
use dawos_agent.Prelude.Texts.Split.{cut, split_on}
use dawos_agent.ConfigValidator.Patterns.{section_name, key_value, is_ip, is_cidr, is_port}
use dawos_agent.ConfigValidator.Checks.{one_of, port_keys, first_part, last_part, port_of}

-- A port in digits is from 1 to 65535.
abbrev pub is_good_port : Text → Bool
is_good_port t = not (is_port t) || (leb 1 (port_of t) && leb (port_of t) 65535)

-- The ports of a line of several values.
abbrev pub is_good_part : Text → Bool
is_good_part part =
    not (has_char b'=' part)
    || not (one_of (strip (cut b'=' part).0) port_keys)
    || is_good_port (strip (cut b'=' part).1)

abbrev pub has_good_ports : Text → Text → Bool
has_good_ports key v =
    if one_of key port_keys
    then is_good_port (if has_char b':' v then last_part b':' v else v)
    else not (has_char b',' v) || all (λ part. is_good_part (strip part)) (split_on b',' v)

abbrev pub is_skipped : Text → Bool
is_skipped line = (line == []) || starts_with (codes "#") line

abbrev pub is_named : Option Text → Bool
is_named none = false
is_named (some name) = true

-- No line but blank ones and comments stands before the first header.
unfoldable pub has_no_orphan : List Text → Bool
has_no_orphan [] = true
has_no_orphan (raw ∷ lines) =
    let rest = has_no_orphan lines in
    if is_skipped (strip raw) then rest else is_named (section_name (strip raw))

abbrev pub is_modules : Option Text → Bool
is_modules none = false
is_modules (some name) = codes "modules" == name

abbrev pub has_modules : List Text → Bool
has_modules lines =
    any (λ raw. not (is_skipped (strip raw)) && is_modules (section_name (strip raw))) lines

module _ (is_network is_address : Text → Bool) where
  abbrev pub is_good_host : Text → Bool
  is_good_host host = not (is_ip host) || is_address host

  -- What looks like an address or a network is one.
  abbrev pub has_good_addresses : Text → Bool
  has_good_addresses v =
      if is_cidr v
      then is_network v
      else if is_ip v
      then is_address v
      else (not (has_char b',' v) || is_good_host (strip (first_part b',' v)))
        && (not (has_char b':' v) || has_char b',' v || is_good_host (first_part b':' v))

  abbrev pub is_good_value : Option (Text × Text) → Bool
  is_good_value none = true
  is_good_value (some (key, rest)) =
      (strip rest == []) || (has_good_addresses (strip rest) && has_good_ports key (strip rest))

  -- The value of a line is good, if it is a line with a value.
  abbrev pub is_good_line : Text → Bool
  is_good_line line =
      is_skipped line || is_named (section_name line) || is_good_value (key_value line)

  abbrev pub is_accepted : List Text → Bool
  is_accepted lines =
      has_modules lines && has_no_orphan lines && all (λ raw. is_good_line (strip raw)) lines
