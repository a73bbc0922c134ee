-- ===== src/Accel.antt =====
-- The readers of dawos_agent/services/accel.py: what they make of the output of `show sessions`,
-- `show stat` and `show ippool`, and the columns that may be asked for.
pub mod Extended
pub mod Statistics
pub mod Agree
pub mod Table
mod Tests
use dawos_agent.Prelude.{
  ℕ, Text, codes, text_eq, nat_eq, Bool, true, false, ◌==◌, ◌||◌, ◌&&◌, not, any, length, Option,
  none, some, List, [], ◌∷◌, ◌++◌, map, select, Result, ok, err, if◌then◌else◌,
}
use dawos_agent.Prelude.Dict.{Dict, put}
use dawos_agent.Prelude.Integers.{ℤ, pos, int_of}
use dawos_agent.Prelude.Texts.{strip, starts_with, ends_with, has_char, is_space}
use dawos_agent.Prelude.Texts.Lines.{lines_of}
use dawos_agent.Prelude.Texts.Split.{split_on, join_on, cut, words, strip_end}
use dawos_agent.Bulk.{is_rule}

abbrev pub one_of : Text → List Text → Bool
one_of t names = any (λ name. t == name) names

-- `",".join` of the tokens that are columns; without one, a ValueError with the text.
abbrev pub joined_or_fail : Text → List Text → Result Text Text
joined_or_fail columns [] = err (codes "No valid columns in: " ++ columns)
joined_or_fail columns (c ∷ cs) = ok (join_on b',' (c ∷ cs))

-- `ACCEL_SESSION_COLUMNS`
unfoldable pub session_columns : List Text
session_columns = map codes (
    "ifname" ∷ "username" ∷ "ip" ∷ "ip6" ∷ "ip6-dp" ∷ "calling-sid" ∷ "called-sid" ∷ "sid"
    ∷ "rate-limit" ∷ "type" ∷ "state" ∷ "uptime" ∷ "uptime-raw" ∷ "rx-bytes" ∷ "tx-bytes"
    ∷ "rx-bytes-raw" ∷ "tx-bytes-raw" ∷ "rx-pkts" ∷ "tx-pkts" ∷ "inbound-if" ∷ "service-name"
    ∷ "comp" ∷ "netns" ∷ [])

unfoldable pub validate_columns : Text → Result Text Text
validate_columns columns =
    joined_or_fail columns
      (select (λ c. one_of c session_columns) (map strip (split_on b',' columns)))

-- `dict(zip(cols, cells))`
unfoldable pub zipped : List Text → List Text → Dict Text Text → Dict Text Text
zipped [] cells d = d
zipped (c ∷ cols) [] d = d
zipped (c ∷ cols) (v ∷ cells) d = zipped cols cells (put c v d)

unfoldable pub cells_of : Text → List Text
cells_of line = map strip (split_on b'|' line)

abbrev pub is_row : Text → Bool
is_row line = has_char b'|' line && not (is_rule line)

-- The rows behind the columns.
unfoldable pub data_rows : List Text → List Text → List (Dict Text Text)
data_rows cols [] = []
data_rows cols (line ∷ lines) =
    let rest = data_rows cols lines in
    if is_row line && length (cells_of line) == length cols
    then zipped cols (cells_of line) [] ∷ rest
    else rest

-- The first row is that of the columns.
unfoldable pub table_rows : List Text → List (Dict Text Text)
table_rows [] = []
table_rows (line ∷ lines) =
    let rest = table_rows lines in if is_row line then data_rows (cells_of line) lines else rest

unfoldable pub parse_table : Text → List (Dict Text Text)
parse_table text = table_rows (lines_of text)

pub record IpPoolUsage : Type 0 where
  pub used : Text
  pub total : Text
  pub available : Text

abbrev pub pool_value : Text → Text → Text → Text
pool_value key s old = if starts_with (key ++ (b':' ∷ [])) s then strip (cut b':' s).1 else old

unfoldable pub pool_lines : List Text → IpPoolUsage → IpPoolUsage
pool_lines [] usage = usage
pool_lines (line ∷ lines) usage = pool_lines lines (record {
  used = pool_value (codes "used") (strip line) usage.used;
  total = pool_value (codes "total") (strip line) usage.total;
  available = pool_value (codes "available") (strip line) usage.available;
})

unfoldable pub parse_ippool : Text → IpPoolUsage
parse_ippool text =
    pool_lines (lines_of text)
      (record { used = codes "0"; total = codes "0"; available = codes "0" })

pub record Sessions : Type 0 where
  pub starting : ℤ
  pub active : ℤ
  pub finishing : ℤ

pub record Stat : Type 0 where
  pub uptime : Text
  pub cpu : Text
  pub sessions : Sessions

-- The statistics so far, and the section.
pub record StatScan : Type 0 where
  pub stat : Stat
  pub section : Option Text

-- A text that is no number leaves what was there.
abbrev pub or_old : Option ℤ → ℤ → ℤ
or_old none old = old
or_old (some n) old = n

abbrev pub is_sessions : Option Text → Bool
is_sessions none = false
is_sessions (some name) = name == codes "sessions"

-- A header is one word that ends in a colon.
abbrev pub section_at : Text → Option Text
section_at stripped =
    if ends_with (codes ":") stripped && not (has_char b' ' stripped)
    then some (strip_end b':' stripped)
    else none

abbrev pub after_colon : Text → Text
after_colon stripped = strip (cut b':' stripped).1

unfoldable pub set_session : Text → Text → Sessions → Sessions
set_session key v s =
    if key == codes "starting"
    then record {
      starting = or_old (int_of v) s.starting;
      active = s.active;
      finishing = s.finishing;
    }
    else if key == codes "active"
    then record {
      starting = s.starting;
      active = or_old (int_of v) s.active;
      finishing = s.finishing;
    }
    else if key == codes "finishing"
    then record {
      starting = s.starting;
      active = s.active;
      finishing = or_old (int_of v) s.finishing;
    }
    else s

abbrev pub with_uptime : Text → Stat → Stat
with_uptime t s = record { uptime = t; cpu = s.cpu; sessions = s.sessions }

abbrev pub with_cpu : Text → Stat → Stat
with_cpu t s = record { uptime = s.uptime; cpu = t; sessions = s.sessions }

abbrev pub with_sessions : Sessions → Stat → Stat
with_sessions t s = record { uptime = s.uptime; cpu = s.cpu; sessions = t }

-- A line without white space before it.
abbrev pub starts_line : Text → Bool
starts_line [] = false
starts_line (c ∷ cs) = not (is_space c)

unfoldable pub top_stat : Text → Stat → Stat
top_stat stripped s =
    if starts_with (codes "uptime:") stripped
    then with_uptime (after_colon stripped) s
    else if starts_with (codes "cpu:") stripped
    then with_cpu (strip_end b'%' (after_colon stripped)) s
    else s

unfoldable pub inner_stat : Option Text → Text → Stat → Stat
inner_stat section stripped s =
    if is_sessions section && has_char b':' stripped
    then with_sessions
        (set_session (strip (cut b':' stripped).0) (strip (cut b':' stripped).1) s.sessions) s
    else s

unfoldable pub stat_line : Text → StatScan → StatScan
stat_line raw s =
    if strip raw == []
    then s
    else if starts_line raw
    then record { stat = top_stat (strip raw) s.stat; section = section_at (strip raw) }
    else record { stat = inner_stat s.section (strip raw) s.stat; section = s.section }

unfoldable pub stat_lines : List Text → StatScan → StatScan
stat_lines [] s = s
stat_lines (raw ∷ lines) s = stat_lines lines (stat_line raw s)

abbrev pub no_stat : Stat
no_stat = record {
  uptime = [];
  cpu = codes "0";
  sessions = record { starting = pos 0; active = pos 0; finishing = pos 0 };
}

unfoldable pub parse_stat : Text → Stat
parse_stat text = (stat_lines (lines_of text) (record { stat = no_stat; section = none })).stat
