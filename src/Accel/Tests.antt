-- ===== src/Accel/Tests.antt =====
-- Runs of the readers, and their theorems at concrete inputs.
use dawos_agent.Prelude.{
  Text, codes, text_eq, nat_eq, true, false, any, none, some, List, [], ◌∷◌, map, All, ok, ◌≡◌,
  refl,
}
use dawos_agent.Prelude.Integers.{pos, negsuc, int_of, number_from}
use dawos_agent.Prelude.Texts.{strip, strip_left, starts_with, ends_with, is_space}
use dawos_agent.Prelude.Texts.Lines.{lines_of, join_lines}
use dawos_agent.Prelude.Texts.Split.{split_on, join_on, cut, strip_end}
use dawos_agent.Accel.{
  one_of, session_columns, validate_columns, zipped, is_row, parse_table, parse_stat, stat_lines,
  stat_line, top_stat, inner_stat, set_session,
}
use dawos_agent.Accel.Statistics.{parse_stat_extended}
use dawos_agent.Accel.Agree.{is_open_radius, SameStat, parse_stat_extended-SameStat}
use dawos_agent.Accel.Table.{row_line, parse_table-printed, validate_columns-safe}

abbrev output : Text
output = join_lines (
    codes "uptime: 0.00:10:00"
    ∷ codes "cpu: 3%"
    ∷ codes "sessions:"
    ∷ codes "  starting: 1"
    ∷ codes "  active: 1_000"
    ∷ codes "  finishing: -"
    ∷ codes "pppoe:"
    ∷ codes "  active: 7"
    ∷ codes "radius(1, 10.0.0.1):"
    ∷ codes "  state: active"
    ∷ [])

reads_int : int_of (codes " -12 ") ≡ some (negsuc 11)
unfolding int_of number_from strip strip_left is_space
reads_int = refl

reads_stat :
    (parse_stat output).sessions ≡ record { starting = pos 1; active = pos 1000; finishing = pos 0 }
unfolding parse_stat stat_lines stat_line top_stat inner_stat set_session int_of number_from strip
    strip_left is_space starts_with ends_with lines_of join_lines cut strip_end
reads_stat = refl

all_closed : any is_open_radius (lines_of output) ≡ false
unfolding lines_of join_lines strip strip_left is_space starts_with
all_closed = refl

abbrev header : List Text
header = codes " ifname " ∷ codes " username " ∷ []

abbrev row : List Text
row = codes " ppp0 " ∷ codes " ann " ∷ []

abbrev table : Text
table = join_lines (row_line header ∷ codes "--------+----------" ∷ row_line row ∷ [])

ruled : is_row (codes "--------+----------") ≡ false
ruled = refl

table_lines :
    lines_of table ≡ row_line header ∷ codes "--------+----------" ∷ map row_line (row ∷ [])
unfolding lines_of join_lines join_on
table_lines = refl

parse_table-printed_example :
    parse_table table ≡ map (λ r. zipped (map strip header) (map strip r) []) (row ∷ [])
parse_table-printed_example =
    parse_table-printed table (codes " ifname ") (codes " username ") (codes "--------+----------")
      [] (row ∷ []) (refl, (refl, tt)) (((refl, (refl, tt)), refl), tt) ruled table_lines

parse_stat_extended-SameStat_example :
    (any is_open_radius (lines_of output) ≡ false
      → SameStat (parse_stat output) (parse_stat_extended output))
    × (any is_open_radius (lines_of output) ≡ true → parse_stat_extended output ≡ none)
parse_stat_extended-SameStat_example = parse_stat_extended-SameStat output

kept : validate_columns (codes "ip, x;reboot ,sid") ≡ ok (codes "ip,sid")
unfolding validate_columns session_columns split_on join_on strip strip_left is_space
kept = refl

validate_columns-safe_example :
    All (λ c. one_of c session_columns ≡ true) (split_on b',' (codes "ip,sid"))
validate_columns-safe_example =
    validate_columns-safe (codes "ip, x;reboot ,sid") (codes "ip,sid") kept
