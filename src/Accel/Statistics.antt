-- ===== src/Accel/Statistics.antt =====
-- The loop of `parse_stat_extended` of dawos_agent/services/accel.py.
use dawos_agent.Prelude.{
  String, Text, codes, text_eq, nat_eq, Bool, false, ◌==◌, not, Option, none, some, List, [], ◌∷◌,
  ◌++◌, if◌then◌else◌,
}
use dawos_agent.Prelude.Integers.{pos, int_of}
use dawos_agent.Prelude.Texts.{strip, starts_with, has_char}
use dawos_agent.Prelude.Texts.Lines.{lines_of}
use dawos_agent.Prelude.Texts.Split.{cut, strip_end}
use dawos_agent.Accel.{
  is_sessions, section_at, after_colon, set_session, with_uptime, with_cpu, with_sessions,
  starts_line, no_stat,
}
use dawos_agent.Accel.Extended.{
  Extended, Radius, put_number, parse_mem_line, parse_radius_header, parse_pppoe_line,
  parse_radius_line,
}

abbrev appended : List Radius → Option Radius → List Radius
appended servers none = servers
appended servers (some r) = servers ++ (r ∷ [])

-- A pending RADIUS block is closed.
unfoldable pub flush : Extended → Extended
flush x = record x { radius = appended x.radius x.current_radius; current_radius = none }

abbrev pub radius_started : Extended → Option Radius → Option Extended
radius_started x none = none
radius_started x (some r) =
    some (record x { current_radius = some r; section = some (codes "radius") })

-- A line of the outermost level; no result is the ValueError of the header.
unfoldable pub top_line : Text → Extended → Option Extended
top_line stripped x =
    if starts_with (codes "uptime:") stripped
    then some (record x { stat = with_uptime (after_colon stripped) x.stat; section = none })
    else if starts_with (codes "cpu:") stripped
    then some (record x {
      stat = with_cpu (strip_end b'%' (after_colon stripped)) x.stat;
      section = none;
    })
    else if starts_with (codes "mem(rss/virt):") stripped
    then some (record x { memory = parse_mem_line stripped x.memory; section = none })
    else if starts_with (codes "radius(") stripped
    then radius_started x (parse_radius_header stripped)
    else some (record x { section = section_at stripped })

abbrev pub in_section : String → Option Text → Bool
in_section name none = false
in_section name (some s) = s == codes name

abbrev radius_line : Text → Text → Option Radius → Option Radius
radius_line key v none = none
radius_line key v (some r) = some (parse_radius_line key v r)

unfoldable pub inner_line : Text → Text → Extended → Extended
inner_line key v x =
    if in_section "core" x.section
    then record x { core = put_number key (int_of v) x.core }
    else if is_sessions x.section
    then record x { stat = with_sessions (set_session key v x.stat.sessions) x.stat }
    else if in_section "pppoe" x.section
    then record x { pppoe = parse_pppoe_line key v x.pppoe }
    else if in_section "radius" x.section
    then record x { current_radius = radius_line key v x.current_radius }
    else x

unfoldable pub extended_line : Text → Extended → Option Extended
extended_line raw x =
    if strip raw == []
    then some x
    else if starts_line raw
    then top_line (strip raw) (flush x)
    else if not (has_char b':' (strip raw))
    then some x
    else some (inner_line (strip (cut b':' (strip raw)).0) (strip (cut b':' (strip raw)).1) x)

abbrev pub then_lines : (Extended → Option Extended) → Option Extended → Option Extended
then_lines rest none = none
then_lines rest (some x) = rest x

unfoldable pub extended_lines : List Text → Extended → Option Extended
extended_lines [] x = some (flush x)
extended_lines (raw ∷ lines) x = then_lines (extended_lines lines) (extended_line raw x)

abbrev pub no_extended : Extended
no_extended = record {
  stat = no_stat;
  memory = record { rss_kb = pos 0; virt_kb = pos 0 };
  core = [];
  pppoe = [];
  radius = [];
  section = none;
  current_radius = none;
}

unfoldable pub parse_stat_extended : Text → Option Extended
parse_stat_extended text = extended_lines (lines_of text) no_extended
