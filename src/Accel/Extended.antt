-- ===== src/Accel/Extended.antt =====
-- `parse_stat_extended` of dawos_agent/services/accel.py, which reads every section of `show stat`.
use dawos_agent.Prelude.{
  Text, codes, text_eq, nat_eq, ◌==◌, ◌&&◌, Option, none, some, List, [], ◌∷◌, ◌++◌, map,
  if◌then◌else◌,
}
use dawos_agent.Prelude.Dict.{Dict, get, put}
use dawos_agent.Prelude.Integers.{ℤ, int_of}
use dawos_agent.Prelude.Texts.{strip, starts_with, has_char}
use dawos_agent.Prelude.Texts.Split.{split_on, cut, words, strip_end}
use dawos_agent.Accel.{Stat, or_old, after_colon}

-- A RADIUS server: its texts, and its numbers by the names of their fields.
pub record Radius : Type 0 where
  pub server_id : Text
  pub server_address : Text
  pub state : Option Text
  pub numbers : Dict Text ℤ

pub record Memory : Type 0 where
  pub rss_kb : ℤ
  pub virt_kb : ℤ

-- What is read so far; `stat` is what `parse_stat` reads too.
pub record Extended : Type 0 where
  pub stat : Stat
  pub memory : Memory
  pub core : Dict Text ℤ
  pub pppoe : Dict Text ℤ
  pub radius : List Radius
  pub section : Option Text
  pub current_radius : Option Radius

-- `with suppress(ValueError): d[field] = int(v)`
abbrev pub put_number : Text → Option ℤ → Dict Text ℤ → Dict Text ℤ
put_number field none d = d
put_number field (some n) d = put field n d

abbrev put_int : Text → Text → Dict Text ℤ → Dict Text ℤ
put_int field v d = put_number field (int_of v) d

abbrev first_word : List Text → Text
first_word [] = []
first_word (w ∷ ws) = w

abbrev memory_of : List Text → Memory → Memory
memory_of (rss ∷ virt ∷ []) m = record {
  rss_kb = or_old (int_of rss) m.rss_kb;
  virt_kb = or_old (int_of virt) m.virt_kb;
}
memory_of parts m = m

-- `_parse_mem_line`
unfoldable pub parse_mem_line : Text → Memory → Memory
parse_mem_line line m = memory_of (split_on b'/' (first_word (words (after_colon line)))) m

abbrev radius_of : List Text → Radius
radius_of [] = record { server_id = []; server_address = []; state = none; numbers = [] }
radius_of (id ∷ []) = record { server_id = id; server_address = []; state = none; numbers = [] }
radius_of (id ∷ address ∷ parts) = record {
  server_id = id;
  server_address = address;
  state = none;
  numbers = [];
}

-- `_parse_radius_header`; without a closing bracket it raises a ValueError.
unfoldable pub parse_radius_header : Text → Option Radius
parse_radius_header line =
    if has_char b')' line
    then some (radius_of (map strip (split_on b',' (cut b'(' (cut b')' line).0).1)))
    else none

abbrev padr_of : List Text → Text → Dict Text ℤ → Dict Text ℤ
padr_of (main ∷ dup ∷ parts) v d =
    put_int (codes "recv_padr_dup") (strip_end b')' dup) (put_int (codes "recv_padr") main d)
padr_of parts v d = put_int (codes "recv_padr") v d

-- `_parse_padr`
unfoldable pub parse_padr : Text → Dict Text ℤ → Dict Text ℤ
parse_padr v d = padr_of (split_on b'(' v) v d

abbrev pppoe_keys : Dict Text Text
pppoe_keys =
    (codes "starting", codes "starting")
    ∷ (codes "active", codes "active")
    ∷ (codes "delayed PADO", codes "delayed_pado")
    ∷ (codes "recv PADI", codes "recv_padi")
    ∷ (codes "drop PADI", codes "drop_padi")
    ∷ (codes "sent PADO", codes "sent_pado")
    ∷ (codes "sent PADS", codes "sent_pads")
    ∷ (codes "filtered", codes "filtered")
    ∷ []

abbrev pppoe_field : Text → Text → Option Text → Dict Text ℤ → Dict Text ℤ
pppoe_field key v (some field) d = put_int field v d
pppoe_field key v none d = if starts_with (codes "recv PADR") key then parse_padr v d else d

-- `_parse_pppoe_line`
unfoldable pub parse_pppoe_line : Text → Text → Dict Text ℤ → Dict Text ℤ
parse_pppoe_line key v d = pppoe_field key v (get key pppoe_keys) d

abbrev radius_keys : Dict Text Text
radius_keys =
    (codes "fail count", codes "fail_count")
    ∷ (codes "request count", codes "request_count")
    ∷ (codes "queue length", codes "queue_length")
    ∷ (codes "auth sent", codes "auth_sent")
    ∷ (codes "acct sent", codes "acct_sent")
    ∷ (codes "interim sent", codes "interim_sent")
    ∷ []

abbrev lost_of : Text → List Text → Dict Text ℤ → Dict Text ℤ
lost_of prefix (total ∷ five ∷ one ∷ []) d =
    put_int (prefix ++ codes "_lost_1m") one
      (put_int (prefix ++ codes "_lost_5m") five (put_int (prefix ++ codes "_lost_total") total d))
lost_of prefix parts d = d

abbrev average_of : Text → List Text → Dict Text ℤ → Dict Text ℤ
average_of prefix (five ∷ one ∷ []) d =
    put_int (prefix ++ codes "_avg_query_time_1m") one
      (put_int (prefix ++ codes "_avg_query_time_5m") five d)
average_of prefix parts d = d

-- `text.replace("ms", "")`
unfoldable pub without_ms : Text → Text
without_ms [] = []
without_ms (c ∷ []) = c ∷ []
without_ms (c ∷ d ∷ cs) =
    let shorter = without_ms cs in
    let rest = without_ms (d ∷ cs) in if (c == b'm') && (d == b's') then shorter else c ∷ rest

-- The loops of `_parse_radius_lost` and `_parse_radius_avg`.
unfoldable pub radius_extra : List Text → Text → Text → Dict Text ℤ → Dict Text ℤ
radius_extra [] key v d = d
radius_extra (prefix ∷ prefixes) key v d =
    let rest = radius_extra prefixes key v d in
    if key == prefix ++ codes " lost(total/5m/1m)"
    then lost_of prefix (split_on b'/' v) d
    else if key == prefix ++ codes " avg query time(5m/1m)"
    then average_of prefix (split_on b'/' (strip (without_ms v))) d
    else rest

abbrev with_numbers : (Dict Text ℤ → Dict Text ℤ) → Radius → Radius
with_numbers f r = record {
  server_id = r.server_id;
  server_address = r.server_address;
  state = r.state;
  numbers = f r.numbers;
}

abbrev radius_field : Text → Text → Option Text → Radius → Radius
radius_field key v (some field) r = with_numbers (put_int field v) r
radius_field key v none r =
    with_numbers (radius_extra (codes "auth" ∷ codes "acct" ∷ codes "interim" ∷ []) key v) r

-- `_parse_radius_line`
unfoldable pub parse_radius_line : Text → Text → Radius → Radius
parse_radius_line key v r =
    if key == codes "state"
    then record {
      server_id = r.server_id;
      server_address = r.server_address;
      state = some v;
      numbers = r.numbers;
    }
    else radius_field key v (get key radius_keys) r
