-- ===== src/SessionHistory.antt =====
-- dawos_agent/services/session_history.py: queries and purges. The SQLite table is the list of its rows;
-- TEXT columns compare by code points. Limits and offsets are not negative, as the endpoints check,
-- and an offset is below 2^63, from where on SQLite raises. The
-- snapshots, the statistics and the connection are left out.
pub mod Purge
pub mod Ordered
mod Tests
use Prim.Native.Nat.{min, max}
use dawos_agent.Prelude.{
  ℕ, ◌-◌, Text, text_eq, nat_eq, Bool, true, false, not, ◌==◌, ◌&&◌, ◌||◌, ltb, length, take, drop,
  select, count_if, Option, none, some, List, [], ◌∷◌, if◌then◌else◌,
}
use dawos_agent.Prelude.Dict.{Dict}
use dawos_agent.ConfigManager.{text_leb}

-- A row: the columns that queries read, and all columns as `dict(row)` gives them, as texts.
pub record HistoryRow : Type 0 where
  pub id : ℕ
  pub snapshot_at : Text
  pub username : Text
  pub ip : Text
  pub cells : Dict Text Text

pub record HistoryQuery : Type 0 where
  pub username : Option Text
  pub ip : Option Text
  pub start : Option Text
  pub end : Option Text

-- A condition is added for a parameter that is given and not empty.
condition : Option Text → (Text → Bool) → Bool
condition none p = true
condition (some []) p = true
condition (some (c ∷ cs)) p = p (c ∷ cs)

-- The WHERE clause.
unfoldable pub where_clause : HistoryQuery → HistoryRow → Bool
unfolding condition
where_clause q row =
    condition q.username (λ u. row.username == u)
    && condition q.ip (λ a. row.ip == a)
    && condition q.start (λ t. text_leb t row.snapshot_at)
    && condition q.end (λ t. text_leb row.snapshot_at t)

-- ORDER BY snapshot_at DESC, id DESC
unfoldable pub comes_first : HistoryRow → HistoryRow → Bool
comes_first a b =
    not (text_leb a.snapshot_at b.snapshot_at) || (a.snapshot_at == b.snapshot_at && ltb b.id a.id)

unfoldable pub place : HistoryRow → List HistoryRow → List HistoryRow
unfolding comes_first
place row [] = row ∷ []
place row (other ∷ rest) =
    if comes_first row other then row ∷ other ∷ rest else other ∷ place row rest

unfoldable pub ordered : List HistoryRow → List HistoryRow
unfolding place
ordered [] = []
ordered (row ∷ rows) = place row (ordered rows)

-- The page of the rows and the number of all that match.
unfoldable pub query_rows : HistoryQuery → ℕ → ℕ → List HistoryRow → List HistoryRow × ℕ
unfolding where_clause ordered
query_rows q limit offset rows = (
  take limit (drop offset (ordered (select (λ r. where_clause q r) rows))),
  length (select (λ r. where_clause q r) rows),
)

pub record HistoryPage : Type 0 where
  pub records : List HistoryRow
  pub total : ℕ
  pub limit : ℕ
  pub offset : ℕ

unfoldable pub query_history : HistoryQuery → ℕ → ℕ → List HistoryRow → HistoryPage
unfolding query_rows
query_history q limit offset rows = record {
  records = (query_rows q (max 1 (min limit 1000)) (max 0 offset) rows).0;
  total = (query_rows q (max 1 (min limit 1000)) (max 0 offset) rows).1;
  limit = max 1 (min limit 1000);
  offset = max 0 offset;
}

-- The number of the deleted rows, and the rows that stay.
unfoldable pub purge_rows : Text → List HistoryRow → ℕ × List HistoryRow
purge_rows before rows = (
  count_if (λ r. not (text_leb before r.snapshot_at)) rows,
  select (λ r. text_leb before r.snapshot_at) rows,
)
