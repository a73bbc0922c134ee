-- ===== src/SessionHistory/Purge.antt =====
-- What a purge removes and what it leaves.
use dawos_agent.Prelude.{◌+◌, Text, length, List, [], ◌∷◌, ◌≡◌, arith}
use dawos_agent.SessionHistory.{HistoryRow, purge_rows}

-- The rows that a purge deletes and those that stay are all the rows.
pub purge_rows-total :
    (cutoff : Text) (rows : List HistoryRow)
    → (purge_rows cutoff rows).0 + length (purge_rows cutoff rows).1 ≡ length rows
unfolding purge_rows
purge_rows-total cutoff [] = omega arith
purge_rows-total cutoff (row ∷ rows) = ground (arith, purge_rows-total cutoff rows)
