-- ===== src/SessionHistory/Ordered.antt =====
-- The order of the pages: the newest snapshots first, and of one snapshot the latest row first.
use Prim.Native.Nat.{min, max}
use dawos_agent.Prelude.{
  ℕ, Text, text_eq, nat_eq, text_beq_iff, Bool, true, false, ◌||◌, length-select, ap, take, drop,
  count_if, select, All, List, [], ◌∷◌, ◌≡◌, refl, arith, Bool-cases, inl, inr,
}
use dawos_agent.ConfigManager.{text_leb}
use dawos_agent.SessionHistory.{
  HistoryRow, HistoryQuery, comes_first, place, ordered, where_clause, query_history, query_rows,
}

text_leb_total : (s t : Text) → (text_leb s t || text_leb t s) ≡ true
text_leb_total [] t = refl
text_leb_total (a ∷ s) [] = refl
text_leb_total (a ∷ s) (b ∷ t) = ground (arith, text_leb_total s t)

text_leb_trans : (s t u : Text) → text_leb s t ≡ true → text_leb t u ≡ true → text_leb s u ≡ true
text_leb_trans [] t u h k = refl
text_leb_trans (a ∷ s) [] u h k = absurd (ground arith)
text_leb_trans (a ∷ s) (b ∷ t) [] h k = absurd (ground arith)
text_leb_trans (a ∷ s) (b ∷ t) (c ∷ u) h k = ground (arith, text_leb_trans s t u)

text_leb_antisym : (s t : Text) → text_leb s t ≡ true → text_leb t s ≡ true → s ≡ t
text_leb_antisym [] [] h k = refl
text_leb_antisym [] (b ∷ t) h k = absurd (ground arith)
text_leb_antisym (a ∷ s) [] h k = absurd (ground arith)
text_leb_antisym (a ∷ s) (b ∷ t) h k = ground (arith, text_leb_antisym s t)

comes_first_asymm : (a b : HistoryRow) → comes_first a b ≡ true → comes_first b a ≡ false
unfolding comes_first
comes_first_asymm a b h = ground (
  arith,
  text_leb_total a.snapshot_at b.snapshot_at,
  text_beq_iff a.snapshot_at b.snapshot_at,
  text_beq_iff b.snapshot_at a.snapshot_at,
)

-- A row that does not come before a second, which does not come before a third, does not come before it.
comes_first_trans :
    (a b c : HistoryRow)
    → comes_first b a ≡ false
    → comes_first c b ≡ false
    → comes_first c a ≡ false
unfolding comes_first
comes_first_trans a b c h k = ground (
  arith,
  text_leb_trans c.snapshot_at b.snapshot_at a.snapshot_at,
  text_leb_antisym b.snapshot_at a.snapshot_at,
  text_leb_antisym c.snapshot_at b.snapshot_at,
  text_beq_iff b.snapshot_at a.snapshot_at,
  text_beq_iff c.snapshot_at b.snapshot_at,
  text_beq_iff c.snapshot_at a.snapshot_at,
  text_leb_total a.snapshot_at b.snapshot_at,
  text_leb_total c.snapshot_at b.snapshot_at,
)

-- No row comes before one that stands above it.
abbrev pub IsSorted : List HistoryRow → Type 0
IsSorted [] = Unit
IsSorted (row ∷ rows) = All (λ later. comes_first later row ≡ false) rows × IsSorted rows

All-place :
    (P : HistoryRow → Type 0) (row : HistoryRow) (rows : List HistoryRow)
    → P row
    → All P rows
    → All P (place row rows)
unfolding place
All-place P row [] p h = (p, tt)
All-place P row (other ∷ rest) p (q, h) = elim (Bool-cases (comes_first row other)) [
  | inl above ↦ rw above (p, (q, h))
  | inr below ↦ rw below (q, All-place P row rest p h)
]

All-comes_first :
    (row other : HistoryRow) (rows : List HistoryRow)
    → comes_first other row ≡ false
    → All (λ later. comes_first later other ≡ false) rows
    → All (λ later. comes_first later row ≡ false) rows
All-comes_first row other [] h k = tt
All-comes_first row other (x ∷ xs) h (k, ks) =
    (comes_first_trans row other x h k, All-comes_first row other xs h ks)

place-IsSorted :
    (row : HistoryRow) (rows : List HistoryRow) → IsSorted rows → IsSorted (place row rows)
unfolding place
place-IsSorted row [] s = (tt, tt)
place-IsSorted row (other ∷ rest) (h, s) = elim (Bool-cases (comes_first row other)) [
  | inl above ↦
      let after = comes_first_asymm row other above in
      rw above ((after, All-comes_first row other rest after h), (h, s))
  | inr below ↦ rw below (
    All-place (λ later. comes_first later other ≡ false) row rest below h,
    place-IsSorted row rest s,
  )
]

ordered-IsSorted : (rows : List HistoryRow) → IsSorted (ordered rows)
unfolding ordered
ordered-IsSorted [] = tt
ordered-IsSorted (row ∷ rows) = place-IsSorted row (ordered rows) (ordered-IsSorted rows)

count-place :
    (p : HistoryRow → Bool) (row : HistoryRow) (rows : List HistoryRow)
    → count_if p (place row rows) ≡ count_if p (row ∷ rows)
unfolding place
count-place p row [] = refl
count-place p row (other ∷ rest) = elim (Bool-cases (comes_first row other)) [
  | inl above ↦ rw above refl
  | inr below ↦ rw below (ground (arith, count-place p row rest))
]

count-ordered :
    (p : HistoryRow → Bool) (rows : List HistoryRow) → count_if p (ordered rows) ≡ count_if p rows
unfolding ordered
count-ordered p [] = refl
count-ordered p (row ∷ rows) =
    ground (arith, count-place p row (ordered rows), count-ordered p rows)

-- The rows that match a query, in the order in which its pages show them.
abbrev pub matching : HistoryQuery → List HistoryRow → List HistoryRow
matching q rows = ordered (select (λ r. where_clause q r) rows)

-- The pages of a query are slices of one list: its rows stand newest snapshot first, and of one snapshot
-- with the higher id first, and it holds each row as often as the table does, if it matches. A page begins
-- at the offset and has at most the limit, which is from 1 to 1000; the total counts all that match.
pub query_history_lem :
    (q : HistoryQuery) (limit offset : ℕ) (rows : List HistoryRow)
    → IsSorted (matching q rows)
      × ((p : HistoryRow → Bool)
          → count_if p (matching q rows) ≡ count_if p (select (λ r. where_clause q r) rows))
      × ((query_history q limit offset rows).records
          ≡ take (max 1 (min limit 1000)) (drop offset (matching q rows)))
      × ((query_history q limit offset rows).total ≡ count_if (λ r. where_clause q r) rows)
unfolding query_history query_rows
query_history_lem q limit offset rows = (
  ordered-IsSorted (select (λ r. where_clause q r) rows),
  λ p. count-ordered p (select (λ r. where_clause q r) rows),
  ap (λ n. take (max 1 (min limit 1000)) (drop n (matching q rows))) {x = max 0 offset} {y = offset}
      (omega arith),
  length-select (λ r. where_clause q r) rows,
)
