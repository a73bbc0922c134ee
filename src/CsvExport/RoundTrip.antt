-- ===== src/CsvExport/RoundTrip.antt =====
-- The reader reads back what the export writes.
use mathlib.Core.List.{append-nil, append_assoc}
use dawos_agent.Prelude.{
  Text, nat_eq, Bool, false, Option, none, some, List, [], ◌∷◌, ◌++◌, map, ◌≡◌, refl, ap, ◌∙◌,
  text_eq, Bool-cases, inl, inr,
}
use dawos_agent.Prelude.Dict.{Dict, get}
use dawos_agent.CsvExport.{
  is_trigger, sanitize, doubled, quoted, write_row, write_rows, rows_to_csv, cell, cell_value,
  cell_value,
}
use dawos_agent.CsvExport.Reader.{before, quote, advance, feed, feed-doubled, read_csv}

feed-quoted :
    (f rest : Text) (row : List Text) (rows : List (List Text))
    → feed (quoted f ++ rest) before [] row rows ≡ feed rest quote f row rows
feed-quoted f rest row rows =
    unfold quoted in
    (ap (λ t. feed (b'"' ∷ t) before [] row rows) (append_assoc (doubled f) (b'"' ∷ []) rest)
      ∙ unfold feed advance in
        feed-doubled f (b'"' ∷ rest) [] row rows ∙ unfold feed advance in refl)

write_row-append :
    (f g : Text) (gs : List Text) (rest : Text)
    → write_row (f ∷ g ∷ gs) ++ rest ≡ quoted f ++ (b',' ∷ (write_row (g ∷ gs) ++ rest))
unfolding write_row
write_row-append f g gs rest = append_assoc (quoted f) (b',' ∷ write_row (g ∷ gs)) rest

feed-comma :
    (rest f : Text) (row : List Text) (rows : List (List Text))
    → feed (b',' ∷ rest) quote f row rows ≡ feed rest before [] (row ++ (f ∷ [])) rows
unfolding feed advance
feed-comma rest f row rows = refl

feed-last :
    (f rest : Text) (row : List Text) (rows : List (List Text))
    → feed (write_row (f ∷ []) ++ rest) before [] row rows
      ≡ feed rest before [] [] (rows ++ ((row ++ (f ∷ [])) ∷ []))
feed-last f rest row rows =
    unfold write_row in
    (ap (λ t. feed t before [] row rows) (append_assoc (quoted f) (13 ∷ 10 ∷ []) rest)
      ∙ feed-quoted f (13 ∷ 10 ∷ rest) row rows
      ∙ unfold feed advance in refl)

feed-write_row :
    (f : Text) (fs : List Text) (rest : Text) (row : List Text) (rows : List (List Text))
    → feed (write_row (f ∷ fs) ++ rest) before [] row rows
      ≡ feed rest before [] [] (rows ++ ((row ++ (f ∷ fs)) ∷ []))
feed-write_row f [] rest row rows = feed-last f rest row rows
feed-write_row f (g ∷ gs) rest row rows =
    ap (λ t. feed t before [] row rows) (write_row-append f g gs rest)
    ∙ feed-quoted f (b',' ∷ (write_row (g ∷ gs) ++ rest)) row rows
    ∙ feed-comma (write_row (g ∷ gs) ++ rest) f row rows
    ∙ feed-write_row g gs rest (row ++ (f ∷ [])) rows
    ∙ ap (λ r. feed rest before [] [] (rows ++ (r ∷ []))) (append_assoc row (f ∷ []) (g ∷ gs))

-- The body of the document for the columns `f ∷ fs`.
module _ (f : Text) (fs : List Text) where
  abbrev cells : Dict Text Text → List Text
  cells row = map (cell row) (f ∷ fs)

  write_rows-cons :
      (r : Dict Text Text) (rs : List (Dict Text Text))
      → write_rows (f ∷ fs) (r ∷ rs) ≡ write_row (cells r) ++ write_rows (f ∷ fs) rs
  unfolding write_rows
  write_rows-cons r rs = refl

  write_rows-nil : write_rows (f ∷ fs) [] ≡ []
  unfolding write_rows
  write_rows-nil = refl

  feed-nil : (rows : List (List Text)) → (feed [] before [] [] rows).rows ≡ rows
  unfolding feed
  feed-nil rows = refl

  feed-write_rows :
      (rs : List (Dict Text Text)) (rows : List (List Text))
      → (feed (write_rows (f ∷ fs) rs) before [] [] rows).rows ≡ rows ++ map cells rs
  feed-write_rows [] rows = rw (write_rows-nil, append-nil rows) (feed-nil rows)
  feed-write_rows (r ∷ rs) rows =
      ap (λ x. x.rows)
        (ap (λ t. feed t before [] [] rows) (write_rows-cons r rs)
          ∙ feed-write_row (cell r f) (map (cell r) fs) (write_rows (f ∷ fs) rs) [] rows)
      ∙ feed-write_rows rs (rows ++ (cells r ∷ []))
      ∙ append_assoc rows (cells r ∷ []) (map cells rs)

  read_csv-rows_to_csv :
      (rs : List (Dict Text Text)) → read_csv (rows_to_csv (f ∷ fs) rs) ≡ (f ∷ fs) ∷ map cells rs
  unfolding read_csv rows_to_csv
  read_csv-rows_to_csv rs =
      ap (λ x. x.rows) (feed-write_row f fs (write_rows (f ∷ fs) rs) [] [])
      ∙ feed-write_rows rs ((f ∷ fs) ∷ [])

-- A spreadsheet takes the cell for a formula.
abbrev pub is_formula : Text → Bool
is_formula [] = false
is_formula (c ∷ cs) = is_trigger c

sanitize-plain : (t : Text) → is_formula t ≡ false → sanitize t ≡ t
unfolding sanitize
sanitize-plain [] h = refl
sanitize-plain (c ∷ cs) h = rw h refl

sanitize-safe : (t : Text) → is_formula (sanitize t) ≡ false
unfolding sanitize
sanitize-safe [] = refl
sanitize-safe (c ∷ cs) = elim (Bool-cases (is_trigger c)) [
  | inl triggers ↦ rw triggers refl
  | inr plain ↦ rw plain plain
]

cell_value-safe : (o : Option Text) → is_formula (cell_value o) ≡ false
unfolding cell_value
cell_value-safe none = refl
cell_value-safe (some v) = sanitize-safe v

cell-safe : (row : Dict Text Text) (name : Text) → is_formula (cell row name) ≡ false
unfolding cell
cell-safe row name = cell_value-safe (get name row)

cell-plain :
    (row : Dict Text Text) (name value : Text)
    → get name row ≡ some value
    → is_formula value ≡ false
    → cell row name ≡ value
unfolding cell cell_value
cell-plain row name value there plain = ap cell_value there ∙ sanitize-plain value plain

-- A document with at least one column is read back as its header and one row of cells for each record,
-- whatever quotes, commas or line ends the values hold. No cell of a record is taken for a formula, and
-- a value that is none is exported unchanged.
pub read_csv-rows_to_csv_lem :
    (f : Text) (fs : List Text) (rows : List (Dict Text Text))
    → (read_csv (rows_to_csv (f ∷ fs) rows) ≡ (f ∷ fs) ∷ map (λ r. map (cell r) (f ∷ fs)) rows)
      × ((row : Dict Text Text) (name : Text) → is_formula (cell row name) ≡ false)
      × ((row : Dict Text Text) (name value : Text)
          → get name row ≡ some value
          → is_formula value ≡ false
          → cell row name ≡ value)
read_csv-rows_to_csv_lem f fs rows = (read_csv-rows_to_csv f fs rows, cell-safe, cell-plain)
