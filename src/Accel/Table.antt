-- ===== src/Accel/Table.antt =====
-- A table is read back as it was printed, and only known columns are asked for.
use dawos_agent.Prelude.{
  ℕ, Text, text_eq, nat_eq, Bool, true, false, ◌==◌, not, all, length, length-map, List, [], ◌∷◌,
  map, select, All, ok, ◌≡◌, refl, sym, ap, ◌∙◌, arith, Bool-cases, inl, inr, text_beq_iff,
}
use dawos_agent.Prelude.Texts.{strip, has_char}
use dawos_agent.Prelude.Texts.Laws.{has_char-append}
use dawos_agent.Prelude.Texts.Lines.{lines_of}
use dawos_agent.Prelude.Texts.Split.{split_on, join_on, split_on-join_on}
use dawos_agent.Bulk.{is_rule}
use dawos_agent.Accel.{
  one_of, session_columns, joined_or_fail, validate_columns, zipped, cells_of, is_row, data_rows,
  table_rows, parse_table,
}

-- A printed cell holds no bar; there may be white space about its text.
abbrev pub IsPrinted : List Text → Type 0
IsPrinted cells = All (λ cell. has_char b'|' cell ≡ false) cells

abbrev pub row_line : List Text → Text
row_line cells = join_on b'|' cells

has_char-row_line :
    (a b : Text) (cells : List Text) → has_char b'|' (row_line (a ∷ b ∷ cells)) ≡ true
unfolding join_on
has_char-row_line a b cells =
    has_char-append b'|' a (b'|' ∷ join_on b'|' (b ∷ cells)) ∙ ground arith

-- A bar stands in no rule.
bar-is_rule : (line : Text) → has_char b'|' line ≡ true → is_rule line ≡ false
unfolding is_rule
bar-is_rule [] h = absurd (cc)
bar-is_rule (c ∷ line) h = ground (arith, bar-is_rule line)

is_row-row_line : (a b : Text) (cells : List Text) → is_row (row_line (a ∷ b ∷ cells)) ≡ true
is_row-row_line a b cells =
    let bar = has_char-row_line a b cells in
    rw bar (rw (bar-is_rule (row_line (a ∷ b ∷ cells)) bar) refl)

cells_of-row_line :
    (a : Text) (cells : List Text)
    → IsPrinted (a ∷ cells)
    → cells_of (row_line (a ∷ cells)) ≡ map strip (a ∷ cells)
unfolding cells_of
cells_of-row_line a cells h = ap (map strip) (split_on-join_on b'|' a cells h)

-- A row of the width `n`, of two cells at least.
abbrev pub IsRow : ℕ → List Text → Type 0
IsRow n (a ∷ b ∷ cells) = IsPrinted (a ∷ b ∷ cells) × (length (a ∷ b ∷ cells) ≡ n)
IsRow n cells = true ≡ false

data_rows-printed :
    (cols : List Text) (rows : List (List Text))
    → All (IsRow (length cols)) rows
    → data_rows cols (map row_line rows) ≡ map (λ row. zipped cols (map strip row) []) rows
unfolding data_rows
data_rows-printed cols [] h = refl
data_rows-printed cols ((a ∷ b ∷ cells) ∷ rows) ((printed, wide), hs) =
    let same = cells_of-row_line a (b ∷ cells) printed in
    let width : (length (map strip (a ∷ b ∷ cells)) == length cols) ≡ true =
      rw (length-map strip (a ∷ b ∷ cells)) (rw wide (ground arith)) in
    rw (is_row-row_line a b cells) (
      rw same (
        rw width (
          ap (λ l. zipped cols (map strip (a ∷ b ∷ cells)) [] ∷ l)
            (data_rows-printed cols rows hs))))
data_rows-printed cols ([] ∷ rows) (h, hs) = absurd (cc)
data_rows-printed cols ((a ∷ []) ∷ rows) (h, hs) = absurd (cc)

-- A rule between the columns and the rows is passed over.
rule_passed :
    (cols : List Text) (line : Text) (lines : List Text)
    → is_row line ≡ false
    → data_rows cols (line ∷ lines) ≡ data_rows cols lines
unfolding data_rows
rule_passed cols line lines h = rw h refl

-- A table of two columns at least, with a line that is no row below its columns, whose rows are as wide
-- as the columns and whose cells hold no bar, is read as one dictionary for each row, from the columns to
-- the cells, whatever white space stands about them.
pub parse_table-printed :
    (text a b rule : Text) (cells : List Text) (rows : List (List Text))
    → IsPrinted (a ∷ b ∷ cells)
    → All (IsRow (length (a ∷ b ∷ cells))) rows
    → is_row rule ≡ false
    → lines_of text ≡ row_line (a ∷ b ∷ cells) ∷ rule ∷ map row_line rows
    → parse_table text ≡ map (λ row. zipped (map strip (a ∷ b ∷ cells)) (map strip row) []) rows
unfolding parse_table table_rows
parse_table-printed text a b rule cells rows printed wide ruled lines =
    let cols = map strip (a ∷ b ∷ cells) in
    ap table_rows lines
    ∙ rw (is_row-row_line a b cells) (
        rw (cells_of-row_line a (b ∷ cells) printed) (
          rule_passed cols rule (map row_line rows) ruled
          ∙ data_rows-printed cols rows (rw (length-map strip (a ∷ b ∷ cells)) wide)))

select-All : (p : Text → Bool) (xs : List Text) → All (λ x. p x ≡ true) (select p xs)
select-All p [] = tt
select-All p (x ∷ xs) = elim (Bool-cases (p x)) [
  | inl e ↦ rw e (e, select-All p xs)
  | inr e ↦ rw e (select-All p xs)
]

member_plain :
    (names : List Text) (t : Text)
    → one_of t names ≡ true
    → all (λ name. not (has_char b',' name)) names ≡ true
    → has_char b',' t ≡ false
member_plain [] t h plain = absurd (cc)
member_plain (name ∷ names) t h plain = elim (Bool-cases (t == name)) [
  | inl e ↦ ap (has_char b',') ((text_beq_iff t name).0 e) ∙ ground (arith, plain)
  | inr e ↦ member_plain names t (rw e at h) (ground (arith, plain))
]

-- No column has a comma in its name.
column_plain : (t : Text) → one_of t session_columns ≡ true → has_char b',' t ≡ false
unfolding session_columns
column_plain t h = member_plain session_columns t h refl

columns_plain :
    (cs : List Text)
    → All (λ c. one_of c session_columns ≡ true) cs
    → All (λ c. has_char b',' c ≡ false) cs
columns_plain [] h = tt
columns_plain (c ∷ cs) (h, hs) = (column_plain c h, columns_plain cs hs)

joined-split :
    (columns t : Text) (cs : List Text)
    → All (λ c. one_of c session_columns ≡ true) cs
    → joined_or_fail columns cs ≡ ok t
    → All (λ c. one_of c session_columns ≡ true) (split_on b',' t)
joined-split columns t [] known h = absurd (cc)
joined-split columns t (c ∷ cs) known h =
    let same : join_on b',' (c ∷ cs) ≡ t = cc in
    let parts = split_on-join_on b',' c cs (columns_plain (c ∷ cs) known) in
    rw (sym same) (rw parts known)

-- What is put into the command is a list of known columns: every part between commas is one.
pub validate_columns-safe :
    (columns t : Text)
    → validate_columns columns ≡ ok t
    → All (λ c. one_of c session_columns ≡ true) (split_on b',' t)
unfolding validate_columns
validate_columns-safe columns t h =
    joined-split columns t _ (select-All (λ c. one_of c session_columns) _) h
