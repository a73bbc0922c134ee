-- ===== src/CsvExport/Reader.antt =====
-- A reader of CSV in which each field is quoted, and how it reads a field.
use mathlib.Core.List.{append-nil, append_assoc}
use dawos_agent.Prelude.{
  ℕ, Text, nat_eq, true, false, ◌==◌, ==_iff, List, [], ◌∷◌, ◌++◌, ◌≡◌, refl, ap, ◌∙◌, arith,
  text_eq, if◌then◌else◌, Bool-cases, inl, inr,
}
use dawos_agent.CsvExport.{doubled}

-- Where the reader is: before a field, inside the quotes of one, or after a quote inside of one.
pub data Mode : Type 0 where
  before inside quote : Mode

-- The fields of the row that is read, and the rows that are read.
pub record Reader : Type 0 where
  pub mode : Mode
  pub field : Text
  pub row : List Text
  pub rows : List (List Text)

-- One character. A quote opens a field, and inside of one it is doubled or ends it; what follows the end
-- is a comma or the end of the line.
unfoldable pub advance : ℕ → Mode → Text → List Text → List (List Text) → Reader
advance c before field row rows =
    if c == b'"'
    then record { mode = inside; field = []; row = row; rows = rows }
    else record { mode = before; field = []; row = row; rows = rows }
advance c inside field row rows =
    if c == b'"'
    then record { mode = quote; field = field; row = row; rows = rows }
    else record { mode = inside; field = field ++ (c ∷ []); row = row; rows = rows }
advance c quote field row rows =
    if c == b'"'
    then record { mode = inside; field = field ++ (b'"' ∷ []); row = row; rows = rows }
    else if c == b','
    then record { mode = before; field = []; row = row ++ (field ∷ []); rows = rows }
    else record { mode = before; field = []; row = []; rows = rows ++ ((row ++ (field ∷ [])) ∷ []) }

unfoldable pub feed : Text → Mode → Text → List Text → List (List Text) → Reader
feed [] m field row rows = record { mode = m; field = field; row = row; rows = rows }
feed (c ∷ cs) m field row rows =
    let r = advance c m field row rows in feed cs r.mode r.field r.row r.rows

unfoldable pub read_csv : Text → List (List Text)
read_csv text = (feed text before [] [] []).rows

module _ (c : ℕ) (field : Text) (row : List Text) (rows : List (List Text)) where
  advance-plain :
      (c == b'"') ≡ false
      → advance c inside field row rows
        ≡ record { mode = inside; field = field ++ (c ∷ []); row = row; rows = rows }
  unfolding advance
  advance-plain h = rw h refl

doubled-cons :
    (c : ℕ) (cs : Text)
    → ((c == b'"') ≡ true → doubled (c ∷ cs) ≡ c ∷ c ∷ doubled cs)
      × ((c == b'"') ≡ false → doubled (c ∷ cs) ≡ c ∷ doubled cs)
unfolding doubled
doubled-cons c cs = (ground (arith, ==_iff c b'"'), ground arith)

feed-one :
    (c : ℕ) (rest field : Text) (row : List Text) (rows : List (List Text))
    → (c == b'"') ≡ false
    → feed (c ∷ rest) inside field row rows ≡ feed rest inside (field ++ (c ∷ [])) row rows
unfolding feed
feed-one c rest field row rows plain = rw (advance-plain c field row rows plain) refl

-- A quote that is doubled is read as one.
feed-pair :
    (c : ℕ) (rest field : Text) (row : List Text) (rows : List (List Text))
    → (c == b'"') ≡ true
    → feed (c ∷ c ∷ rest) inside field row rows ≡ feed rest inside (field ++ (c ∷ [])) row rows
feed-pair c rest field row rows h = rw ((==_iff c b'"').0 h) (unfold feed advance in refl)

pub feed-doubled :
    (f rest field : Text) (row : List Text) (rows : List (List Text))
    → feed (doubled f ++ rest) inside field row rows ≡ feed rest inside (field ++ f) row rows
feed-doubled [] rest field row rows = unfold doubled in rw (append-nil field) refl
feed-doubled (c ∷ cs) rest field row rows = elim (Bool-cases (c == b'"')) [
  | inl is_quote ↦ rw ((doubled-cons c cs).0 is_quote) (
      feed-pair c (doubled cs ++ rest) field row rows is_quote
      ∙ feed-doubled cs rest (field ++ (c ∷ [])) row rows
      ∙ ap (λ t. feed rest inside t row rows) (append_assoc field (c ∷ []) cs))
  | inr plain ↦ rw ((doubled-cons c cs).1 plain) (
      feed-one c (doubled cs ++ rest) field row rows plain
      ∙ feed-doubled cs rest (field ++ (c ∷ [])) row rows
      ∙ ap (λ t. feed rest inside t row rows) (append_assoc field (c ∷ []) cs))
]
