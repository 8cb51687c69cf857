-- ===== src/Copy/Rows/Tables.antt =====
-- A table of field values and the `CopyRows` that holds it: what the layout of the rows means.
use quackgis.Base.{
  ℕ, suc, ◌+◌, ◌*◌, ◌≡◌, refl, ap, sym, ◌∙◌, Option, none, some, List, [], ◌∷◌, ◌++◌, append_assoc,
  Bytes, length, length-append, get_elem?, arith,
}
use quackgis.Copy.Rows.{FieldRange, CopyRows, null_range}

abbrev pub Row : Type 0
Row = List (Option Bytes)

abbrev pub Table : Type 0
Table = List Row

abbrev pub row_text : Row → Bytes
row_text [] = []
row_text (none ∷ row) = row_text row
row_text (some value ∷ row) = value ++ row_text row

abbrev pub row_ranges : ℕ → Row → List FieldRange
row_ranges start [] = []
row_ranges start (none ∷ row) = null_range ∷ row_ranges start row
row_ranges start (some value ∷ row) =
    record { start = start; end = start + length value } ∷ row_ranges (start + length value) row

abbrev pub table_text : Table → Bytes
table_text [] = []
table_text (row ∷ table) = row_text row ++ table_text table

abbrev pub table_ranges : ℕ → Table → List FieldRange
table_ranges start [] = []
table_ranges start (row ∷ table) =
    row_ranges start row ++ table_ranges (start + length (row_text row)) table

abbrev pub table_ends : ℕ → Table → List ℕ
table_ends start [] = start ∷ []
table_ends start (row ∷ table) = start ∷ table_ends (start + length (row_text row)) table

-- The rows that hold a table of rows of `columns` values.
abbrev pub encode : ℕ → Table → CopyRows
encode columns table = record {
  bytes = table_text table;
  fields = table_ranges 0 table;
  row_ends = table_ends 0 table;
  columns = columns;
}

-- Every row has this many values.
abbrev pub HasColumns : ℕ → Table → Type 0
HasColumns columns [] = Unit {0}
HasColumns columns (row ∷ table) = (length row ≡ columns) × HasColumns columns table

pub table_text-append : (a b : Table) → table_text (a ++ b) ≡ table_text a ++ table_text b
table_text-append [] b = refl
table_text-append (row ∷ a) b =
    ap (λ rest. row_text row ++ rest) (table_text-append a b)
    ∙ sym (append_assoc (row_text row) (table_text a) (table_text b))

pub start_self : (start : ℕ) → start ≡ start + 0
start_self start = omega arith

pub offset-append :
    (start : ℕ) (xs ys : Bytes) → start + length xs + length ys ≡ start + length (xs ++ ys)
offset-append start xs ys = omega (arith, length-append xs ys)

pub table_ranges-append :
    (start : ℕ) (a b : Table)
    → table_ranges start (a ++ b)
      ≡ table_ranges start a ++ table_ranges (start + length (table_text a)) b
table_ranges-append start [] b = ap (λ s. table_ranges s b) (start_self start)
table_ranges-append start (row ∷ a) b =
    let next = start + length (row_text row) in
    ap (λ rest. row_ranges start row ++ rest) (table_ranges-append next a b)
    ∙ sym (append_assoc (row_ranges start row) (table_ranges next a) _)
    ∙ ap (λ offset. (row_ranges start row ++ table_ranges next a) ++ table_ranges offset b)
        (offset-append start (row_text row) (table_text a))

pub table_ends-at :
    (start : ℕ) (a b : Table)
    → get_elem? (table_ends start (a ++ b)) (length a) ≡ some (start + length (table_text a))
table_ends-at start [] [] = ap some (start_self start)
table_ends-at start [] (row ∷ b) = ap some (start_self start)
table_ends-at start (row ∷ a) b =
    table_ends-at (start + length (row_text row)) a b
    ∙ ap some (offset-append start (row_text row) (table_text a))

pub length-row_ranges : (start : ℕ) (row : Row) → length (row_ranges start row) ≡ length row
length-row_ranges start [] = refl
length-row_ranges start (none ∷ row) = ap suc (length-row_ranges start row)
length-row_ranges start (some value ∷ row) = ap suc (length-row_ranges (start + length value) row)

pub length-table_ranges :
    (columns start : ℕ) (table : Table)
    → HasColumns columns table
    → length (table_ranges start table) ≡ length table * columns
length-table_ranges columns start [] h = omega arith
length-table_ranges columns start (row ∷ table) (here, rest) = omega (
  arith,
  here,
  length-append (row_ranges start row) (table_ranges (start + length (row_text row)) table),
  length-row_ranges start row,
  length-table_ranges columns (start + length (row_text row)) table rest,
)

pub length-table_ends :
    (start : ℕ) (table : Table) → length (table_ends start table) ≡ suc (length table)
length-table_ends start [] = refl
length-table_ends start (row ∷ table) =
    ap suc (length-table_ends (start + length (row_text row)) table)
