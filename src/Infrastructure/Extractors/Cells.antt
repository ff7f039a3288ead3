-- ===== src/Infrastructure/Extractors/Cells.antt =====
-- The rows and columns of `extract_csv` of crates/casegraph-infrastructure/src/extractors.rs.
use mathlib.Core.Path.{subst}
use casegraph.Prelude.{
  ℕ, suc, ◌+◌, ◌≤◌, ◌≡◌, refl, sym, ap, ◌∙◌, some, List, [], ◌∷◌, ◌++◌, All, All-append, All-weaken,
  get_elem?, arith,
}
use casegraph.Prelude.Result.{Result, ok, err, ◌>>=◌}
use casegraph.Application.Monad.Keeps.{ok_inj}
use casegraph.Text.{Text}
use casegraph.Text.Trim.{trim}
use casegraph.Application.Pipeline.{PipelineError, ExtractedField}
use casegraph.Infrastructure.Extractors.{
  field, cell_fields, row_fields, extract_rows, extract_records, extract_csv,
}
use casegraph.Infrastructure.Extractors.Csv.{parse_csv}

-- A field that stands in a row and a column, with a header and a value.
record StandsAt (row column : ℕ) (header value : Text) (f : ExtractedField) : Type 0 where
  row_is : f.location.row_number ≡ some row
  column_is : f.location.column_number ≡ some column
  named : f.predicate ≡ trim header
  original : f.original_value ≡ value

record OneCell (row column : ℕ) (header value : Text) (found : List ExtractedField) : Type 0 where
  item : ExtractedField
  alone : found ≡ item ∷ []
  row_is : item.location.row_number ≡ some row
  column_is : item.location.column_number ≡ some column
  named : item.predicate ≡ trim header
  original : item.original_value ≡ value

cell_fields-OneCell :
    (row column : ℕ) (header : Text) (c : ℕ) (s : Text) (found : List ExtractedField)
    → cell_fields row column header (c ∷ s) ≡ ok found
    → OneCell row column header (c ∷ s) found
unfolding cell_fields field
cell_fields-OneCell row column header c s found h = ground arith

cell_fields-StandsAt :
    (row column : ℕ) (header value : Text) (found : List ExtractedField)
    → cell_fields row column header value ≡ ok found
    → All (StandsAt row column header value) found
unfolding cell_fields
cell_fields-StandsAt row column header [] found h = subst (All _) (ok_inj h) tt
cell_fields-StandsAt row column header (c ∷ s) found h =
    let one = cell_fields-OneCell row column header c s found h in
    subst (All (StandsAt row column header (c ∷ s))) (sym one.alone) (
      record {
        row_is = one.row_is;
        column_is = one.column_is;
        named = one.named;
        original = one.original;
      },
      tt,
    )

-- The field stands in a cell of these records, behind the header: its row and its column are the
-- places of the cell that holds its value, and its predicate is the trimmed header of that column.
pub record CitesCell (records : List (List Text)) (f : ExtractedField) : Type 0 where
  pub row : ℕ
  pub column : ℕ
  pub headers : List Text
  pub values : List Text
  pub header : Text
  pub row_is : f.location.row_number ≡ some row
  pub column_is : f.location.column_number ≡ some column
  pub behind : 1 ≤ row
  pub header_row : get_elem? records 0 ≡ some headers
  pub value_row : get_elem? records row ≡ some values
  pub header_cell : get_elem? headers column ≡ some header
  pub value_cell : get_elem? values column ≡ some f.original_value
  pub named : f.predicate ≡ trim header

record CellTurn (row column : ℕ) (header value : Text) (headers values : List Text)
    (fields : List ExtractedField) : Type 0 where
  found : List ExtractedField
  later : List ExtractedField
  of_cell : cell_fields row column header value ≡ ok found
  of_cells : row_fields row (column + 1) headers values ≡ ok later
  together : fields ≡ found ++ later

row_fields-CellTurn :
    (row column : ℕ) (header value : Text) (headers values : List Text)
    (fields : List ExtractedField)
    → row_fields row column (header ∷ headers) (value ∷ values) ≡ ok fields
    → CellTurn row column header value headers values fields
unfolding row_fields
row_fields-CellTurn row column header value headers values fields h = ground arith

record RowTurn (row : ℕ) (headers values : List Text) (rows : List (List Text))
    (fields : List ExtractedField) : Type 0 where
  found : List ExtractedField
  later : List ExtractedField
  of_row : row_fields row 0 headers values ≡ ok found
  of_rows : extract_rows (row + 1) headers rows ≡ ok later
  together : fields ≡ found ++ later

extract_rows-RowTurn :
    (row : ℕ) (headers values : List Text) (rows : List (List Text)) (fields : List ExtractedField)
    → extract_rows row headers (values ∷ rows) ≡ ok fields
    → RowTurn row headers values rows fields
unfolding extract_rows
extract_rows-RowTurn row headers values rows fields h = ground arith

-- From position `n` on, the list is `rest`.
abbrev From : {A : Type 0} → List A → ℕ → List A → Type 0
From xs n rest = (i : ℕ) → get_elem? xs (n + i) ≡ get_elem? rest i

From-next :
    {A : Type 0} (xs : List A) (n : ℕ) (x : A) (rest : List A)
    → From xs n (x ∷ rest)
    → From xs (n + 1) rest
From-next xs n x rest f i = ap (get_elem? xs) (omega arith) ∙ f (suc i)

From-first :
    {A : Type 0} (xs : List A) (n : ℕ) (x : A) (rest : List A)
    → From xs n (x ∷ rest)
    → get_elem? xs n ≡ some x
From-first xs n x rest f = ap (get_elem? xs) (omega arith) ∙ f 0

module _ (records : List (List Text)) (headers : List Text)
    (header_row : get_elem? records 0 ≡ some headers) where
  row_fields-CitesCell :
      (row column : ℕ) (values hs vs : List Text) (fields : List ExtractedField)
      → 1 ≤ row
      → get_elem? records row ≡ some values
      → From headers column hs
      → From values column vs
      → row_fields row column hs vs ≡ ok fields
      → All (CitesCell records) fields
  unfolding row_fields
  row_fields-CitesCell row column values [] vs fields b r f g h = subst (All _) (ok_inj h) tt
  row_fields-CitesCell row column values (x ∷ hs) [] fields b r f g h = subst (All _) (ok_inj h) tt
  row_fields-CitesCell row column values (header ∷ hs) (value ∷ vs) fields b r f g h =
      let turn = row_fields-CellTurn row column header value hs vs fields h in
      subst (All (CitesCell records)) (sym turn.together) (
        All-append (CitesCell records) turn.found turn.later
          (All-weaken turn.found
            (λ field stands. record {
              row = row;
              column = column;
              headers = headers;
              values = values;
              header = header;
              row_is = stands.row_is;
              column_is = stands.column_is;
              behind = b;
              header_row = header_row;
              value_row = r;
              header_cell = From-first headers column header hs f;
              value_cell = From-first values column value vs g ∙ ap some (sym stands.original);
              named = stands.named;
            })
            (cell_fields-StandsAt row column header value turn.found turn.of_cell))
          (row_fields-CitesCell row (column + 1) values hs vs turn.later b r
            (From-next headers column header hs f) (From-next values column value vs g)
            turn.of_cells))

  extract_rows-CitesCell :
      (row : ℕ) (rows : List (List Text)) (fields : List ExtractedField)
      → 1 ≤ row
      → From records row rows
      → extract_rows row headers rows ≡ ok fields
      → All (CitesCell records) fields
  unfolding extract_rows
  extract_rows-CitesCell row [] fields b f h = subst (All _) (ok_inj h) tt
  extract_rows-CitesCell row (values ∷ rows) fields b f h =
      let turn = extract_rows-RowTurn row headers values rows fields h in
      subst (All (CitesCell records)) (sym turn.together) (
        All-append (CitesCell records) turn.found turn.later
          (row_fields-CitesCell row 0 values headers values turn.found b
            (From-first records row values rows f) (λ i. ap (get_elem? headers) (omega arith))
            (λ i. ap (get_elem? values) (omega arith)) turn.of_row)
          (extract_rows-CitesCell (row + 1) rows turn.later (omega arith)
            (From-next records row values rows f) turn.of_rows))

add_one : (i : ℕ) → 1 + i ≡ suc i
add_one i = omega arith

extract_records-CitesCell :
    (records : List (List Text)) (fields : List ExtractedField)
    → extract_records records ≡ ok fields
    → All (CitesCell records) fields
unfolding extract_records
extract_records-CitesCell [] fields h = subst (All _) (ok_inj h) tt
extract_records-CitesCell (headers ∷ rows) fields h =
    extract_rows-CitesCell (headers ∷ rows) headers refl 1 rows fields (omega arith)
      (λ i. ap (get_elem? (headers ∷ rows)) (add_one i)) (ground arith)

-- What `extract_csv` returns, it has read from cells of the parsed records: each field stands in a
-- row behind the header and in a column, by their numbers, where the cell holds its value, and its
-- predicate is the trimmed header of that column.
pub extract_csv-CitesCell :
    (s : Text) (fields : List ExtractedField)
    → extract_csv s ≡ ok fields
    → (records : List (List Text)) × (parse_csv s ≡ ok records) × All (CitesCell records) fields
unfolding extract_csv
extract_csv-CitesCell s fields h = of_records (parse_csv s) refl h
  where
    of_records :
        (parsed : Result PipelineError (List (List Text)))
        → parse_csv s ≡ parsed
        → (parsed >>= extract_records) ≡ ok fields
        → (records : List (List Text)) × (parse_csv s ≡ ok records) × All (CitesCell records) fields
    of_records (ok records) e k = (records, e, extract_records-CitesCell records fields k)
    of_records (err x) e k = absurd (cc)
