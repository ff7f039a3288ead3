-- ===== src/Infrastructure/Extractors/Csv/RoundTrip.antt =====
-- What `parse_csv` of crates/casegraph-infrastructure/src/extractors.rs makes of rows that are
-- printed with every cell in quotes.
use casegraph.Prelude.{
  ℕ, Bool, true, false, not, ◌≡◌, refl, sym, ap, ◌∙◌, List, [], ◌∷◌, ◌++◌, ◌==◌, any, All, ==_iff,
  append_nil, append_assoc, arith, if◌then◌else◌,
}
use casegraph.Prelude.Result.{ok}
use casegraph.Text.{Text, is_empty}
use casegraph.Infrastructure.Extractors.Csv.{
  Scan, drop_cr, finish, parse_csv, quote_follows, scan, step,
}

-- A text with its quotes doubled and the closing quote, before `rest`.
abbrev pub print_quoted : Text → Text → Text
print_quoted [] rest = b'"' ∷ rest
print_quoted (c ∷ s) rest =
    let later = print_quoted s rest in if c == b'"' then b'"' ∷ b'"' ∷ later else c ∷ later

abbrev pub print_cell : Text → Text → Text
print_cell s rest = b'"' ∷ print_quoted s rest

abbrev pub print_row : List Text → Text → Text
print_row [] rest = 10 ∷ rest
print_row (x ∷ []) rest = print_cell x (10 ∷ rest)
print_row (x ∷ y ∷ xs) rest = print_cell x (b',' ∷ print_row (y ∷ xs) rest)

abbrev pub print_rows : List (List Text) → Text
print_rows [] = []
print_rows (row ∷ rows) = print_row row (print_rows rows)

abbrev pub ends_with_cr : Text → Bool
ends_with_cr [] = false
ends_with_cr (c ∷ []) = c == 13
ends_with_cr (c ∷ d ∷ s) = ends_with_cr (d ∷ s)

abbrev pub last_cell : List Text → Text
last_cell [] = []
last_cell (x ∷ []) = x
last_cell (x ∷ y ∷ xs) = last_cell (y ∷ xs)

-- A row with a cell that is not empty, whose last cell does not end with a carriage return.
pub record IsPrintable (row : List Text) : Type 0 where
  pub some_cell : any (λ value. not (is_empty value)) row ≡ true
  pub no_cr : ends_with_cr (last_cell row) ≡ false

abbrev state : List (List Text) → List Text → Text → Bool → Scan
state records current field quoted = record {
  records = records;
  current = current;
  field = field;
  quoted = quoted;
  skip = false;
}

drop_cr_lem : (s : Text) → ends_with_cr s ≡ false → drop_cr s ≡ s
drop_cr_lem [] h = refl
drop_cr_lem (c ∷ []) h = ground arith
drop_cr_lem (c ∷ d ∷ s) h = ap (λ rest. c ∷ rest) (drop_cr_lem (d ∷ s) h)

-- Inside quotes every character but a quote is taken as it is.
step_quoted :
    (records : List (List Text)) (current : List Text) (field : Text) (c : ℕ) (rest : Text)
    → (c == b'"') ≡ false
    → step (state records current field true) c rest
      ≡ state records current (field ++ (c ∷ [])) true
unfolding step
step_quoted records current field c rest h = ground arith

step_closing :
    (records : List (List Text)) (current : List Text) (field rest : Text)
    → quote_follows rest ≡ false
    → step (state records current field true) b'"' rest ≡ state records current field false
unfolding step
step_closing records current field rest h = ground arith

step_doubled :
    (records : List (List Text)) (current : List Text) (field rest : Text)
    → scan (state records current field true) (b'"' ∷ b'"' ∷ rest)
      ≡ scan (state records current (field ++ (b'"' ∷ [])) true) rest
unfolding scan step
step_doubled records current field rest = refl

quoted_start :
    (s rest : Text) (c : ℕ)
    → (c == b'"') ≡ true
    → print_quoted (c ∷ s) rest ≡ b'"' ∷ b'"' ∷ print_quoted s rest
quoted_start s rest c h = ground arith

quoted_other :
    (s rest : Text) (c : ℕ)
    → (c == b'"') ≡ false
    → print_quoted (c ∷ s) rest ≡ c ∷ print_quoted s rest
quoted_other s rest c h = ground arith

-- One more character of the text in quotes.
scan_character :
    (c : ℕ) (s rest : Text) (records : List (List Text)) (current : List Text) (field : Text)
    → ((f : Text)
        → scan (state records current f true) (print_quoted s rest)
          ≡ scan (state records current (f ++ s) false) rest)
    → (b : Bool) → (c == b'"') ≡ b
    → scan (state records current field true) (print_quoted (c ∷ s) rest)
      ≡ scan (state records current ((field ++ (c ∷ [])) ++ s) false) rest
unfolding scan
scan_character c s rest records current field later true e =
    ap (λ t. scan (state records current field true) t) (quoted_start s rest c e)
    ∙ (step_doubled records current field (print_quoted s rest)
        ∙ (later (field ++ (b'"' ∷ []))
            ∙ ap (λ d. scan (state records current ((field ++ (d ∷ [])) ++ s) false) rest)
                (sym ((==_iff c b'"').0 e))))
scan_character c s rest records current field later false e =
    ap (λ t. scan (state records current field true) t) (quoted_other s rest c e)
    ∙ (ap (λ st. scan st (print_quoted s rest))
          (step_quoted records current field c (print_quoted s rest) e)
        ∙ later (field ++ (c ∷ [])))

scan-print_quoted :
    (s rest : Text) (records : List (List Text)) (current : List Text) (field : Text)
    → quote_follows rest ≡ false
    → scan (state records current field true) (print_quoted s rest)
      ≡ scan (state records current (field ++ s) false) rest
unfolding scan
scan-print_quoted [] rest records current field h =
    ap (λ st. scan st rest) (step_closing records current field rest h)
    ∙ ap (λ f. scan (state records current f false) rest) (append_nil field)
scan-print_quoted (c ∷ s) rest records current field h =
    scan_character c s rest records current field
      (λ f. scan-print_quoted s rest records current f h) (c == b'"') refl
    ∙ ap (λ f. scan (state records current f false) rest) (append_assoc field (c ∷ []) s)

scan-print_cell :
    (s rest : Text) (records : List (List Text)) (current : List Text)
    → quote_follows rest ≡ false
    → scan (state records current [] false) (print_cell s rest)
      ≡ scan (state records current s false) rest
unfolding scan step
scan-print_cell s rest records current h = scan-print_quoted s rest records current [] h

-- What `end_record` does with a row whose last cell is printable.
abbrev with_row : List (List Text) → List Text → List (List Text)
with_row records row =
    if any (λ value. not (is_empty value)) row then records ++ (row ∷ []) else records

scan-print_last :
    (x rest : Text) (records : List (List Text)) (current : List Text)
    → ends_with_cr x ≡ false
    → scan (state records current [] false) (print_row (x ∷ []) rest)
      ≡ scan (state (with_row records (current ++ (x ∷ []))) [] [] false) rest
unfolding scan step
scan-print_last x rest records current h =
    scan-print_cell x (10 ∷ rest) records current refl
    ∙ ap (λ y. scan (state (with_row records (current ++ (y ∷ []))) [] [] false) rest)
        (drop_cr_lem x h)

scan-print_cells :
    (xs : List Text) (x rest : Text) (records : List (List Text)) (current : List Text)
    → ends_with_cr (last_cell (x ∷ xs)) ≡ false
    → scan (state records current [] false) (print_row (x ∷ xs) rest)
      ≡ scan (state (with_row records (current ++ (x ∷ xs))) [] [] false) rest
unfolding scan step
scan-print_cells [] x rest records current h = scan-print_last x rest records current h
scan-print_cells (y ∷ xs) x rest records current h =
    scan-print_cell x (b',' ∷ print_row (y ∷ xs) rest) records current refl
    ∙ (scan-print_cells xs y rest records (current ++ (x ∷ [])) h
        ∙ ap (λ row. scan (state (with_row records row) [] [] false) rest)
            (append_assoc current (x ∷ []) (y ∷ xs)))

scan-print_row :
    (row : List Text) (rest : Text) (records : List (List Text))
    → IsPrintable row
    → scan (state records [] [] false) (print_row row rest)
      ≡ scan (state (records ++ (row ∷ [])) [] [] false) rest
scan-print_row [] rest records p = let h = p.some_cell in absurd (cc)
scan-print_row (x ∷ xs) rest records p =
    scan-print_cells xs x rest records [] p.no_cr
    ∙ ap (λ b. scan (state (if b then records ++ ((x ∷ xs) ∷ []) else records) [] [] false) rest)
        p.some_cell

scan-print_rows :
    (rows records : List (List Text))
    → All IsPrintable rows
    → scan (state records [] [] false) (print_rows rows) ≡ state (records ++ rows) [] [] false
unfolding scan
scan-print_rows [] records p = ap (λ rs. state rs [] [] false) (append_nil records)
scan-print_rows (row ∷ rows) records p =
    scan-print_row row (print_rows rows) records p.0
    ∙ (scan-print_rows rows (records ++ (row ∷ [])) p.1
        ∙ ap (λ rs. state rs [] [] false) (append_assoc records (row ∷ []) rows))

-- Rows that are printed with every cell in quotes and every quote doubled, commas between the cells
-- and a newline behind each row, are read back as they were, whatever commas, newlines and quotes
-- their cells hold. The rows have a cell that is not empty, and their last cell does not end with a
-- carriage return.
pub parse_csv-print_rows :
    (rows : List (List Text)) → All IsPrintable rows → parse_csv (print_rows rows) ≡ ok rows
unfolding parse_csv is_empty
parse_csv-print_rows rows p = ap finish (scan-print_rows rows [] p)
