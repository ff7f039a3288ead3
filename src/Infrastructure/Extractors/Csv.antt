-- ===== src/Infrastructure/Extractors/Csv.antt =====
-- `parse_csv` of crates/casegraph-infrastructure/src/extractors.rs.
pub mod RoundTrip
use casegraph.Prelude.{
  ℕ, Bool, true, false, not, ◌&&◌, ◌||◌, Option, none, some, List, [], ◌∷◌, ◌++◌, ◌==◌, any,
  if◌then◌else◌,
}
use casegraph.Prelude.Result.{Result, ok, err}
use casegraph.Text.{Text, lit, is_empty}
use casegraph.Application.Pipeline.{PipelineError, pipeline_error, malformed_input}

-- The variables of the loop. `skip` says that the next character has been consumed by
-- `characters.next()`.
pub record Scan : Type 0 where
  pub records : List (List Text)
  pub current : List Text
  pub field : Text
  pub quoted : Bool
  pub skip : Bool

-- `peek() == Some(&'"')`.
abbrev pub quote_follows : Text → Bool
quote_follows [] = false
quote_follows (c ∷ rest) = c == b'"'

-- `if field.ends_with('\r') { field.pop(); }`.
abbrev pub drop_cr : Text → Text
drop_cr [] = []
drop_cr (c ∷ []) = if c == 13 then [] else c ∷ []
drop_cr (c ∷ d ∷ s) = c ∷ drop_cr (d ∷ s)

-- The part of the loop at the end of a line.
abbrev pub end_record : Scan → Scan
end_record s =
    let row = s.current ++ (drop_cr s.field ∷ []) in
    record {
      records =
          if any (λ value. not (is_empty value)) row then s.records ++ (row ∷ []) else s.records;
      current = [];
      field = [];
      quoted = s.quoted;
      skip = false;
    }

abbrev pub with_field : Scan → Text → Bool → Bool → Scan
with_field s field quoted skip = record {
  records = s.records;
  current = s.current;
  field = field;
  quoted = quoted;
  skip = skip;
}

-- One turn of the loop, on a character and what follows it.
unfoldable pub step : Scan → ℕ → Text → Scan
step s c rest =
    if s.skip
    then with_field s s.field s.quoted false
    else if (c == b'"') && (s.quoted && quote_follows rest)
    then with_field s (s.field ++ (b'"' ∷ [])) s.quoted true
    else if c == b'"'
    then with_field s s.field (not s.quoted) false
    else if (c == b',') && not s.quoted
    then record {
      records = s.records;
      current = s.current ++ (s.field ∷ []);
      field = [];
      quoted = s.quoted;
      skip = false;
    }
    else if (c == 10) && not s.quoted
    then end_record s
    else with_field s (s.field ++ (c ∷ [])) s.quoted false

unfoldable pub scan : Scan → Text → Scan
scan s [] = s
scan s (c ∷ rest) = scan (step s c rest) rest

abbrev pub no_records : Scan
no_records = record { records = []; current = []; field = []; quoted = false; skip = false }

abbrev pub is_empty_list : List Text → Bool
is_empty_list [] = true
is_empty_list (x ∷ xs) = false

-- What follows the loop.
abbrev pub finish : Scan → Result PipelineError (List (List Text))
finish s =
    if s.quoted
    then err (pipeline_error malformed_input (lit "CSV contains an unterminated quoted field"))
    else if not (is_empty s.field) || not (is_empty_list s.current)
    then ok (s.records ++ ((s.current ++ (s.field ∷ [])) ∷ []))
    else ok s.records

-- `parse_csv`.
unfoldable pub parse_csv : Text → Result PipelineError (List (List Text))
unfolding scan step
parse_csv text = finish (scan no_records text)
