-- ===== src/Tests/Extraction.antt =====
-- The extractors of crates/casegraph-infrastructure/src/extractors.rs and the pipeline of
-- crates/casegraph-application/src/pipeline.rs on small artifacts.
use casegraph.Prelude.{ℕ, true, ◌≡◌, refl, none, some, List, [], ◌∷◌, All}
use casegraph.Prelude.Result.{ok}
use casegraph.Text.{Text, lit, is_empty, text_eq}
use casegraph.Text.Ascii.{eq_ignore_ascii_case}
use casegraph.Text.Decimal.{decimal}
use casegraph.Text.Search.{split_once, starts_with}
use casegraph.Text.Trim.{trim}
use casegraph.Text.Utf8.{bytes, encode, len}
use casegraph.Infrastructure.Extractors.Normalize.{normalize}
use casegraph.Domain.Value.{known, boolean}
use casegraph.Application.Pipeline.{ExtractedField, ExtractArtifactRequest}
use casegraph.Infrastructure.Extractors.{
  extract_text, extract_csv, extract_lines, split_inclusive, line_fields, line_field, find, field,
  extract_records, extract_rows, row_fields, cell_fields,
}
use casegraph.Infrastructure.Extractors.Csv.{parse_csv}
use casegraph.Infrastructure.Extractors.Csv.RoundTrip.{
  IsPrintable, print_rows, parse_csv-print_rows,
}
use casegraph.Infrastructure.Extractors.Spans.{Cites, extract_text-Cites}
use casegraph.Infrastructure.Extractors.Cells.{CitesCell, extract_csv-CitesCell}
use casegraph.Tests.Fixtures.{stored_version, the_case}

abbrev quoted_rows : List (List Text)
quoted_rows = (lit "name, first" ∷ lit "say \"yes\"" ∷ []) ∷ ([] ∷ lit "two\nlines" ∷ []) ∷ []

quoted_rows-IsPrintable : All IsPrintable quoted_rows
unfolding is_empty lit
quoted_rows-IsPrintable =
    (record { some_cell = refl; no_cr = refl }, (record { some_cell = refl; no_cr = refl }, tt))

parse_csv-print_rows_example : parse_csv (print_rows quoted_rows) ≡ ok quoted_rows
parse_csv-print_rows_example = parse_csv-print_rows quoted_rows quoted_rows-IsPrintable

abbrev notice : Text
notice = lit "Lease notice\r\nPaid : true\r\n"

abbrev notice_fields : List ExtractedField
notice_fields =
    record {
      subject_key = lit "document";
      predicate = lit "Paid";
      original_value = lit "true";
      normalized_value = known (boolean true);
      temporal = none;
      location = record {
        source_field = some (lit "Paid");
        paragraph_number = some 2;
        text_span_start = some 21;
        text_span_end = some 25;
        row_number = none;
        column_number = none;
      };
      extraction_confidence = none;
    }
    ∷ []

notice_run : extract_text notice ≡ ok notice_fields
unfolding extract_text extract_lines split_inclusive lit line_fields split_once is_empty len encode
    trim line_field find starts_with field normalize eq_ignore_ascii_case text_eq
notice_run = refl

extract_text-Cites_example : All (Cites notice) notice_fields
extract_text-Cites_example = extract_text-Cites notice notice_fields notice_run

abbrev sheet : Text
sheet = lit "name,paid\n,true\n"

abbrev sheet_fields : List ExtractedField
sheet_fields =
    record {
      subject_key = lit "row:1";
      predicate = lit "paid";
      original_value = lit "true";
      normalized_value = known (boolean true);
      temporal = none;
      location = record {
        source_field = some (lit "paid");
        paragraph_number = none;
        text_span_start = none;
        text_span_end = none;
        row_number = some 1;
        column_number = some 1;
      };
      extraction_confidence = none;
    }
    ∷ []

sheet_run : extract_csv sheet ≡ ok sheet_fields
unfolding extract_csv parse_csv lit is_empty extract_records trim extract_rows row_fields
    cell_fields field normalize eq_ignore_ascii_case text_eq decimal
sheet_run = refl

extract_csv-CitesCell_example :
    (records : List (List Text)) × (parse_csv sheet ≡ ok records)
    × All (CitesCell records) sheet_fields
extract_csv-CitesCell_example = extract_csv-CitesCell sheet sheet_fields sheet_run

abbrev extract_request : ExtractArtifactRequest
extract_request = record {
  case_id = the_case.id;
  artifact_version_id = stored_version.id;
  media_type = lit "text/plain; charset=utf-8";
  connector = none;
  actor = lit "clerk";
  correlation_id = none;
}

abbrev IsSignedBytes : List ℕ → Type 0
IsSignedBytes found = found ≡ bytes (lit "signed: true")
