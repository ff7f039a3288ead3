-- ===== src/Infrastructure/Extractors.antt =====
-- `CoreDeterministicExtractor` of crates/casegraph-infrastructure/src/extractors.rs. The JSON parser
-- is that of serde_json, and so it is a parameter.
pub mod Csv
pub mod Normalize
pub mod Spans
pub mod Cells
use Prim.Native.Nat.{Ordering}
use casegraph.Prelude.{
  ℕ, ◌+◌, Bool, true, false, not, ◌||◌, Option, none, some, List, [], ◌∷◌, ◌++◌, leb, ◌==◌, any,
  length, if◌then◌else◌,
}
use casegraph.Prelude.Result.{Result, ok, err, ok_or, ◌>>=◌, ◌>>◌, reject_if}
use casegraph.Text.{Text, lit, is_empty, text_cmp}
use casegraph.Text.Decimal.{decimal}
use casegraph.Text.Decode.{from_utf8}
use casegraph.Text.Number.{u32_max}
use casegraph.Text.Search.{split_once, starts_with}
use casegraph.Text.Trim.{trim}
use casegraph.Text.Utf8.{encode, len}
use casegraph.Application.Pipeline.{
  ArtifactFormat, plain_text, json, csv, PipelineError, PipelineFailureKind, pipeline_error,
  malformed_input, ExtractedLocation, ExtractedField, DeterministicExtractor,
}
use casegraph.Infrastructure.Extractors.Csv.{parse_csv, is_empty_list}
use casegraph.Infrastructure.Extractors.Normalize.{normalize}

-- What the program sees of a value of serde_json: a string, an object or an array, or another value
-- by its text.
pub data JsonItem : Type 0 where
  json_string json_other : Text → JsonItem
  json_nested : JsonItem

-- A document: an object with its keys, or something else.
pub data JsonDocument : Type 0 where
  json_object : List (Text × JsonItem) → JsonDocument
  json_value : JsonDocument

-- `field`.
unfoldable pub field : Text → Text → Text → ExtractedLocation → Result PipelineError ExtractedField
field subject predicate original location = do
  normalized ← normalize original
  ok (record {
    subject_key = subject;
    predicate = predicate;
    original_value = original;
    normalized_value = normalized.0;
    temporal = normalized.1;
    location = location;
    extraction_confidence = none;
  })

-- `u32::try_from`.
abbrev pub to_u32 : Text → ℕ → Result PipelineError ℕ
to_u32 message n = if leb n u32_max then ok n else err (pipeline_error malformed_input message)

abbrev pub prepend : ℕ → List Text → List Text
prepend c [] = (c ∷ []) ∷ []
prepend c (line ∷ lines) = (c ∷ line) ∷ lines

-- `split_inclusive('\n')`.
unfoldable pub split_inclusive : Text → List Text
split_inclusive [] = []
split_inclusive (c ∷ s) =
    let rest = split_inclusive s in if c == 10 then (c ∷ []) ∷ rest else prepend c rest

-- `trim_end_matches(['\r', '\n'])`.
abbrev pub trim_line_end : Text → Text
trim_line_end [] = []
trim_line_end (c ∷ s) =
    let rest = trim_line_end s in
    if is_empty rest then (if (c == 13) || (c == 10) then [] else c ∷ []) else c ∷ rest

-- `line.find(value)`: the byte position of the first occurrence.
unfoldable pub find : Text → Text → Option ℕ
find [] value = if starts_with [] value then some 0 else none
find (c ∷ s) value =
    let later = find s value in
    if starts_with (c ∷ s) value
    then some 0
    else elim later [ none ↦ none | some n ↦ some (length (encode c) + n) ]

abbrev pub usize_max : ℕ
usize_max = 18446744073709551615

-- `checked_add` on `usize`.
abbrev pub checked_add : Text → ℕ → ℕ → Result PipelineError ℕ
checked_add message a b =
    if leb (a + b) usize_max
    then ok (a + b)
    else err (pipeline_error PipelineFailureKind.internal message)

-- The field of a line, at an index and a byte offset, with a key and a value.
unfoldable pub line_field : ℕ → ℕ → Text → Text → Text → Result PipelineError (List ExtractedField)
line_field index offset line key value = do
  value_start ←
      ok_or
        (pipeline_error PipelineFailureKind.internal
          (lit "could not calculate deterministic text span"))
        (find line value)
  start ← checked_add (lit "text span exceeds supported range") offset value_start
  end ← checked_add (lit "text span exceeds supported range") start (len value)
  paragraph ← to_u32 (lit "document has too many lines") (index + 1)
  item ← field (lit "document") key value (record {
    source_field = some key;
    paragraph_number = some paragraph;
    text_span_start = some start;
    text_span_end = some end;
    row_number = none;
    column_number = none;
  })
  ok (item ∷ [])

-- The fields of a line: at most one.
unfoldable pub line_fields : ℕ → ℕ → Text → Result PipelineError (List ExtractedField)
line_fields index offset line = elim (split_once b':' line) [
  | none ↦ ok []
  | some (raw_key, raw_value) ↦
      (let key = trim raw_key in
        let value = trim raw_value in
        if is_empty key || is_empty value then ok [] else line_field index offset line key value)
]

-- The loop of `extract_text`.
unfoldable pub extract_lines : ℕ → ℕ → List Text → Result PipelineError (List ExtractedField)
extract_lines index offset [] = ok []
extract_lines index offset (line ∷ lines) =
    line_fields index offset (trim_line_end line) >>= λ found.
    checked_add (lit "document offset exceeds supported range") offset (len line) >>= λ next.
    extract_lines (index + 1) next lines >>= λ rest. ok (found ++ rest)

-- `extract_text`.
unfoldable pub extract_text : Text → Result PipelineError (List ExtractedField)
extract_text s = extract_lines 0 0 (split_inclusive s)

-- `keys.sort()`.
abbrev pub insert_key : Text × JsonItem → List (Text × JsonItem) → List (Text × JsonItem)
insert_key entry [] = entry ∷ []
insert_key entry (e ∷ entries) =
    let later = insert_key entry entries in
    elim (text_cmp e.0 entry.0) [
      | Ordering.lt ↦ e ∷ later
      | Ordering.eq ↦ entry ∷ e ∷ entries
      | Ordering.gt ↦ entry ∷ e ∷ entries
    ]

unfoldable pub sort_keys : List (Text × JsonItem) → List (Text × JsonItem)
sort_keys [] = []
sort_keys (e ∷ entries) = insert_key e (sort_keys entries)

abbrev pub json_location : Text → ExtractedLocation
json_location key = record {
  source_field = some key;
  paragraph_number = none;
  text_span_start = none;
  text_span_end = none;
  row_number = none;
  column_number = none;
}

-- The loop of `extract_json`.
unfoldable pub extract_entries : List (Text × JsonItem) → Result PipelineError (List ExtractedField)
extract_entries [] = ok []
extract_entries ((key, json_nested) ∷ entries) = extract_entries entries
extract_entries ((key, json_string original) ∷ entries) =
    field (lit "document") key original (json_location key) >>= λ found.
    extract_entries entries >>= λ rest. ok (found ∷ rest)
extract_entries ((key, json_other original) ∷ entries) =
    field (lit "document") key original (json_location key) >>= λ found.
    extract_entries entries >>= λ rest. ok (found ∷ rest)

-- `extract_json`, of what the parser returned.
unfoldable pub extract_json : Option JsonDocument → Result PipelineError (List ExtractedField)
extract_json none = err (pipeline_error malformed_input (lit "JSON artifact is malformed"))
extract_json (some json_value) = err (
    pipeline_error malformed_input
      (lit "JSON deterministic extraction requires a top-level object"))
extract_json (some (json_object entries)) = extract_entries (sort_keys entries)

-- The cell of a row, if it is not empty.
unfoldable pub cell_fields : ℕ → ℕ → Text → Text → Result PipelineError (List ExtractedField)
cell_fields row column header [] = ok []
cell_fields row column header (c ∷ s) = do
  row_number ← to_u32 (lit "CSV has too many rows") row
  column_number ← to_u32 (lit "CSV has too many columns") column
  item ← field (lit "row:" ++ decimal row) (trim header) (c ∷ s) (record {
    source_field = some (trim header);
    paragraph_number = none;
    text_span_start = none;
    text_span_end = none;
    row_number = some row_number;
    column_number = some column_number;
  })
  ok (item ∷ [])

-- The loop over the cells of a row, beside the headers.
unfoldable pub row_fields :
    ℕ → ℕ → List Text → List Text → Result PipelineError (List ExtractedField)
row_fields row column (header ∷ headers) (value ∷ values) =
    cell_fields row column header value >>= λ found.
    row_fields row (column + 1) headers values >>= λ rest. ok (found ++ rest)
row_fields row column [] values = ok []
row_fields row column (header ∷ headers) [] = ok []

-- The loop over the rows behind the header.
unfoldable pub extract_rows :
    ℕ → List Text → List (List Text) → Result PipelineError (List ExtractedField)
extract_rows row headers [] = ok []
extract_rows row headers (values ∷ rows) =
    reject_if (not (length values == length headers))
      (pipeline_error malformed_input (lit "CSV row width does not match the header"))
    >>= λ _. row_fields row 0 headers values >>= λ found.
        extract_rows (row + 1) headers rows >>= λ rest. ok (found ++ rest)

unfoldable pub extract_records : List (List Text) → Result PipelineError (List ExtractedField)
extract_records [] = ok []
extract_records (headers ∷ rows) = do
  reject_if (is_empty_list headers || any (λ header. is_empty (trim header)) headers)
      (pipeline_error malformed_input (lit "CSV header contains an empty field"))
  extract_rows 1 headers rows

-- `extract_csv`.
unfoldable pub extract_csv : Text → Result PipelineError (List ExtractedField)
extract_csv s = do records ← parse_csv s; extract_records records

abbrev pub extract_format :
    (Text → Option JsonDocument)
    → ArtifactFormat
    → Text
    → Result PipelineError (List ExtractedField)
extract_format read_json plain_text s = extract_text s
extract_format read_json json s = extract_json (read_json s)
extract_format read_json csv s = extract_csv s

-- `CoreDeterministicExtractor`.
unfoldable pub core_extractor : (Text → Option JsonDocument) → DeterministicExtractor
core_extractor read_json = record {
  name = lit "casegraph.core-deterministic";
  version = lit "1";
  supports = λ format. true;
  extract = λ format bytes.
      ok_or
        (pipeline_error malformed_input (lit "deterministic text extraction requires valid UTF-8"))
        (from_utf8 bytes)
      >>= λ s. extract_format read_json format s;
}
