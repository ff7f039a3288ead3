-- ===== src/Infrastructure/Extractors/Spans.antt =====
-- The text spans of `extract_text` of crates/casegraph-infrastructure/src/extractors.rs.
mod Pieces
use mathlib.Core.Path.{subst}
use casegraph.Prelude.{
  ℕ, ◌+◌, Bool, true, false, ◌&&◌, ◌||◌, ◌≤◌, ◌≢◌, ◌≡◌, ◌⊎◌, inl, inr, refl, sym, ap, ◌∙◌, Option,
  none, some, List, [], ◌∷◌, ◌++◌, ◌==◌, ==_iff, All, All-append, length, length-append,
  append_assoc, arith, if◌then◌else◌,
}
use casegraph.Prelude.Result.{ok}
use casegraph.Application.Monad.Keeps.{ok_inj}
use casegraph.Text.{Text, is_empty}
use casegraph.Text.Search.{split_once, starts_with}
use casegraph.Text.Trim.{trim}
use casegraph.Text.Utf8.{bytes, encode, len}
use casegraph.Application.Pipeline.{ExtractedField}
use casegraph.Infrastructure.Extractors.Spans.Pieces.{
  find-Found, joined, find-first, joined-lines, joined_one_more, split_once-parts, len-append,
  trim_line_end-append,
}
use casegraph.Infrastructure.Extractors.{
  field, find, line_field, line_fields, extract_lines, extract_text, split_inclusive, trim_line_end,
  prepend,
}

-- A field cites a line of the text: its paragraph is the number of the line, from 1 on, its predicate
-- and its value are what stands before and behind the first colon of the line, trimmed, and its span
-- is the first place in the line, by bytes of the text, where the characters of the value stand.
pub record Cites (text : Text) (f : ExtractedField) : Type 0 where
  pub earlier : List Text
  pub line : Text
  pub later : List Text
  pub lines : split_inclusive text ≡ earlier ++ (line ∷ later)
  pub numbered : f.location.paragraph_number ≡ some (length earlier + 1)
  pub raw_key : Text
  pub raw_value : Text
  pub keyed : trim_line_end line ≡ raw_key ++ (b':' ∷ raw_value)
  pub no_colon : All (λ c. c ≢ b':') raw_key
  pub named : f.predicate ≡ trim raw_key
  pub original : f.original_value ≡ trim raw_value
  pub left : Text
  pub right : Text
  pub stands : trim_line_end line ≡ left ++ (f.original_value ++ right)
  pub first : (l r : Text) → trim_line_end line ≡ l ++ (f.original_value ++ r) → len left ≤ len l
  pub after : Text
  pub whole : text ≡ (joined earlier ++ left) ++ (f.original_value ++ after)
  pub start : f.location.text_span_start ≡ some (len (joined earlier ++ left))
  pub end : f.location.text_span_end ≡ some (len (joined earlier ++ left) + len f.original_value)

-- What `line_field` returns.
record OneField (index offset : ℕ) (line key value : Text) (found : List ExtractedField)
    : Type 0 where
  item : ExtractedField
  position : ℕ
  alone : found ≡ item ∷ []
  at : find line value ≡ some position
  numbered : item.location.paragraph_number ≡ some (index + 1)
  named : item.predicate ≡ key
  original : item.original_value ≡ value
  start : item.location.text_span_start ≡ some (offset + position)
  end : item.location.text_span_end ≡ some (offset + position + len value)

-- What `line_fields` returns, if it returns a field.
record LineField (index offset : ℕ) (line : Text) (found : List ExtractedField) : Type 0 where
  raw_key : Text
  raw_value : Text
  split : split_once b':' line ≡ some (raw_key, raw_value)
  one : OneField index offset line (trim raw_key) (trim raw_value) found

line_field-OneField :
    (index offset : ℕ) (line key value : Text) (found : List ExtractedField)
    → line_field index offset line key value ≡ ok found
    → OneField index offset line key value found
unfolding line_field field
line_field-OneField index offset line key value found h = ground arith

of_value :
    (index offset : ℕ) (line key value : Text) (found : List ExtractedField) (b : Bool)
    → (if b then ok [] else line_field index offset line key value) ≡ ok found
    → (found ≡ []) ⊎ OneField index offset line key value found
of_value index offset line key value found true h = inl (sym (ok_inj h))
of_value index offset line key value found false h =
    inr (line_field-OneField index offset line key value found h)

of_parts :
    (index offset : ℕ) (line : Text) (found : List ExtractedField) (parts : Option (Text × Text))
    → split_once b':' line ≡ parts
    → elim parts [
      | none ↦ ok []
      | some (raw_key, raw_value) ↦
          (if is_empty (trim raw_key) || is_empty (trim raw_value)
            then ok []
            else line_field index offset line (trim raw_key) (trim raw_value))
    ]
      ≡ ok found
    → (found ≡ []) ⊎ LineField index offset line found
of_parts index offset line found none e h = inl (sym (ok_inj h))
of_parts index offset line found (some (k, v)) e h =
    elim (of_value index offset line (trim k) (trim v) found
      (is_empty (trim k) || is_empty (trim v)) h) [
        | inl none_found ↦ inl none_found
        | inr one ↦ inr (record { raw_key = k; raw_value = v; split = e; one = one })
      ]

line_fields-LineField :
    (index offset : ℕ) (line : Text) (found : List ExtractedField)
    → line_fields index offset line ≡ ok found
    → (found ≡ []) ⊎ LineField index offset line found
unfolding line_fields
line_fields-LineField index offset line found h =
    of_parts index offset line found (split_once b':' line) refl h

regroup :
    (done before value after rest : Text)
    → done ++ ((before ++ (value ++ after)) ++ rest)
      ≡ (done ++ before) ++ (value ++ (after ++ rest))
regroup done before value after rest =
    ap (λ t. done ++ t)
      (append_assoc before (value ++ after) rest
        ∙ ap (λ t. before ++ t) (append_assoc value after rest))
    ∙ sym (append_assoc done before (value ++ (after ++ rest)))

LineField-Cites :
    (text line : Text) (earlier later : List Text) (index offset : ℕ) (found : List ExtractedField)
    → split_inclusive text ≡ earlier ++ (line ∷ later)
    → index ≡ length earlier
    → offset ≡ len (joined earlier)
    → LineField index offset (trim_line_end line) found
    → All (Cites text) found
LineField-Cites text line earlier later index offset found e i k field =
    let one = field.one in
    let cut = trim_line_end line in
    let value = trim field.raw_value in
    let (left, right, stands, n) = find-Found cut value one.position one.at in
    let (keyed, no_colon) = split_once-parts b':' cut field.raw_key field.raw_value field.split in
    let (ending, trimmed) = trim_line_end-append line in
    let total = len-append (joined earlier) left in
    let width = ap len one.original in
    let cited : Cites text one.item = record {
      earlier = earlier;
      line = line;
      later = later;
      lines = e;
      numbered = one.numbered ∙ ap some (omega arith);
      raw_key = field.raw_key;
      raw_value = field.raw_value;
      keyed = keyed;
      no_colon = no_colon;
      named = one.named;
      original = one.original;
      left = left;
      right = right;
      stands = stands ∙ ap (λ v. left ++ (v ++ right)) (sym one.original);
      first = λ l r h.
          let low =
            find-first cut value one.position one.at l r
              (h ∙ ap (λ v. l ++ (v ++ r)) one.original) in
          omega arith;
      after = right ++ (ending ++ joined later);
      whole =
          joined-lines text line earlier later e
          ∙ (ap (λ l. joined earlier ++ (l ++ joined later)) trimmed
              ∙ (ap (λ t. joined earlier ++ t) (append_assoc cut ending (joined later))
                  ∙ (ap (λ l. joined earlier ++ (l ++ (ending ++ joined later))) stands
                      ∙ (regroup (joined earlier) left value right (ending ++ joined later)
                          ∙ ap
                              (λ v.
                                (joined earlier ++ left)
                                ++ (v ++ (right ++ (ending ++ joined later))))
                              (sym one.original)))));
      start = one.start ∙ ap some (omega arith);
      end = one.end ∙ ap some (omega arith);
    } in
    subst (All (Cites text)) (sym one.alone) (cited, tt)

-- What a turn of the loop has done.
record Turn (index offset : ℕ) (line : Text) (lines : List Text) (fields : List ExtractedField)
    : Type 0 where
  found : List ExtractedField
  later : List ExtractedField
  of_line : line_fields index offset (trim_line_end line) ≡ ok found
  of_lines : extract_lines (index + 1) (offset + len line) lines ≡ ok later
  together : fields ≡ found ++ later

extract_lines-Turn :
    (index offset : ℕ) (line : Text) (lines : List Text) (fields : List ExtractedField)
    → extract_lines index offset (line ∷ lines) ≡ ok fields
    → Turn index offset line lines fields
unfolding extract_lines
extract_lines-Turn index offset line lines fields h = ground arith

line_fields-Cites :
    (text line : Text) (earlier later : List Text) (index offset : ℕ) (found : List ExtractedField)
    → split_inclusive text ≡ earlier ++ (line ∷ later)
    → index ≡ length earlier
    → offset ≡ len (joined earlier)
    → line_fields index offset (trim_line_end line) ≡ ok found
    → All (Cites text) found
line_fields-Cites text line earlier later index offset found e i k h =
    elim (line_fields-LineField index offset (trim_line_end line) found h) [
      | inl none_found ↦ subst (All (Cites text)) (sym none_found) tt
      | inr field ↦ LineField-Cites text line earlier later index offset found e i k field
    ]

extract_lines-Cites :
    (text : Text) (earlier lines : List Text) (index offset : ℕ) (fields : List ExtractedField)
    → split_inclusive text ≡ earlier ++ lines
    → index ≡ length earlier
    → offset ≡ len (joined earlier)
    → extract_lines index offset lines ≡ ok fields
    → All (Cites text) fields
unfolding extract_lines
extract_lines-Cites text earlier [] index offset fields e i k h =
    subst (All (Cites text)) (ok_inj h) tt
extract_lines-Cites text earlier (line ∷ lines) index offset fields e i k h =
    let turn = extract_lines-Turn index offset line lines fields h in
    let count = length-append earlier (line ∷ []) in
    let total = ap len (joined_one_more earlier line) ∙ len-append (joined earlier) line in
    subst (All (Cites text)) (sym turn.together) (
      All-append (Cites text) turn.found turn.later
        (line_fields-Cites text line earlier lines index offset turn.found e i k turn.of_line)
        (extract_lines-Cites text (earlier ++ (line ∷ [])) lines (index + 1) (offset + len line)
          turn.later (e ∙ sym (append_assoc earlier (line ∷ []) lines)) (omega arith) (omega arith)
          turn.of_lines))

-- Each field that `extract_text` returns cites a line of the text: the paragraph is the number of the
-- line, the predicate and the value are what stands before and behind the first colon of the line,
-- trimmed, and the span is the first place in that line, by bytes of the text, where the characters
-- of the value stand. (That place can lie in the key.)
pub extract_text-Cites :
    (s : Text) (fields : List ExtractedField) → extract_text s ≡ ok fields → All (Cites s) fields
unfolding extract_text len bytes
extract_text-Cites s fields h =
    extract_lines-Cites s [] (split_inclusive s) 0 0 fields refl refl refl h
