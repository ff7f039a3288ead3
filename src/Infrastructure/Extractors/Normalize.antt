-- ===== src/Infrastructure/Extractors/Normalize.antt =====
-- `normalize`, `parse_usd` and `parse_decimal` of
-- crates/casegraph-infrastructure/src/extractors.rs.
use casegraph.Prelude.{
  zero, suc, Bool, true, false, not, ◌&&◌, ◌||◌, ◌++◌, Option, none, some, ltb, all, if◌then◌else◌,
}
use casegraph.Prelude.Int.{ℤ, pos, negsuc}
use casegraph.Prelude.Result.{Result, ok, err, ok_or, map_err, ◌>>=◌, ◌>>◌, reject_if}
use casegraph.Text.{Text, lit, is_empty}
use casegraph.Text.Ascii.{is_ascii_digit, eq_ignore_ascii_case}
use casegraph.Text.Trim.{trim}
use casegraph.Text.Utf8.{bytes, len}
use casegraph.Text.Search.{split_once, strip_prefix, remove_all}
use casegraph.Text.Number.{parse_signed, u8_max, i64_max}
use casegraph.Domain.Temporal.{Date, TemporalValue, exact_date, parse_iso, Parsed, panic, parsed}
use casegraph.Domain.Value.{
  Decimal, Money, MaterialValue, KnowledgeValue, known, unknown, boolean, date_value, money_value,
  integer, decimal_value, text, decimal, money,
}
use casegraph.Application.Pipeline.{PipelineError, pipeline_error, validation_rejected}

abbrev pub rejected : Text → PipelineError
rejected message = pipeline_error validation_rejected message

-- `whole.strip_prefix('-').map_or((false, whole), |digits| (true, digits))`.
abbrev pub sign_of : Text → Bool × Text
sign_of whole = elim (strip_prefix b'-' whole) [
  | none ↦ (false, whole)
  | some digits ↦ (true, digits)
]

-- `checked_neg` of an `i64` that is not negative: it never fails.
abbrev pub negated : Bool → ℤ → ℤ
negated false value = value
negated true (pos zero) = pos 0
negated true (pos (suc n)) = negsuc n
negated true (negsuc n) = pos (suc n)

-- The part of `parse_decimal` behind the test of the digits.
unfoldable pub scaled_decimal : Bool → Text → Text → Result PipelineError Decimal
scaled_decimal negative whole fraction = do
  reject_if (ltb u8_max (len fraction)) (rejected (lit "decimal scale exceeds supported range"))
  reject_if (ltb 18 (len fraction)) (rejected (lit "decimal scale exceeds supported range"))
  coefficient ←
      ok_or (rejected (lit "decimal coefficient exceeds supported range"))
        (parse_signed i64_max (whole ++ fraction))
  map_err (λ _. rejected (lit "decimal is invalid"))
      (decimal (negated negative coefficient) (len fraction))

abbrev pub all_digits : Text → Bool
all_digits s = not (is_empty s) && all is_ascii_digit (bytes s)

-- `parse_decimal`.
unfoldable pub parse_decimal : Text → Result PipelineError (Option Decimal)
parse_decimal value = elim (split_once b'.' value) [
  | none ↦ ok none
  | some (whole, fraction) ↦
      (let (negative, unsigned_whole) = sign_of whole in
        if not (all_digits fraction) || not (all_digits unsigned_whole)
        then ok none
        else scaled_decimal negative unsigned_whole fraction >>= λ d. ok (some d))
]

-- `parse_usd`.
unfoldable pub parse_usd : Text → Result PipelineError (Option Money)
parse_usd value = elim (strip_prefix b'$' value) [
  | none ↦ ok none
  | some number ↦ do
    found ← parse_decimal (remove_all b',' number)
    amount ← ok_or (rejected (lit "monetary value is malformed")) found
    item ← map_err (λ _. rejected (lit "money is invalid")) (money amount (lit "USD"))
    ok (some item)
]

-- The last tests of `normalize`: an integer, a decimal, or a text.
unfoldable pub normalize_number : Text → Text → Result PipelineError MaterialValue
normalize_number original trimmed = elim (parse_signed i64_max trimmed) [
  | some n ↦ ok (integer n)
  | none ↦ do
    found ← parse_decimal trimmed
    ok (elim found [ some d ↦ decimal_value d | none ↦ text original ])
]

unfoldable pub normalize_amount : Text → Text → Result PipelineError MaterialValue
normalize_amount original trimmed = do
  found ← parse_usd trimmed
  elim found [ some m ↦ ok (money_value m) | none ↦ normalize_number original trimmed ]

-- `if let Ok(date) = Date::parse_iso(trimmed)`; it never panics (Domain.Temporal.Iso).
abbrev pub date_of : Parsed → Option Date
date_of panic = none
date_of (parsed (ok d)) = some d
date_of (parsed (err e)) = none

-- `normalize`.
unfoldable pub normalize : Text → Result PipelineError (KnowledgeValue × Option TemporalValue)
normalize original =
    let trimmed = trim original in
    if eq_ignore_ascii_case trimmed (lit "null") || eq_ignore_ascii_case trimmed (lit "unknown")
    then ok (unknown, none)
    else if eq_ignore_ascii_case trimmed (lit "true")
    then ok (known (boolean true), none)
    else if eq_ignore_ascii_case trimmed (lit "false")
    then ok (known (boolean false), none)
    else elim (date_of (parse_iso trimmed)) [
      | some d ↦ ok (known (date_value d), some (exact_date d original))
      | none ↦ (normalize_amount original trimmed >>= λ value. ok (known value, none))
    ]
