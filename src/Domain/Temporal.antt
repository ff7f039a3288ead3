-- ===== src/Domain/Temporal.antt =====
-- crates/casegraph-domain/src/temporal.rs: timestamps, Gregorian dates and uncertain dates.
-- `i32` and `i64` values are integers, `u8` values are numbers. The calendar arithmetic stays far
-- inside `i64`, since years have at most 32 bits.
pub mod Valid
pub mod Real
pub mod Era
pub mod Civil
pub mod Shift
pub mod Next
pub mod Iso
use casegraph.Prelude.{
  ℕ, suc, ◌+◌, ◌-◌, ◌*◌, ◌/◌, ◌%◌, Bool, true, false, not, ◌&&◌, ◌||◌, Option, none, some, List,
  ltb, leb, ◌==◌, if◌then◌else◌, get_elem?, ◌++◌, [], ◌∷◌,
}
use casegraph.Prelude.Int.{ℤ, pos, negsuc, pos_part, ◌+ℤ◌, ◌-ℤ◌, ◌*ℤ◌, ltb_ℤ}
use casegraph.Prelude.Result.{Result, ok, err, ok_or, map_err, ◌>>=◌, ◌>>◌, reject_if}
use casegraph.Text.{Text, lit}
use casegraph.Text.Utf8.{bytes, len, slice_from, slice_to}
use casegraph.Text.Number.{parse_signed, parse_unsigned, u8_max, i32_max}
use casegraph.Text.Decimal.{padded, padded_signed}
use casegraph.Domain.Error.{DomainError, domain_error}

-- `TimestampMs`: milliseconds since the Unix epoch.
pub record TimestampMs : Type 0 where
  pub ms : ℤ

-- `TimestampMs::new`, and its `Deserialize`.
unfoldable pub timestamp : ℤ → Result DomainError TimestampMs
timestamp value =
    if ltb_ℤ value (pos 0)
    then err (domain_error (lit "timestamp_ms") (lit "must not precede the Unix epoch"))
    else ok (record { ms = value })

-- The derived order of timestamps.
abbrev pub timestamp_lt : TimestampMs → TimestampMs → Bool
timestamp_lt a b = ltb_ℤ a.ms b.ms

pub record Date : Type 0 where
  pub year : ℤ
  pub month : ℕ
  pub day : ℕ

abbrev pub date : ℤ → ℕ → ℕ → Date
date y m d = record { year = y; month = m; day = d }

-- `(1..=9999).contains(&year)`.
abbrev pub year_in_range : ℤ → Bool
year_in_range y = not (ltb_ℤ y (pos 1)) && not (ltb_ℤ (pos 9999) y)

-- `(1..=12).contains(&month)`.
abbrev pub month_in_range : ℕ → Bool
month_in_range m = leb 1 m && leb m 12

-- `year % k == 0`: the remainder of `i32` has the sign of the year, and its magnitude is this one.
abbrev divides : ℕ → ℤ → Bool
divides k (pos n) = n % k == 0
divides k (negsuc n) = suc n % k == 0

unfoldable pub is_leap_year : ℤ → Bool
is_leap_year y = divides 4 y && (not (divides 100 y) || divides 400 y)

unfoldable pub days_in_month : ℤ → ℕ → ℕ
unfolding is_leap_year
days_in_month y m =
    if (m == 4) || ((m == 6) || ((m == 9) || (m == 11)))
    then 30
    else if (m == 2) && is_leap_year y
    then 29
    else if m == 2
    then 28
    else 31

-- `Date::new`.
unfoldable pub new : ℤ → ℕ → ℕ → Result DomainError Date
new y m d =
    if not (year_in_range y) || not (month_in_range m)
    then err (domain_error (lit "date") (lit "year or month is out of range"))
    else if (d == 0) || ltb (days_in_month y m) d
    then err (domain_error (lit "date") (lit "day is out of range"))
    else ok (date y m d)

-- `div_euclid` by a positive number.
abbrev pub div_euclid : ℤ → ℕ → ℤ
div_euclid (pos n) k = pos (n / k)
div_euclid (negsuc n) k = negsuc (n / k)

-- `year_of_era` is not negative, so `pos_part` only changes its type; so too `shifted_month`.
unfoldable pub days_from_civil : ℤ → ℕ → ℕ → ℤ
days_from_civil y m d =
    let adjusted_year = y -ℤ pos (if leb m 2 then 1 else 0) in
    let era = div_euclid adjusted_year 400 in
    let year_of_era = pos_part (adjusted_year -ℤ era *ℤ pos 400) in
    let adjusted_month = if ltb 2 m then m - 3 else m + 9 in
    let day_of_year = pos ((153 * adjusted_month + 2) / 5 + d) -ℤ pos 1 in
    let day_of_era = pos (year_of_era * 365 + year_of_era / 4 - year_of_era / 100) +ℤ day_of_year in
    era *ℤ pos 146097 +ℤ day_of_era -ℤ pos 719468

-- `day_of_era` and what is computed from it are not negative.
pub year_of_era_of : ℕ → ℕ
year_of_era_of day_of_era =
    (day_of_era - day_of_era / 1460 + day_of_era / 36524 - day_of_era / 146096) / 365

pub month_prime_of : ℕ → ℕ
month_prime_of day_of_year = (5 * day_of_year + 2) / 153

-- `i32::try_from(year).unwrap_or(i32::MAX)`.
abbrev saturate_i32 : ℤ → ℤ
saturate_i32 (pos n) = if leb n i32_max then pos n else pos i32_max
saturate_i32 (negsuc n) = if leb n i32_max then negsuc n else pos i32_max

-- `u8::try_from(value).unwrap_or(default)`.
abbrev saturate_u8 : ℕ → ℕ → ℕ
saturate_u8 value default = if leb value u8_max then value else default

-- The part of `civil_from_days` after the era is split off.
pub civil_in_era : ℤ → ℕ → ℤ × ℕ × ℕ
civil_in_era era day_of_era =
    let year_of_era = year_of_era_of day_of_era in
    let day_of_year = day_of_era - (365 * year_of_era + year_of_era / 4 - year_of_era / 100) in
    let month_prime = month_prime_of day_of_year in
    let day = day_of_year - (153 * month_prime + 2) / 5 + 1 in
    let month = if ltb month_prime 10 then month_prime + 3 else month_prime - 9 in
    let year = pos year_of_era +ℤ era *ℤ pos 400 +ℤ pos (if leb month 2 then 1 else 0) in
    (saturate_i32 year, saturate_u8 month 12, saturate_u8 day 31)

pub civil_from_days : ℤ → ℤ × ℕ × ℕ
civil_from_days days =
    let shifted = days +ℤ pos 719468 in
    let era = div_euclid shifted 146097 in
    civil_in_era era (pos_part (shifted -ℤ era *ℤ pos 146097))

-- `Date::checked_add_days`. The sum of an ordinal and an `i32` never leaves `i64`, so
-- `checked_add` never fails.
unfoldable pub checked_add_days : Date → ℤ → Result DomainError Date
checked_add_days t days =
    let (y, m, d) = civil_from_days (days_from_civil t.year t.month t.day +ℤ days) in new y m d

-- What a slice of a text gives: a panic where the position is inside a character.
pub data Parsed : Type 0 where
  panic : Parsed
  parsed : Result DomainError Date → Parsed

-- `&value[from..to]`.
unfoldable pub slice : ℕ → ℕ → Text → Option Text
unfolding slice_from slice_to
slice from to value = elim (slice_from from value) [
  | none ↦ none
  | some rest ↦ slice_to (to - from) rest
]

abbrev pub byte_is : List ℕ → ℕ → ℕ → Bool
byte_is bs i b = elim (get_elem? bs i) [ none ↦ false | some c ↦ c == b ]

pub parse_day : ℤ → ℕ → Option Text → Parsed
parse_day year month none = panic
parse_day year month (some text) = parsed (do
  day ← ok_or (domain_error (lit "date") (lit "invalid day")) (parse_unsigned u8_max text)
  new year month day)

pub parse_month : Text → ℤ → Option Text → Parsed
unfolding parse_day
parse_month value year none = panic
parse_month value year (some text) = elim (parse_unsigned u8_max text) [
  | none ↦ parsed (err (domain_error (lit "date") (lit "invalid month")))
  | some month ↦ parse_day year month (slice 8 10 value)
]

pub parse_year : Text → Option Text → Parsed
unfolding parse_month
parse_year value none = panic
parse_year value (some text) = elim (parse_signed i32_max text) [
  | none ↦ parsed (err (domain_error (lit "date") (lit "invalid year")))
  | some year ↦ parse_month value year (slice 5 7 value)
]

-- The first test of `Date::parse_iso`.
abbrev pub has_layout : Text → Bool
has_layout value =
    (len value == 10) && (byte_is (bytes value) 4 b'-' && byte_is (bytes value) 7 b'-')

-- `Date::parse_iso`.
unfoldable pub parse_iso : Text → Parsed
unfolding parse_year
parse_iso value =
    if has_layout value
    then parse_year value (slice 0 4 value)
    else parsed (err (domain_error (lit "date") (lit "expected YYYY-MM-DD")))

-- `Date::to_iso`.
unfoldable pub to_iso : Date → Text
to_iso t = padded_signed 4 t.year ++ (b'-' ∷ (padded 2 t.month ++ (b'-' ∷ padded 2 t.day)))

-- The derived order of dates: by year, month and day.
abbrev pub date_lt : Date → Date → Bool
date_lt a b =
    ltb_ℤ a.year b.year
    || (not (ltb_ℤ b.year a.year)
        && (ltb a.month b.month || ((a.month == b.month) && ltb a.day b.day)))

pub data TemporalPrecision : Type 0 where
  instant day month year before after range unknown : TemporalPrecision

pub data TemporalValue : Type 0 where
  exact_date : Date → Text → TemporalValue
  month_value : ℤ → ℕ → Text → TemporalValue
  year_value : ℤ → Text → TemporalValue
  before_value : Date → Bool → Text → TemporalValue
  after_value : Date → Bool → Text → TemporalValue
  range_value : Date → Date → Text → TemporalValue
  unknown_value : Text → TemporalValue

-- `TemporalValue::validate`.
unfoldable pub validate : TemporalValue → Result DomainError (Unit {0})
validate (month_value y m original) =
    reject_if (not (year_in_range y) || not (month_in_range m))
      (domain_error (lit "temporal") (lit "invalid year or month"))
validate (year_value y original) =
    reject_if (not (year_in_range y)) (domain_error (lit "temporal") (lit "invalid year"))
validate (range_value earliest latest original) =
    reject_if (date_lt latest earliest)
      (domain_error (lit "temporal") (lit "range earliest date must not exceed latest date"))
validate _ = ok tt
