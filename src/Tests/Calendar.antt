-- ===== src/Tests/Calendar.antt =====
-- The calendar of crates/casegraph-domain/src/temporal.rs at concrete dates.
use casegraph.Prelude.{◌≡◌, ◌≢◌, refl, ◌↔◌, arith}
use casegraph.Prelude.Int.{pos, ◌+ℤ◌, ◌-ℤ◌, ◌*ℤ◌}
use casegraph.Prelude.Result.{ok}
use casegraph.Text.{lit}
use casegraph.Domain.Temporal.{
  Date, date, panic, parsed, new, days_from_civil, civil_from_days, checked_add_days, parse_iso,
  to_iso, days_in_month,
}
use casegraph.Domain.Temporal.Valid.{IsValid}
use casegraph.Domain.Temporal.Real.{IsReal, new-IsReal}
use casegraph.Domain.Temporal.Shift.{ordinal, Lands, IsI32, checked_add_days-Lands}
use casegraph.Domain.Temporal.Next.{
  as_date, next, civil_from_days-ordinal, ordinal_counts_days, checked_add_days_reaches,
}
use casegraph.Domain.Temporal.Iso.{parse_iso-ne-panic, parse_iso-to_iso}

abbrev leap_eve : Date
leap_eve = date (pos 2024) 2 28

abbrev march_first : Date
march_first = date (pos 2024) 3 1

leap_eve-IsValid : IsValid leap_eve
unfolding days_in_month
leap_eve-IsValid = record {
  year_in = (omega arith, omega arith);
  month_in = (omega arith, omega arith);
  day_in = (omega arith, omega arith);
}

march_first-IsValid : IsValid march_first
unfolding days_in_month
march_first-IsValid = record {
  year_in = (omega arith, omega arith);
  month_in = (omega arith, omega arith);
  day_in = (omega arith, omega arith);
}

two-IsI32 : IsI32 (pos 2)
two-IsI32 = (omega arith, omega arith)

two_days_on : ordinal leap_eve +ℤ pos 2 ≡ ordinal march_first
unfolding days_from_civil ◌+ℤ◌ ◌-ℤ◌ ◌*ℤ◌
two_days_on = refl

new-IsReal_example : (new (pos 2024) 2 28 ≡ ok leap_eve) ↔ (IsReal leap_eve × (leap_eve ≡ leap_eve))
new-IsReal_example = new-IsReal (pos 2024) 2 28 leap_eve

checked_add_days-Lands_example :
    Lands (ordinal leap_eve +ℤ pos 2) (checked_add_days leap_eve (pos 2))
checked_add_days-Lands_example = checked_add_days-Lands leap_eve (pos 2) leap_eve-IsValid two-IsI32

checked_add_days_reaches_example : checked_add_days leap_eve (pos 2) ≡ ok march_first
checked_add_days_reaches_example =
    checked_add_days_reaches leap_eve march_first (pos 2) leap_eve-IsValid march_first-IsValid
      two-IsI32 two_days_on

ordinal_counts_days_example :
    (ordinal (date (pos 1970) 1 1) ≡ pos 0) × (ordinal (next leap_eve) ≡ ordinal leap_eve +ℤ pos 1)
ordinal_counts_days_example = ordinal_counts_days leap_eve leap_eve-IsValid

civil_from_days-ordinal_example : as_date (civil_from_days (ordinal leap_eve)) ≡ leap_eve
civil_from_days-ordinal_example = civil_from_days-ordinal leap_eve leap_eve-IsValid

parse_iso-ne-panic_example : parse_iso (lit "2024-ü8-1") ≢ panic
parse_iso-ne-panic_example = parse_iso-ne-panic (lit "2024-ü8-1")

parse_iso-to_iso_example : parse_iso (to_iso leap_eve) ≡ parsed (ok leap_eve)
parse_iso-to_iso_example = parse_iso-to_iso leap_eve leap_eve-IsValid

-- A plus sign is accepted in a place for a digit.
plus_sign : parse_iso (lit "2026-+7-01") ≡ parsed (ok (date (pos 2026) 7 1))
unfolding parse_iso lit casegraph.Text.Utf8.len casegraph.Text.Utf8.encode
    casegraph.Domain.Temporal.slice casegraph.Text.Number.parse_signed
    casegraph.Text.Number.parse_unsigned new days_in_month
plus_sign = refl
