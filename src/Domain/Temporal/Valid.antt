-- ===== src/Domain/Temporal/Valid.antt =====
-- Valid Gregorian dates, and what `Date::new` accepts.
use casegraph.Prelude.{ℕ, ◌≤◌, ◌≡◌, ◌↔◌, arith}
use casegraph.Prelude.Int.{ℤ, pos, ◌≤ℤ◌}
use casegraph.Prelude.Result.{ok}
use casegraph.Domain.Temporal.{Date, date, days_in_month, new}

-- A real date of the years 1 to 9999.
pub record IsValid (t : Date) : Type 0 where
  pub year_in : (pos 1 ≤ℤ t.year) × (t.year ≤ℤ pos 9999)
  pub month_in : (1 ≤ t.month) × (t.month ≤ 12)
  pub day_in : (1 ≤ t.day) × (t.day ≤ days_in_month t.year t.month)

-- `Date::new` accepts exactly the real dates of the years 1 to 9999, and returns the date with the
-- given year, month and day.
pub new-IsValid : (y : ℤ) (m d : ℕ) (t : Date) → (new y m d ≡ ok t) ↔ (IsValid t × (t ≡ date y m d))
unfolding new
new-IsValid y m d t = (λ h. sound h, λ h. ground arith)
  where
    sound : new y m d ≡ ok t → IsValid t × (t ≡ date y m d)
    sound h = (
      record { year_in = ground arith; month_in = ground arith; day_in = ground arith },
      ground arith,
    )
