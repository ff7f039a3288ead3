-- ===== src/Domain/Temporal/Civil.antt =====
-- `days_from_civil` and `civil_from_days`, by the place of a day in its era.
use casegraph.Prelude.{
  ℕ, ◌+◌, ◌-◌, ◌*◌, ◌/◌, ◌%◌, ◌≤◌, ◌<◌, ◌≡◌, ◌∙◌, arith, ltb, leb, if◌then◌else◌,
}
use casegraph.Prelude.Int.{pos, pos_part, ◌+ℤ◌, ◌-ℤ◌, ◌*ℤ◌, int_laws}
use casegraph.Domain.Temporal.{
  Date, date, days_in_month, days_from_civil, month_prime_of, civil_in_era, civil_from_days,
}
use casegraph.Domain.Temporal.Era.{
  year_start, year_length, month_start, year_of_era-year_start, month_prime-month_start, in_year,
  in_month,
}

-- A day counted from 1 March of year 0: era, year of the era, month from March, day from 0.
pub record Place : Type 0 where
  pub era : ℕ
  pub year : ℕ
  pub month : ℕ
  pub day : ℕ

pub record IsPlace (p : Place) : Type 0 where
  pub year_lt : p.year < 400
  pub month_lt : p.month < 12
  pub day_lt : month_start p.month + p.day < month_start (p.month + 1)
  pub in_year : month_start p.month + p.day < year_length p.year

abbrev pub serial : Place → ℕ
serial p = p.era * 146097 + (year_start p.year + (month_start p.month + p.day))

abbrev pub month_of : Place → ℕ
month_of p = if ltb p.month 10 then p.month + 3 else p.month - 9

abbrev pub year_of : Place → ℕ
year_of p = p.year + p.era * 400 + (if leb (month_of p) 2 then 1 else 0)

abbrev pub date_of : Place → Date
date_of p = date (pos (year_of p)) (month_of p) (p.day + 1)

-- The place of a date.
abbrev adjusted : ℕ → ℕ → ℕ
adjusted y m = y - (if leb m 2 then 1 else 0)

abbrev pub place_of : ℕ → ℕ → ℕ → Place
place_of y m d = record {
  era = adjusted y m / 400;
  year = adjusted y m % 400;
  month = if ltb 2 m then m - 3 else m + 9;
  day = d - 1;
}

pub days_in_month-IsPlace :
    (y m d : ℕ)
    → 1 ≤ y
    → 1 ≤ m
    → m ≤ 12
    → 1 ≤ d
    → d ≤ days_in_month (pos y) m
    → IsPlace (place_of y m d)
unfolding days_in_month
days_in_month-IsPlace y m d hy hm hm' hd hd' = record {
  year_lt = ground arith;
  month_lt = ground arith;
  day_lt = ground arith;
  in_year = ground arith;
}

pub date_of-place_of :
    (y m d : ℕ) → 1 ≤ y → 1 ≤ m → m ≤ 12 → 1 ≤ d → date_of (place_of y m d) ≡ date (pos y) m d
date_of-place_of y m d hy hm hm' hd = ground arith

pub days_from_civil-place_of :
    (y m d : ℕ)
    → 1 ≤ y
    → 1 ≤ d
    → days_from_civil (pos y) m d ≡ pos (serial (place_of y m d)) -ℤ pos 719468
unfolding days_from_civil ◌+ℤ◌ ◌-ℤ◌ ◌*ℤ◌
days_from_civil-place_of y m d hy hd = ground arith

split_era :
    (e d : ℕ) → d < 146097 → ((e * 146097 + d) / 146097 ≡ e) × ((e * 146097 + d) % 146097 ≡ d)
split_era e d h = (omega arith, omega arith)

serial_lt : (p : Place) → IsPlace p → year_start p.year + (month_start p.month + p.day) < 146097
serial_lt p v = ground arith

-- The part of an era that `civil_from_days` takes apart.
civil_in_era-place :
    (p : Place)
    → IsPlace p
    → p.era ≤ 5000000
    → civil_in_era (pos p.era) (year_start p.year + (month_start p.month + p.day))
      ≡ (pos (year_of p), month_of p, p.day + 1)
unfolding civil_in_era ◌+ℤ◌ ◌*ℤ◌
civil_in_era-place p v h =
    rw (year_of_era-year_start p.year (month_start p.month + p.day) v.year_lt v.in_year)
      (rw offset (rw (month_prime-month_start p.month p.day v.day_lt) (ground arith)))
  where
    offset :
        year_start p.year
          + (month_start p.month + p.day)
          - (365 * p.year + p.year / 4 - p.year / 100)
        ≡ month_start p.month + p.day
    offset = omega arith

-- Every serial number is that of a place.
pub find_place : (s : ℕ) → (p : Place) × IsPlace p × (serial p ≡ s)
find_place s =
    let i = in_year (s % 146097) (omega arith) in
    let m = in_month i.offset (ground arith) in
    (
      record {
        era = s / 146097;
        year = i.year;
        month = month_prime_of i.offset;
        day = i.offset - month_start (month_prime_of i.offset);
      },
      record { year_lt = i.year_lt; month_lt = m.0; day_lt = omega arith; in_year = omega arith },
      omega arith,
    )

-- The date of a place is a real one, but for its year.
pub date_of-in_month :
    (p : Place)
    → IsPlace p
    → (1 ≤ month_of p)
      × (month_of p ≤ 12)
      × (p.day + 1 ≤ days_in_month (pos (year_of p)) (month_of p))
unfolding days_in_month
date_of-in_month p v = ground arith

rem_euclid_pos : (s : ℕ) → pos_part (pos s -ℤ pos (s / 146097) *ℤ pos 146097) ≡ s % 146097
unfolding ◌-ℤ◌ ◌*ℤ◌
rem_euclid_pos s = ground arith

pub civil_from_days-place :
    (p : Place)
    → IsPlace p
    → p.era ≤ 5000000
    → civil_from_days (pos (serial p) -ℤ pos 719468) ≡ (pos (year_of p), month_of p, p.day + 1)
unfolding civil_from_days
civil_from_days-place p v h =
    rw shifted (rw day (rw (split_era p.era _ (serial_lt p v)).0 (civil_in_era-place p v h)))
  where
    shifted : pos (serial p) -ℤ pos 719468 +ℤ pos 719468 ≡ pos (serial p)
    shifted = omega int_laws

    day :
        pos_part (pos (serial p) -ℤ pos (serial p / 146097) *ℤ pos 146097)
        ≡ year_start p.year + (month_start p.month + p.day)
    day = rem_euclid_pos (serial p) ∙ (split_era p.era _ (serial_lt p v)).1
