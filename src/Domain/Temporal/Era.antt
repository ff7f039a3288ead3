-- ===== src/Domain/Temporal/Era.antt =====
-- The arithmetic of one 400-year era: years that begin in March, of 365 or 366 days.
use casegraph.Prelude.{
  ℕ, zero, suc, ◌+◌, ◌-◌, ◌*◌, ◌/◌, ◌%◌, ◌≤◌, ◌<◌, ◌≡◌, refl, Bool, true, not, ◌&&◌, ◌||◌, arith,
  ◌==◌, if◌then◌else◌,
}
use native.Mathlib.Decide.{dec_lt}
use casegraph.Domain.Temporal.{year_of_era_of, month_prime_of}

-- The days of an era before its year `y`.
abbrev pub year_start : ℕ → ℕ
year_start y = y * 365 + y / 4 - y / 100

-- The year that begins in March of `y` has the February of `y + 1`.
abbrev pub leap_next : ℕ → Bool
leap_next y = ((y + 1) % 4 == 0) && (not ((y + 1) % 100 == 0) || ((y + 1) % 400 == 0))

abbrev pub year_length : ℕ → ℕ
year_length y = if leap_next y then 366 else 365

true_to : (ℕ → Bool) → ℕ → Bool
true_to test zero = true
true_to test (suc bound) = true_to test bound && test bound

true_to-at :
    (test : ℕ → Bool) (bound at : ℕ) → at < bound → true_to test bound ≡ true → test at ≡ true
unfolding true_to
true_to-at test zero at below all = absurd (omega arith)
true_to-at test (suc bound) at below all = ground (arith, true_to-at test bound at)

-- On the first and on the last day of each year of the era the formula gives the year.
abbrev ends_agree : ℕ → Bool
ends_agree y =
    (year_of_era_of (year_start y) == y)
    && (year_of_era_of (year_start y + (year_length y - 1)) == y)

ends_table : true_to ends_agree 400 ≡ true
unfolding true_to year_of_era_of
ends_table = refl

year_of_era_mono : (a b : ℕ) → a ≤ b → b ≤ 146096 → year_of_era_of a ≤ year_of_era_of b
unfolding year_of_era_of
year_of_era_mono a b h k = omega arith

year_end_bound : (y : ℕ) → y < 400 → year_start y + (year_length y - 1) ≤ 146096
year_end_bound y h = ground arith

-- Between them too: the formula finds the year of every day of the era.
pub year_of_era-year_start :
    (y n : ℕ) → y < 400 → n < year_length y → year_of_era_of (year_start y + n) ≡ y
year_of_era-year_start y n hy hn =
    let e = true_to-at ends_agree 400 y hy ends_table in
    ground (
      arith,
      year_of_era_mono (year_start y) (year_start y + n),
      year_of_era_mono (year_start y + n) (year_start y + (year_length y - 1)),
      year_end_bound y,
    )

-- The days of a year before its month `m`, counted from March.
abbrev pub month_start : ℕ → ℕ
month_start m = (153 * m + 2) / 5

-- The formula finds the month of every day of the year.
pub month_prime-month_start :
    (m n : ℕ) → month_start m + n < month_start (m + 1) → month_prime_of (month_start m + n) ≡ m
unfolding month_prime_of
month_prime-month_start m n h = omega arith

year_start-suc : (y : ℕ) → y < 399 → year_start (suc y) ≡ year_start y + year_length y
year_start-suc y h = ground arith

-- The place of a day in an era: its year, and its number within the year.
pub record InYear (d : ℕ) : Type 0 where
  pub year : ℕ
  pub offset : ℕ
  pub year_lt : year < 400
  pub offset_lt : offset < year_length year
  pub total : d ≡ year_start year + offset

find_year : (k d : ℕ) → k < 400 → d < year_start k + year_length k → InYear d
find_year zero d hk h = record {
  year = 0;
  offset = d;
  year_lt = omega arith;
  offset_lt = ground arith;
  total = ground arith;
}
find_year (suc k) d hk h = elim (dec_lt d (year_start (suc k))) [
  | yes p ↦ find_year k d (omega arith) (omega (arith, year_start-suc k (omega arith)))
  | no p ↦ record {
    year = suc k;
    offset = d - year_start (suc k);
    year_lt = hk;
    offset_lt = omega arith;
    total = omega arith;
  }
]

-- Every day of an era lies in one of its years.
pub in_year : (d : ℕ) → d < 146097 → InYear d
in_year d h = find_year 399 d (omega arith) (omega arith)

-- Every day of a year lies in one of its months.
pub in_month :
    (n : ℕ)
    → (n < 366)
    → let m = month_prime_of n in (m < 12) × (month_start m ≤ n) × (n < month_start (m + 1))
unfolding month_prime_of
in_month n h = omega arith

pub year_of_era-le : (d : ℕ) → d < 146097 → year_of_era_of d ≤ 399
year_of_era-le d h = omega (arith, year_of_era_mono d 146096 (omega arith) (omega arith), last_year)
  where
    last_year : year_of_era_of 146096 ≡ 399
    last_year = unfold year_of_era_of in refl
