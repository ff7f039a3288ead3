-- ===== src/Domain/Temporal/Real.antt =====
-- The dates of the calendar, and what `Date::new` in crates/casegraph-domain/src/temporal.rs accepts.
use mathlib.Core.Path.{subst}
use casegraph.Prelude.{
  sym, ℕ, ◌*◌, ◌/◌, ◌≤◌, ◌&&◌, ◌||◌, not, if◌then◌else◌, ◌≡◌, ◌↔◌, ◌⊎◌, inl, inr, refl, arith, Bool,
  true, false, ◌==◌,
}
use casegraph.Prelude.Int.{ℤ, pos, negsuc}
use casegraph.Prelude.Result.{ok}
use casegraph.Domain.Temporal.{Date, date, days_in_month, divides, is_leap_year, new}
use casegraph.Domain.Temporal.Valid.{IsValid, new-IsValid}

-- Every fourth year is a leap year, but of the years of a century only every fourth.
abbrev Multiple : ℕ → ℕ → Type 0
Multiple k n = (q : ℕ) × (n ≡ k * q)

pub record IsLeap (n : ℕ) : Type 0 where
  pub fourth : Multiple 4 n
  pub century : Multiple 100 n → Multiple 400 n

abbrev pub IsLong : ℕ → Type 0
IsLong m = (m ≡ 1) ⊎ ((m ≡ 3) ⊎ ((m ≡ 5) ⊎ ((m ≡ 7) ⊎ ((m ≡ 8) ⊎ ((m ≡ 10) ⊎ (m ≡ 12))))))

abbrev pub IsShort : ℕ → Type 0
IsShort m = (m ≡ 4) ⊎ ((m ≡ 6) ⊎ ((m ≡ 9) ⊎ (m ≡ 11)))

-- The day is in the month of the year.
abbrev pub IsDay : ℕ → ℕ → ℕ → Type 0
IsDay n m d =
    (IsLong m × (d ≤ 31))
    ⊎ ((IsShort m × (d ≤ 30)) ⊎ (((m ≡ 2) × (d ≤ 28)) ⊎ ((m ≡ 2) × (d ≤ 29) × IsLeap n)))

-- A day of the Gregorian calendar in the years 1 to 9999.
pub record IsReal (t : Date) : Type 0 where
  pub year_number : ℕ
  pub year_is : t.year ≡ pos year_number
  pub year_in : (1 ≤ year_number) × (year_number ≤ 9999)
  pub day_in : (1 ≤ t.day) × IsDay year_number t.month t.day

divides_4-Multiple : (n : ℕ) → (divides 4 (pos n) ≡ true) ↔ Multiple 4 n
divides_4-Multiple n = (λ h. (n / 4, ground arith), λ h. let (q, e) = h in ground arith)

divides_100-Multiple : (n : ℕ) → (divides 100 (pos n) ≡ true) ↔ Multiple 100 n
divides_100-Multiple n = (λ h. (n / 100, ground arith), λ h. let (q, e) = h in ground arith)

divides_400-Multiple : (n : ℕ) → (divides 400 (pos n) ≡ true) ↔ Multiple 400 n
divides_400-Multiple n = (λ h. (n / 400, ground arith), λ h. let (q, e) = h in ground arith)

leap_rule : (a b c : Bool) → ((a && (not b || c)) ≡ true) ↔ ((a ≡ true) × ((b ≡ true) → c ≡ true))
leap_rule a true c = (λ h. (ground arith, λ k. ground arith), λ h. let k = h.1 refl in ground arith)
leap_rule a false c = (λ h. (ground arith, λ k. absurd (cc)), λ h. ground arith)

is_leap_year-IsLeap : (n : ℕ) → (is_leap_year (pos n) ≡ true) ↔ IsLeap n
unfolding is_leap_year
is_leap_year-IsLeap n =
    let rule = leap_rule (divides 4 (pos n)) (divides 100 (pos n)) (divides 400 (pos n)) in
    (
      λ h. record {
        fourth = (divides_4-Multiple n).0 (rule.0 h).0;
        century = λ k. (divides_400-Multiple n).0 ((rule.0 h).1 ((divides_100-Multiple n).1 k));
      },
      λ l. rule.1 (
        (divides_4-Multiple n).1 l.fourth,
        λ k. (divides_400-Multiple n).1 (l.century ((divides_100-Multiple n).0 k)),
      ),
    )

-- The day is in the month of a year that is a leap year or not.
abbrev InMonth : Bool → ℕ → ℕ → Type 0
InMonth leap m d =
    (IsLong m × (d ≤ 31))
    ⊎ ((IsShort m × (d ≤ 30)) ⊎ (((m ≡ 2) × (d ≤ 28)) ⊎ ((m ≡ 2) × (d ≤ 29) × (leap ≡ true))))

abbrev month_days : Bool → ℕ → ℕ
month_days leap m =
    if (m == 4) || ((m == 6) || ((m == 9) || (m == 11)))
    then 30
    else if (m == 2) && leap
    then 29
    else if m == 2
    then 28
    else 31

month_days-InMonth :
    (leap : Bool) (m d : ℕ) → 1 ≤ m → m ≤ 12 → d ≤ month_days leap m → InMonth leap m d
month_days-InMonth leap m d low high h = ground arith

InMonth-month_days :
    (leap : Bool) (m d : ℕ) → InMonth leap m d → (1 ≤ m) × (m ≤ 12) × (d ≤ month_days leap m)
InMonth-month_days leap m d h = ground arith

IsDay-InMonth :
    (n m d : ℕ) (leap : Bool) → (leap ≡ true) ↔ IsLeap n → IsDay n m d ↔ InMonth leap m d
IsDay-InMonth n m d leap e = (to, from)
  where
    to : IsDay n m d → InMonth leap m d
    to (inl h) = inl h
    to (inr (inl h)) = inr (inl h)
    to (inr (inr (inl h))) = inr (inr (inl h))
    to (inr (inr (inr (a, b, c)))) = inr (inr (inr (a, b, e.1 c)))

    from : InMonth leap m d → IsDay n m d
    from (inl h) = inl h
    from (inr (inl h)) = inr (inl h)
    from (inr (inr (inl h))) = inr (inr (inl h))
    from (inr (inr (inr (a, b, c)))) = inr (inr (inr (a, b, e.0 c)))

IsValid-IsReal : (y : ℤ) (m d : ℕ) → IsValid (date y m d) ↔ IsReal (date y m d)
unfolding days_in_month
IsValid-IsReal (pos n) m d =
    let days = IsDay-InMonth n m d (is_leap_year (pos n)) (is_leap_year-IsLeap n) in
    (
      λ v. record {
        year_number = n;
        year_is = refl;
        year_in = (let h = v.year_in.0 in ground arith, let h = v.year_in.1 in ground arith);
        day_in = (
          v.day_in.0,
          days.1
              (month_days-InMonth (is_leap_year (pos n)) m d v.month_in.0 v.month_in.1 v.day_in.1),
        );
      },
      λ r.
          let n_is : n ≡ r.year_number = let h = r.year_is in ground arith in
          let bounds = r.year_in in
          let fits =
            InMonth-month_days (is_leap_year (pos n)) m d
              (days.0 (subst (λ k. IsDay k m d) (sym n_is) r.day_in.1)) in
          record {
            year_in = (ground arith, ground arith);
            month_in = (fits.0, fits.1);
            day_in = (r.day_in.0, fits.2);
          },
    )
IsValid-IsReal (negsuc n) m d = (
  λ v. let h = v.year_in.0 in absurd (ground arith),
  λ r. let h = r.year_is in absurd (ground arith),
)

-- `Date::new` accepts exactly the days of the Gregorian calendar in the years 1 to 9999, and returns
-- the date with the given year, month and day.
pub new-IsReal : (y : ℤ) (m d : ℕ) (t : Date) → (new y m d ≡ ok t) ↔ (IsReal t × (t ≡ date y m d))
new-IsReal y m d t =
    let valid = new-IsValid y m d t in
    let real = IsValid-IsReal y m d in
    (
      λ h. let (v, e) = valid.0 h in (subst IsReal (sym e) (real.0 (subst IsValid e v)), e),
      λ h. let (r, e) = h in valid.1 (subst IsValid (sym e) (real.1 (subst IsReal e r)), e),
    )
