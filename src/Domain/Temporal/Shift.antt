-- ===== src/Domain/Temporal/Shift.antt =====
-- `Date::checked_add_days` of crates/casegraph-domain/src/temporal.rs.
use native.Mathlib.Decide.{dec_lt}
use mathlib.Core.Path.{subst}
use casegraph.Prelude.{ℕ, ◌+◌, ◌/◌, ◌≤◌, ◌<◌, ◌≡◌, refl, ap, ◌∙◌, ◌⊎◌, arith}
use casegraph.Prelude.Int.{ℤ, pos, negsuc, pos_part, neg_part, ◌+ℤ◌, ◌-ℤ◌, ◌*ℤ◌, ◌≤ℤ◌, int_laws}
use casegraph.Prelude.Result.{Result, ok, err}
use casegraph.Domain.Error.{DomainError}
use casegraph.Domain.Temporal.{
  Date, date, days_from_civil, civil_from_days, civil_in_era, new, checked_add_days,
}
use casegraph.Domain.Temporal.Valid.{IsValid, new-IsValid}
use casegraph.Domain.Temporal.Era.{year_of_era-le}
use casegraph.Domain.Temporal.Civil.{
  Place, IsPlace, serial, month_of, year_of, date_of, place_of, days_in_month-IsPlace,
  days_from_civil-place_of, find_place, date_of-in_month, civil_from_days-place,
}

-- The day number of a date: 1970-01-01 is day 0.
abbrev pub ordinal : Date → ℤ
ordinal t = days_from_civil t.year t.month t.day

-- The right answer to "the date with day number z": that date, or an error if no year from 1 to
-- 9999 has one. Day -719162 is 0001-01-01, and day 2932896 is 9999-12-31.
abbrev pub Lands : ℤ → Result DomainError Date → Type 0
Lands z (ok t) = IsValid t × (ordinal t ≡ z)
Lands z (err e) = (z ≤ℤ negsuc 719162) ⊎ (pos 2932897 ≤ℤ z)

serial-place_of-date_of :
    (p : Place)
    → IsPlace p
    → 1 ≤ year_of p
    → serial (place_of (year_of p) (month_of p) (p.day + 1)) ≡ serial p
serial-place_of-date_of p v h = ground arith

date_of-IsValid : (p : Place) → IsPlace p → 1 ≤ year_of p → year_of p ≤ 9999 → IsValid (date_of p)
date_of-IsValid p v lo hi =
    let m = date_of-in_month p v in
    record {
      year_in = (omega arith, omega arith);
      month_in = (m.0, m.1);
      day_in = (omega arith, m.2);
    }

abbrev shown : Place → Result DomainError Date
shown p = new (pos (year_of p)) (month_of p) (p.day + 1)

shown-Lands :
    (p : Place)
    → IsPlace p
    → 1 ≤ year_of p
    → year_of p ≤ 9999
    → Lands (pos (serial p) -ℤ pos 719468) (shown p)
shown-Lands p v lo hi =
    let valid = date_of-IsValid p v lo hi in
    rw ((new-IsValid _ _ _ (date_of p)).1 (valid, refl)) (
      valid,
      days_from_civil-place_of _ _ _ lo (omega arith)
          ∙ ap (λ (s : ℕ). pos s -ℤ pos 719468) (serial-place_of-date_of p v lo),
    )

new_too_early : (y m d : ℕ) → y < 1 → (z : ℤ) → z ≤ℤ negsuc 719162 → Lands z (new (pos y) m d)
unfolding new
new_too_early y m d h z k = ground arith

new_too_late : (y m d : ℕ) → 9999 < y → (z : ℤ) → pos 2932897 ≤ℤ z → Lands z (new (pos y) m d)
unfolding new
new_too_late y m d h z k = ground arith

early : (p : Place) → IsPlace p → year_of p < 1 → pos (serial p) -ℤ pos 719468 ≤ℤ negsuc 719162
early p v h = let small : serial p < 306 = ground arith in omega int_laws

late : (p : Place) → IsPlace p → 9999 < year_of p → pos 2932897 ≤ℤ pos (serial p) -ℤ pos 719468
late p v h = let large : 3652365 ≤ serial p = ground arith in omega int_laws

place-Lands : (p : Place) → IsPlace p → Lands (pos (serial p) -ℤ pos 719468) (shown p)
place-Lands p v = elim (dec_lt (year_of p) 1) [
  | yes low ↦ new_too_early _ _ _ low _ (early p v low)
  | no lo ↦ elim (dec_lt 9999 (year_of p)) [
    | yes high ↦ new_too_late _ _ _ high _ (late p v high)
    | no hi ↦ shown-Lands p v (omega arith) (omega arith)
  ]
]

-- Before 0000-03-01 the year is not positive, so that `Date::new` refuses it.
abbrev of_parts : ℤ × ℕ × ℕ → Result DomainError Date
of_parts (y, m, d) = new y m d

negative_era :
    (k d : ℕ)
    → d < 146097
    → k < 4000000000
    → (z : ℤ) → z ≤ℤ negsuc 719162
    → Lands z (of_parts (civil_in_era (negsuc (k / 146097)) d))
unfolding civil_in_era new ◌+ℤ◌ ◌*ℤ◌
negative_era k d hd hk z h = ground (arith, year_of_era-le d hd)

rem_euclid_negsuc : (k : ℕ) → pos_part (negsuc k -ℤ negsuc (k / 146097) *ℤ pos 146097) < 146097
unfolding ◌-ℤ◌ ◌*ℤ◌
rem_euclid_negsuc k = ground arith

negative-Lands :
    (k : ℕ)
    → k < 4000000000
    → (z : ℤ) → z +ℤ pos 719468 ≡ negsuc k
    → Lands z (of_parts (civil_from_days z))
unfolding civil_from_days
negative-Lands k hk z e =
    rw e
      (negative_era k _ (rem_euclid_negsuc k) hk z (omega (int_laws, ap pos_part e, ap neg_part e)))

positive-Lands :
    (s : ℕ)
    → s ≤ 700000000000
    → (z : ℤ) → z +ℤ pos 719468 ≡ pos s
    → Lands z (of_parts (civil_from_days z))
positive-Lands s hs z e =
    let (p, v, q) = find_place s in
    let here : pos (serial p) -ℤ pos 719468 ≡ z =
      omega (int_laws, q, ap pos_part e, ap neg_part e) in
    let eras : p.era ≤ 5000000 = omega (arith, q) in
    subst (λ w. Lands w (of_parts (civil_from_days w))) here
      (rw (civil_from_days-place p v eras) (place-Lands p v))

civil-Lands :
    (z : ℤ)
    → z ≤ℤ pos 600000000000
    → negsuc 3000000000 ≤ℤ z
    → Lands z (of_parts (civil_from_days z))
civil-Lands z hi lo = go (z +ℤ pos 719468) refl
  where
    go : (w : ℤ) → z +ℤ pos 719468 ≡ w → Lands z (of_parts (civil_from_days z))
    go (negsuc k) e = negative-Lands k (omega (int_laws, ap pos_part e, ap neg_part e)) z e
    go (pos s) e = positive-Lands s (omega (int_laws, ap pos_part e, ap neg_part e)) z e

-- An `i32`.
abbrev pub IsI32 : ℤ → Type 0
IsI32 n = (negsuc 2147483647 ≤ℤ n) × (n ≤ℤ pos 2147483647)

-- The day numbers of the real dates.
place_ordinal_range :
    (y m d : ℕ)
    → IsValid (date (pos y) m d)
    → (306 ≤ serial (place_of y m d)) × (serial (place_of y m d) ≤ 3652364)
place_ordinal_range y m d v =
    let p =
      days_in_month-IsPlace y m d (omega arith) v.month_in.0 v.month_in.1 v.day_in.0 v.day_in.1 in
    ground arith

civil_range :
    (y : ℤ) (m d : ℕ)
    → IsValid (date y m d)
    → (negsuc 719161 ≤ℤ days_from_civil y m d) × (days_from_civil y m d ≤ℤ pos 2932896)
civil_range (negsuc n) m d v = absurd (omega (arith, v.year_in))
civil_range (pos y) m d v =
    let r = place_ordinal_range y m d v in
    rw (days_from_civil-place_of y m d (omega (arith, v.year_in)) v.day_in.0) (omega int_laws)

pub ordinal_range :
    (t : Date) → IsValid t → (negsuc 719161 ≤ℤ ordinal t) × (ordinal t ≤ℤ pos 2932896)
ordinal_range t v = civil_range t.year t.month t.day v

-- From a real date and a number of days that is an `i32`, `checked_add_days` returns the real date
-- that many days away, and it fails just when no date from 0001-01-01 to 9999-12-31 is that many
-- days away.
pub checked_add_days-Lands :
    (t : Date) (n : ℤ) → IsValid t → IsI32 n → Lands (ordinal t +ℤ n) (checked_add_days t n)
unfolding checked_add_days
checked_add_days-Lands t n v h =
    let r = ordinal_range t v in civil-Lands (ordinal t +ℤ n) (omega int_laws) (omega int_laws)
