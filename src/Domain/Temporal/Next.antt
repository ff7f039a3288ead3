-- ===== src/Domain/Temporal/Next.antt =====
-- The day numbers of crates/casegraph-domain/src/temporal.rs against the calendar itself.
use native.Mathlib.Decide.{dec_lt}
use casegraph.Prelude.{
  ℕ, ◌+◌, ◌≤◌, ◌<◌, ◌≡◌, refl, ap, sym, ◌∙◌, arith, ltb, if◌then◌else◌, lt→ltb, ge→ltb,
}
use casegraph.Prelude.Int.{ℤ, pos, negsuc, ◌+ℤ◌, ◌-ℤ◌, ◌*ℤ◌, int_laws}
use casegraph.Prelude.Result.{Result, ok, err}
use casegraph.Domain.Error.{DomainError}
use casegraph.Domain.Temporal.{
  Date, date, days_in_month, days_from_civil, civil_from_days, checked_add_days,
}
use casegraph.Domain.Temporal.Valid.{IsValid}
use casegraph.Domain.Temporal.Civil.{
  serial, place_of, date_of-place_of, days_in_month-IsPlace, days_from_civil-place_of,
  civil_from_days-place,
}
use casegraph.Domain.Temporal.Shift.{ordinal, Lands, IsI32, ordinal_range, checked_add_days-Lands}

abbrev pub as_date : ℤ × ℕ × ℕ → Date
as_date (y, m, d) = date y m d

civil_round_trip :
    (y : ℤ) (m d : ℕ)
    → IsValid (date y m d)
    → as_date (civil_from_days (days_from_civil y m d)) ≡ date y m d
civil_round_trip (negsuc n) m d v = absurd (omega (arith, v.year_in))
civil_round_trip (pos y) m d v =
    let p =
      days_in_month-IsPlace y m d (omega (arith, v.year_in)) v.month_in.0 v.month_in.1 v.day_in.0
        v.day_in.1 in
    rw (days_from_civil-place_of y m d (omega (arith, v.year_in)) v.day_in.0) (
      rw (civil_from_days-place (place_of y m d) p (omega (arith, v.year_in)))
        (date_of-place_of y m d (omega (arith, v.year_in)) v.month_in.0 v.month_in.1 v.day_in.0))

-- `civil_from_days` undoes `days_from_civil` on every real date.
pub civil_from_days-ordinal : (t : Date) → IsValid t → as_date (civil_from_days (ordinal t)) ≡ t
civil_from_days-ordinal t v = civil_round_trip t.year t.month t.day v

pub ordinal_inj : (t u : Date) → IsValid t → IsValid u → ordinal t ≡ ordinal u → t ≡ u
ordinal_inj t u vt vu e =
    sym (civil_from_days-ordinal t vt)
    ∙ (ap (λ z. as_date (civil_from_days z)) e ∙ civil_from_days-ordinal u vu)

-- The following day, by the lengths of the months alone.
pub next : Date → Date
next t =
    if ltb t.day (days_in_month t.year t.month)
    then record t { day = t.day + 1 }
    else if ltb t.month 12
    then date t.year (t.month + 1) 1
    else date (t.year +ℤ pos 1) 1 1

serial-day : (y m d : ℕ) → 1 ≤ d → serial (place_of y m (d + 1)) ≡ serial (place_of y m d) + 1
serial-day y m d h = ground arith

serial-month :
    (y m d : ℕ)
    → 1 ≤ y
    → 1 ≤ m
    → m < 12
    → d ≡ days_in_month (pos y) m
    → serial (place_of y (m + 1) 1) ≡ serial (place_of y m d) + 1
unfolding days_in_month
serial-month y m d hy lo hi e = ground arith

serial-year :
    (y m d : ℕ)
    → 1 ≤ y
    → m ≡ 12
    → d ≡ days_in_month (pos y) m
    → serial (place_of (y + 1) 1 1) ≡ serial (place_of y m d) + 1
unfolding days_in_month
serial-year y m d hy hm e = ground arith

one_later :
    (y m d y' m' d' : ℕ)
    → 1 ≤ y
    → 1 ≤ d
    → 1 ≤ y'
    → 1 ≤ d'
    → serial (place_of y' m' d') ≡ serial (place_of y m d) + 1
    → ordinal (date (pos y') m' d') ≡ ordinal (date (pos y) m d) +ℤ pos 1
one_later y m d y' m' d' hy hd hy' hd' e =
    rw (days_from_civil-place_of y m d hy hd)
      (rw (days_from_civil-place_of y' m' d' hy' hd') (omega (int_laws, e)))

pos-suc : (y : ℕ) → pos y +ℤ pos 1 ≡ pos (y + 1)
pos-suc y = omega int_laws

ordinal-next_pos :
    (y m d : ℕ)
    → IsValid (date (pos y) m d)
    → ordinal (next (date (pos y) m d)) ≡ ordinal (date (pos y) m d) +ℤ pos 1
unfolding next
ordinal-next_pos y m d v =
    let hy : 1 ≤ y = omega (arith, v.year_in) in
    elim (dec_lt d (days_in_month (pos y) m)) [
      | yes p ↦
          rw (lt→ltb _ _ p) (
            one_later y m d y m (d + 1) hy v.day_in.0 hy (omega arith)
              (serial-day y m d v.day_in.0))
      | no p ↦
          let last : d ≡ days_in_month (pos y) m = omega (arith, v.day_in) in
          rw (ge→ltb _ _ p) (elim (dec_lt m 12) [
            | yes q ↦ rw (lt→ltb _ _ q) (
                one_later y m d y (m + 1) 1 hy v.day_in.0 hy (omega arith)
                  (serial-month y m d hy v.month_in.0 q last))
            | no q ↦ rw (ge→ltb _ _ q) (
                rw (pos-suc y) (
                  one_later y m d (y + 1) 1 1 hy v.day_in.0 (omega arith) (omega arith)
                    (serial-year y m d hy (omega (arith, v.month_in)) last)))
          ])
    ]

ordinal-next_civil :
    (y : ℤ) (m d : ℕ)
    → IsValid (date y m d)
    → ordinal (next (date y m d)) ≡ ordinal (date y m d) +ℤ pos 1
ordinal-next_civil (negsuc n) m d v = absurd (omega (arith, v.year_in))
ordinal-next_civil (pos y) m d v = ordinal-next_pos y m d v

-- 1970-01-01 is day 0, and the calendar's next day has the next day number.
pub ordinal_counts_days :
    (t : Date)
    → IsValid t
    → (ordinal (date (pos 1970) 1 1) ≡ pos 0) × (ordinal (next t) ≡ ordinal t +ℤ pos 1)
unfolding days_from_civil ◌+ℤ◌ ◌-ℤ◌ ◌*ℤ◌
ordinal_counts_days t v = (refl, ordinal-next_civil t.year t.month t.day v)

Lands-unique : (u : Date) (r : Result DomainError Date) → IsValid u → Lands (ordinal u) r → r ≡ ok u
Lands-unique u (ok w) v h = ap ok (ordinal_inj w u h.0 v h.1)
Lands-unique u (err e) v h = absurd (omega (arith, ordinal_range u v))

-- Adding the distance between two real dates to the first gives the second.
pub checked_add_days_reaches :
    (t u : Date) (n : ℤ)
    → IsValid t
    → IsValid u
    → IsI32 n
    → ordinal t +ℤ n ≡ ordinal u
    → checked_add_days t n ≡ ok u
checked_add_days_reaches t u n vt vu h e =
    Lands-unique u _ vu (rw e at (checked_add_days-Lands t n vt h))
