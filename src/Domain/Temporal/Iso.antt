-- ===== src/Domain/Temporal/Iso.antt =====
-- `Date::parse_iso` and `Date::to_iso` of crates/casegraph-domain/src/temporal.rs.
use casegraph.Prelude.{
  ℕ, ◌+◌, ◌-◌, ◌*◌, ◌/◌, ◌%◌, ◌≤◌, ◌<◌, ◌≡◌, ◌≢◌, refl, ap, ◌∙◌, inl, inr, true, arith, List, [],
  ◌∷◌, some, get_elem?, Bool-cases,
}
use casegraph.Prelude.Int.{ℤ, pos, negsuc}
use casegraph.Prelude.Result.{ok}
use casegraph.Text.{Text}
use casegraph.Text.Utf8.{bytes, len, slice_from, slice_to}
use casegraph.Text.Utf8.Slices.{
  slice_from-zero, bytes-ascii, slice_from-drop, slice_to-take, From-ascii, to_ascii, to_end,
}
use casegraph.Text.Number.{parse_signed, parse_unsigned, u8_max, i32_max}
use casegraph.Text.Decimal.{padded_signed, padded_two, padded_four}
use casegraph.Domain.Temporal.{
  Date, date, new, panic, parsed, slice, byte_is, has_layout, parse_day, parse_month, parse_year,
  parse_iso, to_iso, days_in_month,
}
use casegraph.Domain.Temporal.Valid.{IsValid, new-IsValid}

-- The layout that the first test of `parse_iso` demands.
record Layout (s : Text) : Type 0 where
  size : len s ≡ 10
  first_dash : get_elem? (bytes s) 4 ≡ some b'-'
  second_dash : get_elem? (bytes s) 7 ≡ some b'-'

byte_is-some : (bs : List ℕ) (i b : ℕ) → byte_is bs i b ≡ true → get_elem? bs i ≡ some b
byte_is-some bs i b h = ground arith

abbrev Cuts : Text → ℕ → ℕ → Type 0
Cuts s from to = (r : Text) × (slice from to s ≡ some r)

slice_of :
    (from to : ℕ) (s r r' : Text)
    → slice_from from s ≡ some r
    → slice_to (to - from) r ≡ some r'
    → slice from to s ≡ some r'
unfolding slice
slice_of from to s r r' h k = rw (h, slice) k

module _ (s : Text) (l : Layout s) where
  cut_year : Cuts s 0 4
  cut_year =
      let (r, h) = to_ascii s 4 b'-' l.first_dash (omega arith) in
      (r, slice_of 0 4 s s r (slice_from-zero s) h)

  cut_month : Cuts s 5 7
  cut_month =
      let f = From-ascii s 4 b'-' l.first_dash (omega arith) in
      let (r, h) = to_ascii f.rest 2 b'-' (f.bytes_from 2 ∙ l.second_dash) (omega arith) in
      (r, slice_of 5 7 s f.rest r f.slices h)

  cut_day : Cuts s 8 10
  cut_day =
      let f = From-ascii s 7 b'-' l.second_dash (omega arith) in
      let e : 2 ≡ len f.rest = omega (arith, f.size, l.size) in
      (
        f.rest,
        slice_of 8 10 s f.rest f.rest f.slices (ap (λ k. slice_to k f.rest) e ∙ to_end f.rest),
      )

  year_total : parse_year s (slice 0 4 s) ≢ panic
  unfolding parse_year
  year_total = ground (arith, cut_year.1, cut_month.1, cut_day.1)

has_layout-Layout : (s : Text) → has_layout s ≡ true → Layout s
has_layout-Layout s h = record {
  size = ground arith;
  first_dash = byte_is-some (bytes s) 4 b'-' (ground arith);
  second_dash = byte_is-some (bytes s) 7 b'-' (ground arith);
}

-- `parse_iso` never panics: once the two hyphens are in place, all its slices are at the borders of
-- characters.
pub parse_iso-ne-panic : (s : Text) → parse_iso s ≢ panic
unfolding parse_iso
parse_iso-ne-panic s = elim (Bool-cases (has_layout s)) [
  | inl h ↦ rw h (year_total s (has_layout-Layout s h))
  | inr h ↦ rw h (λ e. cc)
]

-- A digit.
abbrev digit : ℕ → ℕ
digit q = b'0' + q

module _ (a b c d m n p q : ℕ) (year_digits : (a < 10) × (b < 10) × (c < 10) × (d < 10))
    (other_digits : (m < 10) × (n < 10) × (p < 10) × (q < 10)) where
  abbrev iso_text : Text
  iso_text =
      digit a
      ∷ digit b
      ∷ digit c
      ∷ digit d
      ∷ b'-'
      ∷ digit m
      ∷ digit n
      ∷ b'-'
      ∷ digit p
      ∷ digit q
      ∷ []

  iso_bytes : bytes iso_text ≡ iso_text
  iso_bytes = bytes-ascii iso_text (omega arith)

  iso_layout : has_layout iso_text ≡ true
  unfolding len
  iso_layout = rw iso_bytes refl

  year_slice : slice 0 4 iso_text ≡ some (digit a ∷ digit b ∷ digit c ∷ digit d ∷ [])
  year_slice =
      slice_of 0 4 iso_text iso_text _ (slice_from-zero iso_text)
        (slice_to-take 4 (digit a ∷ digit b ∷ digit c ∷ digit d ∷ []) _ (omega arith) refl)

  month_slice : slice 5 7 iso_text ≡ some (digit m ∷ digit n ∷ [])
  month_slice =
      slice_of 5 7 iso_text _ _
        (slice_from-drop 5 (digit a ∷ digit b ∷ digit c ∷ digit d ∷ b'-' ∷ []) _ (omega arith) refl)
        (slice_to-take 2 (digit m ∷ digit n ∷ []) _ (omega arith) refl)

  day_slice : slice 8 10 iso_text ≡ some (digit p ∷ digit q ∷ [])
  day_slice =
      slice_of 8 10 iso_text _ _
        (slice_from-drop 8
          (digit a ∷ digit b ∷ digit c ∷ digit d ∷ b'-' ∷ digit m ∷ digit n ∷ b'-' ∷ []) _
          (omega arith) refl)
        (slice_to-take 2 (digit p ∷ digit q ∷ []) [] (omega arith) refl)

  year_number :
      parse_signed i32_max (digit a ∷ digit b ∷ digit c ∷ digit d ∷ [])
      ≡ some (pos (a * 1000 + b * 100 + c * 10 + d))
  unfolding parse_signed
  year_number = ground arith

  month_number : parse_unsigned u8_max (digit m ∷ digit n ∷ []) ≡ some (m * 10 + n)
  unfolding parse_unsigned
  month_number = ground arith

  day_number : parse_unsigned u8_max (digit p ∷ digit q ∷ []) ≡ some (p * 10 + q)
  unfolding parse_unsigned
  day_number = ground arith

  parse_digits :
      parse_iso iso_text
      ≡ parsed (new (pos (a * 1000 + b * 100 + c * 10 + d)) (m * 10 + n) (p * 10 + q))
  unfolding parse_iso
  parse_digits = rw iso_layout (
      rw (year_slice, parse_year)
        (rw year_number (
          rw (month_slice, parse_month)
            (rw month_number (rw (day_slice, parse_day) (rw day_number))))))

days_in_month-le : (y : ℤ) (m : ℕ) → days_in_month y m ≤ 31
unfolding days_in_month
days_in_month-le y m = ground arith

iso_round_trip :
    (y : ℤ) (m d : ℕ)
    → IsValid (date y m d)
    → parse_iso (to_iso (date y m d)) ≡ parsed (ok (date y m d))
unfolding to_iso padded_signed
iso_round_trip (negsuc y) m d v = absurd (omega (arith, v.year_in))
iso_round_trip (pos y) m d v = rw (padded_four y (omega (arith, v.year_in))) (
    rw (padded_two m (omega (arith, v.month_in))) (
      rw (padded_two d (omega (arith, v.day_in, days_in_month-le (pos y) m))) (
        parse_digits (y / 1000) (y / 100 % 10) (y / 10 % 10) (y % 10) (m / 10) (m % 10) (d / 10)
          (d % 10) (omega (arith, v.year_in))
          (omega (arith, v.month_in, v.day_in, days_in_month-le (pos y) m))
        ∙ ap parsed read)))
  where
    read :
        new
          (pos (y / 1000 * 1000 + y / 100 % 10 * 100 + y / 10 % 10 * 10 + y % 10))
          (m / 10 * 10 + m % 10)
          (d / 10 * 10 + d % 10)
        ≡ ok (date (pos y) m d)
    read = (new-IsValid _ _ _ (date (pos y) m d)).1 (v, ground arith)

-- Parsing the printed form of a real date gives the date back.
pub parse_iso-to_iso : (t : Date) → IsValid t → parse_iso (to_iso t) ≡ parsed (ok t)
parse_iso-to_iso t v = iso_round_trip t.year t.month t.day v
