-- ===== src/Text/Decimal.antt =====
-- Decimal output: `{}`, `{:02}` and `{:04}`.
use casegraph.Prelude.{
  ℕ, zero, suc, ◌+◌, ◌-◌, ◌/◌, ◌%◌, ◌<◌, ◌≡◌, [], ◌∷◌, ◌++◌, arith, ltb, if◌then◌else◌, length,
}
use casegraph.Prelude.Int.{ℤ, pos, negsuc}
use casegraph.Text.Defs.{Text}

-- The digits of `n` before the text `tail`.
unfoldable pub decimal_from : ℕ → ℕ → Text → Text
decimal_from zero n tail = tail
decimal_from (suc fuel) n tail =
    let more = decimal_from fuel (n / 10) ((b'0' + n % 10) ∷ tail) in
    if ltb n 10 then (b'0' + n) ∷ tail else more

-- The numbers that the program prints have at most 64 bits, and so at most 20 digits.
unfoldable pub decimal : ℕ → Text
unfolding decimal_from
decimal n = decimal_from 20 n []

unfoldable pub zeros : ℕ → Text
zeros zero = []
zeros (suc n) = b'0' ∷ zeros n

-- `{:0width$}` of an unsigned number.
unfoldable pub padded : ℕ → ℕ → Text
unfolding decimal zeros
padded width n = zeros (width - length (decimal n)) ++ decimal n

-- `{:0width$}` of a signed number: the sign comes first and counts.
unfoldable pub padded_signed : ℕ → ℤ → Text
padded_signed width (pos n) = padded width n
padded_signed width (negsuc n) = b'-' ∷ padded (width - 1) (suc n)

-- Two digits.
pub padded_two : (n : ℕ) → n < 100 → padded 2 n ≡ (b'0' + n / 10) ∷ (b'0' + n % 10) ∷ []
unfolding padded
padded_two n h = ground arith

-- Four digits.
pub padded_four :
    (n : ℕ)
    → n < 10000
    → padded 4 n
      ≡ (b'0' + n / 1000) ∷ (b'0' + n / 100 % 10) ∷ (b'0' + n / 10 % 10) ∷ (b'0' + n % 10) ∷ []
unfolding padded
padded_four n h = ground arith
