-- ===== src/Text/Number.antt =====
-- `str::parse` at the integer types. An overflow, an empty text and a stray character all give
-- `Err`, which the program never tells apart: `none`.
use casegraph.Prelude.{
  ℕ, zero, suc, ◌+◌, ◌-◌, ◌*◌, [], ◌∷◌, Option, none, some, leb, ◌==◌, if◌then◌else◌,
}
use casegraph.Prelude.Int.{ℤ, pos, negsuc}
use casegraph.Text.Defs.{Text}
use casegraph.Text.Ascii.{is_ascii_digit}

-- The value of a run of decimal digits; `none` at any other character.
unfoldable pub digits : ℕ → Text → Option ℕ
digits n [] = some n
digits n (c ∷ s) =
    let rest = digits (n * 10 + (c - b'0')) s in if is_ascii_digit c then rest else none

-- A non-empty run of digits.
unfoldable pub magnitude : Text → Option ℕ
unfolding digits
magnitude [] = none
magnitude (c ∷ s) = digits 0 (c ∷ s)

abbrev pub at_most : ℕ → Option ℕ → Option ℕ
at_most limit none = none
at_most limit (some n) = if leb n limit then some n else none

-- `parse::<u8>()` and the like, for the type whose maximum is `limit`. A leading `+` is accepted.
unfoldable pub parse_unsigned : ℕ → Text → Option ℕ
unfolding magnitude
parse_unsigned limit [] = none
parse_unsigned limit (c ∷ s) = at_most limit (if c == b'+' then magnitude s else magnitude (c ∷ s))

-- `- n`.
abbrev pub negate : ℕ → ℤ
negate zero = pos 0
negate (suc n) = negsuc n

abbrev pub signed : (ℕ → ℤ) → Option ℕ → Option ℤ
signed f none = none
signed f (some n) = some (f n)

-- `parse::<i32>()` and the like, for the type with the range -limit-1 to limit.
unfoldable pub parse_signed : ℕ → Text → Option ℤ
unfolding magnitude
parse_signed limit [] = none
parse_signed limit (c ∷ s) =
    if c == b'-'
    then signed negate (at_most (limit + 1) (magnitude s))
    else signed pos (at_most limit (if c == b'+' then magnitude s else magnitude (c ∷ s)))

abbrev pub u8_max : ℕ
u8_max = 255

abbrev pub u32_max : ℕ
u32_max = 4294967295

abbrev pub i32_max : ℕ
i32_max = 2147483647

abbrev pub i64_max : ℕ
i64_max = 9223372036854775807
