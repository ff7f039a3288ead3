-- ===== src/Domain/Confidence.antt =====
-- `Confidence` of crates/casegraph-domain/src/model.rs. An `f64` is not a number, an infinity, or a
-- sign, a mantissa and a power of two; the tests of `Confidence::new` are exact on these.
pub mod Bounds
use casegraph.Prelude.{
  ℕ, suc, ◌*◌, ◌^◌, Bool, true, false, not, ◌&&◌, ◌||◌, leb, ◌==◌, if◌then◌else◌,
}
use casegraph.Prelude.Int.{ℤ, pos, negsuc}
use casegraph.Prelude.Result.{Result, ok, err}
use casegraph.Text.{lit}
use casegraph.Domain.Error.{DomainError, domain_error}

pub data F64 : Type 0 where
  nan : F64
  infinite : Bool → F64
  finite : Bool → ℕ → ℤ → F64

-- `is_finite`.
abbrev pub is_finite : F64 → Bool
is_finite (finite negative mantissa exponent) = true
is_finite _ = false

-- `0.0 <= value` for a sign and a mantissa: -0.0 counts as zero.
abbrev pub at_least_zero : Bool → ℕ → Bool
at_least_zero negative mantissa = not negative || (mantissa == 0)

-- `mantissa * 2 ^ exponent <= 1.0`.
abbrev pub magnitude_at_most_one : ℕ → ℤ → Bool
magnitude_at_most_one mantissa (pos e) = leb (mantissa * 2 ^ e) 1
magnitude_at_most_one mantissa (negsuc e) = leb mantissa (2 ^ suc e)

-- `(0.0..=1.0).contains(&value)`.
abbrev pub in_unit : F64 → Bool
in_unit nan = false
in_unit (infinite negative) = false
in_unit (finite negative mantissa exponent) =
    at_least_zero negative mantissa && (negative || magnitude_at_most_one mantissa exponent)

pub record Confidence : Type 0 where
  pub score : F64

-- `Confidence::new`.
unfoldable pub confidence : F64 → Result DomainError Confidence
confidence value =
    if not (is_finite value) || not (in_unit value)
    then err (domain_error (lit "confidence") (lit "must be a finite number between 0 and 1"))
    else ok (record { score = value })
