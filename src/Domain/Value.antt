-- ===== src/Domain/Value.antt =====
-- crates/casegraph-domain/src/value.rs: exact numbers, money and epistemic values.
pub mod Equality
use casegraph.Prelude.{ℕ, Bool, true, false, not, ◌&&◌, ◌||◌, ltb, ◌==◌, all, if◌then◌else◌}
use casegraph.Prelude.Int.{ℤ, pos, negsuc}
use casegraph.Prelude.Result.{Result, ok, err}
use casegraph.Text.{Text, lit, text_eq}
use casegraph.Text.Ascii.{is_ascii_uppercase}
use casegraph.Text.Utf8.{bytes, len}
use casegraph.Domain.Error.{DomainError, domain_error}
use casegraph.Domain.Temporal.{
  Date, TemporalValue, exact_date, month_value, year_value, before_value, after_value, range_value,
  unknown_value,
}

-- A coefficient that is an `i64` with `scale` decimal places.
pub record Decimal : Type 0 where
  pub coefficient : ℤ
  pub scale : ℕ

-- `Decimal::new`.
unfoldable pub decimal : ℤ → ℕ → Result DomainError Decimal
decimal coefficient scale =
    if ltb 18 scale
    then err (domain_error (lit "decimal.scale") (lit "must not exceed 18"))
    else ok (record { coefficient = coefficient; scale = scale })

pub record Money : Type 0 where
  pub amount : Decimal
  pub currency : Text

-- `Money::new`.
unfoldable pub money : Decimal → Text → Result DomainError Money
money amount currency =
    if not (len currency == 3) || not (all is_ascii_uppercase (bytes currency))
    then err (domain_error (lit "money.currency") (lit "must be three uppercase ASCII letters"))
    else ok (record { amount = amount; currency = currency })

pub data MaterialValue : Type 0 where
  text : Text → MaterialValue
  integer : ℤ → MaterialValue
  decimal_value : Decimal → MaterialValue
  money_value : Money → MaterialValue
  boolean : Bool → MaterialValue
  date_value : Date → MaterialValue
  temporal : TemporalValue → MaterialValue

pub data KnowledgeValue : Type 0 where
  known : MaterialValue → KnowledgeValue
  unknown not_applicable not_evaluated : KnowledgeValue
