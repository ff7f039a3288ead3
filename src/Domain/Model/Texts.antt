-- ===== src/Domain/Model/Texts.antt =====
-- What `validate_text` of crates/casegraph-domain/src/model.rs accepts.
use casegraph.Prelude.{ℕ, ◌≤◌, ◌<◌, ◌≡◌, refl, ◌↔◌, ◌⊎◌, false, [], ◌∷◌, arith, length, any, All}
use casegraph.Prelude.Result.{ok}
use casegraph.Text.{Text}
use casegraph.Text.Trim.{trim, is_control}
use casegraph.Domain.Model.Validate.{validate_text}

-- No control character: none of U+0000 to U+001F and U+007F to U+009F.
abbrev pub IsPrintable : ℕ → Type 0
IsPrintable c = ((0x20 ≤ c) × (c < 0x7F)) ⊎ (0x9F < c)

-- A text whose trimmed length is from `min` to `max` characters and that has no control character.
pub record IsText (min max : ℕ) (s : Text) : Type 0 where
  pub long_enough : min ≤ length (trim s)
  pub short_enough : length (trim s) ≤ max
  pub printable : All IsPrintable s

pub any-control : (s : Text) → (any is_control s ≡ false) ↔ All IsPrintable s
unfolding is_control
any-control [] = (λ h. tt, λ h. refl)
any-control (c ∷ s) = (λ h. ground (arith, any-control s), λ h. ground (arith, any-control s))

pub validate_text-IsText :
    (field value : Text) (min max : ℕ)
    → (validate_text field value min max ≡ ok tt) ↔ IsText min max value
unfolding validate_text
validate_text-IsText field value min max =
    (λ h. sound h, λ h. ground (arith, (any-control value).1 h.printable))
  where
    sound : validate_text field value min max ≡ ok tt → IsText min max value
    sound h = record {
      long_enough = ground arith;
      short_enough = ground arith;
      printable = (any-control value).0 (ground arith);
    }
