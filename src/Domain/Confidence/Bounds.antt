-- ===== src/Domain/Confidence/Bounds.antt =====
-- What `Confidence::new` of crates/casegraph-domain/src/model.rs accepts.
use casegraph.Prelude.{ℕ, suc, ◌*◌, ◌^◌, ◌≤◌, ◌≡◌, ◌↔◌, true, false, arith}
use casegraph.Prelude.Int.{ℤ, pos, negsuc}
use casegraph.Prelude.Result.{ok}
use casegraph.Domain.Confidence.{F64, nan, infinite, finite, Confidence, confidence}

-- mantissa * 2 ^ exponent ≤ 1.
abbrev pub AtMostOne : ℕ → ℤ → Type 0
AtMostOne mantissa (pos e) = mantissa * 2 ^ e ≤ 1
AtMostOne mantissa (negsuc e) = mantissa ≤ 2 ^ suc e

-- The value is a number from 0 to 1; the zero may have a sign.
abbrev pub InUnit : F64 → Type 0
InUnit nan = ⊥
InUnit (infinite negative) = ⊥
InUnit (finite true mantissa exponent) = mantissa ≡ 0
InUnit (finite false mantissa exponent) = AtMostOne mantissa exponent

-- `Confidence::new` accepts exactly the finite numbers from 0 to 1, -0.0 included, and keeps the
-- score; it refuses NaN and both infinities.
pub confidence-InUnit :
    (v : F64) (c : Confidence) → (confidence v ≡ ok c) ↔ (InUnit v × (c.score ≡ v))
unfolding confidence
confidence-InUnit nan c = (λ h. cc, λ h. absurd h.0)
confidence-InUnit (infinite negative) c = (λ h. cc, λ h. absurd h.0)
confidence-InUnit (finite true m e) c = (λ h. ground arith, λ h. ground arith)
confidence-InUnit (finite false m (pos e)) c = (λ h. ground arith, λ h. ground arith)
confidence-InUnit (finite false m (negsuc e)) c = (λ h. ground arith, λ h. ground arith)
