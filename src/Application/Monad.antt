-- ===== src/Application/Monad.antt =====
-- A service call: it reads and writes the world behind the ports, and may fail. What was written
-- before a failure stays written, so the world comes back beside the error too.
pub mod Keeps
pub mod Ends
use casegraph.Prelude.{Bool, Option, none, some}
use casegraph.Prelude.Result.{Result, ok, err}
use casegraph.Domain.Error.{DomainError}
use casegraph.Application.Error.{AppError, from_domain}

abbrev pub App : Type 0 → Type 0 → Type 0
App W A = W → Result AppError A × W

module _ {W A : Type 0} where
  abbrev pub pure : A → App W A
  pure a w = (ok a, w)

  abbrev pub fail : AppError → App W A
  fail e w = (err e, w)

  abbrev pub lift : Result AppError A → App W A
  lift r w = (r, w)

  -- `?` on a `Result<_, DomainError>`.
  abbrev pub lift_domain : Result DomainError A → App W A
  lift_domain (ok a) = pure a
  lift_domain (err e) = fail (from_domain e)

  -- `.ok_or_else(...)?`.
  abbrev pub require : AppError → Option A → App W A
  require e none = fail e
  require e (some a) = pure a

-- `if b { return Err(e) }`.
abbrev pub stop_if : {W : Type 0} → Bool → AppError → App W (Unit {0})
stop_if Bool.true e = fail e
stop_if Bool.false e = pure tt

module _ {W A B : Type 0} where
  abbrev pub continue : Result AppError A → (A → App W B) → App W B
  continue (ok a) f w = f a w
  continue (err e) f w = (err e, w)

  infixl 5 ◌>>=◌ ◌>>◌
  unfoldable pub ◌>>=◌ : App W A → (A → App W B) → App W B
  ◌>>=◌ m f w = let (r, w') = m w in continue r f w'

  abbrev pub ◌>>◌ : App W A → App W B → App W B
  m >> n = m >>= λ _. n
