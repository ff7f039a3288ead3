-- ===== src/Application/Monad/Ends.antt =====
-- Calls that return, and methods whose last step is a certain call of an adapter.
use casegraph.Prelude.{◌≡◌, refl, Bool, false, Option, some}
use casegraph.Prelude.Result.{Result, ok}
use casegraph.Domain.Error.{DomainError}
use casegraph.Application.Error.{AppError}
use casegraph.Application.Monad.{App, pure, lift, lift_domain, require, stop_if, ◌>>=◌}

-- `m` returns in every world, a value that satisfies `Q`.
pub record Answers {W A : Type 0} (Q : A → Type 0) (m : App W A) : Type 0 where
  pub at : (w : W) → (a : A) × (w' : W) × (m w ≡ (ok a, w')) × Q a

-- Whatever the world, `m` comes down to the call of `call` on some `b` that satisfies `Q`.
pub record EndsIn {W A B : Type 0} (call : B → App W A) (Q : B → Type 0) (m : App W A)
    : Type 0 where
  pub at : (w : W) → (b : B) × (w' : W) × (m w ≡ call b w') × Q b

pub Answers-pure : {W A : Type 0} {Q : A → Type 0} (a : A) → Q a → Answers {W = W} Q (pure a)
Answers-pure a q = record { at = λ w. (a, w, refl, q) }

module _ {W A B : Type 0} {Q : A → Type 0} {R : B → Type 0} where
  pub Answers-bind :
      (m : App W A) (f : A → App W B)
      → Answers Q m
      → ((a : A) → Q a → Answers R (f a))
      → Answers R (m >>= f)
  unfolding ◌>>=◌
  Answers-bind m f km kf = record {
    at = λ w.
        let (a, w', h, q) = km.at w in let (b, w2, k, r) = (kf a q).at w' in (b, w2, rw h k, r);
  }

module _ {W A B : Type 0} {call : B → App W A} {Q : B → Type 0} where
  pub EndsIn-call : (b : B) → Q b → EndsIn call Q (call b)
  EndsIn-call b q = record { at = λ w. (b, w, refl, q) }

  pub EndsIn-bind :
      {C : Type 0} {R : C → Type 0} (m : App W C) (f : C → App W A)
      → Answers R m
      → ((c : C) → R c → EndsIn call Q (f c))
      → EndsIn call Q (m >>= f)
  unfolding ◌>>=◌
  EndsIn-bind m f km kf = record {
    at = λ w.
        let (c, w', h, r) = km.at w in let (b, w2, k, q) = (kf c r).at w' in (b, w2, rw h k, q);
  }

  pub EndsIn-lift :
      {C : Type 0} (r : Result AppError C) (c : C) (f : C → App W A)
      → r ≡ ok c
      → (r ≡ ok c → EndsIn call Q (f c))
      → EndsIn call Q (lift r >>= f)
  unfolding ◌>>=◌
  EndsIn-lift r c f h k = record { at = λ w. let (b, w', e, q) = (k h).at w in (b, w', rw h e, q) }

  pub EndsIn-domain :
      {C : Type 0} (r : Result DomainError C) (c : C) (f : C → App W A)
      → r ≡ ok c
      → (r ≡ ok c → EndsIn call Q (f c))
      → EndsIn call Q (lift_domain r >>= f)
  unfolding ◌>>=◌
  EndsIn-domain r c f h k = record {
    at = λ w. let (b, w', e, q) = (k h).at w in (b, w', rw h e, q);
  }

  pub EndsIn-require :
      {C : Type 0} (x : AppError) (o : Option C) (c : C) (f : C → App W A)
      → o ≡ some c
      → (o ≡ some c → EndsIn call Q (f c))
      → EndsIn call Q (require x o >>= f)
  unfolding ◌>>=◌
  EndsIn-require x o c f h k = record {
    at = λ w. let (b, w', e, q) = (k h).at w in (b, w', rw h e, q);
  }

  pub EndsIn-stop_if :
      (t : Bool) (x : AppError) (f : Unit {0} → App W A)
      → t ≡ false
      → (t ≡ false → EndsIn call Q (f tt))
      → EndsIn call Q (stop_if t x >>= f)
  unfolding ◌>>=◌
  EndsIn-stop_if t x f h k = record {
    at = λ w. let (b, w', e, q) = (k h).at w in (b, w', rw h e, q);
  }

module _ {W A : Type 0} where
  pub Answers-lift :
      (r : Result AppError A) (a : A) → r ≡ ok a → Answers {W = W} (λ x. x ≡ a) (lift r)
  Answers-lift r a h = record { at = λ w. (a, w, rw h refl, refl) }

  pub Answers-domain :
      (r : Result DomainError A) (a : A) → r ≡ ok a → Answers {W = W} (λ x. x ≡ a) (lift_domain r)
  Answers-domain r a h = record { at = λ w. (a, w, rw h refl, refl) }

  pub Answers-require :
      (e : AppError) (o : Option A) (a : A)
      → o ≡ some a
      → Answers {W = W} (λ x. x ≡ a) (require e o)
  Answers-require e o a h = record { at = λ w. (a, w, rw h refl, refl) }
