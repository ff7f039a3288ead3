-- ===== src/Application/Monad/Keeps.antt =====
-- What every call keeps true of the world, with one rule for each way to build a call.
use mathlib.Core.Path.{subst}
use casegraph.Prelude.{◌≡◌, refl, Bool, true, false, Option, none, some}
use casegraph.Prelude.Result.{Result, ok, err}
use casegraph.Domain.Error.{DomainError}
use casegraph.Application.Error.{AppError}
use casegraph.Application.Monad.{
  App, continue, pure, fail, lift, lift_domain, require, stop_if, ◌>>=◌,
}

-- `m` keeps `P`, whether it returns or fails.
pub record Keeps {W A : Type 0} (P : W → Type 0) (m : App W A) : Type 0 where
  pub at : (w : W) → P w → P (m w).1

module _ {W : Type 0} {P : W → Type 0} where
  pub Keeps-pure : {A : Type 0} (a : A) → Keeps P (pure a)
  Keeps-pure a = record { at = λ w h. h }

  pub Keeps-fail : {A : Type 0} (e : AppError) → Keeps P (fail {A = A} e)
  Keeps-fail e = record { at = λ w h. h }

  pub Keeps-lift : {A : Type 0} (r : Result AppError A) → Keeps P (lift r)
  Keeps-lift r = record { at = λ w h. h }

module _ {W A B : Type 0} {P : W → Type 0} where
  pub Keeps-bind :
      (m : App W A) (f : A → App W B) → Keeps P m → ((a : A) → Keeps P (f a)) → Keeps P (m >>= f)
  unfolding ◌>>=◌
  Keeps-bind m f km kf = record { at = λ w h. go (m w).0 (m w).1 (km.at w h) }
    where
      go : (r : Result AppError A) (w' : W) → P w' → P (continue r f w').1
      go (ok a) w' h = (kf a).at w' h
      go (err e) w' h = h

  -- Past a check that passed, the rest may use that it passed.
  pub Keeps-bind-domain :
      (r : Result DomainError A) (f : A → App W B)
      → ((a : A) → r ≡ ok a → Keeps P (f a))
      → Keeps P (lift_domain r >>= f)
  unfolding ◌>>=◌
  Keeps-bind-domain (ok a) f kf = record { at = λ w h. (kf a refl).at w h }
  Keeps-bind-domain (err e) f kf = record { at = λ w h. h }

  pub Keeps-bind-require :
      (e : AppError) (o : Option A) (f : A → App W B)
      → ((a : A) → o ≡ some a → Keeps P (f a))
      → Keeps P (require e o >>= f)
  unfolding ◌>>=◌
  Keeps-bind-require e (some a) f kf = record { at = λ w h. (kf a refl).at w h }
  Keeps-bind-require e none f kf = record { at = λ w h. h }

  pub Keeps-bind-lift :
      (r : Result AppError A) (f : A → App W B)
      → ((a : A) → r ≡ ok a → Keeps P (f a))
      → Keeps P (lift r >>= f)
  unfolding ◌>>=◌
  Keeps-bind-lift (ok a) f kf = record { at = λ w h. (kf a refl).at w h }
  Keeps-bind-lift (err e) f kf = record { at = λ w h. h }

module _ {W B : Type 0} {P : W → Type 0} where
  pub Keeps-bind-stop_if :
      (b : Bool) (e : AppError) (f : Unit {0} → App W B)
      → (b ≡ false → Keeps P (f tt))
      → Keeps P (stop_if b e >>= f)
  unfolding ◌>>=◌
  Keeps-bind-stop_if true e f kf = record { at = λ w h. h }
  Keeps-bind-stop_if false e f kf = record { at = λ w h. (kf refl).at w h }

-- `m` keeps `P`, and what it returns satisfies `Q`.
pub record KeepsTo {W A : Type 0} (P : W → Type 0) (Q : A → Type 0) (m : App W A) : Type 0 where
  pub keeps : Keeps P m
  pub returns : (w : W) (a : A) → (m w).0 ≡ ok a → Q a

module _ {W A B : Type 0} {P : W → Type 0} {Q : A → Type 0} where
  pub Keeps-bind-to :
      (m : App W A) (f : A → App W B)
      → KeepsTo P Q m
      → ((a : A) → Q a → Keeps P (f a))
      → Keeps P (m >>= f)
  unfolding ◌>>=◌
  Keeps-bind-to m f km kf = record {
    at = λ w h. go (m w).0 (m w).1 (km.returns w) (km.keeps.at w h);
  }
    where
      go :
          (r : Result AppError A) (w' : W)
          → ((a : A) → r ≡ ok a → Q a)
          → P w'
          → P (continue r f w').1
      go (ok a) w' q h = (kf a (q a refl)).at w' h
      go (err e) w' q h = h

-- What a bind returns, its second part has returned.
pub bind-returns :
    {W A B : Type 0} (m : App W A) (f : A → App W B) (w : W) (b : B)
    → ((m >>= f) w).0 ≡ ok b
    → (a : A) × (w' : W) × ((f a w').0 ≡ ok b)
unfolding ◌>>=◌
bind-returns {W} {A} {B} m f w b h = go (m w).0 (m w).1 h
  where
    go :
        (r : Result AppError A) (w' : W)
        → (continue r f w').0 ≡ ok b
        → (a : A) × (w' : W) × ((f a w').0 ≡ ok b)
    go (ok a) w' e = (a, w', e)
    go (err x) w' e = cc

pub ok_inj : {E A : Type 0} {a b : A} → ◌≡◌ {A = Result E A} (ok a) (ok b) → a ≡ b
ok_inj h = cc

pub KeepsTo-pure :
    {W A : Type 0} {P : W → Type 0} {Q : A → Type 0} (a : A) → Q a → KeepsTo P Q (pure a)
KeepsTo-pure {Q = Q} a q = record { keeps = Keeps-pure a; returns = λ w b e. subst Q (ok_inj e) q }

module _ {W A B : Type 0} {P : W → Type 0} {R : B → Type 0} where
  pub KeepsTo-bind :
      (m : App W A) (f : A → App W B)
      → Keeps P m
      → ((a : A) → KeepsTo P R (f a))
      → KeepsTo P R (m >>= f)
  KeepsTo-bind m f km kf = record {
    keeps = Keeps-bind m f km (λ a. (kf a).keeps);
    returns = λ w b e. let (a, w', h) = bind-returns m f w b e in (kf a).returns w' b h;
  }

  pub KeepsTo-bind-lift :
      (r : Result AppError A) (f : A → App W B)
      → ((a : A) → r ≡ ok a → KeepsTo P R (f a))
      → KeepsTo P R (lift r >>= f)
  unfolding ◌>>=◌
  KeepsTo-bind-lift (ok a) f kf = record {
    keeps = record { at = λ w h. (kf a refl).keeps.at w h };
    returns = λ w b e. (kf a refl).returns w b e;
  }
  KeepsTo-bind-lift (err e) f kf = record {
    keeps = record { at = λ w h. h };
    returns = λ w b h. cc;
  }

  pub KeepsTo-bind-domain :
      (r : Result DomainError A) (f : A → App W B)
      → ((a : A) → r ≡ ok a → KeepsTo P R (f a))
      → KeepsTo P R (lift_domain r >>= f)
  unfolding ◌>>=◌
  KeepsTo-bind-domain (ok a) f kf = record {
    keeps = record { at = λ w h. (kf a refl).keeps.at w h };
    returns = λ w b e. (kf a refl).returns w b e;
  }
  KeepsTo-bind-domain (err e) f kf = record {
    keeps = record { at = λ w h. h };
    returns = λ w b h. cc;
  }

  pub KeepsTo-bind-require :
      (e : AppError) (o : Option A) (f : A → App W B)
      → ((a : A) → o ≡ some a → KeepsTo P R (f a))
      → KeepsTo P R (require e o >>= f)
  unfolding ◌>>=◌
  KeepsTo-bind-require e (some a) f kf = record {
    keeps = record { at = λ w h. (kf a refl).keeps.at w h };
    returns = λ w b k. (kf a refl).returns w b k;
  }
  KeepsTo-bind-require e none f kf = record {
    keeps = record { at = λ w h. h };
    returns = λ w b k. cc;
  }
