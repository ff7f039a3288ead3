-- ===== src/Prelude/Lists.antt =====
-- Lists measured and indexed by native numbers, under the library's names.
use Prim.Native.Nat.{ℕ, zero, suc, ◌+◌, ◌≤◌}
use mathlib.Core.Path.{◌≡◌, refl, ap}
use mathlib.Core.Logic.{◌⊎◌, inl, inr, ◌↔◌}
use mathlib.Core.Bool.{Bool, true, false, ◌&&◌, ◌||◌}
use mathlib.Core.List.{List, [], ◌∷◌, ◌++◌}
use mathlib.Core.Option.{Option, none, some}
use native.Mathlib.Omega.{arith}
use casegraph.Prelude.Tests.{Bool-cases, if◌then◌else◌}

module _ {ℓ} {A : Type ℓ} where
  abbrev pub length : List A → ℕ
  length [] = 0
  length (x ∷ xs) = suc (length xs)

  abbrev pub get_elem? : List A → ℕ → Option A
  get_elem? [] i = none
  get_elem? (x ∷ xs) zero = some x
  get_elem? (x ∷ xs) (suc i) = get_elem? xs i

  -- `Iterator::all` and `Iterator::any`.
  abbrev pub all : (A → Bool) → List A → Bool
  all p [] = true
  all p (x ∷ xs) = p x && all p xs

  abbrev pub any : (A → Bool) → List A → Bool
  any p [] = false
  any p (x ∷ xs) = p x || any p xs

  -- `Iterator::filter` under a Boolean test.
  abbrev pub filter : (A → Bool) → List A → List A
  filter p [] = []
  filter p (x ∷ xs) = let rest = filter p xs in if p x then x ∷ rest else rest

  pub length-append : (xs ys : List A) → length (xs ++ ys) ≡ length xs + length ys
  length-append [] ys = omega arith
  length-append (x ∷ xs) ys = omega (arith, length-append xs ys)

  pub length-filter : (p : A → Bool) (xs : List A) → length (filter p xs) ≤ length xs
  length-filter p [] = omega arith
  length-filter p (x ∷ xs) = ground (arith, length-filter p xs)

  pub append_nil : (xs : List A) → xs ≡ xs ++ []
  append_nil [] = refl
  append_nil (x ∷ xs) = ap (λ rest. x ∷ rest) (append_nil xs)

  pub append_assoc : (xs ys zs : List A) → (xs ++ ys) ++ zs ≡ xs ++ (ys ++ zs)
  append_assoc [] ys zs = refl
  append_assoc (x ∷ xs) ys zs = ap (λ rest. x ∷ rest) (append_assoc xs ys zs)

  -- A predicate holds of every item.
  abbrev pub All {κ} : (A → Type κ) → List A → Type κ
  All P [] = Unit
  All P (x ∷ xs) = P x × All P xs

  -- A predicate holds of some item.
  abbrev pub Any : (A → Type 0) → List A → Type 0
  Any P [] = ⊥
  Any P (x ∷ xs) = P x ⊎ Any P xs

module _ {ℓ κ} {A : Type ℓ} (P : A → Type κ) where
  pub All-append : (xs ys : List A) → All P xs → All P ys → All P (xs ++ ys)
  All-append [] ys p q = q
  All-append (x ∷ xs) ys p q = (p.0, All-append xs ys p.1 q)

module _ {ℓ κ} {A : Type ℓ} {P Q : A → Type κ} where
  pub All-weaken : (xs : List A) → ((x : A) → P x → Q x) → All P xs → All Q xs
  All-weaken [] f h = tt
  All-weaken (x ∷ xs) f h = (f x h.0, All-weaken xs f h.1)

module _ {ℓ} {A : Type ℓ} {P Q : A → Type 0} where
  pub Any-weaken : (xs : List A) → ((x : A) → P x → Q x) → Any P xs → Any Q xs
  Any-weaken [] f h = h
  Any-weaken (x ∷ xs) f (inl h) = inl (f x h)
  Any-weaken (x ∷ xs) f (inr h) = inr (Any-weaken xs f h)

-- What holds of a filtered list, under the test.
module _ {ℓ} {A : Type ℓ} (P : A → Type 0) (p : A → Bool) where
  pub All-filter : (xs : List A) → All P (filter p xs) ↔ All (λ x. p x ≡ true → P x) xs
  All-filter [] = (λ h. tt, λ h. tt)
  All-filter (x ∷ xs) = go (p x) (All-filter xs)
    where
      go :
          (b : Bool)
          → (All P (filter p xs) ↔ All (λ y. p y ≡ true → P y) xs)
          → All P (if b then x ∷ filter p xs else filter p xs)
            ↔ ((b ≡ true → P x) × All (λ y. p y ≡ true → P y) xs)
      go true rest = (λ h. (λ _. h.0, rest.0 h.1), λ h. (h.0 refl, rest.1 h.1))
      go false rest = (λ h. (λ e. absurd (cc), rest.0 h), λ h. rest.1 h.1)

  pub Any-filter : (xs : List A) → Any P (filter p xs) ↔ Any (λ x. (p x ≡ true) × P x) xs
  Any-filter [] = (λ h. h, λ h. h)
  Any-filter (x ∷ xs) = go (p x) (Any-filter xs)
    where
      go :
          (b : Bool)
          → (Any P (filter p xs) ↔ Any (λ y. (p y ≡ true) × P y) xs)
          → Any P (if b then x ∷ filter p xs else filter p xs)
            ↔ (((b ≡ true) × P x) ⊎ Any (λ y. (p y ≡ true) × P y) xs)
      go true rest = (
        λ h. elim h [ inl k ↦ inl (refl, k) | inr k ↦ inr (rest.0 k) ],
        λ h. elim h [ inl k ↦ inl k.1 | inr k ↦ inr (rest.1 k) ],
      )
      go false rest = (λ h. inr (rest.0 h), λ h. elim h [ inl k ↦ absurd (cc) | inr k ↦ rest.1 k ])

-- Tests that agree keep the same items.
pub filter_same :
    {A : Type 0} (p q : A → Bool) (xs : List A)
    → ((x : A) → (p x ≡ true) ↔ (q x ≡ true))
    → filter p xs ≡ filter q xs
filter_same p q [] e = refl
filter_same p q (x ∷ xs) e =
    let there = (e x).0 in
    let back = (e x).1 in
    let rest = filter_same p q xs e in
    elim (Bool-cases (p x)) [
      | inl yes_p ↦ rw (yes_p, there yes_p, rest) refl
      | inr no_p ↦ elim (Bool-cases (q x)) [
        | inl yes_q ↦ (let k = back yes_q in absurd (cc))
        | inr no_q ↦ rw (no_p, no_q, rest) refl
      ]
    ]
