-- ===== src/Text/Search/Occurs.antt =====
-- `starts_with` and `contains` find a text just where it stands.
use mathlib.Core.Path.{subst}
use casegraph.Prelude.{
  Bool, true, false, ◌&&◌, ◌≡◌, ◌↔◌, inl, inr, refl, sym, ap, ◌∙◌, [], ◌∷◌, ◌++◌, ◌==◌, ==_iff,
  Bool-cases, arith,
}
use casegraph.Text.Defs.{Text}
use casegraph.Text.Search.{starts_with, contains}

both_true : (a b : Bool) → (a && b) ≡ true → (a ≡ true) × (b ≡ true)
both_true true b h = (refl, h)
both_true false b h = absurd (cc)

pub starts_with-append :
    (s value : Text) → starts_with s value ≡ true → (after : Text) × (s ≡ value ++ after)
unfolding starts_with
starts_with-append s [] h = (s, refl)
starts_with-append [] (p ∷ ps) h = absurd (cc)
starts_with-append (c ∷ s) (p ∷ ps) h =
    let parts = both_true (c == p) (starts_with s ps) h in
    let (after, e) = starts_with-append s ps parts.1 in
    (after, ap (λ d. d ∷ s) ((==_iff c p).0 parts.0) ∙ ap (λ t. p ∷ t) e)

pub starts_with_self : (value after : Text) → starts_with (value ++ after) value ≡ true
unfolding starts_with
starts_with_self [] [] = refl
starts_with_self [] (c ∷ after) = refl
starts_with_self (p ∷ ps) after = rw ((==_iff p p).1 refl, starts_with_self ps after) refl

-- The text stands somewhere in the other.
abbrev pub Occurs : Text → Text → Type 0
Occurs value s = (before : Text) × (after : Text) × (s ≡ before ++ (value ++ after))

contains-Occurs : (s value : Text) → contains s value ≡ true → Occurs value s
unfolding contains
contains-Occurs [] value h = let (after, e) = starts_with-append [] value h in ([], after, e)
contains-Occurs (c ∷ s) value h = elim (Bool-cases (starts_with (c ∷ s) value)) [
  | inl here ↦ let (after, e) = starts_with-append (c ∷ s) value here in ([], after, e)
  | inr later ↦
      (let (before, after, e) = contains-Occurs s value (ground arith) in
        (c ∷ before, after, ap (λ t. c ∷ t) e))
]

contains_start : (s value : Text) → starts_with s value ≡ true → contains s value ≡ true
unfolding contains
contains_start [] value h = h
contains_start (c ∷ s) value h = ground arith

contains_occurrence :
    (before value after : Text) → contains (before ++ (value ++ after)) value ≡ true
unfolding contains
contains_occurrence [] value after =
    contains_start (value ++ after) value (starts_with_self value after)
contains_occurrence (c ∷ before) value after =
    let later = contains_occurrence before value after in ground arith

pub contains_iff : (s value : Text) → (contains s value ≡ true) ↔ Occurs value s
contains_iff s value = (
  contains-Occurs s value,
  λ h.
      let (before, after, e) = h in
      subst (λ t. contains t value ≡ true) (sym e) (contains_occurrence before value after),
)
