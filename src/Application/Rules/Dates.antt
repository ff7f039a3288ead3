-- ===== src/Application/Rules/Dates.antt =====
-- The set of the dates of the deadline anchors, of crates/casegraph-application/src/rules.rs.
use casegraph.Prelude.{
  ◌≡◌, refl, ap, ◌↔◌, ◌⊎◌, inl, inr, Bool, true, false, Option, none, some, List, [], ◌∷◌, arith,
  All, Any, if◌then◌else◌,
}
use casegraph.Prelude.Int.{eq_of_parts}
use casegraph.Domain.Temporal.{Date, date_lt}
use casegraph.Domain.Model.Workflow.{GroundedClaim}
use casegraph.Application.Rules.Anchors.{anchor_date, insert_some, insert_date, anchor_dates}

date_same : (d e : Date) → date_lt d e ≡ false → date_lt e d ≡ false → d ≡ e
date_same d e h k =
    let y : d.year ≡ e.year = eq_of_parts d.year e.year (ground arith) in ground arith

date_lt_irrefl : (d : Date) → date_lt d d ≡ false
date_lt_irrefl d = ground arith

insert_some_date : (d : Date) (s : List Date) → ¬ (insert_date d s ≡ [])
unfolding insert_date
insert_some_date d [] = λ h. ground arith
insert_some_date d (x ∷ s) = λ h. grind (arith)

-- A set has one date just when it is not empty and all that went in are that date.
insert_one :
    (d e : Date) (s : List Date)
    → (insert_date d s ≡ e ∷ []) ↔ ((d ≡ e) × ((s ≡ []) ⊎ (s ≡ e ∷ [])))
unfolding insert_date
insert_one d e [] = (λ h. ground arith, λ h. ground arith)
insert_one d e (x ∷ s) = (
  λ h. only (date_lt d x) (date_lt x d) (insert_date d s) (insert_some_date d s) (date_same d x) h,
  λ h. same h.0 h.1,
)
  where
    only :
        (p q : Bool) (rest : List Date)
        → ¬ (rest ≡ [])
        → (p ≡ false → q ≡ false → d ≡ x)
        → (if p then d ∷ x ∷ s else if q then x ∷ rest else x ∷ s) ≡ e ∷ []
        → (d ≡ e) × ((x ∷ s ≡ []) ⊎ (x ∷ s ≡ e ∷ []))
    only true q rest ne eq h = absurd (cc)
    only false true rest ne eq h = absurd (ne (cc))
    only false false rest ne eq h = let same_date = eq refl refl in (cc, inr h)

    same : d ≡ e → (x ∷ s ≡ []) ⊎ (x ∷ s ≡ e ∷ []) → insert_date d (x ∷ s) ≡ e ∷ []
    same h (inl k) = absurd (cc)
    same h (inr k) =
        let y : x ≡ d = cc in
        let z : insert_date d (d ∷ s) ≡ d ∷ s = ground (arith, date_lt_irrefl d) in
        let u : insert_date d (x ∷ s) ≡ insert_date d (d ∷ s) = ap (λ v. insert_date d (v ∷ s)) y in
        cc

-- Every item that has a date has this one.
abbrev pub AllOn : Date → List GroundedClaim → Type 0
AllOn d items = All (λ item. (e : Date) → anchor_date item ≡ some e → e ≡ d) items

abbrev pub AnyOn : Date → List GroundedClaim → Type 0
AnyOn d items = Any (λ item. anchor_date item ≡ some d) items

pub at_most_one :
    (items : List GroundedClaim) (d : Date)
    → AllOn d items
    → (anchor_dates items ≡ []) ⊎ (anchor_dates items ≡ d ∷ [])
unfolding anchor_dates
at_most_one [] d h = inl refl
at_most_one (item ∷ items) d h = go (anchor_date item) h.0 (at_most_one items d h.1)
  where
    go :
        (o : Option Date)
        → ((e : Date) → o ≡ some e → e ≡ d)
        → (anchor_dates items ≡ []) ⊎ (anchor_dates items ≡ d ∷ [])
        → (insert_some o (anchor_dates items) ≡ []) ⊎ (insert_some o (anchor_dates items) ≡ d ∷ [])
    go none h k = k
    go (some e) h k = inr ((insert_one e d (anchor_dates items)).1 (h e refl, k))

pub some_date :
    (items : List GroundedClaim) (d : Date) → AnyOn d items → ¬ (anchor_dates items ≡ [])
unfolding anchor_dates
some_date (item ∷ items) d h = go (λ k. some_date items d k) (anchor_date item) h
  where
    go :
        (AnyOn d items → ¬ (anchor_dates items ≡ []))
        → (o : Option Date) → (o ≡ some d) ⊎ AnyOn d items
        → ¬ (insert_some o (anchor_dates items) ≡ [])
    go rest none (inl e) = absurd (cc)
    go rest none (inr h) = rest h
    go rest (some e) h = insert_some_date e (anchor_dates items)
some_date [] d h = absurd h

no_dates : (items : List GroundedClaim) (d : Date) → anchor_dates items ≡ [] → AllOn d items
unfolding anchor_dates
no_dates [] d h = tt
no_dates (item ∷ items) d h = go (λ k. no_dates items d k) (anchor_date item) h
  where
    go :
        (anchor_dates items ≡ [] → AllOn d items)
        → (o : Option Date) → insert_some o (anchor_dates items) ≡ []
        → ((e : Date) → o ≡ some e → e ≡ d) × AllOn d items
    go rest none h = (λ e k. absurd (cc), rest h)
    go rest (some e) h = absurd (insert_some_date e (anchor_dates items) h)

pub one_date :
    (items : List GroundedClaim) (d : Date)
    → anchor_dates items ≡ d ∷ []
    → AnyOn d items × AllOn d items
unfolding anchor_dates
one_date [] d h = absurd (cc)
one_date (item ∷ items) d h = go (λ k. one_date items d k) (anchor_date item) h
  where
    after :
        (anchor_dates items ≡ d ∷ [] → AnyOn d items × AllOn d items)
        → (anchor_dates items ≡ []) ⊎ (anchor_dates items ≡ d ∷ [])
        → AllOn d items
    after rest (inl k) = no_dates items d k
    after rest (inr k) = (rest k).1

    go :
        (anchor_dates items ≡ d ∷ [] → AnyOn d items × AllOn d items)
        → (o : Option Date) → insert_some o (anchor_dates items) ≡ d ∷ []
        → ((o ≡ some d) ⊎ AnyOn d items) × (((e : Date) → o ≡ some e → e ≡ d) × AllOn d items)
    go rest none h = (inr (rest h).0, (λ e k. absurd (cc), (rest h).1))
    go rest (some e) h =
        let known = (insert_one e d (anchor_dates items)).0 h in
        (inl (ap some known.0), (λ f k. cc, after rest known.1))
