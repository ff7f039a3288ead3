-- ===== src/Infrastructure/Sqlite/Order/Latest.antt =====
-- The last of the rows, as ORDER BY and LIMIT 1 find it.
use mathlib.Core.Path.{subst}
use Prim.Native.Nat.{Ordering}
use casegraph.Prelude.{
  Bool, true, false, ◌≡◌, ◌≢◌, ◌↔◌, inl, inr, refl, sym, ap, ◌∙◌, arith, All, All-weaken, Any,
  Option, none, some, List, [], ◌∷◌, if◌then◌else◌,
}
use casegraph.Text.{Text, text_cmp}
use casegraph.Infrastructure.Sqlite.Rows.{StateChangeRow}
use casegraph.Infrastructure.Sqlite.Order.{by_time, latest, text_lt}

text_lt_trans : (a b c : Text) → text_lt a b ≡ false → text_lt b c ≡ false → text_lt a c ≡ false
unfolding text_cmp
text_lt_trans [] [] c h k = k
text_lt_trans [] (y ∷ b) c h k = absurd (cc)
text_lt_trans (x ∷ a) b [] h k = refl
text_lt_trans (x ∷ a) [] (z ∷ c) h k = absurd (cc)
text_lt_trans (x ∷ a) (y ∷ b) (z ∷ c) h k = ground (arith, text_lt_trans a b c)

pub text_lt_antisym : (a b : Text) → text_lt a b ≡ false → text_lt b a ≡ false → a ≡ b
unfolding text_cmp
text_lt_antisym [] [] h k = refl
text_lt_antisym [] (y ∷ b) h k = absurd (cc)
text_lt_antisym (x ∷ a) [] h k = absurd (cc)
text_lt_antisym (x ∷ a) (y ∷ b) h k =
    let heads : x ≡ y = ground arith in
    let tails = text_lt_antisym a b (ground arith) (ground arith) in
    ap (λ d. d ∷ a) heads ∙ ap (λ t. y ∷ t) tails

text_lt_self : (a : Text) → text_lt a a ≡ false
unfolding text_cmp
text_lt_self [] = refl
text_lt_self (x ∷ a) = ground (arith, text_lt_self a)

abbrev pub before : StateChangeRow → StateChangeRow → Bool
before = by_time (λ x. x.changed_at_ms) (λ x. x.id)

text_lt_asym : (a b : Text) → text_lt a b ≡ true → text_lt b a ≡ false
unfolding text_cmp
text_lt_asym [] [] h = absurd (cc)
text_lt_asym [] (y ∷ b) h = refl
text_lt_asym (x ∷ a) [] h = absurd (cc)
text_lt_asym (x ∷ a) (y ∷ b) h = ground (arith, text_lt_asym a b)

pub text_lt_iff : (a b : Text) → (text_lt a b ≡ false) ↔ (text_cmp a b ≢ Ordering.lt)
text_lt_iff a b = go (text_cmp a b)
  where
    go :
        (o : Ordering)
        → (elim o [ Ordering.lt ↦ true | Ordering.eq ↦ false | Ordering.gt ↦ false ] ≡ false)
          ↔ (o ≢ Ordering.lt)
    go Ordering.lt = (λ h. absurd (cc), λ h. absurd (h refl))
    go Ordering.eq = (λ h k. cc, λ h. refl)
    go Ordering.gt = (λ h k. cc, λ h. refl)

before_trans :
    (a b c : StateChangeRow) → before a b ≡ false → before b c ≡ false → before a c ≡ false
before_trans a b c h k = ground (arith, text_lt_trans a.id b.id c.id)

before_asym : (a b : StateChangeRow) → before a b ≡ true → before b a ≡ false
before_asym a b h = ground (arith, text_lt_asym a.id b.id)

before_self : (a : StateChangeRow) → before a a ≡ false
before_self a = ground (arith, text_lt_self a.id)

pub latest-empty : (rows : List StateChangeRow) → latest rows ≡ none → rows ≡ []
unfolding latest
latest-empty [] h = refl
latest-empty (r ∷ rows) h = go (latest rows) h
  where
    go :
        (o : Option StateChangeRow)
        → elim o [ none ↦ some r | some best ↦ if before r best then some best else some r ] ≡ none
        → r ∷ rows ≡ []
    go none k = absurd (cc)
    go (some best) k = absurd (ground arith)

-- The row is listed, and none goes behind it.
abbrev pub IsGreatest : List StateChangeRow → StateChangeRow → Type 0
IsGreatest rows s = Any (λ x. x ≡ s) rows × All (λ x. before s x ≡ false) rows

IsGreatest-next :
    (r best : StateChangeRow) (rows : List StateChangeRow) (b : Bool)
    → before r best ≡ b
    → IsGreatest rows best
    → IsGreatest (r ∷ rows) (if b then best else r)
IsGreatest-next r best rows true h g = (inr g.0, (before_asym r best h, g.1))
IsGreatest-next r best rows false h g =
    (inl refl, (before_self r, All-weaken rows (λ x k. before_trans r best x h k) g.1))

pub latest-IsGreatest :
    (rows : List StateChangeRow) (s : StateChangeRow) → latest rows ≡ some s → IsGreatest rows s
unfolding latest
latest-IsGreatest [] s h = absurd (cc)
latest-IsGreatest (r ∷ rows) s h = go (latest rows) refl (λ best k. latest-IsGreatest rows best k) h
  where
    go :
        (o : Option StateChangeRow)
        → latest rows ≡ o
        → ((best : StateChangeRow) → o ≡ some best → IsGreatest rows best)
        → elim o [ none ↦ some r | some best ↦ if before r best then some best else some r ]
          ≡ some s
        → IsGreatest (r ∷ rows) s
    go none e g k =
        subst (λ xs. IsGreatest (r ∷ xs) s) (sym (latest-empty rows e))
          (let same : r ≡ s = cc in
            (inl same, (subst (λ x. before s x ≡ false) (sym same) (before_self s), tt)))
    go (some best) e g k =
        subst (IsGreatest (r ∷ rows)) (ground arith)
          (IsGreatest-next r best rows (before r best) refl (g best refl))
