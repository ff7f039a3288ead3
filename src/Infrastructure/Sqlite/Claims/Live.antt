-- ===== src/Infrastructure/Sqlite/Claims/Live.antt =====
-- The claims that are live before a call of `record_claim` in
-- crates/casegraph-infrastructure/src/sqlite_repository.rs.
use mathlib.Core.Path.{subst}
use casegraph.Prelude.{
  Bool, true, false, ◌≡◌, ◌≢◌, ◌↔◌, ◌⊎◌, inl, inr, refl, sym, ap, ◌∙◌, arith, All, All-weaken,
  All-filter, Any, Any-filter, Option, none, some, List, [], ◌∷◌, filter, Bool-cases,
}
use casegraph.Prelude.Int.{◌≤ℤ◌, ltb_ℤ}
use Prim.Native.Nat.{Ordering}
use casegraph.Text.{Text, lit, text_eq, text_eq_iff, text_eq_ne, text_cmp}
use casegraph.Domain.Model.Evidence.{Claim}
use casegraph.Infrastructure.Sqlite.Rows.{ClaimRow, Database, StateChangeRow}
use casegraph.Infrastructure.Sqlite.Tables.{as_state_change, select}
use casegraph.Infrastructure.Sqlite.Order.{latest}
use casegraph.Infrastructure.Sqlite.Order.Latest.{
  before, latest-IsGreatest, latest-empty, text_lt_antisym, text_lt_iff,
}
use casegraph.Infrastructure.Sqlite.Claims.{current_state, is_prior}

-- No two rows have one identifier: it is the primary key of the table.
abbrev pub UniqueIds : List StateChangeRow → Type 0
UniqueIds [] = Unit
UniqueIds (x ∷ rows) = All (λ y. x.id ≢ y.id) rows × UniqueIds rows

-- The change `x` is of an earlier time than `s`, or of the same time and its identifier is not
-- behind that of `s`.
pub record NotAfter (s x : StateChangeRow) : Type 0 where
  pub time : x.changed_at_ms ≤ℤ s.changed_at_ms
  pub tie : s.changed_at_ms ≤ℤ x.changed_at_ms → text_cmp s.id x.id ≢ Ordering.lt

-- The change is the last one of the claim.
pub record IsLast (changes : List StateChangeRow) (claim_id : Text) (s : StateChangeRow)
    : Type 0 where
  pub listed : Any (λ x. x ≡ s) changes
  pub of_claim : s.claim_id ≡ claim_id
  pub last : All (λ x. x.claim_id ≡ claim_id → NotAfter s x) changes

-- The state of the claim: that of its last change, or its initial state when it has none.
abbrev pub IsCurrent : Database → ClaimRow → Text → Type 0
IsCurrent db r state =
    ((s : StateChangeRow) × IsLast (select as_state_change db) r.id s × (s.state ≡ state))
    ⊎ (All (λ x. x.claim_id ≢ r.id) (select as_state_change db) × (r.initial_state ≡ state))

-- Another claim of the case on the same subject and predicate, neither rejected nor superseded.
pub record IsLivePrior (db : Database) (claim : Claim) (r : ClaimRow) : Type 0 where
  pub one_case : r.case_id ≡ claim.case_id.value
  pub subject : r.subject_key ≡ claim.subject_key
  pub predicate : r.predicate ≡ claim.predicate
  pub other : r.id ≢ claim.id.value
  pub state : Text
  pub current : IsCurrent db r state
  pub live : (state ≢ lit "rejected") × (state ≢ lit "superseded")

before-NotAfter : (s x : StateChangeRow) → (before s x ≡ false) ↔ NotAfter s x
before-NotAfter s x =
    let ids = text_lt_iff s.id x.id in
    (
      λ h. record { time = ground arith; tie = λ k. ids.0 (ground arith) },
      λ n.
          let time = n.time in
          elim (Bool-cases (ltb_ℤ x.changed_at_ms s.changed_at_ms)) [
            | inl earlier ↦ ground arith
            | inr same ↦ (let tie = ids.1 (n.tie (ground arith)) in ground arith)
          ],
    )

-- The changes of a claim.
abbrev of_claim : Text → StateChangeRow → Bool
of_claim id x = text_eq x.claim_id id

listed_under :
    (p : StateChangeRow → Bool) (s : StateChangeRow) (rows : List StateChangeRow)
    → Any (λ x. (p x ≡ true) × (x ≡ s)) rows
    → Any (λ x. x ≡ s) rows × (p s ≡ true)
listed_under p s [] h = absurd h
listed_under p s (x ∷ rows) (inl (h, e)) = (inl e, subst (λ y. p y ≡ true) e h)
listed_under p s (x ∷ rows) (inr h) = let (a, b) = listed_under p s rows h in (inr a, b)

latest-IsLast :
    (rows : List StateChangeRow) (id : Text) (s : StateChangeRow)
    → latest (filter (of_claim id) rows) ≡ some s
    → IsLast rows id s
latest-IsLast rows id s h =
    let (listed, greatest) = latest-IsGreatest (filter (of_claim id) rows) s h in
    let (in_rows, owned) =
      listed_under (of_claim id) s rows ((Any-filter (λ x. x ≡ s) (of_claim id) rows).0 listed) in
    record {
      listed = in_rows;
      of_claim = (text_eq_iff s.claim_id id).0 owned;
      last =
          All-weaken rows (λ x k e. (before-NotAfter s x).0 (k ((text_eq_iff x.claim_id id).1 e)))
            ((All-filter (λ x. before s x ≡ false) (of_claim id) rows).0 greatest);
    }

filter-none :
    (p : StateChangeRow → Bool) (rows : List StateChangeRow)
    → filter p rows ≡ []
    → All (λ x. p x ≡ false) rows
filter-none p [] h = tt
filter-none p (x ∷ rows) h = elim (Bool-cases (p x)) [
  | inl yes_p ↦ absurd (ground arith)
  | inr no_p ↦ (no_p, filter-none p rows (ground arith))
]

IsCurrent-of :
    (db : Database) (r : ClaimRow) (o : Option StateChangeRow)
    → latest (filter (of_claim r.id) (select as_state_change db)) ≡ o
    → IsCurrent db r (elim o [ none ↦ r.initial_state | some change ↦ change.state ])
IsCurrent-of db r (some s) e = inl (s, latest-IsLast (select as_state_change db) r.id s e, refl)
IsCurrent-of db r none e =
    let changes = select as_state_change db in
    inr (
      All-weaken changes
          (λ x no_p same. let yes_p = (text_eq_iff x.claim_id r.id).1 same in absurd (cc))
          (filter-none (of_claim r.id) changes (latest-empty (filter (of_claim r.id) changes) e)),
      refl,
    )

current_state-IsCurrent : (db : Database) (r : ClaimRow) → IsCurrent db r (current_state db r)
unfolding current_state
current_state-IsCurrent db r =
    IsCurrent-of db r (latest (filter (of_claim r.id) (select as_state_change db))) refl

-- What holds of all rows holds of a listed one.
at_listed :
    (P : StateChangeRow → Type 0) (s : StateChangeRow) (rows : List StateChangeRow)
    → All P rows
    → Any (λ x. x ≡ s) rows
    → P s
at_listed P s [] h a = absurd a
at_listed P s (x ∷ rows) h (inl e) = subst P e h.0
at_listed P s (x ∷ rows) h (inr a) = at_listed P s rows h.1 a

one_row :
    (rows : List StateChangeRow) (s t : StateChangeRow)
    → UniqueIds rows
    → Any (λ x. x ≡ s) rows
    → Any (λ x. x ≡ t) rows
    → s.id ≡ t.id
    → s ≡ t
one_row [] s t u a b e = absurd a
one_row (x ∷ rows) s t u (inl a) (inl b) e = sym a ∙ b
one_row (x ∷ rows) s t u (inl a) (inr b) e =
    absurd (at_listed (λ y. x.id ≢ y.id) t rows u.0 b (ap (λ y. y.id) a ∙ e))
one_row (x ∷ rows) s t u (inr a) (inl b) e =
    absurd (at_listed (λ y. x.id ≢ y.id) s rows u.0 a (ap (λ y. y.id) b ∙ sym e))
one_row (x ∷ rows) s t u (inr a) (inr b) e = one_row rows s t u.1 a b e

last_unique :
    (rows : List StateChangeRow) (id : Text) (s t : StateChangeRow)
    → UniqueIds rows
    → IsLast rows id s
    → IsLast rows id t
    → s ≡ t
last_unique rows id s t u a b =
    let n = at_listed (λ x. x.claim_id ≡ id → NotAfter s x) t rows a.last b.listed b.of_claim in
    let m = at_listed (λ x. x.claim_id ≡ id → NotAfter t x) s rows b.last a.listed a.of_claim in
    one_row rows s t u a.listed b.listed (
      text_lt_antisym s.id t.id ((text_lt_iff s.id t.id).1 (n.tie m.time))
        ((text_lt_iff t.id s.id).1 (m.tie n.time)))

current_unique :
    (db : Database) (r : ClaimRow) (state state' : Text)
    → UniqueIds (select as_state_change db)
    → IsCurrent db r state
    → IsCurrent db r state'
    → state ≡ state'
current_unique db r state state' u (inl (s, a, e)) (inl (t, b, k)) =
    sym e ∙ (ap (λ x. x.state) (last_unique (select as_state_change db) r.id s t u a b) ∙ k)
current_unique db r state state' u (inl (s, a, e)) (inr (unchanged, k)) =
    absurd (
      at_listed (λ x. x.claim_id ≢ r.id) s (select as_state_change db) unchanged a.listed
        a.of_claim)
current_unique db r state state' u (inr (unchanged, e)) (inl (t, b, k)) =
    absurd (
      at_listed (λ x. x.claim_id ≢ r.id) t (select as_state_change db) unchanged b.listed
        b.of_claim)
current_unique db r state state' u (inr (unchanged, e)) (inr (unchanged', k)) = sym e ∙ k

-- The WHERE clause finds exactly the live prior claims.
pub is_prior-IsLivePrior :
    (db : Database) (claim : Claim) (r : ClaimRow)
    → UniqueIds (select as_state_change db)
    → (is_prior db claim r ≡ true) ↔ IsLivePrior db claim r
unfolding is_prior
is_prior-IsLivePrior db claim r u =
    let case_iff = text_eq_iff r.case_id claim.case_id.value in
    let subject_iff = text_eq_iff r.subject_key claim.subject_key in
    let predicate_iff = text_eq_iff r.predicate claim.predicate in
    let id_iff = text_eq_iff r.id claim.id.value in
    let rejected_iff = text_eq_iff (current_state db r) (lit "rejected") in
    let superseded_iff = text_eq_iff (current_state db r) (lit "superseded") in
    (
      λ h. record {
        one_case = case_iff.0 (ground arith);
        subject = subject_iff.0 (ground arith);
        predicate = predicate_iff.0 (ground arith);
        other = λ e. let same = id_iff.1 e in absurd (ground arith);
        state = current_state db r;
        current = current_state-IsCurrent db r;
        live = (
          λ e. let same = rejected_iff.1 e in absurd (ground arith),
          λ e. let same = superseded_iff.1 e in absurd (ground arith),
        );
      },
      λ p.
          let same =
            current_unique db r p.state (current_state db r) u p.current
              (current_state-IsCurrent db r) in
          let a = case_iff.1 p.one_case in
          let b = subject_iff.1 p.subject in
          let c = predicate_iff.1 p.predicate in
          let d = text_eq_ne r.id claim.id.value p.other in
          let e = text_eq_ne (current_state db r) (lit "rejected") (λ k. p.live.0 (same ∙ k)) in
          let f = text_eq_ne (current_state db r) (lit "superseded") (λ k. p.live.1 (same ∙ k)) in
          ground arith,
    )
