-- ===== src/Infrastructure/Sqlite/Order.antt =====
-- ORDER BY, DISTINCT and LIMIT 1 in the queries of
-- crates/casegraph-infrastructure/src/sqlite_repository.rs.
pub mod Latest
use Prim.Native.Nat.{Ordering}
use casegraph.Prelude.{
  Bool, List, Option, [], false, if◌then◌else◌, none, not, some, true, ◌&&◌, ◌||◌, ◌∷◌,
}
use casegraph.Prelude.Int.{ℤ, ltb_ℤ}
use casegraph.Prelude.Result.{Result, ok, ◌>>=◌}
use casegraph.Text.{Text, text_cmp}
use casegraph.Infrastructure.Sqlite.Rows.{StateChangeRow}

-- A row that goes first stands before the first row that does not go before it.
abbrev pub insert_by : {A : Type 0} → (A → A → Bool) → A → List A → List A
insert_by goes_first a [] = a ∷ []
insert_by goes_first a (b ∷ rest) =
    let later = insert_by goes_first a rest in if goes_first b a then b ∷ later else a ∷ b ∷ rest

unfoldable pub sort_by : {A : Type 0} → (A → A → Bool) → List A → List A
sort_by goes_first [] = []
sort_by goes_first (a ∷ rows) = insert_by goes_first a (sort_by goes_first rows)

abbrev pub text_lt : Text → Text → Bool
text_lt a b = elim (text_cmp a b) [ Ordering.lt ↦ true | Ordering.eq ↦ false | Ordering.gt ↦ false ]

-- `ORDER BY time, id`.
abbrev pub by_time : {A : Type 0} → (A → ℤ) → (A → Text) → A → A → Bool
by_time time id a b =
    ltb_ℤ (time a) (time b) || (not (ltb_ℤ (time b) (time a)) && text_lt (id a) (id b))

-- `ORDER BY time DESC, id DESC LIMIT 1`.
unfoldable pub latest : List StateChangeRow → Option StateChangeRow
latest [] = none
latest (r ∷ rows) = elim (latest rows) [
  | none ↦ some r
  | some best ↦ if by_time (λ x. x.changed_at_ms) (λ x. x.id) r best then some best else some r
]

-- A sorted list of texts, each of them once.
abbrev pub insert_distinct : Text → List Text → List Text
insert_distinct s [] = s ∷ []
insert_distinct s (t ∷ rest) =
    let later = insert_distinct s rest in
    elim (text_cmp s t) [
      | Ordering.lt ↦ s ∷ t ∷ rest
      | Ordering.eq ↦ t ∷ rest
      | Ordering.gt ↦ t ∷ later
    ]

unfoldable pub sort_distinct : List Text → List Text
sort_distinct [] = []
sort_distinct (s ∷ rest) = insert_distinct s (sort_distinct rest)

-- `for row in rows { items.push(f(row)?) }`.
unfoldable pub collect : {E A B : Type 0} → (A → Result E B) → List A → Result E (List B)
collect f [] = ok []
collect f (a ∷ rows) = do b ← f a; items ← collect f rows; ok (b ∷ items)
