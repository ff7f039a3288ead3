-- ===== src/Infrastructure/Sqlite/Grown.antt =====
-- How transactions of crates/casegraph-infrastructure/src/sqlite_repository.rs change a database:
-- by insertions that the schema accepts, one rule for each way to build a transaction.
pub mod Inserts
use casegraph.Prelude.{Bool, List, Option, [], arith, none, refl, some, true, ◌++◌, ◌∷◌, ◌≡◌}
use mathlib.Core.Path.{subst}
use casegraph.Prelude.Result.{Result, ok, err}
use casegraph.Text.{Text}
use casegraph.Domain.Error.{DomainError}
use casegraph.Application.Error.{AppError}
use casegraph.Infrastructure.Sqlite.Rows.{Database, Row}
use casegraph.Infrastructure.Sqlite.Serde.{Serde}
use casegraph.Infrastructure.Sqlite.Tx.{
  Tx, continue, for_each, lift, lift_domain, load, pure, query, ◌>>=◌,
}
use casegraph.Infrastructure.Sqlite.Schema.{checks, repeats_key, repeats_unique}
use casegraph.Infrastructure.Sqlite.References.{refers}
use casegraph.Infrastructure.Sqlite.Statement.{
  Violation, collision, ensure_case_exists, ensure_claim_exists, insert, insert_or_ignore,
}

-- The second database is the first one after insertions, each accepted by the schema.
pub data Grown (serde : Serde) (db : Database) : Database → Type 0 where
  same : (db' : Database) → db ≡ db' → Grown serde db db'
  inserted :
      (between : Database) (row : Row) (db' : Database)
      → Grown serde db between
      → collision serde between row ≡ none
      → refers between row ≡ true
      → db' ≡ between ++ (row ∷ [])
      → Grown serde db db'

pub Grown-trans :
    {serde : Serde} {a b c : Database} → Grown serde a b → Grown serde b c → Grown serde a c
Grown-trans {serde} {a} {b} {c} g (same _ e) = subst (Grown serde a) e g
Grown-trans g (inserted between row _ h free refers e) =
    inserted between row _ (Grown-trans g h) free refers e

-- What a bind returns, its parts have returned.
pub bind-ok :
    {A B : Type 0} (m : Tx A) (f : A → Tx B) (db : Database) (b : B) (db'' : Database)
    → (m >>= f) db ≡ ok (b, db'')
    → (a : A) × (db' : Database) × ((m db ≡ ok (a, db')) × (f a db' ≡ ok (b, db'')))
unfolding ◌>>=◌
bind-ok {A} {B} m f db b db'' h = go (m db) refl h
  where
    go :
        (r : Result AppError (A × Database))
        → m db ≡ r
        → continue r f ≡ ok (b, db'')
        → (a : A) × (db' : Database) × ((m db ≡ ok (a, db')) × (f a db' ≡ ok (b, db'')))
    go (ok (a, db')) e h = (a, db', (e, h))
    go (err x) e h = cc

-- A result that does not depend on the database leaves it as it was.
pub lift-unchanged :
    {A : Type 0} (r : Result AppError A) (db : Database) (a : A) (db' : Database)
    → lift r db ≡ ok (a, db')
    → db' ≡ db
lift-unchanged (ok a) db b db' h = cc
lift-unchanged (err e) db b db' h = cc

-- A transaction that succeeds has grown the database.
pub record Grows {A : Type 0} (serde : Serde) (m : Tx A) : Type 0 where
  pub at : (db : Database) (a : A) (db' : Database) → m db ≡ ok (a, db') → Grown serde db db'

module _ {serde : Serde} where
  pub Grows-bind :
      {A B : Type 0} (m : Tx A) (f : A → Tx B)
      → Grows serde m
      → ((a : A) → Grows serde (f a))
      → Grows serde (m >>= f)
  Grows-bind m f gm gf = record {
    at = λ db b db'' h.
        let (a, db', (hm, hf)) = bind-ok m f db b db'' h in
        Grown-trans (gm.at db a db' hm) ((gf a).at db' b db'' hf);
  }

  pub Grows-pure : {A : Type 0} (a : A) → Grows serde (pure a)
  Grows-pure a = record { at = λ db b db' h. same _ (cc) }

  pub Grows-lift : {A : Type 0} (r : Result AppError A) → Grows serde (lift r)
  Grows-lift (ok a) = record { at = λ db b db' h. same _ (cc) }
  Grows-lift (err e) = record { at = λ db b db' h. absurd (cc) }

  pub Grows-lift_domain : {A : Type 0} (r : Result DomainError A) → Grows serde (lift_domain r)
  Grows-lift_domain (ok a) = record { at = λ db b db' h. same _ (cc) }
  Grows-lift_domain (err e) = record { at = λ db b db' h. absurd (cc) }

  pub Grows-load : {A : Type 0} (f : Database → Result AppError A) → Grows serde (load f)
  Grows-load f = record { at = λ db b db' h. (Grows-lift (f db)).at db b db' h }

  pub Grows-query : {A : Type 0} (f : Database → A) → Grows serde (query f)
  Grows-query f = record { at = λ db b db' h. same _ (cc) }

  pub Grows-for_each :
      {A : Type 0} (items : List A) (f : A → Tx (Unit {0}))
      → ((a : A) → Grows serde (f a))
      → Grows serde (for_each items f)
  unfolding for_each
  Grows-for_each [] f g = Grows-pure tt
  Grows-for_each (a ∷ items) f g = Grows-bind _ _ (g a) (λ _. Grows-for_each items f g)

  pub Grows-insert : (row : Row) → Grows serde (insert serde row)
  unfolding insert
  Grows-insert row = record { at = λ db a db' h. go db a db' (collision serde db row) refl h }
    where
      go :
          (db : Database) (a : Unit {0}) (db' : Database) (v : Option Violation)
          → collision serde db row ≡ v
          → insert serde row db ≡ ok (a, db')
          → Grown serde db db'
      go db a db' v e h =
          inserted db row _ (same _ refl) (ground arith) (ground arith) (ground arith)

  pub Grows-insert_or_ignore : (row : Row) → Grows serde (insert_or_ignore serde row)
  unfolding insert_or_ignore
  Grows-insert_or_ignore row = record {
    at = λ db a db' h. go db a db' (collision serde db row) refl h;
  }
    where
      go :
          (db : Database) (a : Bool) (db' : Database) (v : Option Violation)
          → collision serde db row ≡ v
          → insert_or_ignore serde row db ≡ ok (a, db')
          → Grown serde db db'
      go db a db' (some v) e h = same _ (ground arith)
      go db a db' none e h = inserted db row _ (same _ refl) e (ground arith) (ground arith)

  pub Grows-ensure_case_exists : (id : Text) → Grows serde (ensure_case_exists id)
  unfolding ensure_case_exists
  Grows-ensure_case_exists id = record { at = λ db a db' h. same _ (ground arith) }

  pub Grows-ensure_claim_exists : (id : Text) → Grows serde (ensure_claim_exists id)
  unfolding ensure_claim_exists
  Grows-ensure_claim_exists id = record { at = λ db a db' h. same _ (ground arith) }

pub ruleset grows = (
  Grows-bind, Grows-pure, Grows-lift, Grows-lift_domain, Grows-load, Grows-query, Grows-insert,
  Grows-insert_or_ignore, Grows-ensure_case_exists, Grows-ensure_claim_exists,
)
