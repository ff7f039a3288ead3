-- ===== src/Infrastructure/Sqlite/Tx.antt =====
-- A transaction of crates/casegraph-infrastructure/src/sqlite_repository.rs: it reads and extends
-- the database, and what it wrote is kept only when it ends in `commit`: a `Transaction` that is
-- dropped on an error rolls back.
use casegraph.Prelude.{List, [], ◌∷◌}
use casegraph.Prelude.Result.{Result, ok, err}
use casegraph.Domain.Error.{DomainError}
use casegraph.Application.Error.{AppError, from_domain}
use casegraph.Infrastructure.Sqlite.Rows.{Database}

abbrev pub Tx : Type 0 → Type 0
Tx A = Database → Result AppError (A × Database)

module _ {A : Type 0} where
  abbrev pub pure : A → Tx A
  pure a db = ok (a, db)

  -- `?` on a result that does not depend on the database.
  abbrev pub lift : Result AppError A → Tx A
  lift (ok a) db = ok (a, db)
  lift (err e) db = err e

  abbrev pub lift_domain : Result DomainError A → Tx A
  lift_domain (ok a) db = ok (a, db)
  lift_domain (err e) db = err (from_domain e)

  -- A query.
  abbrev pub query : (Database → A) → Tx A
  query f db = ok (f db, db)

  abbrev pub load : (Database → Result AppError A) → Tx A
  load f db = lift (f db) db

module _ {A B : Type 0} where
  abbrev pub continue : Result AppError (A × Database) → (A → Tx B) → Result AppError (B × Database)
  continue (ok (a, db)) f = f a db
  continue (err e) f = err e

  infixl 5 ◌>>=◌ ◌>>◌
  unfoldable pub ◌>>=◌ : Tx A → (A → Tx B) → Tx B
  ◌>>=◌ m f db = continue (m db) f

  abbrev pub ◌>>◌ : Tx A → Tx B → Tx B
  m >> n = m >>= λ _. n

-- `for item in items { ... }`.
unfoldable pub for_each : {A : Type 0} → List A → (A → Tx (Unit {0})) → Tx (Unit {0})
for_each [] f = pure tt
for_each (a ∷ items) f = do f a; for_each items f

-- A whole operation: the transaction is committed, or nothing of it is kept.
abbrev pub commit : {A : Type 0} → Tx A → Database → Result AppError A × Database
commit m db = elim (m db) [ ok (a, db') ↦ (ok a, db') | err e ↦ (err e, db) ]
