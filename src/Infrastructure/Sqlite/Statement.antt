-- ===== src/Infrastructure/Sqlite/Statement.antt =====
-- INSERT, INSERT OR IGNORE, and the errors of rusqlite as
-- crates/casegraph-infrastructure/src/sqlite_repository.rs reports them. Where a row breaks several
-- constraints, the first of CHECK, PRIMARY KEY, UNIQUE and REFERENCES names the code. Failures of
-- the disk are not modelled.
use casegraph.Prelude.{Bool, Option, [], false, if◌then◌else◌, none, not, some, true, ◌++◌, ◌∷◌}
use casegraph.Prelude.Result.{ok, err}
use casegraph.Text.{Text, lit}
use casegraph.Application.Error.{AppError, app_error, conflict, storage, not_found}
use casegraph.Infrastructure.Sqlite.Rows.{Database, Row}
use casegraph.Infrastructure.Sqlite.Serde.{Serde}
use casegraph.Infrastructure.Sqlite.Tx.{Tx}
use casegraph.Infrastructure.Sqlite.Schema.{checks, repeats_key, repeats_unique}
use casegraph.Infrastructure.Sqlite.References.{refers, has_case, has_claim}

pub data Violation : Type 0 where
  check primary_key unique_key foreign_key : Violation

abbrev pub extended_code : Violation → Text
extended_code check = lit "275"
extended_code primary_key = lit "1555"
extended_code unique_key = lit "2067"
extended_code foreign_key = lit "787"

-- `database_error`, of a violated constraint or of an error that is not SQLite's.
abbrev pub database_error : Option Violation → AppError
database_error (some v) =
    app_error conflict (lit "database operation failed (SQLite " ++ (extended_code v ++ lit ")"))
database_error none = app_error storage (lit "database operation failed (SQLite unknown)")

-- Checks and keys, which IGNORE skips.
unfoldable pub collision : Serde → Database → Row → Option Violation
unfolding checks repeats_key repeats_unique
collision serde db row =
    if not (checks serde row)
    then some check
    else if repeats_key db row
    then some primary_key
    else if repeats_unique db row
    then some unique_key
    else none

abbrev append_row : Row → Tx (Unit {0})
append_row row db =
    if refers db row then ok (tt, db ++ (row ∷ [])) else err (database_error (some foreign_key))

-- `INSERT INTO`.
unfoldable pub insert : Serde → Row → Tx (Unit {0})
unfolding refers collision
insert serde row db = elim (collision serde db row) [
  | some v ↦ err (database_error (some v))
  | none ↦ append_row row db
]

abbrev append_counted : Row → Tx Bool
append_counted row db =
    if refers db row then ok (true, db ++ (row ∷ [])) else err (database_error (some foreign_key))

-- `INSERT OR IGNORE INTO`: whether a row was inserted.
unfoldable pub insert_or_ignore : Serde → Row → Tx Bool
unfolding refers collision
insert_or_ignore serde row db = elim (collision serde db row) [
  | some v ↦ ok (false, db)
  | none ↦ append_counted row db
]

-- `ensure_case_exists`.
unfoldable pub ensure_case_exists : Text → Tx (Unit {0})
ensure_case_exists id db =
    if has_case db id then ok (tt, db) else err (app_error not_found (lit "case was not found"))

-- `ensure_claim_exists`.
unfoldable pub ensure_claim_exists : Text → Tx (Unit {0})
ensure_claim_exists id db =
    if has_claim db id then ok (tt, db) else err (app_error not_found (lit "claim was not found"))
