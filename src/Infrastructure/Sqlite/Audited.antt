-- ===== src/Infrastructure/Sqlite/Audited.antt =====
-- Every operation of crates/casegraph-infrastructure/src/sqlite_repository.rs that succeeds has
-- grown the database, and its last row is the audit event of its context.
pub mod Operations
use casegraph.Prelude.{Option, [], arith, none, refl, true, ◌++◌, ◌∷◌, ◌≡◌}
use casegraph.Prelude.Result.{Result, ok, err}
use casegraph.Text.{Text}
use casegraph.Domain.Id.{RecordId}
use casegraph.Application.Ports.{OperationContext}
use casegraph.Infrastructure.Sqlite.Rows.{AuditRow, Database, audit_row}
use casegraph.Infrastructure.Sqlite.Serde.{AuditState, Serde, to_json}
use casegraph.Infrastructure.Sqlite.Tx.{Tx, pure, ◌>>=◌}
use casegraph.Infrastructure.Sqlite.Insert.{insert_audit}
use casegraph.Infrastructure.Sqlite.Statement.{Violation, collision, insert}
use casegraph.Infrastructure.Sqlite.References.{refers}
use casegraph.Infrastructure.Sqlite.Grown.{Grown, Grown-trans, Grows, Grows-lift, bind-ok, inserted}

-- The actor, the correlation, the time and the reason of an audit event are those of the context.
pub record IsAudit (context : OperationContext) (r : AuditRow) : Type 0 where
  pub id : r.id ≡ context.audit_id.value
  pub actor : r.actor ≡ context.actor
  pub correlation : r.correlation_id ≡ context.correlation_id.value
  pub time : r.occurred_at_ms ≡ context.occurred_at.ms
  pub reason : r.reason ≡ context.reason

-- The database after insertions that the schema accepts, the last of them such an audit event.
pub record Logged (serde : Serde) (context : OperationContext) (db db' : Database) : Type 0 where
  pub before : Database
  pub event : AuditRow
  pub grown : Grown serde db before
  pub fresh : collision serde before (audit_row event) ≡ none
  pub referring : refers before (audit_row event) ≡ true
  pub last : db' ≡ before ++ (audit_row event ∷ [])
  pub is_audit : IsAudit context event

pub Logged-Grown :
    {serde : Serde} {context : OperationContext} {db db' : Database}
    → Logged serde context db db'
    → Grown serde db db'
Logged-Grown l = inserted l.before (audit_row l.event) _ l.grown l.fresh l.referring l.last

-- A transaction that logs when it succeeds.
pub record Logs {A : Type 0} (serde : Serde) (context : OperationContext) (m : Tx A) : Type 0 where
  pub at :
      (db : Database) (a : A) (db' : Database) → m db ≡ ok (a, db') → Logged serde context db db'

insert_audit_row :
    (serde : Serde) (r : AuditRow) (db : Database) (u : Unit {0}) (db' : Database)
    → insert serde (audit_row r) db ≡ ok (u, db')
    → (collision serde db (audit_row r) ≡ none)
      × ((refers db (audit_row r) ≡ true) × (db' ≡ db ++ (audit_row r ∷ [])))
unfolding insert
insert_audit_row serde r db u db' h = go (collision serde db (audit_row r)) refl
  where
    go :
        (v : Option Violation)
        → collision serde db (audit_row r) ≡ v
        → (collision serde db (audit_row r) ≡ none)
          × ((refers db (audit_row r) ≡ true) × (db' ≡ db ++ (audit_row r ∷ [])))
    go v e = (ground arith, (ground arith, ground arith))

module _ {serde : Serde} {context : OperationContext} where
  pub Logs-bind :
      {A B : Type 0} (m : Tx A) (f : A → Tx B)
      → Grows serde m
      → ((a : A) → Logs serde context (f a))
      → Logs serde context (m >>= f)
  Logs-bind m f gm lf = record {
    at = λ db b db'' h.
        let (a, db', (hm, hf)) = bind-ok m f db b db'' h in
        let l = (lf a).at db' b db'' hf in
        record {
          before = l.before;
          event = l.event;
          grown = Grown-trans (gm.at db a db' hm) l.grown;
          fresh = l.fresh;
          referring = l.referring;
          last = l.last;
          is_audit = l.is_audit;
        };
  }

  -- An operation ends with the audit event, and returns.
  pub Logs-audit :
      {A : Type 0} (case_id : Option RecordId) (operation target_kind : Text) (target_id : RecordId)
      (state : AuditState) (a : A)
      → Logs serde context
          (insert_audit serde context case_id operation target_kind target_id state >>= λ _. pure a)
  unfolding insert_audit
  Logs-audit case_id operation target_kind target_id state a = record {
    at = λ db b db'' h.
        let (u, db1, (hm, hf)) = bind-ok _ (λ _. pure a) db b db'' h in
        let (resulting, db0, (hl, hi)) = bind-ok _ _ db u db1 hm in
        let inserted = insert_audit_row serde _ db0 u db1 hi in
        record {
          before = db0;
          event = _;
          grown = (Grows-lift (to_json (serde.state_json state))).at db resulting db0 hl;
          fresh = inserted.0;
          referring = inserted.1.0;
          last = cc;
          is_audit = record {
            id = refl;
            actor = refl;
            correlation = refl;
            time = refl;
            reason = refl;
          };
        };
  }
