-- ===== src/Infrastructure/Sqlite/Repository/Ends.antt =====
-- How a call of crates/casegraph-infrastructure/src/sqlite_repository.rs ends.
use casegraph.Infrastructure.Sqlite.Rows.{Database, EvaluationRow}
use casegraph.Infrastructure.Sqlite.Tables.{as_evaluation, select}
use casegraph.Infrastructure.Sqlite.Evaluations.{
  load_existing, record_evaluation, record_unless, same_evaluation,
}
use casegraph.Infrastructure.Sqlite.Repository.Repeated.{
  SameInputs, same_evaluation-fresh, same_evaluation-repeated,
}
use casegraph.Infrastructure.Sqlite.Grown.{Grown, Grown-trans, bind-ok, lift-unchanged, same}
use casegraph.Infrastructure.Sqlite.Audited.{Logged, Logged-Grown, Logs}
use casegraph.Infrastructure.Sqlite.Audited.Operations.{
  correct_claim-Logs, create_case-Logs, ingest-Logs, insert_materialization-Logs, record_claim-Logs,
  register_rule-Logs, review_claim-Logs,
}
use casegraph.Infrastructure.Sqlite.Repository.{
  Operation, context_of, correct_claim_call, create_case_call, error_and_database, ingest_call,
  perform, record_claim_call, record_evaluation_call, register_rule_call, review_claim_call, run,
}
use casegraph.Infrastructure.Sqlite.Load.Workflow.{load_workflow}
use casegraph.Infrastructure.Sqlite.Tx.{◌>>=◌, Tx, commit}
use casegraph.Prelude.{◌∙◌, Any, inr, List, [], ◌∷◌, sym, Option, inl, none, refl, some, ◌≡◌, ◌⊎◌}
use casegraph.Prelude.Result.{Result, ok, err}
use casegraph.Text.{Text}
use casegraph.Domain.Model.Workflow.{WorkflowMaterialization}
use casegraph.Application.Error.{AppError}
use casegraph.Application.Ports.{OperationContext, EvaluationBundle}
use casegraph.Infrastructure.Sqlite.Serde.{parse_id, Serde}

-- The call is an evaluation whose inputs have been evaluated before.
abbrev pub IsRepeated : Operation → Database → Type 0
IsRepeated (record_evaluation_call b) db =
    Any (SameInputs b.materialization.evaluation) (select as_evaluation db)
IsRepeated _ db = ⊥

-- A failed call has left the database as it was. So has a call that succeeds and repeats an
-- evaluation; any other that succeeds has grown it, with its audit event last.
abbrev pub Finished :
    Serde → OperationContext → Type 0 → Database → Option AppError × Database → Type 0
Finished serde context Repeated db (some e, db') = db' ≡ db
Finished serde context Repeated db (none, db') =
    (Repeated → db' ≡ db) × ((Repeated → ⊥) → Logged serde context db db')

abbrev pub Ended : Serde → Operation → Database → Option AppError × Database → Type 0
Ended serde call db outcome = Finished serde (context_of call) (IsRepeated call db) db outcome

IsRepeated-cases :
    (call : Operation) (db : Database) → IsRepeated call db ⊎ (IsRepeated call db → ⊥)
IsRepeated-cases (record_evaluation_call b) db =
    go (same_evaluation b.materialization.evaluation db) refl
  where
    go :
        (found : Option EvaluationRow)
        → same_evaluation b.materialization.evaluation db ≡ found
        → IsRepeated (record_evaluation_call b) db ⊎ (IsRepeated (record_evaluation_call b) db → ⊥)
    go none e = inr (same_evaluation-fresh b.materialization.evaluation db e)
    go (some row) e = inl (same_evaluation-repeated b.materialization.evaluation db row e)
IsRepeated-cases (create_case_call b) db = inr (λ r. r)
IsRepeated-cases (ingest_call b) db = inr (λ r. r)
IsRepeated-cases (record_claim_call b) db = inr (λ r. r)
IsRepeated-cases (review_claim_call b) db = inr (λ r. r)
IsRepeated-cases (correct_claim_call b) db = inr (λ r. r)
IsRepeated-cases (register_rule_call b) db = inr (λ r. r)

module _ {A : Type 0} (serde : Serde) (context : OperationContext) (Repeated : Type 0) where
  commit-Finished :
      (m : Tx A) (db : Database)
      → (Repeated → ⊥)
      → Logs serde context m
      → Finished serde context Repeated db (error_and_database (commit m db))
  commit-Finished m db fresh l = go (m db) refl
    where
      go :
          (r : Result AppError (A × Database))
          → m db ≡ r
          → Finished serde context Repeated db (
              error_and_database {A = A}
                (elim r [ ok (a, db') ↦ (ok a, db') | err e ↦ (err e, db) ]))
      go (ok (a, db')) e = (λ r. absurd (fresh r), λ _. l.at db a db' e)
      go (err x) e = refl

module _ (serde : Serde) where
  load_existing_unchanged :
      (raw : Text) (db : Database) (a : WorkflowMaterialization) (db' : Database)
      → load_existing serde raw db ≡ ok (a, db')
      → db' ≡ db
  unfolding load_existing
  load_existing_unchanged raw db a db' h =
      let (id, db1, (hm, hf)) = bind-ok _ _ db a db' h in
      lift-unchanged (load_workflow serde id db1) db1 a db' hf
      ∙ lift-unchanged (parse_id raw) db id db1 hm

  repeated-Finished :
      (context : OperationContext) (Repeated : Type 0) (raw : Text) (db : Database)
      → Repeated
      → Finished serde context Repeated db
          (error_and_database (commit (load_existing serde raw) db))
  repeated-Finished context Repeated raw db repeated = go (load_existing serde raw db) refl
    where
      go :
          (r : Result AppError (WorkflowMaterialization × Database))
          → load_existing serde raw db ≡ r
          → Finished serde context Repeated db (
              error_and_database {A = WorkflowMaterialization}
                (elim r [ ok (a, db') ↦ (ok a, db') | err e ↦ (err e, db) ]))
      go (ok (a, db')) e =
          (λ _. load_existing_unchanged raw db a db' e, λ fresh. absurd (fresh repeated))
      go (err x) e = refl

  evaluation-Ended :
      (b : EvaluationBundle) (db : Database)
      → Ended serde
          (record_evaluation_call b)
          db
          (error_and_database (commit (record_evaluation serde b) db))
  unfolding record_evaluation ◌>>=◌ same_evaluation
  evaluation-Ended b db = go (same_evaluation b.materialization.evaluation db) refl
    where
      go :
          (found : Option EvaluationRow)
          → same_evaluation b.materialization.evaluation db ≡ found
          → Ended serde
              (record_evaluation_call b)
              db
              (error_and_database (commit (record_unless serde b found) db))
      go none e =
          commit-Finished serde b.context _ _ db
            (same_evaluation-fresh b.materialization.evaluation db e)
            (insert_materialization-Logs serde b)
      go (some row) e =
          repeated-Finished b.context _ row.id db
            (same_evaluation-repeated b.materialization.evaluation db row e)

  -- A call that fails leaves the database as it was. A call that succeeds has made insertions that
  -- the schema accepts, the last of them the audit event with the actor, the correlation, the time
  -- and the reason of its context; but the evaluation of a rule version in a case on inputs whose
  -- digest is that of a stored evaluation of it changes nothing.
  pub perform-Ended :
      (call : Operation) (db : Database) → Ended serde call db (perform serde call db)
  unfolding perform
  perform-Ended (create_case_call b) db =
      commit-Finished serde b.context _ _ db (λ r. r) (create_case-Logs serde b)
  perform-Ended (ingest_call b) db =
      commit-Finished serde b.context _ _ db (λ r. r) (ingest-Logs serde b)
  perform-Ended (record_claim_call b) db =
      commit-Finished serde b.context _ _ db (λ r. r) (record_claim-Logs serde b)
  perform-Ended (review_claim_call b) db =
      commit-Finished serde b.context _ _ db (λ r. r) (review_claim-Logs serde b)
  perform-Ended (correct_claim_call b) db =
      commit-Finished serde b.context _ _ db (λ r. r) (correct_claim-Logs serde b)
  perform-Ended (register_rule_call b) db =
      commit-Finished serde b.context _ _ db (λ r. r) (register_rule-Logs serde b)
  perform-Ended (record_evaluation_call b) db = evaluation-Ended b db

  pub perform-Grown : (call : Operation) (db : Database) → Grown serde db (perform serde call db).1
  perform-Grown call db = go (perform serde call db) (perform-Ended call db)
    where
      go : (r : Option AppError × Database) → Ended serde call db r → Grown serde db r.1
      go (some e, db') h = same _ (sym h)
      go (none, db') h = elim (IsRepeated-cases call db) [
        | inl repeated ↦ same _ (sym (h.0 repeated))
        | inr fresh ↦ Logged-Grown (h.1 fresh)
      ]

  pub run-Grown : (calls : List Operation) (db : Database) → Grown serde db (run serde calls db)
  unfolding run
  run-Grown [] db = same _ refl
  run-Grown (call ∷ calls) db =
      Grown-trans (perform-Grown call db) (run-Grown calls (perform serde call db).1)
