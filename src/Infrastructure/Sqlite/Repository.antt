-- ===== src/Infrastructure/Sqlite/Repository.antt =====
-- `SqliteEvidenceRepository` of crates/casegraph-infrastructure/src/sqlite_repository.rs: each
-- operation is one transaction. The lock of the connection is held throughout, so operations follow
-- one another.
pub mod Repeated
pub mod Ends
pub mod History
use casegraph.Prelude.{List, Option, [], none, some, ℕ, ◌∷◌}
use casegraph.Prelude.Result.{Result, ok, err}
use casegraph.Text.{Text}
use casegraph.Domain.Id.{RecordId}
use casegraph.Domain.Temporal.{TimestampMs}
use casegraph.Application.Error.{AppError}
use casegraph.Application.Monad.{App}
use casegraph.Application.Ports.{
  Ports, StoredArtifact, OperationContext, CreateCaseBundle, IngestionBundle, ClaimBundle,
  ReviewBundle, CorrectionBundle, RegisterRuleBundle, EvaluationBundle,
}
use casegraph.Infrastructure.Sqlite.Rows.{Database}
use casegraph.Infrastructure.Sqlite.Serde.{Serde}
use casegraph.Infrastructure.Sqlite.Tx.{Tx, commit}
use casegraph.Infrastructure.Sqlite.Claims.{record_claim}
use casegraph.Infrastructure.Sqlite.Reviews.{correct_claim, review_claim}
use casegraph.Infrastructure.Sqlite.Artifacts.{create_case, ingest}
use casegraph.Infrastructure.Sqlite.Evaluations.{record_evaluation, register_rule}
use casegraph.Infrastructure.Sqlite.Load.{
  load_artifact_version, load_case, load_claim, load_provenance,
}
use casegraph.Infrastructure.Sqlite.Load.Workflow.{load_rule_version}
use casegraph.Infrastructure.Sqlite.Reads.{
  list_artifact_versions, list_audit_events, list_claims, list_contradictions, list_grounded_claims,
  list_workflow,
}

-- A call of an operation that writes.
pub data Operation : Type 0 where
  create_case_call : CreateCaseBundle → Operation
  ingest_call : IngestionBundle → Operation
  record_claim_call : ClaimBundle → Operation
  review_claim_call : ReviewBundle → Operation
  correct_claim_call : CorrectionBundle → Operation
  register_rule_call : RegisterRuleBundle → Operation
  record_evaluation_call : EvaluationBundle → Operation

abbrev pub context_of : Operation → OperationContext
context_of (create_case_call b) = b.context
context_of (ingest_call b) = b.context
context_of (record_claim_call b) = b.context
context_of (review_claim_call b) = b.context
context_of (correct_claim_call b) = b.context
context_of (register_rule_call b) = b.context
context_of (record_evaluation_call b) = b.context

-- The error of a call, if any, and the database after it.
abbrev pub error_and_database :
    {A : Type 0} → Result AppError A × Database → Option AppError × Database
error_and_database (ok a, db) = (none, db)
error_and_database (err e, db) = (some e, db)

module _ (serde : Serde) where
  unfoldable pub perform : Operation → Database → Option AppError × Database
  perform (create_case_call b) db = error_and_database (commit (create_case serde b) db)
  perform (ingest_call b) db = error_and_database (commit (ingest serde b) db)
  perform (record_claim_call b) db = error_and_database (commit (record_claim serde b) db)
  perform (review_claim_call b) db = error_and_database (commit (review_claim serde b) db)
  perform (correct_claim_call b) db = error_and_database (commit (correct_claim serde b) db)
  perform (register_rule_call b) db = error_and_database (commit (register_rule serde b) db)
  perform (record_evaluation_call b) db = error_and_database (commit (record_evaluation serde b) db)

  -- The database after a sequence of calls, in which some may fail.
  unfoldable pub run : List Operation → Database → Database
  run [] db = db
  run (call ∷ calls) db = run calls (perform call db).1

-- The adapters beside the repository: the clock, the identifiers and the artifact store.
pub record Others (E : Type 0) : Type 0 where
  pub now : App E TimestampMs
  pub next : Text → App E RecordId
  pub put : List ℕ → App E StoredArtifact
  pub read : Text → App E (List ℕ)

module _ {E A : Type 0} where
  abbrev pub aside : App E A → App (Database × E) A
  aside m (db, e) = let (r, e') = m e in (r, (db, e'))

  abbrev pub transact : Tx A → App (Database × E) A
  transact m (db, e) = let (r, db') = commit m db in (r, (db', e))

  abbrev pub select_from : (Database → Result AppError A) → App (Database × E) A
  select_from f (db, e) = (f db, (db, e))

-- `impl EvidenceRepository for SqliteEvidenceRepository`, beside the other adapters.
unfoldable pub sqlite_ports : {E : Type 0} → Serde → Others E → Ports (Database × E)
sqlite_ports serde others = record {
  now = aside others.now;
  next = λ kind. aside (others.next kind);
  put = λ bytes. aside (others.put bytes);
  read = λ key. aside (others.read key);
  create_case = λ b. transact (create_case serde b);
  get_case = λ id. select_from (load_case id);
  ingest = λ b. transact (ingest serde b);
  get_artifact_version = λ id. select_from (load_artifact_version id);
  list_artifact_versions = λ id. select_from (list_artifact_versions id);
  record_claim = λ b. transact (record_claim serde b);
  get_claim = λ id. select_from (load_claim serde id);
  list_claims = λ id. select_from (list_claims serde id);
  list_contradictions = λ id. select_from (list_contradictions id);
  list_audit_events = λ id. select_from (list_audit_events id);
  get_provenance = λ id. select_from (load_provenance id);
  review_claim = λ b. transact (review_claim serde b);
  correct_claim = λ b. transact (correct_claim serde b);
  register_rule = λ b. transact (register_rule serde b);
  get_rule_version = λ id. select_from (load_rule_version serde id);
  list_grounded_claims = λ id. select_from (list_grounded_claims serde id);
  record_evaluation = λ b. transact (record_evaluation serde b);
  list_workflow = λ id. select_from (list_workflow serde id);
}
