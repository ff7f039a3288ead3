-- ===== src/Infrastructure/Sqlite/Reads.antt =====
-- The lists of crates/casegraph-infrastructure/src/sqlite_repository.rs. They select identifiers,
-- and load each one.
use casegraph.Prelude.{Bool, List, Option, filter, ltb, map, none, not, some, ◌&&◌, ◌==◌, ◌||◌}
use casegraph.Prelude.Int.{ltb_ℤ}
use casegraph.Prelude.Result.{Result, ok, ok_or, ◌>>=◌}
use casegraph.Text.{Text, lit, text_eq}
use casegraph.Domain.Id.{RecordId}
use casegraph.Domain.Model.Evidence.{Claim, ClaimState, Contradiction, ArtifactVersion, AuditEvent}
use casegraph.Domain.Model.Workflow.{GroundedClaim, WorkflowMaterialization}
use casegraph.Application.Error.{AppError, app_error, internal}
use casegraph.Application.Query.{flat_map}
use casegraph.Infrastructure.Sqlite.Rows.{ArtifactRow, ArtifactVersionRow, Database, StateChangeRow}
use casegraph.Infrastructure.Sqlite.Tables.{
  as_artifact, as_artifact_version, as_audit, as_claim, as_contradiction, as_evaluation,
  as_state_change, select,
}
use casegraph.Infrastructure.Sqlite.Serde.{Serde, parse_id}
use casegraph.Infrastructure.Sqlite.Codes.{parse_claim_state}
use casegraph.Infrastructure.Sqlite.Insert.{is_same}
use casegraph.Infrastructure.Sqlite.Load.{
  load_artifact_version, load_claim, load_contradiction, read_audit,
}
use casegraph.Infrastructure.Sqlite.Load.Workflow.{load_workflow}
use casegraph.Infrastructure.Sqlite.Order.{by_time, collect, latest, sort_by, text_lt}
use casegraph.Infrastructure.Sqlite.Reviews.{supports}

-- An item of a list, loaded by its identifier.
abbrev pub load_listed :
    {A : Type 0} → AppError → (RecordId → Result AppError (Option A)) → Text → Result AppError A
load_listed missing load raw = do id ← parse_id raw; found ← load id; ok_or missing found

-- `list_claims`.
unfoldable pub list_claims : Serde → RecordId → Database → Result AppError (List Claim)
list_claims serde case_id db =
    collect
      (λ r.
        load_listed (app_error internal (lit "listed claim was not found"))
          (λ id. load_claim serde id db) r.id)
      (sort_by (by_time (λ r. r.created_at_ms) (λ r. r.id))
        (filter (λ r. text_eq r.case_id case_id.value) (select as_claim db)))

-- `list_contradictions`.
unfoldable pub list_contradictions : RecordId → Database → Result AppError (List Contradiction)
list_contradictions case_id db =
    collect
      (λ r.
        load_listed (app_error internal (lit "listed contradiction was not found"))
          (λ id. load_contradiction id db) r.id)
      (sort_by (by_time (λ r. r.created_at_ms) (λ r. r.id))
        (filter (λ r. text_eq r.case_id case_id.value) (select as_contradiction db)))

-- `JOIN artifacts a ON a.id = v.artifact_id WHERE a.case_id = ?1`.
abbrev pub versions_of : RecordId → Database → List (ArtifactRow × ArtifactVersionRow)
versions_of case_id db =
    flat_map
      (λ v.
        map (λ a. (a, v))
          (filter (λ a. text_eq a.id v.artifact_id && text_eq a.case_id case_id.value)
            (select as_artifact db)))
      (select as_artifact_version db)

-- `ORDER BY a.created_at_ms, v.version_number, v.id`.
abbrev pub version_before :
    ArtifactRow × ArtifactVersionRow → ArtifactRow × ArtifactVersionRow → Bool
version_before (a, v) (b, w) =
    ltb_ℤ a.created_at_ms b.created_at_ms
    || (not (ltb_ℤ b.created_at_ms a.created_at_ms)
        && (ltb v.version_number w.version_number
            || ((v.version_number == w.version_number) && text_lt v.id w.id)))

-- `list_artifact_versions`.
unfoldable pub list_artifact_versions : RecordId → Database → Result AppError (List ArtifactVersion)
list_artifact_versions case_id db =
    collect
      (λ r.
        load_listed (app_error internal (lit "listed artifact version was not found"))
          (λ id. load_artifact_version id db) r.1.id)
      (sort_by version_before (versions_of case_id db))

-- `list_audit_events`.
unfoldable pub list_audit_events : RecordId → Database → Result AppError (List AuditEvent)
list_audit_events case_id db = collect read_audit (
    sort_by (by_time (λ r. r.occurred_at_ms) (λ r. r.id))
      (filter (λ r. is_same r.case_id (some case_id.value)) (select as_audit db)))

-- The last state of a claim, parsed, or its initial one.
abbrev pub grounded_state : Claim → Option StateChangeRow → Result AppError ClaimState
grounded_state claim none = ok claim.initial_state
grounded_state claim (some change) = parse_claim_state change.state

-- One turn of the loop of `list_grounded_claims`. Its order of the evidence is by identifier alone.
unfoldable pub ground_claim : Database → Claim → Result AppError GroundedClaim
ground_claim db claim = do
  state ←
      grounded_state claim
        (latest (filter (λ s. text_eq s.claim_id claim.id.value) (select as_state_change db)))
  evidence_ids ←
      collect (λ e. parse_id e.to_id)
        (sort_by (λ a b. text_lt a.to_id b.to_id) (supports claim.id.value db))
  ok (record {
    claim = claim;
    current_state = state;
    provenance_id = claim.primary_provenance_id;
    evidence_ids = evidence_ids;
  })

-- `list_grounded_claims`.
unfoldable pub list_grounded_claims :
    Serde → RecordId → Database → Result AppError (List GroundedClaim)
list_grounded_claims serde case_id db = do
  claims ← list_claims serde case_id db
  collect (ground_claim db) claims

-- `list_workflow`.
unfoldable pub list_workflow :
    Serde → RecordId → Database → Result AppError (List WorkflowMaterialization)
list_workflow serde case_id db =
    collect (λ r. parse_id r.id >>= λ id. load_workflow serde id db)
      (sort_by (by_time (λ r. r.evaluated_at_ms) (λ r. r.id))
        (filter (λ r. text_eq r.case_id case_id.value) (select as_evaluation db)))
