-- ===== src/Infrastructure/Sqlite/Tables.antt =====
-- A table of the database: the rows of its kind, in the order of insertion.
use casegraph.Prelude.{Option, none, some, List, [], ◌∷◌}
use casegraph.Text.{Text}
use casegraph.Infrastructure.Sqlite.Rows.{
  Row, Database, ArtifactRow, ArtifactVersionRow, AuditRow, CaseRow, ClaimRow, ContradictionRow,
  CorrectionRow, DeadlineRow, EdgeRow, EvaluationEvidenceRow, EvaluationRow, EvidenceRow, FactRow,
  ObligationRow, ObservationRow, ProvenanceRow, ReviewRow, RuleRow, RuleVersionRow, SourceRow,
  StateChangeRow, TaskRow, VersionSourceRow, artifact_row, artifact_version_row, audit_row,
  case_row, claim_row, contradiction_row, correction_row, deadline_row, edge_row, entity_row,
  evaluation_evidence_row, evaluation_row, event_row, evidence_row, fact_row, obligation_row,
  observation_row, provenance_row, review_row, rule_row, rule_version_row, source_row,
  state_change_row, task_row, version_source_row,
}

-- The rows of a kind.
abbrev pub select : {A : Type 0} → (Row → Option A) → Database → List A
select kind [] = []
select kind (row ∷ db) =
    let rest = select kind db in elim (kind row) [ none ↦ rest | some a ↦ a ∷ rest ]

abbrev pub as_case : Row → Option CaseRow
as_case (case_row row) = some row
as_case _ = none

abbrev pub as_source : Row → Option SourceRow
as_source (source_row row) = some row
as_source _ = none

abbrev pub as_artifact : Row → Option ArtifactRow
as_artifact (artifact_row row) = some row
as_artifact _ = none

abbrev pub as_artifact_version : Row → Option ArtifactVersionRow
as_artifact_version (artifact_version_row row) = some row
as_artifact_version _ = none

abbrev pub as_version_source : Row → Option VersionSourceRow
as_version_source (version_source_row row) = some row
as_version_source _ = none

abbrev pub as_provenance : Row → Option ProvenanceRow
as_provenance (provenance_row row) = some row
as_provenance _ = none

abbrev pub as_entity : Row → Option Text
as_entity (entity_row row) = some row
as_entity _ = none

abbrev pub as_event : Row → Option Text
as_event (event_row row) = some row
as_event _ = none

abbrev pub as_observation : Row → Option ObservationRow
as_observation (observation_row row) = some row
as_observation _ = none

abbrev pub as_claim : Row → Option ClaimRow
as_claim (claim_row row) = some row
as_claim _ = none

abbrev pub as_state_change : Row → Option StateChangeRow
as_state_change (state_change_row row) = some row
as_state_change _ = none

abbrev pub as_fact : Row → Option FactRow
as_fact (fact_row row) = some row
as_fact _ = none

abbrev pub as_evidence : Row → Option EvidenceRow
as_evidence (evidence_row row) = some row
as_evidence _ = none

abbrev pub as_edge : Row → Option EdgeRow
as_edge (edge_row row) = some row
as_edge _ = none

abbrev pub as_contradiction : Row → Option ContradictionRow
as_contradiction (contradiction_row row) = some row
as_contradiction _ = none

abbrev pub as_review : Row → Option ReviewRow
as_review (review_row row) = some row
as_review _ = none

abbrev pub as_correction : Row → Option CorrectionRow
as_correction (correction_row row) = some row
as_correction _ = none

abbrev pub as_rule : Row → Option RuleRow
as_rule (rule_row row) = some row
as_rule _ = none

abbrev pub as_rule_version : Row → Option RuleVersionRow
as_rule_version (rule_version_row row) = some row
as_rule_version _ = none

abbrev pub as_evaluation : Row → Option EvaluationRow
as_evaluation (evaluation_row row) = some row
as_evaluation _ = none

abbrev pub as_evaluation_evidence : Row → Option EvaluationEvidenceRow
as_evaluation_evidence (evaluation_evidence_row row) = some row
as_evaluation_evidence _ = none

abbrev pub as_obligation : Row → Option ObligationRow
as_obligation (obligation_row row) = some row
as_obligation _ = none

abbrev pub as_deadline : Row → Option DeadlineRow
as_deadline (deadline_row row) = some row
as_deadline _ = none

abbrev pub as_task : Row → Option TaskRow
as_task (task_row row) = some row
as_task _ = none

abbrev pub as_audit : Row → Option AuditRow
as_audit (audit_row row) = some row
as_audit _ = none
