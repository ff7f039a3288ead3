-- ===== src/Infrastructure/Sqlite/Rows.antt =====
-- The tables of crates/casegraph-infrastructure/migrations, with the columns that
-- sqlite_repository.rs writes: TEXT is a text, INTEGER an integer or a number where the program
-- stores an unsigned one, REAL a float. A database is the list of its rows in the order in which they
-- were inserted, since the program inserts and selects, and triggers refuse updates and deletions.
use casegraph.Prelude.{ℕ, Option, List}
use casegraph.Prelude.Int.{ℤ}
use casegraph.Text.{Text}
use casegraph.Domain.Confidence.{F64}

pub record CaseRow : Type 0 where
  pub id : Text
  pub title : Text
  pub status : Text
  pub created_at_ms : ℤ
  pub closed_at_ms : Option ℤ

pub record SourceRow : Type 0 where
  pub id : Text
  pub case_id : Text
  pub connector : Text
  pub locator : Text
  pub external_record_id : Option Text
  pub endpoint : Option Text
  pub source_revision : Option Text
  pub retrieved_at_ms : ℤ

pub record ArtifactRow : Type 0 where
  pub id : Text
  pub case_id : Text
  pub source_id : Text
  pub source_key : Text
  pub created_at_ms : ℤ

pub record ArtifactVersionRow : Type 0 where
  pub id : Text
  pub artifact_id : Text
  pub version_number : ℕ
  pub content_sha256 : Text
  pub content_length : ℤ
  pub media_type : Text
  pub storage_key : Text
  pub ingested_at_ms : ℤ
  pub received_at_ms : Option ℤ
  pub original_filename : Option Text

pub record VersionSourceRow : Type 0 where
  pub artifact_version_id : Text
  pub source_id : Text
  pub associated_at_ms : ℤ

pub record ProvenanceRow : Type 0 where
  pub id : Text
  pub artifact_version_id : Option Text
  pub connector : Option Text
  pub endpoint : Option Text
  pub external_record_id : Option Text
  pub source_field : Option Text
  pub page_number : Option ℕ
  pub paragraph_number : Option ℕ
  pub text_span_start : Option ℤ
  pub text_span_end : Option ℤ
  pub table_number : Option ℕ
  pub row_number : Option ℕ
  pub column_number : Option ℕ
  pub bounding_region_json : Option Text
  pub extraction_method : Text
  pub extractor_name : Text
  pub extractor_version : Text
  pub model_provider : Option Text
  pub model_name : Option Text
  pub model_version : Option Text
  pub model_configuration_json : Option Text
  pub extracted_at_ms : ℤ
  pub confidence : Option F64
  pub verification_state : Text
  pub original_representation : Option Text
  pub correlation_id : Text

pub record ObservationRow : Type 0 where
  pub id : Text
  pub case_id : Text
  pub subject_id : Option Text
  pub predicate : Text
  pub original_value : Text
  pub normalized_value_json : Option Text
  pub provenance_id : Text
  pub extraction_confidence : Option F64
  pub observed_at_ms : ℤ

pub record ClaimRow : Type 0 where
  pub id : Text
  pub case_id : Text
  pub subject_id : Option Text
  pub subject_key : Text
  pub predicate : Text
  pub original_value : Text
  pub normalized_value_json : Text
  pub origin : Text
  pub initial_state : Text
  pub primary_provenance_id : Option Text
  pub interpretation_confidence : Option F64
  pub created_at_ms : ℤ
  pub temporal_json : Option Text

pub record StateChangeRow : Type 0 where
  pub id : Text
  pub claim_id : Text
  pub state : Text
  pub actor : Text
  pub reason : Option Text
  pub changed_at_ms : ℤ
  pub correlation_id : Text

pub record FactRow : Type 0 where
  pub id : Text
  pub case_id : Text
  pub claim_id : Text
  pub established_value_json : Text
  pub established_at_ms : ℤ
  pub established_by : Text
  pub verification_state : Text

pub record EvidenceRow : Type 0 where
  pub id : Text
  pub case_id : Text
  pub evidence_type : Text
  pub provenance_id : Option Text
  pub description : Text
  pub created_at_ms : ℤ

pub record EdgeRow : Type 0 where
  pub id : Text
  pub case_id : Text
  pub from_kind : Text
  pub from_id : Text
  pub relationship_type : Text
  pub to_kind : Text
  pub to_id : Text
  pub created_at_ms : ℤ

pub record ContradictionRow : Type 0 where
  pub id : Text
  pub case_id : Text
  pub claim_a_id : Text
  pub claim_b_id : Text
  pub status : Text
  pub detection_method : Text
  pub rationale : Option Text
  pub resolution_claim_id : Option Text
  pub adjudicated_by : Option Text
  pub created_at_ms : ℤ
  pub resolved_at_ms : Option ℤ

pub record ReviewRow : Type 0 where
  pub id : Text
  pub case_id : Text
  pub target_kind : Text
  pub target_id : Text
  pub decision : Text
  pub actor : Text
  pub rationale : Option Text
  pub reviewed_at_ms : ℤ
  pub correlation_id : Text

pub record CorrectionRow : Type 0 where
  pub id : Text
  pub case_id : Text
  pub original_claim_id : Text
  pub corrected_claim_id : Text
  pub review_id : Text
  pub provenance_id : Text
  pub original_value_json : Text
  pub corrected_value_json : Text
  pub actor : Text
  pub rationale : Option Text
  pub corrected_at_ms : ℤ
  pub affected_derivations_json : Text

pub record RuleRow : Type 0 where
  pub id : Text
  pub package_id : Text
  pub stable_key : Text
  pub title : Text
  pub created_at_ms : ℤ

pub record RuleVersionRow : Type 0 where
  pub id : Text
  pub rule_id : Text
  pub version : ℕ
  pub definition_json : Text
  pub definition_sha256 : Text
  pub effective_from : Option Text
  pub effective_until : Option Text
  pub created_at_ms : ℤ

pub record EvaluationRow : Type 0 where
  pub id : Text
  pub case_id : Text
  pub rule_version_id : Text
  pub inputs_json : Text
  pub inputs_sha256 : Text
  pub result : Text
  pub explanation : Text
  pub evaluated_at_ms : ℤ
  pub evaluator_version : Text
  pub correlation_id : Text

pub record EvaluationEvidenceRow : Type 0 where
  pub rule_evaluation_id : Text
  pub evidence_id : Text

pub record ObligationRow : Type 0 where
  pub id : Text
  pub case_id : Text
  pub created_by_event_id : Option Text
  pub created_by_rule_evaluation_id : Option Text
  pub kind : Text
  pub description : Text
  pub status : Text
  pub created_at_ms : ℤ

pub record DeadlineRow : Type 0 where
  pub id : Text
  pub case_id : Text
  pub obligation_id : Text
  pub due_earliest : Option Text
  pub due_latest : Option Text
  pub original_expression : Text
  pub temporal_precision : Text
  pub calculation_json : Text
  pub created_at_ms : ℤ

pub record TaskRow : Type 0 where
  pub id : Text
  pub case_id : Text
  pub obligation_id : Option Text
  pub title : Text
  pub status : Text
  pub created_at_ms : ℤ
  pub completed_at_ms : Option ℤ

pub record AuditRow : Type 0 where
  pub id : Text
  pub case_id : Option Text
  pub operation : Text
  pub actor : Text
  pub target_kind : Text
  pub target_id : Text
  pub previous_state_json : Option Text
  pub resulting_state_json : Text
  pub reason : Option Text
  pub occurred_at_ms : ℤ
  pub correlation_id : Text

-- A row with its table. Entities and events have no insertion in the program: their rows are the
-- identifiers that other tables may refer to.
pub data Row : Type 0 where
  case_row : CaseRow → Row
  source_row : SourceRow → Row
  artifact_row : ArtifactRow → Row
  artifact_version_row : ArtifactVersionRow → Row
  version_source_row : VersionSourceRow → Row
  provenance_row : ProvenanceRow → Row
  entity_row : Text → Row
  event_row : Text → Row
  observation_row : ObservationRow → Row
  claim_row : ClaimRow → Row
  state_change_row : StateChangeRow → Row
  fact_row : FactRow → Row
  evidence_row : EvidenceRow → Row
  edge_row : EdgeRow → Row
  contradiction_row : ContradictionRow → Row
  review_row : ReviewRow → Row
  correction_row : CorrectionRow → Row
  rule_row : RuleRow → Row
  rule_version_row : RuleVersionRow → Row
  evaluation_row : EvaluationRow → Row
  evaluation_evidence_row : EvaluationEvidenceRow → Row
  obligation_row : ObligationRow → Row
  deadline_row : DeadlineRow → Row
  task_row : TaskRow → Row
  audit_row : AuditRow → Row

abbrev pub Database : Type 0
Database = List Row
