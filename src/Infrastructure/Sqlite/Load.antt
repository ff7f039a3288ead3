-- ===== src/Infrastructure/Sqlite/Load.antt =====
-- The `load_*` functions of crates/casegraph-infrastructure/src/sqlite_repository.rs for cases,
-- artifacts, provenance, claims, contradictions and audit events: a row that is found is decoded and
-- validated again.
pub mod Workflow
use casegraph.Prelude.{Bool, List, Option, ◌&&◌}
use casegraph.Prelude.Result.{Result, ok, err, map_err, ◌>>=◌, ◌>>◌}
use casegraph.Text.{Text, lit, text_eq}
use casegraph.Domain.Id.{RecordId}
use casegraph.Domain.Model.Evidence.{
  Case, Artifact, ArtifactVersion, ProvenanceRecord, Claim, Contradiction, AuditEvent,
}
use casegraph.Domain.Model.Validate.{validate_artifact_version, validate_provenance, validate_claim}
use casegraph.Application.Error.{AppError, app_error, from_domain, storage}
use casegraph.Infrastructure.Sqlite.Rows.{
  ArtifactRow, ArtifactVersionRow, AuditRow, CaseRow, ClaimRow, ContradictionRow, Database,
  ProvenanceRow,
}
use casegraph.Infrastructure.Sqlite.Tables.{
  as_artifact, as_artifact_version, as_case, as_claim, as_contradiction, as_provenance, select,
}
use casegraph.Infrastructure.Sqlite.Serde.{
  Serde, from_json, parse_id, read_confidence, read_timestamp, to_u64, traverse,
}
use casegraph.Infrastructure.Sqlite.Codes.{
  parse_assertion_origin, parse_case_status, parse_claim_state, parse_contradiction_status,
  parse_detection_method, parse_verification_state, storage_enum, verification_state,
}
use casegraph.Infrastructure.Sqlite.Insert.{first_match}

-- The row of a table with this identifier, and what it decodes to.
abbrev pub load_one :
    {R A : Type 0} → (R → Result AppError A) → (R → Bool) → List R → Result AppError (Option A)
load_one read p rows = traverse read (first_match p rows)

-- The row of `load_case`.
unfoldable pub read_case : CaseRow → Result AppError Case
read_case r = do
  id ← parse_id r.id
  status ← parse_case_status r.status
  created_at ← read_timestamp r.created_at_ms
  closed_at ← traverse read_timestamp r.closed_at_ms
  ok (record {
    id = id;
    title = r.title;
    status = status;
    created_at = created_at;
    closed_at = closed_at;
  })

-- `load_case`.
unfoldable pub load_case : RecordId → Database → Result AppError (Option Case)
load_case id db = load_one read_case (λ r. text_eq r.id id.value) (select as_case db)

-- The row of `load_artifact_by_source_key`.
unfoldable pub read_artifact : ArtifactRow → Result AppError Artifact
read_artifact r = do
  id ← parse_id r.id
  case_id ← parse_id r.case_id
  source_id ← parse_id r.source_id
  created_at ← read_timestamp r.created_at_ms
  ok (record {
    id = id;
    case_id = case_id;
    source_id = source_id;
    source_key = r.source_key;
    created_at = created_at;
  })

-- `load_artifact_by_source_key`.
unfoldable pub load_artifact_by_source_key :
    RecordId → Text → Database → Result AppError (Option Artifact)
load_artifact_by_source_key case_id source_key db =
    load_one read_artifact (λ r. text_eq r.case_id case_id.value && text_eq r.source_key source_key)
      (select as_artifact db)

-- `artifact_version_from_raw`, of the columns that `artifact_version_row` reads.
unfoldable pub read_artifact_version : ArtifactVersionRow → Result AppError ArtifactVersion
read_artifact_version r = do
  id ← parse_id r.id
  artifact_id ← parse_id r.artifact_id
  content_length ←
      to_u64 (app_error storage (lit "database contains a negative byte length")) r.content_length
  ingested_at ← read_timestamp r.ingested_at_ms
  received_at ← traverse read_timestamp r.received_at_ms
  let version : ArtifactVersion = record {
    id = id;
    artifact_id = artifact_id;
    version_number = r.version_number;
    content_sha256 = r.content_sha256;
    content_length = content_length;
    media_type = r.media_type;
    storage_key = r.storage_key;
    ingested_at = ingested_at;
    received_at = received_at;
    original_filename = r.original_filename;
  }
  map_err from_domain (validate_artifact_version version)
  ok version

-- `load_artifact_version`.
unfoldable pub load_artifact_version :
    RecordId → Database → Result AppError (Option ArtifactVersion)
load_artifact_version id db =
    load_one read_artifact_version (λ r. text_eq r.id id.value) (select as_artifact_version db)

-- `load_artifact_version_by_hash`.
unfoldable pub load_artifact_version_by_hash :
    RecordId → Text → Database → Result AppError (Option ArtifactVersion)
load_artifact_version_by_hash artifact_id hash db =
    load_one read_artifact_version
      (λ r. text_eq r.artifact_id artifact_id.value && text_eq r.content_sha256 hash)
      (select as_artifact_version db)

-- The row of `load_provenance`.
unfoldable pub read_provenance : ProvenanceRow → Result AppError ProvenanceRecord
read_provenance r = do
  id ← parse_id r.id
  artifact_version_id ← traverse parse_id r.artifact_version_id
  text_span_start ← traverse (to_u64 (storage_enum (lit "text span start"))) r.text_span_start
  text_span_end ← traverse (to_u64 (storage_enum (lit "text span end"))) r.text_span_end
  extracted_at ← read_timestamp r.extracted_at_ms
  confidence ← traverse read_confidence r.confidence
  state ← parse_verification_state r.verification_state
  correlation_id ← parse_id r.correlation_id
  let provenance : ProvenanceRecord = record {
    id = id;
    artifact_version_id = artifact_version_id;
    connector = r.connector;
    endpoint = r.endpoint;
    external_record_id = r.external_record_id;
    source_field = r.source_field;
    page_number = r.page_number;
    paragraph_number = r.paragraph_number;
    text_span_start = text_span_start;
    text_span_end = text_span_end;
    table_number = r.table_number;
    row_number = r.row_number;
    column_number = r.column_number;
    bounding_region_json = r.bounding_region_json;
    extraction_method = r.extraction_method;
    extractor_name = r.extractor_name;
    extractor_version = r.extractor_version;
    model_provider = r.model_provider;
    model_name = r.model_name;
    model_version = r.model_version;
    model_configuration_json = r.model_configuration_json;
    extracted_at = extracted_at;
    confidence = confidence;
    verification_state = state;
    original_representation = r.original_representation;
    correlation_id = correlation_id;
  }
  map_err from_domain (validate_provenance provenance)
  ok provenance

-- `load_provenance`.
unfoldable pub load_provenance : RecordId → Database → Result AppError (Option ProvenanceRecord)
load_provenance id db =
    load_one read_provenance (λ r. text_eq r.id id.value) (select as_provenance db)

-- The row of `load_claim`.
unfoldable pub read_claim : Serde → ClaimRow → Result AppError Claim
read_claim serde r = do
  id ← parse_id r.id
  case_id ← parse_id r.case_id
  subject_id ← traverse parse_id r.subject_id
  normalized_value ← from_json (serde.read_value r.normalized_value_json)
  origin ← parse_assertion_origin r.origin
  initial_state ← parse_claim_state r.initial_state
  primary_provenance_id ← traverse parse_id r.primary_provenance_id
  interpretation_confidence ← traverse read_confidence r.interpretation_confidence
  temporal ← traverse (λ t. from_json (serde.read_temporal t)) r.temporal_json
  created_at ← read_timestamp r.created_at_ms
  let claim : Claim = record {
    id = id;
    case_id = case_id;
    subject_id = subject_id;
    subject_key = r.subject_key;
    predicate = r.predicate;
    original_value = r.original_value;
    normalized_value = normalized_value;
    origin = origin;
    initial_state = initial_state;
    primary_provenance_id = primary_provenance_id;
    interpretation_confidence = interpretation_confidence;
    temporal = temporal;
    created_at = created_at;
  }
  map_err from_domain (validate_claim claim)
  ok claim

-- `load_claim`.
unfoldable pub load_claim : Serde → RecordId → Database → Result AppError (Option Claim)
load_claim serde id db =
    load_one (read_claim serde) (λ r. text_eq r.id id.value) (select as_claim db)

-- The row of `load_contradiction`.
unfoldable pub read_contradiction : ContradictionRow → Result AppError Contradiction
read_contradiction r = do
  id ← parse_id r.id
  case_id ← parse_id r.case_id
  claim_a_id ← parse_id r.claim_a_id
  claim_b_id ← parse_id r.claim_b_id
  status ← parse_contradiction_status r.status
  detection_method ← parse_detection_method r.detection_method
  resolution_claim_id ← traverse parse_id r.resolution_claim_id
  created_at ← read_timestamp r.created_at_ms
  resolved_at ← traverse read_timestamp r.resolved_at_ms
  ok (record {
    id = id;
    case_id = case_id;
    claim_a_id = claim_a_id;
    claim_b_id = claim_b_id;
    status = status;
    detection_method = detection_method;
    rationale = r.rationale;
    resolution_claim_id = resolution_claim_id;
    adjudicated_by = r.adjudicated_by;
    created_at = created_at;
    resolved_at = resolved_at;
  })

-- `load_contradiction`.
unfoldable pub load_contradiction : RecordId → Database → Result AppError (Option Contradiction)
load_contradiction id db =
    load_one read_contradiction (λ r. text_eq r.id id.value) (select as_contradiction db)

-- A row of `list_audit_events`.
unfoldable pub read_audit : AuditRow → Result AppError AuditEvent
read_audit r = do
  id ← parse_id r.id
  case_id ← traverse parse_id r.case_id
  target_id ← parse_id r.target_id
  occurred_at ← read_timestamp r.occurred_at_ms
  correlation_id ← parse_id r.correlation_id
  ok (record {
    id = id;
    case_id = case_id;
    operation = r.operation;
    actor = r.actor;
    target_kind = r.target_kind;
    target_id = target_id;
    previous_state_json = r.previous_state_json;
    resulting_state_json = r.resulting_state_json;
    reason = r.reason;
    occurred_at = occurred_at;
    correlation_id = correlation_id;
  })
