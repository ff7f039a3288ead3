-- ===== src/Domain/Model/Evidence.antt =====
-- Cases, sources, artifacts, claims and their provenance: crates/casegraph-domain/src/model.rs.
use casegraph.Prelude.{ℕ, Option, List}
use casegraph.Text.{Text}
use casegraph.Domain.Id.{RecordId}
use casegraph.Domain.Temporal.{TimestampMs, TemporalValue}
use casegraph.Domain.Value.{KnowledgeValue}
use casegraph.Domain.Confidence.{Confidence}

pub data CaseStatus : Type 0 where
  open_case suspended closed : CaseStatus

pub record Case : Type 0 where
  pub id : RecordId
  pub title : Text
  pub status : CaseStatus
  pub created_at : TimestampMs
  pub closed_at : Option TimestampMs

pub record Source : Type 0 where
  pub id : RecordId
  pub case_id : RecordId
  pub connector : Text
  pub locator : Text
  pub external_record_id : Option Text
  pub endpoint : Option Text
  pub source_revision : Option Text
  pub retrieved_at : TimestampMs

pub record Artifact : Type 0 where
  pub id : RecordId
  pub case_id : RecordId
  pub source_id : RecordId
  pub source_key : Text
  pub created_at : TimestampMs

pub record ArtifactVersion : Type 0 where
  pub id : RecordId
  pub artifact_id : RecordId
  pub version_number : ℕ
  pub content_sha256 : Text
  pub content_length : ℕ
  pub media_type : Text
  pub storage_key : Text
  pub ingested_at : TimestampMs
  pub received_at : Option TimestampMs
  pub original_filename : Option Text

pub data VerificationState : Type 0 where
  not_reviewed verified rejected corrected : VerificationState

pub record ProvenanceRecord : Type 0 where
  pub id : RecordId
  pub artifact_version_id : Option RecordId
  pub connector : Option Text
  pub endpoint : Option Text
  pub external_record_id : Option Text
  pub source_field : Option Text
  pub page_number : Option ℕ
  pub paragraph_number : Option ℕ
  pub text_span_start : Option ℕ
  pub text_span_end : Option ℕ
  pub table_number : Option ℕ
  pub row_number : Option ℕ
  pub column_number : Option ℕ
  pub bounding_region_json : Option Text
  pub extraction_method : Text
  pub extractor_name : Text
  pub extractor_version : Text
  pub model_provider : Option Text
  pub model_name : Option Text
  pub model_version : Option Text
  pub model_configuration_json : Option Text
  pub extracted_at : TimestampMs
  pub confidence : Option Confidence
  pub verification_state : VerificationState
  pub original_representation : Option Text
  pub correlation_id : RecordId

pub data AssertionOrigin : Type 0 where
  external human rule system : AssertionOrigin

pub data ClaimState : Type 0 where
  observed extracted inferred corroborated disputed contradicted superseded verified rejected
        unresolved :
      ClaimState

pub record Observation : Type 0 where
  pub id : RecordId
  pub case_id : RecordId
  pub subject_id : Option RecordId
  pub predicate : Text
  pub original_value : Text
  pub normalized_value : Option KnowledgeValue
  pub provenance_id : RecordId
  pub extraction_confidence : Option Confidence
  pub observed_at : TimestampMs

pub record Claim : Type 0 where
  pub id : RecordId
  pub case_id : RecordId
  pub subject_id : Option RecordId
  pub subject_key : Text
  pub predicate : Text
  pub original_value : Text
  pub normalized_value : KnowledgeValue
  pub origin : AssertionOrigin
  pub initial_state : ClaimState
  pub primary_provenance_id : Option RecordId
  pub interpretation_confidence : Option Confidence
  pub temporal : Option TemporalValue
  pub created_at : TimestampMs

pub record Fact : Type 0 where
  pub id : RecordId
  pub case_id : RecordId
  pub claim_id : RecordId
  pub established_value : KnowledgeValue
  pub established_at : TimestampMs
  pub established_by : Text

pub data ContradictionStatus : Type 0 where
  unresolved resolved superseded : ContradictionStatus

pub data DetectionMethod : Type 0 where
  automatic human : DetectionMethod

pub record Contradiction : Type 0 where
  pub id : RecordId
  pub case_id : RecordId
  pub claim_a_id : RecordId
  pub claim_b_id : RecordId
  pub status : ContradictionStatus
  pub detection_method : DetectionMethod
  pub rationale : Option Text
  pub resolution_claim_id : Option RecordId
  pub adjudicated_by : Option Text
  pub created_at : TimestampMs
  pub resolved_at : Option TimestampMs

pub data ReviewDecision : Type 0 where
  verified rejected corrected needs_more_evidence : ReviewDecision

pub record HumanReview : Type 0 where
  pub id : RecordId
  pub case_id : RecordId
  pub target_kind : Text
  pub target_id : RecordId
  pub decision : ReviewDecision
  pub actor : Text
  pub rationale : Option Text
  pub reviewed_at : TimestampMs
  pub correlation_id : RecordId

pub record Correction : Type 0 where
  pub id : RecordId
  pub case_id : RecordId
  pub original_claim_id : RecordId
  pub corrected_claim_id : RecordId
  pub review_id : RecordId
  pub provenance_id : RecordId
  pub original_value : KnowledgeValue
  pub corrected_value : KnowledgeValue
  pub actor : Text
  pub rationale : Option Text
  pub corrected_at : TimestampMs
  pub affected_derivations : List RecordId

pub data EvidenceType : Type 0 where
  artifact_excerpt structured_field human_attestation rule_result : EvidenceType

pub record Evidence : Type 0 where
  pub id : RecordId
  pub case_id : RecordId
  pub evidence_type : EvidenceType
  pub provenance_id : Option RecordId
  pub description : Text
  pub created_at : TimestampMs

pub record AuditEvent : Type 0 where
  pub id : RecordId
  pub case_id : Option RecordId
  pub operation : Text
  pub actor : Text
  pub target_kind : Text
  pub target_id : RecordId
  pub previous_state_json : Option Text
  pub resulting_state_json : Text
  pub reason : Option Text
  pub occurred_at : TimestampMs
  pub correlation_id : RecordId
