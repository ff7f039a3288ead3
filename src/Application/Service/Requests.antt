-- ===== src/Application/Service/Requests.antt =====
-- The requests of crates/casegraph-application/src/service.rs.
use casegraph.Prelude.{ℕ, Option, List}
use casegraph.Text.{Text}
use casegraph.Domain.Id.{RecordId}
use casegraph.Domain.Temporal.{TimestampMs, TemporalValue}
use casegraph.Domain.Value.{KnowledgeValue}
use casegraph.Domain.Confidence.{Confidence}
use casegraph.Domain.Model.Evidence.{ReviewDecision}

pub record CreateCaseRequest : Type 0 where
  pub title : Text
  pub actor : Text
  pub correlation_id : Option RecordId

pub record IngestBytesRequest : Type 0 where
  pub case_id : RecordId
  pub source_key : Text
  pub connector : Text
  pub locator : Text
  pub external_record_id : Option Text
  pub endpoint : Option Text
  pub source_revision : Option Text
  pub media_type : Text
  pub original_filename : Option Text
  pub received_at : Option TimestampMs
  pub bytes : List ℕ
  pub actor : Text
  pub correlation_id : Option RecordId

pub record RecordExternalClaimRequest : Type 0 where
  pub case_id : RecordId
  pub artifact_version_id : RecordId
  pub subject_id : Option RecordId
  pub subject_key : Text
  pub predicate : Text
  pub original_value : Text
  pub normalized_value : KnowledgeValue
  pub temporal : Option TemporalValue
  pub connector : Option Text
  pub endpoint : Option Text
  pub external_record_id : Option Text
  pub source_field : Option Text
  pub page_number : Option ℕ
  pub paragraph_number : Option ℕ
  pub text_span_start : Option ℕ
  pub text_span_end : Option ℕ
  pub table_number : Option ℕ
  pub row_number : Option ℕ
  pub column_number : Option ℕ
  pub bounding_region_json : Option Text
  pub extraction_method : Text
  pub extractor_name : Text
  pub extractor_version : Text
  pub model_provider : Option Text
  pub model_name : Option Text
  pub model_version : Option Text
  pub model_configuration_json : Option Text
  pub extraction_confidence : Option Confidence
  pub interpretation_confidence : Option Confidence
  pub actor : Text
  pub correlation_id : Option RecordId

pub record ReviewClaimRequest : Type 0 where
  pub claim_id : RecordId
  pub decision : ReviewDecision
  pub actor : Text
  pub rationale : Option Text
  pub correlation_id : Option RecordId

pub record CorrectClaimRequest : Type 0 where
  pub claim_id : RecordId
  pub corrected_original_representation : Text
  pub corrected_value : KnowledgeValue
  pub corrected_temporal : Option TemporalValue
  pub actor : Text
  pub rationale : Option Text
  pub correlation_id : Option RecordId
