-- ===== src/Application/Service.antt =====
-- `CasegraphService` of crates/casegraph-application/src/service.rs. A method takes the ports, and
-- the size limit where it reads it. The reads that only pass a call on are the ports themselves.
pub mod Requests
pub mod Checks
use casegraph.Prelude.{
  ℕ, Bool, not, ◌++◌, Option, none, some, List, [], ltb, ◌==◌, length, if◌then◌else◌,
}
use casegraph.Prelude.Result.{Result, ok, err}
use casegraph.Text.{Text, lit}
use casegraph.Text.Decimal.{decimal}
use casegraph.Domain.Id.{RecordId}
use casegraph.Domain.Temporal.{TimestampMs}
use casegraph.Domain.Model.Evidence.{
  Case, open_case, Source, Artifact, ArtifactVersion, ProvenanceRecord, VerificationState,
  Observation, Claim, ClaimState, AssertionOrigin, Fact, HumanReview, ReviewDecision, Correction,
  Evidence, artifact_excerpt,
}
use casegraph.Domain.Model.Validate.{
  validate_case, validate_artifact_version, validate_provenance, validate_claim,
}
use casegraph.Application.Error.{AppError, app_error, invalid_input, not_found, too_large, storage}
use casegraph.Application.Monad.{App, pure, fail, lift, lift_domain, require, stop_if, ◌>>=◌, ◌>>◌}
use casegraph.Application.Ports.{
  Ports, StoredArtifact, OperationContext, CreateCaseBundle, IngestionBundle, IngestionResult,
  ClaimBundle, ClaimResult, ReviewBundle, CorrectionBundle,
}
use Requests.{
  CreateCaseRequest, IngestBytesRequest, RecordExternalClaimRequest, ReviewClaimRequest,
  CorrectClaimRequest,
}
use Checks.{check_text, check_filename, is_none}

abbrev pub case_missing : AppError
case_missing = app_error not_found (lit "case was not found")

abbrev pub claim_missing : AppError
claim_missing = app_error not_found (lit "claim was not found")

abbrev pub version_missing : AppError
version_missing = app_error not_found (lit "artifact version was not found")

module _ {W : Type 0} (ports : Ports W) where
  open ports use {now, next, put, read}

  -- `correlation_id`.
  unfoldable pub correlation : Option RecordId → App W RecordId
  correlation none = next (lit "correlation")
  correlation (some id) = pure id

  -- `operation_context`.
  unfoldable pub operation_context :
      Text → Option RecordId → Option Text → TimestampMs → App W OperationContext
  operation_context actor provided reason occurred_at = do
    audit_id ← next (lit "audit")
    correlation_id ← correlation provided
    pure (record {
      audit_id = audit_id;
      actor = actor;
      correlation_id = correlation_id;
      occurred_at = occurred_at;
      reason = reason;
    })

  unfoldable pub create_case : CreateCaseRequest → App W Case
  create_case request = do
    lift (check_text (lit "title") request.title 1 300)
    lift (check_text (lit "actor") request.actor 1 300)
    at ← now
    id ← next (lit "case")
    let case_record : Case = record {
      id = id;
      title = request.title;
      status = open_case;
      created_at = at;
      closed_at = none;
    }
    lift_domain (validate_case case_record)
    context ← operation_context request.actor request.correlation_id none at
    ports.create_case (record { case_record = case_record; context = context })

  -- The metadata that `ingest_bytes` hands over, once the bytes are stored.
  unfoldable pub ingest_stored : IngestBytesRequest → StoredArtifact → App W IngestionResult
  ingest_stored request stored = do
    at ← now
    source_id ← next (lit "source")
    let source : Source = record {
      id = source_id;
      case_id = request.case_id;
      connector = request.connector;
      locator = request.locator;
      external_record_id = request.external_record_id;
      endpoint = request.endpoint;
      source_revision = request.source_revision;
      retrieved_at = at;
    }
    artifact_id ← next (lit "artifact")
    let artifact : Artifact = record {
      id = artifact_id;
      case_id = request.case_id;
      source_id = source_id;
      source_key = request.source_key;
      created_at = at;
    }
    version_id ← next (lit "artifact_version")
    let version : ArtifactVersion = record {
      id = version_id;
      artifact_id = artifact_id;
      version_number = 1;
      content_sha256 = stored.content_sha256;
      content_length = stored.content_length;
      media_type = request.media_type;
      storage_key = stored.storage_key;
      ingested_at = at;
      received_at = request.received_at;
      original_filename = request.original_filename;
    }
    lift_domain (validate_artifact_version version)
    context ← operation_context request.actor request.correlation_id none at
    ports.ingest (record {
      source = source;
      artifact = artifact;
      artifact_version = version;
      context = context;
    })

  unfoldable pub ingest_bytes : ℕ → IngestBytesRequest → App W IngestionResult
  ingest_bytes max_artifact_bytes request = do
    lift (check_text (lit "source_key") request.source_key 1 2048)
    lift (check_text (lit "connector") request.connector 1 100)
    lift (check_text (lit "locator") request.locator 1 2048)
    lift (check_text (lit "media_type") request.media_type 1 255)
    lift (check_filename request.original_filename)
    stop_if (ltb max_artifact_bytes (length request.bytes)) (
        app_error too_large (
          lit "artifact is "
          ++ (decimal (length request.bytes)
              ++ (lit " bytes; configured limit is "
                  ++ (decimal max_artifact_bytes ++ lit " bytes")))))
    found ← ports.get_case request.case_id
    stop_if (is_none found) case_missing
    stored ← put request.bytes
    stop_if (not (stored.content_length == length request.bytes))
        (app_error storage (lit "artifact store returned an inconsistent byte length"))
    ingest_stored request stored

  unfoldable pub get_case : RecordId → App W Case
  get_case case_id = do found ← ports.get_case case_id; require case_missing found

  unfoldable pub get_artifact_version : RecordId → App W ArtifactVersion
  get_artifact_version version_id = do
    found ← ports.get_artifact_version version_id
    require version_missing found

  -- The bytes are those behind the storage key of the version.
  unfoldable pub read_artifact_version : RecordId → App W (List ℕ)
  read_artifact_version version_id = do
    found ← ports.get_artifact_version version_id
    version ← require version_missing found
    read version.storage_key

  unfoldable pub get_provenance : RecordId → App W ProvenanceRecord
  get_provenance provenance_id = do
    found ← ports.get_provenance provenance_id
    require (app_error not_found (lit "provenance record was not found")) found
