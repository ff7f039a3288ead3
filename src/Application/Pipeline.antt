-- ===== src/Application/Pipeline.antt =====
-- crates/casegraph-application/src/pipeline.rs: from the bytes of an artifact version to claims.
pub mod Extracted
pub mod Sends
use casegraph.Prelude.{
  ℕ, Bool, true, false, Option, none, some, List, [], ◌∷◌, ◌==◌, ◌||◌, if◌then◌else◌,
}
use casegraph.Prelude.Result.{Result, ok, err}
use casegraph.Text.{Text, lit, text_eq}
use casegraph.Text.Trim.{trim}
use casegraph.Domain.Id.{RecordId}
use casegraph.Domain.Temporal.{TemporalValue}
use casegraph.Domain.Value.{KnowledgeValue}
use casegraph.Domain.Confidence.{Confidence}
use casegraph.Domain.Model.Evidence.{Claim}
use casegraph.Application.Error.{AppError, ErrorKind, invalid_input, storage}
use casegraph.Application.Monad.{App}
use casegraph.Application.Ports.{Ports, ClaimResult}
use casegraph.Application.Service.{read_artifact_version}
use casegraph.Application.Service.Requests.{RecordExternalClaimRequest}
use casegraph.Application.Claims.{record_external_claim}

pub data ArtifactFormat : Type 0 where
  plain_text json csv : ArtifactFormat

pub data PipelineStage : Type 0 where
  classification raw_extraction structural_extraction semantic_extraction normalization validation
        evidence_creation :
      PipelineStage

pub data PipelineFailureKind : Type 0 where
  unsupported_format unreadable_artifact malformed_input no_observations validation_rejected
        internal :
      PipelineFailureKind

pub record PipelineError : Type 0 where
  pub kind : PipelineFailureKind
  pub safe_message : Text
  pub retryable : Bool

-- `PipelineError::new`.
abbrev pub pipeline_error : PipelineFailureKind → Text → PipelineError
pipeline_error kind message = record { kind = kind; safe_message = message; retryable = false }

-- `From<AppError> for PipelineError`.
abbrev pub failure_kind : ErrorKind → PipelineFailureKind
failure_kind invalid_input = validation_rejected
failure_kind _ = PipelineFailureKind.internal

abbrev pub is_storage : ErrorKind → Bool
is_storage storage = true
is_storage _ = false

abbrev pub from_app : AppError → PipelineError
from_app e = record {
  kind = failure_kind e.kind;
  safe_message = e.message;
  retryable = is_storage e.kind;
}

-- `media_type.split(';').next()`.
abbrev pub before_parameters : Text → Text
before_parameters [] = []
before_parameters (c ∷ s) = let rest = before_parameters s in if c == b';' then [] else c ∷ rest

-- `ArtifactFormat::classify`.
unfoldable pub classify : Text → Result PipelineError ArtifactFormat
classify media_type =
    let name = trim (before_parameters media_type) in
    if text_eq name (lit "text/plain")
    then ok plain_text
    else if text_eq name (lit "application/json")
    then ok json
    else if text_eq name (lit "text/csv") || text_eq name (lit "application/csv")
    then ok csv
    else err (
        pipeline_error unsupported_format
          (lit "artifact format is not supported by deterministic extraction"))

pub record ExtractedLocation : Type 0 where
  pub source_field : Option Text
  pub paragraph_number : Option ℕ
  pub text_span_start : Option ℕ
  pub text_span_end : Option ℕ
  pub row_number : Option ℕ
  pub column_number : Option ℕ

pub record ExtractedField : Type 0 where
  pub subject_key : Text
  pub predicate : Text
  pub original_value : Text
  pub normalized_value : KnowledgeValue
  pub temporal : Option TemporalValue
  pub location : ExtractedLocation
  pub extraction_confidence : Option Confidence

-- The trait `DeterministicExtractor`.
pub record DeterministicExtractor : Type 0 where
  pub name : Text
  pub version : Text
  pub supports : ArtifactFormat → Bool
  pub extract : ArtifactFormat → List ℕ → Result PipelineError (List ExtractedField)

pub record ExtractArtifactRequest : Type 0 where
  pub case_id : RecordId
  pub artifact_version_id : RecordId
  pub media_type : Text
  pub connector : Option Text
  pub actor : Text
  pub correlation_id : Option RecordId

pub record ExtractionResult : Type 0 where
  pub stages : List PipelineStage
  pub claims : List Claim
  pub warnings : List Text

-- A pipeline call: as a service call, with the errors of the pipeline.
abbrev pub Pipeline : Type 0 → Type 0 → Type 0
Pipeline W A = W → Result PipelineError A × W

module _ {W A : Type 0} where
  abbrev pub pure : A → Pipeline W A
  pure a w = (ok a, w)

  abbrev pub lift : Result PipelineError A → Pipeline W A
  lift r w = (r, w)

  -- `?` on the result of a service.
  abbrev pub converted : Result AppError A × W → Result PipelineError A × W
  converted (ok a, w) = (ok a, w)
  converted (err e, w) = (err (from_app e), w)

  abbrev pub service : App W A → Pipeline W A
  service m w = converted (m w)

module _ {W A B : Type 0} where
  abbrev pub continue : Result PipelineError A × W → (A → Pipeline W B) → Result PipelineError B × W
  continue (ok a, w) f = f a w
  continue (err e, w) f = (err e, w)

  infixl 5 ◌>>=◌
  unfoldable pub ◌>>=◌ : Pipeline W A → (A → Pipeline W B) → Pipeline W B
  ◌>>=◌ m f w = continue (m w) f

-- `find(|extractor| extractor.supports(format))`.
abbrev pub find_extractor :
    ArtifactFormat → List DeterministicExtractor → Result PipelineError DeterministicExtractor
find_extractor format [] = err (
    pipeline_error unsupported_format
      (lit "no registered deterministic extractor supports this format"))
find_extractor format (e ∷ extractors) =
    let found = find_extractor format extractors in if e.supports format then ok e else found

abbrev pub some_fields : List ExtractedField → Result PipelineError (List ExtractedField)
some_fields [] =
    err (pipeline_error no_observations (lit "deterministic extraction produced no observations"))
some_fields (f ∷ fields) = ok (f ∷ fields)

-- The request of one turn of the loop of `extract`.
abbrev pub claim_request :
    ExtractArtifactRequest → DeterministicExtractor → ExtractedField → RecordExternalClaimRequest
claim_request request extractor field = record {
  case_id = request.case_id;
  artifact_version_id = request.artifact_version_id;
  subject_id = none;
  subject_key = field.subject_key;
  predicate = field.predicate;
  original_value = field.original_value;
  normalized_value = field.normalized_value;
  temporal = field.temporal;
  connector = request.connector;
  endpoint = none;
  external_record_id = none;
  source_field = field.location.source_field;
  page_number = none;
  paragraph_number = field.location.paragraph_number;
  text_span_start = field.location.text_span_start;
  text_span_end = field.location.text_span_end;
  table_number = none;
  row_number = field.location.row_number;
  column_number = field.location.column_number;
  bounding_region_json = none;
  extraction_method = lit "deterministic";
  extractor_name = extractor.name;
  extractor_version = extractor.version;
  model_provider = none;
  model_name = none;
  model_version = none;
  model_configuration_json = none;
  extraction_confidence = field.extraction_confidence;
  interpretation_confidence = none;
  actor = request.actor;
  correlation_id = request.correlation_id;
}

module _ {W : Type 0} (ports : Ports W) where
  -- The loop over the fields.
  unfoldable pub record_fields :
      ExtractArtifactRequest
      → DeterministicExtractor
      → List ExtractedField
      → Pipeline W (List Claim)
  record_fields request extractor [] = pure []
  record_fields request extractor (field ∷ fields) =
      service (record_external_claim ports (claim_request request extractor field)) >>= λ result.
      record_fields request extractor fields >>= λ claims. pure (result.claim ∷ claims)

  -- `ExtractionPipeline::extract`.
  unfoldable pub extract :
      List DeterministicExtractor → ExtractArtifactRequest → Pipeline W ExtractionResult
  extract extractors request = do
    format ← lift (classify request.media_type)
    bytes ← service (read_artifact_version ports request.artifact_version_id)
    extractor ← lift (find_extractor format extractors)
    extracted ← lift (extractor.extract format bytes)
    fields ← lift (some_fields extracted)
    claims ← record_fields request extractor fields
    pure (record {
      stages =
          classification ∷ raw_extraction ∷ structural_extraction ∷ semantic_extraction
          ∷ normalization ∷ validation ∷ evidence_creation ∷ [];
      claims = claims;
      warnings = [];
    })
