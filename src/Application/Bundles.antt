-- ===== src/Application/Bundles.antt =====
-- What the services hand to the repository: every bundle is linked and valid, so whatever the
-- repository keeps true on such bundles, the services keep true. The code is that of
-- crates/casegraph-application/src/service.rs.
mod Forms
pub mod Sends
pub mod Corrects
pub mod Reaches
pub mod Stores
use casegraph.Prelude.{ℕ, ◌≤◌, ◌≡◌, ◌≢◌, refl, arith, Bool, Option, none, some, List, leb, length}
use casegraph.Prelude.Result.{ok}
use casegraph.Text.{Text, lit}
use casegraph.Domain.Id.{RecordId}
use casegraph.Domain.Model.Evidence.{Claim, ClaimState, AssertionOrigin, ReviewDecision, Fact}
use casegraph.Domain.Model.Validate.{
  validate_provenance, validate_claim, validate_artifact_version, validate_case,
}
use casegraph.Application.Monad.{App, pure, ◌>>=◌}
use casegraph.Application.Monad.Keeps.{
  Keeps, KeepsTo, Keeps-pure, Keeps-fail, Keeps-bind, Keeps-bind-domain, Keeps-bind-require,
  Keeps-bind-stop_if, Keeps-bind-lift,
}
use casegraph.Application.Ports.{
  Ports, CreateCaseBundle, IngestionBundle, ClaimBundle, ReviewBundle, CorrectionBundle,
}
use casegraph.Application.Service.{correlation, operation_context, create_case, ingest_bytes}
use casegraph.Application.Service.Requests.{
  CreateCaseRequest, IngestBytesRequest, RecordExternalClaimRequest, ReviewClaimRequest,
  CorrectClaimRequest,
}
use casegraph.Application.Claims.{record_external_claim, outcome, review_claim}
use casegraph.Application.Corrections.{correct_claim}

-- An external claim that is valid, with its observation and its evidence under one valid
-- provenance record, which names an artifact version.
pub record IsGrounded (b : ClaimBundle) : Type 0 where
  pub external : b.claim.origin ≡ AssertionOrigin.external
  pub extracted : b.claim.initial_state ≡ ClaimState.extracted
  pub claim_valid : validate_claim b.claim ≡ ok tt
  pub provenance_valid : validate_provenance b.provenance ≡ ok tt
  pub from_artifact : b.provenance.artifact_version_id ≢ none
  pub claim_cites : b.claim.primary_provenance_id ≡ some b.provenance.id
  pub observation_cites : b.observation.provenance_id ≡ b.provenance.id
  pub evidence_cites : b.evidence.provenance_id ≡ some b.provenance.id
  pub one_case : (b.observation.case_id ≡ b.claim.case_id) × (b.evidence.case_id ≡ b.claim.case_id)
  pub one_time : b.claim.created_at ≡ b.context.occurred_at

-- The new state of the claim is the one that the decision calls for, and a fact is established just
-- when the claim is verified, for that claim.
abbrev pub Decided : ReviewBundle → ReviewDecision → Option Fact → Type 0
Decided b ReviewDecision.verified none = ⊥
Decided b ReviewDecision.verified (some fact) =
    (b.state ≡ ClaimState.verified)
    × (fact.claim_id ≡ b.review.target_id)
    × (fact.case_id ≡ b.review.case_id)
Decided b ReviewDecision.rejected fact = (b.state ≡ ClaimState.rejected) × (fact ≡ none)
Decided b ReviewDecision.needs_more_evidence fact =
    (b.state ≡ ClaimState.unresolved) × (fact ≡ none)
Decided b ReviewDecision.corrected fact = ⊥

pub record IsReview (b : ReviewBundle) : Type 0 where
  pub decided : Decided b b.review.decision b.fact
  pub audited :
      (b.review.actor ≡ b.context.actor) × (b.review.correlation_id ≡ b.context.correlation_id)

-- The bundle is grounded and carries the request, but for its correlation identifier: the claim, its
-- observation and its provenance have the fields of the request, and the audit context its actor.
pub record IsRecorded (r : RecordExternalClaimRequest) (b : ClaimBundle) : Type 0 where
  pub grounded : IsGrounded b
  pub case_is : b.claim.case_id ≡ r.case_id
  pub subject : (b.claim.subject_id ≡ r.subject_id) × (b.claim.subject_key ≡ r.subject_key)
  pub named : b.claim.predicate ≡ r.predicate
  pub original : b.claim.original_value ≡ r.original_value
  pub value : b.claim.normalized_value ≡ r.normalized_value
  pub dated : b.claim.temporal ≡ r.temporal
  pub interpreted : b.claim.interpretation_confidence ≡ r.interpretation_confidence
  pub observed :
      (b.observation.subject_id ≡ r.subject_id)
      × (b.observation.predicate ≡ r.predicate)
      × (b.observation.original_value ≡ r.original_value)
      × (b.observation.normalized_value ≡ some r.normalized_value)
      × (b.observation.extraction_confidence ≡ r.extraction_confidence)
  pub source :
      (b.provenance.artifact_version_id ≡ some r.artifact_version_id)
      × (b.provenance.connector ≡ r.connector)
      × (b.provenance.endpoint ≡ r.endpoint)
      × (b.provenance.external_record_id ≡ r.external_record_id)
      × (b.provenance.original_representation ≡ some r.original_value)
  pub place :
      (b.provenance.source_field ≡ r.source_field)
      × (b.provenance.page_number ≡ r.page_number)
      × (b.provenance.paragraph_number ≡ r.paragraph_number)
      × (b.provenance.text_span_start ≡ r.text_span_start)
      × (b.provenance.text_span_end ≡ r.text_span_end)
      × (b.provenance.table_number ≡ r.table_number)
      × (b.provenance.row_number ≡ r.row_number)
      × (b.provenance.column_number ≡ r.column_number)
      × (b.provenance.bounding_region_json ≡ r.bounding_region_json)
  pub extracted_by :
      (b.provenance.extraction_method ≡ r.extraction_method)
      × (b.provenance.extractor_name ≡ r.extractor_name)
      × (b.provenance.extractor_version ≡ r.extractor_version)
      × (b.provenance.confidence ≡ r.extraction_confidence)
  pub interpreted_by :
      (b.provenance.model_provider ≡ r.model_provider)
      × (b.provenance.model_name ≡ r.model_name)
      × (b.provenance.model_version ≡ r.model_version)
      × (b.provenance.model_configuration_json ≡ r.model_configuration_json)
  pub acting : b.context.actor ≡ r.actor

-- The corrected claim is valid, human and verified, with the value of the request, and has the case,
-- subject and predicate of the original; the correction links both claims, their values, the review
-- and the provenance, and they name the actor and the rationale of the request.
pub record IsCorrection (r : CorrectClaimRequest) (original : Claim) (b : CorrectionBundle)
    : Type 0 where
  pub claim_valid : validate_claim b.corrected_claim ≡ ok tt
  pub provenance_valid : validate_provenance b.provenance ≡ ok tt
  pub by_human : b.corrected_claim.origin ≡ AssertionOrigin.human
  pub verified : b.corrected_claim.initial_state ≡ ClaimState.verified
  pub cites :
      (b.corrected_claim.primary_provenance_id ≡ some b.provenance.id)
      × (b.correction.provenance_id ≡ b.provenance.id)
  pub same_case :
      (b.corrected_claim.case_id ≡ original.case_id)
      × (b.correction.case_id ≡ original.case_id)
      × (b.review.case_id ≡ original.case_id)
  pub same_subject :
      (b.corrected_claim.subject_id ≡ original.subject_id)
      × (b.corrected_claim.subject_key ≡ original.subject_key)
  pub same_predicate : b.corrected_claim.predicate ≡ original.predicate
  pub from_original :
      (b.correction.original_claim_id ≡ original.id)
      × (b.correction.original_value ≡ original.normalized_value)
  pub to_corrected :
      (b.correction.corrected_claim_id ≡ b.corrected_claim.id)
      × (b.correction.corrected_value ≡ b.corrected_claim.normalized_value)
  pub as_requested :
      (b.corrected_claim.normalized_value ≡ r.corrected_value)
      × (b.corrected_claim.original_value ≡ r.corrected_original_representation)
      × (b.corrected_claim.temporal ≡ r.corrected_temporal)
      × (b.provenance.original_representation ≡ some r.corrected_original_representation)
  pub reviewed :
      (b.review.target_id ≡ original.id)
      × (b.correction.review_id ≡ b.review.id)
      × (b.review.decision ≡ ReviewDecision.corrected)
  pub reasoned :
      (b.review.rationale ≡ r.rationale)
      × (b.correction.rationale ≡ r.rationale)
      × (b.context.reason ≡ r.rationale)
  pub acting :
      (b.review.actor ≡ r.actor)
      × (b.correction.actor ≡ r.actor)
      × (b.provenance.extractor_name ≡ r.actor)
      × (b.context.actor ≡ r.actor)

-- The version is valid and the first one, within the size limit, and its artifact and source belong
-- to one case.
pub record IsIngestion (limit : ℕ) (b : IngestionBundle) : Type 0 where
  pub version_valid : validate_artifact_version b.artifact_version ≡ ok tt
  pub within : b.artifact_version.content_length ≤ limit
  pub first : b.artifact_version.version_number ≡ 1
  pub linked :
      (b.artifact_version.artifact_id ≡ b.artifact.id) × (b.artifact.source_id ≡ b.source.id)
  pub one_case : b.artifact.case_id ≡ b.source.case_id

-- What is asked of the adapters: reads, clock and identifiers keep `P`, and the repository keeps it
-- on bundles of these forms.
pub record Preserves {W : Type 0} (limit : ℕ) (ports : Ports W) (P : W → Type 0) : Type 0 where
  pub now : Keeps P ports.now
  pub next : (kind : Text) → Keeps P (ports.next kind)
  pub put : (bytes : List ℕ) → Keeps P (ports.put bytes)
  pub get_case : (id : RecordId) → Keeps P (ports.get_case id)
  pub get_claim : (id : RecordId) → Keeps P (ports.get_claim id)
  pub get_artifact_version : (id : RecordId) → Keeps P (ports.get_artifact_version id)
  pub ingest : (b : IngestionBundle) → IsIngestion limit b → Keeps P (ports.ingest b)
  pub record_claim : (b : ClaimBundle) → IsGrounded b → Keeps P (ports.record_claim b)
  pub review_claim : (b : ReviewBundle) → IsReview b → Keeps P (ports.review_claim b)

-- What is asked of the adapters for a correction of the claim that is `Stored` under the requested
-- identifier.
pub record CorrectionPreserves {W : Type 0} (ports : Ports W) (P : W → Type 0)
    (Stored : Claim → Type 0) (r : CorrectClaimRequest) : Type 0 where
  pub now : Keeps P ports.now
  pub next : (kind : Text) → Keeps P (ports.next kind)
  pub get_claim :
      KeepsTo P (λ o. (claim : Claim) → o ≡ some claim → Stored claim) (ports.get_claim r.claim_id)
  pub correct_claim :
      (b : CorrectionBundle) (original : Claim)
      → Stored original
      → IsCorrection r original b
      → Keeps P (ports.correct_claim b)
