-- ===== src/Application/Claims.antt =====
-- The methods of `CasegraphService` on claims: crates/casegraph-application/src/service.rs.
use casegraph.Prelude.{◌++◌, Option, none, some}
use casegraph.Text.{Text, lit}
use casegraph.Domain.Id.{RecordId}
use casegraph.Domain.Temporal.{TimestampMs}
use casegraph.Domain.Model.Evidence.{
  ProvenanceRecord, VerificationState, Observation, Claim, ClaimState, AssertionOrigin, Fact,
  HumanReview, ReviewDecision, Evidence, artifact_excerpt,
}
use casegraph.Domain.Model.Validate.{validate_provenance, validate_claim}
use casegraph.Application.Error.{app_error, invalid_input}
use casegraph.Application.Monad.{App, pure, fail, lift, lift_domain, require, stop_if, ◌>>=◌, ◌>>◌}
use casegraph.Application.Ports.{ClaimBundle, Ports, OperationContext, ClaimResult, ReviewBundle}
use casegraph.Application.Service.{correlation, claim_missing, version_missing}
use casegraph.Application.Service.Requests.{RecordExternalClaimRequest, ReviewClaimRequest}
use casegraph.Application.Service.Checks.{check_text, is_none}

-- The provenance that `record_external_claim` builds.
abbrev pub external_provenance :
    RecordExternalClaimRequest → RecordId → TimestampMs → RecordId → ProvenanceRecord
external_provenance request id at correlation_id = record {
  id = id;
  artifact_version_id = some request.artifact_version_id;
  connector = request.connector;
  endpoint = request.endpoint;
  external_record_id = request.external_record_id;
  source_field = request.source_field;
  page_number = request.page_number;
  paragraph_number = request.paragraph_number;
  text_span_start = request.text_span_start;
  text_span_end = request.text_span_end;
  table_number = request.table_number;
  row_number = request.row_number;
  column_number = request.column_number;
  bounding_region_json = request.bounding_region_json;
  extraction_method = request.extraction_method;
  extractor_name = request.extractor_name;
  extractor_version = request.extractor_version;
  model_provider = request.model_provider;
  model_name = request.model_name;
  model_version = request.model_version;
  model_configuration_json = request.model_configuration_json;
  extracted_at = at;
  confidence = request.extraction_confidence;
  verification_state = VerificationState.not_reviewed;
  original_representation = some request.original_value;
  correlation_id = correlation_id;
}

abbrev pub external_observation :
    RecordExternalClaimRequest → RecordId → RecordId → TimestampMs → Observation
external_observation request id provenance_id at = record {
  id = id;
  case_id = request.case_id;
  subject_id = request.subject_id;
  predicate = request.predicate;
  original_value = request.original_value;
  normalized_value = some request.normalized_value;
  provenance_id = provenance_id;
  extraction_confidence = request.extraction_confidence;
  observed_at = at;
}

abbrev pub external_claim : RecordExternalClaimRequest → RecordId → RecordId → TimestampMs → Claim
external_claim request id provenance_id at = record {
  id = id;
  case_id = request.case_id;
  subject_id = request.subject_id;
  subject_key = request.subject_key;
  predicate = request.predicate;
  original_value = request.original_value;
  normalized_value = request.normalized_value;
  origin = AssertionOrigin.external;
  initial_state = ClaimState.extracted;
  primary_provenance_id = some provenance_id;
  interpretation_confidence = request.interpretation_confidence;
  temporal = request.temporal;
  created_at = at;
}

abbrev pub external_evidence :
    RecordExternalClaimRequest → RecordId → RecordId → TimestampMs → Evidence
external_evidence request id provenance_id at = record {
  id = id;
  case_id = request.case_id;
  evidence_type = artifact_excerpt;
  provenance_id = some provenance_id;
  description = lit "Artifact excerpt supporting predicate " ++ request.predicate;
  created_at = at;
}

abbrev pub context_of : RecordId → Text → RecordId → TimestampMs → Option Text → OperationContext
context_of audit_id actor correlation_id at reason = record {
  audit_id = audit_id;
  actor = actor;
  correlation_id = correlation_id;
  occurred_at = at;
  reason = reason;
}

abbrev pub external_bundle :
    RecordExternalClaimRequest
    → TimestampMs
    → RecordId
    → RecordId
    → RecordId
    → RecordId
    → RecordId
    → RecordId
    → RecordId
    → ClaimBundle
external_bundle request at correlation_id provenance_id observation_id claim_id evidence_id audit_id
      edge_id =
    record {
      provenance = external_provenance request provenance_id at correlation_id;
      observation = external_observation request observation_id provenance_id at;
      claim = external_claim request claim_id provenance_id at;
      evidence = external_evidence request evidence_id provenance_id at;
      evidence_edge_id = edge_id;
      context = context_of audit_id request.actor correlation_id at none;
    }

-- `claim.case_id` and the rest of the review that `review_claim` and `correct_claim` append.
abbrev pub review_of :
    RecordId → Claim → ReviewDecision → Text → Option Text → TimestampMs → RecordId → HumanReview
review_of id claim decision actor rationale at correlation_id = record {
  id = id;
  case_id = claim.case_id;
  target_kind = lit "claim";
  target_id = claim.id;
  decision = decision;
  actor = actor;
  rationale = rationale;
  reviewed_at = at;
  correlation_id = correlation_id;
}

abbrev pub fact_of : RecordId → Claim → TimestampMs → Text → Fact
fact_of id claim at actor = record {
  id = id;
  case_id = claim.case_id;
  claim_id = claim.id;
  established_value = claim.normalized_value;
  established_at = at;
  established_by = actor;
}

abbrev pub review_bundle :
    ReviewClaimRequest
    → Claim
    → TimestampMs
    → RecordId
    → RecordId
    → ClaimState × Option Fact
    → RecordId
    → RecordId
    → ReviewBundle
review_bundle request claim at correlation_id review_id decided audit_id state_change_id = record {
  review =
      review_of review_id claim request.decision request.actor request.rationale at correlation_id;
  state_change_id = state_change_id;
  state = decided.0;
  fact = decided.1;
  context = context_of audit_id request.actor correlation_id at request.rationale;
}

module _ {W : Type 0} (ports : Ports W) where
  open ports use {now, next}

  unfoldable pub record_external_claim : RecordExternalClaimRequest → App W ClaimResult
  record_external_claim request = do
    lift (check_text (lit "subject_key") request.subject_key 1 300)
    lift (check_text (lit "predicate") request.predicate 1 300)
    lift (check_text (lit "original_value") request.original_value 1 1000000)
    lift (check_text (lit "actor") request.actor 1 300)
    version ← ports.get_artifact_version request.artifact_version_id
    stop_if (is_none version) version_missing
    at ← now
    correlation_id ← correlation ports request.correlation_id
    provenance_id ← next (lit "provenance")
    let provenance = external_provenance request provenance_id at correlation_id
    lift_domain (validate_provenance provenance)
    observation_id ← next (lit "observation")
    claim_id ← next (lit "claim")
    let claim = external_claim request claim_id provenance_id at
    lift_domain (validate_claim claim)
    evidence_id ← next (lit "evidence")
    audit_id ← next (lit "audit")
    edge_id ← next (lit "edge")
    ports.record_claim (
        external_bundle request at correlation_id provenance_id observation_id claim_id evidence_id
          audit_id edge_id)

  -- The `match` of `review_claim` on the decision.
  unfoldable pub outcome :
      ReviewDecision → Claim → TimestampMs → Text → App W (ClaimState × Option Fact)
  outcome ReviewDecision.verified claim at actor = do
    fact_id ← next (lit "fact")
    pure (ClaimState.verified, some (fact_of fact_id claim at actor))
  outcome ReviewDecision.rejected claim at actor = pure (ClaimState.rejected, none)
  outcome ReviewDecision.needs_more_evidence claim at actor = pure (ClaimState.unresolved, none)
  outcome ReviewDecision.corrected claim at actor = fail (
      app_error invalid_input
        (lit "use correct_claim when the decision supplies a corrected value"))

  unfoldable pub review_claim : ReviewClaimRequest → App W HumanReview
  review_claim request = do
    lift (check_text (lit "actor") request.actor 1 300)
    found ← ports.get_claim request.claim_id
    claim ← require claim_missing found
    at ← now
    correlation_id ← correlation ports request.correlation_id
    review_id ← next (lit "review")
    decided ← outcome request.decision claim at request.actor
    audit_id ← next (lit "audit")
    state_change_id ← next (lit "claim_state")
    ports.review_claim
        (review_bundle request claim at correlation_id review_id decided audit_id state_change_id)
