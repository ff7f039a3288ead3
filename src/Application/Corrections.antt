-- ===== src/Application/Corrections.antt =====
-- `CasegraphService::correct_claim` of crates/casegraph-application/src/service.rs.
use casegraph.Prelude.{none, some, []}
use casegraph.Text.{lit}
use casegraph.Domain.Id.{RecordId}
use casegraph.Domain.Temporal.{TimestampMs}
use casegraph.Domain.Model.Evidence.{
  ProvenanceRecord, VerificationState, Claim, ClaimState, AssertionOrigin, ReviewDecision,
  Correction,
}
use casegraph.Domain.Model.Validate.{validate_provenance, validate_claim}
use casegraph.Application.Monad.{App, lift, lift_domain, require, ◌>>=◌, ◌>>◌}
use casegraph.Application.Ports.{Ports, CorrectionBundle}
use casegraph.Application.Service.{correlation, claim_missing}
use casegraph.Application.Service.Requests.{CorrectClaimRequest}
use casegraph.Application.Service.Checks.{check_text}
use casegraph.Application.Claims.{review_of, context_of}

abbrev pub correction_provenance :
    CorrectClaimRequest → RecordId → TimestampMs → RecordId → ProvenanceRecord
correction_provenance request id at correlation_id = record {
  id = id;
  artifact_version_id = none;
  connector = none;
  endpoint = none;
  external_record_id = none;
  source_field = none;
  page_number = none;
  paragraph_number = none;
  text_span_start = none;
  text_span_end = none;
  table_number = none;
  row_number = none;
  column_number = none;
  bounding_region_json = none;
  extraction_method = lit "human_correction";
  extractor_name = request.actor;
  extractor_version = lit "human";
  model_provider = none;
  model_name = none;
  model_version = none;
  model_configuration_json = none;
  extracted_at = at;
  confidence = none;
  verification_state = VerificationState.corrected;
  original_representation = some request.corrected_original_representation;
  correlation_id = correlation_id;
}

abbrev pub corrected_claim_of :
    CorrectClaimRequest → Claim → RecordId → RecordId → TimestampMs → Claim
corrected_claim_of request original id provenance_id at = record {
  id = id;
  case_id = original.case_id;
  subject_id = original.subject_id;
  subject_key = original.subject_key;
  predicate = original.predicate;
  original_value = request.corrected_original_representation;
  normalized_value = request.corrected_value;
  origin = AssertionOrigin.human;
  initial_state = ClaimState.verified;
  primary_provenance_id = some provenance_id;
  interpretation_confidence = none;
  temporal = request.corrected_temporal;
  created_at = at;
}

abbrev pub correction_of :
    CorrectClaimRequest
    → Claim
    → RecordId
    → RecordId
    → RecordId
    → RecordId
    → TimestampMs
    → Correction
correction_of request original id claim_id review_id provenance_id at = record {
  id = id;
  case_id = original.case_id;
  original_claim_id = original.id;
  corrected_claim_id = claim_id;
  review_id = review_id;
  provenance_id = provenance_id;
  original_value = original.normalized_value;
  corrected_value = request.corrected_value;
  actor = request.actor;
  rationale = request.rationale;
  corrected_at = at;
  affected_derivations = [];
}

abbrev pub correction_bundle :
    CorrectClaimRequest
    → Claim
    → TimestampMs
    → RecordId
    → RecordId
    → RecordId
    → RecordId
    → RecordId
    → RecordId
    → RecordId
    → RecordId
    → CorrectionBundle
correction_bundle request original at correlation_id provenance_id claim_id review_id correction_id
      audit_id original_change corrected_change =
    record {
      provenance = correction_provenance request provenance_id at correlation_id;
      corrected_claim = corrected_claim_of request original claim_id provenance_id at;
      review =
          review_of review_id original ReviewDecision.corrected request.actor request.rationale at
            correlation_id;
      correction = correction_of request original correction_id claim_id review_id provenance_id at;
      original_state_change_id = original_change;
      corrected_state_change_id = corrected_change;
      context = context_of audit_id request.actor correlation_id at request.rationale;
    }

module _ {W : Type 0} (ports : Ports W) where
  open ports use {now, next}

  unfoldable pub correct_claim : CorrectClaimRequest → App W Correction
  correct_claim request = do
    lift (check_text (lit "actor") request.actor 1 300)
    lift (
        check_text (lit "corrected_original_representation")
          request.corrected_original_representation 1 1000000)
    found ← ports.get_claim request.claim_id
    original ← require claim_missing found
    at ← now
    correlation_id ← correlation ports request.correlation_id
    provenance_id ← next (lit "provenance")
    let provenance = correction_provenance request provenance_id at correlation_id
    lift_domain (validate_provenance provenance)
    claim_id ← next (lit "claim")
    let claim = corrected_claim_of request original claim_id provenance_id at
    lift_domain (validate_claim claim)
    review_id ← next (lit "review")
    correction_id ← next (lit "correction")
    audit_id ← next (lit "audit")
    original_state_change_id ← next (lit "claim_state")
    corrected_state_change_id ← next (lit "claim_state")
    ports.correct_claim (
        correction_bundle request original at correlation_id provenance_id claim_id review_id
          correction_id audit_id original_state_change_id corrected_state_change_id)
