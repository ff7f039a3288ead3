-- ===== src/Application/Bundles/Forms.antt =====
-- The bundles that crates/casegraph-application/src/service.rs puts together have their forms.
use casegraph.Prelude.{◌≡◌, refl}
use casegraph.Prelude.Result.{ok}
use casegraph.Domain.Id.{RecordId}
use casegraph.Domain.Temporal.{TimestampMs}
use casegraph.Domain.Model.Evidence.{Claim}
use casegraph.Domain.Model.Validate.{validate_provenance, validate_claim}
use casegraph.Application.Service.Requests.{RecordExternalClaimRequest, CorrectClaimRequest}
use casegraph.Application.Claims.{external_bundle}
use casegraph.Application.Corrections.{correction_bundle}
use casegraph.Application.Bundles.{IsRecorded, IsCorrection}

pub external_bundle-IsRecorded :
    (r : RecordExternalClaimRequest) (at : TimestampMs)
    (correlation_id provenance_id observation_id claim_id evidence_id audit_id edge_id : RecordId)
    → (let b =
          external_bundle r at correlation_id provenance_id observation_id claim_id evidence_id
            audit_id edge_id in
        validate_provenance b.provenance ≡ ok tt → validate_claim b.claim ≡ ok tt → IsRecorded r b)
external_bundle-IsRecorded r at c p o i e a g provenance_valid claim_valid = record {
  grounded = record {
    external = refl;
    extracted = refl;
    claim_valid = claim_valid;
    provenance_valid = provenance_valid;
    from_artifact = λ e. cc;
    claim_cites = refl;
    observation_cites = refl;
    evidence_cites = refl;
    one_case = (refl, refl);
    one_time = refl;
  };
  case_is = refl;
  subject = (refl, refl);
  named = refl;
  original = refl;
  value = refl;
  dated = refl;
  interpreted = refl;
  observed = (refl, refl, refl, refl, refl);
  source = (refl, refl, refl, refl, refl);
  place = (refl, refl, refl, refl, refl, refl, refl, refl, refl);
  extracted_by = (refl, refl, refl, refl);
  interpreted_by = (refl, refl, refl, refl);
  acting = refl;
}

pub correction_bundle-IsCorrection :
    (r : CorrectClaimRequest) (original : Claim) (at : TimestampMs)
    (correlation_id provenance_id claim_id review_id correction_id audit_id change
      change' : RecordId)
    → (let b =
          correction_bundle r original at correlation_id provenance_id claim_id review_id
            correction_id audit_id change change' in
        validate_provenance b.provenance ≡ ok tt
        → validate_claim b.corrected_claim ≡ ok tt
        → IsCorrection r original b)
correction_bundle-IsCorrection r original at c p i v n a s s' provenance_valid claim_valid =
    record {
      claim_valid = claim_valid;
      provenance_valid = provenance_valid;
      by_human = refl;
      verified = refl;
      cites = (refl, refl);
      same_case = (refl, refl, refl);
      same_subject = (refl, refl);
      same_predicate = refl;
      from_original = (refl, refl);
      to_corrected = (refl, refl);
      as_requested = (refl, refl, refl, refl);
      reviewed = (refl, refl, refl);
      reasoned = (refl, refl, refl);
      acting = (refl, refl, refl, refl);
    }
