-- ===== src/Application/Bundles/Reaches.antt =====
-- The services of crates/casegraph-application/src/service.rs get to the repository: on acceptable
-- requests, with adapters that answer, the last step is the repository's operation on such a bundle.
use casegraph.Prelude.{ℕ, ◌≡◌, ◌≢◌, refl, arith, Option, none, some}
use casegraph.Prelude.Result.{ok}
use casegraph.Text.{Text, lit}
use casegraph.Text.Trim.{trim, is_control}
use casegraph.Domain.Id.{RecordId}
use casegraph.Domain.Temporal.{TimestampMs, TemporalValue}
use casegraph.Domain.Temporal
use casegraph.Domain.Model.Evidence.{Claim, ReviewDecision}
use casegraph.Domain.Model.Validate.{validate_text}
use casegraph.Domain.Model.Texts.{IsText, any-control, validate_text-IsText}
use casegraph.Domain.Model.Accepts.{
  IsClaim, InOrder, validate_claim-IsClaim, validate_provenance-IsProvenance,
}
use casegraph.Application.Monad.Ends.{
  Answers, EndsIn, Answers-pure, Answers-bind, EndsIn-call, EndsIn-bind, EndsIn-lift, EndsIn-domain,
  EndsIn-require, EndsIn-stop_if,
}
use casegraph.Application.Ports.{Ports}
use casegraph.Application.Service.{correlation}
use casegraph.Application.Service.Requests.{
  RecordExternalClaimRequest, ReviewClaimRequest, CorrectClaimRequest,
}
use casegraph.Application.Service.Checks.{check_text}
use casegraph.Application.Claims.{record_external_claim, outcome, review_claim, review_bundle}
use casegraph.Application.Corrections.{correct_claim}
use casegraph.Application.Bundles.{IsRecorded, IsReview, IsCorrection}
use casegraph.Application.Bundles.Forms.{external_bundle-IsRecorded, correction_bundle-IsCorrection}
use casegraph.Application.Bundles.Sends.{IsOutcome, IsOutcome-Decided}

-- The service's own test of a text agrees with the domain's.
pub check_text-IsText :
    (field value : Text) (min max : ℕ)
    → IsText min max value
    → check_text field value min max ≡ ok tt
unfolding check_text
check_text-IsText field value min max h =
    ground (arith, (any-control value).1 h.printable, h.long_enough, h.short_enough)

human_correction-IsText : IsText 1 100 (lit "human_correction")
unfolding lit trim is_control validate_text
human_correction-IsText =
    (validate_text-IsText (lit "extraction_method") (lit "human_correction") 1 100).0 refl

human-IsText : IsText 1 100 (lit "human")
unfolding lit trim is_control validate_text
human-IsText = (validate_text-IsText (lit "extractor_version") (lit "human") 1 100).0 refl

abbrev pub Found {ℓ} : {A : Type ℓ} → Option A → Type ℓ
Found {A = A} o = (a : A) × (o ≡ some a)

-- The clock and the generator of identifiers answer.
pub record Ready {W : Type 0} (ports : Ports W) : Type 0 where
  pub now : Answers (λ t. Unit) ports.now
  pub next : (kind : Text) → Answers (λ id. Unit) (ports.next kind)

-- The texts of the request are in the bounds of the claim and of its provenance, its span is in
-- order, model metadata names the provider, and the temporal value is valid.
pub record IsExternalRequest (r : RecordExternalClaimRequest) : Type 0 where
  pub subject : IsText 1 300 r.subject_key
  pub named : IsText 1 300 r.predicate
  pub original : IsText 1 1000000 r.original_value
  pub by : IsText 1 300 r.actor
  pub method : IsText 1 100 r.extraction_method
  pub extractor : IsText 1 200 r.extractor_name
  pub version : IsText 1 100 r.extractor_version
  pub span : InOrder r.text_span_start r.text_span_end
  pub attributed :
      r.model_provider ≡ none
      → (r.model_name ≡ none) × (r.model_version ≡ none) × (r.model_configuration_json ≡ none)
  pub dated : (t : TemporalValue) → r.temporal ≡ some t → Temporal.validate t ≡ ok tt

module _ {W : Type 0} (ports : Ports W) (ready : Ready ports) where
  pub correlation-Answers :
      (provided : Option RecordId) → Answers (λ id. Unit) (correlation ports provided)
  unfolding correlation
  correlation-Answers none = ready.next _
  correlation-Answers (some id) = Answers-pure id tt

  -- If the clock, the identifiers and the lookup of the artifact version answer, the version exists
  -- and the request is acceptable, `record_external_claim` ends in `record_claim` on a grounded
  -- bundle that carries the request: its case, subject, predicate, values, artifact version, place,
  -- extractor, model and actor, in the claim, the observation and the provenance.
  pub record_external_claim-EndsIn :
      (request : RecordExternalClaimRequest)
      → IsExternalRequest request
      → Answers Found (ports.get_artifact_version request.artifact_version_id)
      → EndsIn ports.record_claim (IsRecorded request) (record_external_claim ports request)
  unfolding record_external_claim
  record_external_claim-EndsIn request good known =
      EndsIn-lift _ _ _ (check_text-IsText _ _ 1 300 good.subject) λ _.
        EndsIn-lift _ _ _ (check_text-IsText _ _ 1 300 good.named) λ _.
          EndsIn-lift _ _ _ (check_text-IsText _ _ 1 1000000 good.original) λ _.
            EndsIn-lift _ _ _ (check_text-IsText _ _ 1 300 good.by) λ _.
              EndsIn-bind _ _ known λ version found. EndsIn-stop_if _ _ _ (ground arith) λ _.
                EndsIn-bind _ _ ready.now λ at _.
                  EndsIn-bind _ _ (correlation-Answers _) λ correlation_id _.
                    EndsIn-bind _ _ (ready.next _) λ provenance_id _.
                      EndsIn-domain _ _ _
                        ((validate_provenance-IsProvenance _).1 (record {
                          method = good.method;
                          extractor = good.extractor;
                          version = good.version;
                          span = good.span;
                          attributed = good.attributed;
                        }))
                        λ provenance_valid. EndsIn-bind _ _ (ready.next _) λ observation_id _.
                          EndsIn-bind _ _ (ready.next _) λ claim_id _.
                            EndsIn-domain _ _ _
                              ((validate_claim-IsClaim _).1 (record {
                                subject = good.subject;
                                named = good.named;
                                grounded = λ e z. cc;
                                dated = good.dated;
                              }))
                              λ claim_valid. EndsIn-bind _ _ (ready.next _) λ evidence_id _.
                                EndsIn-bind _ _ (ready.next _) λ audit_id _.
                                  EndsIn-bind _ _ (ready.next _) λ edge_id _. EndsIn-call _ (
                                    external_bundle-IsRecorded request at correlation_id
                                      provenance_id observation_id claim_id evidence_id audit_id
                                      edge_id provenance_valid claim_valid)

  outcome-Answers :
      (d : ReviewDecision) (claim : Claim) (at : TimestampMs) (actor : Text)
      → d ≢ ReviewDecision.corrected
      → Answers (IsOutcome d claim) (outcome ports d claim at actor)
  unfolding outcome
  outcome-Answers ReviewDecision.verified claim at actor h =
      Answers-bind _ _ (ready.next _) λ id _. Answers-pure _ (refl, refl, refl)
  outcome-Answers ReviewDecision.rejected claim at actor h = Answers-pure _ (refl, refl)
  outcome-Answers ReviewDecision.needs_more_evidence claim at actor h = Answers-pure _ (refl, refl)
  outcome-Answers ReviewDecision.corrected claim at actor h = absurd (h refl)

  -- If the clock, the identifiers and the lookup of the claim answer, the claim exists and the
  -- decision is not a correction, `review_claim` ends in the repository's `review_claim` on a review
  -- of that decision, with the state and the fact that the decision calls for.
  pub review_claim-EndsIn :
      (request : ReviewClaimRequest)
      → IsText 1 300 request.actor
      → request.decision ≢ ReviewDecision.corrected
      → Answers Found (ports.get_claim request.claim_id)
      → EndsIn ports.review_claim
          (λ b.
            IsReview b × (b.review.decision ≡ request.decision) × (b.review.actor ≡ request.actor))
          (review_claim ports request)
  unfolding review_claim
  review_claim-EndsIn request by plain known =
      EndsIn-lift _ _ _ (check_text-IsText _ _ 1 300 by) λ _.
        EndsIn-bind _ _ known λ found is_found. EndsIn-require _ _ is_found.0 _ is_found.1 λ _.
          EndsIn-bind _ _ ready.now λ at _.
            EndsIn-bind _ _ (correlation-Answers _) λ correlation_id _.
              EndsIn-bind _ _ (ready.next _) λ review_id _.
                EndsIn-bind _ _ (outcome-Answers request.decision is_found.0 at request.actor plain)
                  λ decided known. EndsIn-bind _ _ (ready.next _) λ audit_id _.
                    EndsIn-bind _ _ (ready.next _) λ state_change_id _.
                      let b =
                        review_bundle request is_found.0 at correlation_id review_id decided
                          audit_id state_change_id in
                      EndsIn-call b (
                        record {
                          decided = IsOutcome-Decided request.decision is_found.0 b known refl refl;
                          audited = (refl, refl);
                        },
                        refl,
                        refl,
                      )

  -- If the clock and the identifiers answer, the lookup of the requested identifier finds a valid
  -- claim, the new representation has 1 to 1,000,000 characters, the actor 1 to 200 and the new
  -- temporal value is valid, `correct_claim` ends in the repository's `correct_claim` on a correction
  -- of that claim to the requested value.
  pub correct_claim-EndsIn :
      (request : CorrectClaimRequest) (original : Claim)
      → IsClaim original
      → IsText 1 200 request.actor
      → IsText 1 1000000 request.corrected_original_representation
      → ((t : TemporalValue) → request.corrected_temporal ≡ some t → Temporal.validate t ≡ ok tt)
      → Answers (λ o. o ≡ some original) (ports.get_claim request.claim_id)
      → EndsIn ports.correct_claim (IsCorrection request original) (correct_claim ports request)
  unfolding correct_claim
  correct_claim-EndsIn request original is_claim by shown dated known =
      EndsIn-lift _ _ _ (check_text-IsText _ _ 1 300 (wider _ by)) λ _.
        EndsIn-lift _ _ _ (check_text-IsText _ _ 1 1000000 shown) λ _.
          EndsIn-bind _ _ known λ found is_found. EndsIn-require _ _ original _ is_found λ _.
            EndsIn-bind _ _ ready.now λ at _.
              EndsIn-bind _ _ (correlation-Answers _) λ correlation_id _.
                EndsIn-bind _ _ (ready.next _) λ provenance_id _.
                  EndsIn-domain _ _ _
                    ((validate_provenance-IsProvenance _).1 (record {
                      method = human_correction-IsText;
                      extractor = by;
                      version = human-IsText;
                      span = tt;
                      attributed = λ _. (refl, refl, refl);
                    }))
                    λ provenance_valid. EndsIn-bind _ _ (ready.next _) λ claim_id _.
                      EndsIn-domain _ _ _
                        ((validate_claim-IsClaim _).1 (record {
                          subject = is_claim.subject;
                          named = is_claim.named;
                          grounded = λ e z. cc;
                          dated = dated;
                        }))
                        λ claim_valid. EndsIn-bind _ _ (ready.next _) λ review_id _.
                          EndsIn-bind _ _ (ready.next _) λ correction_id _.
                            EndsIn-bind _ _ (ready.next _) λ audit_id _.
                              EndsIn-bind _ _ (ready.next _) λ s _.
                                EndsIn-bind _ _ (ready.next _) λ s' _. EndsIn-call _ (
                                  correction_bundle-IsCorrection request original at correlation_id
                                    provenance_id claim_id review_id correction_id audit_id s s'
                                    provenance_valid claim_valid)
    where
      wider : (s : Text) → IsText 1 200 s → IsText 1 300 s
      wider s h = record {
        long_enough = h.long_enough;
        short_enough = omega (arith, h.short_enough);
        printable = h.printable;
      }
