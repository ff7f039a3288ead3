-- ===== src/Application/Bundles/Sends.antt =====
-- The services of crates/casegraph-application/src/service.rs send the repository linked, valid
-- bundles only.
use mathlib.Core.Path.{subst}
use casegraph.Prelude.{ℕ, ◌≤◌, ◌≡◌, refl, arith, false, not, ◌==◌, ltb, Option, none, some, length}
use casegraph.Text.{Text}
use casegraph.Domain.Id.{RecordId}
use casegraph.Domain.Temporal.{TimestampMs}
use casegraph.Domain.Model.Evidence.{Claim, ClaimState, ReviewDecision, Fact}
use casegraph.Application.Monad.Keeps.{
  Keeps, Keeps-pure, Keeps-fail, Keeps-bind, Keeps-bind-domain, Keeps-bind-require,
  Keeps-bind-stop_if, Keeps-bind-lift, KeepsTo, Keeps-bind-to, bind-returns, ok_inj,
}
use casegraph.Application.Ports.{Ports, StoredArtifact, ReviewBundle, ClaimBundle}
use casegraph.Application.Service.{correlation, operation_context, ingest_stored, ingest_bytes}
use casegraph.Application.Service.Requests.{
  IngestBytesRequest, RecordExternalClaimRequest, ReviewClaimRequest,
}
use casegraph.Application.Claims.{record_external_claim, outcome, review_claim, review_bundle}
use casegraph.Application.Bundles.{Preserves, Decided, IsRecorded}
use casegraph.Application.Bundles.Forms.{external_bundle-IsRecorded}

-- What `outcome` decides.
abbrev pub IsOutcome : ReviewDecision → Claim → ClaimState × Option Fact → Type 0
IsOutcome ReviewDecision.verified claim (state, none) = ⊥
IsOutcome ReviewDecision.verified claim (state, some fact) =
    (state ≡ ClaimState.verified) × (fact.claim_id ≡ claim.id) × (fact.case_id ≡ claim.case_id)
IsOutcome ReviewDecision.rejected claim (state, fact) =
    (state ≡ ClaimState.rejected) × (fact ≡ none)
IsOutcome ReviewDecision.needs_more_evidence claim (state, fact) =
    (state ≡ ClaimState.unresolved) × (fact ≡ none)
IsOutcome ReviewDecision.corrected claim (state, fact) = ⊥

pub IsOutcome-Decided :
    (d : ReviewDecision) (claim : Claim) (b : ReviewBundle)
    → IsOutcome d claim (b.state, b.fact)
    → claim.id ≡ b.review.target_id
    → claim.case_id ≡ b.review.case_id
    → Decided b d b.fact
IsOutcome-Decided ReviewDecision.verified claim b h e k = ground arith
IsOutcome-Decided ReviewDecision.rejected claim b h e k = h
IsOutcome-Decided ReviewDecision.needs_more_evidence claim b h e k = h
IsOutcome-Decided ReviewDecision.corrected claim b h e k = h

module _ {W : Type 0} (ports : Ports W) (P : W → Type 0) (now : Keeps P ports.now)
    (next : (kind : Text) → Keeps P (ports.next kind)) where
  pub correlation-KeepsBy : (provided : Option RecordId) → Keeps P (correlation ports provided)
  unfolding correlation
  correlation-KeepsBy none = next _
  correlation-KeepsBy (some id) = Keeps-pure id

  -- What the repository keeps on the bundles of a request, `record_external_claim` keeps on it.
  pub record_external_claim-KeepsRecorded :
      ((id : RecordId) → Keeps P (ports.get_artifact_version id))
      → (request : RecordExternalClaimRequest)
      → ((b : ClaimBundle) → IsRecorded request b → Keeps P (ports.record_claim b))
      → Keeps P (record_external_claim ports request)
  unfolding record_external_claim
  record_external_claim-KeepsRecorded get_version request record_claim = Keeps-bind-lift _ _ λ _ _.
      Keeps-bind-lift _ _ λ _ _. Keeps-bind-lift _ _ λ _ _. Keeps-bind-lift _ _ λ _ _.
        Keeps-bind _ _ (get_version _) λ version. Keeps-bind-stop_if _ _ _ λ found.
          Keeps-bind _ _ now λ at. Keeps-bind _ _ (correlation-KeepsBy _) λ correlation_id.
            Keeps-bind _ _ (next _) λ provenance_id. Keeps-bind-domain _ _ λ _ provenance_valid.
              Keeps-bind _ _ (next _) λ observation_id. Keeps-bind _ _ (next _) λ claim_id.
                Keeps-bind-domain _ _ λ _ claim_valid. Keeps-bind _ _ (next _) λ evidence_id.
                  Keeps-bind _ _ (next _) λ audit_id. Keeps-bind _ _ (next _) λ edge_id.
                    record_claim _ (
                      external_bundle-IsRecorded request at correlation_id provenance_id
                        observation_id claim_id evidence_id audit_id edge_id provenance_valid
                        claim_valid)

module _ {W : Type 0} (limit : ℕ) (ports : Ports W) (P : W → Type 0)
    (adapters : Preserves limit ports P) where
  correlation-Keeps : (provided : Option RecordId) → Keeps P (correlation ports provided)
  correlation-Keeps provided = correlation-KeepsBy ports P adapters.now adapters.next provided

  operation_context-Keeps :
      (actor : Text) (provided : Option RecordId) (reason : Option Text) (at : TimestampMs)
      → Keeps P (operation_context ports actor provided reason at)
  unfolding operation_context
  operation_context-Keeps actor provided reason at =
      Keeps-bind _ _ (adapters.next _)
        λ audit_id. Keeps-bind _ _ (correlation-Keeps provided) λ correlation_id. Keeps-pure _

  -- Whatever the adapters keep true on grounded claims, `record_external_claim` keeps: it hands the
  -- repository only external, valid claims, each with an observation and evidence under one valid
  -- provenance record that names an artifact version.
  pub record_external_claim-Keeps :
      (request : RecordExternalClaimRequest) → Keeps P (record_external_claim ports request)
  record_external_claim-Keeps request =
      record_external_claim-KeepsRecorded ports P adapters.now adapters.next
        adapters.get_artifact_version request
        (λ b recorded. adapters.record_claim b recorded.grounded)

  ingest_stored-Keeps :
      (request : IngestBytesRequest) (stored : StoredArtifact)
      → stored.content_length ≤ limit
      → Keeps P (ingest_stored ports request stored)
  unfolding ingest_stored
  ingest_stored-Keeps request stored fits = Keeps-bind _ _ adapters.now λ at.
      Keeps-bind _ _ (adapters.next _) λ source_id. Keeps-bind _ _ (adapters.next _) λ artifact_id.
        Keeps-bind _ _ (adapters.next _) λ version_id. Keeps-bind-domain _ _ λ _ valid.
          Keeps-bind _ _ (operation_context-Keeps _ _ _ _) λ context. adapters.ingest _ (record {
            version_valid = valid;
            within = fits;
            first = refl;
            linked = (refl, refl);
            one_case = refl;
          })

  -- Whatever the adapters keep true on linked ingestions, `ingest_bytes` keeps: it hands the
  -- repository only a valid first version, no longer than the limit, of an artifact of the source's
  -- case.
  pub ingest_bytes-Keeps :
      (request : IngestBytesRequest) → Keeps P (ingest_bytes ports limit request)
  unfolding ingest_bytes
  ingest_bytes-Keeps request = Keeps-bind-lift _ _ λ _ _. Keeps-bind-lift _ _ λ _ _.
      Keeps-bind-lift _ _ λ _ _. Keeps-bind-lift _ _ λ _ _. Keeps-bind-lift _ _ λ _ _.
        Keeps-bind-stop_if _ _ _ λ small. Keeps-bind _ _ (adapters.get_case _) λ found.
          Keeps-bind-stop_if _ _ _ λ exists. Keeps-bind _ _ (adapters.put _) λ stored.
            Keeps-bind-stop_if _ _ _ λ same.
              ingest_stored-Keeps request stored
                (fits stored.content_length (length request.bytes) small same)
    where
      fits : (n m : ℕ) → ltb limit m ≡ false → not (n == m) ≡ false → n ≤ limit
      fits n m small same = ground arith

  outcome-KeepsTo :
      (d : ReviewDecision) (claim : Claim) (at : TimestampMs) (actor : Text)
      → KeepsTo P (IsOutcome d claim) (outcome ports d claim at actor)
  unfolding outcome
  outcome-KeepsTo ReviewDecision.verified claim at actor = record {
    keeps = Keeps-bind _ _ (adapters.next _) λ id. Keeps-pure _;
    returns = λ w a e.
        let (id, w', h) = bind-returns _ _ w a e in
        subst (IsOutcome ReviewDecision.verified claim) (ok_inj h) (refl, refl, refl);
  }
  outcome-KeepsTo ReviewDecision.rejected claim at actor = record {
    keeps = Keeps-pure _;
    returns = λ w a e. ground arith;
  }
  outcome-KeepsTo ReviewDecision.needs_more_evidence claim at actor = record {
    keeps = Keeps-pure _;
    returns = λ w a e. ground arith;
  }
  outcome-KeepsTo ReviewDecision.corrected claim at actor = record {
    keeps = Keeps-fail _;
    returns = λ w a e. cc;
  }

  -- Whatever the adapters keep true on reviews, `review_claim` keeps: the state that it sends is the
  -- one that the decision calls for, and a fact goes with it just when the claim is verified.
  pub review_claim-Keeps : (request : ReviewClaimRequest) → Keeps P (review_claim ports request)
  unfolding review_claim
  review_claim-Keeps request = Keeps-bind-lift _ _ λ _ _.
      Keeps-bind _ _ (adapters.get_claim _) λ found. Keeps-bind-require _ _ _ λ claim _.
        Keeps-bind _ _ adapters.now λ at. Keeps-bind _ _ (correlation-Keeps _) λ correlation_id.
          Keeps-bind _ _ (adapters.next _) λ review_id.
            Keeps-bind-to _ _ (outcome-KeepsTo request.decision claim at request.actor)
              λ decided known. Keeps-bind _ _ (adapters.next _) λ audit_id.
                Keeps-bind _ _ (adapters.next _) λ state_change_id.
                  let b =
                    review_bundle request claim at correlation_id review_id decided audit_id
                      state_change_id in
                  adapters.review_claim b (record {
                    decided = IsOutcome-Decided request.decision claim b known refl refl;
                    audited = (refl, refl);
                  })
