-- ===== src/Application/Bundles/Corrects.antt =====
-- What `correct_claim` of crates/casegraph-application/src/service.rs sends the repository.
use casegraph.Domain.Model.Evidence.{Claim}
use casegraph.Application.Monad.Keeps.{
  Keeps, Keeps-bind, Keeps-bind-domain, Keeps-bind-lift, Keeps-bind-require, Keeps-bind-to,
}
use casegraph.Application.Ports.{Ports}
use casegraph.Application.Service.Requests.{CorrectClaimRequest}
use casegraph.Application.Corrections.{correct_claim}
use casegraph.Application.Bundles.{CorrectionPreserves}
use casegraph.Application.Bundles.Forms.{correction_bundle-IsCorrection}
use casegraph.Application.Bundles.Sends.{correlation-KeepsBy}

module _ {W : Type 0} (ports : Ports W) (P : W → Type 0) (Stored : Claim → Type 0)
    (request : CorrectClaimRequest) (adapters : CorrectionPreserves ports P Stored request) where
  -- Whatever the adapters keep true on corrections of the claim that is stored under the requested
  -- identifier, `correct_claim` keeps: the corrected claim that it sends is valid, human and
  -- verified, has the requested value, and the case, subject and predicate of that stored claim, and
  -- the correction links both claims and their values, the review and the provenance.
  pub correct_claim-Keeps : Keeps P (correct_claim ports request)
  unfolding correct_claim
  correct_claim-Keeps = Keeps-bind-lift _ _ λ _ _. Keeps-bind-lift _ _ λ _ _.
      Keeps-bind-to _ _ adapters.get_claim λ found stored.
        Keeps-bind-require _ _ _ λ original is_found. Keeps-bind _ _ adapters.now λ at.
          Keeps-bind _ _ (correlation-KeepsBy ports P adapters.now adapters.next _) λ c.
            Keeps-bind _ _ (adapters.next _) λ p. Keeps-bind-domain _ _ λ _ provenance_valid.
              Keeps-bind _ _ (adapters.next _) λ i. Keeps-bind-domain _ _ λ _ claim_valid.
                Keeps-bind _ _ (adapters.next _) λ v. Keeps-bind _ _ (adapters.next _) λ n.
                  Keeps-bind _ _ (adapters.next _) λ a. Keeps-bind _ _ (adapters.next _) λ s.
                    Keeps-bind _ _ (adapters.next _) λ s'.
                      adapters.correct_claim _ original (stored original is_found) (
                        correction_bundle-IsCorrection request original at c p i v n a s s'
                          provenance_valid claim_valid)
