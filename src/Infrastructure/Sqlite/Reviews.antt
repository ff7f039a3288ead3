-- ===== src/Infrastructure/Sqlite/Reviews.antt =====
-- `review_claim` and `correct_claim` of crates/casegraph-infrastructure/src/sqlite_repository.rs.
use casegraph.Prelude.{List, Option, [], any, filter, map, none, some, ◌&&◌, ◌∷◌}
use casegraph.Text.{Text, lit, text_eq}
use casegraph.Prelude.Result.{Result}
use casegraph.Domain.Id.{RecordId}
use casegraph.Domain.Model.Evidence.{ClaimState, Fact, HumanReview, Correction}
use casegraph.Domain.Model.Validate.{validate_provenance, validate_claim}
use casegraph.Application.Error.{AppError}
use casegraph.Application.Ports.{ReviewBundle, CorrectionBundle}
use casegraph.Infrastructure.Sqlite.Rows.{Database, EdgeRow, correction_row}
use casegraph.Infrastructure.Sqlite.Tables.{as_edge, as_evaluation_evidence, select}
use casegraph.Infrastructure.Sqlite.Serde.{
  Serde, claim_corrected, claim_reviewed, deterministic_id, parse_id, to_json,
}
use casegraph.Infrastructure.Sqlite.Tx.{Tx, lift, lift_domain, load, pure, ◌>>=◌, ◌>>◌}
use casegraph.Infrastructure.Sqlite.Statement.{ensure_claim_exists, insert}
use casegraph.Infrastructure.Sqlite.Insert.{
  insert_audit, insert_claim, insert_edge, insert_fact, insert_provenance, insert_review,
  insert_state_change,
}
use casegraph.Infrastructure.Sqlite.Order.{collect, sort_distinct}

-- The evidence that supports a claim: the ends of its `supported_by` edges.
unfoldable pub supports : Text → Database → List EdgeRow
supports claim_id db =
    filter
      (λ e.
        text_eq e.from_kind (lit "claim")
        && (text_eq e.from_id claim_id
            && (text_eq e.relationship_type (lit "supported_by")
                && text_eq e.to_kind (lit "evidence"))))
      (select as_edge db)

-- `affected_rule_evaluations`.
unfoldable pub affected_rule_evaluations : RecordId → Database → Result AppError (List RecordId)
affected_rule_evaluations claim_id db =
    let edges = supports claim_id.value db in
    collect parse_id (
      sort_distinct (
        map (λ e. e.rule_evaluation_id)
          (filter (λ e. any (λ edge. text_eq edge.to_id e.evidence_id) edges)
            (select as_evaluation_evidence db))))

module _ (serde : Serde) where
  abbrev pub insert_established : Option Fact → Tx (Unit {0})
  insert_established none = pure tt
  insert_established (some fact) = insert_fact serde fact

  -- `review_claim`.
  unfoldable pub review_claim : ReviewBundle → Tx HumanReview
  review_claim bundle = do
    let review = bundle.review
    ensure_claim_exists review.target_id.value
    insert_review serde review
    insert_state_change serde bundle.state_change_id review.target_id bundle.state review.actor
        review.rationale review.reviewed_at review.correlation_id
    insert_established bundle.fact
    insert_audit serde bundle.context (some review.case_id) (lit "claim.review") (lit "claim")
        review.target_id (claim_reviewed review)
    pure review

  -- The INSERT of `correct_claim`.
  unfoldable pub insert_correction : Correction → Tx (Unit {0})
  insert_correction correction = do
    original ← lift (to_json (serde.value_json correction.original_value))
    corrected ← lift (to_json (serde.value_json correction.corrected_value))
    affected ← lift (to_json (serde.ids_json correction.affected_derivations))
    insert serde (
        correction_row (record {
          id = correction.id.value;
          case_id = correction.case_id.value;
          original_claim_id = correction.original_claim_id.value;
          corrected_claim_id = correction.corrected_claim_id.value;
          review_id = correction.review_id.value;
          provenance_id = correction.provenance_id.value;
          original_value_json = original;
          corrected_value_json = corrected;
          actor = correction.actor;
          rationale = correction.rationale;
          corrected_at_ms = correction.corrected_at.ms;
          affected_derivations_json = affected;
        }))

  -- `correction.affected_derivations = affected`.
  abbrev pub with_affected : Correction → List RecordId → Correction
  with_affected c affected = record {
    id = c.id;
    case_id = c.case_id;
    original_claim_id = c.original_claim_id;
    corrected_claim_id = c.corrected_claim_id;
    review_id = c.review_id;
    provenance_id = c.provenance_id;
    original_value = c.original_value;
    corrected_value = c.corrected_value;
    actor = c.actor;
    rationale = c.rationale;
    corrected_at = c.corrected_at;
    affected_derivations = affected;
  }

  -- `correct_claim`.
  unfoldable pub correct_claim : CorrectionBundle → Tx Correction
  correct_claim bundle = do
    lift_domain (validate_provenance bundle.provenance)
    lift_domain (validate_claim bundle.corrected_claim)
    ensure_claim_exists bundle.correction.original_claim_id.value
    insert_provenance serde bundle.provenance
    insert_claim serde bundle.corrected_claim
    insert_review serde bundle.review
    affected ← load (affected_rule_evaluations bundle.correction.original_claim_id)
    let correction = with_affected bundle.correction affected
    insert_correction correction
    insert_state_change serde bundle.original_state_change_id correction.original_claim_id
        ClaimState.superseded correction.actor correction.rationale correction.corrected_at
        bundle.context.correlation_id
    insert_state_change serde bundle.corrected_state_change_id correction.corrected_claim_id
        ClaimState.verified correction.actor correction.rationale correction.corrected_at
        bundle.context.correlation_id
    edge_id ← lift (
        deterministic_id serde (lit "edge") (
          correction.corrected_claim_id.value
          ∷ lit "supersedes"
          ∷ correction.original_claim_id.value
          ∷ []))
    insert_edge serde edge_id correction.case_id (lit "claim") correction.corrected_claim_id
        (lit "supersedes") (lit "claim") correction.original_claim_id correction.corrected_at
    insert_audit serde bundle.context (some correction.case_id) (lit "claim.correct") (lit "claim")
        correction.original_claim_id
        (claim_corrected correction.corrected_claim_id correction.review_id
          correction.affected_derivations)
    pure correction
