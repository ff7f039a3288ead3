-- ===== src/Infrastructure/Sqlite/Claims.antt =====
-- `record_claim` of crates/casegraph-infrastructure/src/sqlite_repository.rs: the rows of a claim,
-- and its comparison with the earlier claims on its subject and predicate.
pub mod Compared
pub mod Live
pub mod Priors
use casegraph.Prelude.{
  Bool, List, [], false, filter, if◌then◌else◌, map, none, not, some, true, ◌&&◌, ◌++◌, ◌||◌, ◌∷◌,
}
use casegraph.Prelude.Result.{Result, ok, err, ok_or}
use casegraph.Text.{Text, lit, text_eq}
use casegraph.Domain.Id.{RecordId}
use casegraph.Domain.Value.{KnowledgeValue, known, unknown, not_applicable, not_evaluated}
use casegraph.Domain.Model.Evidence.{Claim, ClaimState, Contradiction}
use casegraph.Domain.Model.Validate.{validate_provenance, validate_claim}
use casegraph.Application.Error.{AppError, app_error, internal}
use casegraph.Application.Ports.{ClaimBundle, ClaimResult, OperationContext}
use casegraph.Infrastructure.Sqlite.Rows.{ClaimRow, Database, contradiction_row}
use casegraph.Infrastructure.Sqlite.Tables.{as_claim, as_state_change, select}
use casegraph.Infrastructure.Sqlite.Serde.{
  Serde, claim_recorded, deterministic_id, from_json, ordered_ids, parse_id, to_json,
}
use casegraph.Infrastructure.Sqlite.Tx.{
  Tx, for_each, lift, lift_domain, load, pure, query, ◌>>=◌, ◌>>◌,
}
use casegraph.Infrastructure.Sqlite.Schema.{is_one_of}
use casegraph.Infrastructure.Sqlite.Statement.{ensure_case_exists, insert_or_ignore}
use casegraph.Infrastructure.Sqlite.Insert.{
  insert_audit, insert_claim, insert_contradiction_edges, insert_edge, insert_evidence,
  insert_observation, insert_provenance, insert_state_change,
}
use casegraph.Infrastructure.Sqlite.Load.{load_contradiction}
use casegraph.Infrastructure.Sqlite.Order.{by_time, latest, sort_by}

-- `COALESCE((SELECT state FROM claim_state_changes ...), initial_state)`.
unfoldable pub current_state : Database → ClaimRow → Text
unfolding latest
current_state db r =
    elim (latest (filter (λ s. text_eq s.claim_id r.id) (select as_state_change db))) [
      | none ↦ r.initial_state
      | some change ↦ change.state
    ]

-- The WHERE clause of the query for prior claims.
unfoldable pub is_prior : Database → Claim → ClaimRow → Bool
unfolding current_state
is_prior db claim r =
    text_eq r.case_id claim.case_id.value
    && (text_eq r.subject_key claim.subject_key
        && (text_eq r.predicate claim.predicate
            && (not (text_eq r.id claim.id.value)
                && not (is_one_of (lit "rejected" ∷ lit "superseded" ∷ []) (current_state db r)))))

-- The query for prior claims.
unfoldable pub prior_claims : Claim → Database → List ClaimRow
prior_claims claim db =
    sort_by (by_time (λ r. r.created_at_ms) (λ r. r.id))
      (filter (is_prior db claim) (select as_claim db))

-- `matches!(value, KnowledgeValue::Known(_))`.
abbrev pub is_known : KnowledgeValue → Bool
is_known (known value) = true
is_known unknown = false
is_known not_applicable = false
is_known not_evaluated = false

-- The lists that the loop over the prior claims fills.
pub record Comparison : Type 0 where
  pub contradictions : List Contradiction
  pub corroborates : List RecordId

abbrev pub no_comparison : Comparison
no_comparison = record { contradictions = []; corroborates = [] }

module _ (serde : Serde) where
  -- The state change of one of the two claims.
  unfoldable pub mark_contradicted : ClaimBundle → RecordId → RecordId → Tx (Unit {0})
  mark_contradicted bundle contradiction_id claim_id = do
    change_id ←
        lift (
          deterministic_id serde (lit "claim_state") (contradiction_id.value ∷ claim_id.value ∷ []))
    insert_state_change serde change_id claim_id ClaimState.contradicted
        (lit "system:contradiction-detector") (some (lit "conflicting normalized values coexist"))
        bundle.context.occurred_at bundle.context.correlation_id

  -- The part of the loop for an equal value.
  unfoldable pub corroborate : ClaimBundle → Comparison → RecordId → Tx Comparison
  corroborate bundle found prior_id = do
    edge_id ← lift (
        deterministic_id serde (lit "edge")
          (bundle.claim.id.value ∷ lit "corroborates" ∷ prior_id.value ∷ []))
    insert_edge serde edge_id bundle.claim.case_id (lit "claim") bundle.claim.id
        (lit "corroborates") (lit "claim") prior_id bundle.context.occurred_at
    pure (record {
      contradictions = found.contradictions;
      corroborates = found.corroborates ++ (prior_id ∷ []);
    })

  -- The part of the loop for a different value.
  unfoldable pub contradict : ClaimBundle → Comparison → RecordId → Tx Comparison
  contradict bundle found prior_id = do
    let (claim_a, claim_b) = ordered_ids bundle.claim.id prior_id
    contradiction_id ←
        lift (deterministic_id serde (lit "contradiction") (claim_a.value ∷ claim_b.value ∷ []))
    inserted ← insert_or_ignore serde (
        contradiction_row (record {
          id = contradiction_id.value;
          case_id = bundle.claim.case_id.value;
          claim_a_id = claim_a.value;
          claim_b_id = claim_b.value;
          status = lit "unresolved";
          detection_method = lit "automatic";
          rationale = none;
          resolution_claim_id = none;
          adjudicated_by = none;
          created_at_ms = bundle.context.occurred_at.ms;
          resolved_at_ms = none;
        }))
    loaded ← load (load_contradiction contradiction_id)
    contradiction ←
        lift (ok_or (app_error internal (lit "created contradiction was not found")) loaded)
    insert_contradiction_edges serde bundle.claim.case_id bundle.claim.id prior_id
        bundle.context.occurred_at
    for_each (claim_a ∷ claim_b ∷ []) (mark_contradicted bundle contradiction_id)
    pure (record {
      contradictions = found.contradictions ++ (contradiction ∷ []);
      corroborates = found.corroborates;
    })

  -- One turn of the loop over the prior claims.
  unfoldable pub compare_prior : ClaimBundle → Text → Comparison → ClaimRow → Tx Comparison
  compare_prior bundle normalized found prior = do
    prior_id ← lift (parse_id prior.id)
    prior_value ← lift (from_json (serde.read_value prior.normalized_value_json))
    if not (is_known bundle.claim.normalized_value) || not (is_known prior_value)
        then pure found
        else if text_eq prior.normalized_value_json normalized
        then corroborate bundle found prior_id
        else contradict bundle found prior_id

  unfoldable pub compare_priors : ClaimBundle → Text → Comparison → List ClaimRow → Tx Comparison
  compare_priors bundle normalized found [] = pure found
  compare_priors bundle normalized found (prior ∷ priors) = do
    found' ← compare_prior bundle normalized found prior
    compare_priors bundle normalized found' priors

  -- The rows of the claim itself, up to the edge to its evidence.
  unfoldable pub insert_grounded : ClaimBundle → Tx (Unit {0})
  insert_grounded bundle = do
    lift_domain (validate_provenance bundle.provenance)
    lift_domain (validate_claim bundle.claim)
    ensure_case_exists bundle.claim.case_id.value
    insert_provenance serde bundle.provenance
    insert_observation serde bundle.observation
    insert_claim serde bundle.claim
    insert_evidence serde bundle.evidence
    insert_edge serde bundle.evidence_edge_id bundle.claim.case_id (lit "claim") bundle.claim.id
        (lit "supported_by") (lit "evidence") bundle.evidence.id bundle.context.occurred_at

  -- `record_claim`.
  unfoldable pub record_claim : ClaimBundle → Tx ClaimResult
  record_claim bundle = do
    insert_grounded bundle
    priors ← query (prior_claims bundle.claim)
    normalized ← lift (to_json (serde.value_json bundle.claim.normalized_value))
    found ← compare_priors bundle normalized no_comparison priors
    insert_audit serde bundle.context (some bundle.claim.case_id) (lit "claim.record") (lit "claim")
        bundle.claim.id
        (claim_recorded bundle.provenance.id bundle.evidence.id
          (map (λ c. c.id) found.contradictions) found.corroborates)
    pure (record {
      claim = bundle.claim;
      contradictions = found.contradictions;
      corroborates = found.corroborates;
    })
