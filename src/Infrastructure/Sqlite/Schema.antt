-- ===== src/Infrastructure/Sqlite/Schema.antt =====
-- The constraints of the tables in crates/casegraph-infrastructure/migrations: CHECK, PRIMARY KEY,
-- UNIQUE and REFERENCES. A NULL in a unique key differs from every other.
use casegraph.Prelude.{
  suc, ℕ, Bool, true, false, not, ◌&&◌, ◌||◌, Option, none, some, List, [], ◌∷◌, ltb, leb, ◌==◌,
  any, all, if◌then◌else◌,
}
use casegraph.Prelude.Int.{ℤ, pos, ltb_ℤ}
use casegraph.Text.{Text, lit, text_eq, text_cmp}
use casegraph.Domain.Confidence.{in_unit}
use casegraph.Domain.Model.Validate.{is_some, is_lower_hex}
use casegraph.Infrastructure.Sqlite.Rows.{
  Database, Row, artifact_row, artifact_version_row, audit_row, case_row, claim_row,
  contradiction_row, correction_row, deadline_row, edge_row, entity_row, evaluation_evidence_row,
  evaluation_row, event_row, evidence_row, fact_row, obligation_row, observation_row,
  provenance_row, review_row, rule_row, rule_version_row, source_row, state_change_row, task_row,
  version_source_row,
}
use casegraph.Infrastructure.Sqlite.Tables.{
  as_artifact, as_artifact_version, as_audit, as_case, as_claim, as_contradiction, as_correction,
  as_deadline, as_edge, as_entity, as_evaluation, as_evaluation_evidence, as_event, as_evidence,
  as_fact, as_obligation, as_observation, as_provenance, as_review, as_rule, as_rule_version,
  as_source, as_state_change, as_task, as_version_source, select,
}
use casegraph.Infrastructure.Sqlite.Serde.{Serde}
use Prim.Native.Nat.{Ordering}
use mathlib.Core.List.{reverse}

-- `trim` of SQL drops spaces only.
abbrev pub drop_spaces : Text → Text
drop_spaces [] = []
drop_spaces (c ∷ s) = let rest = drop_spaces s in if c == 0x20 then rest else c ∷ s

-- `length` of SQL stops at the first NUL.
abbrev pub sql_length : Text → ℕ
sql_length [] = 0
sql_length (c ∷ s) = let rest = sql_length s in if c == 0 then 0 else suc rest

-- `length(trim(s)) BETWEEN min AND max`.
abbrev pub trimmed_between : ℕ → ℕ → Text → Bool
trimmed_between min max s =
    let length = sql_length (reverse (drop_spaces (reverse (drop_spaces s)))) in
    leb min length && leb length max

-- `s IN (...)`.
abbrev pub is_one_of : List Text → Text → Bool
is_one_of codes s = any (text_eq s) codes

-- `value IS NULL OR ...`.
abbrev pub null_or {ℓ} : {A : Type ℓ} → (A → Bool) → Option A → Bool
null_or f none = true
null_or f (some a) = f a

abbrev pub at_least : ℤ → ℤ → Bool
at_least bound value = not (ltb_ℤ value bound)

abbrev pub in_order : Option ℤ → Option ℤ → Bool
in_order (some start) (some end) = at_least start end
in_order (some start) none = true
in_order none end = true

abbrev pub comes_before : Text → Text → Bool
comes_before a b = elim (text_cmp a b) [
  | Ordering.lt ↦ true
  | Ordering.eq ↦ false
  | Ordering.gt ↦ false
]

abbrev pub origins : List Text
origins = lit "external" ∷ lit "human" ∷ lit "rule" ∷ lit "system" ∷ []

abbrev pub claim_states : List Text
claim_states =
    lit "observed"
    ∷ lit "extracted"
    ∷ lit "inferred"
    ∷ lit "corroborated"
    ∷ lit "disputed"
    ∷ lit "contradicted"
    ∷ lit "superseded"
    ∷ lit "verified"
    ∷ lit "rejected"
    ∷ lit "unresolved"
    ∷ []

-- The CHECK constraints.
unfoldable pub checks : Serde → Row → Bool
checks serde (case_row r) =
    trimmed_between 1 300 r.title
    && (is_one_of (lit "open" ∷ lit "suspended" ∷ lit "closed" ∷ []) r.status
        && null_or (at_least r.created_at_ms) r.closed_at_ms)
checks serde (source_row r) = trimmed_between 1 100 r.connector && trimmed_between 1 2048 r.locator
checks serde (artifact_row r) = trimmed_between 1 2048 r.source_key
checks serde (artifact_version_row r) =
    ltb 0 r.version_number
    && (((sql_length r.content_sha256 == 64) && all is_lower_hex r.content_sha256)
        && (at_least (pos 0) r.content_length
            && (trimmed_between 1 255 r.media_type && trimmed_between 1 255 r.storage_key)))
checks serde (provenance_row r) =
    null_or (ltb 0) r.page_number
    && (null_or (ltb 0) r.paragraph_number
        && (null_or (at_least (pos 0)) r.text_span_start
            && (null_or (at_least (pos 0)) r.text_span_end
                && (null_or (ltb 0) r.table_number
                    && (null_or serde.json_valid r.bounding_region_json
                        && (trimmed_between 1 100 r.extraction_method
                            && (trimmed_between 1 200 r.extractor_name
                                && (trimmed_between 1 100 r.extractor_version
                                    && (null_or serde.json_valid r.model_configuration_json
                                        && (null_or in_unit r.confidence
                                            && (is_one_of
                                                  (lit "not_reviewed"
                                                    ∷ lit "verified"
                                                    ∷ lit "rejected"
                                                    ∷ lit "corrected"
                                                    ∷ [])
                                                  r.verification_state
                                                && (in_order r.text_span_start r.text_span_end
                                                    && (is_some r.model_provider
                                                        || (not (is_some r.model_name)
                                                            && not
                                                            (is_some r.model_version)))))))))))))))
checks serde (observation_row r) =
    trimmed_between 1 300 r.predicate
    && (null_or serde.json_valid r.normalized_value_json && null_or in_unit r.extraction_confidence)
checks serde (claim_row r) =
    trimmed_between 1 300 r.subject_key
    && (trimmed_between 1 300 r.predicate
        && (serde.json_valid r.normalized_value_json
            && (is_one_of origins r.origin
                && (is_one_of claim_states r.initial_state
                    && (null_or in_unit r.interpretation_confidence
                        && (null_or serde.json_valid r.temporal_json
                            && (not (text_eq r.origin (lit "external"))
                                || is_some r.primary_provenance_id)))))))
checks serde (state_change_row r) = is_one_of claim_states r.state
checks serde (fact_row r) =
    serde.json_valid r.established_value_json
    && is_one_of (lit "verified" ∷ lit "rejected" ∷ []) r.verification_state
checks serde (evidence_row r) =
    is_one_of
      (lit "artifact_excerpt"
        ∷ lit "structured_field"
        ∷ lit "human_attestation"
        ∷ lit "rule_result"
        ∷ [])
      r.evidence_type
    && (trimmed_between 1 1000 r.description
        && (text_eq r.evidence_type (lit "rule_result") || is_some r.provenance_id))
checks serde (edge_row r) =
    is_one_of
      (lit "claim"
        ∷ lit "event"
        ∷ lit "obligation"
        ∷ lit "deadline"
        ∷ lit "task"
        ∷ lit "rule_evaluation"
        ∷ [])
      r.from_kind
    && (is_one_of
          (lit "supported_by"
            ∷ lit "contradicted_by"
            ∷ lit "corroborates"
            ∷ lit "contradicts"
            ∷ lit "supersedes"
            ∷ lit "involves"
            ∷ lit "created_by"
            ∷ lit "applies_to"
            ∷ lit "satisfies"
            ∷ lit "produces"
            ∷ [])
          r.relationship_type
        && is_one_of
            (lit "evidence"
              ∷ lit "claim"
              ∷ lit "entity"
              ∷ lit "event"
              ∷ lit "obligation"
              ∷ lit "outcome"
              ∷ [])
            r.to_kind)
checks serde (contradiction_row r) =
    is_one_of (lit "unresolved" ∷ lit "resolved" ∷ lit "superseded" ∷ []) r.status
    && (is_one_of (lit "automatic" ∷ lit "human" ∷ []) r.detection_method
        && (comes_before r.claim_a_id r.claim_b_id
            && (not (text_eq r.status (lit "resolved"))
                || (is_some r.rationale && is_some r.adjudicated_by))))
checks serde (review_row r) =
    is_one_of (lit "claim" ∷ lit "contradiction" ∷ lit "rule_evaluation" ∷ lit "provenance" ∷ [])
      r.target_kind
    && (is_one_of
          (lit "verified" ∷ lit "rejected" ∷ lit "corrected" ∷ lit "needs_more_evidence" ∷ [])
          r.decision
        && trimmed_between 1 300 r.actor)
checks serde (correction_row r) =
    serde.json_valid r.original_value_json
    && (serde.json_valid r.corrected_value_json
        && (serde.json_valid r.affected_derivations_json
            && not (text_eq r.original_claim_id r.corrected_claim_id)))
checks serde (rule_row r) = trimmed_between 1 500 r.title
checks serde (rule_version_row r) =
    ltb 0 r.version
    && (serde.json_valid r.definition_json && (sql_length r.definition_sha256 == 64))
checks serde (evaluation_row r) =
    serde.json_valid r.inputs_json
    && ((sql_length r.inputs_sha256 == 64)
        && is_one_of (lit "satisfied" ∷ lit "not_satisfied" ∷ lit "indeterminate" ∷ []) r.result)
checks serde (obligation_row r) =
    trimmed_between 1 200 r.kind
    && (trimmed_between 1 1000 r.description
        && (is_one_of
              (lit "open" ∷ lit "satisfied" ∷ lit "waived" ∷ lit "expired" ∷ lit "cancelled" ∷ [])
              r.status
            && (is_some r.created_by_event_id || is_some r.created_by_rule_evaluation_id)))
checks serde (deadline_row r) =
    is_one_of
      (lit "instant"
        ∷ lit "day"
        ∷ lit "month"
        ∷ lit "year"
        ∷ lit "before"
        ∷ lit "after"
        ∷ lit "range"
        ∷ lit "unknown"
        ∷ [])
      r.temporal_precision
    && (serde.json_valid r.calculation_json && (is_some r.due_earliest || is_some r.due_latest))
checks serde (task_row r) =
    trimmed_between 1 500 r.title
    && is_one_of
        (lit "pending"
          ∷ lit "ready"
          ∷ lit "in_progress"
          ∷ lit "blocked"
          ∷ lit "done"
          ∷ lit "cancelled"
          ∷ [])
        r.status
checks serde (audit_row r) =
    trimmed_between 1 200 r.operation
    && (trimmed_between 1 300 r.actor
        && (null_or serde.json_valid r.previous_state_json
            && serde.json_valid r.resulting_state_json))
checks serde _ = true

-- Some row of a table has this text in a column.
abbrev pub has : {A : Type 0} → (A → Text) → List A → Text → Bool
has column rows value = any (λ row. text_eq (column row) value) rows

-- Some row of the same table has the identifier, or the key, of this one.
unfoldable pub repeats_key : Database → Row → Bool
repeats_key db (case_row r) = has (λ x. x.id) (select as_case db) r.id
repeats_key db (source_row r) = has (λ x. x.id) (select as_source db) r.id
repeats_key db (artifact_row r) = has (λ x. x.id) (select as_artifact db) r.id
repeats_key db (artifact_version_row r) = has (λ x. x.id) (select as_artifact_version db) r.id
repeats_key db (version_source_row r) =
    any
      (λ x. text_eq x.artifact_version_id r.artifact_version_id && text_eq x.source_id r.source_id)
      (select as_version_source db)
repeats_key db (provenance_row r) = has (λ x. x.id) (select as_provenance db) r.id
repeats_key db (entity_row id) = has (λ x. x) (select as_entity db) id
repeats_key db (event_row id) = has (λ x. x) (select as_event db) id
repeats_key db (observation_row r) = has (λ x. x.id) (select as_observation db) r.id
repeats_key db (claim_row r) = has (λ x. x.id) (select as_claim db) r.id
repeats_key db (state_change_row r) = has (λ x. x.id) (select as_state_change db) r.id
repeats_key db (fact_row r) = has (λ x. x.id) (select as_fact db) r.id
repeats_key db (evidence_row r) = has (λ x. x.id) (select as_evidence db) r.id
repeats_key db (edge_row r) = has (λ x. x.id) (select as_edge db) r.id
repeats_key db (contradiction_row r) = has (λ x. x.id) (select as_contradiction db) r.id
repeats_key db (review_row r) = has (λ x. x.id) (select as_review db) r.id
repeats_key db (correction_row r) = has (λ x. x.id) (select as_correction db) r.id
repeats_key db (rule_row r) = has (λ x. x.id) (select as_rule db) r.id
repeats_key db (rule_version_row r) = has (λ x. x.id) (select as_rule_version db) r.id
repeats_key db (evaluation_row r) = has (λ x. x.id) (select as_evaluation db) r.id
repeats_key db (evaluation_evidence_row r) =
    any
      (λ x.
        text_eq x.rule_evaluation_id r.rule_evaluation_id && text_eq x.evidence_id r.evidence_id)
      (select as_evaluation_evidence db)
repeats_key db (obligation_row r) = has (λ x. x.id) (select as_obligation db) r.id
repeats_key db (deadline_row r) = has (λ x. x.id) (select as_deadline db) r.id
repeats_key db (task_row r) = has (λ x. x.id) (select as_task db) r.id
repeats_key db (audit_row r) = has (λ x. x.id) (select as_audit db) r.id

abbrev pub same_text : Option Text → Option Text → Bool
same_text (some a) (some b) = text_eq a b
same_text _ _ = false

-- Some row of the same table agrees with this one on a UNIQUE constraint beside its key.
unfoldable pub repeats_unique : Database → Row → Bool
repeats_unique db (source_row r) =
    any
      (λ x.
        text_eq x.case_id r.case_id
        && (text_eq x.connector r.connector
            && (text_eq x.locator r.locator && same_text x.source_revision r.source_revision)))
      (select as_source db)
repeats_unique db (artifact_row r) =
    any (λ x. text_eq x.case_id r.case_id && text_eq x.source_key r.source_key)
      (select as_artifact db)
repeats_unique db (artifact_version_row r) =
    any
      (λ x.
        text_eq x.artifact_id r.artifact_id
        && ((x.version_number == r.version_number) || text_eq x.content_sha256 r.content_sha256))
      (select as_artifact_version db)
repeats_unique db (fact_row r) = has (λ x. x.claim_id) (select as_fact db) r.claim_id
repeats_unique db (edge_row r) =
    any
      (λ x.
        text_eq x.from_kind r.from_kind
        && (text_eq x.from_id r.from_id
            && (text_eq x.relationship_type r.relationship_type
                && (text_eq x.to_kind r.to_kind && text_eq x.to_id r.to_id))))
      (select as_edge db)
repeats_unique db (contradiction_row r) =
    any (λ x. text_eq x.claim_a_id r.claim_a_id && text_eq x.claim_b_id r.claim_b_id)
      (select as_contradiction db)
repeats_unique db (correction_row r) =
    has (λ x. x.corrected_claim_id) (select as_correction db) r.corrected_claim_id
    || has (λ x. x.review_id) (select as_correction db) r.review_id
repeats_unique db (rule_row r) =
    any (λ x. text_eq x.package_id r.package_id && text_eq x.stable_key r.stable_key)
      (select as_rule db)
repeats_unique db (rule_version_row r) =
    any (λ x. text_eq x.rule_id r.rule_id && (x.version == r.version)) (select as_rule_version db)
repeats_unique db (evaluation_row r) =
    any
      (λ x.
        text_eq x.case_id r.case_id
        && (text_eq x.rule_version_id r.rule_version_id && text_eq x.inputs_sha256 r.inputs_sha256))
      (select as_evaluation db)
repeats_unique db _ = false
