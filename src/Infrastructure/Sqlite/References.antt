-- ===== src/Infrastructure/Sqlite/References.antt =====
-- The REFERENCES constraints of the tables in crates/casegraph-infrastructure/migrations.
use casegraph.Prelude.{Bool, true, ◌&&◌}
use casegraph.Text.{Text}
use casegraph.Infrastructure.Sqlite.Rows.{
  Database, Row, artifact_row, artifact_version_row, audit_row, claim_row, contradiction_row,
  correction_row, deadline_row, edge_row, evaluation_evidence_row, evaluation_row, evidence_row,
  fact_row, obligation_row, observation_row, provenance_row, review_row, rule_version_row,
  source_row, state_change_row, task_row, version_source_row,
}
use casegraph.Infrastructure.Sqlite.Tables.{
  as_artifact, as_artifact_version, as_case, as_claim, as_entity, as_evaluation, as_event,
  as_evidence, as_obligation, as_provenance, as_review, as_rule, as_rule_version, as_source, select,
}
use casegraph.Infrastructure.Sqlite.Schema.{has, null_or}

abbrev pub has_case : Database → Text → Bool
has_case db = has (λ x. x.id) (select as_case db)

abbrev pub has_source : Database → Text → Bool
has_source db = has (λ x. x.id) (select as_source db)

abbrev pub has_artifact : Database → Text → Bool
has_artifact db = has (λ x. x.id) (select as_artifact db)

abbrev pub has_version : Database → Text → Bool
has_version db = has (λ x. x.id) (select as_artifact_version db)

abbrev pub has_provenance : Database → Text → Bool
has_provenance db = has (λ x. x.id) (select as_provenance db)

abbrev pub has_entity : Database → Text → Bool
has_entity db = has (λ x. x) (select as_entity db)

abbrev pub has_claim : Database → Text → Bool
has_claim db = has (λ x. x.id) (select as_claim db)

abbrev pub has_evaluation : Database → Text → Bool
has_evaluation db = has (λ x. x.id) (select as_evaluation db)

abbrev pub has_obligation : Database → Text → Bool
has_obligation db = has (λ x. x.id) (select as_obligation db)

-- Every reference of a row finds a row.
unfoldable pub refers : Database → Row → Bool
refers db (source_row r) = has_case db r.case_id
refers db (artifact_row r) = has_case db r.case_id && has_source db r.source_id
refers db (artifact_version_row r) = has_artifact db r.artifact_id
refers db (version_source_row r) = has_version db r.artifact_version_id && has_source db r.source_id
refers db (provenance_row r) = null_or (has_version db) r.artifact_version_id
refers db (observation_row r) =
    has_case db r.case_id
    && (null_or (has_entity db) r.subject_id && has_provenance db r.provenance_id)
refers db (claim_row r) =
    has_case db r.case_id
    && (null_or (has_entity db) r.subject_id && null_or (has_provenance db) r.primary_provenance_id)
refers db (state_change_row r) = has_claim db r.claim_id
refers db (fact_row r) = has_case db r.case_id && has_claim db r.claim_id
refers db (evidence_row r) = has_case db r.case_id && null_or (has_provenance db) r.provenance_id
refers db (edge_row r) = has_case db r.case_id
refers db (contradiction_row r) =
    has_case db r.case_id
    && (has_claim db r.claim_a_id
        && (has_claim db r.claim_b_id && null_or (has_claim db) r.resolution_claim_id))
refers db (review_row r) = has_case db r.case_id
refers db (correction_row r) =
    has_case db r.case_id
    && (has_claim db r.original_claim_id
        && (has_claim db r.corrected_claim_id
            && (has (λ x. x.id) (select as_review db) r.review_id
                && has_provenance db r.provenance_id)))
refers db (rule_version_row r) = has (λ x. x.id) (select as_rule db) r.rule_id
refers db (evaluation_row r) =
    has_case db r.case_id && has (λ x. x.id) (select as_rule_version db) r.rule_version_id
refers db (evaluation_evidence_row r) =
    has_evaluation db r.rule_evaluation_id && has (λ x. x.id) (select as_evidence db) r.evidence_id
refers db (obligation_row r) =
    has_case db r.case_id
    && (null_or (has (λ x. x) (select as_event db)) r.created_by_event_id
        && null_or (has_evaluation db) r.created_by_rule_evaluation_id)
refers db (deadline_row r) = has_case db r.case_id && has_obligation db r.obligation_id
refers db (task_row r) = has_case db r.case_id && null_or (has_obligation db) r.obligation_id
refers db (audit_row r) = null_or (has_case db) r.case_id
refers db _ = true
