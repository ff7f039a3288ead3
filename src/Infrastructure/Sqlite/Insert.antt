-- ===== src/Infrastructure/Sqlite/Insert.antt =====
-- The `insert_*` functions of crates/casegraph-infrastructure/src/sqlite_repository.rs.
use casegraph.Prelude.{Bool, List, Option, [], false, if◌then◌else◌, none, some, true, ◌&&◌, ◌∷◌}
use casegraph.Prelude.Result.{Result, err}
use casegraph.Text.{Text, lit, text_eq}
use casegraph.Domain.Id.{RecordId}
use casegraph.Domain.Temporal.{TimestampMs}
use casegraph.Domain.Model.Evidence.{
  Source, ArtifactVersion, ProvenanceRecord, Observation, Claim, ClaimState, Fact, HumanReview,
  Evidence,
}
use casegraph.Domain.Model.Validate.{validate_artifact_version, validate_provenance, validate_claim}
use casegraph.Application.Error.{AppError, app_error, too_large, invalid_input}
use casegraph.Application.Ports.{OperationContext}
use casegraph.Infrastructure.Sqlite.Rows.{
  ClaimRow, Database, artifact_version_row, audit_row, claim_row, edge_row, evidence_row, fact_row,
  observation_row, provenance_row, review_row, source_row, state_change_row, version_source_row,
}
use casegraph.Infrastructure.Sqlite.Tables.{as_source, select}
use casegraph.Infrastructure.Sqlite.Serde.{
  AuditState, Serde, deterministic_id, parse_id, real_column, to_i64, to_json, traverse,
}
use casegraph.Infrastructure.Sqlite.Codes.{
  assertion_origin, claim_state, evidence_type, review_decision, verification_state,
}
use casegraph.Infrastructure.Sqlite.Tx.{Tx, pure, lift, lift_domain, load, ◌>>=◌, ◌>>◌, for_each}
use casegraph.Infrastructure.Sqlite.Statement.{database_error, insert, insert_or_ignore}
use casegraph.Prelude.Int.{ℤ}

-- `map(RecordId::as_str)` and `map(TimestampMs::get)`.
abbrev pub id_column : Option RecordId → Option Text
id_column none = none
id_column (some id) = some id.value

abbrev pub time_column : Option TimestampMs → Option ℤ
time_column none = none
time_column (some t) = some t.ms

-- `IS`, for which two NULLs are equal.
abbrev pub is_same : Option Text → Option Text → Bool
is_same none none = true
is_same none (some b) = false
is_same (some a) none = false
is_same (some a) (some b) = text_eq a b

abbrev pub first_match : {A : Type 0} → (A → Bool) → List A → Option A
first_match p [] = none
first_match p (a ∷ rest) = let found = first_match p rest in if p a then some a else found

-- The row that `insert_claim` writes, of a claim and the JSON of its values.
abbrev pub claim_row_of : Claim → Text → Option Text → ClaimRow
claim_row_of claim normalized temporal = record {
  id = claim.id.value;
  case_id = claim.case_id.value;
  subject_id = id_column claim.subject_id;
  subject_key = claim.subject_key;
  predicate = claim.predicate;
  original_value = claim.original_value;
  normalized_value_json = normalized;
  origin = assertion_origin claim.origin;
  initial_state = claim_state claim.initial_state;
  primary_provenance_id = id_column claim.primary_provenance_id;
  interpretation_confidence = real_column claim.interpretation_confidence;
  created_at_ms = claim.created_at.ms;
  temporal_json = temporal;
}

module _ (serde : Serde) where
  -- `query_row` and `parse_id`, of the source with the same key.
  abbrev pub existing_source : Source → Database → Result AppError RecordId
  existing_source source db =
      elim (first_match
        (λ r.
          text_eq r.case_id source.case_id.value
          && (text_eq r.connector source.connector
              && (text_eq r.locator source.locator
                  && is_same r.source_revision source.source_revision)))
        (select as_source db)) [ none ↦ err (database_error none) | some r ↦ parse_id r.id ]

  abbrev pub source_or_existing : Source → Bool → Tx RecordId
  source_or_existing source true = pure source.id
  source_or_existing source false = load (existing_source source)

  -- `insert_or_get_source`.
  unfoldable pub insert_or_get_source : Source → Tx RecordId
  insert_or_get_source source = do
    inserted ← insert_or_ignore serde (
        source_row (record {
          id = source.id.value;
          case_id = source.case_id.value;
          connector = source.connector;
          locator = source.locator;
          external_record_id = source.external_record_id;
          endpoint = source.endpoint;
          source_revision = source.source_revision;
          retrieved_at_ms = source.retrieved_at.ms;
        }))
    source_or_existing source inserted

  -- `insert_artifact_version`.
  unfoldable pub insert_artifact_version : ArtifactVersion → Tx (Unit {0})
  insert_artifact_version version = do
    lift_domain (validate_artifact_version version)
    content_length ← lift (
        to_i64 (app_error too_large (lit "artifact length exceeds database range"))
          version.content_length)
    insert serde (
        artifact_version_row (record {
          id = version.id.value;
          artifact_id = version.artifact_id.value;
          version_number = version.version_number;
          content_sha256 = version.content_sha256;
          content_length = content_length;
          media_type = version.media_type;
          storage_key = version.storage_key;
          ingested_at_ms = version.ingested_at.ms;
          received_at_ms = time_column version.received_at;
          original_filename = version.original_filename;
        }))

  -- `associate_source`.
  unfoldable pub associate_source : RecordId → RecordId → TimestampMs → Tx (Unit {0})
  associate_source version_id source_id at = do
    inserted ← insert_or_ignore serde (
        version_source_row (record {
          artifact_version_id = version_id.value;
          source_id = source_id.value;
          associated_at_ms = at.ms;
        }))
    pure tt

  -- `insert_provenance`.
  unfoldable pub insert_provenance : ProvenanceRecord → Tx (Unit {0})
  insert_provenance p = do
    lift_domain (validate_provenance p)
    start ← lift (
        traverse (to_i64 (app_error invalid_input (lit "text span start exceeds database range")))
          p.text_span_start)
    end ← lift (
        traverse (to_i64 (app_error invalid_input (lit "text span end exceeds database range")))
          p.text_span_end)
    insert serde (
        provenance_row (record {
          id = p.id.value;
          artifact_version_id = id_column p.artifact_version_id;
          connector = p.connector;
          endpoint = p.endpoint;
          external_record_id = p.external_record_id;
          source_field = p.source_field;
          page_number = p.page_number;
          paragraph_number = p.paragraph_number;
          text_span_start = start;
          text_span_end = end;
          table_number = p.table_number;
          row_number = p.row_number;
          column_number = p.column_number;
          bounding_region_json = p.bounding_region_json;
          extraction_method = p.extraction_method;
          extractor_name = p.extractor_name;
          extractor_version = p.extractor_version;
          model_provider = p.model_provider;
          model_name = p.model_name;
          model_version = p.model_version;
          model_configuration_json = p.model_configuration_json;
          extracted_at_ms = p.extracted_at.ms;
          confidence = real_column p.confidence;
          verification_state = verification_state p.verification_state;
          original_representation = p.original_representation;
          correlation_id = p.correlation_id.value;
        }))

  -- `insert_observation`.
  unfoldable pub insert_observation : Observation → Tx (Unit {0})
  insert_observation o = do
    normalized ← lift (traverse (λ v. to_json (serde.value_json v)) o.normalized_value)
    insert serde (
        observation_row (record {
          id = o.id.value;
          case_id = o.case_id.value;
          subject_id = id_column o.subject_id;
          predicate = o.predicate;
          original_value = o.original_value;
          normalized_value_json = normalized;
          provenance_id = o.provenance_id.value;
          extraction_confidence = real_column o.extraction_confidence;
          observed_at_ms = o.observed_at.ms;
        }))

  -- `insert_claim`.
  unfoldable pub insert_claim : Claim → Tx (Unit {0})
  insert_claim claim = do
    lift_domain (validate_claim claim)
    normalized ← lift (to_json (serde.value_json claim.normalized_value))
    temporal ← lift (traverse (λ t. to_json (serde.temporal_json t)) claim.temporal)
    insert serde (claim_row (claim_row_of claim normalized temporal))

  -- `insert_evidence`.
  unfoldable pub insert_evidence : Evidence → Tx (Unit {0})
  insert_evidence e = insert serde (
      evidence_row (record {
        id = e.id.value;
        case_id = e.case_id.value;
        evidence_type = evidence_type e.evidence_type;
        provenance_id = id_column e.provenance_id;
        description = e.description;
        created_at_ms = e.created_at.ms;
      }))

  -- `insert_edge`.
  unfoldable pub insert_edge :
      RecordId → RecordId → Text → RecordId → Text → Text → RecordId → TimestampMs → Tx (Unit {0})
  insert_edge edge_id case_id from_kind from_id relationship to_kind to_id created_at = do
    inserted ← insert_or_ignore serde (
        edge_row (record {
          id = edge_id.value;
          case_id = case_id.value;
          from_kind = from_kind;
          from_id = from_id.value;
          relationship_type = relationship;
          to_kind = to_kind;
          to_id = to_id.value;
          created_at_ms = created_at.ms;
        }))
    pure tt

  -- One turn of the loop of `insert_contradiction_edges`.
  unfoldable pub insert_contradicts : RecordId → TimestampMs → RecordId × RecordId → Tx (Unit {0})
  insert_contradicts case_id at (from, to) = do
    edge_id ←
        lift (deterministic_id serde (lit "edge") (from.value ∷ lit "contradicts" ∷ to.value ∷ []))
    insert_edge edge_id case_id (lit "claim") from (lit "contradicts") (lit "claim") to at

  -- `insert_contradiction_edges`.
  unfoldable pub insert_contradiction_edges :
      RecordId → RecordId → RecordId → TimestampMs → Tx (Unit {0})
  insert_contradiction_edges case_id left right at =
      for_each ((left, right) ∷ (right, left) ∷ []) (insert_contradicts case_id at)

  -- `insert_review`.
  unfoldable pub insert_review : HumanReview → Tx (Unit {0})
  insert_review review = insert serde (
      review_row (record {
        id = review.id.value;
        case_id = review.case_id.value;
        target_kind = review.target_kind;
        target_id = review.target_id.value;
        decision = review_decision review.decision;
        actor = review.actor;
        rationale = review.rationale;
        reviewed_at_ms = review.reviewed_at.ms;
        correlation_id = review.correlation_id.value;
      }))

  -- `insert_state_change`.
  unfoldable pub insert_state_change :
      RecordId → RecordId → ClaimState → Text → Option Text → TimestampMs → RecordId → Tx (Unit {0})
  insert_state_change id claim_id state actor reason changed_at correlation_id = do
    inserted ← insert_or_ignore serde (
        state_change_row (record {
          id = id.value;
          claim_id = claim_id.value;
          state = claim_state state;
          actor = actor;
          reason = reason;
          changed_at_ms = changed_at.ms;
          correlation_id = correlation_id.value;
        }))
    pure tt

  -- `insert_fact`.
  unfoldable pub insert_fact : Fact → Tx (Unit {0})
  insert_fact fact = do
    value ← lift (to_json (serde.value_json fact.established_value))
    insert serde (
        fact_row (record {
          id = fact.id.value;
          case_id = fact.case_id.value;
          claim_id = fact.claim_id.value;
          established_value_json = value;
          established_at_ms = fact.established_at.ms;
          established_by = fact.established_by;
          verification_state = lit "verified";
        }))

  -- `insert_audit`; no caller passes a previous state.
  unfoldable pub insert_audit :
      OperationContext → Option RecordId → Text → Text → RecordId → AuditState → Tx (Unit {0})
  insert_audit context case_id operation target_kind target_id state = do
    resulting ← lift (to_json (serde.state_json state))
    insert serde (
        audit_row (record {
          id = context.audit_id.value;
          case_id = id_column case_id;
          operation = operation;
          actor = context.actor;
          target_kind = target_kind;
          target_id = target_id.value;
          previous_state_json = none;
          resulting_state_json = resulting;
          reason = context.reason;
          occurred_at_ms = context.occurred_at.ms;
          correlation_id = context.correlation_id.value;
        }))
