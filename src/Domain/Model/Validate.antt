-- ===== src/Domain/Model/Validate.antt =====
-- The `validate` methods of crates/casegraph-domain/src/model.rs.
use casegraph.Prelude.{
  ℕ, Bool, true, false, not, ◌&&◌, ◌||◌, Option, none, some, List, [], ◌∷◌, ◌++◌, ltb, leb, ◌==◌,
  all, any, length, if◌then◌else◌,
}
use casegraph.Prelude.Result.{Result, ok, err, ◌>>◌, reject_if}
use casegraph.Text.{Text, lit}
use casegraph.Text.Ascii.{is_ascii_hexdigit, is_ascii_uppercase}
use casegraph.Text.Utf8.{bytes, len}
use casegraph.Text.Trim.{trim, count, is_control}
use casegraph.Text.Decimal.{decimal}
use casegraph.Domain.Error.{DomainError, domain_error}
use casegraph.Domain.Temporal.{TimestampMs, timestamp_lt, TemporalValue}
use casegraph.Domain.Temporal
use casegraph.Domain.Model.Evidence.{
  Case, ArtifactVersion, ProvenanceRecord, Claim, AssertionOrigin, external, human, rule, system,
}
use casegraph.Domain.Model.Workflow.{RuleCondition, RuleDefinition}

-- `validate_text`.
unfoldable pub validate_text : Text → Text → ℕ → ℕ → Result DomainError (Unit {0})
validate_text field value min max =
    let length = count (trim value) in
    if not (leb min length && leb length max)
    then err (
        domain_error field
          (lit "trimmed length must be between " ++ (decimal min ++ (lit " and " ++ decimal max))))
    else if any is_control value
    then err (domain_error field (lit "control characters are not allowed"))
    else ok tt

abbrev pub is_some {ℓ} : {A : Type ℓ} → Option A → Bool
is_some none = false
is_some (some a) = true

-- `self.closed_at.is_some_and(|closed| closed < self.created_at)`.
abbrev pub closed_before : Option TimestampMs → TimestampMs → Bool
closed_before none created = false
closed_before (some closed) created = timestamp_lt closed created

-- `Case::validate`.
unfoldable pub validate_case : Case → Result DomainError (Unit {0})
validate_case c = do
  validate_text (lit "case.title") c.title 1 300
  reject_if (closed_before c.closed_at c.created_at)
      (domain_error (lit "case.closed_at") (lit "must not precede creation"))

abbrev pub is_lower_hex : ℕ → Bool
is_lower_hex b = is_ascii_hexdigit b && not (is_ascii_uppercase b)

-- `ArtifactVersion::validate`.
unfoldable pub validate_artifact_version : ArtifactVersion → Result DomainError (Unit {0})
validate_artifact_version v = do
  reject_if (v.version_number == 0)
      (domain_error (lit "artifact_version.version_number") (lit "must be positive"))
  reject_if (not (len v.content_sha256 == 64) || not (all is_lower_hex (bytes v.content_sha256))) (
      domain_error (lit "artifact_version.content_sha256")
        (lit "must be 64 lowercase hexadecimal characters"))
  validate_text (lit "artifact_version.media_type") v.media_type 1 255
  validate_text (lit "artifact_version.storage_key") v.storage_key 1 255

-- `matches!((start, end), (Some(start), Some(end)) if end < start)`.
abbrev pub reversed : Option ℕ → Option ℕ → Bool
reversed (some start) (some end) = ltb end start
reversed (some start) none = false
reversed none end = false

-- `ProvenanceRecord::validate`.
unfoldable pub validate_provenance : ProvenanceRecord → Result DomainError (Unit {0})
validate_provenance p = do
  validate_text (lit "provenance.extraction_method") p.extraction_method 1 100
  validate_text (lit "provenance.extractor_name") p.extractor_name 1 200
  validate_text (lit "provenance.extractor_version") p.extractor_version 1 100
  reject_if (reversed p.text_span_start p.text_span_end)
      (domain_error (lit "provenance.text_span") (lit "end must not precede start"))
  reject_if
      (not (is_some p.model_provider)
        && (is_some p.model_name
            || (is_some p.model_version || is_some p.model_configuration_json)))
      (domain_error (lit "provenance.model_provider")
        (lit "is required when model metadata is present"))

abbrev pub is_external : AssertionOrigin → Bool
is_external external = true
is_external human = false
is_external rule = false
is_external system = false

abbrev validate_temporal : Option TemporalValue → Result DomainError (Unit {0})
validate_temporal none = ok tt
validate_temporal (some t) = Temporal.validate t

-- `Claim::validate`.
unfoldable pub validate_claim : Claim → Result DomainError (Unit {0})
validate_claim c = do
  validate_text (lit "claim.subject_key") c.subject_key 1 300
  validate_text (lit "claim.predicate") c.predicate 1 300
  reject_if (is_external c.origin && not (is_some c.primary_provenance_id)) (
      domain_error (lit "claim.primary_provenance_id")
        (lit "externally derived claims require provenance"))
  validate_temporal c.temporal

-- The loop of `RuleDefinition::validate`.
pub validate_conditions : List RuleCondition → Result DomainError (Unit {0})
validate_conditions [] = ok tt
validate_conditions (c ∷ rest) = do
  validate_text (lit "rule.subject_key") c.subject_key 1 300
  validate_text (lit "rule.predicate") c.predicate 1 300
  validate_conditions rest

-- `RuleDefinition::validate`.
unfoldable pub validate_rule : RuleDefinition → Result DomainError (Unit {0})
unfolding validate_conditions
validate_rule r = do
  reject_if ((length r.all == 0) || ltb 32 (length r.all))
      (domain_error (lit "rule.all") (lit "must contain between 1 and 32 conditions"))
  validate_conditions r.all
  validate_text (lit "rule.obligation_kind") r.effect.obligation_kind 1 200
  validate_text (lit "rule.obligation_description") r.effect.obligation_description 1 1000
  validate_text (lit "rule.deadline_anchor_predicate") r.effect.deadline_anchor_predicate 1 300
  validate_text (lit "rule.task_title") r.effect.task_title 1 500
