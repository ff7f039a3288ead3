-- ===== src/Infrastructure/Sqlite/Codes.antt =====
-- The texts that stand for enums in the database: the codes of
-- crates/casegraph-infrastructure/src/sqlite_repository.rs and their parsers.
pub mod RoundTrip
use casegraph.Prelude.{◌++◌, if◌then◌else◌}
use casegraph.Prelude.Result.{Result, ok, err}
use casegraph.Text.{Text, lit, text_eq}
use casegraph.Domain.Temporal.{TemporalPrecision}
use casegraph.Domain.Model.Evidence.{
  CaseStatus, AssertionOrigin, ClaimState, VerificationState, EvidenceType, ReviewDecision,
  ContradictionStatus, DetectionMethod,
}
use casegraph.Domain.Model.Workflow.{RuleResult, ObligationStatus, TaskStatus}
use casegraph.Application.Error.{AppError, app_error, storage}

abbrev pub storage_enum : Text → AppError
storage_enum name = app_error storage (lit "database contains an invalid " ++ name)

abbrev pub case_status : CaseStatus → Text
case_status CaseStatus.open_case = lit "open"
case_status CaseStatus.suspended = lit "suspended"
case_status CaseStatus.closed = lit "closed"

unfoldable pub parse_case_status : Text → Result AppError CaseStatus
parse_case_status value =
    if text_eq value (lit "open")
    then ok CaseStatus.open_case
    else if text_eq value (lit "suspended")
    then ok CaseStatus.suspended
    else if text_eq value (lit "closed")
    then ok CaseStatus.closed
    else err (storage_enum (lit "case status"))

abbrev pub assertion_origin : AssertionOrigin → Text
assertion_origin AssertionOrigin.external = lit "external"
assertion_origin AssertionOrigin.human = lit "human"
assertion_origin AssertionOrigin.rule = lit "rule"
assertion_origin AssertionOrigin.system = lit "system"

unfoldable pub parse_assertion_origin : Text → Result AppError AssertionOrigin
parse_assertion_origin value =
    if text_eq value (lit "external")
    then ok AssertionOrigin.external
    else if text_eq value (lit "human")
    then ok AssertionOrigin.human
    else if text_eq value (lit "rule")
    then ok AssertionOrigin.rule
    else if text_eq value (lit "system")
    then ok AssertionOrigin.system
    else err (storage_enum (lit "assertion origin"))

abbrev pub claim_state : ClaimState → Text
claim_state ClaimState.observed = lit "observed"
claim_state ClaimState.extracted = lit "extracted"
claim_state ClaimState.inferred = lit "inferred"
claim_state ClaimState.corroborated = lit "corroborated"
claim_state ClaimState.disputed = lit "disputed"
claim_state ClaimState.contradicted = lit "contradicted"
claim_state ClaimState.superseded = lit "superseded"
claim_state ClaimState.verified = lit "verified"
claim_state ClaimState.rejected = lit "rejected"
claim_state ClaimState.unresolved = lit "unresolved"

unfoldable pub parse_claim_state : Text → Result AppError ClaimState
parse_claim_state value =
    if text_eq value (lit "observed")
    then ok ClaimState.observed
    else if text_eq value (lit "extracted")
    then ok ClaimState.extracted
    else if text_eq value (lit "inferred")
    then ok ClaimState.inferred
    else if text_eq value (lit "corroborated")
    then ok ClaimState.corroborated
    else if text_eq value (lit "disputed")
    then ok ClaimState.disputed
    else if text_eq value (lit "contradicted")
    then ok ClaimState.contradicted
    else if text_eq value (lit "superseded")
    then ok ClaimState.superseded
    else if text_eq value (lit "verified")
    then ok ClaimState.verified
    else if text_eq value (lit "rejected")
    then ok ClaimState.rejected
    else if text_eq value (lit "unresolved")
    then ok ClaimState.unresolved
    else err (storage_enum (lit "claim state"))

abbrev pub verification_state : VerificationState → Text
verification_state VerificationState.not_reviewed = lit "not_reviewed"
verification_state VerificationState.verified = lit "verified"
verification_state VerificationState.rejected = lit "rejected"
verification_state VerificationState.corrected = lit "corrected"

unfoldable pub parse_verification_state : Text → Result AppError VerificationState
parse_verification_state value =
    if text_eq value (lit "not_reviewed")
    then ok VerificationState.not_reviewed
    else if text_eq value (lit "verified")
    then ok VerificationState.verified
    else if text_eq value (lit "rejected")
    then ok VerificationState.rejected
    else if text_eq value (lit "corrected")
    then ok VerificationState.corrected
    else err (storage_enum (lit "verification state"))

abbrev pub evidence_type : EvidenceType → Text
evidence_type EvidenceType.artifact_excerpt = lit "artifact_excerpt"
evidence_type EvidenceType.structured_field = lit "structured_field"
evidence_type EvidenceType.human_attestation = lit "human_attestation"
evidence_type EvidenceType.rule_result = lit "rule_result"

abbrev pub review_decision : ReviewDecision → Text
review_decision ReviewDecision.verified = lit "verified"
review_decision ReviewDecision.rejected = lit "rejected"
review_decision ReviewDecision.corrected = lit "corrected"
review_decision ReviewDecision.needs_more_evidence = lit "needs_more_evidence"

unfoldable pub parse_contradiction_status : Text → Result AppError ContradictionStatus
parse_contradiction_status value =
    if text_eq value (lit "unresolved")
    then ok ContradictionStatus.unresolved
    else if text_eq value (lit "resolved")
    then ok ContradictionStatus.resolved
    else if text_eq value (lit "superseded")
    then ok ContradictionStatus.superseded
    else err (storage_enum (lit "contradiction status"))

unfoldable pub parse_detection_method : Text → Result AppError DetectionMethod
parse_detection_method value =
    if text_eq value (lit "automatic")
    then ok DetectionMethod.automatic
    else if text_eq value (lit "human")
    then ok DetectionMethod.human
    else err (storage_enum (lit "detection method"))

abbrev pub rule_result : RuleResult → Text
rule_result RuleResult.satisfied = lit "satisfied"
rule_result RuleResult.not_satisfied = lit "not_satisfied"
rule_result RuleResult.indeterminate = lit "indeterminate"

unfoldable pub parse_rule_result : Text → Result AppError RuleResult
parse_rule_result value =
    if text_eq value (lit "satisfied")
    then ok RuleResult.satisfied
    else if text_eq value (lit "not_satisfied")
    then ok RuleResult.not_satisfied
    else if text_eq value (lit "indeterminate")
    then ok RuleResult.indeterminate
    else err (storage_enum (lit "rule result"))

abbrev pub obligation_status : ObligationStatus → Text
obligation_status ObligationStatus.open_obligation = lit "open"
obligation_status ObligationStatus.satisfied = lit "satisfied"
obligation_status ObligationStatus.waived = lit "waived"
obligation_status ObligationStatus.expired = lit "expired"
obligation_status ObligationStatus.cancelled = lit "cancelled"

unfoldable pub parse_obligation_status : Text → Result AppError ObligationStatus
parse_obligation_status value =
    if text_eq value (lit "open")
    then ok ObligationStatus.open_obligation
    else if text_eq value (lit "satisfied")
    then ok ObligationStatus.satisfied
    else if text_eq value (lit "waived")
    then ok ObligationStatus.waived
    else if text_eq value (lit "expired")
    then ok ObligationStatus.expired
    else if text_eq value (lit "cancelled")
    then ok ObligationStatus.cancelled
    else err (storage_enum (lit "obligation status"))

abbrev pub temporal_precision : TemporalPrecision → Text
temporal_precision TemporalPrecision.instant = lit "instant"
temporal_precision TemporalPrecision.day = lit "day"
temporal_precision TemporalPrecision.month = lit "month"
temporal_precision TemporalPrecision.year = lit "year"
temporal_precision TemporalPrecision.before = lit "before"
temporal_precision TemporalPrecision.after = lit "after"
temporal_precision TemporalPrecision.range = lit "range"
temporal_precision TemporalPrecision.unknown = lit "unknown"

unfoldable pub parse_temporal_precision : Text → Result AppError TemporalPrecision
parse_temporal_precision value =
    if text_eq value (lit "instant")
    then ok TemporalPrecision.instant
    else if text_eq value (lit "day")
    then ok TemporalPrecision.day
    else if text_eq value (lit "month")
    then ok TemporalPrecision.month
    else if text_eq value (lit "year")
    then ok TemporalPrecision.year
    else if text_eq value (lit "before")
    then ok TemporalPrecision.before
    else if text_eq value (lit "after")
    then ok TemporalPrecision.after
    else if text_eq value (lit "range")
    then ok TemporalPrecision.range
    else if text_eq value (lit "unknown")
    then ok TemporalPrecision.unknown
    else err (storage_enum (lit "temporal precision"))

abbrev pub task_status : TaskStatus → Text
task_status TaskStatus.pending = lit "pending"
task_status TaskStatus.ready = lit "ready"
task_status TaskStatus.in_progress = lit "in_progress"
task_status TaskStatus.blocked = lit "blocked"
task_status TaskStatus.done = lit "done"
task_status TaskStatus.cancelled = lit "cancelled"

unfoldable pub parse_task_status : Text → Result AppError TaskStatus
parse_task_status value =
    if text_eq value (lit "pending")
    then ok TaskStatus.pending
    else if text_eq value (lit "ready")
    then ok TaskStatus.ready
    else if text_eq value (lit "in_progress")
    then ok TaskStatus.in_progress
    else if text_eq value (lit "blocked")
    then ok TaskStatus.blocked
    else if text_eq value (lit "done")
    then ok TaskStatus.done
    else if text_eq value (lit "cancelled")
    then ok TaskStatus.cancelled
    else err (storage_enum (lit "task status"))
