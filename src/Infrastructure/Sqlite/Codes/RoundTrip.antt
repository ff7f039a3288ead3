-- ===== src/Infrastructure/Sqlite/Codes/RoundTrip.antt =====
-- The parsers of the database's enums accept exactly the codes that are written.
use casegraph.Prelude.{◌≡◌, ◌↔◌, refl, arith}
use casegraph.Prelude.Result.{Result, ok}
use casegraph.Text.{Text, lit, text_eq, text_eq_iff}
use casegraph.Domain.Temporal.{TemporalPrecision}
use casegraph.Domain.Model.Evidence.{CaseStatus, AssertionOrigin, ClaimState, VerificationState}
use casegraph.Domain.Model.Workflow.{RuleResult, ObligationStatus, TaskStatus}
use casegraph.Application.Error.{AppError}
use casegraph.Infrastructure.Sqlite.Codes.{
  case_status, parse_case_status, assertion_origin, parse_assertion_origin, claim_state,
  parse_claim_state, verification_state, parse_verification_state, rule_result, parse_rule_result,
  obligation_status, parse_obligation_status, temporal_precision, parse_temporal_precision,
  task_status, parse_task_status,
}

-- A text is read as a value just when it is the code of that value.
abbrev pub IsCode : {A : Type 0} → (A → Text) → (Text → Result AppError A) → Type 0
IsCode {A = A} code parse = (s : Text) (x : A) → (parse s ≡ ok x) ↔ (s ≡ code x)

case_status_refl : (x : CaseStatus) → parse_case_status (case_status x) ≡ ok x
unfolding parse_case_status text_eq lit
case_status_refl CaseStatus.open_case = refl
case_status_refl CaseStatus.suspended = refl
case_status_refl CaseStatus.closed = refl

case_status-IsCode : IsCode case_status parse_case_status
unfolding parse_case_status
case_status-IsCode s x = (
  λ h. ground (
    arith,
    text_eq_iff s (lit "open"),
    text_eq_iff s (lit "suspended"),
    text_eq_iff s (lit "closed"),
  ),
  λ e. rw e (case_status_refl x),
)

assertion_origin_refl : (x : AssertionOrigin) → parse_assertion_origin (assertion_origin x) ≡ ok x
unfolding parse_assertion_origin text_eq lit
assertion_origin_refl AssertionOrigin.external = refl
assertion_origin_refl AssertionOrigin.human = refl
assertion_origin_refl AssertionOrigin.rule = refl
assertion_origin_refl AssertionOrigin.system = refl

assertion_origin-IsCode : IsCode assertion_origin parse_assertion_origin
unfolding parse_assertion_origin
assertion_origin-IsCode s x = (
  λ h. ground (
    arith,
    text_eq_iff s (lit "external"),
    text_eq_iff s (lit "human"),
    text_eq_iff s (lit "rule"),
    text_eq_iff s (lit "system"),
  ),
  λ e. rw e (assertion_origin_refl x),
)

claim_state_refl : (x : ClaimState) → parse_claim_state (claim_state x) ≡ ok x
unfolding parse_claim_state text_eq lit
claim_state_refl ClaimState.observed = refl
claim_state_refl ClaimState.extracted = refl
claim_state_refl ClaimState.inferred = refl
claim_state_refl ClaimState.corroborated = refl
claim_state_refl ClaimState.disputed = refl
claim_state_refl ClaimState.contradicted = refl
claim_state_refl ClaimState.superseded = refl
claim_state_refl ClaimState.verified = refl
claim_state_refl ClaimState.rejected = refl
claim_state_refl ClaimState.unresolved = refl

claim_state-IsCode : IsCode claim_state parse_claim_state
unfolding parse_claim_state
claim_state-IsCode s x = (
  λ h. ground (
    arith,
    text_eq_iff s (lit "observed"),
    text_eq_iff s (lit "extracted"),
    text_eq_iff s (lit "inferred"),
    text_eq_iff s (lit "corroborated"),
    text_eq_iff s (lit "disputed"),
    text_eq_iff s (lit "contradicted"),
    text_eq_iff s (lit "superseded"),
    text_eq_iff s (lit "verified"),
    text_eq_iff s (lit "rejected"),
    text_eq_iff s (lit "unresolved"),
  ),
  λ e. rw e (claim_state_refl x),
)

verification_state_refl :
    (x : VerificationState) → parse_verification_state (verification_state x) ≡ ok x
unfolding parse_verification_state text_eq lit
verification_state_refl VerificationState.not_reviewed = refl
verification_state_refl VerificationState.verified = refl
verification_state_refl VerificationState.rejected = refl
verification_state_refl VerificationState.corrected = refl

verification_state-IsCode : IsCode verification_state parse_verification_state
unfolding parse_verification_state
verification_state-IsCode s x = (
  λ h. ground (
    arith,
    text_eq_iff s (lit "not_reviewed"),
    text_eq_iff s (lit "verified"),
    text_eq_iff s (lit "rejected"),
    text_eq_iff s (lit "corrected"),
  ),
  λ e. rw e (verification_state_refl x),
)

rule_result_refl : (x : RuleResult) → parse_rule_result (rule_result x) ≡ ok x
unfolding parse_rule_result text_eq lit
rule_result_refl RuleResult.satisfied = refl
rule_result_refl RuleResult.not_satisfied = refl
rule_result_refl RuleResult.indeterminate = refl

rule_result-IsCode : IsCode rule_result parse_rule_result
unfolding parse_rule_result
rule_result-IsCode s x = (
  λ h. ground (
    arith,
    text_eq_iff s (lit "satisfied"),
    text_eq_iff s (lit "not_satisfied"),
    text_eq_iff s (lit "indeterminate"),
  ),
  λ e. rw e (rule_result_refl x),
)

obligation_status_refl :
    (x : ObligationStatus) → parse_obligation_status (obligation_status x) ≡ ok x
unfolding parse_obligation_status text_eq lit
obligation_status_refl ObligationStatus.open_obligation = refl
obligation_status_refl ObligationStatus.satisfied = refl
obligation_status_refl ObligationStatus.waived = refl
obligation_status_refl ObligationStatus.expired = refl
obligation_status_refl ObligationStatus.cancelled = refl

obligation_status-IsCode : IsCode obligation_status parse_obligation_status
unfolding parse_obligation_status
obligation_status-IsCode s x = (
  λ h. ground (
    arith,
    text_eq_iff s (lit "open"),
    text_eq_iff s (lit "satisfied"),
    text_eq_iff s (lit "waived"),
    text_eq_iff s (lit "expired"),
    text_eq_iff s (lit "cancelled"),
  ),
  λ e. rw e (obligation_status_refl x),
)

temporal_precision_refl :
    (x : TemporalPrecision) → parse_temporal_precision (temporal_precision x) ≡ ok x
unfolding parse_temporal_precision text_eq lit
temporal_precision_refl TemporalPrecision.instant = refl
temporal_precision_refl TemporalPrecision.day = refl
temporal_precision_refl TemporalPrecision.month = refl
temporal_precision_refl TemporalPrecision.year = refl
temporal_precision_refl TemporalPrecision.before = refl
temporal_precision_refl TemporalPrecision.after = refl
temporal_precision_refl TemporalPrecision.range = refl
temporal_precision_refl TemporalPrecision.unknown = refl

temporal_precision-IsCode : IsCode temporal_precision parse_temporal_precision
unfolding parse_temporal_precision
temporal_precision-IsCode s x = (
  λ h. ground (
    arith,
    text_eq_iff s (lit "instant"),
    text_eq_iff s (lit "day"),
    text_eq_iff s (lit "month"),
    text_eq_iff s (lit "year"),
    text_eq_iff s (lit "before"),
    text_eq_iff s (lit "after"),
    text_eq_iff s (lit "range"),
    text_eq_iff s (lit "unknown"),
  ),
  λ e. rw e (temporal_precision_refl x),
)

task_status_refl : (x : TaskStatus) → parse_task_status (task_status x) ≡ ok x
unfolding parse_task_status text_eq lit
task_status_refl TaskStatus.pending = refl
task_status_refl TaskStatus.ready = refl
task_status_refl TaskStatus.in_progress = refl
task_status_refl TaskStatus.blocked = refl
task_status_refl TaskStatus.done = refl
task_status_refl TaskStatus.cancelled = refl

task_status-IsCode : IsCode task_status parse_task_status
unfolding parse_task_status
task_status-IsCode s x = (
  λ h. ground (
    arith,
    text_eq_iff s (lit "pending"),
    text_eq_iff s (lit "ready"),
    text_eq_iff s (lit "in_progress"),
    text_eq_iff s (lit "blocked"),
    text_eq_iff s (lit "done"),
    text_eq_iff s (lit "cancelled"),
  ),
  λ e. rw e (task_status_refl x),
)

-- Each enum is read back from the text that is written for it, and from no other text: the parsers
-- of case statuses, assertion origins, claim states, verification states, rule results, obligation
-- statuses, temporal precisions and task statuses accept exactly the codes.
pub codes-IsCode :
    IsCode case_status parse_case_status
    × (IsCode assertion_origin parse_assertion_origin
        × (IsCode claim_state parse_claim_state
            × (IsCode verification_state parse_verification_state
                × (IsCode rule_result parse_rule_result
                    × (IsCode obligation_status parse_obligation_status
                        × (IsCode temporal_precision parse_temporal_precision
                            × IsCode task_status parse_task_status))))))
codes-IsCode = (
  case_status-IsCode,
  (
    assertion_origin-IsCode,
    (
      claim_state-IsCode,
      (
        verification_state-IsCode,
        (
          rule_result-IsCode,
          (obligation_status-IsCode, (temporal_precision-IsCode, task_status-IsCode)),
        ),
      ),
    ),
  ),
)
