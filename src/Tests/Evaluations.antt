-- ===== src/Tests/Evaluations.antt =====
-- The rule service of crates/casegraph-application/src/rules.rs on the logging adapters: the notice
-- is due two days after 28 February 2024.
use casegraph.Prelude.{◌≡◌, refl, sym, ◌↔◌, arith, none, some}
use casegraph.Prelude.Int.{pos, ◌+ℤ◌, ◌-ℤ◌, ◌*ℤ◌}
use casegraph.Prelude.Result.{ok}
use casegraph.Text.{lit}
use casegraph.Domain.Temporal.{Date, date, checked_add_days, days_in_month, days_from_civil}
use casegraph.Domain.Temporal.Valid.{IsValid}
use casegraph.Domain.Temporal.Shift.{ordinal}
use casegraph.Domain.Temporal.Next.{checked_add_days_reaches}
use casegraph.Domain.Model.Workflow.{RuleResult}
use casegraph.Application.Monad.Keeps.{Keeps}
use casegraph.Application.Monad.Ends.{Answers, EndsIn, Answers-pure}
use casegraph.Application.Rules.{decide}
use casegraph.Application.Rules.Established.{IsAnchored, IsEstablished}
use casegraph.Application.Rules.Satisfied.{decide-IsEstablished}
use casegraph.Application.Evaluation.{
  RegisterRuleRequest, EvaluateRuleRequest, register_rule, evaluate,
}
use casegraph.Application.Evaluation.Sends.{IsEvaluation, register_rule-Keeps, evaluate-Keeps}
use casegraph.Application.Evaluation.Reaches.{HasDeadline, evaluate-EndsIn}
use casegraph.Tests.Fixtures.{
  IsSoundLog, IsNoticeRule, AreGroundedClaims, log_ports, log_codec, log-RulePreserves, log-Ready,
  log-Writes, notice_rule, grounded_claims, the_case,
}

abbrev pub evaluate_request : EvaluateRuleRequest
evaluate_request = record {
  case_id = the_case.id;
  rule_version_id = notice_rule.id;
  actor = lit "ada";
  correlation_id = none;
}

abbrev pub register_request : RegisterRuleRequest
register_request = record {
  package_id = lit "leases";
  stable_key = lit "notice";
  title = lit "Notice";
  version = 1;
  definition = notice_rule.definition;
  effective_from = none;
  effective_until = none;
  actor = lit "ada";
  correlation_id = none;
}

decide-IsEstablished_example :
    ((decide notice_rule grounded_claims).verdict.result ≡ RuleResult.satisfied)
    ↔ IsEstablished notice_rule grounded_claims
decide-IsEstablished_example = decide-IsEstablished notice_rule grounded_claims

register_rule-Keeps_example : Keeps IsSoundLog (register_rule log_codec log_ports register_request)
register_rule-Keeps_example =
    register_rule-Keeps log_codec log_ports IsSoundLog IsNoticeRule AreGroundedClaims
      log-RulePreserves register_request

evaluate-Keeps_example : Keeps IsSoundLog (evaluate log_codec log_ports evaluate_request)
evaluate-Keeps_example =
    evaluate-Keeps log_codec log_ports IsSoundLog IsNoticeRule AreGroundedClaims log-RulePreserves
      evaluate_request

abbrev anchor_day : Date
anchor_day = date (pos 2024) 2 28

abbrev due_day : Date
due_day = date (pos 2024) 3 1

anchor_day-IsValid : IsValid anchor_day
unfolding days_in_month
anchor_day-IsValid = record {
  year_in = (omega arith, omega arith);
  month_in = (omega arith, omega arith);
  day_in = (omega arith, omega arith);
}

due_day-IsValid : IsValid due_day
unfolding days_in_month
due_day-IsValid = record {
  year_in = (omega arith, omega arith);
  month_in = (omega arith, omega arith);
  day_in = (omega arith, omega arith);
}

two_days_after : ordinal anchor_day +ℤ pos 2 ≡ ordinal due_day
unfolding days_from_civil ◌+ℤ◌ ◌-ℤ◌ ◌*ℤ◌
two_days_after = refl

due_in_two : checked_add_days anchor_day (pos 2) ≡ ok due_day
due_in_two =
    checked_add_days_reaches anchor_day due_day (pos 2) anchor_day-IsValid due_day-IsValid
      (omega arith, omega arith) two_days_after

only_anchor : (d : Date) → IsAnchored (lit "received_on") grounded_claims d → anchor_day ≡ d
unfolding lit
only_anchor d h = h.agreed.1.0 anchor_day (refl, refl, refl)

notice-HasDeadline : HasDeadline notice_rule grounded_claims
notice-HasDeadline = record {
  fits = omega arith;
  reaches = λ d h. (due_day, rw (sym (only_anchor d h)) due_in_two);
}

notice_rule-found : Answers (λ o. o ≡ some notice_rule) (log_ports.get_rule_version notice_rule.id)
notice_rule-found = Answers-pure _ refl

grounded_claims-listed :
    Answers (λ g. g ≡ grounded_claims) (log_ports.list_grounded_claims the_case.id)
grounded_claims-listed = Answers-pure _ refl

evaluate-EndsIn_example :
    EndsIn log_ports.record_evaluation
      (IsEvaluation (λ v. v ≡ notice_rule) (λ _ g. g ≡ grounded_claims))
      (evaluate log_codec log_ports evaluate_request)
evaluate-EndsIn_example =
    evaluate-EndsIn log_codec log_ports log-Ready log-Writes evaluate_request notice_rule
      grounded_claims notice-HasDeadline notice_rule-found grounded_claims-listed
