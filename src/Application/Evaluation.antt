-- ===== src/Application/Evaluation.antt =====
-- The methods `register_rule` and `evaluate` of `RuleWorkflowService` in
-- crates/casegraph-application/src/rules.rs.
pub mod Sends
pub mod Reaches
use casegraph.Prelude.{ℕ, Option, none, some, List, [], ◌∷◌, ◌++◌, leb, if◌then◌else◌}
use casegraph.Prelude.Int.{ℤ, pos}
use casegraph.Prelude.Result.{Result, ok, err}
use casegraph.Text.{Text, lit}
use casegraph.Text.Number.{i32_max}
use casegraph.Text.Decimal.{decimal}
use casegraph.Domain.Id.{RecordId}
use casegraph.Domain.Temporal.{Date, TimestampMs, TemporalPrecision, checked_add_days, to_iso}
use casegraph.Domain.Model.Workflow.{
  Rule, RuleDefinition, RuleVersion, RuleResult, RuleInput, RuleEvaluation, Obligation,
  ObligationStatus, Deadline, TaskStatus, WorkflowTask, WorkflowMaterialization, GroundedClaim,
}
use casegraph.Domain.Model.Validate.{validate_rule}
use casegraph.Application.Error.{AppError, app_error, not_found, invalid_input, internal}
use casegraph.Application.Monad.{App, pure, lift, lift_domain, require, ◌>>=◌, ◌>>◌}
use casegraph.Application.Ports.{Ports, RegisterRuleBundle, EvaluationBundle, OperationContext}
use casegraph.Application.Service.{correlation, operation_context}
use casegraph.Application.Codec.{Codec, canonical_json, sha256}
use casegraph.Application.Rules.{Decision, decide}

pub record RegisterRuleRequest : Type 0 where
  pub package_id : Text
  pub stable_key : Text
  pub title : Text
  pub version : ℕ
  pub definition : RuleDefinition
  pub effective_from : Option Date
  pub effective_until : Option Date
  pub actor : Text
  pub correlation_id : Option RecordId

pub record EvaluateRuleRequest : Type 0 where
  pub case_id : RecordId
  pub rule_version_id : RecordId
  pub actor : Text
  pub correlation_id : Option RecordId

-- `i32::try_from` of a `u32`.
abbrev pub to_i32 : ℕ → Result AppError ℤ
to_i32 n =
    if leb n i32_max
    then ok (pos n)
    else err (app_error invalid_input (lit "deadline interval is too large"))

abbrev pub first_date : List Date → Option Date
first_date [] = none
first_date (d ∷ dates) = some d

-- The three optional parts of a materialization.
pub record Workflow : Type 0 where
  pub obligation : Option Obligation
  pub deadline : Option Deadline
  pub task : Option WorkflowTask

abbrev pub no_workflow : Workflow
no_workflow = record { obligation = none; deadline = none; task = none }

module _ {W : Type 0} (codec : Codec) (ports : Ports W) where
  open ports use {now, next}

  -- The workflow of a satisfied evaluation.
  unfoldable pub satisfied_workflow :
      RecordId → RuleVersion → RuleEvaluation → List Date → TimestampMs → App W Workflow
  satisfied_workflow case_id version evaluation dates at = do
    let effect = version.definition.effect
    anchor ←
        require (app_error internal (lit "satisfied rule has no deadline anchor"))
          (first_date dates)
    days ← lift (to_i32 effect.deadline_days_after)
    due ← lift_domain (checked_add_days anchor days)
    obligation_id ← next (lit "obligation")
    deadline_id ← next (lit "deadline")
    calculation ← lift (
        canonical_json
          (codec.calculation_json (to_iso anchor) effect.deadline_days_after version.id))
    task_id ← next (lit "task")
    pure (record {
      obligation = some (record {
        id = obligation_id;
        case_id = case_id;
        created_by_event_id = none;
        created_by_rule_evaluation_id = some evaluation.id;
        kind = effect.obligation_kind;
        description = effect.obligation_description;
        status = ObligationStatus.open_obligation;
        created_at = at;
      });
      deadline = some (record {
        id = deadline_id;
        case_id = case_id;
        obligation_id = obligation_id;
        due_earliest = some due;
        due_latest = some due;
        original_expression =
            decimal effect.deadline_days_after
            ++ (lit " days after " ++ effect.deadline_anchor_predicate);
        temporal_precision = TemporalPrecision.day;
        calculation_json = calculation;
        created_at = at;
      });
      task = some (record {
        id = task_id;
        case_id = case_id;
        obligation_id = some obligation_id;
        title = effect.task_title;
        status = TaskStatus.ready;
        created_at = at;
        completed_at = none;
      });
    })

  -- `if result == RuleResult::Satisfied { ... } else { (None, None, None) }`.
  abbrev pub workflow_for :
      RuleResult
      → RecordId
      → RuleVersion
      → RuleEvaluation
      → List Date
      → TimestampMs
      → App W Workflow
  workflow_for RuleResult.satisfied case_id version evaluation dates at =
      satisfied_workflow case_id version evaluation dates at
  workflow_for RuleResult.not_satisfied case_id version evaluation dates at = pure no_workflow
  workflow_for RuleResult.indeterminate case_id version evaluation dates at = pure no_workflow

  -- `evaluate` from the first read of the clock.
  unfoldable pub record_decision :
      EvaluateRuleRequest → RuleVersion → Decision → App W WorkflowMaterialization
  record_decision request version decision = do
    at ← now
    correlation_id ← correlation ports request.correlation_id
    inputs_json ← lift (canonical_json (codec.inputs_json decision.inputs))
    evaluation_id ← next (lit "rule_evaluation")
    let evaluation : RuleEvaluation = record {
      id = evaluation_id;
      case_id = request.case_id;
      rule_version_id = version.id;
      inputs = decision.inputs;
      inputs_sha256 = sha256 codec inputs_json;
      result = decision.verdict.result;
      explanation = decision.verdict.explanation;
      evaluated_at = at;
      evaluator_version = lit "casegraph-equality-v1";
      correlation_id = correlation_id;
    }
    workflow ←
        workflow_for decision.verdict.result request.case_id version evaluation decision.dates at
    audit_id ← next (lit "audit")
    ports.record_evaluation (record {
      materialization = record {
        evaluation = evaluation;
        obligation = workflow.obligation;
        deadline = workflow.deadline;
        task = workflow.task;
      };
      context = record {
        audit_id = audit_id;
        actor = request.actor;
        correlation_id = correlation_id;
        occurred_at = at;
        reason = none;
      };
    })

  unfoldable pub evaluate : EvaluateRuleRequest → App W WorkflowMaterialization
  evaluate request = do
    found ← ports.get_rule_version request.rule_version_id
    version ← require (app_error not_found (lit "rule version was not found")) found
    grounded ← ports.list_grounded_claims request.case_id
    record_decision request version (decide version grounded)

  unfoldable pub register_rule : RegisterRuleRequest → App W RuleVersion
  register_rule request = do
    lift_domain (validate_rule request.definition)
    at ← now
    definition_json ← lift (canonical_json (codec.definition_json request.definition))
    rule_id ← next (lit "rule")
    version_id ← next (lit "rule_version")
    audit_id ← next (lit "audit")
    correlation_id ← correlation ports request.correlation_id
    ports.register_rule (record {
      rule = record {
        id = rule_id;
        package_id = request.package_id;
        stable_key = request.stable_key;
        title = request.title;
        created_at = at;
      };
      version = record {
        id = version_id;
        rule_id = rule_id;
        version = request.version;
        definition = request.definition;
        definition_sha256 = sha256 codec definition_json;
        effective_from = request.effective_from;
        effective_until = request.effective_until;
        created_at = at;
      };
      context = record {
        audit_id = audit_id;
        actor = request.actor;
        correlation_id = correlation_id;
        occurred_at = at;
        reason = none;
      };
    })
