-- ===== src/Domain/Model/Workflow.antt =====
-- Rules, evaluations, workflow and grounded answers: crates/casegraph-domain/src/model.rs.
use casegraph.Prelude.{ℕ, Option, List}
use casegraph.Text.{Text}
use casegraph.Domain.Id.{RecordId}
use casegraph.Domain.Temporal.{TimestampMs, Date, TemporalPrecision}
use casegraph.Domain.Value.{KnowledgeValue}
use casegraph.Domain.Model.Evidence.{Claim, ClaimState}

pub record Rule : Type 0 where
  pub id : RecordId
  pub package_id : Text
  pub stable_key : Text
  pub title : Text
  pub created_at : TimestampMs

pub record RuleCondition : Type 0 where
  pub subject_key : Text
  pub predicate : Text
  pub expected : KnowledgeValue

pub record WorkflowEffect : Type 0 where
  pub obligation_kind : Text
  pub obligation_description : Text
  pub deadline_anchor_predicate : Text
  pub deadline_days_after : ℕ
  pub task_title : Text

pub record RuleDefinition : Type 0 where
  pub all : List RuleCondition
  pub effect : WorkflowEffect

pub record RuleVersion : Type 0 where
  pub id : RecordId
  pub rule_id : RecordId
  pub version : ℕ
  pub definition : RuleDefinition
  pub definition_sha256 : Text
  pub effective_from : Option Date
  pub effective_until : Option Date
  pub created_at : TimestampMs

pub data RuleResult : Type 0 where
  satisfied not_satisfied indeterminate : RuleResult

pub record RuleInput : Type 0 where
  pub claim_id : RecordId
  pub evidence_ids : List RecordId
  pub subject_key : Text
  pub predicate : Text
  pub value : KnowledgeValue

pub record RuleEvaluation : Type 0 where
  pub id : RecordId
  pub case_id : RecordId
  pub rule_version_id : RecordId
  pub inputs : List RuleInput
  pub inputs_sha256 : Text
  pub result : RuleResult
  pub explanation : Text
  pub evaluated_at : TimestampMs
  pub evaluator_version : Text
  pub correlation_id : RecordId

pub data ObligationStatus : Type 0 where
  open_obligation satisfied waived expired cancelled : ObligationStatus

pub record Obligation : Type 0 where
  pub id : RecordId
  pub case_id : RecordId
  pub created_by_event_id : Option RecordId
  pub created_by_rule_evaluation_id : Option RecordId
  pub kind : Text
  pub description : Text
  pub status : ObligationStatus
  pub created_at : TimestampMs

pub record Deadline : Type 0 where
  pub id : RecordId
  pub case_id : RecordId
  pub obligation_id : RecordId
  pub due_earliest : Option Date
  pub due_latest : Option Date
  pub original_expression : Text
  pub temporal_precision : TemporalPrecision
  pub calculation_json : Text
  pub created_at : TimestampMs

pub data TaskStatus : Type 0 where
  pending ready in_progress blocked done cancelled : TaskStatus

pub record WorkflowTask : Type 0 where
  pub id : RecordId
  pub case_id : RecordId
  pub obligation_id : Option RecordId
  pub title : Text
  pub status : TaskStatus
  pub created_at : TimestampMs
  pub completed_at : Option TimestampMs

pub record WorkflowMaterialization : Type 0 where
  pub evaluation : RuleEvaluation
  pub obligation : Option Obligation
  pub deadline : Option Deadline
  pub task : Option WorkflowTask

pub record GroundedClaim : Type 0 where
  pub claim : Claim
  pub current_state : ClaimState
  pub provenance_id : Option RecordId
  pub evidence_ids : List RecordId

pub data AnswerMode : Type 0 where
  established claimed suggested conflicting unknown : AnswerMode

pub record GroundedAnswer : Type 0 where
  pub mode : AnswerMode
  pub statement : Text
  pub claim_ids : List RecordId
  pub provenance_ids : List RecordId
  pub evidence_ids : List RecordId
  pub rule_evaluation_ids : List RecordId
