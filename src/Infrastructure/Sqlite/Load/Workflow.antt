-- ===== src/Infrastructure/Sqlite/Load/Workflow.antt =====
-- The `load_*` functions of crates/casegraph-infrastructure/src/sqlite_repository.rs for rules,
-- evaluations and their workflow.
use casegraph.Prelude.{Option, none, some}
use casegraph.Prelude.Result.{Result, ok, err, map_err, ◌>>=◌, ◌>>◌}
use casegraph.Text.{text_eq}
use casegraph.Domain.Id.{RecordId}
use casegraph.Domain.Model.Workflow.{
  RuleVersion, RuleEvaluation, Obligation, Deadline, WorkflowTask, WorkflowMaterialization,
}
use casegraph.Domain.Model.Validate.{validate_rule}
use casegraph.Application.Error.{AppError, from_domain}
use casegraph.Infrastructure.Sqlite.Rows.{
  Database, DeadlineRow, EvaluationRow, ObligationRow, RuleVersionRow, TaskRow,
}
use casegraph.Infrastructure.Sqlite.Tables.{
  as_deadline, as_evaluation, as_obligation, as_rule_version, as_task, select,
}
use casegraph.Infrastructure.Sqlite.Serde.{
  Serde, from_json, parse_id, read_date, read_timestamp, traverse,
}
use casegraph.Infrastructure.Sqlite.Codes.{
  parse_obligation_status, parse_rule_result, parse_task_status, parse_temporal_precision,
}
use casegraph.Infrastructure.Sqlite.Statement.{database_error}
use casegraph.Infrastructure.Sqlite.Insert.{first_match, is_same}
use casegraph.Infrastructure.Sqlite.Load.{load_one}

-- The row of `load_rule_version`.
unfoldable pub read_rule_version : Serde → RuleVersionRow → Result AppError RuleVersion
read_rule_version serde r = do
  definition ← from_json (serde.read_definition r.definition_json)
  id ← parse_id r.id
  rule_id ← parse_id r.rule_id
  effective_from ← traverse read_date r.effective_from
  effective_until ← traverse read_date r.effective_until
  created_at ← read_timestamp r.created_at_ms
  map_err from_domain (validate_rule definition)
  ok (record {
    id = id;
    rule_id = rule_id;
    version = r.version;
    definition = definition;
    definition_sha256 = r.definition_sha256;
    effective_from = effective_from;
    effective_until = effective_until;
    created_at = created_at;
  })

-- `load_rule_version`.
unfoldable pub load_rule_version :
    Serde → RecordId → Database → Result AppError (Option RuleVersion)
load_rule_version serde id db =
    load_one (read_rule_version serde) (λ r. text_eq r.id id.value) (select as_rule_version db)

-- The row of `load_obligation_for_evaluation`.
unfoldable pub read_obligation : ObligationRow → Result AppError Obligation
read_obligation r = do
  id ← parse_id r.id
  case_id ← parse_id r.case_id
  created_by_event_id ← traverse parse_id r.created_by_event_id
  created_by_rule_evaluation_id ← traverse parse_id r.created_by_rule_evaluation_id
  status ← parse_obligation_status r.status
  created_at ← read_timestamp r.created_at_ms
  ok (record {
    id = id;
    case_id = case_id;
    created_by_event_id = created_by_event_id;
    created_by_rule_evaluation_id = created_by_rule_evaluation_id;
    kind = r.kind;
    description = r.description;
    status = status;
    created_at = created_at;
  })

-- `load_obligation_for_evaluation`.
unfoldable pub load_obligation_for_evaluation :
    RecordId → Database → Result AppError (Option Obligation)
load_obligation_for_evaluation evaluation_id db =
    load_one read_obligation
      (λ r. is_same r.created_by_rule_evaluation_id (some evaluation_id.value))
      (select as_obligation db)

-- The row of `load_deadline_for_obligation`.
unfoldable pub read_deadline : DeadlineRow → Result AppError Deadline
read_deadline r = do
  id ← parse_id r.id
  case_id ← parse_id r.case_id
  obligation_id ← parse_id r.obligation_id
  due_earliest ← traverse read_date r.due_earliest
  due_latest ← traverse read_date r.due_latest
  precision ← parse_temporal_precision r.temporal_precision
  created_at ← read_timestamp r.created_at_ms
  ok (record {
    id = id;
    case_id = case_id;
    obligation_id = obligation_id;
    due_earliest = due_earliest;
    due_latest = due_latest;
    original_expression = r.original_expression;
    temporal_precision = precision;
    calculation_json = r.calculation_json;
    created_at = created_at;
  })

-- `load_deadline_for_obligation`.
unfoldable pub load_deadline_for_obligation :
    RecordId → Database → Result AppError (Option Deadline)
load_deadline_for_obligation obligation_id db =
    load_one read_deadline (λ r. text_eq r.obligation_id obligation_id.value)
      (select as_deadline db)

-- The row of `load_task_for_obligation`.
unfoldable pub read_task : TaskRow → Result AppError WorkflowTask
read_task r = do
  id ← parse_id r.id
  case_id ← parse_id r.case_id
  obligation_id ← traverse parse_id r.obligation_id
  status ← parse_task_status r.status
  created_at ← read_timestamp r.created_at_ms
  completed_at ← traverse read_timestamp r.completed_at_ms
  ok (record {
    id = id;
    case_id = case_id;
    obligation_id = obligation_id;
    title = r.title;
    status = status;
    created_at = created_at;
    completed_at = completed_at;
  })

-- `load_task_for_obligation`.
unfoldable pub load_task_for_obligation :
    RecordId → Database → Result AppError (Option WorkflowTask)
load_task_for_obligation obligation_id db =
    load_one read_task (λ r. is_same r.obligation_id (some obligation_id.value)) (select as_task db)

-- The row of `load_workflow`.
unfoldable pub read_evaluation : Serde → EvaluationRow → Result AppError RuleEvaluation
read_evaluation serde r = do
  id ← parse_id r.id
  case_id ← parse_id r.case_id
  rule_version_id ← parse_id r.rule_version_id
  inputs ← from_json (serde.read_inputs r.inputs_json)
  result ← parse_rule_result r.result
  evaluated_at ← read_timestamp r.evaluated_at_ms
  correlation_id ← parse_id r.correlation_id
  ok (record {
    id = id;
    case_id = case_id;
    rule_version_id = rule_version_id;
    inputs = inputs;
    inputs_sha256 = r.inputs_sha256;
    result = result;
    explanation = r.explanation;
    evaluated_at = evaluated_at;
    evaluator_version = r.evaluator_version;
    correlation_id = correlation_id;
  })

-- `obligation.as_ref().map(f).transpose()?.flatten()`.
abbrev pub for_obligation :
    {A : Type 0}
    → (RecordId → Result AppError (Option A))
    → Option Obligation
    → Result AppError (Option A)
for_obligation f none = ok none
for_obligation f (some obligation) = f obligation.id

-- `load_workflow`.
unfoldable pub load_workflow : Serde → RecordId → Database → Result AppError WorkflowMaterialization
load_workflow serde evaluation_id db =
    elim (first_match (λ r. text_eq r.id evaluation_id.value) (select as_evaluation db)) [
      | none ↦ err (database_error none)
      | some r ↦ do
        evaluation ← read_evaluation serde r
        obligation ← load_obligation_for_evaluation evaluation_id db
        deadline ← for_obligation (λ id. load_deadline_for_obligation id db) obligation
        task ← for_obligation (λ id. load_task_for_obligation id db) obligation
        ok (record {
          evaluation = evaluation;
          obligation = obligation;
          deadline = deadline;
          task = task;
        })
    ]
