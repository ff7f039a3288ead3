-- ===== src/Infrastructure/Sqlite/Evaluations.antt =====
-- `register_rule` and `record_evaluation` of
-- crates/casegraph-infrastructure/src/sqlite_repository.rs.
use casegraph.Prelude.{List, Option, map, none, some, ◌&&◌}
use casegraph.Text.{Text, lit, text_eq}
use casegraph.Domain.Id.{RecordId}
use casegraph.Domain.Temporal.{Date, to_iso}
use casegraph.Domain.Model.Workflow.{
  RuleVersion, RuleEvaluation, Obligation, Deadline, WorkflowTask, WorkflowMaterialization,
}
use casegraph.Domain.Model.Validate.{validate_rule}
use casegraph.Application.Ports.{RegisterRuleBundle, EvaluationBundle}
use casegraph.Application.Query.{flat_map}
use casegraph.Infrastructure.Sqlite.Rows.{
  Database, EvaluationRow, deadline_row, evaluation_evidence_row, evaluation_row, obligation_row,
  rule_row, rule_version_row, task_row,
}
use casegraph.Infrastructure.Sqlite.Tables.{as_evaluation, select}
use casegraph.Infrastructure.Sqlite.Serde.{
  Serde, parse_id, rule_evaluated, rule_registered, to_json,
}
use casegraph.Infrastructure.Sqlite.Codes.{
  obligation_status, rule_result, task_status, temporal_precision,
}
use casegraph.Infrastructure.Sqlite.Tx.{
  Tx, for_each, lift, lift_domain, load, pure, query, ◌>>=◌, ◌>>◌,
}
use casegraph.Infrastructure.Sqlite.Statement.{insert}
use casegraph.Infrastructure.Sqlite.Insert.{first_match, id_column, insert_audit, time_column}
use casegraph.Infrastructure.Sqlite.Order.{sort_distinct}
use casegraph.Infrastructure.Sqlite.Load.Workflow.{load_workflow}

-- `map(Date::to_iso)`.
abbrev pub date_column : Option Date → Option Text
date_column none = none
date_column (some d) = some (to_iso d)

-- `as_ref().map(|value| &value.id)`.
abbrev pub obligation_id_of : Option Obligation → Option RecordId
obligation_id_of none = none
obligation_id_of (some o) = some o.id

abbrev pub deadline_id_of : Option Deadline → Option RecordId
deadline_id_of none = none
deadline_id_of (some d) = some d.id

abbrev pub task_id_of : Option WorkflowTask → Option RecordId
task_id_of none = none
task_id_of (some t) = some t.id

-- The query for an evaluation of the same inputs.
unfoldable pub same_evaluation : RuleEvaluation → Database → Option EvaluationRow
same_evaluation e db =
    first_match
      (λ r.
        text_eq r.case_id e.case_id.value
        && (text_eq r.rule_version_id e.rule_version_id.value
            && text_eq r.inputs_sha256 e.inputs_sha256))
      (select as_evaluation db)

-- The ordered set of the evidence that an evaluation cites.
unfoldable pub cited_evidence : RuleEvaluation → List Text
cited_evidence e =
    sort_distinct (flat_map (λ input. map (λ id. id.value) input.evidence_ids) e.inputs)

module _ (serde : Serde) where
  -- `register_rule`.
  unfoldable pub register_rule : RegisterRuleBundle → Tx RuleVersion
  register_rule bundle = do
    lift_domain (validate_rule bundle.version.definition)
    insert serde (
        rule_row (record {
          id = bundle.rule.id.value;
          package_id = bundle.rule.package_id;
          stable_key = bundle.rule.stable_key;
          title = bundle.rule.title;
          created_at_ms = bundle.rule.created_at.ms;
        }))
    definition ← lift (to_json (serde.definition_json bundle.version.definition))
    insert serde (
        rule_version_row (record {
          id = bundle.version.id.value;
          rule_id = bundle.version.rule_id.value;
          version = bundle.version.version;
          definition_json = definition;
          definition_sha256 = bundle.version.definition_sha256;
          effective_from = date_column bundle.version.effective_from;
          effective_until = date_column bundle.version.effective_until;
          created_at_ms = bundle.version.created_at.ms;
        }))
    insert_audit serde bundle.context none (lit "rule.register") (lit "rule_version")
        bundle.version.id
        (rule_registered bundle.rule.id bundle.version.version bundle.version.definition_sha256)
    pure bundle.version

  unfoldable pub insert_evaluation : RuleEvaluation → Tx (Unit {0})
  insert_evaluation e = do
    inputs ← lift (to_json (serde.inputs_json e.inputs))
    insert serde (
        evaluation_row (record {
          id = e.id.value;
          case_id = e.case_id.value;
          rule_version_id = e.rule_version_id.value;
          inputs_json = inputs;
          inputs_sha256 = e.inputs_sha256;
          result = rule_result e.result;
          explanation = e.explanation;
          evaluated_at_ms = e.evaluated_at.ms;
          evaluator_version = e.evaluator_version;
          correlation_id = e.correlation_id.value;
        }))

  unfoldable pub insert_cited : RuleEvaluation → Text → Tx (Unit {0})
  insert_cited e evidence_id = insert serde (
      evaluation_evidence_row
        (record { rule_evaluation_id = e.id.value; evidence_id = evidence_id }))

  unfoldable pub insert_obligation : Option Obligation → Tx (Unit {0})
  insert_obligation none = pure tt
  insert_obligation (some o) = insert serde (
      obligation_row (record {
        id = o.id.value;
        case_id = o.case_id.value;
        created_by_event_id = id_column o.created_by_event_id;
        created_by_rule_evaluation_id = id_column o.created_by_rule_evaluation_id;
        kind = o.kind;
        description = o.description;
        status = obligation_status o.status;
        created_at_ms = o.created_at.ms;
      }))

  unfoldable pub insert_deadline : Option Deadline → Tx (Unit {0})
  insert_deadline none = pure tt
  insert_deadline (some d) = insert serde (
      deadline_row (record {
        id = d.id.value;
        case_id = d.case_id.value;
        obligation_id = d.obligation_id.value;
        due_earliest = date_column d.due_earliest;
        due_latest = date_column d.due_latest;
        original_expression = d.original_expression;
        temporal_precision = temporal_precision d.temporal_precision;
        calculation_json = d.calculation_json;
        created_at_ms = d.created_at.ms;
      }))

  unfoldable pub insert_task : Option WorkflowTask → Tx (Unit {0})
  insert_task none = pure tt
  insert_task (some t) = insert serde (
      task_row (record {
        id = t.id.value;
        case_id = t.case_id.value;
        obligation_id = id_column t.obligation_id;
        title = t.title;
        status = task_status t.status;
        created_at_ms = t.created_at.ms;
        completed_at_ms = time_column t.completed_at;
      }))

  -- The part of `record_evaluation` for inputs that were not evaluated before.
  unfoldable pub insert_materialization : EvaluationBundle → Tx WorkflowMaterialization
  insert_materialization bundle = do
    let item = bundle.materialization
    let e = item.evaluation
    insert_evaluation e
    for_each (cited_evidence e) (insert_cited e)
    insert_obligation item.obligation
    insert_deadline item.deadline
    insert_task item.task
    insert_audit serde bundle.context (some e.case_id) (lit "rule.evaluate") (lit "rule_evaluation")
        e.id
        (rule_evaluated e.rule_version_id e.inputs_sha256 e.result
          (obligation_id_of item.obligation) (deadline_id_of item.deadline) (task_id_of item.task))
    pure item

  -- `return load_workflow(...)`, which drops the transaction: it has written nothing.
  unfoldable pub load_existing : Text → Tx WorkflowMaterialization
  load_existing raw = do id ← lift (parse_id raw); load (load_workflow serde id)

  abbrev pub record_unless : EvaluationBundle → Option EvaluationRow → Tx WorkflowMaterialization
  record_unless bundle (some existing) = load_existing existing.id
  record_unless bundle none = insert_materialization bundle

  -- `record_evaluation`.
  unfoldable pub record_evaluation : EvaluationBundle → Tx WorkflowMaterialization
  record_evaluation bundle = do
    existing ← query (same_evaluation bundle.materialization.evaluation)
    record_unless bundle existing
