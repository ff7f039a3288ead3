-- ===== src/Infrastructure/Sqlite/Audited/Operations.antt =====
-- Each operation of crates/casegraph-infrastructure/src/sqlite_repository.rs logs.
use casegraph.Prelude.{Bool, List, Option, [], false, if◌then◌else◌, none, some, true, ◌∷◌}
use casegraph.Text.{Text}
use casegraph.Domain.Id.{RecordId}
use casegraph.Domain.Model.Evidence.{Fact, Correction, Artifact, ArtifactVersion}
use casegraph.Domain.Model.Workflow.{RuleEvaluation, Obligation, Deadline, WorkflowTask}
use casegraph.Application.Ports.{
  CreateCaseBundle, IngestionBundle, ClaimBundle, ReviewBundle, CorrectionBundle,
  RegisterRuleBundle, EvaluationBundle,
}
use casegraph.Infrastructure.Sqlite.Rows.{ClaimRow}
use casegraph.Infrastructure.Sqlite.Serde.{Serde}
use casegraph.Infrastructure.Sqlite.Tx.{Tx}
use casegraph.Infrastructure.Sqlite.Claims.{
  Comparison, compare_prior, compare_priors, contradict, corroborate, insert_grounded,
  mark_contradicted, record_claim,
}
use casegraph.Infrastructure.Sqlite.Reviews.{
  correct_claim, insert_correction, insert_established, review_claim,
}
use casegraph.Infrastructure.Sqlite.Artifacts.{
  create_case, ingest, ingest_artifact, ingest_content, ingest_duplicate, ingest_under,
  ingest_version,
}
use casegraph.Infrastructure.Sqlite.Evaluations.{
  insert_cited, insert_deadline, insert_evaluation, insert_materialization, insert_obligation,
  insert_task, register_rule,
}
use casegraph.Infrastructure.Sqlite.Grown.{Grows, Grows-bind, Grows-for_each, Grows-pure, grows}
use casegraph.Infrastructure.Sqlite.Grown.Inserts.{inserts_grow}
use casegraph.Infrastructure.Sqlite.Audited.{Logs, Logs-audit, Logs-bind}

module _ (serde : Serde) where
  ruleset logs = (inserts_grow, Logs-bind, Logs-audit)

  pub create_case-Logs : (b : CreateCaseBundle) → Logs serde b.context (create_case serde b)
  unfolding create_case
  create_case-Logs b = search logs

  Grows-ingest_artifact :
      (b : IngestionBundle) (source_id : RecordId) → Grows serde (ingest_artifact serde b source_id)
  unfolding ingest_artifact
  Grows-ingest_artifact b source_id = search inserts_grow

  Grows-ingest_content :
      (b : IngestionBundle) (source_id : RecordId) (artifact : Artifact)
      (version : Option ArtifactVersion)
      → Grows serde (ingest_content serde b source_id artifact version)
  unfolding ingest_duplicate ingest_version
  Grows-ingest_content b source_id artifact (some version) = search inserts_grow
  Grows-ingest_content b source_id artifact none = search inserts_grow

  Grows-ingest_under :
      (b : IngestionBundle) (source_id : RecordId) (artifact : Option Artifact)
      → Grows serde (ingest_under serde b source_id artifact)
  unfolding ingest_under
  Grows-ingest_under b source_id (some artifact) = search (inserts_grow, Grows-ingest_content)
  Grows-ingest_under b source_id none = Grows-ingest_artifact b source_id

  pub ingest-Logs : (b : IngestionBundle) → Logs serde b.context (ingest serde b)
  unfolding ingest
  ingest-Logs b = search (logs, Grows-ingest_under) depth 20

  Grows-corroborate :
      (b : ClaimBundle) (found : Comparison) (prior_id : RecordId)
      → Grows serde (corroborate serde b found prior_id)
  unfolding corroborate
  Grows-corroborate b found prior_id = search inserts_grow

  Grows-mark_contradicted :
      (b : ClaimBundle) (contradiction_id claim_id : RecordId)
      → Grows serde (mark_contradicted serde b contradiction_id claim_id)
  unfolding mark_contradicted
  Grows-mark_contradicted b contradiction_id claim_id = search inserts_grow

  Grows-contradict :
      (b : ClaimBundle) (found : Comparison) (prior_id : RecordId)
      → Grows serde (contradict serde b found prior_id)
  unfolding contradict
  Grows-contradict b found prior_id =
      search (inserts_grow, Grows-for_each, Grows-mark_contradicted) depth 20

  Grows-if :
      {A : Type 0} (b : Bool) (m n : Tx A)
      → Grows serde m
      → Grows serde n
      → Grows serde (if b then m else n)
  Grows-if true m n gm gn = gm
  Grows-if false m n gm gn = gn

  pub Grows-compare_prior :
      (b : ClaimBundle) (normalized : Text) (found : Comparison) (prior : ClaimRow)
      → Grows serde (compare_prior serde b normalized found prior)
  unfolding compare_prior
  Grows-compare_prior b normalized found prior =
      search (inserts_grow, Grows-if, Grows-corroborate, Grows-contradict)

  Grows-compare_priors :
      (b : ClaimBundle) (normalized : Text) (found : Comparison) (priors : List ClaimRow)
      → Grows serde (compare_priors serde b normalized found priors)
  unfolding compare_priors
  Grows-compare_priors b normalized found [] = Grows-pure found
  Grows-compare_priors b normalized found (prior ∷ priors) =
      Grows-bind _ _ (Grows-compare_prior b normalized found prior)
        (λ found'. Grows-compare_priors b normalized found' priors)

  pub Grows-insert_grounded : (b : ClaimBundle) → Grows serde (insert_grounded serde b)
  unfolding insert_grounded
  Grows-insert_grounded b = search inserts_grow depth 20

  pub record_claim-Logs : (b : ClaimBundle) → Logs serde b.context (record_claim serde b)
  unfolding record_claim
  record_claim-Logs b = search (logs, Grows-insert_grounded, Grows-compare_priors) depth 20

  Grows-insert_established : (fact : Option Fact) → Grows serde (insert_established serde fact)
  Grows-insert_established none = search grows
  Grows-insert_established (some fact) = search inserts_grow

  pub review_claim-Logs : (b : ReviewBundle) → Logs serde b.context (review_claim serde b)
  unfolding review_claim
  review_claim-Logs b = search (logs, Grows-insert_established)

  Grows-insert_correction : (c : Correction) → Grows serde (insert_correction serde c)
  unfolding insert_correction
  Grows-insert_correction c = search grows

  pub correct_claim-Logs : (b : CorrectionBundle) → Logs serde b.context (correct_claim serde b)
  unfolding correct_claim
  correct_claim-Logs b = search (logs, Grows-insert_correction) depth 20

  pub register_rule-Logs : (b : RegisterRuleBundle) → Logs serde b.context (register_rule serde b)
  unfolding register_rule
  register_rule-Logs b = search logs

  Grows-insert_evaluation : (e : RuleEvaluation) → Grows serde (insert_evaluation serde e)
  unfolding insert_evaluation
  Grows-insert_evaluation e = search grows

  Grows-insert_cited : (e : RuleEvaluation) (id : Text) → Grows serde (insert_cited serde e id)
  unfolding insert_cited
  Grows-insert_cited e id = search grows

  Grows-insert_obligation : (o : Option Obligation) → Grows serde (insert_obligation serde o)
  unfolding insert_obligation
  Grows-insert_obligation none = search grows
  Grows-insert_obligation (some o) = search grows

  Grows-insert_deadline : (d : Option Deadline) → Grows serde (insert_deadline serde d)
  unfolding insert_deadline
  Grows-insert_deadline none = search grows
  Grows-insert_deadline (some d) = search grows

  Grows-insert_task : (t : Option WorkflowTask) → Grows serde (insert_task serde t)
  unfolding insert_task
  Grows-insert_task none = search grows
  Grows-insert_task (some t) = search grows

  pub insert_materialization-Logs :
      (b : EvaluationBundle) → Logs serde b.context (insert_materialization serde b)
  unfolding insert_materialization
  insert_materialization-Logs b =
      search
        (
          logs, Grows-for_each, Grows-insert_evaluation, Grows-insert_cited,
          Grows-insert_obligation, Grows-insert_deadline, Grows-insert_task,
        )
        depth 20
