-- ===== src/Application/Evaluation/Sends.antt =====
-- What `register_rule` and `evaluate` of crates/casegraph-application/src/rules.rs send the
-- repository: valid rules, and evaluations with a workflow just when they are satisfied.
use casegraph.Prelude.{ℕ, ◌≡◌, refl, arith, ◌↔◌, Option, none, some, List, [], ◌∷◌}
use casegraph.Prelude.Int.{ℤ, pos}
use casegraph.Prelude.Result.{ok}
use casegraph.Text.{Text}
use casegraph.Domain.Id.{RecordId}
use casegraph.Domain.Temporal.{Date, TimestampMs, checked_add_days}
use casegraph.Domain.Model.Workflow.{
  RuleVersion, RuleResult, RuleEvaluation, Obligation, Deadline, WorkflowTask,
  WorkflowMaterialization, GroundedClaim,
}
use casegraph.Domain.Model.Validate.{validate_rule}
use casegraph.Application.Monad.Keeps.{
  Keeps, Keeps-pure, Keeps-bind, Keeps-bind-domain, Keeps-bind-require, Keeps-bind-lift, KeepsTo,
  Keeps-bind-to, KeepsTo-pure, KeepsTo-bind, KeepsTo-bind-lift, KeepsTo-bind-domain,
  KeepsTo-bind-require,
}
use casegraph.Application.Ports.{Ports, RegisterRuleBundle, EvaluationBundle}
use casegraph.Application.Service.{correlation}
use casegraph.Application.Codec.{Codec}
use casegraph.Application.Rules.{decide}
use casegraph.Application.Rules.Established.{IsEstablished, IsAnchored}
use casegraph.Application.Rules.Satisfied.{decide-IsEstablished, decide-anchor}
use casegraph.Application.Evaluation.{
  RegisterRuleRequest, EvaluateRuleRequest, to_i32, first_date, Workflow, no_workflow,
  satisfied_workflow, workflow_for, record_decision, evaluate, register_rule,
}

-- An open obligation that cites the evaluation, and a deadline and a task for that obligation; the
-- deadline is the rule's number of days after a date that the claims put the anchor on.
pub record IsWorkflow (version : RuleVersion) (grounded : List GroundedClaim)
    (evaluation : RuleEvaluation) (w : Workflow) : Type 0 where
  pub obligation : Obligation
  pub deadline : Deadline
  pub task : WorkflowTask
  pub present :
      w ≡ record { obligation = some obligation; deadline = some deadline; task = some task }
  pub cited : obligation.created_by_rule_evaluation_id ≡ some evaluation.id
  pub linked : (deadline.obligation_id ≡ obligation.id) × (task.obligation_id ≡ some obligation.id)
  pub anchor : Date
  pub due : Date
  pub counted : checked_add_days anchor (pos version.definition.effect.deadline_days_after) ≡ ok due
  pub dated : (deadline.due_earliest ≡ some due) × (deadline.due_latest ≡ some due)
  pub anchored : IsAnchored version.definition.effect.deadline_anchor_predicate grounded anchor

-- What comes with each result.
abbrev pub Materialized :
    RuleResult → RuleVersion → List GroundedClaim → RuleEvaluation → Workflow → Type 0
Materialized RuleResult.satisfied version grounded evaluation w =
    IsWorkflow version grounded evaluation w
Materialized RuleResult.not_satisfied version grounded evaluation w = w ≡ no_workflow
Materialized RuleResult.indeterminate version grounded evaluation w = w ≡ no_workflow

abbrev pub workflow_of : WorkflowMaterialization → Workflow
workflow_of m = record { obligation = m.obligation; deadline = m.deadline; task = m.task }

-- An evaluation of a registered version on the claims of its case.
pub record IsEvaluation (Registered : RuleVersion → Type 0)
    (Claims : RecordId → List GroundedClaim → Type 0) (b : EvaluationBundle) : Type 0 where
  pub version : RuleVersion
  pub grounded : List GroundedClaim
  pub registered : Registered version
  pub claims : Claims b.materialization.evaluation.case_id grounded
  pub names : b.materialization.evaluation.rule_version_id ≡ version.id
  pub established :
      (b.materialization.evaluation.result ≡ RuleResult.satisfied) ↔ IsEstablished version grounded
  pub materialized :
      Materialized b.materialization.evaluation.result version grounded b.materialization.evaluation
        (workflow_of b.materialization)

-- What is asked of the adapters.
pub record RulePreserves {W : Type 0} (ports : Ports W) (P : W → Type 0)
    (Registered : RuleVersion → Type 0) (Claims : RecordId → List GroundedClaim → Type 0)
    : Type 0 where
  pub now : Keeps P ports.now
  pub next : (kind : Text) → Keeps P (ports.next kind)
  pub get_rule_version :
      (id : RecordId)
      → KeepsTo P (λ o. (v : RuleVersion) → o ≡ some v → Registered v) (ports.get_rule_version id)
  pub list_grounded_claims :
      (case_id : RecordId) → KeepsTo P (Claims case_id) (ports.list_grounded_claims case_id)
  pub register_rule :
      (b : RegisterRuleBundle)
      → validate_rule b.version.definition ≡ ok tt
      → b.version.rule_id ≡ b.rule.id
      → Keeps P (ports.register_rule b)
  pub record_evaluation :
      (b : EvaluationBundle)
      → IsEvaluation Registered Claims b
      → Keeps P (ports.record_evaluation b)

to_i32-pos : (n : ℕ) (i : ℤ) → to_i32 n ≡ ok i → i ≡ pos n
to_i32-pos n i h = ground arith

first_of : (dates : List Date) (d e : Date) → first_date dates ≡ some d → dates ≡ e ∷ [] → d ≡ e
first_of [] d e h k = absurd (cc)
first_of (x ∷ dates) d e h k = cc

module _ {W : Type 0} (codec : Codec) (ports : Ports W) (P : W → Type 0)
    (Registered : RuleVersion → Type 0) (Claims : RecordId → List GroundedClaim → Type 0)
    (adapters : RulePreserves ports P Registered Claims) where
  rule_correlation-Keeps : (provided : Option RecordId) → Keeps P (correlation ports provided)
  unfolding correlation
  rule_correlation-Keeps none = adapters.next _
  rule_correlation-Keeps (some id) = Keeps-pure id

  -- Whatever the adapters keep true when valid rules are registered, `register_rule` keeps: the
  -- definition that it hands over is valid and the version belongs to the rule beside it.
  pub register_rule-Keeps :
      (request : RegisterRuleRequest) → Keeps P (register_rule codec ports request)
  unfolding register_rule
  register_rule-Keeps request = Keeps-bind-domain _ _ λ _ valid. Keeps-bind _ _ adapters.now λ at.
      Keeps-bind-lift _ _ λ json _. Keeps-bind _ _ (adapters.next _) λ rule_id.
        Keeps-bind _ _ (adapters.next _) λ version_id. Keeps-bind _ _ (adapters.next _) λ audit_id.
          Keeps-bind _ _ (rule_correlation-Keeps _)
            λ correlation_id. adapters.register_rule _ valid refl

  satisfied_workflow-KeepsTo :
      (case_id : RecordId) (version : RuleVersion) (grounded : List GroundedClaim)
      (evaluation : RuleEvaluation) (dates : List Date) (at : TimestampMs) (d : Date)
      → dates ≡ d ∷ []
      → IsAnchored version.definition.effect.deadline_anchor_predicate grounded d
      → KeepsTo P
          (IsWorkflow version grounded evaluation)
          (satisfied_workflow codec ports case_id version evaluation dates at)
  unfolding satisfied_workflow
  satisfied_workflow-KeepsTo case_id version grounded evaluation dates at d only anchored =
      KeepsTo-bind-require _ _ _ λ anchor first. KeepsTo-bind-lift _ _ λ days fits.
        KeepsTo-bind-domain _ _ λ due counted. KeepsTo-bind _ _ (adapters.next _) λ obligation_id.
          KeepsTo-bind _ _ (adapters.next _) λ deadline_id. KeepsTo-bind-lift _ _ λ calculation _.
            KeepsTo-bind _ _ (adapters.next _) λ task_id.
              let same = first_of dates anchor d first only in
              let exact = to_i32-pos version.definition.effect.deadline_days_after days fits in
              KeepsTo-pure _ (record {
                obligation = _;
                deadline = _;
                task = _;
                present = refl;
                cited = refl;
                linked = (refl, refl);
                anchor = d;
                due = due;
                counted = rw same at (rw exact at counted);
                dated = (refl, refl);
                anchored = anchored;
              })

  workflow_for-KeepsTo :
      (case_id : RecordId) (version : RuleVersion) (grounded : List GroundedClaim)
      (evaluation : RuleEvaluation) (dates : List Date) (at : TimestampMs) (result : RuleResult)
      → (result ≡ RuleResult.satisfied
          → (d : Date) × (dates ≡ d ∷ [])
            × IsAnchored version.definition.effect.deadline_anchor_predicate grounded d)
      → KeepsTo P
          (Materialized result version grounded evaluation)
          (workflow_for codec ports result case_id version evaluation dates at)
  workflow_for-KeepsTo case_id version grounded evaluation dates at RuleResult.satisfied h =
      let (d, only, anchored) = h refl in
      satisfied_workflow-KeepsTo case_id version grounded evaluation dates at d only anchored
  workflow_for-KeepsTo case_id version grounded evaluation dates at RuleResult.not_satisfied h =
      KeepsTo-pure _ refl
  workflow_for-KeepsTo case_id version grounded evaluation dates at RuleResult.indeterminate h =
      KeepsTo-pure _ refl

  record_decision-Keeps :
      (request : EvaluateRuleRequest) (version : RuleVersion) (grounded : List GroundedClaim)
      → Registered version
      → Claims request.case_id grounded
      → Keeps P (record_decision codec ports request version (decide version grounded))
  unfolding record_decision
  record_decision-Keeps request version grounded registered claims =
      Keeps-bind _ _ adapters.now λ at. Keeps-bind _ _ (rule_correlation-Keeps _) λ correlation_id.
        Keeps-bind-lift _ _ λ json _. Keeps-bind _ _ (adapters.next _) λ evaluation_id.
          Keeps-bind-to _ _
            (workflow_for-KeepsTo request.case_id version grounded _ _ at _
              (decide-anchor version grounded))
            λ workflow made. Keeps-bind _ _ (adapters.next _) λ audit_id.
              adapters.record_evaluation _ (record {
                version = version;
                grounded = grounded;
                registered = registered;
                claims = claims;
                names = refl;
                established = decide-IsEstablished version grounded;
                materialized = made;
              })

  -- Whatever the adapters keep true on evaluations of a registered version on the claims of the
  -- case, `evaluate` keeps: the evaluation that it hands over is satisfied just when the claims
  -- establish the rule, and a workflow comes with it just when it is satisfied, its deadline the
  -- rule's number of days after the one anchor date.
  pub evaluate-Keeps : (request : EvaluateRuleRequest) → Keeps P (evaluate codec ports request)
  unfolding evaluate
  evaluate-Keeps request = Keeps-bind-to _ _ (adapters.get_rule_version _) λ found registered.
      Keeps-bind-require _ _ _ λ version is_found.
        Keeps-bind-to _ _ (adapters.list_grounded_claims _) λ grounded claims.
          record_decision-Keeps request version grounded (registered version is_found) claims
