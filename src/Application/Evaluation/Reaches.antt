-- ===== src/Application/Evaluation/Reaches.antt =====
-- `evaluate` of crates/casegraph-application/src/rules.rs gets to the repository: if the rule
-- version exists and its deadline can be computed, every evaluation is recorded.
use mathlib.Core.Path.{subst}
use casegraph.Prelude.{ℕ, ◌≤◌, ◌≡◌, refl, sym, ap, arith, some, List, [], ◌∷◌}
use casegraph.Prelude.Int.{pos}
use casegraph.Prelude.Result.{Result, ok}
use casegraph.Text.{Text}
use casegraph.Text.Number.{i32_max}
use casegraph.Domain.Id.{RecordId}
use casegraph.Domain.Temporal.{Date, TimestampMs, checked_add_days, to_iso}
use casegraph.Domain.Model.Workflow.{
  RuleVersion, RuleResult, RuleInput, RuleEvaluation, GroundedClaim,
}
use casegraph.Application.Monad.Ends.{
  Answers, EndsIn, Answers-pure, Answers-bind, Answers-lift, Answers-domain, Answers-require,
  EndsIn-call, EndsIn-bind, EndsIn-lift, EndsIn-require,
}
use casegraph.Application.Ports.{Ports}
use casegraph.Application.Codec.{Codec, canonical_json}
use casegraph.Application.Bundles.Reaches.{Ready, correlation-Answers}
use casegraph.Application.Rules.{decide}
use casegraph.Application.Rules.Established.{IsAnchored}
use casegraph.Application.Rules.Satisfied.{decide-IsEstablished, decide-anchor}
use casegraph.Application.Evaluation.{
  EvaluateRuleRequest, to_i32, first_date, satisfied_workflow, workflow_for, record_decision,
  evaluate,
}
use casegraph.Application.Evaluation.Sends.{IsWorkflow, Materialized, IsEvaluation}

-- The serializer writes every value.
pub record Writes (codec : Codec) : Type 0 where
  pub inputs : (inputs : List RuleInput) → (s : Text) × (codec.inputs_json inputs ≡ ok s)
  pub calculation :
      (anchor : Text) (days : ℕ) (id : RecordId)
      → (s : Text) × (codec.calculation_json anchor days id ≡ ok s)

-- The deadline that the rule sets is a date, wherever its anchor is.
pub record HasDeadline (version : RuleVersion) (grounded : List GroundedClaim) : Type 0 where
  pub fits : version.definition.effect.deadline_days_after ≤ i32_max
  pub reaches :
      (d : Date)
      → IsAnchored version.definition.effect.deadline_anchor_predicate grounded d
      → (due : Date) × (checked_add_days d (pos version.definition.effect.deadline_days_after)
          ≡ ok due)

to_i32-fits : (n : ℕ) → n ≤ i32_max → to_i32 n ≡ ok (pos n)
to_i32-fits n h = ground arith

canonical : (r : Result (Unit {0}) Text) (s : Text) → r ≡ ok s → canonical_json r ≡ ok s
canonical r s h = rw h refl

module _ {W : Type 0} (codec : Codec) (ports : Ports W) (ready : Ready ports)
    (writes : Writes codec) where
  satisfied_workflow-Answers :
      (case_id : RecordId) (version : RuleVersion) (grounded : List GroundedClaim)
      (evaluation : RuleEvaluation) (dates : List Date) (at : TimestampMs) (d : Date)
      → HasDeadline version grounded
      → dates ≡ d ∷ []
      → IsAnchored version.definition.effect.deadline_anchor_predicate grounded d
      → Answers
          (IsWorkflow version grounded evaluation)
          (satisfied_workflow codec ports case_id version evaluation dates at)
  unfolding satisfied_workflow
  satisfied_workflow-Answers case_id version grounded evaluation dates at d reach only anchored =
      let effect = version.definition.effect in
      let (due, counted) = reach.reaches d anchored in
      Answers-bind _ _ (Answers-require _ (first_date dates) d (ap first_date only))
        λ anchor is_anchor.
          Answers-bind _ _ (Answers-lift _ _ (to_i32-fits effect.deadline_days_after reach.fits))
            λ days is_days.
              Answers-bind _ _
                (Answers-domain (checked_add_days anchor days) due
                  (rw is_anchor (rw is_days counted)))
                λ due' is_due. Answers-bind _ _ (ready.next _) λ obligation_id _.
                  Answers-bind _ _ (ready.next _) λ deadline_id _.
                    Answers-bind _ _
                      (Answers-lift _ _ (
                        canonical _ _
                          (writes.calculation (to_iso anchor) effect.deadline_days_after
                            version.id).1))
                      λ calculation _. Answers-bind _ _ (ready.next _) λ task_id _.
                        Answers-pure _ (record {
                          obligation = _;
                          deadline = _;
                          task = _;
                          present = refl;
                          cited = refl;
                          linked = (refl, refl);
                          anchor = d;
                          due = due;
                          counted = counted;
                          dated = (ap some is_due, ap some is_due);
                          anchored = anchored;
                        })

  workflow_for-Answers :
      (case_id : RecordId) (version : RuleVersion) (grounded : List GroundedClaim)
      (evaluation : RuleEvaluation) (dates : List Date) (at : TimestampMs) (result : RuleResult)
      → HasDeadline version grounded
      → (result ≡ RuleResult.satisfied
          → (d : Date) × (dates ≡ d ∷ [])
            × IsAnchored version.definition.effect.deadline_anchor_predicate grounded d)
      → Answers
          (Materialized result version grounded evaluation)
          (workflow_for codec ports result case_id version evaluation dates at)
  workflow_for-Answers case_id version grounded evaluation dates at RuleResult.satisfied reach h =
      let (d, only, anchored) = h refl in
      satisfied_workflow-Answers case_id version grounded evaluation dates at d reach only anchored
  workflow_for-Answers case_id version grounded evaluation dates at RuleResult.not_satisfied reach
        h =
      Answers-pure _ refl
  workflow_for-Answers case_id version grounded evaluation dates at RuleResult.indeterminate reach
        h =
      Answers-pure _ refl

  -- If the clock, the identifiers and the serializer answer, the version is found, its claims are
  -- read, its number of days is an `i32` and the deadline is a date, `evaluate` ends in
  -- `record_evaluation`, whatever the result: on an evaluation of that version on those claims,
  -- with its workflow if it is satisfied.
  pub evaluate-EndsIn :
      (request : EvaluateRuleRequest) (version : RuleVersion) (grounded : List GroundedClaim)
      → HasDeadline version grounded
      → Answers (λ o. o ≡ some version) (ports.get_rule_version request.rule_version_id)
      → Answers (λ g. g ≡ grounded) (ports.list_grounded_claims request.case_id)
      → EndsIn ports.record_evaluation
          (IsEvaluation (λ v. v ≡ version) (λ _ g. g ≡ grounded))
          (evaluate codec ports request)
  unfolding evaluate record_decision
  evaluate-EndsIn request version grounded reach known listed =
      EndsIn-bind _ _ known λ found is_found. EndsIn-require _ _ version _ is_found λ _.
        EndsIn-bind _ _ listed λ claims is_listed. EndsIn-bind _ _ ready.now λ at _.
          EndsIn-bind _ _ (correlation-Answers ports ready _) λ correlation_id _.
            EndsIn-lift _ _ _ (canonical _ _ (writes.inputs (decide version claims).inputs).1) λ _.
              EndsIn-bind _ _ (ready.next _) λ evaluation_id _.
                EndsIn-bind _ _
                  (workflow_for-Answers request.case_id version claims _ _ at _
                    (subst (HasDeadline version) (sym is_listed) reach)
                    (decide-anchor version claims))
                  λ workflow made. EndsIn-bind _ _ (ready.next _) λ audit_id _.
                    EndsIn-call _ (record {
                      version = version;
                      grounded = claims;
                      registered = refl;
                      claims = is_listed;
                      names = refl;
                      established = decide-IsEstablished version claims;
                      materialized = made;
                    })
