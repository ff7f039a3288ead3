-- ===== src/Application/Rules.antt =====
-- Rule evaluation: the part of `RuleWorkflowService::evaluate` of
-- crates/casegraph-application/src/rules.rs that reads no port.
pub mod Anchors
pub mod Inputs
pub mod Established
pub mod Dates
pub mod Satisfied
use casegraph.Prelude.{
  ℕ, zero, suc, ◌+◌, Bool, true, false, not, ◌&&◌, ◌||◌, Option, none, some, List, [], ◌∷◌, ◌++◌,
  map, ltb, ◌==◌, length, filter, if◌then◌else◌,
}
use casegraph.Text.{Text, lit, text_eq}
use casegraph.Text.Search.{join}
use casegraph.Domain.Temporal.{Date}
use casegraph.Domain.Value.Equality.{value_eq}
use casegraph.Domain.Model.Evidence.{ClaimState}
use casegraph.Domain.Model.Workflow.{
  RuleCondition, RuleVersion, RuleResult, satisfied, not_satisfied, indeterminate, RuleInput,
  GroundedClaim,
}
use Anchors.{is_verified, is_anchor, anchor_date, anchor_dates}
use Inputs.{rule_input, sort_inputs, dedup_inputs}

-- What the loop over the conditions collects.
pub record Tally : Type 0 where
  pub inputs : List RuleInput
  pub missing : List Text
  pub failed : List Text
  pub disagreement : List Text

abbrev pub empty_tally : Tally
empty_tally = record { inputs = []; missing = []; failed = []; disagreement = [] }

-- A verified claim about the condition's subject and predicate.
abbrev pub is_candidate : RuleCondition → GroundedClaim → Bool
is_candidate c item =
    is_verified item.current_state
    && (text_eq item.claim.subject_key c.subject_key && text_eq item.claim.predicate c.predicate)

abbrev pub candidates : RuleCondition → List GroundedClaim → List GroundedClaim
candidates c grounded = filter (is_candidate c) grounded

abbrev pub matches_expected : RuleCondition → GroundedClaim → Bool
matches_expected c item = value_eq item.claim.normalized_value c.expected

-- One round of the loop, with the candidates and the number of them that match.
pub judge : RuleCondition → List GroundedClaim → ℕ → Tally → Tally
judge c [] matching t = record t { missing = t.missing ++ (c.predicate ∷ []) }
judge c (item ∷ items) matching t =
    let found = item ∷ items in
    let inputs = t.inputs ++ map rule_input found in
    if ltb 0 matching && ltb matching (length found)
    then record t { inputs = inputs; disagreement = t.disagreement ++ (c.predicate ∷ []) }
    else if matching == 0
    then record t { inputs = inputs; failed = t.failed ++ (c.predicate ∷ []) }
    else record t { inputs = inputs }

pub judge_all : List GroundedClaim → List RuleCondition → Tally → Tally
judge_all grounded [] t = t
judge_all grounded (c ∷ conditions) t =
    let found = candidates c grounded in
    judge_all grounded conditions (judge c found (length (filter (matches_expected c) found)) t)

pub record Verdict : Type 0 where
  pub result : RuleResult
  pub explanation : Text

-- The result and its explanation, from what was collected and the dates of the anchors.
pub conclude : Text → Tally → List Date → Verdict
conclude anchor t dates =
    if not (length t.disagreement == 0) || ltb 1 (length dates)
    then record {
      result = indeterminate;
      explanation = lit "Verified facts disagree; human adjudication is required.";
    }
    else if not (length t.missing == 0)
    then record {
      result = indeterminate;
      explanation =
          lit "Required verified facts are missing: " ++ (join (lit ", ") t.missing ++ lit ".");
    }
    else if not (length t.failed == 0)
    then record {
      result = not_satisfied;
      explanation =
          lit "Rule conditions were not satisfied: " ++ (join (lit ", ") t.failed ++ lit ".");
    }
    else if length dates == 0
    then record {
      result = indeterminate;
      explanation = lit "A verified deadline anchor (" ++ (anchor ++ lit ") is missing.");
    }
    else record {
      result = satisfied;
      explanation =
          lit "All conditions and the deadline anchor are established by verified evidence.";
    }

pub record Decision : Type 0 where
  pub verdict : Verdict
  pub inputs : List RuleInput
  pub dates : List Date

-- `evaluate` up to the first read of the clock.
unfoldable pub decide : RuleVersion → List GroundedClaim → Decision
unfolding judge_all conclude
decide version grounded =
    let anchor = version.definition.effect.deadline_anchor_predicate in
    let tally = judge_all grounded version.definition.all empty_tally in
    let anchors = filter (is_anchor anchor) grounded in
    let dates = anchor_dates anchors in
    record {
      verdict = conclude anchor tally dates;
      inputs = dedup_inputs (sort_inputs (tally.inputs ++ map rule_input anchors));
      dates = dates;
    }
