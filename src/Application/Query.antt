-- ===== src/Application/Query.antt =====
-- `RuleWorkflowService::query` of crates/casegraph-application/src/rules.rs.
pub mod Cites
use Prim.Native.Nat.{Ordering}
use mathlib.Core.List.{reverse}
use casegraph.Prelude.{
  Bool, true, false, ◌||◌, Option, none, some, List, [], ◌∷◌, ◌++◌, map, ltb, length, all, any,
  filter, if◌then◌else◌,
}
use casegraph.Prelude.Result.{ok, err}
use casegraph.Text.{Text, lit, text_cmp}
use casegraph.Text.Ascii.{to_ascii_lowercase}
use casegraph.Text.Search.{contains}
use casegraph.Domain.Id.{RecordId, id_cmp}
use casegraph.Domain.Temporal.{Date, to_iso}
use casegraph.Domain.Value.{KnowledgeValue, known, unknown, not_applicable, not_evaluated}
use casegraph.Domain.Model.Evidence.{ClaimState}
use casegraph.Domain.Model.Workflow.{
  WorkflowTask, WorkflowMaterialization, GroundedClaim, Deadline, AnswerMode, established, claimed,
  suggested, conflicting, GroundedAnswer,
}
use casegraph.Application.Monad.{App, pure, ◌>>=◌}
use casegraph.Application.Ports.{Ports}
use casegraph.Application.Codec.{Codec}
use casegraph.Application.Rules.Anchors.{is_verified}

-- `unknown_answer`.
abbrev pub unknown_answer : GroundedAnswer
unknown_answer = record {
  mode = AnswerMode.unknown;
  statement = lit "The system does not have sufficient evidence to determine this.";
  claim_ids = [];
  provenance_ids = [];
  evidence_ids = [];
  rule_evaluation_ids = [];
}

-- `flat_map`.
abbrev pub flat_map : {A B : Type 0} → (A → List B) → List A → List B
flat_map f [] = []
flat_map f (a ∷ s) = f a ++ flat_map f s

abbrev pub filter_map : {A B : Type 0} → (A → Option B) → List A → List B
filter_map f [] = []
filter_map f (a ∷ s) = let rest = filter_map f s in elim (f a) [ none ↦ rest | some b ↦ b ∷ rest ]

abbrev pub asks_for_work : Text → Bool
asks_for_work question =
    contains question (lit "deadline")
    || (contains question (lit "what must") || contains question (lit "need to do"))

-- The first item, of the reversed list, that has a task.
abbrev pub with_task :
    List WorkflowMaterialization → Option (WorkflowMaterialization × WorkflowTask)
with_task [] = none
with_task (item ∷ items) =
    let rest = with_task items in elim item.task [ none ↦ rest | some task ↦ some (item, task) ]

abbrev due_text : Option Date → Text
due_text none = lit "an unresolved date"
due_text (some due) = to_iso due

abbrev due_of : Option Deadline → Option Date
due_of none = none
due_of (some deadline) = deadline.due_latest

abbrev work_of : WorkflowMaterialization → WorkflowTask → GroundedAnswer
work_of item task = record {
  mode = established;
  statement =
      task.title
      ++ (lit " is required by a satisfied rule evaluation and is due "
          ++ (due_text (due_of item.deadline) ++ lit "."));
  claim_ids = map (λ input. input.claim_id) item.evaluation.inputs;
  provenance_ids = [];
  evidence_ids = flat_map (λ input. input.evidence_ids) item.evaluation.inputs;
  rule_evaluation_ids = item.evaluation.id ∷ [];
}

abbrev pub work_answer : List WorkflowMaterialization → GroundedAnswer
work_answer workflows = elim (with_task (reverse workflows)) [
  | none ↦ unknown_answer
  | some (item, task) ↦ work_of item task
]

-- The claims that the question names by their predicate.
abbrev pub is_asked : Text → GroundedClaim → Bool
is_asked question item = contains question (to_ascii_lowercase item.claim.predicate)

abbrev pub is_gt : Ordering → Bool
is_gt Ordering.gt = true
is_gt _ = false

-- `sort_by` on the claims' identifiers.
unfoldable pub insert_claim : GroundedClaim → List GroundedClaim → List GroundedClaim
insert_claim a [] = a ∷ []
insert_claim a (b ∷ s) =
    let rest = insert_claim a s in
    if is_gt (id_cmp a.claim.id b.claim.id) then b ∷ rest else a ∷ b ∷ s

unfoldable pub sort_claims : List GroundedClaim → List GroundedClaim
sort_claims [] = []
sort_claims (a ∷ s) = insert_claim a (sort_claims s)

-- `canonical_json(value).ok()` of a known value.
abbrev pub written : Codec → KnowledgeValue → Option Text
written codec (known value) = elim (codec.value_json value) [ ok s ↦ some s | err e ↦ none ]
written codec unknown = none
written codec not_applicable = none
written codec not_evaluated = none

-- `BTreeSet::insert`.
unfoldable pub insert_text : Text → List Text → List Text
insert_text t [] = t ∷ []
insert_text t (u ∷ s) =
    let rest = insert_text t s in
    elim (text_cmp t u) [ Ordering.lt ↦ t ∷ u ∷ s | Ordering.eq ↦ u ∷ s | Ordering.gt ↦ u ∷ rest ]

unfoldable pub text_set : List Text → List Text
text_set [] = []
text_set (t ∷ s) = insert_text t (text_set s)

abbrev pub values : Codec → List GroundedClaim → List Text
values codec matched =
    text_set (filter_map (λ item. written codec item.claim.normalized_value) matched)

abbrev pub is_suggested : ClaimState → Bool
is_suggested ClaimState.inferred = true
is_suggested ClaimState.corroborated = true
is_suggested _ = false

unfoldable pub mode_of : Codec → List GroundedClaim → AnswerMode
mode_of codec matched =
    if ltb 1 (length (values codec matched))
    then conflicting
    else if all (λ item. is_verified item.current_state) matched
    then established
    else if any (λ item. is_suggested item.current_state) matched
    then suggested
    else claimed

abbrev pub statement_of : AnswerMode → Text
statement_of established = lit "The evidence establishes a value for this predicate."
statement_of claimed = lit "One or more sources claim a value for this predicate."
statement_of suggested = lit "The available evidence suggests a value for this predicate."
statement_of conflicting = lit "Sources disagree about this predicate."
statement_of AnswerMode.unknown =
    lit "The system does not have sufficient evidence to determine this."

-- The answer from the claims that match, in their order.
abbrev pub claims_answer : Codec → List GroundedClaim → GroundedAnswer
claims_answer codec [] = unknown_answer
claims_answer codec (item ∷ items) =
    let matched = item ∷ items in
    record {
      mode = mode_of codec matched;
      statement = statement_of (mode_of codec matched);
      claim_ids = map (λ i. i.claim.id) matched;
      provenance_ids = filter_map (λ i. i.provenance_id) matched;
      evidence_ids = flat_map (λ i. i.evidence_ids) matched;
      rule_evaluation_ids = [];
    }

unfoldable pub answer : Codec → Text → List GroundedClaim → GroundedAnswer
answer codec question claims = claims_answer codec (sort_claims (filter (is_asked question) claims))

module _ {W : Type 0} (codec : Codec) (ports : Ports W) where
  abbrev answer_workflow : RecordId → App W GroundedAnswer
  answer_workflow case_id = do workflows ← ports.list_workflow case_id; pure (work_answer workflows)

  abbrev answer_claims : RecordId → Text → App W GroundedAnswer
  answer_claims case_id question = do
    claims ← ports.list_grounded_claims case_id
    pure (answer codec question claims)

  unfoldable pub query : RecordId → Text → App W GroundedAnswer
  query case_id question =
      let normalized_question = to_ascii_lowercase question in
      if asks_for_work normalized_question
      then answer_workflow case_id
      else answer_claims case_id normalized_question
