-- ===== src/Application/Rules/Inputs.antt =====
-- The inputs that an evaluation records: crates/casegraph-application/src/rules.rs.
use Prim.Native.Nat.{Ordering}
use casegraph.Prelude.{Bool, true, false, List, [], ◌∷◌, if◌then◌else◌}
use casegraph.Text.{text_cmp}
use casegraph.Domain.Id.{id_eq, id_cmp}
use casegraph.Domain.Model.Workflow.{RuleInput, GroundedClaim}

-- `rule_input`.
abbrev pub rule_input : GroundedClaim → RuleInput
rule_input item = record {
  claim_id = item.claim.id;
  evidence_ids = item.evidence_ids;
  subject_key = item.claim.subject_key;
  predicate = item.claim.predicate;
  value = item.claim.normalized_value;
}

abbrev pub or_else : Ordering → Ordering → Ordering
or_else Ordering.lt other = Ordering.lt
or_else Ordering.eq other = other
or_else Ordering.gt other = Ordering.gt

-- By subject, predicate and claim.
pub input_cmp : RuleInput → RuleInput → Ordering
input_cmp a b =
    or_else (text_cmp a.subject_key b.subject_key)
      (or_else (text_cmp a.predicate b.predicate) (id_cmp a.claim_id b.claim_id))

abbrev is_gt : Ordering → Bool
is_gt Ordering.gt = true
is_gt _ = false

-- `sort_by` is stable; so is an insertion from the right behind no equal item.
pub insert_input : RuleInput → List RuleInput → List RuleInput
insert_input a [] = a ∷ []
insert_input a (b ∷ s) =
    let rest = insert_input a s in if is_gt (input_cmp a b) then b ∷ rest else a ∷ b ∷ s

pub sort_inputs : List RuleInput → List RuleInput
sort_inputs [] = []
sort_inputs (a ∷ s) = insert_input a (sort_inputs s)

-- `dedup_by`: an item goes if it has the claim of the last one that was kept.
pub dedup_after : RuleInput → List RuleInput → List RuleInput
dedup_after last [] = []
dedup_after last (a ∷ s) =
    let skipped = dedup_after last s in
    let kept = a ∷ dedup_after a s in if id_eq a.claim_id last.claim_id then skipped else kept

pub dedup_inputs : List RuleInput → List RuleInput
dedup_inputs [] = []
dedup_inputs (a ∷ s) = a ∷ dedup_after a s
