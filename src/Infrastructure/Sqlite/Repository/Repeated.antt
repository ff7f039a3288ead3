-- ===== src/Infrastructure/Sqlite/Repository/Repeated.antt =====
-- When `record_evaluation` of crates/casegraph-infrastructure/src/sqlite_repository.rs finds an
-- earlier evaluation.
use casegraph.Prelude.{
  ◌&&◌, ◌↔◌, ◌≡◌, Any, Bool, Bool-cases, arith, true, inl, inr, refl, List, [], ◌∷◌, none, some,
}
use casegraph.Text.{text_eq, text_eq_iff}
use casegraph.Domain.Model.Workflow.{RuleEvaluation}
use casegraph.Infrastructure.Sqlite.Rows.{Database, EvaluationRow}
use casegraph.Infrastructure.Sqlite.Tables.{as_evaluation, select}
use casegraph.Infrastructure.Sqlite.Insert.{first_match}
use casegraph.Infrastructure.Sqlite.Evaluations.{same_evaluation}

-- A stored evaluation of the same rule version in the same case, on inputs of the same digest.
pub record SameInputs (e : RuleEvaluation) (r : EvaluationRow) : Type 0 where
  pub one_case : r.case_id ≡ e.case_id.value
  pub one_version : r.rule_version_id ≡ e.rule_version_id.value
  pub one_digest : r.inputs_sha256 ≡ e.inputs_sha256

first_match-Any :
    {A : Type 0} (p : A → Bool) (P : A → Type 0) (rows : List A) (a : A)
    → ((x : A) → p x ≡ true → P x)
    → first_match p rows ≡ some a
    → Any P rows
first_match-Any p P [] a h e = absurd (cc)
first_match-Any p P (x ∷ rows) a h e = elim (Bool-cases (p x)) [
  | inl holds ↦ inl (h x holds)
  | inr fails ↦ inr (first_match-Any p P rows a h (ground arith))
]

first_match-none :
    {A : Type 0} (p : A → Bool) (P : A → Type 0) (rows : List A)
    → ((x : A) → P x → p x ≡ true)
    → first_match p rows ≡ none
    → Any P rows
    → ⊥
first_match-none p P [] h e a = a
first_match-none p P (x ∷ rows) h e (inl a) = let holds = h x a in absurd (ground arith)
first_match-none p P (x ∷ rows) h e (inr a) = first_match-none p P rows h (ground arith) a

abbrev same_inputs : RuleEvaluation → EvaluationRow → Bool
same_inputs e r =
    text_eq r.case_id e.case_id.value
    && (text_eq r.rule_version_id e.rule_version_id.value
        && text_eq r.inputs_sha256 e.inputs_sha256)

same_inputs_iff :
    (e : RuleEvaluation) (r : EvaluationRow) → (same_inputs e r ≡ true) ↔ SameInputs e r
same_inputs_iff e r =
    let case_iff = text_eq_iff r.case_id e.case_id.value in
    let version_iff = text_eq_iff r.rule_version_id e.rule_version_id.value in
    let digest_iff = text_eq_iff r.inputs_sha256 e.inputs_sha256 in
    (
      λ h. record {
        one_case = case_iff.0 (ground arith);
        one_version = version_iff.0 (ground arith);
        one_digest = digest_iff.0 (ground arith);
      },
      λ s. rw (case_iff.1 s.one_case, version_iff.1 s.one_version, digest_iff.1 s.one_digest) refl,
    )

pub same_evaluation-repeated :
    (e : RuleEvaluation) (db : Database) (row : EvaluationRow)
    → same_evaluation e db ≡ some row
    → Any (SameInputs e) (select as_evaluation db)
unfolding same_evaluation
same_evaluation-repeated e db row h =
    first_match-Any (same_inputs e) (SameInputs e) (select as_evaluation db) row
      (λ r. (same_inputs_iff e r).0) h

pub same_evaluation-fresh :
    (e : RuleEvaluation) (db : Database)
    → same_evaluation e db ≡ none
    → Any (SameInputs e) (select as_evaluation db)
    → ⊥
unfolding same_evaluation
same_evaluation-fresh e db h =
    first_match-none (same_inputs e) (SameInputs e) (select as_evaluation db)
      (λ r. (same_inputs_iff e r).1) h
