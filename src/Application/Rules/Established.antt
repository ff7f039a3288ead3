-- ===== src/Application/Rules/Established.antt =====
-- What a satisfied rule rests on: the conditions of a rule version against the verified claims of a
-- case, and the date of its deadline anchor.
use casegraph.Prelude.{
  ◌≡◌, refl, ◌↔◌, Bool, true, false, not, ◌&&◌, List, [], ◌∷◌, arith, All, Any, length,
  length-filter, filter, ◌==◌,
}
use casegraph.Text.{Text, text_eq_iff}
use casegraph.Domain.Temporal.{Date}
use casegraph.Domain.Value.{known, date_value}
use casegraph.Domain.Value.Equality.{value_eq_iff}
use casegraph.Domain.Model.Evidence.{ClaimState}
use casegraph.Domain.Model.Workflow.{RuleCondition, RuleVersion, GroundedClaim}
use casegraph.Application.Rules.{is_candidate, candidates, matches_expected}
use casegraph.Application.Rules.Anchors.{is_verified}

abbrev pub IsVerified : GroundedClaim → Type 0
IsVerified item = item.current_state ≡ ClaimState.verified

abbrev pub IsCandidate : RuleCondition → GroundedClaim → Type 0
IsCandidate c item =
    IsVerified item
    × (item.claim.subject_key ≡ c.subject_key)
    × (item.claim.predicate ≡ c.predicate)

-- Some verified claim speaks to the condition, and all that do have the expected value.
pub record IsSupported (grounded : List GroundedClaim) (c : RuleCondition) : Type 0 where
  pub present : Any (IsCandidate c) grounded
  pub agreed : All (λ item. IsCandidate c item → item.claim.normalized_value ≡ c.expected) grounded

-- A verified claim that the anchor is on the date.
abbrev pub IsAnchorOn : Text → Date → GroundedClaim → Type 0
IsAnchorOn anchor d item =
    IsVerified item
    × (item.claim.predicate ≡ anchor)
    × (item.claim.normalized_value ≡ known (date_value d))

-- Verified claims put the anchor on this date and on no other.
pub record IsAnchored (anchor : Text) (grounded : List GroundedClaim) (d : Date) : Type 0 where
  pub present : Any (IsAnchorOn anchor d) grounded
  pub agreed : All (λ item. (e : Date) → IsAnchorOn anchor e item → e ≡ d) grounded

pub record IsEstablished (version : RuleVersion) (grounded : List GroundedClaim) : Type 0 where
  pub conditions : All (IsSupported grounded) version.definition.all
  pub on : Date
  pub anchored : IsAnchored version.definition.effect.deadline_anchor_predicate grounded on

pub is_verified_iff : (s : ClaimState) → (is_verified s ≡ true) ↔ (s ≡ ClaimState.verified)
is_verified_iff s = ground arith

pub is_candidate_iff :
    (c : RuleCondition) (item : GroundedClaim) → (is_candidate c item ≡ true) ↔ IsCandidate c item
is_candidate_iff c item = ground (
  arith,
  is_verified_iff item.current_state,
  text_eq_iff item.claim.subject_key c.subject_key,
  text_eq_iff item.claim.predicate c.predicate,
)

-- The count of the candidates that match, against that of the candidates.
abbrev pub supported : List GroundedClaim → RuleCondition → Bool
supported grounded c =
    let found = candidates c grounded in
    not (length found == 0) && (length (filter (matches_expected c) found) == length found)

some-IsCandidate :
    (c : RuleCondition) (grounded : List GroundedClaim)
    → ((length (candidates c grounded) == 0) ≡ false) ↔ Any (IsCandidate c) grounded
some-IsCandidate c [] = (λ h. cc, λ h. absurd h)
some-IsCandidate c (item ∷ items) = (
  λ h. ground (arith, is_candidate_iff c item, (some-IsCandidate c items).0),
  λ h. ground (arith, is_candidate_iff c item, (some-IsCandidate c items).1),
)

All-candidates :
    (c : RuleCondition) (grounded : List GroundedClaim)
    → (length (filter (matches_expected c) (candidates c grounded))
        ≡ length (candidates c grounded))
      ↔ All (λ item. IsCandidate c item → item.claim.normalized_value ≡ c.expected) grounded
All-candidates c [] = (λ h. tt, λ h. refl)
All-candidates c (item ∷ items) =
    let shorter = length-filter (matches_expected c) (candidates c items) in
    (
      λ h. (
        λ e. ground (
          arith,
          shorter,
          is_candidate_iff c item,
          value_eq_iff item.claim.normalized_value c.expected,
        ),
        (All-candidates c items).0 (ground (arith, shorter)),
      ),
      λ h. ground (
        arith,
        (All-candidates c items).1 h.1,
        is_candidate_iff c item,
        h.0,
        value_eq_iff item.claim.normalized_value c.expected,
      ),
    )

pub supported_iff :
    (grounded : List GroundedClaim) (c : RuleCondition)
    → (supported grounded c ≡ true) ↔ IsSupported grounded c
supported_iff grounded c = (
  λ h. record {
    present = (some-IsCandidate c grounded).0 (ground arith);
    agreed = (All-candidates c grounded).0 (ground arith);
  },
  λ h.
      ground
        (arith, (some-IsCandidate c grounded).1 h.present, (All-candidates c grounded).1 h.agreed),
)
