-- ===== src/Application/Query/Cites.antt =====
-- What the answers of `query` in crates/casegraph-application/src/rules.rs cite and claim.
use mathlib.Core.Path.{subst}
use mathlib.Core.List.{Perm}
use mathlib.Core.List.Perm
use casegraph.Prelude.{
  ◌≡◌, refl, sym, ◌∙◌, arith, Bool, true, ◌&&◌, List, [], ◌∷◌, map, all, All, filter_same,
  All-filter, All-weaken, ◌↔◌, filter, Bool-cases, inl, inr,
}
use casegraph.Text.{Text}
use casegraph.Text.Ascii.{to_ascii_lowercase}
use casegraph.Text.Search.Occurs.{Occurs, contains_iff}
use casegraph.Domain.Id.{RecordId, id_cmp}
use casegraph.Domain.Model.Workflow.{GroundedClaim, established}
use casegraph.Application.Codec.{Codec}
use casegraph.Application.Rules.Anchors.{is_verified}
use casegraph.Application.Rules.Established.{IsVerified, is_verified_iff}
use casegraph.Application.Query.{
  is_asked, is_gt, insert_claim, sort_claims, mode_of, claims_answer, answer,
}

abbrev pub claim_id_of : GroundedClaim → RecordId
claim_id_of item = item.claim.id

abbrev all_verified : List GroundedClaim → Bool
all_verified items = all (λ item. is_verified item.current_state) items

insert_claim-Perm :
    (a : GroundedClaim) (s : List GroundedClaim)
    → Perm (map claim_id_of (insert_claim a s)) (map claim_id_of (a ∷ s))
unfolding insert_claim
insert_claim-Perm a [] = Perm.refl _
insert_claim-Perm a (b ∷ s) = elim (Bool-cases (is_gt (id_cmp a.claim.id b.claim.id))) [
  | inl late ↦ rw late (Perm.trans (Perm.cons _ (insert_claim-Perm a s)) (Perm.swap _ _ _))
  | inr early ↦ rw early (Perm.refl _)
]

sort_claims-Perm :
    (s : List GroundedClaim) → Perm (map claim_id_of (sort_claims s)) (map claim_id_of s)
unfolding sort_claims
sort_claims-Perm [] = Perm.refl _
sort_claims-Perm (a ∷ s) =
    Perm.trans (insert_claim-Perm a (sort_claims s)) (Perm.cons _ (sort_claims-Perm s))

all_verified-insert_claim :
    (a : GroundedClaim) (s : List GroundedClaim)
    → all_verified (insert_claim a s) ≡ (is_verified a.current_state && all_verified s)
unfolding insert_claim
all_verified-insert_claim a [] = refl
all_verified-insert_claim a (b ∷ s) = elim (Bool-cases (is_gt (id_cmp a.claim.id b.claim.id))) [
  | inl late ↦ rw late (ground (arith, all_verified-insert_claim a s))
  | inr early ↦ rw early refl
]

all_verified-sort_claims : (s : List GroundedClaim) → all_verified (sort_claims s) ≡ all_verified s
unfolding sort_claims
all_verified-sort_claims [] = refl
all_verified-sort_claims (a ∷ s) =
    ground (arith, all_verified-insert_claim a (sort_claims s), all_verified-sort_claims s)

all_verified-All : (s : List GroundedClaim) → all_verified s ≡ true → All IsVerified s
all_verified-All [] h = tt
all_verified-All (a ∷ s) h =
    ((is_verified_iff a.current_state).0 (ground arith), all_verified-All s (ground arith))

claims_answer-cites :
    (codec : Codec) (s : List GroundedClaim) → (claims_answer codec s).claim_ids ≡ map claim_id_of s
claims_answer-cites codec [] = refl
claims_answer-cites codec (a ∷ s) = refl

claims_answer-verified :
    (codec : Codec) (s : List GroundedClaim)
    → (claims_answer codec s).mode ≡ established
    → all_verified s ≡ true
unfolding mode_of
claims_answer-verified codec [] h = cc
claims_answer-verified codec (a ∷ s) h = ground arith

-- The question names the predicate of the claim: it contains it in lower case.
abbrev pub IsNamed : Text → GroundedClaim → Type 0
IsNamed question item = Occurs (to_ascii_lowercase item.claim.predicate) question

-- An answer from the claims cites exactly the claims whose predicate stands, in lower case, in the
-- question, each as often as it is listed: whatever test tells these claims, the answer's claims are
-- those that pass it, up to their order.
pub answer-cites :
    (codec : Codec) (question : Text) (claims : List GroundedClaim) (named : GroundedClaim → Bool)
    → ((item : GroundedClaim) → (named item ≡ true) ↔ IsNamed question item)
    → Perm (answer codec question claims).claim_ids (map claim_id_of (filter named claims))
unfolding answer
answer-cites codec question claims named tells =
    let asked = filter (is_asked question) claims in
    let same : asked ≡ filter named claims = filter_same (is_asked question) named claims (λ item.
      let found = contains_iff question (to_ascii_lowercase item.claim.predicate) in
      (λ h. (tells item).1 (found.0 h), λ h. found.1 ((tells item).0 h))) in
    subst
      (λ items. Perm (claims_answer codec (sort_claims asked)).claim_ids (map claim_id_of items))
      same (rw (claims_answer-cites codec (sort_claims asked)) (sort_claims-Perm asked))

-- An answer from the claims says "established" only if every claim whose predicate stands, in lower
-- case, in the question is verified. Answers from the workflow are not among these.
pub answer-IsVerified :
    (codec : Codec) (question : Text) (claims : List GroundedClaim)
    → (answer codec question claims).mode ≡ established
    → All (λ item. IsNamed question item → IsVerified item) claims
unfolding answer
answer-IsVerified codec question claims h =
    let asked = filter (is_asked question) claims in
    All-weaken claims
      (λ item verified named.
        verified ((contains_iff question (to_ascii_lowercase item.claim.predicate)).1 named))
      ((All-filter IsVerified (is_asked question) claims).0 (
        all_verified-All asked (
          sym (all_verified-sort_claims asked)
          ∙ claims_answer-verified codec (sort_claims asked) h)))
