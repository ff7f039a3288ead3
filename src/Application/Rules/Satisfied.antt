-- ===== src/Application/Rules/Satisfied.antt =====
-- When an evaluation of crates/casegraph-application/src/rules.rs is satisfied.
use casegraph.Prelude.{
  ℕ, ◌+◌, ◌≤◌, ◌≡◌, refl, sym, ◌∙◌, ◌↔◌, ◌⊎◌, inl, inr, Bool, true, not, ◌&&◌, some, List, [], ◌∷◌,
  ◌++◌, arith, All, All-weaken, All-filter, Any-weaken, Any-filter, Any, length, length-append,
  length-filter, all, filter, ◌==◌,
}
use casegraph.Text.{Text, text_eq_iff}
use casegraph.Domain.Temporal.{Date}
use casegraph.Domain.Value.{KnowledgeValue, known, date_value}
use casegraph.Domain.Model.Workflow.{RuleCondition, RuleVersion, satisfied, GroundedClaim}
use casegraph.Application.Rules.{
  Tally, empty_tally, candidates, matches_expected, judge, judge_all, conclude, decide,
}
use casegraph.Application.Rules.Anchors.{is_anchor, known_date, anchor_date, anchor_dates}
use casegraph.Application.Rules.Dates.{AllOn, AnyOn, at_most_one, some_date, one_date}
use casegraph.Application.Rules.Established.{
  IsVerified, IsSupported, IsAnchorOn, IsAnchored, IsEstablished, is_verified_iff, supported,
  supported_iff,
}

-- Nothing was missing, failed or disputed.
abbrev clean : Tally → Bool
clean t = (length t.missing == 0) && ((length t.failed == 0) && (length t.disagreement == 0))

judge-clean :
    (c : RuleCondition) (found : List GroundedClaim) (m : ℕ) (t : Tally)
    → m ≤ length found
    → clean (judge c found m t) ≡ (clean t && (not (length found == 0) && (m == length found)))
unfolding judge
judge-clean c found m t h = go found h (more t.missing) (more t.failed) (more t.disagreement)
  where
    more : (s : List Text) → length (s ++ (c.predicate ∷ [])) ≡ length s + 1
    more s = length-append s (c.predicate ∷ [])

    go :
        (found : List GroundedClaim)
        → m ≤ length found
        → length (t.missing ++ (c.predicate ∷ [])) ≡ length t.missing + 1
        → length (t.failed ++ (c.predicate ∷ [])) ≡ length t.failed + 1
        → length (t.disagreement ++ (c.predicate ∷ [])) ≡ length t.disagreement + 1
        → clean (judge c found m t) ≡ (clean t && (not (length found == 0) && (m == length found)))
    go [] h a b d = ground arith
    go (item ∷ items) h a b d = ground arith

judge_all-clean :
    (grounded : List GroundedClaim) (conditions : List RuleCondition) (t : Tally)
    → clean (judge_all grounded conditions t) ≡ (clean t && all (supported grounded) conditions)
unfolding judge_all
judge_all-clean grounded [] t = ground arith
judge_all-clean grounded (c ∷ conditions) t =
    let found = candidates c grounded in
    let m = length (filter (matches_expected c) found) in
    ground (
      arith,
      judge_all-clean grounded conditions (judge c found m t),
      judge-clean c found m t (length-filter (matches_expected c) found),
    )

all_supported :
    (grounded : List GroundedClaim) (conditions : List RuleCondition)
    → (all (supported grounded) conditions ≡ true) ↔ All (IsSupported grounded) conditions
all_supported grounded [] = (λ h. tt, λ h. refl)
all_supported grounded (c ∷ conditions) = (
  λ h. (
    (supported_iff grounded c).0 (ground arith),
    (all_supported grounded conditions).0 (ground arith),
  ),
  λ h. ground (arith, (supported_iff grounded c).1 h.0, (all_supported grounded conditions).1 h.1),
)

-- The filter keeps the verified claims about the anchor.
is_anchor_iff :
    (anchor : Text) (item : GroundedClaim)
    → (is_anchor anchor item ≡ true) ↔ (IsVerified item × (item.claim.predicate ≡ anchor))
is_anchor_iff anchor item =
    ground (arith, is_verified_iff item.current_state, text_eq_iff item.claim.predicate anchor)

known_date_iff :
    (v : KnowledgeValue) (d : Date) → (known_date v ≡ some d) ↔ (v ≡ known (date_value d))
known_date_iff v d = ground arith

anchored :
    (anchor : Text) (d : Date) (items : List GroundedClaim)
    → ((AnyOn d (filter (is_anchor anchor) items)) ↔ Any (IsAnchorOn anchor d) items)
      × ((AllOn d (filter (is_anchor anchor) items))
          ↔ All (λ item. (e : Date) → IsAnchorOn anchor e item → e ≡ d) items)
anchored anchor d items =
    let sound : (item : GroundedClaim) (e : Date)
        → (is_anchor anchor item ≡ true) × (anchor_date item ≡ some e)
        → IsAnchorOn anchor e item =
      λ item e h. (
        ((is_anchor_iff anchor item).0 h.0).0,
        ((is_anchor_iff anchor item).0 h.0).1,
        (known_date_iff item.claim.normalized_value e).0 h.1,
      ) in
    let complete : (item : GroundedClaim) (e : Date)
        → IsAnchorOn anchor e item
        → (is_anchor anchor item ≡ true) × (anchor_date item ≡ some e) =
      λ item e h. (
        (is_anchor_iff anchor item).1 (h.0, h.1),
        (known_date_iff item.claim.normalized_value e).1 h.2,
      ) in
    (
      (
        λ h. Any-weaken items (λ item. sound item d) ((Any-filter _ (is_anchor anchor) items).0 h),
        λ h.
            (Any-filter _ (is_anchor anchor) items).1
              (Any-weaken items (λ item. complete item d) h),
      ),
      (
        λ h.
            All-weaken items (λ item f e k. f (complete item e k).0 e (complete item e k).1)
              ((All-filter _ (is_anchor anchor) items).0 h),
        λ h.
            (All-filter _ (is_anchor anchor) items).1
              (All-weaken items (λ item f b e k. f e (sound item e (b, k))) h),
      ),
    )

conclude-satisfied :
    (anchor : Text) (t : Tally) (dates : List Date)
    → ((conclude anchor t dates).result ≡ satisfied) ↔ ((clean t ≡ true) × (length dates ≡ 1))
unfolding conclude
conclude-satisfied anchor t dates = (λ h. ground arith, λ h. ground arith)

single : (dates : List Date) → (length dates ≡ 1) ↔ ((d : Date) × (dates ≡ d ∷ []))
single [] = (λ h. cc, λ h. cc)
single (d ∷ []) = (λ h. (d, refl), λ h. refl)
single (d ∷ e ∷ s) = (λ h. ground arith, λ h. absurd (cc))

one_anchor :
    (anchor : Text) (grounded : List GroundedClaim) (d : Date)
    → (anchor_dates (filter (is_anchor anchor) grounded) ≡ d ∷ []) ↔ IsAnchored anchor grounded d
one_anchor anchor grounded d =
    let anchors = filter (is_anchor anchor) grounded in
    let split : IsAnchored anchor grounded d
        → ¬ (anchor_dates anchors ≡ [])
          × ((anchor_dates anchors ≡ []) ⊎ (anchor_dates anchors ≡ d ∷ [])) =
      λ h. (
        some_date anchors d ((anchored anchor d grounded).0.1 h.present),
        at_most_one anchors d ((anchored anchor d grounded).1.1 h.agreed),
      ) in
    (
      λ h.
          let dates = one_date anchors d h in
          record {
            present = (anchored anchor d grounded).0.0 dates.0;
            agreed = (anchored anchor d grounded).1.0 dates.1;
          },
      λ h. elim ((split h).1) [ inl e ↦ absurd ((split h).0 e) | inr e ↦ e ],
    )

-- An evaluation is satisfied just when every condition of the rule has a verified claim about its
-- subject and predicate, all verified claims about them have the expected value, and the verified
-- claims about the deadline anchor name one date and no second one.
pub decide-IsEstablished :
    (version : RuleVersion) (grounded : List GroundedClaim)
    → ((decide version grounded).verdict.result ≡ satisfied) ↔ IsEstablished version grounded
unfolding decide
decide-IsEstablished version grounded =
    let anchor = version.definition.effect.deadline_anchor_predicate in
    let conditions = version.definition.all in
    let tally = judge_all grounded conditions empty_tally in
    let dates = anchor_dates (filter (is_anchor anchor) grounded) in
    let verdict = conclude-satisfied anchor tally dates in
    let tidy = judge_all-clean grounded conditions empty_tally in
    let supports = all_supported grounded conditions in
    (
      λ h.
          let d = (single dates).0 (verdict.0 h).1 in
          record {
            conditions = supports.0 (sym tidy ∙ (verdict.0 h).0);
            on = d.0;
            anchored = (one_anchor anchor grounded d.0).0 d.1;
          },
      λ h. verdict.1 (
        tidy ∙ supports.1 h.conditions,
        (single dates).1 (h.on, (one_anchor anchor grounded h.on).1 h.anchored),
      ),
    )

-- The dates of a satisfied evaluation are one, which the claims put the anchor on.
pub decide-anchor :
    (version : RuleVersion) (grounded : List GroundedClaim)
    → (decide version grounded).verdict.result ≡ satisfied
    → (d : Date) × ((decide version grounded).dates ≡ d ∷ [])
      × IsAnchored version.definition.effect.deadline_anchor_predicate grounded d
unfolding decide
decide-anchor version grounded h =
    let anchor = version.definition.effect.deadline_anchor_predicate in
    let dates = anchor_dates (filter (is_anchor anchor) grounded) in
    let (d, only) =
      (single dates).0
        ((conclude-satisfied anchor (judge_all grounded version.definition.all empty_tally) dates).0
          h).1 in
    (d, only, (one_anchor anchor grounded d).0 only)
