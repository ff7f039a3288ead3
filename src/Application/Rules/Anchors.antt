-- ===== src/Application/Rules/Anchors.antt =====
-- The deadline anchors of a rule, in crates/casegraph-application/src/rules.rs.
use casegraph.Prelude.{Bool, true, false, ◌&&◌, Option, none, some, List, [], ◌∷◌, if◌then◌else◌}
use casegraph.Text.{Text, text_eq}
use casegraph.Domain.Temporal.{Date, date_lt}
use casegraph.Domain.Value.{KnowledgeValue, date_value}
use casegraph.Domain.Model.Evidence.{ClaimState}
use casegraph.Domain.Model.Workflow.{GroundedClaim}

abbrev pub is_verified : ClaimState → Bool
is_verified ClaimState.verified = true
is_verified _ = false

abbrev pub is_anchor : Text → GroundedClaim → Bool
is_anchor anchor item = is_verified item.current_state && text_eq item.claim.predicate anchor

-- `Known(Date(date)) => Some(date)`.
abbrev pub known_date : KnowledgeValue → Option Date
known_date (KnowledgeValue.known (date_value d)) = some d
known_date _ = none

abbrev pub anchor_date : GroundedClaim → Option Date
anchor_date item = known_date item.claim.normalized_value

-- `BTreeSet::insert`: in increasing order, each date once.
unfoldable pub insert_date : Date → List Date → List Date
insert_date d [] = d ∷ []
insert_date d (e ∷ s) =
    let rest = insert_date d s in
    if date_lt d e then d ∷ e ∷ s else if date_lt e d then e ∷ rest else e ∷ s

abbrev pub insert_some : Option Date → List Date → List Date
insert_some none s = s
insert_some (some d) s = insert_date d s

-- The set of the anchors' dates, in its order.
unfoldable pub anchor_dates : List GroundedClaim → List Date
anchor_dates [] = []
anchor_dates (item ∷ items) = insert_some (anchor_date item) (anchor_dates items)
