-- ===== src/Tests/Queries.antt =====
-- The question "signed" about the case with one verified claim under that predicate.
use mathlib.Core.List.{Perm}
use casegraph.Prelude.{◌≡◌, ◌↔◌, refl, true, map, filter, All}
use casegraph.Text.{lit}
use casegraph.Text.Ascii.{to_ascii_lowercase}
use casegraph.Text.Search.{contains, starts_with}
use casegraph.Text.Search.Occurs.{contains_iff}
use casegraph.Domain.Model.Workflow.{GroundedClaim, established}
use casegraph.Application.Rules.Established.{IsVerified}
use casegraph.Application.Query.{is_asked, answer}
use casegraph.Application.Query.Cites.{IsNamed, claim_id_of, answer-cites, answer-IsVerified}
use casegraph.Tests.Fixtures.{log_codec, grounded_claims}

asks_signed :
    (item : GroundedClaim) → (is_asked (lit "signed") item ≡ true) ↔ IsNamed (lit "signed") item
asks_signed item = contains_iff (lit "signed") (to_ascii_lowercase item.claim.predicate)

answer-cites_example :
    Perm
      (answer log_codec (lit "signed") grounded_claims).claim_ids
      (map claim_id_of (filter (is_asked (lit "signed")) grounded_claims))
answer-cites_example =
    answer-cites log_codec (lit "signed") grounded_claims (is_asked (lit "signed")) asks_signed

is_established : (answer log_codec (lit "signed") grounded_claims).mode ≡ established
unfolding answer lit contains starts_with to_ascii_lowercase casegraph.Application.Query.sort_claims
    casegraph.Application.Query.mode_of casegraph.Application.Query.text_set
    casegraph.Application.Query.insert_claim casegraph.Application.Query.insert_text
is_established = refl

answer-IsVerified_example :
    All (λ item. IsNamed (lit "signed") item → IsVerified item) grounded_claims
answer-IsVerified_example =
    answer-IsVerified log_codec (lit "signed") grounded_claims is_established
