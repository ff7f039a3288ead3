-- ===== src/Domain/Value/Equality.antt =====
-- The derived `PartialEq` of the values of crates/casegraph-domain/src/value.rs.
use native.Mathlib.Decide.{ℕ_discrete}
use casegraph.Prelude.{Bool, true, false, ◌≡◌, ◌↔◌, refl}
use casegraph.Domain.Value.{KnowledgeValue}

unfoldable pub KnowledgeValue-discrete : Discrete KnowledgeValue
unfolding ℕ_discrete
KnowledgeValue-discrete = hlevel ℕ_discrete

abbrev of_dec {ℓ} : {A : Type ℓ} → Dec A → Bool
of_dec (yes p) = true
of_dec (no p) = false

unfoldable pub value_eq : KnowledgeValue → KnowledgeValue → Bool
unfolding KnowledgeValue-discrete
value_eq a b = of_dec (KnowledgeValue-discrete a b)

of_dec_iff {ℓ} : {A : Type ℓ} (d : Dec A) → (of_dec d ≡ true) ↔ A
of_dec_iff (yes p) = (λ h. p, λ h. refl)
of_dec_iff (no p) = (λ h. absurd (cc), λ h. absurd (p h))

pub value_eq_iff : (a b : KnowledgeValue) → (value_eq a b ≡ true) ↔ (a ≡ b)
unfolding value_eq
value_eq_iff a b = of_dec_iff (KnowledgeValue-discrete a b)
