-- ===== src/Infrastructure/Sqlite/Claims/Compared.antt =====
-- What the loop of `record_claim` in crates/casegraph-infrastructure/src/sqlite_repository.rs finds.
use casegraph.Prelude.{append_assoc, append_nil, ap, if◌then◌else◌, sym, ◌||◌, ◌∙◌}
use casegraph.Infrastructure.Sqlite.Serde.{from_json}
use casegraph.Infrastructure.Sqlite.Tx.{lift, pure}
use casegraph.Infrastructure.Sqlite.Claims.{contradict, corroborate}
use casegraph.Infrastructure.Sqlite.Claims.{compare_prior, compare_priors}
use casegraph.Prelude.{Option, arith, none, refl, some, true}
use casegraph.Infrastructure.Sqlite.Rows.{ContradictionRow, Database}
use casegraph.Infrastructure.Sqlite.Tables.{as_contradiction, select}
use casegraph.Infrastructure.Sqlite.Serde.{traverse}
use casegraph.Infrastructure.Sqlite.Insert.{first_match}
use casegraph.Infrastructure.Sqlite.Load.{load_contradiction, read_contradiction}
use casegraph.Prelude.{Bool, List, [], false, filter, map, not, ◌&&◌, ◌++◌, ◌∷◌, ◌≡◌}
use casegraph.Prelude.Result.{Result, ok, err, ok_or, ◌>>=◌}
use casegraph.Text.{Text, lit, text_eq, text_eq_iff}
use casegraph.Domain.Id.{RecordId}
use casegraph.Domain.Id.Accepts.{parse-IsId}
use casegraph.Domain.Value.{KnowledgeValue}
use casegraph.Domain.Model.Evidence.{Claim, Contradiction}
use casegraph.Application.Error.{AppError}
use casegraph.Application.Ports.{ClaimBundle}
use casegraph.Infrastructure.Sqlite.Rows.{ClaimRow}
use casegraph.Infrastructure.Sqlite.Serde.{Serde, deterministic_id, ordered_ids, parse_id}
use casegraph.Infrastructure.Sqlite.Grown.{bind-ok}
use casegraph.Infrastructure.Sqlite.Claims.{Comparison, is_known}

-- The row has a known value.
abbrev pub row_known : Serde → ClaimRow → Bool
row_known serde r = elim (serde.read_value r.normalized_value_json) [
  | ok value ↦ is_known value
  | err e ↦ false
]

module _ (serde : Serde) (claim : Claim) where
  -- The identifier of the contradiction between two claims, in their order.
  abbrev pub contradiction_id : RecordId → Result AppError RecordId
  contradiction_id prior =
      let (a, b) = ordered_ids claim.id prior in
      deterministic_id serde (lit "contradiction") (a.value ∷ b.value ∷ [])

  abbrev pub contradiction_id_of : ClaimRow → Result AppError RecordId
  contradiction_id_of r = elim (parse_id r.id) [ ok id ↦ contradiction_id id | err e ↦ err e ]

module _ (serde : Serde) (claim : Claim) (normalized : Text) where
  -- Both values are known, and they are written alike.
  abbrev pub agrees : ClaimRow → Bool
  agrees r =
      is_known claim.normalized_value
      && (row_known serde r && text_eq r.normalized_value_json normalized)

  -- Both values are known, and they are written differently.
  abbrev pub opposes : ClaimRow → Bool
  opposes r =
      is_known claim.normalized_value
      && (row_known serde r && not (text_eq r.normalized_value_json normalized))

  -- The lists have grown by the rows that agree, and by the contradictions with those that oppose,
  -- in the order of the rows.
  pub record IsCompared (found : Comparison) (priors : List ClaimRow) (found' : Comparison)
      : Type 0 where
    pub agreed :
        map (λ id. ok id) found'.corroborates
        ≡ map (λ id. ok id) found.corroborates ++ map (λ r. parse_id r.id) (filter agrees priors)
    pub opposed :
        map (λ c. ok c.id) found'.contradictions
        ≡ map (λ c. ok c.id) found.contradictions
          ++ map (contradiction_id_of serde claim) (filter opposes priors)

parse_id-value : (s : Text) (id : RecordId) → parse_id s ≡ ok id → id.value ≡ s
unfolding parse_id
parse_id-value s id h = ((parse-IsId s id).0 (ground arith)).1

bind_result_ok :
    {A B : Type 0} (r : Result AppError A) (f : A → Result AppError B) (b : B)
    → (r >>= f) ≡ ok b
    → (a : A) × ((r ≡ ok a) × (f a ≡ ok b))
bind_result_ok (ok a) f b h = (a, (refl, h))
bind_result_ok (err e) f b h = absurd (cc)

read_contradiction_id :
    (r : ContradictionRow) (c : Contradiction)
    → read_contradiction r ≡ ok c
    → parse_id r.id ≡ ok c.id
unfolding read_contradiction
read_contradiction_id r c h = ground arith

first_match-true :
    {A : Type 0} (p : A → Bool) (xs : List A) (a : A) → first_match p xs ≡ some a → p a ≡ true
first_match-true p [] a h = cc
first_match-true p (x ∷ xs) a h = ground (arith, first_match-true p xs a)

load_contradiction_id :
    (id : RecordId) (db : Database) (c : Contradiction)
    → load_contradiction id db ≡ ok (some c)
    → c.id ≡ id
unfolding load_contradiction
load_contradiction_id id db c h = go (first_match _ (select as_contradiction db)) refl h
  where
    go :
        (o : Option ContradictionRow)
        → first_match (λ r. text_eq r.id id.value) (select as_contradiction db) ≡ o
        → traverse read_contradiction o ≡ ok (some c)
        → c.id ≡ id
    go none e k = absurd (cc)
    go (some r) e k =
        let (c', (hr, hk)) = bind_result_ok (read_contradiction r) _ (some c) k in
        let found =
          (text_eq_iff r.id id.value).0 (first_match-true _ (select as_contradiction db) r e) in
        ground (arith, parse_id-value r.id c'.id (read_contradiction_id r c' hr))

pub lift-ok :
    {A : Type 0} (r : Result AppError A) (db : Database) (a : A) (db' : Database)
    → lift r db ≡ ok (a, db')
    → r ≡ ok a
lift-ok (ok a) db b db' h = cc
lift-ok (err e) db b db' h = absurd (cc)

from_json-ok : {A : Type 0} (r : Result (Unit {0}) A) (a : A) → from_json r ≡ ok a → r ≡ ok a
from_json-ok (ok a) b h = cc
from_json-ok (err e) b h = absurd (cc)

ok_or-some : {A : Type 0} (e : AppError) (o : Option A) (a : A) → ok_or e o ≡ ok a → o ≡ some a
ok_or-some e none a h = absurd (cc)
ok_or-some e (some b) a h = cc

map-append : {A B : Type 0} (f : A → B) (xs ys : List A) → map f (xs ++ ys) ≡ map f xs ++ map f ys
map-append f [] ys = refl
map-append f (x ∷ xs) ys = ap (λ rest. f x ∷ rest) (map-append f xs ys)

pub pure-ok :
    {A : Type 0} (a : A) (db : Database) (b : A) (db' : Database) → pure a db ≡ ok (b, db') → b ≡ a
pure-ok a db b db' h = cc

module _ {A B : Type 0} (f : A → B) (p : A → Bool) (x : A) where
  filter-none : p x ≡ false → map f (filter p (x ∷ [])) ≡ []
  filter-none h = rw h refl

  filter-one : p x ≡ true → map f (filter p (x ∷ [])) ≡ f x ∷ []
  filter-one h = rw h refl

-- A filtered list is the filtered first item before the rest.
map-filter-cons :
    {A B : Type 0} (f : A → B) (p : A → Bool) (x : A) (xs : List A)
    → map f (filter p (x ∷ xs)) ≡ map f (filter p (x ∷ [])) ++ map f (filter p xs)
map-filter-cons f p x xs = ground arith

-- Two extensions of a list, one after the other.
extended : {A : Type 0} (a b c x y z : List A) → a ≡ b ++ y → b ≡ c ++ x → z ≡ x ++ y → a ≡ c ++ z
extended a b c x y z h k l = h ∙ ap (λ t. t ++ y) k ∙ append_assoc c x y ∙ ap (λ t. c ++ t) (sym l)

module _ (serde : Serde) (b : ClaimBundle) (normalized : Text) where
  row_tests :
      (prior : ClaimRow) (value : KnowledgeValue)
      → serde.read_value prior.normalized_value_json ≡ ok value
      → row_known serde prior ≡ is_known value
  row_tests prior value h = rw (h, row_known) refl

  opposed_id :
      (prior : ClaimRow) (prior_id : RecordId)
      → parse_id prior.id ≡ ok prior_id
      → contradiction_id_of serde b.claim prior ≡ contradiction_id serde b.claim prior_id
  opposed_id prior prior_id h = rw (h, contradiction_id_of) refl

  corroborate-adds :
      (found : Comparison) (prior_id : RecordId) (db : Database) (found' : Comparison)
      (db' : Database)
      → corroborate serde b found prior_id db ≡ ok (found', db')
      → (found'.corroborates ≡ found.corroborates ++ (prior_id ∷ []))
        × (found'.contradictions ≡ found.contradictions)
  unfolding corroborate
  corroborate-adds found prior_id db found' db' h =
      let (edge_id, db1, (_, h1)) = bind-ok _ _ db found' db' h in
      let (u, db2, (_, h2)) = bind-ok _ _ db1 found' db' h1 in
      let last = pure-ok _ db2 found' db' h2 in
      (ap (λ f. f.corroborates) last, ap (λ f. f.contradictions) last)

  contradict-adds :
      (found : Comparison) (prior_id : RecordId) (db : Database) (found' : Comparison)
      (db' : Database)
      → contradict serde b found prior_id db ≡ ok (found', db')
      → (c : Contradiction) × ((contradiction_id serde b.claim prior_id ≡ ok c.id)
          × ((found'.contradictions ≡ found.contradictions ++ (c ∷ []))
              × (found'.corroborates ≡ found.corroborates)))
  unfolding contradict
  contradict-adds found prior_id db found' db' h =
      let (cid, db1, (hc, h1)) = bind-ok _ _ db found' db' h in
      let (_, db2, (_, h2)) = bind-ok _ _ db1 found' db' h1 in
      let (loaded, db3, (hl, h3)) = bind-ok _ _ db2 found' db' h2 in
      let (c, db4, (hk, h4)) = bind-ok _ _ db3 found' db' h3 in
      let (_, db5, (_, h5)) = bind-ok _ _ db4 found' db' h4 in
      let (_, db6, (_, h6)) = bind-ok _ _ db5 found' db' h5 in
      let found_id : c.id ≡ cid = load_contradiction_id cid db2 c (
        lift-ok (load_contradiction cid db2) db2 loaded db3 hl
        ∙ ap (λ o. ok o) (ok_or-some _ loaded c (lift-ok (ok_or _ loaded) db3 c db4 hk))) in
      let last = pure-ok _ db6 found' db' h6 in
      (
        c,
        (
          lift-ok _ db cid db1 hc ∙ ap (λ i. ok i) (sym found_id),
          (ap (λ f. f.contradictions) last, ap (λ f. f.corroborates) last),
        ),
      )

  pub compare_prior-IsCompared :
      (found : Comparison) (prior : ClaimRow) (db : Database) (found' : Comparison) (db' : Database)
      → compare_prior serde b normalized found prior db ≡ ok (found', db')
      → IsCompared serde b.claim normalized found (prior ∷ []) found'
  unfolding compare_prior
  compare_prior-IsCompared found prior db found' db' h =
      let (prior_id, db1, (hp, h1)) = bind-ok _ _ db found' db' h in
      let (value, db2, (hv, h2)) = bind-ok _ _ db1 found' db' h1 in
      go prior_id value db2 (lift-ok (parse_id prior.id) db prior_id db1 hp)
        (from_json-ok _ value
          (lift-ok (from_json (serde.read_value prior.normalized_value_json)) db1 value db2 hv))
        (is_known b.claim.normalized_value) refl (is_known value) refl
        (text_eq prior.normalized_value_json normalized) refl h2
    where
      unchanged :
          found' ≡ found
          → agrees serde b.claim normalized prior ≡ false
          → opposes serde b.claim normalized prior ≡ false
          → IsCompared serde b.claim normalized found (prior ∷ []) found'
      unchanged e a o = record {
        agreed =
            ap (λ f. map (λ id. ok id) f.corroborates) e
            ∙ append_nil _
            ∙ ap (λ t. map (λ id. ok id) found.corroborates ++ t)
                (sym (filter-none (λ r. parse_id r.id) (agrees serde b.claim normalized) prior a));
        opposed =
            ap (λ f. map (λ c. ok c.id) f.contradictions) e
            ∙ append_nil _
            ∙ ap (λ t. map (λ c. ok c.id) found.contradictions ++ t)
                (sym (
                  filter-none (contradiction_id_of serde b.claim) (opposes serde b.claim normalized)
                    prior o));
      }

      go :
          (prior_id : RecordId) (value : KnowledgeValue) (db2 : Database)
          → parse_id prior.id ≡ ok prior_id
          → serde.read_value prior.normalized_value_json ≡ ok value
          → (new : Bool) → is_known b.claim.normalized_value ≡ new
          → (old : Bool) → is_known value ≡ old
          → (same_json : Bool) → text_eq prior.normalized_value_json normalized ≡ same_json
          → (if not new || not old
                then pure found
                else if same_json
                then corroborate serde b found prior_id
                else contradict serde b found prior_id)
              db2
            ≡ ok (found', db')
          → IsCompared serde b.claim normalized found (prior ∷ []) found'
      go prior_id value db2 hp hv false hn old ho same_json hs k =
          unchanged (pure-ok found db2 found' db' k) (ground arith) (ground arith)
      go prior_id value db2 hp hv true hn false ho same_json hs k =
          unchanged (pure-ok found db2 found' db' k) (ground (arith, row_tests prior value hv))
            (ground (arith, row_tests prior value hv))
      go prior_id value db2 hp hv true hn true ho true hs k =
          let (more, rest) = corroborate-adds found prior_id db2 found' db' k in
          record {
            agreed =
                ap (map (λ id. ok id)) more
                ∙ map-append _ found.corroborates (prior_id ∷ [])
                ∙ ap (λ t. map (λ id. ok id) found.corroborates ++ t)
                    (sym (
                      filter-one (λ r. parse_id r.id) (agrees serde b.claim normalized) prior
                        (ground (arith, row_tests prior value hv))
                      ∙ ap (λ r. r ∷ []) hp));
            opposed =
                ap (map (λ c. ok c.id)) rest
                ∙ append_nil _
                ∙ ap (λ t. map (λ c. ok c.id) found.contradictions ++ t)
                    (sym (
                      filter-none (contradiction_id_of serde b.claim)
                        (opposes serde b.claim normalized) prior
                        (ground (arith, row_tests prior value hv))));
          }
      go prior_id value db2 hp hv true hn true ho false hs k =
          let (c, (id, (more, rest))) = contradict-adds found prior_id db2 found' db' k in
          record {
            agreed =
                ap (map (λ i. ok i)) rest
                ∙ append_nil _
                ∙ ap (λ t. map (λ i. ok i) found.corroborates ++ t)
                    (sym (
                      filter-none (λ r. parse_id r.id) (agrees serde b.claim normalized) prior
                        (ground (arith, row_tests prior value hv))));
            opposed =
                ap (map (λ x. ok x.id)) more
                ∙ map-append _ found.contradictions (c ∷ [])
                ∙ ap (λ t. map (λ x. ok x.id) found.contradictions ++ t)
                    (sym (
                      filter-one (contradiction_id_of serde b.claim)
                        (opposes serde b.claim normalized) prior
                        (ground (arith, row_tests prior value hv))
                      ∙ ap (λ r. r ∷ []) (opposed_id prior prior_id hp ∙ id)));
          }

  pub compare_priors-IsCompared :
      (found : Comparison) (priors : List ClaimRow) (db : Database) (found' : Comparison)
      (db' : Database)
      → compare_priors serde b normalized found priors db ≡ ok (found', db')
      → IsCompared serde b.claim normalized found priors found'
  unfolding compare_priors
  compare_priors-IsCompared found [] db found' db' h = record {
    agreed = ap (λ f. map (λ id. ok id) f.corroborates) same_found ∙ append_nil _;
    opposed = ap (λ f. map (λ c. ok c.id) f.contradictions) same_found ∙ append_nil _;
  }
    where
      same_found : found' ≡ found
      same_found = cc
  compare_priors-IsCompared found (prior ∷ priors) db found' db' h =
      let (found1, db1, (h1, h2)) = bind-ok _ _ db found' db' h in
      let first = compare_prior-IsCompared found prior db found1 db1 h1 in
      let rest = compare_priors-IsCompared found1 priors db1 found' db' h2 in
      record {
        agreed =
            extended _ _ _ _ _ _ rest.agreed first.agreed
              (map-filter-cons (λ r. parse_id r.id) (agrees serde b.claim normalized) prior priors);
        opposed = extended _ _ _ _ _ _ rest.opposed first.opposed (
            map-filter-cons (contradiction_id_of serde b.claim) (opposes serde b.claim normalized)
              prior priors);
      }
