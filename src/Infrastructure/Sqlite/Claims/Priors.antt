-- ===== src/Infrastructure/Sqlite/Claims/Priors.antt =====
-- `record_claim` of crates/casegraph-infrastructure/src/sqlite_repository.rs compares a claim with
-- the prior claims as they were before the call.
use casegraph.Prelude.{map, ◌↔◌, true, filter_same}
use casegraph.Infrastructure.Sqlite.Claims.Live.{IsLivePrior, UniqueIds, is_prior-IsLivePrior}
use casegraph.Infrastructure.Sqlite.Serde.{parse_id, to_json}
use casegraph.Infrastructure.Sqlite.Tx.{query}
use casegraph.Infrastructure.Sqlite.Insert.{claim_row_of}
use casegraph.Infrastructure.Sqlite.Claims.Compared.{
  agrees, contradiction_id_of, lift-ok, opposes, pure-ok,
}
use casegraph.Infrastructure.Sqlite.Order.{by_time, sort_by}
use casegraph.Infrastructure.Sqlite.Claims.{no_comparison, record_claim}
use casegraph.Infrastructure.Sqlite.Claims.Compared.{IsCompared, compare_priors-IsCompared}
use casegraph.Prelude.{List, ap, false, filter}
use casegraph.Infrastructure.Sqlite.Tables.{as_claim, as_state_change}
use casegraph.Infrastructure.Sqlite.Claims.{current_state, insert_grounded, is_prior, prior_claims}
use casegraph.Prelude.{Bool, Option, [], arith, none, refl, some, ◌++◌, ◌∙◌, ◌∷◌, ◌≡◌}
use casegraph.Infrastructure.Sqlite.Rows.{
  ClaimRow, Database, EdgeRow, EvidenceRow, ObservationRow, ProvenanceRow, Row, claim_row, edge_row,
  evidence_row, observation_row, provenance_row,
}
use casegraph.Infrastructure.Sqlite.Tables.{select}
use casegraph.Infrastructure.Sqlite.Serde.{Serde}
use casegraph.Infrastructure.Sqlite.Tx.{◌>>=◌, Tx, lift, lift_domain, pure}
use casegraph.Infrastructure.Sqlite.Statement.{
  Violation, collision, ensure_case_exists, insert, insert_or_ignore,
}
use casegraph.Infrastructure.Sqlite.Insert.{
  insert_claim, insert_edge, insert_evidence, insert_observation, insert_provenance,
}
use casegraph.Infrastructure.Sqlite.Grown.{bind-ok, lift-unchanged}
use casegraph.Prelude.Result.{Result, ok, err}
use casegraph.Text.{Text, text_eq_iff}
use casegraph.Domain.Id.{RecordId}
use casegraph.Domain.Temporal.{TimestampMs}
use casegraph.Domain.Error.{DomainError}
use casegraph.Domain.Model.Evidence.{ProvenanceRecord, Observation, Claim, Evidence}
use casegraph.Application.Error.{AppError}
use casegraph.Application.Ports.{ClaimBundle, ClaimResult}

-- A transaction that inserts no row of a kind.
record Silent {A R : Type 0} (kind : Row → Option R) (m : Tx A) : Type 0 where
  at :
      (db : Database) (a : A) (db' : Database)
      → m db ≡ ok (a, db')
      → select kind db' ≡ select kind db

insert-appends :
    (serde : Serde) (row : Row) (db : Database) (u : Unit {0}) (db' : Database)
    → insert serde row db ≡ ok (u, db')
    → db' ≡ db ++ (row ∷ [])
unfolding insert
insert-appends serde row db u db' h = ground arith

select-quiet :
    {R : Type 0} (kind : Row → Option R) (row : Row) (db : Database)
    → kind row ≡ none
    → select kind (db ++ (row ∷ [])) ≡ select kind db
select-quiet kind row [] h = rw h refl
select-quiet kind row (r ∷ db) h = ground (arith, select-quiet kind row db h)

module _ {R : Type 0} {kind : Row → Option R} where
  Silent-bind :
      {A B : Type 0} (m : Tx A) (f : A → Tx B)
      → Silent kind m
      → ((a : A) → Silent kind (f a))
      → Silent kind (m >>= f)
  Silent-bind m f sm sf = record {
    at = λ db b db'' h.
        let (a, db', (hm, hf)) = bind-ok m f db b db'' h in
        (sf a).at db' b db'' hf ∙ sm.at db a db' hm;
  }

  Silent-pure : {A : Type 0} (a : A) → Silent kind (pure a)
  Silent-pure a = record { at = λ db b db' h. ap (select kind) (cc) }

  Silent-lift : {A : Type 0} (r : Result AppError A) → Silent kind (lift r)
  Silent-lift r = record { at = λ db b db' h. ap (select kind) (lift-unchanged r db b db' h) }

  Silent-lift_domain : {A : Type 0} (r : Result DomainError A) → Silent kind (lift_domain r)
  Silent-lift_domain (ok a) = record { at = λ db b db' h. ap (select kind) (cc) }
  Silent-lift_domain (err e) = record { at = λ db b db' h. absurd (cc) }

  Silent-ensure_case_exists : (id : Text) → Silent kind (ensure_case_exists id)
  unfolding ensure_case_exists
  Silent-ensure_case_exists id = record { at = λ db b db' h. ap (select kind) (ground arith) }

  Silent-insert : (serde : Serde) (row : Row) → kind row ≡ none → Silent kind (insert serde row)
  Silent-insert serde row quiet = record {
    at = λ db u db' h.
        ap (select kind) (insert-appends serde row db u db' h) ∙ select-quiet kind row db quiet;
  }

  Silent-insert_or_ignore :
      (serde : Serde) (row : Row) → kind row ≡ none → Silent kind (insert_or_ignore serde row)
  unfolding insert_or_ignore
  Silent-insert_or_ignore serde row quiet = record {
    at = λ db u db' h. go db u db' (collision serde db row) refl h;
  }
    where
      go :
          (db : Database) (u : Bool) (db' : Database) (v : Option Violation)
          → collision serde db row ≡ v
          → insert_or_ignore serde row db ≡ ok (u, db')
          → select kind db' ≡ select kind db
      go db u db' (some v) e h = ap (select kind) (ground arith)
      go db u db' none e h =
          let appended : db' ≡ db ++ (row ∷ []) = ground arith in
          ap (select kind) appended ∙ select-quiet kind row db quiet

lift_domain-unchanged :
    {A : Type 0} (r : Result DomainError A) (db : Database) (a : A) (db' : Database)
    → lift_domain r db ≡ ok (a, db')
    → db' ≡ db
lift_domain-unchanged (ok a) db b db' h = cc
lift_domain-unchanged (err e) db b db' h = absurd (cc)

ruleset silent = (
  Silent-bind, Silent-pure, Silent-lift, Silent-lift_domain, Silent-ensure_case_exists,
  Silent-insert, Silent-insert_or_ignore,
)

module _ {R : Type 0} {kind : Row → Option R} (serde : Serde) where
  Silent-insert_provenance :
      (p : ProvenanceRecord)
      → ((r : ProvenanceRow) → kind (provenance_row r) ≡ none)
      → Silent kind (insert_provenance serde p)
  unfolding insert_provenance
  Silent-insert_provenance p quiet = search (silent, quiet)

  Silent-insert_observation :
      (o : Observation)
      → ((r : ObservationRow) → kind (observation_row r) ≡ none)
      → Silent kind (insert_observation serde o)
  unfolding insert_observation
  Silent-insert_observation o quiet = search (silent, quiet)

  Silent-insert_claim :
      (c : Claim)
      → ((r : ClaimRow) → kind (claim_row r) ≡ none)
      → Silent kind (insert_claim serde c)
  unfolding insert_claim
  Silent-insert_claim c quiet = search (silent, quiet)

  Silent-insert_evidence :
      (e : Evidence)
      → ((r : EvidenceRow) → kind (evidence_row r) ≡ none)
      → Silent kind (insert_evidence serde e)
  unfolding insert_evidence
  Silent-insert_evidence e quiet = search (silent, quiet)

  Silent-insert_edge :
      (edge_id case_id : RecordId) (from_kind : Text) (from_id : RecordId)
      (relationship to_kind : Text) (to_id : RecordId) (at : TimestampMs)
      → ((r : EdgeRow) → kind (edge_row r) ≡ none)
      → Silent kind
          (insert_edge serde edge_id case_id from_kind from_id relationship to_kind to_id at)
  unfolding insert_edge
  Silent-insert_edge edge_id case_id from_kind from_id relationship to_kind to_id at quiet =
      search (silent, quiet)

current_state-silent :
    (db db' : Database) (r : ClaimRow)
    → select as_state_change db' ≡ select as_state_change db
    → current_state db' r ≡ current_state db r
unfolding current_state
current_state-silent db db' r h = rw (h, current_state) refl

is_prior-silent :
    (db db' : Database) (claim : Claim) (r : ClaimRow)
    → select as_state_change db' ≡ select as_state_change db
    → is_prior db' claim r ≡ is_prior db claim r
unfolding is_prior
is_prior-silent db db' claim r h = rw (current_state-silent db db' r h) refl

-- A claim is none of its own priors.
is_prior_self :
    (db : Database) (claim : Claim) (r : ClaimRow)
    → r.id ≡ claim.id.value
    → is_prior db claim r ≡ false
unfolding is_prior
is_prior_self db claim r h = ground (arith, (text_eq_iff r.id claim.id.value).1 h)

filter-eq :
    {A : Type 0} (p q : A → Bool) (xs : List A) (x : A)
    → ((a : A) → p a ≡ q a)
    → p x ≡ false
    → filter p (xs ++ (x ∷ [])) ≡ filter q xs
filter-eq p q [] x e h = rw h refl
filter-eq p q (y ∷ xs) x e h = ground (arith, e y, filter-eq p q xs x e h)

select-append-one :
    {R : Type 0} (kind : Row → Option R) (db : Database) (row : Row) (r : R)
    → kind row ≡ some r
    → select kind (db ++ (row ∷ [])) ≡ select kind db ++ (r ∷ [])
select-append-one kind [] row r h = rw h refl
select-append-one kind (x ∷ db) row r h = ground (arith, select-append-one kind db row r h)

insert_claim-adds :
    (serde : Serde) (claim : Claim) (db : Database) (u : Unit {0}) (db' : Database)
    → insert_claim serde claim db ≡ ok (u, db')
    → (r : ClaimRow) × ((r.id ≡ claim.id.value)
        × (select as_claim db' ≡ select as_claim db ++ (r ∷ [])))
unfolding insert_claim
insert_claim-adds serde claim db u db' h =
    let (_, db1, (h0, h1)) = bind-ok _ _ db u db' h in
    let (normalized, db2, (h2, h3)) = bind-ok _ _ db1 u db' h1 in
    let (temporal, db3, (h4, h5)) = bind-ok _ _ db2 u db' h3 in
    let unchanged : db3 ≡ db =
      lift-unchanged _ db2 temporal db3 h4
      ∙ (lift-unchanged _ db1 normalized db2 h2 ∙ lift_domain-unchanged _ db _ db1 h0) in
    let row = claim_row_of claim normalized temporal in
    (
      row,
      (
        refl,
        ap (select as_claim) (insert-appends serde (claim_row row) db3 u db' h5)
            ∙ select-append-one as_claim db3 (claim_row row) row refl
            ∙ ap (λ d. select as_claim d ++ (row ∷ [])) unchanged,
      ),
    )

query-ok :
    {A : Type 0} (f : Database → A) (db : Database) (a : A) (db' : Database)
    → query f db ≡ ok (a, db')
    → a ≡ f db
query-ok f db a db' h = cc

to_json-ok : (r : Result (Unit {0}) Text) (s : Text) → to_json r ≡ ok s → r ≡ ok s
to_json-ok (ok a) b h = cc
to_json-ok (err e) b h = absurd (cc)

module _ (serde : Serde) (b : ClaimBundle) where
  insert_grounded-Silent : Silent as_state_change (insert_grounded serde b)
  unfolding insert_grounded
  insert_grounded-Silent =
      search
        (
          silent, Silent-insert_provenance, Silent-insert_observation, Silent-insert_claim,
          Silent-insert_evidence, Silent-insert_edge,
        )
        depth 20

  -- Of claims, it inserts one row, with the identifier of the claim.
  insert_grounded-adds :
      (db : Database) (u : Unit {0}) (db' : Database)
      → insert_grounded serde b db ≡ ok (u, db')
      → (r : ClaimRow) × ((r.id ≡ b.claim.id.value)
          × (select as_claim db' ≡ select as_claim db ++ (r ∷ [])))
  unfolding insert_grounded
  insert_grounded-adds db u db' h =
      let (v1, db1, (h1, k1)) = bind-ok _ _ db u db' h in
      let (v2, db2, (h2, k2)) = bind-ok _ _ db1 u db' k1 in
      let (v3, db3, (h3, k3)) = bind-ok _ _ db2 u db' k2 in
      let (v4, db4, (h4, k4)) = bind-ok _ _ db3 u db' k3 in
      let (v5, db5, (h5, k5)) = bind-ok _ _ db4 u db' k4 in
      let (v6, db6, (h6, k6)) = bind-ok _ _ db5 u db' k5 in
      let (v7, db7, (h7, k7)) = bind-ok _ _ db6 u db' k6 in
      let before : select as_claim db5 ≡ select as_claim db =
        (Silent-insert_observation serde b.observation (λ r. refl)).at db4 v5 db5 h5
        ∙ (Silent-insert_provenance serde b.provenance (λ r. refl)).at db3 v4 db4 h4
        ∙ (Silent-ensure_case_exists b.claim.case_id.value).at db2 v3 db3 h3
        ∙ ap (select as_claim) (lift_domain-unchanged _ db1 v2 db2 h2)
        ∙ ap (select as_claim) (lift_domain-unchanged _ db v1 db1 h1) in
      let (r, (id, added)) = insert_claim-adds serde b.claim db5 v6 db6 h6 in
      let later : select as_claim db' ≡ select as_claim db6 =
        (Silent-insert_edge serde _ _ _ _ _ _ _ _ (λ r. refl)).at db7 u db' k7
        ∙ (Silent-insert_evidence serde b.evidence (λ r. refl)).at db6 v7 db7 h7 in
      (r, (id, later ∙ added ∙ ap (λ rows. rows ++ (r ∷ [])) before))

  -- After the rows of the claim are inserted, its prior claims are those of before.
  prior_claims-unchanged :
      (db : Database) (u : Unit {0}) (db' : Database)
      → insert_grounded serde b db ≡ ok (u, db')
      → prior_claims b.claim db' ≡ prior_claims b.claim db
  unfolding prior_claims
  prior_claims-unchanged db u db' h =
      let states = insert_grounded-Silent.at db u db' h in
      let (r, (id, added)) = insert_grounded-adds db u db' h in
      ap (sort_by (by_time (λ x. x.created_at_ms) (λ x. x.id))) (
        ap (filter (is_prior db' b.claim)) added
        ∙ filter-eq (is_prior db' b.claim) (is_prior db b.claim) (select as_claim db) r
            (λ x. is_prior-silent db db' b.claim x states) (is_prior_self db' b.claim r id))

  prior_claims-live :
      (db : Database) (live : ClaimRow → Bool)
      → UniqueIds (select as_state_change db)
      → ((r : ClaimRow) → (live r ≡ true) ↔ IsLivePrior db b.claim r)
      → prior_claims b.claim db
        ≡ sort_by (by_time (λ r. r.created_at_ms) (λ r. r.id)) (filter live (select as_claim db))
  unfolding prior_claims
  prior_claims-live db live u tells = ap (sort_by (by_time (λ r. r.created_at_ms) (λ r. r.id))) (
      filter_same (is_prior db b.claim) live (select as_claim db) (λ r.
        let found = is_prior-IsLivePrior db b.claim r u in
        (λ h. (tells r).1 (found.0 h), λ h. found.1 ((tells r).0 h))))

  -- A claim that is recorded corroborates exactly the live prior claims whose stored value is known
  -- and is the text to which its own known value is serialized, and is reported to contradict, under
  -- the identifiers of the ordered pairs, exactly those whose stored value is known and another text.
  -- A live prior claim is another claim of the case on the same subject and predicate, whose state
  -- before the call, that of its last state change or else its initial one, is neither rejected nor
  -- superseded; `live` is any test that tells these, and they come in the order of their creation. The
  -- identifiers of state changes are unique, as the primary key of their table makes them.
  pub record_claim-IsCompared :
      (db : Database) (result : ClaimResult) (db' : Database) (live : ClaimRow → Bool)
      → UniqueIds (select as_state_change db)
      → ((r : ClaimRow) → (live r ≡ true) ↔ IsLivePrior db b.claim r)
      → record_claim serde b db ≡ ok (result, db')
      → (normalized : Text) × ((serde.value_json b.claim.normalized_value ≡ ok normalized)
          × IsCompared serde b.claim normalized no_comparison
              (sort_by
                (by_time (λ r. r.created_at_ms) (λ r. r.id))
                (filter live (select as_claim db)))
              (record {
                contradictions = result.contradictions;
                corroborates = result.corroborates;
              }))
  unfolding record_claim
  record_claim-IsCompared db result db' live unique tells h =
      let (v1, db1, (h1, k1)) = bind-ok _ _ db result db' h in
      let (priors, db2, (h2, k2)) = bind-ok _ _ db1 result db' k1 in
      let (normalized, db3, (h3, k3)) = bind-ok _ _ db2 result db' k2 in
      let (found, db4, (h4, k4)) = bind-ok _ _ db3 result db' k3 in
      let (v5, db5, (h5, k5)) = bind-ok _ _ db4 result db' k4 in
      let compared =
        compare_priors-IsCompared serde b normalized no_comparison priors db3 found db4 h4 in
      let prior_rows =
        query-ok (prior_claims b.claim) db1 priors db2 h2
        ∙ (prior_claims-unchanged db v1 db1 h1 ∙ prior_claims-live db live unique tells) in
      let last = pure-ok _ db5 result db' k5 in
      (
        normalized,
        (
          to_json-ok _ normalized (lift-ok _ db2 normalized db3 h3),
          record {
            agreed =
                ap (λ r. map (λ id. ok id) r.corroborates) last
                ∙ compared.agreed
                ∙ ap
                    (λ rows.
                      map (λ r. parse_id r.id) (filter (agrees serde b.claim normalized) rows))
                    prior_rows;
            opposed =
                ap (λ r. map (λ c. ok c.id) r.contradictions) last
                ∙ compared.opposed
                ∙ ap
                    (λ rows.
                      map (contradiction_id_of serde b.claim)
                        (filter (opposes serde b.claim normalized) rows))
                    prior_rows;
          },
        ),
      )
