-- ===== src/Infrastructure/Sqlite/Repository/History.antt =====
-- What crates/casegraph-infrastructure/src/sqlite_repository.rs has returned once, it returns
-- whatever calls follow.
use casegraph.Prelude.{
  append_assoc, append_nil, Bool, List, Option, [], ap, arith, none, refl, some, sym, ◌++◌, ◌∙◌,
  ◌∷◌, ◌≡◌,
}
use casegraph.Prelude.Result.{Result, ok}
use casegraph.Domain.Id.{RecordId}
use casegraph.Domain.Model.Evidence.{Claim, ProvenanceRecord, ArtifactVersion}
use casegraph.Application.Error.{AppError}
use casegraph.Infrastructure.Sqlite.Rows.{Database, Row}
use casegraph.Infrastructure.Sqlite.Tables.{as_artifact_version, as_claim, as_provenance, select}
use casegraph.Infrastructure.Sqlite.Serde.{Serde, traverse}
use casegraph.Infrastructure.Sqlite.Insert.{first_match}
use casegraph.Infrastructure.Sqlite.Load.{
  load_artifact_version, load_claim, load_one, load_provenance,
}
use casegraph.Infrastructure.Sqlite.Grown.{Grown, same, inserted}
use casegraph.Infrastructure.Sqlite.Repository.{Operation, run}
use casegraph.Infrastructure.Sqlite.Repository.Ends.{run-Grown}

select-append :
    {A : Type 0} (kind : Row → Option A) (db rows : Database)
    → select kind (db ++ rows) ≡ select kind db ++ select kind rows
select-append kind [] rows = refl
select-append kind (row ∷ db) rows = ground (arith, select-append kind db rows)

-- The rows that were inserted.
pub Grown-rows :
    {serde : Serde} {db db' : Database}
    → Grown serde db db'
    → (rows : Database) × (db' ≡ db ++ rows)
Grown-rows {serde} {db} (same _ e) = ([], sym e ∙ append_nil db)
Grown-rows {serde} {db} (inserted between row _ g free refers e) =
    let (rows, h) = Grown-rows g in
    (rows ++ (row ∷ []), e ∙ ap (λ d. d ++ (row ∷ [])) h ∙ append_assoc db rows (row ∷ []))

first_match-append :
    {A : Type 0} (p : A → Bool) (xs ys : List A) (a : A)
    → first_match p xs ≡ some a
    → first_match p (xs ++ ys) ≡ some a
first_match-append p [] ys a h = cc
first_match-append p (x ∷ xs) ys a h = ground (arith, first_match-append p xs ys a)

load_one-append :
    {R A : Type 0} (read : R → Result AppError A) (p : R → Bool) (kind : Row → Option R)
    (db rows : Database) (a : A)
    → load_one read p (select kind db) ≡ ok (some a)
    → load_one read p (select kind (db ++ rows)) ≡ ok (some a)
load_one-append read p kind db rows a h =
    rw (select-append kind db rows) (go (first_match p (select kind db)) refl h)
  where
    go :
        (o : Option _)
        → first_match p (select kind db) ≡ o
        → traverse read o ≡ ok (some a)
        → traverse read (first_match p (select kind db ++ select kind rows)) ≡ ok (some a)
    go none e k = absurd (cc)
    go (some r) e k = rw (first_match-append p (select kind db) (select kind rows) r e) k

-- Whatever calls follow, also failing ones, a claim, its provenance and the artifact version that
-- could be loaded once are loaded as they were.
pub run-keeps_evidence :
    (serde : Serde) (calls : List Operation) (db : Database) (claim_id : RecordId) (claim : Claim)
    (provenance_id : RecordId) (provenance : ProvenanceRecord) (version_id : RecordId)
    (version : ArtifactVersion)
    → load_claim serde claim_id db ≡ ok (some claim)
    → load_provenance provenance_id db ≡ ok (some provenance)
    → load_artifact_version version_id db ≡ ok (some version)
    → (load_claim serde claim_id (run serde calls db) ≡ ok (some claim))
      × ((load_provenance provenance_id (run serde calls db) ≡ ok (some provenance))
          × (load_artifact_version version_id (run serde calls db) ≡ ok (some version)))
unfolding load_claim load_provenance load_artifact_version
run-keeps_evidence serde calls db claim_id claim provenance_id provenance version_id version h k l =
    let (rows, e) = Grown-rows (run-Grown serde calls db) in
    rw e (
      load_one-append _ _ as_claim db rows claim h,
      (
        load_one-append _ _ as_provenance db rows provenance k,
        load_one-append _ _ as_artifact_version db rows version l,
      ),
    )
