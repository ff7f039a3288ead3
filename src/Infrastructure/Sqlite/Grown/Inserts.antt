-- ===== src/Infrastructure/Sqlite/Grown/Inserts.antt =====
-- The functions of crates/casegraph-infrastructure/src/sqlite_repository.rs that insert a row only
-- grow the database.
use casegraph.Prelude.{Bool, Option, false, true}
use casegraph.Text.{Text}
use casegraph.Domain.Id.{RecordId}
use casegraph.Domain.Temporal.{TimestampMs}
use casegraph.Domain.Model.Evidence.{
  Source, ArtifactVersion, ProvenanceRecord, Observation, Claim, ClaimState, Fact, HumanReview,
  Evidence,
}
use casegraph.Infrastructure.Sqlite.Serde.{Serde}
use casegraph.Infrastructure.Sqlite.Insert.{
  associate_source, insert_artifact_version, insert_claim, insert_contradiction_edges,
  insert_contradicts, insert_edge, insert_evidence, insert_fact, insert_observation,
  insert_or_get_source, insert_provenance, insert_review, insert_state_change, source_or_existing,
}
use casegraph.Infrastructure.Sqlite.Grown.{Grows, Grows-for_each, grows}

module _ (serde : Serde) where
  Grows-source_or_existing :
      (source : Source) (found : Bool) → Grows serde (source_or_existing serde source found)
  Grows-source_or_existing source true = search grows
  Grows-source_or_existing source false = search grows

  pub Grows-insert_or_get_source :
      (source : Source) → Grows serde (insert_or_get_source serde source)
  unfolding insert_or_get_source
  Grows-insert_or_get_source source = search (grows, Grows-source_or_existing)

  pub Grows-insert_artifact_version :
      (version : ArtifactVersion) → Grows serde (insert_artifact_version serde version)
  unfolding insert_artifact_version
  Grows-insert_artifact_version version = search grows

  pub Grows-associate_source :
      (version_id : RecordId) (source_id : RecordId) (at : TimestampMs)
      → Grows serde (associate_source serde version_id source_id at)
  unfolding associate_source
  Grows-associate_source version_id source_id at = search grows

  pub Grows-insert_provenance : (p : ProvenanceRecord) → Grows serde (insert_provenance serde p)
  unfolding insert_provenance
  Grows-insert_provenance p = search grows

  pub Grows-insert_observation : (o : Observation) → Grows serde (insert_observation serde o)
  unfolding insert_observation
  Grows-insert_observation o = search grows

  pub Grows-insert_claim : (claim : Claim) → Grows serde (insert_claim serde claim)
  unfolding insert_claim
  Grows-insert_claim claim = search grows

  pub Grows-insert_evidence : (e : Evidence) → Grows serde (insert_evidence serde e)
  unfolding insert_evidence
  Grows-insert_evidence e = search grows

  pub Grows-insert_edge :
      (edge_id case_id : RecordId) (from_kind : Text) (from_id : RecordId)
      (relationship to_kind : Text) (to_id : RecordId) (at : TimestampMs)
      → Grows serde
          (insert_edge serde edge_id case_id from_kind from_id relationship to_kind to_id at)
  unfolding insert_edge
  Grows-insert_edge edge_id case_id from_kind from_id relationship to_kind to_id at = search grows

  Grows-insert_contradicts :
      (case_id : RecordId) (at : TimestampMs) (ends : RecordId × RecordId)
      → Grows serde (insert_contradicts serde case_id at ends)
  unfolding insert_contradicts
  Grows-insert_contradicts case_id at (from, to) = search (grows, Grows-insert_edge)

  pub Grows-insert_contradiction_edges :
      (case_id left right : RecordId) (at : TimestampMs)
      → Grows serde (insert_contradiction_edges serde case_id left right at)
  unfolding insert_contradiction_edges
  Grows-insert_contradiction_edges case_id left right at =
      Grows-for_each _ _ (Grows-insert_contradicts case_id at)

  pub Grows-insert_review : (review : HumanReview) → Grows serde (insert_review serde review)
  unfolding insert_review
  Grows-insert_review review = search grows

  pub Grows-insert_state_change :
      (id claim_id : RecordId) (state : ClaimState) (actor : Text) (reason : Option Text)
      (at : TimestampMs) (correlation_id : RecordId)
      → Grows serde (insert_state_change serde id claim_id state actor reason at correlation_id)
  unfolding insert_state_change
  Grows-insert_state_change id claim_id state actor reason at correlation_id = search grows

  pub Grows-insert_fact : (fact : Fact) → Grows serde (insert_fact serde fact)
  unfolding insert_fact
  Grows-insert_fact fact = search grows

  pub ruleset inserts_grow = (
    grows, Grows-insert_or_get_source, Grows-insert_artifact_version, Grows-associate_source,
    Grows-insert_provenance, Grows-insert_observation, Grows-insert_claim, Grows-insert_evidence,
    Grows-insert_edge, Grows-insert_contradiction_edges, Grows-insert_review,
    Grows-insert_state_change, Grows-insert_fact,
  )
