-- ===== src/Infrastructure/Sqlite/Artifacts.antt =====
-- `create_case` and `ingest` of crates/casegraph-infrastructure/src/sqlite_repository.rs.
use casegraph.Prelude.{List, Option, [], if◌then◌else◌, leb, none, some, ℕ, ◌+◌, ◌∷◌}
use casegraph.Prelude.Result.{Result, ok, err}
use casegraph.Text.{Text, lit, text_eq}
use casegraph.Domain.Id.{RecordId}
use casegraph.Domain.Model.Evidence.{Case, Artifact, ArtifactVersion}
use casegraph.Domain.Model.Validate.{validate_case, validate_artifact_version}
use casegraph.Application.Error.{AppError}
use casegraph.Application.Ports.{
  CreateCaseBundle, IngestionBundle, IngestionResult, IngestionDisposition, new_artifact,
  new_version, exact_duplicate,
}
use casegraph.Infrastructure.Sqlite.Rows.{ArtifactVersionRow, Database, artifact_row, case_row}
use casegraph.Infrastructure.Sqlite.Tables.{as_artifact_version, select}
use casegraph.Infrastructure.Sqlite.Serde.{Serde, artifact_ingested, case_created}
use casegraph.Infrastructure.Sqlite.Codes.{case_status}
use casegraph.Infrastructure.Sqlite.Tx.{Tx, lift_domain, load, pure, ◌>>=◌, ◌>>◌}
use casegraph.Infrastructure.Sqlite.Statement.{database_error, ensure_case_exists, insert}
use casegraph.Infrastructure.Sqlite.Insert.{
  associate_source, insert_artifact_version, insert_audit, insert_or_get_source, time_column,
}
use casegraph.Infrastructure.Sqlite.Load.{
  load_artifact_by_source_key, load_artifact_version_by_hash,
}

abbrev pub u32_max : ℕ
u32_max = 4294967295

abbrev pub max : ℕ → ℕ → ℕ
max a b = if leb a b then b else a

-- `MAX(version_number)`, where 0 stands for no row.
unfoldable pub highest_version : Text → List ArtifactVersionRow → ℕ
highest_version artifact_id [] = 0
highest_version artifact_id (r ∷ rows) =
    let rest = highest_version artifact_id rows in
    if text_eq r.artifact_id artifact_id then max r.version_number rest else rest

-- `SELECT COALESCE(MAX(version_number), 0) + 1`, read as a `u32`.
unfoldable pub next_version : RecordId → Database → Result AppError ℕ
unfolding highest_version
next_version artifact_id db =
    let next = highest_version artifact_id.value (select as_artifact_version db) + 1 in
    if leb next u32_max then ok next else err (database_error none)

-- `version.artifact_id = artifact.id` and `version.version_number = next_version`.
abbrev pub renumbered : ArtifactVersion → RecordId → ℕ → ArtifactVersion
renumbered v artifact_id number = record {
  id = v.id;
  artifact_id = artifact_id;
  version_number = number;
  content_sha256 = v.content_sha256;
  content_length = v.content_length;
  media_type = v.media_type;
  storage_key = v.storage_key;
  ingested_at = v.ingested_at;
  received_at = v.received_at;
  original_filename = v.original_filename;
}

-- `artifact.source_id = source_id`.
abbrev pub with_source : Artifact → RecordId → Artifact
with_source a source_id = record {
  id = a.id;
  case_id = a.case_id;
  source_id = source_id;
  source_key = a.source_key;
  created_at = a.created_at;
}

abbrev pub ingested : Artifact → ArtifactVersion → IngestionDisposition → IngestionResult
ingested artifact version disposition = record {
  artifact = artifact;
  artifact_version = version;
  disposition = disposition;
}

-- The audited operation.
abbrev pub ingestion_operation : IngestionDisposition → Text
ingestion_operation new_artifact = lit "artifact.ingest"
ingestion_operation new_version = lit "artifact.version"
ingestion_operation exact_duplicate = lit "artifact.duplicate"

module _ (serde : Serde) where
  -- `create_case`.
  unfoldable pub create_case : CreateCaseBundle → Tx Case
  create_case bundle = do
    let item = bundle.case_record
    lift_domain (validate_case item)
    insert serde (
        case_row (record {
          id = item.id.value;
          title = item.title;
          status = case_status item.status;
          created_at_ms = item.created_at.ms;
          closed_at_ms = time_column item.closed_at;
        }))
    insert_audit serde bundle.context (some item.id) (lit "case.create") (lit "case") item.id
        case_created
    pure item

  -- A version with this content is there.
  unfoldable pub ingest_duplicate :
      IngestionBundle → RecordId → Artifact → ArtifactVersion → Tx IngestionResult
  ingest_duplicate bundle source_id artifact version = do
    associate_source serde version.id source_id bundle.context.occurred_at
    pure (ingested artifact version exact_duplicate)

  -- The artifact is there, but not this content.
  unfoldable pub ingest_version : IngestionBundle → RecordId → Artifact → Tx IngestionResult
  ingest_version bundle source_id artifact = do
    number ← load (next_version artifact.id)
    let version = renumbered bundle.artifact_version artifact.id number
    insert_artifact_version serde version
    associate_source serde version.id source_id bundle.context.occurred_at
    pure (ingested artifact version new_version)

  unfoldable pub ingest_artifact : IngestionBundle → RecordId → Tx IngestionResult
  ingest_artifact bundle source_id = do
    let artifact = with_source bundle.artifact source_id
    insert serde (
        artifact_row (record {
          id = artifact.id.value;
          case_id = artifact.case_id.value;
          source_id = artifact.source_id.value;
          source_key = artifact.source_key;
          created_at_ms = artifact.created_at.ms;
        }))
    let version = bundle.artifact_version
    insert_artifact_version serde version
    associate_source serde version.id source_id bundle.context.occurred_at
    pure (ingested artifact version new_artifact)

  -- By what `load_artifact_version_by_hash` finds.
  abbrev pub ingest_content :
      IngestionBundle → RecordId → Artifact → Option ArtifactVersion → Tx IngestionResult
  ingest_content bundle source_id artifact (some version) =
      ingest_duplicate bundle source_id artifact version
  ingest_content bundle source_id artifact none = ingest_version bundle source_id artifact

  -- By what `load_artifact_by_source_key` finds.
  unfoldable pub ingest_under : IngestionBundle → RecordId → Option Artifact → Tx IngestionResult
  ingest_under bundle source_id (some artifact) = do
    version ←
        load (load_artifact_version_by_hash artifact.id bundle.artifact_version.content_sha256)
    ingest_content bundle source_id artifact version
  ingest_under bundle source_id none = ingest_artifact bundle source_id

  -- `ingest`.
  unfoldable pub ingest : IngestionBundle → Tx IngestionResult
  ingest bundle = do
    lift_domain (validate_artifact_version bundle.artifact_version)
    ensure_case_exists bundle.artifact.case_id.value
    source_id ← insert_or_get_source serde bundle.source
    artifact ← load (load_artifact_by_source_key bundle.artifact.case_id bundle.artifact.source_key)
    result ← ingest_under bundle source_id artifact
    insert_audit serde bundle.context (some result.artifact.case_id)
        (ingestion_operation result.disposition) (lit "artifact_version") result.artifact_version.id
        (artifact_ingested result.artifact.id result.artifact_version.id
          result.artifact_version.content_sha256 result.disposition)
    pure result
