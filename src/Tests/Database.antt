-- ===== src/Tests/Database.antt =====
-- A database with one claim, and calls of the repository of
-- crates/casegraph-infrastructure/src/sqlite_repository.rs.
use casegraph.Prelude.{ℕ, ◌+◌, ◌*◌, ◌/◌, ◌%◌, true, false, none, some, List, [], ◌∷◌, if◌then◌else◌}
use casegraph.Prelude.Int.{pos}
use casegraph.Prelude.Result.{ok, err}
use casegraph.Text.{Text, lit, text_eq}
use casegraph.Domain.Value.{known, boolean}
use casegraph.Domain.Model.Evidence.{Claim, ProvenanceRecord, VerificationState, EvidenceType}
use casegraph.Application.Monad.{pure}
use casegraph.Application.Ports.{OperationContext, CreateCaseBundle, ClaimBundle}
use casegraph.Infrastructure.Sqlite.Rows.{
  Database, case_row, source_row, artifact_row, artifact_version_row, provenance_row, claim_row,
}
use casegraph.Infrastructure.Sqlite.Serde.{Serde}
use casegraph.Infrastructure.Sqlite.Insert.{claim_row_of}
use casegraph.Infrastructure.Sqlite.Repository.{
  Operation, create_case_call, record_claim_call, Others,
}
use casegraph.Tests.Fixtures.{id_of, moment, the_case, signed}

-- A digest of 16 bytes.
abbrev mix : ℕ → List ℕ → ℕ
mix h [] = h
mix h (b ∷ bytes) = mix ((h * 31 + b) % 65536) bytes

abbrev digest_of : ℕ → List ℕ
digest_of h = h / 256 ∷ h % 256 ∷ 0 ∷ 0 ∷ 0 ∷ 0 ∷ 0 ∷ 0 ∷ 0 ∷ 0 ∷ 0 ∷ 0 ∷ 0 ∷ 0 ∷ 0 ∷ 0 ∷ []

-- Serializers that know two values.
abbrev pub the_serde : Serde
the_serde = record {
  value_json = λ value. elim value [
    | known m ↦ elim m [
      | boolean b ↦ ok (if b then lit "true" else lit "false")
      | _ ↦ ok (lit "other")
    ]
    | _ ↦ ok (lit "none")
  ];
  read_value = λ s. ok (known (boolean (text_eq s (lit "true"))));
  temporal_json = λ t. ok (lit "temporal");
  read_temporal = λ s. err tt;
  definition_json = λ d. ok (lit "definition");
  read_definition = λ s. err tt;
  inputs_json = λ inputs. ok (lit "inputs");
  read_inputs = λ s. ok [];
  ids_json = λ ids. ok (lit "ids");
  state_json = λ state. ok (lit "state");
  json_valid = λ s. true;
  digest = λ bytes. digest_of (mix 7 bytes);
}

abbrev pub context : Text → OperationContext
context id = record {
  audit_id = id_of id;
  actor = lit "ada";
  correlation_id = id_of (lit "correlation_1");
  occurred_at = moment;
  reason = none;
}

abbrev pub provenance_of : Text → ProvenanceRecord
provenance_of id = record {
  id = id_of id;
  artifact_version_id = some (id_of (lit "version_1"));
  connector = none;
  endpoint = none;
  external_record_id = none;
  source_field = none;
  page_number = none;
  paragraph_number = none;
  text_span_start = some 3;
  text_span_end = some 6;
  table_number = none;
  row_number = none;
  column_number = none;
  bounding_region_json = none;
  extraction_method = lit "regex";
  extractor_name = lit "reader";
  extractor_version = lit "1";
  model_provider = none;
  model_name = none;
  model_version = none;
  model_configuration_json = none;
  extracted_at = moment;
  confidence = none;
  verification_state = VerificationState.not_reviewed;
  original_representation = none;
  correlation_id = id_of (lit "correlation_1");
}

abbrev pub unsigned : Claim
unsigned = record {
  id = id_of (lit "claim_unsigned");
  case_id = signed.case_id;
  subject_id = none;
  subject_key = signed.subject_key;
  predicate = signed.predicate;
  original_value = lit "no";
  normalized_value = known (boolean false);
  origin = signed.origin;
  initial_state = signed.initial_state;
  primary_provenance_id = some (id_of (lit "provenance_2"));
  interpretation_confidence = none;
  temporal = none;
  created_at = moment;
}

-- The claim that the lease was not signed.
abbrev pub unsigned_bundle : ClaimBundle
unsigned_bundle = record {
  provenance = provenance_of (lit "provenance_2");
  observation = record {
    id = id_of (lit "observation_2");
    case_id = the_case.id;
    subject_id = none;
    predicate = lit "signed";
    original_value = lit "no";
    normalized_value = some (known (boolean false));
    provenance_id = id_of (lit "provenance_2");
    extraction_confidence = none;
    observed_at = moment;
  };
  claim = unsigned;
  evidence = record {
    id = id_of (lit "evidence_2");
    case_id = the_case.id;
    evidence_type = EvidenceType.artifact_excerpt;
    provenance_id = some (id_of (lit "provenance_2"));
    description = lit "The last page";
    created_at = moment;
  };
  evidence_edge_id = id_of (lit "edge_2");
  context = context (lit "audit_2");
}

abbrev pub create_bundle : CreateCaseBundle
create_bundle = record { case_record = the_case; context = context (lit "audit_1") }

abbrev pub the_hash : Text
the_hash = lit "0123456789abcdef0123456789abcdef0123456789abcdef0123456789abcdef"

-- The case with one artifact, and the claim that the lease was signed.
abbrev pub the_database : Database
the_database =
    case_row (record {
      id = lit "case_1";
      title = lit "Lease";
      status = lit "open";
      created_at_ms = pos 1000;
      closed_at_ms = none;
    })
    ∷ source_row (record {
      id = lit "source_1";
      case_id = lit "case_1";
      connector = lit "file";
      locator = lit "inbox";
      external_record_id = none;
      endpoint = none;
      source_revision = none;
      retrieved_at_ms = pos 1000;
    })
    ∷ artifact_row (record {
      id = lit "artifact_1";
      case_id = lit "case_1";
      source_id = lit "source_1";
      source_key = lit "mail";
      created_at_ms = pos 1000;
    })
    ∷ artifact_version_row (record {
      id = lit "version_1";
      artifact_id = lit "artifact_1";
      version_number = 1;
      content_sha256 = the_hash;
      content_length = pos 4;
      media_type = lit "text/plain";
      storage_key = lit "key";
      ingested_at_ms = pos 1000;
      received_at_ms = none;
      original_filename = none;
    })
    ∷ provenance_row (record {
      id = lit "provenance_1";
      artifact_version_id = some (lit "version_1");
      connector = none;
      endpoint = none;
      external_record_id = none;
      source_field = none;
      page_number = none;
      paragraph_number = none;
      text_span_start = some (pos 3);
      text_span_end = some (pos 6);
      table_number = none;
      row_number = none;
      column_number = none;
      bounding_region_json = none;
      extraction_method = lit "regex";
      extractor_name = lit "reader";
      extractor_version = lit "1";
      model_provider = none;
      model_name = none;
      model_version = none;
      model_configuration_json = none;
      extracted_at_ms = pos 1000;
      confidence = none;
      verification_state = lit "not_reviewed";
      original_representation = none;
      correlation_id = lit "correlation_1";
    })
    ∷ claim_row (claim_row_of signed (lit "true") none)
    ∷ []

abbrev pub the_calls : List Operation
the_calls = create_case_call create_bundle ∷ record_claim_call unsigned_bundle ∷ []

-- A clock that stands still, and identifiers and files that say only their kind.
abbrev pub the_others : Others (Unit {0})
the_others = record {
  now = pure moment;
  next = λ kind. pure (id_of kind);
  put = λ bytes. pure (record {
    content_sha256 = the_hash;
    content_length = 4;
    storage_key = lit "key";
    already_existed = false;
  });
  read = λ key. pure [];
}
