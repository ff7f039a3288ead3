-- ===== src/Tests/Requests.antt =====
-- Requests to the services of crates/casegraph-application/src/service.rs.
use casegraph.Prelude.{true, false, none, some, [], ◌∷◌}
use casegraph.Text.{lit}
use casegraph.Domain.Value.{known, boolean}
use casegraph.Domain.Model.Evidence.{ReviewDecision}
use casegraph.Application.Service.Requests.{
  CreateCaseRequest, IngestBytesRequest, RecordExternalClaimRequest, ReviewClaimRequest,
  CorrectClaimRequest,
}
use casegraph.Tests.Fixtures.{the_case, stored_version, signed}

abbrev pub create_request : CreateCaseRequest
create_request = record { title = lit "Lease"; actor = lit "ada"; correlation_id = none }

abbrev pub ingest_request : IngestBytesRequest
ingest_request = record {
  case_id = the_case.id;
  source_key = lit "mail";
  connector = lit "file";
  locator = lit "inbox";
  external_record_id = none;
  endpoint = none;
  source_revision = none;
  media_type = lit "text/plain";
  original_filename = some (lit "lease.txt");
  received_at = none;
  bytes = 1 ∷ 2 ∷ 3 ∷ [];
  actor = lit "ada";
  correlation_id = none;
}

abbrev pub record_request : RecordExternalClaimRequest
record_request = record {
  case_id = the_case.id;
  artifact_version_id = stored_version.id;
  subject_id = none;
  subject_key = lit "lease";
  predicate = lit "signed";
  original_value = lit "yes";
  normalized_value = known (boolean true);
  temporal = none;
  connector = none;
  endpoint = none;
  external_record_id = none;
  source_field = none;
  page_number = none;
  paragraph_number = none;
  text_span_start = some 3;
  text_span_end = some 6;
  table_number = none;
  row_number = none;
  column_number = none;
  bounding_region_json = none;
  extraction_method = lit "regex";
  extractor_name = lit "reader";
  extractor_version = lit "1";
  model_provider = none;
  model_name = none;
  model_version = none;
  model_configuration_json = none;
  extraction_confidence = none;
  interpretation_confidence = none;
  actor = lit "ada";
  correlation_id = none;
}

abbrev pub review_request : ReviewClaimRequest
review_request = record {
  claim_id = signed.id;
  decision = ReviewDecision.verified;
  actor = lit "ada";
  rationale = none;
  correlation_id = none;
}

abbrev pub correct_request : CorrectClaimRequest
correct_request = record {
  claim_id = signed.id;
  corrected_original_representation = lit "no";
  corrected_value = known (boolean false);
  corrected_temporal = none;
  actor = lit "ada";
  rationale = none;
  correlation_id = none;
}
