-- ===== src/Tests/Services.antt =====
-- The services of crates/casegraph-application/src/service.rs on the logging adapters.
use casegraph.Prelude.{ℕ, ◌≡◌, ◌≢◌, refl, arith, some}
use casegraph.Prelude.Result.{ok}
use casegraph.Text.{Text, lit}
use casegraph.Text.Trim.{trim, is_control}
use casegraph.Domain.Temporal.{TemporalValue}
use casegraph.Domain.Temporal
use casegraph.Domain.Model.Evidence.{ReviewDecision}
use casegraph.Domain.Model.Validate.{validate_text}
use casegraph.Domain.Model.Texts.{IsText, validate_text-IsText}
use casegraph.Domain.Model.Accepts.{IsClaim, all-hex}
use casegraph.Text.Utf8.{bytes, encode}
use casegraph.Application.Bundles.Stores.{
  IsStored, IsIngestRequest, create_case-EndsIn, ingest_bytes-EndsIn,
}
use casegraph.Application.Service.Checks.{check_text, check_filename}
use casegraph.Application.Bundles.{IsIngestion}
use casegraph.Text.{is_empty}
use casegraph.Domain.Model.Validate.{validate_case}
use casegraph.Tests.Fixtures.{the_case}
use casegraph.Prelude.{length}
use casegraph.Application.Monad.Keeps.{Keeps}
use casegraph.Application.Monad.Ends.{Answers, EndsIn, Answers-pure}
use casegraph.Application.Service.{create_case, ingest_bytes}
use casegraph.Application.Claims.{record_external_claim, review_claim}
use casegraph.Application.Corrections.{correct_claim}
use casegraph.Application.Bundles.{IsReview, IsRecorded, IsCorrection}
use casegraph.Application.Bundles.Corrects.{correct_claim-Keeps}
use casegraph.Application.Bundles.Sends.{
  ingest_bytes-Keeps, record_external_claim-Keeps, review_claim-Keeps,
}
use casegraph.Application.Bundles.Reaches.{
  Found, IsExternalRequest, record_external_claim-EndsIn, review_claim-EndsIn, correct_claim-EndsIn,
}
use casegraph.Tests.Fixtures.{
  IsSoundLog, log_ports, log-Preserves, log-CorrectionPreserves, log-Ready, signed, stored_version,
}
use casegraph.Tests.Requests.{
  create_request, ingest_request, record_request, review_request, correct_request,
}

ingest_bytes-Keeps_example : Keeps IsSoundLog (ingest_bytes log_ports 100 ingest_request)
ingest_bytes-Keeps_example =
    ingest_bytes-Keeps 100 log_ports IsSoundLog log-Preserves ingest_request

record_external_claim-Keeps_example :
    Keeps IsSoundLog (record_external_claim log_ports record_request)
record_external_claim-Keeps_example =
    record_external_claim-Keeps 100 log_ports IsSoundLog log-Preserves record_request

review_claim-Keeps_example : Keeps IsSoundLog (review_claim log_ports review_request)
review_claim-Keeps_example =
    review_claim-Keeps 100 log_ports IsSoundLog log-Preserves review_request

correct_claim-Keeps_example : Keeps IsSoundLog (correct_claim log_ports correct_request)
correct_claim-Keeps_example =
    correct_claim-Keeps log_ports IsSoundLog (λ claim. claim ≡ signed) correct_request
      (log-CorrectionPreserves correct_request)

-- One letter is enough for every bound.
short_text : (s : Text) (max : ℕ) → validate_text (lit "field") s 1 max ≡ ok tt → IsText 1 max s
short_text s max h = (validate_text-IsText (lit "field") s 1 max).0 h

record_request-IsExternalRequest : IsExternalRequest record_request
unfolding validate_text lit trim is_control
record_request-IsExternalRequest = record {
  subject = short_text record_request.subject_key 300 refl;
  named = short_text record_request.predicate 300 refl;
  original = short_text record_request.original_value 1000000 refl;
  by = short_text record_request.actor 300 refl;
  method = short_text record_request.extraction_method 100 refl;
  extractor = short_text record_request.extractor_name 200 refl;
  version = short_text record_request.extractor_version 100 refl;
  span = omega arith;
  attributed = λ _. (refl, refl, refl);
  dated = λ t e. cc;
}

no_date :
    (t : TemporalValue) → correct_request.corrected_temporal ≡ some t → Temporal.validate t ≡ ok tt
no_date t e = cc

title-IsText : IsText 1 300 (lit "Lease")
unfolding validate_text lit trim is_control
title-IsText = short_text (lit "Lease") 300 refl

reviewer-IsText : IsText 1 300 (lit "ada")
unfolding validate_text lit trim is_control
reviewer-IsText = short_text (lit "ada") 300 refl

corrector-IsText : IsText 1 200 (lit "ada")
unfolding validate_text lit trim is_control
corrector-IsText = short_text (lit "ada") 200 refl

shown-IsText : IsText 1 1000000 (lit "no")
unfolding validate_text lit trim is_control
shown-IsText = short_text (lit "no") 1000000 refl

signed-IsClaim : IsClaim signed
unfolding validate_text lit trim is_control
signed-IsClaim = record {
  subject = short_text signed.subject_key 300 refl;
  named = short_text signed.predicate 300 refl;
  grounded = λ e z. cc;
  dated = λ t e. cc;
}

verified-ne-corrected : ReviewDecision.verified ≢ ReviewDecision.corrected
verified-ne-corrected e = cc

version-Found : Answers Found (log_ports.get_artifact_version stored_version.id)
version-Found = Answers-pure _ (stored_version, refl)

claim-Found : Answers Found (log_ports.get_claim signed.id)
claim-Found = Answers-pure _ (signed, refl)

get_claim_signed : Answers (λ o. o ≡ some signed) (log_ports.get_claim signed.id)
get_claim_signed = Answers-pure _ refl

record_external_claim-EndsIn_example :
    EndsIn log_ports.record_claim
      (IsRecorded record_request)
      (record_external_claim log_ports record_request)
record_external_claim-EndsIn_example =
    record_external_claim-EndsIn log_ports log-Ready record_request record_request-IsExternalRequest
      version-Found

review_claim-EndsIn_example :
    EndsIn log_ports.review_claim
      (λ b.
        IsReview b
        × (b.review.decision ≡ review_request.decision)
        × (b.review.actor ≡ review_request.actor))
      (review_claim log_ports review_request)
review_claim-EndsIn_example =
    review_claim-EndsIn log_ports log-Ready review_request reviewer-IsText verified-ne-corrected
      claim-Found

correct_claim-EndsIn_example :
    EndsIn log_ports.correct_claim
      (IsCorrection correct_request signed)
      (correct_claim log_ports correct_request)
correct_claim-EndsIn_example =
    correct_claim-EndsIn log_ports log-Ready correct_request signed signed-IsClaim corrector-IsText
      shown-IsText no_date get_claim_signed

create_case-EndsIn_example :
    EndsIn log_ports.create_case
      (λ b. (validate_case b.case_record ≡ ok tt) × (b.case_record.title ≡ create_request.title))
      (create_case log_ports create_request)
create_case-EndsIn_example =
    create_case-EndsIn log_ports log-Ready create_request title-IsText reviewer-IsText

ingest_request-IsIngestRequest : IsIngestRequest 100 ingest_request
unfolding validate_text lit trim is_control check_filename check_text is_empty
    casegraph.Application.Service.Checks.components
    casegraph.Application.Service.Checks.first_components
    casegraph.Application.Service.Checks.segments casegraph.Text.text_eq
    casegraph.Application.Service.Checks.later_components
ingest_request-IsIngestRequest = record {
  source = short_text ingest_request.source_key 2048 refl;
  through = short_text ingest_request.connector 100 refl;
  located = short_text ingest_request.locator 2048 refl;
  media = short_text ingest_request.media_type 255 refl;
  filename = refl;
  small = omega arith;
}

three_bytes-IsStored : Answers (IsStored ingest_request.bytes) (log_ports.put ingest_request.bytes)
unfolding validate_text lit trim is_control bytes encode
three_bytes-IsStored = Answers-pure _ (record {
  whole = refl;
  hash_size = refl;
  hash_digits =
      (all-hex (lit "0123456789abcdef0123456789abcdef0123456789abcdef0123456789abcdef")).0 refl;
  key = short_text (lit "key") 255 refl;
})

case-Found : Answers Found (log_ports.get_case ingest_request.case_id)
case-Found = Answers-pure _ (the_case, refl)

ingest_bytes-EndsIn_example :
    EndsIn log_ports.ingest
      (λ b. IsIngestion 100 b × (b.artifact_version.content_length ≡ length ingest_request.bytes))
      (ingest_bytes log_ports 100 ingest_request)
ingest_bytes-EndsIn_example =
    ingest_bytes-EndsIn log_ports log-Ready 100 ingest_request ingest_request-IsIngestRequest
      case-Found three_bytes-IsStored

-- A trailing slash is accepted in a filename.
trailing_slash : check_filename (some (lit "dir/")) ≡ ok tt
unfolding lit trim is_control check_filename check_text is_empty
    casegraph.Application.Service.Checks.components
    casegraph.Application.Service.Checks.first_components
    casegraph.Application.Service.Checks.segments casegraph.Text.text_eq
    casegraph.Application.Service.Checks.later_components
trailing_slash = refl
