-- ===== src/Tests/Records.antt =====
-- What the validating constructors accept, at concrete records.
use casegraph.Prelude.{◌≡◌, ◌↔◌, false}
use casegraph.Prelude.Int.{negsuc}
use casegraph.Prelude.Result.{ok}
use casegraph.Text.{lit}
use casegraph.Domain.Id.{parse}
use casegraph.Domain.Id.Accepts.{IsId, parse-IsId}
use casegraph.Domain.Confidence.{F64, finite, confidence}
use casegraph.Domain.Confidence.Bounds.{InUnit, confidence-InUnit}
use casegraph.Domain.Model.Validate.{validate_artifact_version, validate_provenance, validate_claim}
use casegraph.Domain.Model.Accepts.{
  IsArtifactVersion, validate_artifact_version-IsArtifactVersion, IsProvenance,
  validate_provenance-IsProvenance, IsClaim, validate_claim-IsClaim,
}
use casegraph.Application.Corrections.{correction_provenance}
use casegraph.Tests.Fixtures.{id_of, moment, signed, stored_version}
use casegraph.Tests.Requests.{correct_request}

parse-IsId_example :
    (parse (lit "case_1") ≡ ok (id_of (lit "case_1")))
    ↔ (IsId (lit "case_1") × (lit "case_1" ≡ lit "case_1"))
parse-IsId_example = parse-IsId (lit "case_1") (id_of (lit "case_1"))

-- One half.
abbrev half : F64
half = finite false 1 (negsuc 0)

confidence-InUnit_example :
    (confidence half ≡ ok (record { score = half })) ↔ (InUnit half × (half ≡ half))
confidence-InUnit_example = confidence-InUnit half (record { score = half })

validate_artifact_version-IsArtifactVersion_example :
    (validate_artifact_version stored_version ≡ ok tt) ↔ IsArtifactVersion stored_version
validate_artifact_version-IsArtifactVersion_example =
    validate_artifact_version-IsArtifactVersion stored_version

validate_provenance-IsProvenance_example :
    (validate_provenance (
        correction_provenance correct_request
          (id_of (lit "provenance"))
          moment
          (id_of (lit "audit")))
      ≡ ok tt)
    ↔ IsProvenance (
        correction_provenance correct_request
          (id_of (lit "provenance"))
          moment
          (id_of (lit "audit")))
validate_provenance-IsProvenance_example =
    validate_provenance-IsProvenance (
      correction_provenance correct_request (id_of (lit "provenance")) moment (id_of (lit "audit")))

validate_claim-IsClaim_example : (validate_claim signed ≡ ok tt) ↔ IsClaim signed
validate_claim-IsClaim_example = validate_claim-IsClaim signed
