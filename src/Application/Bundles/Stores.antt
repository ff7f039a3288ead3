-- ===== src/Application/Bundles/Stores.antt =====
-- `create_case` and `ingest_bytes` of crates/casegraph-application/src/service.rs get to the
-- repository.
use casegraph.Prelude.{
  ℕ, ◌≤◌, ◌≡◌, refl, arith, All, Option, none, List, length, false, not, ltb, ◌==◌,
}
use casegraph.Prelude.Result.{ok}
use casegraph.Text.{Text, lit}
use casegraph.Domain.Id.{RecordId}
use casegraph.Domain.Temporal.{TimestampMs}
use casegraph.Domain.Model.Validate.{validate_case}
use casegraph.Domain.Model.Texts.{IsText, validate_text-IsText}
use casegraph.Domain.Model.Accepts.{IsLowerHex, validate_artifact_version-IsArtifactVersion}
use casegraph.Domain.Model.Evidence.{Case}
use casegraph.Application.Monad.Ends.{
  Answers, EndsIn, Answers-pure, Answers-bind, EndsIn-call, EndsIn-bind, EndsIn-lift, EndsIn-domain,
  EndsIn-stop_if,
}
use casegraph.Application.Ports.{Ports, StoredArtifact}
use casegraph.Application.Service.{operation_context, create_case, ingest_stored, ingest_bytes}
use casegraph.Application.Service.Requests.{CreateCaseRequest, IngestBytesRequest}
use casegraph.Application.Service.Checks.{check_filename}
use casegraph.Application.Bundles.{IsIngestion}
use casegraph.Application.Bundles.Reaches.{Ready, Found, correlation-Answers, check_text-IsText}

-- What the artifact store returns for some bytes: their number, a hash and a key.
pub record IsStored (bytes : List ℕ) (s : StoredArtifact) : Type 0 where
  pub whole : s.content_length ≡ length bytes
  pub hash_size : length s.content_sha256 ≡ 64
  pub hash_digits : All IsLowerHex s.content_sha256
  pub key : IsText 1 255 s.storage_key

-- The texts are in their bounds, the filename is one name, and the bytes are within the limit.
pub record IsIngestRequest (limit : ℕ) (r : IngestBytesRequest) : Type 0 where
  pub source : IsText 1 2048 r.source_key
  pub through : IsText 1 100 r.connector
  pub located : IsText 1 2048 r.locator
  pub media : IsText 1 255 r.media_type
  pub filename : check_filename r.original_filename ≡ ok tt
  pub small : length r.bytes ≤ limit

open_case-valid : (c : Case) → IsText 1 300 c.title → c.closed_at ≡ none → validate_case c ≡ ok tt
unfolding validate_case
open_case-valid c h e = ground (arith, (validate_text-IsText (lit "case.title") c.title 1 300).1 h)

module _ {W : Type 0} (ports : Ports W) (ready : Ready ports) where
  operation_context-Answers :
      (actor : Text) (provided : Option RecordId) (reason : Option Text) (at : TimestampMs)
      → Answers (λ c. Unit) (operation_context ports actor provided reason at)
  unfolding operation_context
  operation_context-Answers actor provided reason at = Answers-bind _ _ (ready.next _) λ audit_id _.
      Answers-bind _ _ (correlation-Answers ports ready provided)
        λ correlation_id _. Answers-pure _ tt

  -- If the clock and the identifiers answer, and the title and the actor have 1 to 300 characters,
  -- `create_case` ends in the repository's `create_case` on a valid case of that title.
  pub create_case-EndsIn :
      (request : CreateCaseRequest)
      → IsText 1 300 request.title
      → IsText 1 300 request.actor
      → EndsIn ports.create_case
          (λ b. (validate_case b.case_record ≡ ok tt) × (b.case_record.title ≡ request.title))
          (create_case ports request)
  unfolding create_case
  create_case-EndsIn request title by = EndsIn-lift _ _ _ (check_text-IsText _ _ 1 300 title) λ _.
      EndsIn-lift _ _ _ (check_text-IsText _ _ 1 300 by) λ _. EndsIn-bind _ _ ready.now λ at _.
        EndsIn-bind _ _ (ready.next _) λ id _.
          EndsIn-domain _ _ _ (open_case-valid _ title refl) λ valid.
            EndsIn-bind _ _ (operation_context-Answers _ _ _ _)
              λ context _. EndsIn-call _ (valid, refl)

  -- If the clock, the identifiers and the lookup of the case answer, the case exists, the request is
  -- acceptable and the store keeps the bytes, `ingest_bytes` ends in `ingest` on a valid first
  -- version with the length of the bytes.
  pub ingest_bytes-EndsIn :
      (limit : ℕ) (request : IngestBytesRequest)
      → IsIngestRequest limit request
      → Answers Found (ports.get_case request.case_id)
      → Answers (IsStored request.bytes) (ports.put request.bytes)
      → EndsIn ports.ingest
          (λ b. IsIngestion limit b × (b.artifact_version.content_length ≡ length request.bytes))
          (ingest_bytes ports limit request)
  unfolding ingest_bytes ingest_stored
  ingest_bytes-EndsIn limit request good known store =
      EndsIn-lift _ _ _ (check_text-IsText _ _ 1 2048 good.source) λ _.
        EndsIn-lift _ _ _ (check_text-IsText _ _ 1 100 good.through) λ _.
          EndsIn-lift _ _ _ (check_text-IsText _ _ 1 2048 good.located) λ _.
            EndsIn-lift _ _ _ (check_text-IsText _ _ 1 255 good.media) λ _.
              EndsIn-lift _ _ _ good.filename λ _.
                EndsIn-stop_if _ _ _ (in_limit (length request.bytes) good.small) λ _.
                  EndsIn-bind _ _ known λ found is_found. EndsIn-stop_if _ _ _ (ground arith) λ _.
                    EndsIn-bind _ _ store λ stored kept.
                      EndsIn-stop_if _ _ _
                        (same_length stored.content_length (length request.bytes) kept.whole)
                        λ _. EndsIn-bind _ _ ready.now λ at _.
                          EndsIn-bind _ _ (ready.next _) λ source_id _.
                            EndsIn-bind _ _ (ready.next _) λ artifact_id _.
                              EndsIn-bind _ _ (ready.next _) λ version_id _.
                                EndsIn-domain _ _ _
                                  ((validate_artifact_version-IsArtifactVersion _).1 (record {
                                    numbered = omega arith;
                                    hash_size = kept.hash_size;
                                    hash_digits = kept.hash_digits;
                                    media = good.media;
                                    key = kept.key;
                                  }))
                                  λ valid.
                                    EndsIn-bind _ _ (operation_context-Answers _ _ _ _) λ context _.
                                      EndsIn-call _ (
                                        record {
                                          version_valid = valid;
                                          within = omega (arith, kept.whole, good.small);
                                          first = refl;
                                          linked = (refl, refl);
                                          one_case = refl;
                                        },
                                        kept.whole,
                                      )
    where
      in_limit : (n : ℕ) → n ≤ limit → ltb limit n ≡ false
      in_limit n h = ground arith

      same_length : (n m : ℕ) → n ≡ m → not (n == m) ≡ false
      same_length n m h = ground arith
