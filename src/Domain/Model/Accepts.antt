-- ===== src/Domain/Model/Accepts.antt =====
-- What the `validate` methods of crates/casegraph-domain/src/model.rs accept.
use casegraph.Prelude.{
  ℕ, ◌+◌, ◌≤◌, ◌≡◌, ◌≢◌, refl, ◌↔◌, ◌⊎◌, true, false, ◌&&◌, Option, none, some, List, [], ◌∷◌, ◌++◌,
  arith, length, all, All,
}
use casegraph.Prelude.Result.{ok}
use casegraph.Text.{Text, lit}
use casegraph.Text.Utf8.{encode, bytes, len}
use casegraph.Domain.Temporal.{TimestampMs, TemporalValue}
use casegraph.Domain.Temporal
use casegraph.Domain.Model.Evidence.{ArtifactVersion, ProvenanceRecord, Claim, external}
use casegraph.Domain.Model.Validate.{
  reversed, is_lower_hex, validate_artifact_version, validate_provenance, validate_claim,
}
use casegraph.Domain.Model.Texts.{IsText, validate_text-IsText}

-- A digit or a letter from a to f.
abbrev pub IsLowerHex : ℕ → Type 0
IsLowerHex c = ((b'0' ≤ c) × (c ≤ b'9')) ⊎ ((b'a' ≤ c) × (c ≤ b'f'))

hex-encode :
    (c : ℕ) (rest : List ℕ)
    → all is_lower_hex (encode c ++ rest) ≡ (is_lower_hex c && all is_lower_hex rest)
unfolding encode
hex-encode c rest = ground arith

hex-size : (c : ℕ) (rest : List ℕ) → IsLowerHex c → length (encode c ++ rest) ≡ length rest + 1
unfolding encode
hex-size c rest h = ground arith

hex_char : (c : ℕ) → (is_lower_hex c ≡ true) ↔ IsLowerHex c
hex_char c = (λ h. ground arith, λ h. ground arith)

pub all-hex : (s : Text) → (all is_lower_hex (bytes s) ≡ true) ↔ All IsLowerHex s
unfolding bytes
all-hex [] = (λ h. tt, λ h. refl)
all-hex (c ∷ s) = (
  λ h. ground (arith, hex-encode c (bytes s), all-hex s, hex_char c),
  λ h. ground (arith, hex-encode c (bytes s), all-hex s, hex_char c),
)

len-hex : (s : Text) → All IsLowerHex s → len s ≡ length s
unfolding len bytes
len-hex [] h = refl
len-hex (c ∷ s) h = omega (arith, hex-size c (bytes s) h.0, len-hex s h.1)

-- The content hash is 64 lower-case hexadecimal digits, and the other fields are in their bounds.
pub record IsArtifactVersion (v : ArtifactVersion) : Type 0 where
  pub numbered : 1 ≤ v.version_number
  pub hash_size : length v.content_sha256 ≡ 64
  pub hash_digits : All IsLowerHex v.content_sha256
  pub media : IsText 1 255 v.media_type
  pub key : IsText 1 255 v.storage_key

-- `ArtifactVersion::validate` accepts exactly the versions with a positive number, a hash of 64
-- lower-case hexadecimal digits, and a media type and a storage key of 1 to 255 characters.
pub validate_artifact_version-IsArtifactVersion :
    (v : ArtifactVersion) → (validate_artifact_version v ≡ ok tt) ↔ IsArtifactVersion v
unfolding validate_artifact_version
validate_artifact_version-IsArtifactVersion v = (λ h. sound h, λ h. complete h)
  where
    sound : validate_artifact_version v ≡ ok tt → IsArtifactVersion v
    sound h =
        let digits : All IsLowerHex v.content_sha256 =
          (all-hex v.content_sha256).0 (ground arith) in
        record {
          numbered = ground arith;
          hash_size = ground (arith, len-hex v.content_sha256 digits);
          hash_digits = digits;
          media =
              (validate_text-IsText (lit "artifact_version.media_type") v.media_type 1 255).0
                (ground arith);
          key =
              (validate_text-IsText (lit "artifact_version.storage_key") v.storage_key 1 255).0
                (ground arith);
        }

    complete : IsArtifactVersion v → validate_artifact_version v ≡ ok tt
    complete h = ground (
      arith,
      len-hex v.content_sha256 h.hash_digits,
      (all-hex v.content_sha256).1 h.hash_digits,
      (validate_text-IsText (lit "artifact_version.media_type") v.media_type 1 255).1 h.media,
      (validate_text-IsText (lit "artifact_version.storage_key") v.storage_key 1 255).1 h.key,
    )

-- The two ends of a span, where both are known.
abbrev pub InOrder : Option ℕ → Option ℕ → Type 0
InOrder (some start) (some end) = start ≤ end
InOrder (some start) none = Unit
InOrder none end = Unit

-- A span in order, and a model that is named by its provider.
pub record IsProvenance (p : ProvenanceRecord) : Type 0 where
  pub method : IsText 1 100 p.extraction_method
  pub extractor : IsText 1 200 p.extractor_name
  pub version : IsText 1 100 p.extractor_version
  pub span : InOrder p.text_span_start p.text_span_end
  pub attributed :
      p.model_provider ≡ none
      → (p.model_name ≡ none) × (p.model_version ≡ none) × (p.model_configuration_json ≡ none)

in_order : (a b : Option ℕ) → (reversed a b ≡ false) ↔ InOrder a b
in_order (some a) (some b) = (λ h. ground arith, λ h. ground arith)
in_order (some a) none = (λ h. tt, λ h. refl)
in_order none b = (λ h. tt, λ h. refl)

-- `ProvenanceRecord::validate` accepts exactly the records with bounded extraction texts, a span
-- whose end does not precede its start, and no model metadata without a model provider.
pub validate_provenance-IsProvenance :
    (p : ProvenanceRecord) → (validate_provenance p ≡ ok tt) ↔ IsProvenance p
unfolding validate_provenance
validate_provenance-IsProvenance p = (λ h. sound h, λ h. complete h)
  where
    sound : validate_provenance p ≡ ok tt → IsProvenance p
    sound h = record {
      method =
          (validate_text-IsText (lit "provenance.extraction_method") p.extraction_method 1 100).0
            (ground arith);
      extractor =
          (validate_text-IsText (lit "provenance.extractor_name") p.extractor_name 1 200).0
            (ground arith);
      version =
          (validate_text-IsText (lit "provenance.extractor_version") p.extractor_version 1 100).0
            (ground arith);
      span = (in_order p.text_span_start p.text_span_end).0 (ground arith);
      attributed = λ e. ground arith;
    }

    complete : IsProvenance p → validate_provenance p ≡ ok tt
    complete h = ground (
      arith,
      (in_order p.text_span_start p.text_span_end).1 h.span,
      (validate_text-IsText (lit "provenance.extraction_method") p.extraction_method 1 100).1
          h.method,
      (validate_text-IsText (lit "provenance.extractor_name") p.extractor_name 1 200).1 h.extractor,
      (validate_text-IsText (lit "provenance.extractor_version") p.extractor_version 1 100).1
          h.version,
    )

-- A claim with bounded texts, whose provenance is named if it is external.
pub record IsClaim (c : Claim) : Type 0 where
  pub subject : IsText 1 300 c.subject_key
  pub named : IsText 1 300 c.predicate
  pub grounded : c.origin ≡ external → c.primary_provenance_id ≢ none
  pub dated : (t : TemporalValue) → c.temporal ≡ some t → Temporal.validate t ≡ ok tt

-- `Claim::validate` accepts exactly the claims with bounded texts and a valid temporal value, if
-- they have one, that name their provenance if they are external.
pub validate_claim-IsClaim : (c : Claim) → (validate_claim c ≡ ok tt) ↔ IsClaim c
unfolding validate_claim
validate_claim-IsClaim c = (λ h. sound h, λ h. complete h)
  where
    sound : validate_claim c ≡ ok tt → IsClaim c
    sound h = record {
      subject =
          (validate_text-IsText (lit "claim.subject_key") c.subject_key 1 300).0 (ground arith);
      named = (validate_text-IsText (lit "claim.predicate") c.predicate 1 300).0 (ground arith);
      grounded = λ e z. ground arith;
      dated = λ t e. ground arith;
    }

    complete : IsClaim c → validate_claim c ≡ ok tt
    complete h = grind (
      arith,
      (validate_text-IsText (lit "claim.subject_key") c.subject_key 1 300).1 h.subject,
      (validate_text-IsText (lit "claim.predicate") c.predicate 1 300).1 h.named,
      h.grounded,
      h.dated,
    )
