-- ===== src/Application/Pipeline/Extracted.antt =====
-- What a claim of the pipeline in crates/casegraph-application/src/pipeline.rs has to do with the
-- artifact that it comes from.
use mathlib.Core.Path.{subst}
use casegraph.Application.Monad.Keeps.{ok_inj}
use casegraph.Prelude.{
  ℕ, Bool, true, false, ◌||◌, ◌≡◌, ◌≢◌, ◌⊎◌, inl, inr, refl, ap, arith, Any, All, none, some, List,
  [], ◌∷◌, ◌++◌, ◌==◌, ==_iff, Bool-cases, if◌then◌else◌,
}
use casegraph.Prelude.Result.{ok, err}
use casegraph.Text.{Text, lit, text_eq, text_eq_iff}
use casegraph.Text.Trim.{trim}
use casegraph.Application.Ports.{ClaimBundle}
use casegraph.Application.Bundles.{IsGrounded, IsRecorded}
use casegraph.Application.Pipeline.{
  ArtifactFormat, plain_text, json, csv, PipelineError, DeterministicExtractor,
  ExtractArtifactRequest, ExtractedField, before_parameters, classify, claim_request,
  find_extractor, some_fields,
}

-- The names of the formats.
abbrev pub IsFormatName : ArtifactFormat → Text → Type 0
IsFormatName plain_text name = name ≡ lit "text/plain"
IsFormatName json name = name ≡ lit "application/json"
IsFormatName csv name = (name ≡ lit "text/csv") ⊎ (name ≡ lit "application/csv")

-- The media type is the name of the format, and behind a semicolon possibly parameters; spaces
-- around the name do not count.
pub record HasFormat (media_type : Text) (format : ArtifactFormat) : Type 0 where
  pub name : Text
  pub parameters : Text
  pub parts : media_type ≡ name ++ parameters
  pub no_semicolon : All (λ c. c ≢ b';') name
  pub behind : (parameters ≡ []) ⊎ ((rest : Text) × (parameters ≡ b';' ∷ rest))
  pub format_name : IsFormatName format (trim name)

-- The first of the extractors that support the format.
abbrev pub IsFirst : ArtifactFormat → List DeterministicExtractor → DeterministicExtractor → Type 0
IsFirst format [] extractor = ⊥
IsFirst format (e ∷ extractors) extractor =
    ((e.supports format ≡ true) × (e ≡ extractor))
    ⊎ ((e.supports format ≡ false) × IsFirst format extractors extractor)

-- The claim says what the field says, at the place of the field in the requested artifact version.
pub record Says (request : ExtractArtifactRequest) (extractor : DeterministicExtractor)
    (field : ExtractedField) (b : ClaimBundle) : Type 0 where
  pub grounded : IsGrounded b
  pub case_is : b.claim.case_id ≡ request.case_id
  pub subject : b.claim.subject_key ≡ field.subject_key
  pub named : b.claim.predicate ≡ field.predicate
  pub original : b.claim.original_value ≡ field.original_value
  pub value : b.claim.normalized_value ≡ field.normalized_value
  pub dated : b.claim.temporal ≡ field.temporal
  pub version : b.provenance.artifact_version_id ≡ some request.artifact_version_id
  pub connector : b.provenance.connector ≡ request.connector
  pub place :
      (b.provenance.source_field ≡ field.location.source_field)
      × (b.provenance.paragraph_number ≡ field.location.paragraph_number)
      × (b.provenance.text_span_start ≡ field.location.text_span_start)
      × (b.provenance.text_span_end ≡ field.location.text_span_end)
      × (b.provenance.row_number ≡ field.location.row_number)
      × (b.provenance.column_number ≡ field.location.column_number)
  pub extracted_by :
      (b.provenance.extraction_method ≡ lit "deterministic")
      × (b.provenance.extractor_name ≡ extractor.name)
      × (b.provenance.extractor_version ≡ extractor.version)
      × (b.provenance.confidence ≡ field.extraction_confidence)
  pub no_model : (b.provenance.model_provider ≡ none) × (b.provenance.model_name ≡ none)
  pub acting : b.context.actor ≡ request.actor

-- The claim says what one of the fields says that the first extractor for the format of the media
-- type makes of the stored bytes.
pub record IsExtracted (extractors : List DeterministicExtractor) (Stored : List ℕ → Type 0)
    (request : ExtractArtifactRequest) (b : ClaimBundle) : Type 0 where
  pub format : ArtifactFormat
  pub has_format : HasFormat request.media_type format
  pub bytes : List ℕ
  pub stored : Stored bytes
  pub extractor : DeterministicExtractor
  pub first : IsFirst format extractors extractor
  pub fields : List ExtractedField
  pub extracted : extractor.extract format bytes ≡ ok fields
  pub of_field : Any (λ field. Says request extractor field b) fields

Says-IsGrounded :
    (request : ExtractArtifactRequest) (extractor : DeterministicExtractor)
    (fields : List ExtractedField) (b : ClaimBundle)
    → Any (λ field. Says request extractor field b) fields
    → IsGrounded b
Says-IsGrounded request extractor [] b h = absurd h
Says-IsGrounded request extractor (f ∷ fields) b (inl says) = says.grounded
Says-IsGrounded request extractor (f ∷ fields) b (inr says) =
    Says-IsGrounded request extractor fields b says

pub IsExtracted-IsGrounded :
    {extractors : List DeterministicExtractor} {Stored : List ℕ → Type 0}
    {request : ExtractArtifactRequest} {b : ClaimBundle}
    → IsExtracted extractors Stored request b
    → IsGrounded b
IsExtracted-IsGrounded {request = request} {b = b} e =
    Says-IsGrounded request e.extractor e.fields b e.of_field

pub IsRecorded-Says :
    (request : ExtractArtifactRequest) (extractor : DeterministicExtractor) (field : ExtractedField)
    (b : ClaimBundle)
    → IsRecorded (claim_request request extractor field) b
    → Says request extractor field b
IsRecorded-Says request extractor field b r = record {
  grounded = r.grounded;
  case_is = r.case_is;
  subject = r.subject.1;
  named = r.named;
  original = r.original;
  value = r.value;
  dated = r.dated;
  version = r.source.0;
  connector = r.source.1;
  place = (r.place.0, r.place.2, r.place.3, r.place.4, r.place.6, r.place.7);
  extracted_by = r.extracted_by;
  no_model = (r.interpreted_by.0, r.interpreted_by.1);
  acting = r.acting;
}

-- The name is cut at a semicolon, and nowhere else.
abbrev IsCut : Text → Text → Text → Type 0
IsCut s name rest =
    (s ≡ name ++ rest) × All (λ c. c ≢ b';') name × ((rest ≡ []) ⊎ ((t : Text) × (rest ≡ b';' ∷ t)))

IsCut-next :
    (c : ℕ) (s name rest : Text) (b : Bool)
    → (c == b';') ≡ b
    → IsCut s name rest
    → (r : Text) × IsCut (c ∷ s) (if b then [] else c ∷ name) r
IsCut-next c s name rest true e cut =
    (c ∷ s, (refl, tt, inr (s, ap (λ d. d ∷ s) ((==_iff c b';').0 e))))
IsCut-next c s name rest false e cut =
    (rest, (ap (λ t. c ∷ t) cut.0, (λ k. let h = (==_iff c b';').1 k in absurd (cc), cut.1), cut.2))

before_parameters_parts : (s : Text) → (rest : Text) × IsCut s (before_parameters s) rest
before_parameters_parts [] = ([], (refl, tt, inl refl))
before_parameters_parts (c ∷ s) =
    let (rest, cut) = before_parameters_parts s in
    IsCut-next c s (before_parameters s) rest (c == b';') refl cut

named_by :
    (name : Text) (e : PipelineError) (format : ArtifactFormat) (p j c a : Bool)
    → (p ≡ true → name ≡ lit "text/plain")
    → (j ≡ true → name ≡ lit "application/json")
    → (c ≡ true → name ≡ lit "text/csv")
    → (a ≡ true → name ≡ lit "application/csv")
    → (if p then ok plain_text else if j then ok json else if c || a then ok csv else err e)
      ≡ ok format
    → IsFormatName format name
named_by name e format true j c a ip ij ic ia h =
    subst (λ f. IsFormatName f name) (ok_inj h) (ip refl)
named_by name e format false true c a ip ij ic ia h =
    subst (λ f. IsFormatName f name) (ok_inj h) (ij refl)
named_by name e format false false true a ip ij ic ia h =
    subst (λ f. IsFormatName f name) (ok_inj h) (inl (ic refl))
named_by name e format false false false true ip ij ic ia h =
    subst (λ f. IsFormatName f name) (ok_inj h) (inr (ia refl))
named_by name e format false false false false ip ij ic ia h = absurd (cc)

pub classify-HasFormat :
    (media_type : Text) (format : ArtifactFormat)
    → classify media_type ≡ ok format
    → HasFormat media_type format
unfolding classify
classify-HasFormat media_type format h =
    let (rest, (parts, none_in, behind)) = before_parameters_parts media_type in
    let name = trim (before_parameters media_type) in
    record {
      name = before_parameters media_type;
      parameters = rest;
      parts = parts;
      no_semicolon = none_in;
      behind = behind;
      format_name =
          named_by name _ format (text_eq name (lit "text/plain"))
            (text_eq name (lit "application/json")) (text_eq name (lit "text/csv"))
            (text_eq name (lit "application/csv")) (text_eq_iff name _).0 (text_eq_iff name _).0
            (text_eq_iff name _).0 (text_eq_iff name _).0 h;
    }

pub find_extractor-IsFirst :
    (format : ArtifactFormat) (extractors : List DeterministicExtractor)
    (extractor : DeterministicExtractor)
    → find_extractor format extractors ≡ ok extractor
    → IsFirst format extractors extractor
find_extractor-IsFirst format [] extractor h = absurd (cc)
find_extractor-IsFirst format (e ∷ extractors) extractor h = elim (Bool-cases (e.supports format)) [
  | inl supported ↦ inl (supported, ground arith)
  | inr other ↦ inr (other, find_extractor-IsFirst format extractors extractor (ground arith))
]

pub some_fields_same :
    (extracted fields : List ExtractedField)
    → some_fields extracted ≡ ok fields
    → extracted ≡ fields
some_fields_same [] fields h = absurd (cc)
some_fields_same (f ∷ extracted) fields h = cc
