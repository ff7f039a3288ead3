-- ===== src/Infrastructure/Sqlite/Serde.antt =====
-- The values that crates/casegraph-infrastructure/src/sqlite_repository.rs writes to columns and
-- reads back. serde_json, sha2 and the JSON functions of SQLite are parameters.
use Prim.Native.Nat.{Ordering}
use casegraph.Prelude.{
  ℕ, zero, suc, ◌++◌, Bool, Option, none, some, List, [], ◌∷◌, leb, if◌then◌else◌,
}
use casegraph.Prelude.Int.{ℤ, pos, negsuc}
use casegraph.Prelude.Result.{Result, ok, err, map_err, ◌>>=◌}
use casegraph.Text.{Text, lit}
use casegraph.Text.Utf8.{bytes}
use casegraph.Domain.Id.{RecordId, id_cmp, parse}
use casegraph.Domain.Temporal.{
  TimestampMs, TemporalValue, Date, timestamp, parse_iso, Parsed, panic, parsed,
}
use casegraph.Domain.Value.{KnowledgeValue}
use casegraph.Domain.Confidence.{Confidence, F64, nan, infinite, finite, confidence}
use casegraph.Domain.Model.Evidence.{HumanReview}
use casegraph.Domain.Model.Workflow.{RuleDefinition, RuleInput, RuleResult}
use casegraph.Application.Error.{AppError, app_error, from_domain, storage, internal}
use casegraph.Application.Ports.{IngestionDisposition}
use casegraph.Application.Codec.{hex}

-- The states that the audit log records: the `json!` objects, and a review as it is.
pub data AuditState : Type 0 where
  case_created : AuditState
  artifact_ingested : RecordId → RecordId → Text → IngestionDisposition → AuditState
  claim_recorded : RecordId → RecordId → List RecordId → List RecordId → AuditState
  claim_reviewed : HumanReview → AuditState
  claim_corrected : RecordId → RecordId → List RecordId → AuditState
  rule_registered : RecordId → ℕ → Text → AuditState
  rule_evaluated :
      RecordId
      → Text
      → RuleResult
      → Option RecordId
      → Option RecordId
      → Option RecordId
      → AuditState

-- `serde_json::to_string` and `from_str` at the types of the columns, `json_valid` of SQLite, and
-- `Sha256::digest`.
pub record Serde : Type 0 where
  pub value_json : KnowledgeValue → Result (Unit {0}) Text
  pub read_value : Text → Result (Unit {0}) KnowledgeValue
  pub temporal_json : TemporalValue → Result (Unit {0}) Text
  pub read_temporal : Text → Result (Unit {0}) TemporalValue
  pub definition_json : RuleDefinition → Result (Unit {0}) Text
  pub read_definition : Text → Result (Unit {0}) RuleDefinition
  pub inputs_json : List RuleInput → Result (Unit {0}) Text
  pub read_inputs : Text → Result (Unit {0}) (List RuleInput)
  pub ids_json : List RecordId → Result (Unit {0}) Text
  pub state_json : AuditState → Result (Unit {0}) Text
  pub json_valid : Text → Bool
  pub digest : List ℕ → List ℕ

-- `to_json`, of what the serializer returned.
abbrev pub to_json : Result (Unit {0}) Text → Result AppError Text
to_json r =
    map_err (λ _. app_error internal (lit "could not serialize validated application state")) r

-- `from_json`, of what the deserializer returned.
abbrev pub from_json : {A : Type 0} → Result (Unit {0}) A → Result AppError A
from_json r = map_err (λ _. app_error storage (lit "database contains malformed canonical JSON")) r

-- `parse_id`.
unfoldable pub parse_id : Text → Result AppError RecordId
parse_id value =
    map_err (λ _. app_error storage (lit "database contains an invalid canonical identifier"))
      (parse value)

-- `timestamp`.
unfoldable pub read_timestamp : ℤ → Result AppError TimestampMs
read_timestamp value =
    map_err (λ _. app_error storage (lit "database contains an invalid timestamp"))
      (timestamp value)

-- `Date::parse_iso` with `?`. It never panics (Domain.Temporal.Iso), so the first clause is not
-- reached.
abbrev pub read_parsed : Parsed → Result AppError Date
read_parsed panic = err (app_error internal (lit "panic"))
read_parsed (parsed r) = map_err from_domain r

abbrev pub read_date : Text → Result AppError Date
read_date value = read_parsed (parse_iso value)

-- `Confidence::new` with `?`.
abbrev pub read_confidence : F64 → Result AppError Confidence
read_confidence value = map_err from_domain (confidence value)

-- `map(f).transpose()?`.
abbrev pub traverse :
    {A B : Type 0} → (A → Result AppError B) → Option A → Result AppError (Option B)
traverse f none = ok none
traverse f (some a) = f a >>= λ b. ok (some b)

-- A REAL column: SQLite stores no value in place of a NaN.
abbrev pub real_column : Option Confidence → Option F64
real_column none = none
real_column (some c) = elim c.score [
  | nan ↦ none
  | infinite negative ↦ some (infinite negative)
  | finite negative mantissa exponent ↦ some (finite negative mantissa exponent)
]

abbrev pub i64_max : ℕ
i64_max = 9223372036854775807

-- `i64::try_from` of a `u64`.
abbrev pub to_i64 : AppError → ℕ → Result AppError ℤ
to_i64 e n = if leb n i64_max then ok (pos n) else err e

-- `u64::try_from` of an `i64`.
abbrev pub to_u64 : AppError → ℤ → Result AppError ℕ
to_u64 e (pos n) = ok n
to_u64 e (negsuc n) = err e

-- What the hasher reads: the kind, and each part after a zero byte.
abbrev pub hashed_parts : List Text → List ℕ
hashed_parts [] = []
hashed_parts (part ∷ parts) = (0 ∷ bytes part) ++ hashed_parts parts

-- `digest[..n]` of a digest that is long enough.
abbrev pub first_bytes : ℕ → List ℕ → List ℕ
first_bytes zero bs = []
first_bytes (suc n) [] = []
first_bytes (suc n) (b ∷ bs) = b ∷ first_bytes n bs

-- `deterministic_id`.
unfoldable pub deterministic_id : Serde → Text → List Text → Result AppError RecordId
deterministic_id serde kind parts =
    let digest = serde.digest (bytes kind ++ hashed_parts parts) in
    map_err from_domain (parse (kind ++ (lit "_" ++ hex (first_bytes 16 digest))))

-- `ordered_ids`.
unfoldable pub ordered_ids : RecordId → RecordId → RecordId × RecordId
ordered_ids left right = elim (id_cmp left right) [
  | Ordering.lt ↦ (left, right)
  | Ordering.eq ↦ (right, left)
  | Ordering.gt ↦ (right, left)
]
