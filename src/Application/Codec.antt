-- ===== src/Application/Codec.antt =====
-- `canonical_json` and `sha256` of crates/casegraph-application/src/rules.rs. The serializer and
-- the digest are those of serde_json and sha2, and so they are parameters.
use casegraph.Prelude.{ℕ, ◌+◌, ◌/◌, ◌%◌, List, [], ◌∷◌, ltb, if◌then◌else◌}
use casegraph.Prelude.Result.{Result, map_err}
use casegraph.Text.{Text, lit}
use casegraph.Text.Utf8.{bytes}
use casegraph.Domain.Id.{RecordId}
use casegraph.Domain.Value.{MaterialValue}
use casegraph.Domain.Model.Workflow.{RuleDefinition, RuleInput}
use casegraph.Application.Error.{AppError, app_error, internal}

-- `serde_json::to_string` at the types that the rules write, and `Sha256::digest`.
pub record Codec : Type 0 where
  pub definition_json : RuleDefinition → Result (Unit {0}) Text
  pub inputs_json : List RuleInput → Result (Unit {0}) Text
  pub calculation_json : Text → ℕ → RecordId → Result (Unit {0}) Text
  pub value_json : MaterialValue → Result (Unit {0}) Text
  pub digest : List ℕ → List ℕ

-- `canonical_json`, of what the serializer returned.
abbrev pub canonical_json : Result (Unit {0}) Text → Result AppError Text
canonical_json r =
    map_err (λ _. app_error internal (lit "could not serialize deterministic rule state")) r

abbrev pub hex_digit : ℕ → ℕ
hex_digit n = if ltb n 10 then b'0' + n else b'W' + n

-- `format!("{byte:02x}")` of every byte.
unfoldable pub hex : List ℕ → Text
hex [] = []
hex (b ∷ s) = hex_digit (b / 16) ∷ hex_digit (b % 16) ∷ hex s

unfoldable pub sha256 : Codec → Text → Text
sha256 codec s = hex (codec.digest (bytes s))
