-- ===== src/Application/Reasoning.antt =====
-- The reasoning gateway of crates/casegraph-application/src/reasoning.rs. The provider and the sink
-- are adapters on a world `W`; the strict deserializer of serde_json is a parameter.
pub mod Guard
use casegraph.Prelude.{
  ℕ, Bool, true, false, ◌&&◌, ◌||◌, Option, none, some, List, any, if◌then◌else◌,
}
use casegraph.Prelude.Result.{Result, ok, err}
use casegraph.Text.{Text, lit, is_empty}
use casegraph.Text.Trim.{trim}
use casegraph.Domain.Id.{RecordId}
use casegraph.Domain.Value.{KnowledgeValue}
use casegraph.Domain.Model.Validate.{reversed}

pub data ProviderPolicy : Type 0 where
  disabled local_only allow_listed_remote : ProviderPolicy

pub data ProviderLocality : Type 0 where
  local remote : ProviderLocality

pub record ModelIdentity : Type 0 where
  pub provider : Text
  pub model : Text
  pub version : Text
  pub configuration_json : Text

pub record InterpretedClaim : Type 0 where
  pub subject_key : Text
  pub predicate : Text
  pub original_value : Text
  pub normalized_value : KnowledgeValue
  pub text_span_start : Option ℕ
  pub text_span_end : Option ℕ

pub record ReasoningOutput : Type 0 where
  pub claims : List InterpretedClaim

pub data ReasoningFailureKind : Type 0 where
  disabled policy_denied provider_unavailable malformed_output validation_rejected :
      ReasoningFailureKind

pub record ReasoningFailure : Type 0 where
  pub id : RecordId
  pub correlation_id : RecordId
  pub provider : Option Text
  pub model : Option Text
  pub kind : ReasoningFailureKind
  pub safe_message : Text

pub record ReasoningError : Type 0 where
  pub kind : ReasoningFailureKind
  pub safe_message : Text

-- `RawReasoningProvider`: `identity` and `locality` read the world, `invoke` may change it.
pub record RawReasoningProvider (W : Type 0) : Type 0 where
  pub identity : W → ModelIdentity
  pub locality : W → ProviderLocality
  pub invoke : Text → W → Result ReasoningError Text × W

pub record ReasoningGateway (W : Type 0) : Type 0 where
  pub policy : ProviderPolicy
  pub provider : Option (RawReasoningProvider W)
  pub record_failure : ReasoningFailure → W → W

-- Local-only policy refuses a remote provider.
abbrev pub is_denied : ProviderPolicy → ProviderLocality → Bool
is_denied ProviderPolicy.disabled place = true
is_denied ProviderPolicy.local_only ProviderLocality.remote = true
is_denied ProviderPolicy.local_only ProviderLocality.local = false
is_denied ProviderPolicy.allow_listed_remote place = false

-- The test that the loop over the claims makes.
abbrev pub is_rejected : InterpretedClaim → Bool
is_rejected claim =
    is_empty (trim claim.subject_key)
    || (is_empty (trim claim.predicate) || reversed claim.text_span_start claim.text_span_end)

abbrev pub provider_of : Option ModelIdentity → Option Text
provider_of none = none
provider_of (some identity) = some identity.provider

abbrev pub model_of : Option ModelIdentity → Option Text
model_of none = none
model_of (some identity) = some identity.model

module _ {W : Type 0} (gateway : ReasoningGateway W) (failure_id correlation_id : RecordId) where
  -- `ReasoningGateway::fail`.
  unfoldable pub fail :
      Option ModelIdentity
      → ReasoningFailureKind
      → Text
      → W
      → Result ReasoningError (List InterpretedClaim) × W
  fail identity kind safe_message w = (
    err (record { kind = kind; safe_message = safe_message }),
    gateway.record_failure
        (record {
          id = failure_id;
          correlation_id = correlation_id;
          provider = provider_of identity;
          model = model_of identity;
          kind = kind;
          safe_message = safe_message;
        })
        w,
  )

  -- What becomes of the provider's text.
  unfoldable pub check_output :
      ModelIdentity → Option ReasoningOutput → W → Result ReasoningError (List InterpretedClaim) × W
  check_output identity none w =
      fail (some identity) malformed_output
        (lit "reasoning provider output did not match the required schema") w
  check_output identity (some output) w =
      if any is_rejected output.claims
      then fail (some identity) validation_rejected
          (lit "reasoning provider output violated a semantic invariant") w
      else (ok output.claims, w)

  unfoldable pub read_output :
      (Text → Option ReasoningOutput)
      → ModelIdentity
      → Result ReasoningError Text
      → W
      → Result ReasoningError (List InterpretedClaim) × W
  unfolding check_output
  read_output from_str identity (err e) w =
      fail (some identity) provider_unavailable (lit "reasoning provider invocation failed") w
  read_output from_str identity (ok raw) w = check_output identity (from_str raw) w

  -- `interpret` with the provider that is configured.
  unfoldable pub interpret_with :
      (Text → Option ReasoningOutput)
      → RawReasoningProvider W
      → Text
      → W
      → Result ReasoningError (List InterpretedClaim) × W
  interpret_with from_str provider redacted_context w =
      let identity = provider.identity w in
      if is_denied gateway.policy (provider.locality w)
      then fail (some identity) policy_denied
          (lit "reasoning provider invocation is denied by deployment policy") w
      else let (raw, w') = provider.invoke redacted_context w in
        read_output from_str identity raw w'

  abbrev pub interpret_by :
      (Text → Option ReasoningOutput)
      → Option (RawReasoningProvider W)
      → Text
      → W
      → Result ReasoningError (List InterpretedClaim) × W
  interpret_by from_str none redacted_context w =
      fail none ReasoningFailureKind.disabled (lit "no reasoning provider is configured") w
  interpret_by from_str (some provider) redacted_context w =
      interpret_with from_str provider redacted_context w

  -- `ReasoningGateway::interpret`.
  unfoldable pub interpret :
      (Text → Option ReasoningOutput) → Text → W → Result ReasoningError (List InterpretedClaim) × W
  interpret from_str redacted_context w = interpret_by from_str gateway.provider redacted_context w
