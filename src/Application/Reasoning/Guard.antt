-- ===== src/Application/Reasoning/Guard.antt =====
-- What the gateway of crates/casegraph-application/src/reasoning.rs lets through.
use casegraph.Prelude.{
  ℕ, ◌≤◌, ◌≡◌, refl, ◌⊎◌, inl, inr, ◌↔◌, arith, false, Option, none, some, List, [], ◌∷◌, any, All,
  Bool-cases,
}
use casegraph.Prelude.Result.{Result, ok, err}
use casegraph.Text.{Text, is_empty}
use casegraph.Text.Trim.{trim}
use casegraph.Domain.Id.{RecordId}
use casegraph.Domain.Model.Validate.{reversed}
use casegraph.Application.Reasoning.{
  ProviderPolicy, ProviderLocality, ReasoningFailureKind, InterpretedClaim, ReasoningOutput,
  ReasoningFailure, ReasoningError, RawReasoningProvider, ReasoningGateway, is_denied, is_rejected,
  fail, check_output, read_output, interpret_with, interpret_by, interpret, ModelIdentity,
}

-- Remote providers only when they are allowed, none when reasoning is disabled.
abbrev pub Permitted : ProviderPolicy → ProviderLocality → Type 0
Permitted ProviderPolicy.disabled place = ⊥
Permitted ProviderPolicy.local_only place = place ≡ ProviderLocality.local
Permitted ProviderPolicy.allow_listed_remote place = Unit

-- The subject and the predicate are not blank, and the span does not end before it starts.
pub record IsSensible (claim : InterpretedClaim) : Type 0 where
  pub subject : ¬ (trim claim.subject_key ≡ [])
  pub named : ¬ (trim claim.predicate ≡ [])
  pub span : (i j : ℕ) → claim.text_span_start ≡ some i → claim.text_span_end ≡ some j → i ≤ j

denied_iff :
    (policy : ProviderPolicy) (place : ProviderLocality)
    → (is_denied policy place ≡ false) ↔ Permitted policy place
denied_iff policy place = (λ h. ground arith, λ h. ground arith)

not_empty : (s : Text) → is_empty s ≡ false → ¬ (s ≡ [])
unfolding is_empty
not_empty [] h = absurd (cc)
not_empty (c ∷ s) h = λ e. cc

in_order : (a b : Option ℕ) → reversed a b ≡ false → (i j : ℕ) → a ≡ some i → b ≡ some j → i ≤ j
in_order a b h i j e f = ground arith

sensible : (claims : List InterpretedClaim) → any is_rejected claims ≡ false → All IsSensible claims
sensible [] h = tt
sensible (c ∷ claims) h = (
  record {
    subject = not_empty (trim c.subject_key) (ground arith);
    named = not_empty (trim c.predicate) (ground arith);
    span = in_order c.text_span_start c.text_span_end (ground arith);
  },
  sensible claims (ground arith),
)

module _ {W : Type 0} (gateway : ReasoningGateway W) (failure_id correlation_id : RecordId)
    (from_str : Text → Option ReasoningOutput) (context : Text) where
  -- The provider is configured and the policy permits it.
  pub record IsPermitted (w : W) (provider : RawReasoningProvider W) : Type 0 where
    pub configured : gateway.provider ≡ some provider
    pub permitted : Permitted gateway.policy (provider.locality w)

  -- Claims come from the text of a permitted provider, and all are sensible.
  pub record IsAccepted (w w' : W) (claims : List InterpretedClaim) : Type 0 where
    pub provider : RawReasoningProvider W
    pub permitted : IsPermitted w provider
    pub raw : Text
    pub answered : provider.invoke context w ≡ (ok raw, w')
    pub parsed : from_str raw ≡ some (record { claims = claims })
    pub all_sensible : All IsSensible claims

  -- The world `before` the failure was recorded is the first one, or what the invocation of a
  -- permitted provider made of it.
  abbrev pub Reached : W → W → Type 0
  Reached w before =
      (before ≡ w)
      ⊎ ((provider : RawReasoningProvider W) × IsPermitted w provider
          × (before ≡ (provider.invoke context w).1))

  -- A failure is recorded once, last, with the kind and message that the caller gets.
  pub record IsRefused (w w' : W) (e : ReasoningError) : Type 0 where
    pub before : W
    pub reached : Reached w before
    pub failure : ReasoningFailure
    pub recorded : w' ≡ gateway.record_failure failure before
    pub same_ids : (failure.id ≡ failure_id) × (failure.correlation_id ≡ correlation_id)
    pub same_kind : failure.kind ≡ e.kind
    pub same_message : failure.safe_message ≡ e.safe_message

  abbrev pub Guarded : W → Result ReasoningError (List InterpretedClaim) × W → Type 0
  Guarded w (ok claims, w') = IsAccepted w w' claims
  Guarded w (err e, w') = IsRefused w w' e

  fail-Guarded :
      (w before : W) (identity : Option ModelIdentity) (kind : ReasoningFailureKind)
      (message : Text)
      → Reached w before
      → Guarded w (fail gateway failure_id correlation_id identity kind message before)
  unfolding fail
  fail-Guarded w before identity kind message reached = record {
    before = before;
    reached = reached;
    failure = _;
    recorded = refl;
    same_ids = (refl, refl);
    same_kind = refl;
    same_message = refl;
  }

  read_output-Guarded :
      (w : W) (provider : RawReasoningProvider W) (identity : ModelIdentity)
      → IsPermitted w provider
      → (answer : Result ReasoningError Text) (w' : W) → provider.invoke context w ≡ (answer, w')
      → Guarded w (read_output gateway failure_id correlation_id from_str identity answer w')
  unfolding read_output
  read_output-Guarded w provider identity permitted (err e) w' h =
      fail-Guarded w w' _ _ _ (inr (provider, permitted, cc))
  read_output-Guarded w provider identity permitted (ok raw) w' h = go (from_str raw) refl
    where
      go :
          (o : Option ReasoningOutput)
          → from_str raw ≡ o
          → Guarded w (check_output gateway failure_id correlation_id identity o w')
      go none k = fail-Guarded w w' _ _ _ (inr (provider, permitted, cc))
      go (some output) k = elim (Bool-cases (any is_rejected output.claims)) [
        | inl bad ↦ rw bad (fail-Guarded w w' _ _ _ (inr (provider, permitted, cc)))
        | inr good ↦ rw good (record {
          provider = provider;
          permitted = permitted;
          raw = raw;
          answered = h;
          parsed = k;
          all_sensible = sensible output.claims good;
        })
      ]

  interpret_with-Guarded :
      (w : W) (provider : RawReasoningProvider W)
      → gateway.provider ≡ some provider
      → Guarded w (interpret_with gateway failure_id correlation_id from_str provider context w)
  unfolding interpret_with
  interpret_with-Guarded w provider configured =
      elim (Bool-cases (is_denied gateway.policy (provider.locality w))) [
        | inl denied ↦ rw denied (fail-Guarded w w _ _ _ (inl refl))
        | inr free ↦ rw free (
            read_output-Guarded w provider _
              (record {
                configured = configured;
                permitted = (denied_iff gateway.policy (provider.locality w)).0 free;
              })
              (provider.invoke context w).0 (provider.invoke context w).1 refl)
      ]

  -- `interpret` returns claims only from the text of a provider that the policy permits, and only
  -- if none of them has a blank subject or predicate or a reversed span. In every other case it
  -- records one failure, as its last step, with the kind and the message that it returns, and the
  -- provider was not invoked before that unless the policy permits it.
  pub interpret-Guarded :
      (w : W) → Guarded w (interpret gateway failure_id correlation_id from_str context w)
  unfolding interpret
  interpret-Guarded w = go gateway.provider refl
    where
      go :
          (o : Option (RawReasoningProvider W))
          → gateway.provider ≡ o
          → Guarded w (interpret_by gateway failure_id correlation_id from_str o context w)
      go none h = fail-Guarded w w _ _ _ (inl refl)
      go (some provider) h = interpret_with-Guarded w provider h
