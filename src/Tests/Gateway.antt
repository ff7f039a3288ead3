-- ===== src/Tests/Gateway.antt =====
-- The gateway of crates/casegraph-application/src/reasoning.rs over a world that counts the calls of
-- the provider and lists the failures.
use casegraph.Prelude.{ℕ, suc, Option, some, List, [], ◌∷◌}
use casegraph.Prelude.Result.{ok}
use casegraph.Text.{Text, lit}
use casegraph.Application.Reasoning.{
  ProviderPolicy, ProviderLocality, ReasoningFailure, ReasoningOutput, RawReasoningProvider,
  ReasoningGateway, interpret,
}
use casegraph.Application.Reasoning.Guard.{Guarded, interpret-Guarded}
use casegraph.Tests.Fixtures.{id_of}

abbrev Calls : Type 0
Calls = ℕ × List ReasoningFailure

abbrev remote_provider : RawReasoningProvider Calls
remote_provider = record {
  identity = λ w. record {
    provider = lit "p";
    model = lit "m";
    version = lit "1";
    configuration_json = lit "{}";
  };
  locality = λ w. ProviderLocality.remote;
  invoke = λ context w. (ok (lit "raw"), (suc w.0, w.1));
}

abbrev local_gateway : ReasoningGateway Calls
local_gateway = record {
  policy = ProviderPolicy.local_only;
  provider = some remote_provider;
  record_failure = λ failure w. (w.0, failure ∷ w.1);
}

abbrev no_claims : Text → Option ReasoningOutput
no_claims raw = some (record { claims = [] })

interpret-Guarded_example :
    Guarded local_gateway
      (id_of (lit "failure"))
      (id_of (lit "correlation"))
      no_claims
      (lit "context")
      (0, [])
      (interpret local_gateway
        (id_of (lit "failure"))
        (id_of (lit "correlation"))
        no_claims
        (lit "context")
        (0, []))
interpret-Guarded_example =
    interpret-Guarded local_gateway (id_of (lit "failure")) (id_of (lit "correlation")) no_claims
      (lit "context") (0, [])
