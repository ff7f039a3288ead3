-- ===== src/Tests/Fixtures.antt =====
-- A case with one claim, and adapters that keep a log of what they are sent.
use casegraph.Prelude.{Bool, ◌≡◌, refl, none, some, List, [], ◌∷◌, All, length}
use casegraph.Prelude.Int.{pos}
use casegraph.Prelude.Result.{ok}
use casegraph.Text.{Text, lit}
use casegraph.Text.Utf8.{bytes}
use casegraph.Domain.Id.{RecordId}
use casegraph.Domain.Temporal.{TimestampMs, date}
use casegraph.Domain.Value.{KnowledgeValue, known, boolean, date_value}
use casegraph.Domain.Model.Evidence.{
  Case, open_case, ArtifactVersion, Claim, ClaimState, AssertionOrigin,
}
use casegraph.Domain.Model.Validate.{validate_rule}
use casegraph.Domain.Model.Workflow.{RuleVersion, GroundedClaim}
use casegraph.Application.Monad.{pure}
use casegraph.Application.Monad.Keeps.{Keeps-pure, KeepsTo-pure}
use casegraph.Application.Monad.Ends.{Answers-pure}
use casegraph.Application.Ports.{
  Ports, CreateCaseBundle, IngestionBundle, IngestionDisposition, ClaimBundle, ReviewBundle,
  CorrectionBundle, RegisterRuleBundle, EvaluationBundle,
}
use mathlib.Core.Path.{subst}
use casegraph.Application.Service.Requests.{CorrectClaimRequest}
use casegraph.Application.Bundles.{
  IsGrounded, IsReview, IsCorrection, CorrectionPreserves, IsIngestion, Preserves,
}
use casegraph.Application.Bundles.Reaches.{Ready}
use casegraph.Application.Codec.{Codec}
use casegraph.Application.Evaluation.Sends.{IsEvaluation, RulePreserves}
use casegraph.Application.Evaluation.Reaches.{Writes}

abbrev pub id_of : Text → RecordId
id_of s = record { value = s }

abbrev pub moment : TimestampMs
moment = record { ms = pos 1000 }

abbrev pub the_case : Case
the_case = record {
  id = id_of (lit "case_1");
  title = lit "Lease";
  status = open_case;
  created_at = moment;
  closed_at = none;
}

abbrev pub claim_of : Text → Text → KnowledgeValue → Claim
claim_of id predicate value = record {
  id = id_of id;
  case_id = the_case.id;
  subject_id = none;
  subject_key = lit "lease";
  predicate = predicate;
  original_value = lit "text";
  normalized_value = value;
  origin = AssertionOrigin.external;
  initial_state = ClaimState.extracted;
  primary_provenance_id = some (id_of (lit "provenance_1"));
  interpretation_confidence = none;
  temporal = none;
  created_at = moment;
}

abbrev pub signed : Claim
signed = claim_of (lit "claim_signed") (lit "signed") (known (boolean Bool.true))

abbrev pub received : Claim
received =
    claim_of (lit "claim_received") (lit "received_on") (known (date_value (date (pos 2024) 2 28)))

abbrev pub verified_claim : Claim → GroundedClaim
verified_claim claim = record {
  claim = claim;
  current_state = ClaimState.verified;
  provenance_id = claim.primary_provenance_id;
  evidence_ids = [];
}

abbrev pub grounded_claims : List GroundedClaim
grounded_claims = verified_claim signed ∷ verified_claim received ∷ []

abbrev pub notice_rule : RuleVersion
notice_rule = record {
  id = id_of (lit "rule_version_1");
  rule_id = id_of (lit "rule_1");
  version = 1;
  definition = record {
    all =
        record {
          subject_key = lit "lease";
          predicate = lit "signed";
          expected = known (boolean Bool.true);
        }
        ∷ [];
    effect = record {
      obligation_kind = lit "notice";
      obligation_description = lit "Send the notice";
      deadline_anchor_predicate = lit "received_on";
      deadline_days_after = 2;
      task_title = lit "Send the notice";
    };
  };
  definition_sha256 = lit "";
  effective_from = none;
  effective_until = none;
  created_at = moment;
}

abbrev pub stored_version : ArtifactVersion
stored_version = record {
  id = id_of (lit "version_1");
  artifact_id = id_of (lit "artifact_1");
  version_number = 1;
  content_sha256 = lit "";
  content_length = 4;
  media_type = lit "text/plain";
  storage_key = lit "key";
  ingested_at = moment;
  received_at = none;
  original_filename = none;
}

-- What the repository was asked to write.
pub data Sent : Type 0 where
  created : CreateCaseBundle → Sent
  ingested : IngestionBundle → Sent
  recorded : ClaimBundle → Sent
  reviewed : ReviewBundle → Sent
  corrected : CorrectionBundle → Sent
  registered : RegisterRuleBundle → Sent
  evaluated : EvaluationBundle → Sent

abbrev pub Log : Type 0
Log = List Sent

abbrev pub IsNoticeRule : RuleVersion → Type 0
IsNoticeRule v = v ≡ notice_rule

abbrev pub AreGroundedClaims : RecordId → List GroundedClaim → Type 0
AreGroundedClaims case_id grounded = grounded ≡ grounded_claims

abbrev pub IsSound : Sent → Type 0
IsSound (created b) = Unit
IsSound (ingested b) = IsIngestion 100 b
IsSound (recorded b) = IsGrounded b
IsSound (reviewed b) = IsReview b
IsSound (corrected b) = (r : CorrectClaimRequest) × IsCorrection r signed b
IsSound (registered b) =
    (validate_rule b.version.definition ≡ ok tt) × (b.version.rule_id ≡ b.rule.id)
IsSound (evaluated b) = IsEvaluation IsNoticeRule AreGroundedClaims b

abbrev pub IsSoundLog : Log → Type 0
IsSoundLog log = All IsSound log

abbrev pub log_ports : Ports Log
log_ports = record {
  now = pure moment;
  next = λ kind. pure (id_of kind);
  put = λ bytes. pure (record {
    content_sha256 = lit "0123456789abcdef0123456789abcdef0123456789abcdef0123456789abcdef";
    content_length = length bytes;
    storage_key = lit "key";
    already_existed = Bool.false;
  });
  read = λ key. pure (bytes (lit "signed: true"));
  create_case = λ b log. (ok b.case_record, created b ∷ log);
  get_case = λ id. pure (some the_case);
  ingest = λ b log. (
    ok (record {
      artifact = b.artifact;
      artifact_version = b.artifact_version;
      disposition = IngestionDisposition.new_artifact;
    }),
    ingested b ∷ log,
  );
  get_artifact_version = λ id. pure (some stored_version);
  list_artifact_versions = λ id. pure (stored_version ∷ []);
  list_contradictions = λ id. pure [];
  list_audit_events = λ id. pure [];
  record_claim = λ b log.
      (ok (record { claim = b.claim; contradictions = []; corroborates = [] }), recorded b ∷ log);
  get_claim = λ id. pure (some signed);
  list_claims = λ id. pure (signed ∷ received ∷ []);
  get_provenance = λ id. pure none;
  review_claim = λ b log. (ok b.review, reviewed b ∷ log);
  correct_claim = λ b log. (ok b.correction, corrected b ∷ log);
  register_rule = λ b log. (ok b.version, registered b ∷ log);
  get_rule_version = λ id. pure (some notice_rule);
  list_grounded_claims = λ id. pure grounded_claims;
  record_evaluation = λ b log. (ok b.materialization, evaluated b ∷ log);
  list_workflow = λ id. pure [];
}

abbrev pub log_codec : Codec
log_codec = record {
  definition_json = λ d. ok (lit "definition");
  inputs_json = λ inputs. ok (lit "inputs");
  calculation_json = λ anchor days id. ok (lit "calculation");
  value_json = λ value. ok (lit "value");
  digest = λ bytes. bytes;
}

pub log-Preserves : Preserves 100 log_ports IsSoundLog
log-Preserves = record {
  now = Keeps-pure _;
  next = λ kind. Keeps-pure _;
  put = λ bytes. Keeps-pure _;
  get_case = λ id. Keeps-pure _;
  get_claim = λ id. Keeps-pure _;
  get_artifact_version = λ id. Keeps-pure _;
  ingest = λ b q. record { at = λ log h. (q, h) };
  record_claim = λ b q. record { at = λ log h. (q, h) };
  review_claim = λ b q. record { at = λ log h. (q, h) };
}

pub log-CorrectionPreserves :
    (r : CorrectClaimRequest) → CorrectionPreserves log_ports IsSoundLog (λ claim. claim ≡ signed) r
log-CorrectionPreserves r = record {
  now = Keeps-pure _;
  next = λ kind. Keeps-pure _;
  get_claim = KeepsTo-pure _ (λ claim e. cc);
  correct_claim = λ b original is_signed q.
      let same : IsCorrection r signed b = subst (λ c. IsCorrection r c b) is_signed q in
      record { at = λ log h. ((r, same), h) };
}

pub log-RulePreserves : RulePreserves log_ports IsSoundLog IsNoticeRule AreGroundedClaims
log-RulePreserves = record {
  now = Keeps-pure _;
  next = λ kind. Keeps-pure _;
  get_rule_version = λ id. KeepsTo-pure _ (λ v e. cc);
  list_grounded_claims = λ id. KeepsTo-pure _ refl;
  register_rule = λ b q r. record { at = λ log h. ((q, r), h) };
  record_evaluation = λ b q. record { at = λ log h. (q, h) };
}

pub log-Ready : Ready log_ports
log-Ready = record { now = Answers-pure _ tt; next = λ kind. Answers-pure _ tt }

pub log-Writes : Writes log_codec
log-Writes = record { inputs = λ l. (_, refl); calculation = λ a d i. (_, refl) }
