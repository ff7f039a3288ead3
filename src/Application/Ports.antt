-- ===== src/Application/Ports.antt =====
-- The ports of crates/casegraph-application/src/ports.rs: the requests that a service hands to its
-- adapters, and the adapters themselves as operations on a world `W` that they share.
use casegraph.Prelude.{ℕ, Bool, Option, List}
use casegraph.Text.{Text}
use casegraph.Domain.Id.{RecordId}
use casegraph.Domain.Temporal.{TimestampMs}
use casegraph.Domain.Model.Evidence.{
  Case, Source, Artifact, ArtifactVersion, ProvenanceRecord, Observation, Claim, ClaimState, Fact,
  Contradiction, HumanReview, Correction, Evidence, AuditEvent,
}
use casegraph.Domain.Model.Workflow.{Rule, RuleVersion, GroundedClaim, WorkflowMaterialization}
use casegraph.Application.Monad.{App}

pub record StoredArtifact : Type 0 where
  pub content_sha256 : Text
  pub content_length : ℕ
  pub storage_key : Text
  pub already_existed : Bool

pub record OperationContext : Type 0 where
  pub audit_id : RecordId
  pub actor : Text
  pub correlation_id : RecordId
  pub occurred_at : TimestampMs
  pub reason : Option Text

pub record CreateCaseBundle : Type 0 where
  pub case_record : Case
  pub context : OperationContext

pub record IngestionBundle : Type 0 where
  pub source : Source
  pub artifact : Artifact
  pub artifact_version : ArtifactVersion
  pub context : OperationContext

pub data IngestionDisposition : Type 0 where
  new_artifact new_version exact_duplicate : IngestionDisposition

pub record IngestionResult : Type 0 where
  pub artifact : Artifact
  pub artifact_version : ArtifactVersion
  pub disposition : IngestionDisposition

pub record ClaimBundle : Type 0 where
  pub provenance : ProvenanceRecord
  pub observation : Observation
  pub claim : Claim
  pub evidence : Evidence
  pub evidence_edge_id : RecordId
  pub context : OperationContext

pub record ClaimResult : Type 0 where
  pub claim : Claim
  pub contradictions : List Contradiction
  pub corroborates : List RecordId

pub record ReviewBundle : Type 0 where
  pub review : HumanReview
  pub state_change_id : RecordId
  pub state : ClaimState
  pub fact : Option Fact
  pub context : OperationContext

pub record CorrectionBundle : Type 0 where
  pub provenance : ProvenanceRecord
  pub corrected_claim : Claim
  pub review : HumanReview
  pub correction : Correction
  pub original_state_change_id : RecordId
  pub corrected_state_change_id : RecordId
  pub context : OperationContext

pub record RegisterRuleBundle : Type 0 where
  pub rule : Rule
  pub version : RuleVersion
  pub context : OperationContext

pub record EvaluationBundle : Type 0 where
  pub materialization : WorkflowMaterialization
  pub context : OperationContext

-- `Clock`, `IdGenerator`, `ArtifactStore` and `EvidenceRepository`.
pub record Ports (W : Type 0) : Type 0 where
  pub now : App W TimestampMs
  pub next : Text → App W RecordId
  pub put : List ℕ → App W StoredArtifact
  pub read : Text → App W (List ℕ)
  pub create_case : CreateCaseBundle → App W Case
  pub get_case : RecordId → App W (Option Case)
  pub ingest : IngestionBundle → App W IngestionResult
  pub get_artifact_version : RecordId → App W (Option ArtifactVersion)
  pub list_artifact_versions : RecordId → App W (List ArtifactVersion)
  pub record_claim : ClaimBundle → App W ClaimResult
  pub get_claim : RecordId → App W (Option Claim)
  pub list_claims : RecordId → App W (List Claim)
  pub list_contradictions : RecordId → App W (List Contradiction)
  pub list_audit_events : RecordId → App W (List AuditEvent)
  pub get_provenance : RecordId → App W (Option ProvenanceRecord)
  pub review_claim : ReviewBundle → App W HumanReview
  pub correct_claim : CorrectionBundle → App W Correction
  pub register_rule : RegisterRuleBundle → App W RuleVersion
  pub get_rule_version : RecordId → App W (Option RuleVersion)
  pub list_grounded_claims : RecordId → App W (List GroundedClaim)
  pub record_evaluation : EvaluationBundle → App W WorkflowMaterialization
  pub list_workflow : RecordId → App W (List WorkflowMaterialization)
