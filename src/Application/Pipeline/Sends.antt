-- ===== src/Application/Pipeline/Sends.antt =====
-- What the pipeline of crates/casegraph-application/src/pipeline.rs keeps true of the world.
use casegraph.Prelude.{ℕ, List}
use casegraph.Prelude.Result.{Result}
use casegraph.Text.{Text}
use casegraph.Domain.Id.{RecordId}
use casegraph.Application.Monad.Keeps.{Keeps, KeepsTo}
use casegraph.Application.Ports.{Ports, ClaimBundle}
use casegraph.Application.Pipeline.{Pipeline, DeterministicExtractor, ExtractArtifactRequest}
use casegraph.Application.Pipeline.Extracted.{IsExtracted}

-- A pipeline call keeps `P`, whether it returns or fails.
pub record PipelineKeeps {W A : Type 0} (P : W → Type 0) (m : Pipeline W A) : Type 0 where
  pub at : (w : W) → P w → P (m w).1

-- What is asked of the adapters: they keep `P`, stored bytes are `Stored`, and the repository keeps
-- `P` on the claims that are extracted from them.
pub record ExtractPreserves {W : Type 0} (ports : Ports W) (P : W → Type 0)
    (Stored : List ℕ → Type 0) (extractors : List DeterministicExtractor)
    (request : ExtractArtifactRequest) : Type 0 where
  pub now : Keeps P ports.now
  pub next : (kind : Text) → Keeps P (ports.next kind)
  pub get_artifact_version : (id : RecordId) → Keeps P (ports.get_artifact_version id)
  pub read : (key : Text) → KeepsTo P Stored (ports.read key)
  pub record_claim :
      (b : ClaimBundle) → IsExtracted extractors Stored request b → Keeps P (ports.record_claim b)
