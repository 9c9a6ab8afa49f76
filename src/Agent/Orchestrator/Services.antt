-- ===== src/Agent/Orchestrator/Services.antt =====
-- src/r_sandbox/agent/orchestrator.py: what a run is asked for, and the injected components whose
-- code works on syntax trees, directory trees and containers. Each may answer by all that was done
-- before.
use r_sandbox.Prelude.{Option, List, Text, Result}
use r_sandbox.Prelude.Int.{ℤ}
use r_sandbox.System.{Trace}
use r_sandbox.Models.Records.{Entrypoint, RepositoryProfile, CapabilityRequest}
use r_sandbox.Models.Sandbox.{SandboxSpec}
use r_sandbox.Models.Value.{Value}
use r_sandbox.Observe.Manifest.{OutputManifest, LimitExceeded}

pub data AgentMode : Type 0 where
  analyze dry_run shadow : AgentMode

-- What `self.snapshotter.create` yields.
pub record Snapshot : Type 0 where
  pub root : Text
  pub digest : Text
  pub warnings : List Text
  pub omitted_paths : List Text

-- What `capture_output_manifest` returns, or how it raises: by `ManifestLimitExceeded`, or by an
-- OSError or ValueError of the named class.
pub data Inventory : Type 0 where
  captured : OutputManifest → Inventory
  limited : LimitExceeded → Inventory
  unsafe_output : (class_name : Text) → Inventory

pub record Services : Type 0 where
  -- `self.snapshotter.create(repository)`, entered and left
  pub snapshot : Trace → Text → Result Snapshot
  pub release : Trace → Snapshot → Result (Unit {0})
  pub understand : Trace → (root goal : Text) → Result RepositoryProfile
  pub infer : RepositoryProfile → Option Entrypoint → Result (List CapabilityRequest)
  -- `uuid4().hex`
  pub uuid : Trace → Text
  pub capture : Trace → Text → Inventory
  -- `execute` of the two supervisors, whose results are not trusted
  pub execute : Trace → SandboxSpec → Result Value
  pub plan_only : Trace → SandboxSpec → Result Value

-- The arguments of `_run_snapshot`.
pub record Order : Type 0 where
  pub repository : Text
  pub goal : Text
  pub execution_repository : Text
  pub snapshot_digest : Text
  pub snapshot_warnings : List Text
  pub snapshot_omissions : List Text
  pub output : Text
  pub mode : AgentMode
  pub image : Text
  pub approved_request_ids : List Text
  pub network_allowlist : List Text
  pub max_attempts : ℤ
  pub authorization_context : Text
