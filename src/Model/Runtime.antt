-- ===== src/Model/Runtime.antt =====
-- internal/model/runtime.go, ids.go and apply.go: the records of one Workflow's execution.
-- An identity is a text and a time stamp a number; a counter that Go keeps in an int is a natural
-- number, since no operation subtracts from one.
use cflow.Base.{ℕ, ℤ, Bool, String, List, ◌==◌, ◌&&◌, eqb}
use cflow.Model.NodeKind.{NodeKind}
use cflow.Model.NodeStatus.{NodeStatus}
use cflow.Model.AttemptStatus.{AttemptStatus}
use cflow.Model.RunStatus.{RunStatus}
use cflow.Model.SessionStatus.{SessionStatus}
use cflow.Model.AgentPurpose.{AgentPurpose}
use cflow.Model.ProcessStatus.{ProcessStatus}
use cflow.Model.ApplyStatus.{ApplyStatus}
use cflow.Model.CleanupStatus.{CleanupStatus}
use cflow.Model.CleanupItemStatus.{CleanupItemStatus}
use cflow.Model.FaultScope.{FaultScope}
use cflow.Model.Code.{Code}
use cflow.Model.Evidence.{EvidenceRef}
use cflow.Model.Artifact.{ArtifactRef}

pub record AttemptKey : Type 0 where
  pub node : String
  pub number : ℕ

-- `==` of two keys.
unfoldable pub same_key : AttemptKey → AttemptKey → Bool
same_key a b = a.node == b.node && eqb a.number b.number

-- The zero key.
abbrev pub no_attempt : AttemptKey
no_attempt = record { node = ""; number = 0 }

pub record Node : Type 0 where
  pub id : String
  pub kind : NodeKind
  pub status : NodeStatus
  pub dependencies : List String
  pub branch : String
  pub base_commit : String
  pub retry_budget : ℕ
  pub retry_charged : ℕ

pub record Attempt : Type 0 where
  pub key : AttemptKey
  pub session : String
  pub status : AttemptStatus
  pub start_head : String
  pub start_dirty_fingerprint : String
  pub end_head : String
  pub end_dirty_fingerprint : String
  pub failure_code : Code
  pub evidence : List EvidenceRef
  pub retry_charged : Bool
  pub started_at : ℕ
  pub ended_at : ℕ

pub record Run : Type 0 where
  pub id : String
  pub status : RunStatus
  pub dispatch_gate : Bool
  pub stop_reason : Code
  pub quiesce_snapshot : List AttemptKey
  pub started_at : ℕ
  pub ended_at : ℕ

pub record Session : Type 0 where
  pub id : String
  pub provider_session_id : String
  pub purpose : AgentPurpose
  pub status : SessionStatus
  pub supersedes : String
  pub provider : String
  pub context_bundle_revision : ℕ
  pub context_bundle_path : String
  pub context_bundle_sha256 : String

-- The zero value.
abbrev pub no_session : Session
no_session = record {
  id = "";
  provider_session_id = "";
  purpose = AgentPurpose.undeclared "";
  status = SessionStatus.undeclared "";
  supersedes = "";
  provider = "";
  context_bundle_revision = 0;
  context_bundle_path = "";
  context_bundle_sha256 = "";
}

pub record ProcessRecord : Type 0 where
  pub id : String
  pub session : String
  pub purpose : AgentPurpose
  pub status : ProcessStatus
  pub exit_code : ℤ
  pub started_at : ℕ
  pub ended_at : ℕ

pub record Finding : Type 0 where
  pub id : String
  pub code : Code
  pub scope : FaultScope
  pub subject : String
  pub blocking : Bool
  pub text : String
  pub evidence : EvidenceRef
  pub seq : ℕ

pub record Quarantine : Type 0 where
  pub id : String
  pub audit_ref : String
  pub branch : String
  pub from_head : String
  pub to_head : String
  pub code : Code
  pub reason : String
  pub seq : ℕ

pub record ApplyAttempt : Type 0 where
  pub id : String
  pub number : ℕ
  pub status : ApplyStatus
  pub target_head : String
  pub integration_head : String
  pub preflight : ArtifactRef
  pub preflight_hash : String
  pub fingerprint : String
  pub started_at : ℕ
  pub ended_at : ℕ
  pub staging_head : String
  pub review_session : String
  pub review_route : String
  pub review_process : String

pub data CleanupItemKind : Type 0 where
  worktree scratch : CleanupItemKind
  undeclared : String → CleanupItemKind

pub record CleanupItem : Type 0 where
  pub index : ℕ
  pub kind : CleanupItemKind
  pub canonical_path : String
  pub branch : String
  pub expected_head : String
  pub fingerprint : String
  pub dirty : Bool
  pub status : CleanupItemStatus
  pub failure_code : Code

pub record CleanupAttempt : Type 0 where
  pub id : String
  pub status : CleanupStatus
  pub manifest : ArtifactRef
  pub items : List CleanupItem
  pub started_at : ℕ
  pub ended_at : ℕ
