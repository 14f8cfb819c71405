-- ===== src/Model/State.antt =====
-- internal/model/state.go: the aggregate that the Kernel decides from. A map of pointers is an
-- association list with no nil entry, so the nil tests on an entry have no counterpart.
use cflow.Base.{ℕ, String, Option, none, some, List, [], ◌∷◌, ◌==◌, if◌then◌else◌}
use cflow.Model.WorkflowStage.{WorkflowStage}
use cflow.Model.RuntimeStatus.{RuntimeStatus}
use cflow.Model.PlanStatus.{PlanStatus}
use cflow.Model.Artifact.{ArtifactRef, Approval, ExecutionFacts}
use cflow.Model.Runtime.{
  AttemptKey, same_key, Node, Attempt, Run, Session, ProcessRecord, Finding, Quarantine,
  ApplyAttempt, CleanupAttempt,
}

pub record CancelIntent : Type 0 where
  pub requested_seq : ℕ
  pub reason : String

pub record Workflow : Type 0 where
  pub id : String
  pub project : String
  pub name : String
  pub stage : WorkflowStage
  pub runtime : RuntimeStatus
  pub target_branch : String
  pub base_commit : String
  pub integration_branch : String
  pub integration_head : String
  pub layout_version : ℕ
  pub workspace_path : String
  pub workspace_branch : String
  pub candidate_workspace_head : String
  pub verified_workspace_head : String
  pub workspace_dirty_fingerprint : String
  pub execution_facts : Option ExecutionFacts
  pub cancel_intent : Option CancelIntent

pub record Plan : Type 0 where
  pub revision : ℕ
  pub status : PlanStatus
  pub artifact : ArtifactRef
  pub hash : String

pub record State : Type 0 where
  pub version : ℕ
  pub now : ℕ
  pub workflow : Workflow
  pub plan : Option Plan
  pub nodes : List (String × Node)
  pub attempts : List (AttemptKey × Attempt)
  pub approvals : List Approval
  pub sessions : List Session
  pub runs : List Run
  pub findings : List Finding
  pub processes : List ProcessRecord
  pub quarantines : List Quarantine
  pub apply_attempts : List ApplyAttempt
  pub cleanup_attempts : List CleanupAttempt
  pub next_event_seq : ℕ

-- State.Nodes[id]; `none` is nil.
unfoldable pub node_at : List (String × Node) → String → Option Node
node_at [] id = none
node_at ((k, n) ∷ rest) id = if k == id then some n else node_at rest id

-- State.Attempts[key]; `none` is nil.
unfoldable pub attempt_at : List (AttemptKey × Attempt) → AttemptKey → Option Attempt
attempt_at [] key = none
attempt_at ((k, a) ∷ rest) key = if same_key k key then some a else attempt_at rest key
