-- ===== src/Model/Decision.antt =====
-- internal/model/decision.go: what a Decision holds. A constructor of `Mutation` stands for each
-- mutation struct, its arguments for the fields in order; `WorkflowMutation`, which decisions edit
-- field by field, is a record.
use cflow.Base.{ℕ, ℤ, Bool, String, Option, List}
use cflow.Model.WorkflowStage.{WorkflowStage}
use cflow.Model.RuntimeStatus.{RuntimeStatus}
use cflow.Model.PlanStatus.{PlanStatus}
use cflow.Model.NodeStatus.{NodeStatus}
use cflow.Model.AttemptStatus.{AttemptStatus}
use cflow.Model.RunStatus.{RunStatus}
use cflow.Model.SessionStatus.{SessionStatus}
use cflow.Model.ProcessStatus.{ProcessStatus}
use cflow.Model.ApplyStatus.{ApplyStatus}
use cflow.Model.CleanupStatus.{CleanupStatus}
use cflow.Model.CleanupItemStatus.{CleanupItemStatus}
use cflow.Model.ArtifactType.{ArtifactType}
use cflow.Model.Code.{Code}
use cflow.Model.Evidence.{EvidenceRef}
use cflow.Model.Artifact.{ArtifactRef, Approval}
use cflow.Model.Runtime.{
  AttemptKey, Node, Attempt, Run, Session, ProcessRecord, Finding, Quarantine, ApplyAttempt,
  CleanupAttempt,
}
use cflow.Model.State.{CancelIntent}
use cflow.Model.Effect.{EffectIntent}

pub record WorkflowMutation : Type 0 where
  pub id : String
  pub project : String
  pub name : String
  pub stage : WorkflowStage
  pub runtime : RuntimeStatus
  pub target_branch : String
  pub base_commit : String
  pub integration_branch : String
  pub integration_head : String
  pub layout_version : ℕ
  pub workspace_path : String
  pub workspace_branch : String
  pub candidate_workspace_head : String
  pub verified_workspace_head : String
  pub workspace_dirty_fingerprint : String
  pub cancel_intent : Option CancelIntent

pub data Mutation : Type 0 where
  workflow : WorkflowMutation → Mutation
  plan : (status : PlanStatus) → Mutation
  artifact_ref : (type : ArtifactType) (revision : ℕ) (path hash : String) → Mutation
  preflight_record :
      (revision : ℕ)
      (repository_context git_version fingerprint identity_json signing_policy_json probe_status
        artifact_path artifact_hash : String)
      → Mutation
  session_end : (id provider_session_id : String) (status : SessionStatus) (ended_at : ℕ) → Mutation
  session_bind : (id provider_session_id : String) → Mutation
  session_status : (id : String) (status : SessionStatus) → Mutation
  node_status : (node : String) (status : NodeStatus) (retry_charged : ℕ) → Mutation
  node_append : (node : Node) → Mutation
  task : (node base_commit worktree_path : String) → Mutation
  attempt_append : (attempt : Attempt) → Mutation
  attempt_end :
      (key : AttemptKey) (status : AttemptStatus) (end_head end_dirty_fingerprint : String)
      (failure_code : Code) (evidence : List EvidenceRef) (retry_charged : Bool) (ended_at : ℕ)
      → Mutation
  finding_append : (finding : Finding) → Mutation
  approval_append : (approval : Approval) → Mutation
  run_append : (run : Run) → Mutation
  run :
      (id : String) (status : RunStatus) (dispatch_gate : Bool) (stop_reason : Code)
      (quiesce_snapshot : List AttemptKey)
      → Mutation
  session_append : (session : Session) (provider : String) → Mutation
  process_append : (process : ProcessRecord) → Mutation
  process_end : (id : String) (status : ProcessStatus) (exit_code : ℤ) (ended_at : ℕ) → Mutation
  quarantine_append : (quarantine : Quarantine) → Mutation
  apply_append : (apply_attempt : ApplyAttempt) → Mutation
  apply : (id : String) (status : ApplyStatus) (ended_at : ℕ) (staging_head : String) → Mutation
  apply_confirmation :
      (id : String) (preflight : ArtifactRef) (preflight_hash fingerprint : String) → Mutation
  cleanup_append : (cleanup_attempt : CleanupAttempt) → Mutation
  cleanup : (id : String) (status : CleanupStatus) (ended_at : ℕ) → Mutation
  cleanup_item :
      (attempt : String) (index : ℕ) (status : CleanupItemStatus) (failure_code : Code) → Mutation

pub data EventKind : Type 0 where
  workflow_created workflow_started workflow_paused workflow_resumed : EventKind
  workflow_blocked workflow_quiesce_requested workflow_quiesced : EventKind
  workflow_cancel_requested workflow_cancelled controlled_stop_requested : EventKind
  commit_policy_safety_stop_requested commit_policy_confirmed workflow_failed : EventKind
  workflow_succeeded stage_changed plan_generated plan_check_passed : EventKind
  plan_check_needs_revision plan_check_needs_discussion plan_check_rejected : EventKind
  plan_approved execution_approved node_ready node_started node_succeeded : EventKind
  node_failed node_cancelled node_skipped attempt_created attempt_succeeded : EventKind
  attempt_failed attempt_interrupted attempt_cancelled finding_opened : EventKind
  quarantine_recorded run_started run_quiescing run_stopped run_interrupted : EventKind
  run_blocked run_succeeded run_cancelled graph_installed apply_attempt_created : EventKind
  apply_restarted apply_verified apply_succeeded apply_failed apply_blocked : EventKind
  cleanup_attempt_created cleanup_item_requested cleanup_item_completed : EventKind
  cleanup_item_failed : EventKind

pub record Event : Type 0 where
  pub seq : ℕ
  pub kind : EventKind
  pub workflow : String
  pub node : String
  pub attempt : AttemptKey
  pub code : Code
  pub text : String
  pub at : ℕ

-- `none` is the nil effect.
pub record Decision : Type 0 where
  pub mutations : List Mutation
  pub events : List Event
  pub effect : Option EffectIntent
