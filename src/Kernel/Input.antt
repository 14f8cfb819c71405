-- ===== src/Kernel/Input.antt =====
-- internal/model/input.go: the inputs of the execution decisions.
use cflow.Base.{ℕ, ℤ, pos, Bool, true, false, String, List, []}
use cflow.Model.AttemptOutcome.{AttemptOutcome}
use cflow.Model.Code
use cflow.Model.Code.{Code}
use cflow.Model.Evidence.{EvidenceRef, no_evidence}
use cflow.Model.Artifact.{ArtifactRef, no_artifact}
use cflow.Model.Runtime.{AttemptKey, Session, no_attempt, no_session}

pub data EffectResultKind : Type 0 where
  attempt_ended process_stopped apply_staging_succeeded apply_staging_failed : EffectResultKind
  apply_fast_forward_succeeded apply_fast_forward_failed cleanup_item_removed : EffectResultKind
  cleanup_item_failed provider_run_ended native_bootstrap_established : EffectResultKind
  artifact_written planning_worktree_created workspace_worktree_created : EffectResultKind
  workflow_compiled integration_worktree_created task_worktree_created : EffectResultKind
  verification_run_ended integration_merged integration_merge_failed : EffectResultKind
  integration_rollbacked workspace_merged workspace_merge_failed : EffectResultKind
  workspace_rollbacked layout_migration_completed git_audit_ref_created : EffectResultKind
  undeclared : String → EffectResultKind

unfoldable pub is_apply_staging_succeeded : EffectResultKind → Bool
is_apply_staging_succeeded EffectResultKind.apply_staging_succeeded = true
is_apply_staging_succeeded _ = false

unfoldable pub is_apply_staging_failed : EffectResultKind → Bool
is_apply_staging_failed EffectResultKind.apply_staging_failed = true
is_apply_staging_failed _ = false

unfoldable pub is_apply_fast_forward_succeeded : EffectResultKind → Bool
is_apply_fast_forward_succeeded EffectResultKind.apply_fast_forward_succeeded = true
is_apply_fast_forward_succeeded _ = false

unfoldable pub is_apply_fast_forward_failed : EffectResultKind → Bool
is_apply_fast_forward_failed EffectResultKind.apply_fast_forward_failed = true
is_apply_fast_forward_failed _ = false

unfoldable pub is_cleanup_item_removed : EffectResultKind → Bool
is_cleanup_item_removed EffectResultKind.cleanup_item_removed = true
is_cleanup_item_removed _ = false

unfoldable pub is_cleanup_item_failed : EffectResultKind → Bool
is_cleanup_item_failed EffectResultKind.cleanup_item_failed = true
is_cleanup_item_failed _ = false

pub record EffectResultInput : Type 0 where
  pub kind : EffectResultKind
  pub attempt : AttemptKey
  pub outcome : AttemptOutcome
  pub failure_code : Code
  pub end_head : String
  pub end_dirty_fingerprint : String
  pub evidence : EvidenceRef
  pub process : String
  pub apply_attempt : String
  pub cleanup_attempt : String
  pub item_index : ℤ
  pub session : Session
  pub successor_session : Session
  pub artifact : ArtifactRef
  pub body : List ℕ
  pub catalog_ref : ArtifactRef
  pub rejected_ops : List String
  pub applied_ops : List String
  pub integration_head : String
  pub worktree_path : String
  pub passed : Bool
  pub manifest : List ℕ
  pub manifest_hash : String
  pub pre_merge_head : String
  pub observed_head : String
  pub reason : String
  pub evidence_refs : List EvidenceRef
  pub orphan : Bool

-- The zero value.
abbrev pub no_result : EffectResultInput
no_result = record {
  kind = EffectResultKind.undeclared "";
  attempt = no_attempt;
  outcome = AttemptOutcome.undeclared "";
  failure_code = Code.none_set;
  end_head = "";
  end_dirty_fingerprint = "";
  evidence = no_evidence;
  process = "";
  apply_attempt = "";
  cleanup_attempt = "";
  item_index = pos 0;
  session = no_session;
  successor_session = no_session;
  artifact = no_artifact;
  body = [];
  catalog_ref = no_artifact;
  rejected_ops = [];
  applied_ops = [];
  integration_head = "";
  worktree_path = "";
  passed = false;
  manifest = [];
  manifest_hash = "";
  pre_merge_head = "";
  observed_head = "";
  reason = "";
  evidence_refs = [];
  orphan = false;
}

pub data AgentEventKind : Type 0 where
  claims_complete : AgentEventKind
  undeclared : String → AgentEventKind

pub record AgentEventInput : Type 0 where
  pub kind : AgentEventKind
  pub session : String
  pub node : String

pub record DispatchInput : Type 0 where
  pub node : String
  pub session : String
  pub route : String
  pub base_head : String
  pub process : String
