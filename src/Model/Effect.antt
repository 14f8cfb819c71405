-- ===== src/Model/Effect.antt =====
-- internal/model/effects.go: the typed operations that a Decision may request. A constructor stands
-- for each intent struct, its arguments for the fields in order.
use cflow.Base.{ℕ, String, List}
use cflow.Model.AgentPurpose.{AgentPurpose}
use cflow.Model.Code.{Code}
use cflow.Model.Artifact.{ArtifactRef}
use cflow.Model.Runtime.{AttemptKey}

-- `CatalogRef` of artifacts.go.
pub record CatalogRef : Type 0 where
  pub revision : ℕ
  pub hash : String

pub data PathMoveKind : Type 0 where
  worktree artifact : PathMoveKind
  undeclared : String → PathMoveKind

pub record PathMove : Type 0 where
  pub kind : PathMoveKind
  pub source : String
  pub destination : String
  pub branch : String
  pub head : String
  pub digest : String

-- A body of bytes is a list of numbers.
pub data EffectIntent : Type 0 where
  artifact_write :
      (ref : ArtifactRef) (body : List ℕ) (producer : AgentPurpose) (session : String)
      → EffectIntent
  provider_start :
      (session : String) (purpose : AgentPurpose) (route supersedes node process : String)
      → EffectIntent
  provider_resume : (session : String) (purpose : AgentPurpose) (process : String) → EffectIntent
  native_bootstrap : (session : String) (purpose : AgentPurpose) (route : String) → EffectIntent
  provider_cancel : (session : String) → EffectIntent
  workspace_worktree_create : (workflow base_head branch path : String) → EffectIntent
  planning_worktree_create : (workflow base_commit : String) → EffectIntent
  integration_worktree_create : (workflow base_commit : String) → EffectIntent
  task_worktree_create : (node branch base_head : String) → EffectIntent
  git_commit_inspect : (ref : String) → EffectIntent
  git_audit_ref_create : (ref head : String) → EffectIntent
  integration_merge : (node base_head task_branch verified_commit : String) → EffectIntent
  integration_rollback : (head : String) (attempt : AttemptKey) (failure_code : Code) → EffectIntent
  workspace_merge :
      (node expected_workspace_head task_branch verified_commit : String) → EffectIntent
  workspace_rollback : (head : String) (attempt : AttemptKey) (failure_code : Code) → EffectIntent
  layout_migration :
      (migration_id workflow manifest_hash preview_hash : String) (moves : List PathMove) (done : ℕ)
      → EffectIntent
  verification_run : (node : String) (catalog : CatalogRef) (commit_range : String) → EffectIntent
  workflow_compile : (patch_body : List ℕ) → EffectIntent
  apply_staging_create :
      (apply target_head integration_head resolution_session : String) → EffectIntent
  apply_fast_forward : (apply target_head : String) → EffectIntent
  managed_process_stop : (process : String) → EffectIntent
  cleanup_worktree_remove : (cleanup : String) (item : ℕ) → EffectIntent
  cleanup_scratch_remove : (cleanup : String) (item : ℕ) → EffectIntent
