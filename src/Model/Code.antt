-- ===== src/Model/Code.antt =====
-- `Code` of internal/model/fault.go: a Go string type.
-- `undeclared` holds every other string, "" included.
use cflow.Base.{Bool, true, false, String, not, ◌==◌}

pub data Code : Type 0 where
  invalid_input state_invariant_violation untrusted_completion agent_process_crashed : Code
  agent_timeout command_failed provider_error semantic_review_failed merge_conflict : Code
  missing_implementation_commit dirty_task_worktree dirty_worktree_drifted : Code
  task_history_rewritten evidence_subject_changed user_interrupted : Code
  provider_protocol_unsupported provider_binding_changed provider_protocol_violation : Code
  provider_session_id_missing provider_authentication_required orphan_child_process : Code
  interrupted_worktree_drifted cancel_pending_orphan_process insecure_cflow_home_permissions : Code
  sensitive_data_redaction_failed database_schema_too_new database_migration_path_missing : Code
  migration_checksum_mismatch database_migration_failed database_migration_incomplete : Code
  artifact_schema_unsupported scope_violation integration_verification_failed : Code
  missing_credentials plan_drift budget_exceeded retry_exhausted : Code
  commit_during_policy_drift_window replacement_reconciliation_changed : Code
  commit_policy_confirmation_required commit_policy_safety_stop_requested : Code
  commit_policy_input_changed commit_policy_mismatch git_identity_not_configured : Code
  git_signing_preflight_failed commit_policy_drift target_head_changed apply_target_dirty : Code
  apply_target_branch_changed command_identity_changed approval_input_changed : Code
  cleanup_workflow_not_terminal cleanup_active_process cleanup_target_dirty : Code
  cleanup_facts_changed cleanup_item_failed cleanup_active_apply cleanup_quarantined : Code
  workflow_patch_forbidden workflow_patch_applied schema_invalid session_independence_violation :
      Code
  session_superseded unexpected_agent_mutation dispatch_gate_closed workspace_adoption_required :
      Code
  not_yet_available : Code
  undeclared : String → Code

unfoldable pub is_valid : Code → Bool
is_valid (undeclared s) = false
is_valid _ = true

unfoldable pub spell : Code → String
spell invalid_input = "INVALID_INPUT"
spell state_invariant_violation = "STATE_INVARIANT_VIOLATION"
spell untrusted_completion = "UNTRUSTED_COMPLETION"
spell agent_process_crashed = "AGENT_PROCESS_CRASHED"
spell agent_timeout = "AGENT_TIMEOUT"
spell command_failed = "COMMAND_FAILED"
spell provider_error = "PROVIDER_ERROR"
spell semantic_review_failed = "SEMANTIC_REVIEW_FAILED"
spell merge_conflict = "MERGE_CONFLICT"
spell missing_implementation_commit = "MISSING_IMPLEMENTATION_COMMIT"
spell dirty_task_worktree = "DIRTY_TASK_WORKTREE"
spell dirty_worktree_drifted = "DIRTY_WORKTREE_DRIFTED"
spell task_history_rewritten = "TASK_HISTORY_REWRITTEN"
spell evidence_subject_changed = "EVIDENCE_SUBJECT_CHANGED"
spell user_interrupted = "USER_INTERRUPTED"
spell provider_protocol_unsupported = "PROVIDER_PROTOCOL_UNSUPPORTED"
spell provider_binding_changed = "PROVIDER_PROTOCOL_BINDING_CHANGED"
spell provider_protocol_violation = "PROVIDER_PROTOCOL_VIOLATION"
spell provider_session_id_missing = "PROVIDER_SESSION_ID_MISSING"
spell provider_authentication_required = "PROVIDER_AUTHENTICATION_REQUIRED"
spell orphan_child_process = "ORPHAN_CHILD_PROCESS"
spell interrupted_worktree_drifted = "INTERRUPTED_WORKTREE_DRIFTED"
spell cancel_pending_orphan_process = "CANCEL_PENDING_ORPHAN_PROCESS"
spell insecure_cflow_home_permissions = "INSECURE_CFLOW_HOME_PERMISSIONS"
spell sensitive_data_redaction_failed = "SENSITIVE_DATA_REDACTION_FAILED"
spell database_schema_too_new = "DATABASE_SCHEMA_TOO_NEW"
spell database_migration_path_missing = "DATABASE_MIGRATION_PATH_MISSING"
spell migration_checksum_mismatch = "MIGRATION_CHECKSUM_MISMATCH"
spell database_migration_failed = "DATABASE_MIGRATION_FAILED"
spell database_migration_incomplete = "DATABASE_MIGRATION_INCOMPLETE"
spell artifact_schema_unsupported = "ARTIFACT_SCHEMA_UNSUPPORTED"
spell scope_violation = "SCOPE_VIOLATION"
spell integration_verification_failed = "INTEGRATION_VERIFICATION_FAILED"
spell missing_credentials = "MISSING_CREDENTIALS"
spell plan_drift = "PLAN_DRIFT"
spell budget_exceeded = "BUDGET_EXCEEDED"
spell retry_exhausted = "RETRY_EXHAUSTED"
spell commit_during_policy_drift_window = "COMMIT_DURING_POLICY_DRIFT_WINDOW"
spell replacement_reconciliation_changed = "REPLACEMENT_RECONCILIATION_CHANGED"
spell commit_policy_confirmation_required = "COMMIT_POLICY_CONFIRMATION_REQUIRED"
spell commit_policy_safety_stop_requested = "COMMIT_POLICY_SAFETY_STOP_REQUESTED"
spell commit_policy_input_changed = "COMMIT_POLICY_INPUT_CHANGED"
spell commit_policy_mismatch = "COMMIT_POLICY_MISMATCH"
spell git_identity_not_configured = "GIT_IDENTITY_NOT_CONFIGURED"
spell git_signing_preflight_failed = "GIT_SIGNING_PREFLIGHT_FAILED"
spell commit_policy_drift = "COMMIT_POLICY_DRIFT"
spell target_head_changed = "TARGET_HEAD_DRIFTED"
spell apply_target_dirty = "APPLY_TARGET_DIRTY"
spell apply_target_branch_changed = "APPLY_TARGET_BRANCH_CHANGED"
spell command_identity_changed = "COMMAND_IDENTITY_CHANGED"
spell approval_input_changed = "APPROVAL_INPUT_CHANGED"
spell cleanup_workflow_not_terminal = "CLEANUP_WORKFLOW_NOT_TERMINAL"
spell cleanup_active_process = "CLEANUP_ACTIVE_PROCESS"
spell cleanup_target_dirty = "CLEANUP_TARGET_DIRTY"
spell cleanup_facts_changed = "CLEANUP_FACT_MISMATCH"
spell cleanup_item_failed = "CLEANUP_ITEM_FAILED"
spell cleanup_active_apply = "CLEANUP_ACTIVE_APPLY"
spell cleanup_quarantined = "CLEANUP_QUARANTINED"
spell workflow_patch_forbidden = "WORKFLOW_PATCH_FORBIDDEN"
spell workflow_patch_applied = "WORKFLOW_PATCH_APPLIED"
spell schema_invalid = "SCHEMA_INVALID"
spell session_independence_violation = "SESSION_INDEPENDENCE_VIOLATION"
spell session_superseded = "SESSION_SUPERSEDED"
spell unexpected_agent_mutation = "UNEXPECTED_AGENT_MUTATION"
spell dispatch_gate_closed = "DISPATCH_GATE_CLOSED"
spell workspace_adoption_required = "WORKSPACE_ADOPTION_REQUIRED"
spell not_yet_available = "NOT_YET_AVAILABLE"
spell (undeclared s) = s

-- `==` of Go, on the underlying strings.
unfoldable pub same : Code → Code → Bool
unfolding spell
same a b = spell a == spell b

-- The zero value "".
abbrev pub none_set : Code
none_set = undeclared ""

unfoldable pub is_set : Code → Bool
unfolding spell
is_set a = not (spell a == "")
