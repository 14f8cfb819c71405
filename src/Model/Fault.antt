-- ===== src/Model/Fault.antt =====
-- internal/model/fault.go: the fault values and the compiled table of fault policies.
use cflow.Base.{Bool, true, false, String, Option, none, some, List, [], ◌∷◌, find}
use cflow.Model.Code
use cflow.Model.Code.{Code}
use cflow.Model.FaultCategory.{FaultCategory}
use cflow.Model.FaultScope.{FaultScope}
use cflow.Model.StopScope.{StopScope}
use cflow.Model.Evidence.{EvidenceRef, no_evidence}

pub record RetryDisposition : Type 0 where
  pub charges_budget : Bool
  pub allows_successor : Bool

pub record Fault : Type 0 where
  pub code : Code
  pub category : FaultCategory
  pub scope : FaultScope
  pub retry : RetryDisposition
  pub evidence : EvidenceRef
  pub safe_text : String

pub record FaultPolicy : Type 0 where
  pub code : Code
  pub category : FaultCategory
  pub scope : FaultScope
  pub retry : RetryDisposition
  pub close_dispatch : Bool
  pub stop_scope : StopScope

-- One row of the table.
unfoldable pub p : Code → FaultCategory → FaultScope → Bool → Bool → StopScope → Bool → FaultPolicy
p code category scope charge close_gate stop successor = record {
  code = code;
  category = category;
  scope = scope;
  retry = record { charges_budget = charge; allows_successor = successor };
  close_dispatch = close_gate;
  stop_scope = stop;
}

unfoldable pub fault_policies : List FaultPolicy
unfolding p
fault_policies =
    p Code.invalid_input FaultCategory.invalid_input FaultScope.input false false StopScope.none
      false
    ∷ p Code.state_invariant_violation FaultCategory.invariant_failure FaultScope.workflow false
        true StopScope.all false
    ∷ p Code.untrusted_completion FaultCategory.invalid_input FaultScope.attempt false false
        StopScope.affected false
    ∷ p Code.agent_process_crashed FaultCategory.retryable_attempt_failure FaultScope.attempt true
        false StopScope.none true
    ∷ p Code.agent_timeout FaultCategory.retryable_attempt_failure FaultScope.attempt true false
        StopScope.affected true
    ∷ p Code.command_failed FaultCategory.retryable_attempt_failure FaultScope.attempt true false
        StopScope.none true
    ∷ p Code.provider_error FaultCategory.retryable_attempt_failure FaultScope.attempt true false
        StopScope.none true
    ∷ p Code.semantic_review_failed FaultCategory.retryable_attempt_failure FaultScope.attempt true
        false StopScope.none true
    ∷ p Code.merge_conflict FaultCategory.retryable_attempt_failure FaultScope.attempt true false
        StopScope.none true
    ∷ p Code.missing_implementation_commit FaultCategory.retryable_attempt_failure
        FaultScope.attempt true false StopScope.none true
    ∷ p Code.dirty_task_worktree FaultCategory.retryable_attempt_failure FaultScope.attempt true
        false StopScope.none true
    ∷ p Code.evidence_subject_changed FaultCategory.retryable_attempt_failure FaultScope.attempt
        true false StopScope.affected true
    ∷ p Code.dirty_worktree_drifted FaultCategory.user_action_required FaultScope.attempt false true
        StopScope.affected false
    ∷ p Code.task_history_rewritten FaultCategory.user_action_required FaultScope.attempt false true
        StopScope.affected false
    ∷ p Code.user_interrupted FaultCategory.user_action_required FaultScope.run false true
        StopScope.all false
    ∷ p Code.orphan_child_process FaultCategory.user_action_required FaultScope.run false true
        StopScope.none false
    ∷ p Code.interrupted_worktree_drifted FaultCategory.user_action_required FaultScope.attempt
        false true StopScope.affected false
    ∷ p Code.cancel_pending_orphan_process FaultCategory.user_action_required FaultScope.workflow
        false true StopScope.none false
    ∷ p Code.provider_protocol_unsupported FaultCategory.user_action_required FaultScope.workflow
        false true StopScope.affected false
    ∷ p Code.provider_binding_changed FaultCategory.safety_stop FaultScope.workflow false true
        StopScope.all false
    ∷ p Code.provider_protocol_violation FaultCategory.safety_stop FaultScope.session false true
        StopScope.affected false
    ∷ p Code.provider_session_id_missing FaultCategory.user_action_required FaultScope.session false
        true StopScope.affected false
    ∷ p Code.provider_authentication_required FaultCategory.user_action_required FaultScope.session
        false true StopScope.affected false
    ∷ p Code.insecure_cflow_home_permissions FaultCategory.safety_stop FaultScope.project false true
        StopScope.all false
    ∷ p Code.sensitive_data_redaction_failed FaultCategory.safety_stop FaultScope.session false true
        StopScope.affected false
    ∷ p Code.database_schema_too_new FaultCategory.user_action_required FaultScope.database false
        true StopScope.all false
    ∷ p Code.database_migration_path_missing FaultCategory.user_action_required FaultScope.database
        false true StopScope.all false
    ∷ p Code.migration_checksum_mismatch FaultCategory.invariant_failure FaultScope.database false
        true StopScope.all false
    ∷ p Code.database_migration_failed FaultCategory.invariant_failure FaultScope.database false
        true StopScope.all false
    ∷ p Code.database_migration_incomplete FaultCategory.invariant_failure FaultScope.database false
        true StopScope.all false
    ∷ p Code.artifact_schema_unsupported FaultCategory.user_action_required FaultScope.artifact
        false true StopScope.affected false
    ∷ p Code.scope_violation FaultCategory.user_action_required FaultScope.attempt false true
        StopScope.affected false
    ∷ p Code.integration_verification_failed FaultCategory.user_action_required FaultScope.workflow
        false true StopScope.affected false
    ∷ p Code.missing_credentials FaultCategory.user_action_required FaultScope.workflow false true
        StopScope.affected false
    ∷ p Code.plan_drift FaultCategory.user_action_required FaultScope.plan false true
        StopScope.affected false
    ∷ p Code.budget_exceeded FaultCategory.user_action_required FaultScope.workflow false true
        StopScope.affected false
    ∷ p Code.retry_exhausted FaultCategory.user_action_required FaultScope.node false true
        StopScope.none false
    ∷ p Code.commit_during_policy_drift_window FaultCategory.user_action_required FaultScope.branch
        false true StopScope.none false
    ∷ p Code.replacement_reconciliation_changed FaultCategory.user_action_required
        FaultScope.workflow false true StopScope.affected false
    ∷ p Code.commit_policy_confirmation_required FaultCategory.user_action_required
        FaultScope.workflow false true StopScope.none false
    ∷ p Code.commit_policy_safety_stop_requested FaultCategory.safety_stop FaultScope.run false true
        StopScope.all false
    ∷ p Code.commit_policy_input_changed FaultCategory.invalid_input FaultScope.approval false false
        StopScope.none false
    ∷ p Code.commit_policy_mismatch FaultCategory.user_action_required FaultScope.attempt false true
        StopScope.affected false
    ∷ p Code.commit_policy_drift FaultCategory.safety_stop FaultScope.run false true StopScope.all
        false
    ∷ p Code.git_identity_not_configured FaultCategory.user_action_required FaultScope.workflow
        false true StopScope.affected false
    ∷ p Code.git_signing_preflight_failed FaultCategory.user_action_required FaultScope.workflow
        false true StopScope.affected false
    ∷ p Code.target_head_changed FaultCategory.user_action_required FaultScope.apply false true
        StopScope.affected false
    ∷ p Code.apply_target_dirty FaultCategory.user_action_required FaultScope.apply false true
        StopScope.affected false
    ∷ p Code.apply_target_branch_changed FaultCategory.user_action_required FaultScope.apply false
        true StopScope.affected false
    ∷ p Code.command_identity_changed FaultCategory.user_action_required FaultScope.apply false true
        StopScope.affected false
    ∷ p Code.approval_input_changed FaultCategory.invalid_input FaultScope.approval false false
        StopScope.none false
    ∷ p Code.cleanup_workflow_not_terminal FaultCategory.user_action_required FaultScope.cleanup
        false false StopScope.none false
    ∷ p Code.cleanup_active_process FaultCategory.user_action_required FaultScope.cleanup false
        false StopScope.none false
    ∷ p Code.cleanup_target_dirty FaultCategory.user_action_required FaultScope.cleanup false false
        StopScope.none false
    ∷ p Code.cleanup_facts_changed FaultCategory.user_action_required FaultScope.cleanup false false
        StopScope.none false
    ∷ p Code.cleanup_item_failed FaultCategory.user_action_required FaultScope.cleanup false false
        StopScope.none false
    ∷ p Code.cleanup_active_apply FaultCategory.user_action_required FaultScope.cleanup false false
        StopScope.none false
    ∷ p Code.cleanup_quarantined FaultCategory.user_action_required FaultScope.cleanup false false
        StopScope.none false
    ∷ p Code.workflow_patch_forbidden FaultCategory.invalid_input FaultScope.workflow_revision false
        false StopScope.none false
    ∷ p Code.workflow_patch_applied FaultCategory.invalid_input FaultScope.workflow_revision false
        false StopScope.none false
    ∷ p Code.schema_invalid FaultCategory.invalid_input FaultScope.artifact false false
        StopScope.none false
    ∷ p Code.session_independence_violation FaultCategory.invariant_failure FaultScope.session false
        true StopScope.all false
    ∷ p Code.session_superseded FaultCategory.user_action_required FaultScope.session false false
        StopScope.none false
    ∷ p Code.unexpected_agent_mutation FaultCategory.safety_stop FaultScope.session false true
        StopScope.all false
    ∷ p Code.dispatch_gate_closed FaultCategory.invalid_input FaultScope.run false false
        StopScope.none false
    ∷ p Code.workspace_adoption_required FaultCategory.user_action_required FaultScope.workflow
        false false StopScope.none false
    ∷ p Code.not_yet_available FaultCategory.user_action_required FaultScope.workflow false false
        StopScope.none false
    ∷ []

unfoldable pub policy : Code → Option FaultPolicy
unfolding find
policy code = find (λ row. Code.same row.code code) fault_policies

-- The zero value of a policy, which Go reads where the table has no row.
abbrev pub no_policy : FaultPolicy
no_policy = record {
  code = Code.none_set;
  category = FaultCategory.undeclared "";
  scope = FaultScope.undeclared "";
  retry = record { charges_budget = false; allows_successor = false };
  close_dispatch = false;
  stop_scope = StopScope.undeclared "";
}

unfoldable pub policy_or_zero : Code → FaultPolicy
policy_or_zero code = elim (policy code) [ none ↦ no_policy | some row ↦ row ]

unfoldable pub new_fault : Code → String → Fault
new_fault code safe_text =
    let row = policy_or_zero code in
    record {
      code = code;
      category = row.category;
      scope = row.scope;
      retry = row.retry;
      evidence = no_evidence;
      safe_text = safe_text;
    }

unfoldable pub invalid_input : String → Fault
unfolding new_fault
invalid_input = new_fault Code.invalid_input

-- The text of the wrapped error is given; `fmt.Errorf` is applied at the call.
unfoldable pub invariant_fault : String → Fault
unfolding new_fault
invariant_fault = new_fault Code.state_invariant_violation
