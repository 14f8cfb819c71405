-- ===== src/Tests/Store.antt =====
-- The theorems on the Store's transaction, applied to concrete states and inputs.
use cflow.Base.{
  ℕ, Bool, true, false, String, Option, none, some, List, [], ◌∷◌, ◌≡◌, refl, ◌==◌, ◌&&◌, ◌||◌, not,
  all, any, if◌then◌else◌,
}
use cflow.Base.Result.{Result, ok, err}
use cflow.Model.WorkflowStage.{WorkflowStage}
use cflow.Model.RuntimeStatus
use cflow.Model.RuntimeStatus.{RuntimeStatus}
use cflow.Model.NodeKind.{NodeKind}
use cflow.Model.NodeStatus
use cflow.Model.NodeStatus.{NodeStatus}
use cflow.Model.AttemptStatus.{AttemptStatus}
use cflow.Model.Code
use cflow.Model.Code.{Code}
use cflow.Model.Artifact.{ArtifactRef}
use cflow.Model.State.{State, Workflow}
use cflow.Store.Apply.{apply_all}
use cflow.Kernel.Facts.{
  has_active_apply, has_blocking_finding, has_running_process, project_mutation_quarantined,
}
use cflow.Kernel.Chain.{succeeded_attempt_of}
use cflow.Kernel.Verify.{delivery_head}
use cflow.Kernel.Complete.{decide_complete}
use cflow.Kernel.Apply.{last_of}
use cflow.Kernel.Deliver.{apply_execute}
use cflow.Kernel.Cleanup.{
  CleanupCommandInput, CleanupCommandKind, cleanup_execute, cleanup_manifest_hash,
}
use cflow.Kernel.Decide.{Input, decide, dispatch_kind}
use cflow.Kernel.Lawful.Found.{has_distinct_keys}
use cflow.Tests.{failed_end, in_flight, in_flight-IsKeyed, workflow}
use cflow.Tests.Chain.{plain_codec}
use cflow.App.{commit_input, complete_create_identity}
use cflow.App.Creation.{commit-keeps, creates}
use cflow.Store.Transact
use cflow.Store.Transact.{transact}
use cflow.Kernel.Lawful.Committed.{IsCommitted}
use cflow.Model.Decision.{Decision}
use cflow.Model.Fault.{Fault, invariant_fault}
use cflow.Tests.{unstarted, start_command}
use cflow.Kernel.Builder.{no_decision}
use cflow.Kernel.Control.{WorkflowCommandInput, WorkflowCommandKind, decide_workflow}

-- What a transaction that goes through leaves behind.
abbrev committed : Result Fault (Decision × State) → Decision × State
committed (ok x) = x
committed (err e) = (no_decision, unstarted)

-- The transaction on the end of an Attempt.
abbrev ended : Result Fault (Decision × State)
ended = commit_input plain_codec "w" 7 in_flight (Input.effect_result failed_end)

commit-keeps_example : IsCommitted in_flight (committed ended).1
unfolding commit_input complete_create_identity creates has_distinct_keys all decide
    cflow.Base.Result.◌>>◌ cflow.Base.Result.◌>>=◌ cflow.Base.Result.refuse
    cflow.Model.Valid.validate_state cflow.Kernel.Decide.route
    cflow.Kernel.Decide.decide_effect_result cflow.Kernel.Decide.decide_result_kind
    cflow.Kernel.Attempt.decide_attempt_ended cflow.Base.Result.need cflow.Model.State.attempt_at
    cflow.Model.AttemptStatus.is_running cflow.Kernel.Attempt.settle_outcome cflow.Model.Code.is_set
    cflow.Model.Code.same dispatch_kind cflow.Model.NodeKind.is_verify cflow.Model.NodeKind.is_merge
    cflow.Kernel.Merge.decide_merge_dispatch cflow.Model.WorkflowStage.is_execution
    cflow.Kernel.Lookup.gate_open cflow.Kernel.Facts.active_run cflow.Model.RunStatus.is_running
    cflow.Model.State.node_at cflow.Kernel.Lookup.is_allocatable NodeStatus.is_pending
    cflow.Kernel.Verify.task_node_of cflow.Kernel.Verify.spec_of decide_complete
    cflow.Model.WorkflowStage.is_final_verification RuntimeStatus.is_running has_blocking_finding
    cflow.Kernel.Complete.final_verify_of NodeStatus.is_succeeded
    cflow.Model.NodeKind.is_final_verify succeeded_attempt_of cflow.Kernel.Lookup.highest
    cflow.Model.AttemptStatus.is_succeeded cflow.Kernel.Lookup.is_better delivery_head
    cflow.Kernel.Complete.check_merges cleanup_execute last_of cflow.Model.Artifact.same_ref
    cflow.Kernel.Cleanup.settled_workflow RuntimeStatus.is_terminal has_running_process
    project_mutation_quarantined has_active_apply cflow.Kernel.Cleanup.next_item
    cleanup_manifest_hash cflow.Kernel.Cleanup.check_items cflow.Kernel.Cleanup.check_item
    cflow.Kernel.Cleanup.item_at apply_execute cflow.Kernel.Deliver.may_deliver
    cflow.Kernel.Deliver.rebind cflow.Kernel.Builder.done
    cflow.Kernel.Attempt.decide_attempt_failure cflow.Model.Fault.policy
    cflow.Model.Fault.fault_policies apply_all cflow.Kernel.Attempt.settle_failure
    cflow.Kernel.Facts.branch_quarantined cflow.Kernel.Facts.active_quiescing
    cflow.Kernel.Attempt.is_cancelling cflow.Kernel.Settle.pending_cancel
    cflow.Kernel.Attempt.retry_attempt cflow.Kernel.Builder.◌▸◌ cflow.Kernel.Builder.event
    cflow.Kernel.Builder.mutate cflow.Kernel.Builder.new_builder cflow.Store.Apply.apply_mutation
    cflow.Kernel.Attempt.end_of cflow.Kernel.Attempt.successor cflow.Base.after_prefix transact
    cflow.Store.Transact.effective_workflow
commit-keeps_example =
    commit-keeps plain_codec "w" 7 in_flight (Input.effect_result failed_end) (committed ended).0
      (committed ended).1 in_flight-IsKeyed refl refl refl

-- The aggregate before any Workflow.
abbrev nothing : State
nothing = record unstarted {
  workflow = record (workflow WorkflowStage.requirement_discussion RuntimeStatus.pending) {
    id = "";
    project = "";
    stage = WorkflowStage.undeclared "";
    runtime = RuntimeStatus.undeclared "";
  };
}

abbrev creation : WorkflowCommandInput
creation = record start_command {
  kind = WorkflowCommandKind.create;
  name = "demo";
  target_branch = "main";
  base_commit = "c-0";
  workspace_path = "ws";
  workspace_branch = "cflow/w";
}

-- The Kernel's own row of a creation has no identity, and the Store does not commit it as it stands.
creation_test : transact "" 7 nothing (λ s. decide_workflow s creation) ≡ err (invariant_fault "")
unfolding transact decide_workflow cflow.Base.Result.◌>>◌ cflow.Base.Result.◌>>=◌
    cflow.Base.Result.refuse cflow.Kernel.Control.decide_command cflow.Kernel.Control.decide_create
    invariant_fault cflow.Model.Fault.invalid_input cflow.Model.Fault.policy_or_zero
    cflow.Model.Fault.policy Code.same cflow.Kernel.Builder.done cflow.Base.Result.need apply_all
    cflow.Kernel.Builder.◌▸◌ cflow.Kernel.Builder.effect cflow.Kernel.Builder.note
    cflow.Kernel.Builder.event cflow.Kernel.Builder.mutate cflow.Kernel.Builder.new_builder
    cflow.Store.Apply.apply_mutation cflow.Model.Valid.validate_state cflow.Kernel.Control.created
    cflow.Kernel.Builder.wf_mut
creation_test = refl

-- With the identity filled in, the Store commits the creation.
abbrev founded : Result Fault (Decision × State)
founded = commit_input plain_codec "" 7 nothing (Input.workflow_command creation)
