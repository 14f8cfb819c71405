-- ===== src/Tests/Chain.antt =====
-- The theorems on whole decisions and on the delivery chain, applied to concrete states and inputs.
use cflow.Base.{
  ℕ, Bool, true, false, String, Option, none, some, List, [], ◌∷◌, ◌≡◌, refl, ◌==◌, ◌&&◌, ◌||◌, not,
  all, any, if◌then◌else◌,
}
use cflow.Base.Result.{Result, ok, err}
use cflow.Model.WorkflowStage.{WorkflowStage}
use cflow.Model.RuntimeStatus
use cflow.Model.RuntimeStatus.{RuntimeStatus}
use cflow.Model.NodeKind
use cflow.Model.NodeKind.{NodeKind}
use cflow.Model.NodeStatus
use cflow.Model.NodeStatus.{NodeStatus}
use cflow.Model.AttemptStatus.{AttemptStatus}
use cflow.Model.ApplyStatus
use cflow.Model.ApplyStatus.{ApplyStatus}
use cflow.Model.CleanupStatus.{CleanupStatus}
use cflow.Model.CleanupItemStatus.{CleanupItemStatus}
use cflow.Model.ArtifactType.{ArtifactType}
use cflow.Model.Code
use cflow.Model.Code.{Code}
use cflow.Model.Evidence.{no_evidence}
use cflow.Model.Artifact.{ArtifactRef}
use cflow.Model.Runtime.{
  ApplyAttempt, Attempt, AttemptKey, CleanupAttempt, CleanupItem, CleanupItemKind, Node,
}
use cflow.Model.State.{State, Workflow}
use cflow.Model.Effect.{EffectIntent}
use cflow.Store.Apply.{apply_all}
use cflow.Kernel.Codec.{Codec}
use cflow.Kernel.Input.{AgentEventInput, AgentEventKind, DispatchInput}
use cflow.Kernel.Facts.{
  has_active_apply, has_blocking_finding, has_running_process, project_mutation_quarantined,
}
use cflow.Kernel.Chain.{succeeded_attempt_of}
use cflow.Kernel.Verify.{delivery_head}
use cflow.Kernel.Complete.{decide_complete}
use cflow.Kernel.Apply.{ApplyCommandInput, ApplyCommandKind, find_apply_attempt, last_of}
use cflow.Kernel.Deliver.{apply_execute}
use cflow.Kernel.Cleanup.{
  CleanupCommandInput, CleanupCommandKind, cleanup_execute, cleanup_manifest_hash,
}
use cflow.Kernel.Decide.{Input, decide, dispatch_kind}
use cflow.Kernel.Admit.Delivery.{
  IsDeliverable, binds, cleanup-admits, complete-shows, delivery-admits, execute-binds,
  is_confirmed, is_reviewed, is_delivered,
}
use cflow.Kernel.Lawful.Rules.{is_lawful, Passes}
use cflow.Kernel.Lawful.Decide.{decide-Passes}
use cflow.Kernel.Lawful.Found.{has_distinct_keys}
use cflow.Kernel.Lawful.Applied.{SameWorkflow, decide-SameWorkflow}
use cflow.Tests.{
  allocation, decided, failed_end, first_attempt, first_key, in_flight, in_flight-IsKeyed, node,
  open_run, stored, with_parts, workflow,
}

-- Libraries that read nothing.
abbrev pub plain_codec : Codec
plain_codec = record {
  json_decision = λ body. none;
  trim_space = λ body. body;
  sha256_hex = λ body. "h";
  change_set_commits = λ body. none;
  sha256_text = λ text. "h";
  marshal_context = λ context. "{}";
  context_attempt = λ text. none;
  replacement_context = λ approval ids revision hash. none;
  json_valid = λ body. true;
  utf8_valid = λ body. true;
  text_of = λ body. "";
  quote = λ text. text;
  json_check = λ body. none;
  marshal_check = λ revision hash provider session now out. none;
  plan_front = λ id revision title. none;
  yaml_specs = λ body. none;
  marshal_spec = λ spec. none;
  marshal_specs = λ specs. none;
  yaml_patch = λ body. none;
  context_reason = λ text. none;
}

-- A task that is accepted, and the merge that waits for it.
abbrev merge_node : Node
merge_node =
    let n = node NodeStatus.pending in
    record n { id = "merge-a"; kind = NodeKind.merge; dependencies = "task-a" ∷ [] }

abbrev accepted_attempt : Attempt
accepted_attempt = let a = first_attempt AttemptStatus.succeeded in record a { end_head = "c-1" }

abbrev pub merging : State
merging =
    with_parts (workflow WorkflowStage.execution RuntimeStatus.running)
      (("task-a", node NodeStatus.succeeded) ∷ ("merge-a", merge_node) ∷ [])
      ((first_key, accepted_attempt) ∷ []) (open_run ∷ []) []

abbrev merge_allocation : DispatchInput
merge_allocation = record allocation { node = "merge-a" }

-- A Workflow whose final review passed.
abbrev final_node : Node
final_node =
    let n = node NodeStatus.succeeded in record n { id = "final"; kind = NodeKind.final_verify }

abbrev final_key : AttemptKey
final_key = record { node = "final"; number = 1 }

abbrev final_attempt : Attempt
final_attempt =
    let a = first_attempt AttemptStatus.succeeded in
    record a { key = final_key; start_head = "v-1"; evidence = no_evidence ∷ [] }

abbrev verified_workflow : Workflow
verified_workflow =
    let w = workflow WorkflowStage.final_verification RuntimeStatus.running in
    record w { verified_workspace_head = "v-1" }

abbrev reviewed : State
reviewed =
    with_parts verified_workflow
      (("task-a", node NodeStatus.succeeded) ∷ ("final", final_node) ∷ [])
      ((final_key, final_attempt) ∷ []) (open_run ∷ []) []

abbrev no_ref : ArtifactRef
no_ref = record { workflow = "w"; type = ArtifactType.cleanup_manifest; revision = 1; hash = "h" }

-- A completed Workflow with one worktree to remove and an Apply that awaits its delivery.
abbrev item : CleanupItem
item = record {
  index = 0;
  kind = CleanupItemKind.worktree;
  canonical_path = "/w/a";
  branch = "cflow/w/task-task-a";
  expected_head = "c-1";
  fingerprint = "";
  dirty = false;
  status = CleanupItemStatus.pending;
  failure_code = Code.none_set;
}

abbrev cleanup : CleanupAttempt
cleanup = record {
  id = "cleanup-1";
  status = CleanupStatus.awaiting_confirmation;
  manifest = no_ref;
  items = item ∷ [];
  started_at = 5;
  ended_at = 0;
}

abbrev staged : ApplyAttempt
staged = record {
  id = "apply-1";
  number = 1;
  status = ApplyStatus.awaiting_confirmation;
  target_head = "t-1";
  integration_head = "v-1";
  preflight = no_ref;
  preflight_hash = "ph";
  fingerprint = "fp";
  started_at = 5;
  ended_at = 0;
  staging_head = "m-1";
  review_session = "s-9";
  review_route = "codex";
  review_process = "p-9";
}

abbrev completed : State
completed =
    let st = with_parts (workflow WorkflowStage.completed RuntimeStatus.succeeded) [] [] [] [] in
    record st { cleanup_attempts = cleanup ∷ [] }

abbrev delivering : State
delivering =
    let st = with_parts (workflow WorkflowStage.completed RuntimeStatus.succeeded) [] [] [] [] in
    record st { apply_attempts = staged ∷ [] }

abbrev cleanup_command : CleanupCommandInput
cleanup_command = record { kind = CleanupCommandKind.execute; items = item ∷ []; manifest = no_ref }

abbrev execute_command : ApplyCommandInput
execute_command = record {
  kind = ApplyCommandKind.execute;
  attempt = "";
  target_head = "t-1";
  integration_head = "v-1";
  preflight = no_ref;
  preflight_hash = "ph";
  fingerprint = "fp";
  review_session = "";
  review_route = "";
  review_process = "";
  resolution_session = "";
  resolution_process = "";
}

abbrev claim : AgentEventInput
claim = record { kind = AgentEventKind.claims_complete; session = "s-1"; node = "task-a" }

decide-Passes_example :
    Passes in_flight
      (is_lawful in_flight)
      (decide plain_codec in_flight (Input.effect_result failed_end))
unfolding has_distinct_keys all decide cflow.Base.Result.◌>>◌ cflow.Base.Result.◌>>=◌
    cflow.Base.Result.refuse cflow.Model.Valid.validate_state cflow.Kernel.Decide.route
    cflow.Kernel.Decide.decide_effect_result cflow.Kernel.Decide.decide_result_kind
    cflow.Kernel.Attempt.decide_attempt_ended cflow.Base.Result.need cflow.Model.State.attempt_at
    cflow.Model.AttemptStatus.is_running cflow.Kernel.Attempt.settle_outcome cflow.Model.Code.is_set
    cflow.Model.Code.same dispatch_kind cflow.Model.NodeKind.is_verify cflow.Model.NodeKind.is_merge
    cflow.Kernel.Merge.decide_merge_dispatch cflow.Model.WorkflowStage.is_execution
    cflow.Kernel.Lookup.gate_open cflow.Kernel.Facts.active_run cflow.Model.RunStatus.is_running
    cflow.Model.State.node_at cflow.Kernel.Lookup.is_allocatable NodeStatus.is_pending
    cflow.Kernel.Verify.task_node_of cflow.Kernel.Verify.spec_of decide_complete
    cflow.Model.WorkflowStage.is_final_verification RuntimeStatus.is_running has_blocking_finding
    cflow.Kernel.Complete.final_verify_of NodeStatus.is_succeeded
    cflow.Model.NodeKind.is_final_verify succeeded_attempt_of cflow.Kernel.Lookup.highest
    cflow.Model.AttemptStatus.is_succeeded cflow.Kernel.Lookup.is_better delivery_head
    cflow.Kernel.Complete.check_merges cleanup_execute last_of cflow.Model.Artifact.same_ref
    cflow.Kernel.Cleanup.settled_workflow RuntimeStatus.is_terminal has_running_process
    project_mutation_quarantined has_active_apply cflow.Kernel.Cleanup.next_item
    cleanup_manifest_hash cflow.Kernel.Cleanup.check_items cflow.Kernel.Cleanup.check_item
    cflow.Kernel.Cleanup.item_at apply_execute cflow.Kernel.Deliver.may_deliver
    cflow.Kernel.Deliver.rebind cflow.Kernel.Builder.done
    cflow.Kernel.Attempt.decide_attempt_failure
decide-Passes_example =
    decide-Passes plain_codec in_flight (Input.effect_result failed_end) in_flight-IsKeyed refl

decide-SameWorkflow_example :
    SameWorkflow
      (stored (
        apply_all in_flight
          (decided (decide plain_codec in_flight (Input.effect_result failed_end))).mutations))
      in_flight
unfolding has_distinct_keys all decide cflow.Base.Result.◌>>◌ cflow.Base.Result.◌>>=◌
    cflow.Base.Result.refuse cflow.Model.Valid.validate_state cflow.Kernel.Decide.route
    cflow.Kernel.Decide.decide_effect_result cflow.Kernel.Decide.decide_result_kind
    cflow.Kernel.Attempt.decide_attempt_ended cflow.Base.Result.need cflow.Model.State.attempt_at
    cflow.Model.AttemptStatus.is_running cflow.Kernel.Attempt.settle_outcome cflow.Model.Code.is_set
    cflow.Model.Code.same dispatch_kind cflow.Model.NodeKind.is_verify cflow.Model.NodeKind.is_merge
    cflow.Kernel.Merge.decide_merge_dispatch cflow.Model.WorkflowStage.is_execution
    cflow.Kernel.Lookup.gate_open cflow.Kernel.Facts.active_run cflow.Model.RunStatus.is_running
    cflow.Model.State.node_at cflow.Kernel.Lookup.is_allocatable NodeStatus.is_pending
    cflow.Kernel.Verify.task_node_of cflow.Kernel.Verify.spec_of decide_complete
    cflow.Model.WorkflowStage.is_final_verification RuntimeStatus.is_running has_blocking_finding
    cflow.Kernel.Complete.final_verify_of NodeStatus.is_succeeded
    cflow.Model.NodeKind.is_final_verify succeeded_attempt_of cflow.Kernel.Lookup.highest
    cflow.Model.AttemptStatus.is_succeeded cflow.Kernel.Lookup.is_better delivery_head
    cflow.Kernel.Complete.check_merges cleanup_execute last_of cflow.Model.Artifact.same_ref
    cflow.Kernel.Cleanup.settled_workflow RuntimeStatus.is_terminal has_running_process
    project_mutation_quarantined has_active_apply cflow.Kernel.Cleanup.next_item
    cleanup_manifest_hash cflow.Kernel.Cleanup.check_items cflow.Kernel.Cleanup.check_item
    cflow.Kernel.Cleanup.item_at apply_execute cflow.Kernel.Deliver.may_deliver
    cflow.Kernel.Deliver.rebind cflow.Kernel.Builder.done
    cflow.Kernel.Attempt.decide_attempt_failure cflow.Model.Fault.policy
    cflow.Model.Fault.fault_policies apply_all cflow.Kernel.Attempt.settle_failure
    cflow.Kernel.Facts.branch_quarantined cflow.Kernel.Facts.active_quiescing
    cflow.Kernel.Attempt.is_cancelling cflow.Kernel.Settle.pending_cancel
    cflow.Kernel.Attempt.retry_attempt cflow.Kernel.Builder.◌▸◌ cflow.Kernel.Builder.event
    cflow.Kernel.Builder.mutate cflow.Kernel.Builder.new_builder cflow.Store.Apply.apply_mutation
    cflow.Kernel.Attempt.end_of cflow.Kernel.Attempt.successor cflow.Base.after_prefix
decide-SameWorkflow_example =
    decide-SameWorkflow plain_codec in_flight (Input.effect_result failed_end)
      (decided (decide plain_codec in_flight (Input.effect_result failed_end)))
      (stored (
        apply_all in_flight
          (decided (decide plain_codec in_flight (Input.effect_result failed_end))).mutations))
      in_flight-IsKeyed refl refl refl

delivery-admits_example : IsDeliverable merging "merge-a"
unfolding dispatch_kind cflow.Model.NodeKind.is_verify cflow.Model.NodeKind.is_merge
    cflow.Kernel.Merge.decide_merge_dispatch cflow.Base.Result.◌>>◌ cflow.Base.Result.◌>>=◌
    cflow.Base.Result.refuse cflow.Model.WorkflowStage.is_execution cflow.Kernel.Lookup.gate_open
    cflow.Kernel.Facts.active_run cflow.Model.RunStatus.is_running cflow.Base.Result.need
    cflow.Model.State.node_at cflow.Kernel.Lookup.is_allocatable NodeStatus.is_pending
    cflow.Kernel.Verify.task_node_of cflow.Kernel.Verify.spec_of decide_complete
    cflow.Model.WorkflowStage.is_final_verification RuntimeStatus.is_running has_blocking_finding
    cflow.Kernel.Complete.final_verify_of NodeStatus.is_succeeded
    cflow.Model.NodeKind.is_final_verify succeeded_attempt_of cflow.Kernel.Lookup.highest
    cflow.Model.AttemptStatus.is_succeeded cflow.Kernel.Lookup.is_better delivery_head
    cflow.Kernel.Complete.check_merges cleanup_execute last_of cflow.Model.Artifact.same_ref
    cflow.Kernel.Cleanup.settled_workflow RuntimeStatus.is_terminal has_running_process
    project_mutation_quarantined has_active_apply cflow.Kernel.Cleanup.next_item
    cleanup_manifest_hash cflow.Kernel.Cleanup.check_items cflow.Kernel.Cleanup.check_item
    cflow.Kernel.Cleanup.item_at apply_execute cflow.Kernel.Deliver.may_deliver
    cflow.Kernel.Deliver.rebind cflow.Kernel.Builder.done cflow.Base.after_prefix
    cflow.Model.NodeKind.is_agent_task cflow.Kernel.Verify.chain_closed
    cflow.Kernel.Facts.branch_quarantined NodeStatus.is_failed cflow.Kernel.Verify.accepted_attempt
    cflow.Kernel.Merge.allocate_merge cflow.Kernel.Merge.workspace_base
delivery-admits_example =
    delivery-admits merging merge_allocation NodeKind.merge
      (decided (dispatch_kind merging merge_allocation NodeKind.merge)) refl refl

complete-shows_example :
    ((all (λ (e : String × Node). NodeStatus.is_succeeded e.1.status) reviewed.nodes
        && not (has_blocking_finding reviewed))
      && (any
            (λ (e : String × Node). NodeKind.is_final_verify e.1.kind && is_reviewed reviewed e.1)
            reviewed.nodes
          && all (λ (e : String × Node). is_delivered reviewed e.1) reviewed.nodes))
    ≡ true
unfolding decide_complete cflow.Base.Result.◌>>◌ cflow.Base.Result.◌>>=◌ cflow.Base.Result.refuse
    cflow.Model.WorkflowStage.is_final_verification RuntimeStatus.is_running has_blocking_finding
    cflow.Kernel.Complete.final_verify_of NodeStatus.is_succeeded cflow.Base.Result.need
    cflow.Model.NodeKind.is_final_verify succeeded_attempt_of cflow.Kernel.Lookup.highest
    cflow.Model.AttemptStatus.is_succeeded cflow.Kernel.Lookup.is_better delivery_head
    cflow.Kernel.Complete.check_merges cleanup_execute last_of cflow.Model.Artifact.same_ref
    cflow.Kernel.Cleanup.settled_workflow RuntimeStatus.is_terminal has_running_process
    project_mutation_quarantined has_active_apply cflow.Kernel.Cleanup.next_item
    cleanup_manifest_hash cflow.Kernel.Cleanup.check_items cflow.Kernel.Cleanup.check_item
    cflow.Kernel.Cleanup.item_at apply_execute cflow.Kernel.Deliver.may_deliver
    cflow.Kernel.Deliver.rebind cflow.Kernel.Builder.done cflow.Model.NodeKind.is_merge
complete-shows_example = complete-shows reviewed (decided (decide_complete reviewed)) refl

cleanup-admits_example :
    ((RuntimeStatus.is_terminal RuntimeStatus.succeeded && not (has_running_process completed))
      && ((not (project_mutation_quarantined completed) && not (has_active_apply completed))
          && (cleanup_manifest_hash plain_codec (item ∷ []) == "h"
              && all (is_confirmed cleanup) (item ∷ []))))
    ≡ true
unfolding cleanup_execute last_of cflow.Base.Result.◌>>=◌ cflow.Base.Result.need
    cflow.Base.Result.◌>>◌ cflow.Base.Result.refuse cflow.Model.Artifact.same_ref
    cflow.Kernel.Cleanup.settled_workflow RuntimeStatus.is_terminal has_running_process
    project_mutation_quarantined has_active_apply cflow.Kernel.Cleanup.next_item
    cleanup_manifest_hash cflow.Kernel.Cleanup.check_items cflow.Kernel.Cleanup.check_item
    cflow.Kernel.Cleanup.item_at apply_execute cflow.Kernel.Deliver.may_deliver
    cflow.Kernel.Deliver.rebind cflow.Kernel.Builder.done cflow.Kernel.Cleanup.same_facts
    cflow.Kernel.Cleanup.spell_kind cflow.Kernel.Cleanup.first_pending_item cflow.Base.find
    cflow.Model.CleanupItemStatus.is_pending
cleanup-admits_example =
    cleanup-admits plain_codec completed cleanup_command cleanup
      (decided (cleanup_execute plain_codec completed cleanup_command)) refl refl refl

execute-binds_example :
    (att : ApplyAttempt) × (((if "" == ""
          then last_of delivering.apply_attempts
          else find_apply_attempt delivering "")
        ≡ some att)
      × (((ApplyStatus.is_running att.status
              || (ApplyStatus.is_awaiting_confirmation att.status && binds execute_command att))
            ≡ true)
          × ((decided (apply_execute delivering execute_command)).effect
              ≡ some (EffectIntent.apply_fast_forward att.id att.target_head))))
unfolding apply_execute cflow.Base.Result.◌>>=◌ cflow.Base.Result.need last_of
    cflow.Base.Result.◌>>◌ cflow.Kernel.Deliver.may_deliver cflow.Kernel.Deliver.rebind
    cflow.Base.Result.refuse cflow.Kernel.Builder.done
execute-binds_example =
    execute-binds delivering execute_command (decided (apply_execute delivering execute_command))
      refl
