-- ===== src/Kernel/Decide.antt =====
-- The dispatchers of the Kernel: `Decide` of internal/decision/kernel.go, `decideEffectResult` of
-- execution.go and `decideDispatch` of dispatch.go, with `decideTaskWorktreeCreated`.
use cflow.Base.{Bool, false, String, none, some, ◌==◌, ◌&&◌, not}
use cflow.Base.Result.{Result, err, ok, ◌>>◌, ◌>>=◌, refuse, need}
use cflow.Model.NodeKind
use cflow.Model.NodeKind.{NodeKind}
use cflow.Model.AgentPurpose.{AgentPurpose}
use cflow.Model.Code.{Code}
use cflow.Model.Fault.{Fault, invalid_input, invariant_fault, new_fault}
use cflow.Model.Runtime.{Attempt, Node, Session}
use cflow.Model.State.{State, node_at}
use cflow.Model.Effect.{EffectIntent}
use cflow.Model.Decision.{Decision, Mutation}
use cflow.Kernel.Input.{DispatchInput, EffectResultInput, EffectResultKind}
use cflow.Kernel.Facts.{find_session}
use cflow.Kernel.Builder.{Builder, ◌▸◌, done, new_builder, no_decision, mutate, effect}
use cflow.Kernel.Lookup.{running_attempt_of}
use cflow.Kernel.Attempt.{decide_attempt_ended}
use cflow.Kernel.Codec.{Codec}
use cflow.Kernel.Chain.{process_of_attempt}
use cflow.Model.Valid.{validate_state}
use cflow.Kernel.Input.{AgentEventInput}
use cflow.Kernel.Control.{WorkflowCommandInput, decide_workflow}
use cflow.Kernel.Sweep.{decide_agent_event, decide_process_stopped, decide_reconcile}
use cflow.Kernel.Dispatch.{decide_checkpoint_dispatch, decide_dispatch_agent_task}
use cflow.Kernel.Install.{GraphInstallInput, decide_graph_install}
use cflow.Kernel.Verify.{
  decide_final_verify_dispatch, decide_verification_run_ended, decide_verify_dispatch,
}
use cflow.Kernel.Merge.{
  decide_integration_merge_failed, decide_integration_merged, decide_merge_dispatch,
  decide_rollbacked, decide_workspace_merge_failed, decide_workspace_merged,
}
use cflow.Kernel.Adopt.{AdoptWorkspaceInput, decide_adopt_workspace}
use cflow.Kernel.Apply.{ApplyCommandInput, decide_apply_staging_result}
use cflow.Kernel.Deliver.{
  ApplyPolicyConfirmationInput, decide_apply, decide_apply_policy_confirm, decide_apply_result,
}
use cflow.Kernel.Cleanup.{CleanupCommandInput, decide_cleanup, decide_cleanup_result}
use cflow.Kernel.Drift.{
  CommitPolicyApprovalInput, PolicyDriftSettleInput, decide_commit_policy_approval,
  decide_policy_drift_settle,
}
use cflow.Kernel.Replace.{
  ReplacementApprovalInput, ReplacementPreviewInput, decide_replacement_approval,
  decide_replacement_preview,
}
use cflow.Kernel.Discuss.{
  ContinueNativeDiscussionInput, DiscussRequirementInput, FinishDiscussionInput,
  NativeDiscussionReturnInput, PrepareNativeDiscussionInput, SwitchAgentInput,
  decide_continue_native_discussion, decide_discuss_requirement, decide_finish_discussion,
  decide_native_bootstrap_established, decide_native_discussion_return,
  decide_prepare_native_discussion, decide_switch_agent,
}
use cflow.Kernel.Gates.{
  ExecutionApprovalInput, ExecutionDryRunInput, GeneratePlanInput, PlanApprovalInput, PlanningInput,
  SpecGenerationInput, decide_check_plan, decide_execution_approval, decide_execution_dry_run,
  decide_generate_plan, decide_plan_approval, decide_spec_generation, decide_workflow_compilation,
}
use cflow.Kernel.Complete.{decide_complete}
use cflow.Kernel.Produced.{
  decide_artifact_written, decide_integration_worktree_created, decide_workflow_compiled,
}
use cflow.Kernel.Provider.{decide_provider_run_ended}

-- The Session that an allocation recorded, with its approved route.
unfoldable pub routed_session : State → Attempt → Result Fault Session
routed_session st attempt = do
  session ←
      need (find_session st attempt.session)
        (invariant_fault "allocated session carries no approved route")
  refuse (session.provider == "") (invariant_fault "allocated session carries no approved route")
  ok session

unfoldable pub start_in_worktree : State → Node → Attempt → Session → String → Builder → Builder
start_in_worktree st node attempt session path b =
    b
    ▸ mutate (Mutation.task node.id "" path)
    ▸ effect (
        EffectIntent.provider_start attempt.session AgentPurpose.implementation session.provider ""
          node.id (process_of_attempt st attempt.key))

unfoldable pub decide_task_worktree_created : State → EffectResultInput → Result Fault Decision
decide_task_worktree_created st input = do
  refuse (input.worktree_path == "") (invariant_fault "task worktree result carries no path")
  node ←
      need (node_at st.nodes input.attempt.node)
        (invariant_fault "task worktree result references unknown node")
  refuse (not (NodeKind.is_agent_task node.kind))
      (invariant_fault "task worktree result references a non-task node")
  attempt ← need (running_attempt_of input.attempt.node st.attempts) (invalid_input "")
  session ← routed_session st attempt
  done (new_builder st ▸ start_in_worktree st node attempt session input.worktree_path)

-- The Execution Approval bound a Change Set and the Workspace is not adopted yet.
unfoldable pub awaits_adoption : State → Bool
awaits_adoption st = elim st.workflow.execution_facts [
  | none ↦ false
  | some facts ↦ not (facts.change_set_hash == "") && st.workflow.verified_workspace_head == ""
]

-- The switch over the kind of the Node.
unfoldable pub dispatch_kind : State → DispatchInput → NodeKind → Result Fault Decision
dispatch_kind st input NodeKind.agent_task = decide_dispatch_agent_task st input
dispatch_kind st input NodeKind.verify = decide_verify_dispatch st input
dispatch_kind st input NodeKind.merge = decide_merge_dispatch st input
dispatch_kind st input NodeKind.final_verify = decide_final_verify_dispatch st input
dispatch_kind st input NodeKind.checkpoint = decide_checkpoint_dispatch st input
dispatch_kind st input _ = err (invalid_input "")

unfoldable pub decide_dispatch : State → DispatchInput → Result Fault Decision
decide_dispatch st input = do
  refuse (awaits_adoption st) (
      new_fault Code.workspace_adoption_required
        "the workspace has not been adopted; no task may start from an unverified candidate head")
  node ← need (node_at st.nodes input.node) (invalid_input "unknown node")
  dispatch_kind st input node.kind

-- The switch of `decideEffectResult`. No case takes a migrated layout.
unfoldable pub decide_result_kind :
    Codec → State → EffectResultInput → EffectResultKind → Result Fault Decision
decide_result_kind codec st input EffectResultKind.attempt_ended = decide_attempt_ended st input
decide_result_kind codec st input EffectResultKind.process_stopped = decide_process_stopped st input
decide_result_kind codec st input EffectResultKind.apply_staging_succeeded =
    decide_apply_staging_result st input
decide_result_kind codec st input EffectResultKind.apply_staging_failed =
    decide_apply_staging_result st input
decide_result_kind codec st input EffectResultKind.apply_fast_forward_succeeded =
    decide_apply_result st input
decide_result_kind codec st input EffectResultKind.apply_fast_forward_failed =
    decide_apply_result st input
decide_result_kind codec st input EffectResultKind.cleanup_item_removed =
    decide_cleanup_result st input
decide_result_kind codec st input EffectResultKind.cleanup_item_failed =
    decide_cleanup_result st input
decide_result_kind codec st input EffectResultKind.planning_worktree_created = ok no_decision
decide_result_kind codec st input EffectResultKind.workspace_worktree_created = ok no_decision
decide_result_kind codec st input EffectResultKind.provider_run_ended =
    decide_provider_run_ended codec st input
decide_result_kind codec st input EffectResultKind.native_bootstrap_established =
    decide_native_bootstrap_established st input
decide_result_kind codec st input EffectResultKind.artifact_written =
    decide_artifact_written codec st input
decide_result_kind codec st input EffectResultKind.workflow_compiled =
    decide_workflow_compiled st input
decide_result_kind codec st input EffectResultKind.integration_worktree_created =
    decide_integration_worktree_created st input
decide_result_kind codec st input EffectResultKind.task_worktree_created =
    decide_task_worktree_created st input
decide_result_kind codec st input EffectResultKind.verification_run_ended =
    decide_verification_run_ended st input
decide_result_kind codec st input EffectResultKind.integration_merged =
    decide_integration_merged st input
decide_result_kind codec st input EffectResultKind.integration_merge_failed =
    decide_integration_merge_failed st input
decide_result_kind codec st input EffectResultKind.integration_rollbacked =
    decide_rollbacked st input
decide_result_kind codec st input EffectResultKind.workspace_merged =
    decide_workspace_merged st input
decide_result_kind codec st input EffectResultKind.workspace_merge_failed =
    decide_workspace_merge_failed st input
decide_result_kind codec st input EffectResultKind.workspace_rollbacked = decide_rollbacked st input
decide_result_kind codec st input EffectResultKind.git_audit_ref_created = ok no_decision
decide_result_kind codec st input EffectResultKind.layout_migration_completed =
    err (invalid_input "unsupported effect result")
decide_result_kind codec st input (EffectResultKind.undeclared _) =
    err (invalid_input "unsupported effect result")

unfoldable pub decide_effect_result : Codec → State → EffectResultInput → Result Fault Decision
decide_effect_result codec st input = decide_result_kind codec st input input.kind

-- The closed union of inputs; `foreign` is any other implementation of the interface.
pub data Input : Type 0 where
  workflow_command : WorkflowCommandInput → Input
  complete_workflow : Input
  effect_result : EffectResultInput → Input
  reconcile : Input
  discuss_requirement : DiscussRequirementInput → Input
  prepare_native_discussion : PrepareNativeDiscussionInput → Input
  native_discussion_return : NativeDiscussionReturnInput → Input
  continue_native_discussion : ContinueNativeDiscussionInput → Input
  switch_agent : SwitchAgentInput → Input
  finish_discussion : FinishDiscussionInput → Input
  generate_plan : GeneratePlanInput → Input
  check_plan : PlanningInput → Input
  plan_approval : PlanApprovalInput → Input
  spec_generation : SpecGenerationInput → Input
  workflow_compilation : PlanningInput → Input
  execution_dry_run : ExecutionDryRunInput → Input
  execution_approval : ExecutionApprovalInput → Input
  adopt_workspace : AdoptWorkspaceInput → Input
  graph_install : GraphInstallInput → Input
  dispatch : DispatchInput → Input
  policy_drift_settle : PolicyDriftSettleInput → Input
  commit_policy_approval : CommitPolicyApprovalInput → Input
  replacement_approval : ReplacementApprovalInput → Input
  replacement_preview : ReplacementPreviewInput → Input
  agent_event : AgentEventInput → Input
  apply_command : ApplyCommandInput → Input
  apply_policy_confirmation : ApplyPolicyConfirmationInput → Input
  cleanup_command : CleanupCommandInput → Input
  foreign : Input

-- The type switch of `Decide`.
unfoldable pub route : Codec → State → Input → Result Fault Decision
route codec st (Input.workflow_command i) = decide_workflow st i
route codec st Input.complete_workflow = decide_complete st
route codec st (Input.effect_result i) = decide_effect_result codec st i
route codec st Input.reconcile = decide_reconcile st
route codec st (Input.discuss_requirement i) = decide_discuss_requirement st i
route codec st (Input.prepare_native_discussion i) = decide_prepare_native_discussion st i
route codec st (Input.native_discussion_return i) = decide_native_discussion_return st i
route codec st (Input.continue_native_discussion i) = decide_continue_native_discussion st i
route codec st (Input.switch_agent i) = decide_switch_agent st i
route codec st (Input.finish_discussion i) = decide_finish_discussion st i
route codec st (Input.generate_plan i) = decide_generate_plan st i
route codec st (Input.check_plan i) = decide_check_plan st i
route codec st (Input.plan_approval i) = decide_plan_approval st i
route codec st (Input.spec_generation i) = decide_spec_generation st i
route codec st (Input.workflow_compilation i) = decide_workflow_compilation st i
route codec st (Input.execution_dry_run i) = decide_execution_dry_run st i
route codec st (Input.execution_approval i) = decide_execution_approval st i
route codec st (Input.adopt_workspace i) = decide_adopt_workspace st i
route codec st (Input.graph_install i) = decide_graph_install codec.context_reason st i
route codec st (Input.dispatch i) = decide_dispatch st i
route codec st (Input.policy_drift_settle i) = decide_policy_drift_settle st i
route codec st (Input.commit_policy_approval i) = decide_commit_policy_approval st i
route codec st (Input.replacement_approval i) = decide_replacement_approval codec st i
route codec st (Input.replacement_preview i) = decide_replacement_preview st i
route codec st (Input.agent_event i) = decide_agent_event st i
route codec st (Input.apply_command i) = decide_apply codec st i
route codec st (Input.apply_policy_confirmation i) = decide_apply_policy_confirm codec st i
route codec st (Input.cleanup_command i) = decide_cleanup codec st i
route codec st Input.foreign = err (invalid_input "unsupported input")

-- An invalid aggregate is refused before any input is read.
unfoldable pub decide : Codec → State → Input → Result Fault Decision
decide codec st input =
    refuse (not (validate_state st)) (invariant_fault "invalid aggregate") >> route codec st input
