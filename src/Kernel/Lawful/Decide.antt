-- ===== src/Kernel/Lawful/Decide.antt =====
-- Every Decision of the Kernel asks for lawful mutations only.
use cflow.Base.{true, [], ◌≡◌, refl, String, Option, ◌∷◌, List, arith}
use cflow.Base.Result.{ok}
use cflow.Model.Fault.{invalid_input}
use cflow.Model.State.{State, node_at}
use cflow.Model.Decision.{Mutation}
use cflow.Kernel.Codec.{Codec}
use cflow.Kernel.Input.{DispatchInput, EffectResultInput, EffectResultKind}
use cflow.Kernel.Builder.{Builder}
use cflow.Kernel.Lawful.Rules.{
  Holds, Passes, is_lawful, result_rules, chain-Holds, new_builder-Holds, need-Passes, bind-Passes,
  err-Passes, guard-Passes,
}
use cflow.Kernel.Lawful.Settle.{IsKeyed}
use cflow.Kernel.Lawful.Free.{free_rules, is_intended, then-Passes}
use cflow.Base.{Option-cases, inl, inr}
use cflow.Model.NodeKind.{NodeKind}
use cflow.Model.Valid.{valid-is_intended}
use cflow.Kernel.Admit.{refuse-ok}
use cflow.Kernel.Decide
use cflow.Kernel.Decide.{Input}
use cflow.Kernel.Install
use cflow.Kernel.Install.{GraphInstallInput, InstallNode}
use cflow.Kernel.Sweep
use cflow.Kernel.Input.{AgentEventInput, AgentEventKind}
use cflow.Kernel.Lawful.Free.{free-Keeps, same-Holds, ok-Passes}
use cflow.Kernel.Lawful.Found.{has_distinct_keys}
use cflow.Kernel.Lawful.Workflow.{decide_workflow-Passes}
use cflow.Kernel.Lawful.Attempt.{decide_attempt_ended-Passes}
use cflow.Kernel.Lawful.Sweep.{decide_process_stopped-Passes, decide_reconcile-Passes}
use cflow.Kernel.Lawful.Dispatch.{decide_checkpoint-Passes, decide_dispatch-Passes}
use cflow.Kernel.Lawful.Verify.{
  final_verify_dispatch-Passes, verification_run-Passes, verify_dispatch-Passes,
}
use cflow.Kernel.Lawful.Merge.{
  integration_merge_failed-Passes, integration_merged-Passes, merge_dispatch-Passes,
  rollbacked-Passes, workspace_merge_failed-Passes, workspace_merged-Passes,
}
use cflow.Kernel.Lawful.Adopt.{adopt-Passes}
use cflow.Kernel.Lawful.Apply.{
  apply-Passes, apply_result-Passes, policy_confirm-Passes, staging_result-Passes,
}
use cflow.Kernel.Lawful.Cleanup.{cleanup-Passes, cleanup_result-Passes}
use cflow.Kernel.Lawful.Drift.{commit_policy-Passes, drift_settle-Passes}
use cflow.Kernel.Lawful.Planning.{
  bootstrap-Passes, continue-Passes, discuss-Passes, finish-Passes, prepare-Passes, return-Passes,
  switch-Passes,
}
use cflow.Kernel.Lawful.Gates.{
  check_plan-Passes, compilation-Passes, complete-Passes, dry_run-Passes, execution_approval-Passes,
  generate_plan-Passes, plan_approval-Passes, replacement_approval-Passes,
  replacement_preview-Passes, spec_generation-Passes,
}
use cflow.Kernel.Lawful.Produced.{
  compiled-Passes, integration_worktree-Passes, nothing-Passes, written-Passes,
}
use cflow.Kernel.Lawful.Provider.{provider_run-Passes}

module _ (st : State) where
  install-Holds :
      (ns : List InstallNode) (b c : Builder)
      → Holds st (is_lawful st) b
      → Install.install_nodes st ns b ≡ ok c
      → Holds st (is_lawful st) c
  unfolding Install.install_nodes
  install-Holds [] b c h e = same-Holds st (is_lawful st) b c (ok b) refl e h
  install-Holds (n ∷ ns) b c h e = elim (Option-cases (node_at st.nodes n.id)) [
    | inl q ↦
        install-Holds ns _ c
          (chain-Holds _ _ _ h (free-Keeps st (Mutation.node_append (Install.installed st n)) refl))
          (ground (arith, q, e))
    | inr (old, q) ↦
        install-Holds ns b c h
          (refuse-ok (Install.changes old n) (invalid_input "") (Install.install_nodes st ns b) c
            (ground (arith, q, e))).1
  ]

  install-Passes :
      (reason : String → Option String) (input : GraphInstallInput)
      → Passes st (is_lawful st) (Install.decide_graph_install reason st input)
  unfolding Install.decide_graph_install
  install-Passes reason input = then-Passes _ _ _ (
      then-Passes _ _ _ (
        then-Passes _ _ _ (
          then-Passes _ _ _ (
            then-Passes _ _ _ (
              then-Passes _ _ _ (
                ok-Passes _ _ _ (λ b e.
                  let h = install-Holds _ _ b (new_builder-Holds _) e in
                  search (result_rules, free_rules) depth 8)))))))

  worktree-Passes :
      (input : EffectResultInput)
      → Passes st (is_lawful st) (Decide.decide_task_worktree_created st input)
  unfolding Decide.decide_task_worktree_created Decide.start_in_worktree
  worktree-Passes input = then-Passes _ _ _ (
      need-Passes _ _ _ _ (λ node e. then-Passes _ _ _ (
        need-Passes _ _ _ _
          (λ a f. bind-Passes _ _ _ (λ s. search (result_rules, free_rules) depth 10)))))

  agent_event-Passes :
      (input : AgentEventInput) (k : AgentEventKind)
      → input.kind ≡ k
      → Passes st (is_lawful st) (Sweep.decide_agent_event st input)
  unfolding Sweep.decide_agent_event
  agent_event-Passes input AgentEventKind.claims_complete e = rw e (err-Passes _ _)
  agent_event-Passes input (AgentEventKind.undeclared _) e = rw e (err-Passes _ _)

module _ (st : State) (keyed : IsKeyed st) (intended : is_intended st ≡ true) where
  dispatch_kind-Passes :
      (input : DispatchInput) (k : NodeKind)
      → Passes st (is_lawful st) (Decide.dispatch_kind st input k)
  unfolding Decide.dispatch_kind
  dispatch_kind-Passes input NodeKind.agent_task = decide_dispatch-Passes st keyed input
  dispatch_kind-Passes input NodeKind.verify = verify_dispatch-Passes st keyed input
  dispatch_kind-Passes input NodeKind.merge = merge_dispatch-Passes st keyed input
  dispatch_kind-Passes input NodeKind.final_verify =
      final_verify_dispatch-Passes st keyed input intended
  dispatch_kind-Passes input NodeKind.checkpoint = decide_checkpoint-Passes st keyed input
  dispatch_kind-Passes input NodeKind.review = err-Passes _ _
  dispatch_kind-Passes input (NodeKind.undeclared _) = err-Passes _ _

  routed_dispatch-Passes :
      (input : DispatchInput) → Passes st (is_lawful st) (Decide.decide_dispatch st input)
  unfolding Decide.decide_dispatch
  routed_dispatch-Passes input =
      then-Passes _ _ _ (need-Passes _ _ _ _ (λ node e. dispatch_kind-Passes input node.kind))

  module _ (distinct : has_distinct_keys st.attempts ≡ true) (codec : Codec) where
    result-Passes :
        (input : EffectResultInput) (k : EffectResultKind)
        → Passes st (is_lawful st) (Decide.decide_result_kind codec st input k)
    unfolding Decide.decide_result_kind
    result-Passes input EffectResultKind.attempt_ended = decide_attempt_ended-Passes st input keyed
    result-Passes input EffectResultKind.process_stopped =
        decide_process_stopped-Passes st keyed input
    result-Passes input EffectResultKind.apply_staging_succeeded = staging_result-Passes st input
    result-Passes input EffectResultKind.apply_staging_failed = staging_result-Passes st input
    result-Passes input EffectResultKind.apply_fast_forward_succeeded = apply_result-Passes st input
    result-Passes input EffectResultKind.apply_fast_forward_failed = apply_result-Passes st input
    result-Passes input EffectResultKind.cleanup_item_removed = cleanup_result-Passes st input
    result-Passes input EffectResultKind.cleanup_item_failed = cleanup_result-Passes st input
    result-Passes input EffectResultKind.planning_worktree_created = nothing-Passes st
    result-Passes input EffectResultKind.workspace_worktree_created = nothing-Passes st
    result-Passes input EffectResultKind.provider_run_ended =
        provider_run-Passes st keyed distinct intended codec input
    result-Passes input EffectResultKind.native_bootstrap_established = bootstrap-Passes st input
    result-Passes input EffectResultKind.artifact_written = written-Passes st intended codec input
    result-Passes input EffectResultKind.workflow_compiled = compiled-Passes st input
    result-Passes input EffectResultKind.integration_worktree_created =
        integration_worktree-Passes st intended input
    result-Passes input EffectResultKind.task_worktree_created = worktree-Passes st input
    result-Passes input EffectResultKind.verification_run_ended =
        verification_run-Passes st keyed input
    result-Passes input EffectResultKind.integration_merged =
        integration_merged-Passes st keyed input intended
    result-Passes input EffectResultKind.integration_merge_failed =
        integration_merge_failed-Passes st keyed input
    result-Passes input EffectResultKind.integration_rollbacked = rollbacked-Passes st keyed input
    result-Passes input EffectResultKind.workspace_merged =
        workspace_merged-Passes st keyed input intended
    result-Passes input EffectResultKind.workspace_merge_failed =
        workspace_merge_failed-Passes st keyed input
    result-Passes input EffectResultKind.workspace_rollbacked = rollbacked-Passes st keyed input
    result-Passes input EffectResultKind.git_audit_ref_created = nothing-Passes st
    result-Passes input EffectResultKind.layout_migration_completed = err-Passes _ _
    result-Passes input (EffectResultKind.undeclared _) = err-Passes _ _

    route-Passes : (input : Input) → Passes st (is_lawful st) (Decide.route codec st input)
    unfolding Decide.route Decide.decide_effect_result
    route-Passes (Input.workflow_command i) = decide_workflow-Passes st i keyed
    route-Passes Input.complete_workflow = complete-Passes st
    route-Passes (Input.effect_result i) = result-Passes i i.kind
    route-Passes Input.reconcile = decide_reconcile-Passes st keyed
    route-Passes (Input.discuss_requirement i) = discuss-Passes st i
    route-Passes (Input.prepare_native_discussion i) = prepare-Passes st i
    route-Passes (Input.native_discussion_return i) = return-Passes st i intended
    route-Passes (Input.continue_native_discussion i) = continue-Passes st i
    route-Passes (Input.switch_agent i) = switch-Passes st i
    route-Passes (Input.finish_discussion i) = finish-Passes st i
    route-Passes (Input.generate_plan i) = generate_plan-Passes st i intended
    route-Passes (Input.check_plan i) = check_plan-Passes st i
    route-Passes (Input.plan_approval i) = plan_approval-Passes st i intended
    route-Passes (Input.spec_generation i) = spec_generation-Passes st i
    route-Passes (Input.workflow_compilation i) = compilation-Passes st i
    route-Passes (Input.execution_dry_run i) = dry_run-Passes st i
    route-Passes (Input.execution_approval i) = execution_approval-Passes st i
    route-Passes (Input.adopt_workspace i) = adopt-Passes st intended i
    route-Passes (Input.graph_install i) = install-Passes st codec.context_reason i
    route-Passes (Input.dispatch i) = routed_dispatch-Passes i
    route-Passes (Input.policy_drift_settle i) = drift_settle-Passes st keyed i
    route-Passes (Input.commit_policy_approval i) = commit_policy-Passes st i
    route-Passes (Input.replacement_approval i) = replacement_approval-Passes st codec i
    route-Passes (Input.replacement_preview i) = replacement_preview-Passes st i
    route-Passes (Input.agent_event i) = agent_event-Passes st i i.kind refl
    route-Passes (Input.apply_command i) = apply-Passes st codec i
    route-Passes (Input.apply_policy_confirmation i) = policy_confirm-Passes st codec i
    route-Passes (Input.cleanup_command i) = cleanup-Passes st codec i
    route-Passes Input.foreign = err-Passes _ _

-- In a state with well-keyed Nodes and Attempts under distinct keys, where a RUNNING Attempt is its
-- Node's last, the Kernel's answer to any input is a fault or a Decision with lawful mutations only,
-- whose events are numbered consecutively from the next event number on and name the Workflow.
pub decide-Passes :
    (codec : Codec) (st : State) (input : Input)
    → IsKeyed st
    → has_distinct_keys st.attempts ≡ true
    → Passes st (is_lawful st) (Decide.decide codec st input)
unfolding Decide.decide is_intended
decide-Passes codec st input keyed distinct = guard-Passes _ _ _ _ (λ valid.
    route-Passes st keyed (valid-is_intended st (ground (arith, valid))) distinct codec input)
