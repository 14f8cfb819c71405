-- ===== src/Kernel/Merge.antt =====
-- The merge Node of internal/decision/verify.go: its allocation on either layout, the accepted merge,
-- the failed merge and the end of its rollback.
use cflow.Base.{String, [], ◌∷◌, ◌==◌, ◌||◌, not, leb, if◌then◌else◌}
use cflow.Base.Result.{Result, ok, ◌>>◌, ◌>>=◌, refuse, need}
use cflow.Model.WorkflowStage
use cflow.Model.WorkflowStage.{WorkflowStage}
use cflow.Model.NodeKind
use cflow.Model.NodeKind.{NodeKind}
use cflow.Model.NodeStatus.{NodeStatus}
use cflow.Model.AttemptOutcome.{AttemptOutcome}
use cflow.Model.EvidenceKind.{EvidenceKind}
use cflow.Model.Evidence.{EvidenceRef}
use cflow.Model.Code
use cflow.Model.Code.{Code}
use cflow.Model.Fault.{Fault, invalid_input, invariant_fault, new_fault}
use cflow.Model.Runtime.{Attempt, Node}
use cflow.Model.State.{State, node_at}
use cflow.Model.Effect.{EffectIntent}
use cflow.Model.Decision.{Decision, EventKind, Mutation, WorkflowMutation}
use cflow.Kernel.Input.{DispatchInput, EffectResultInput}
use cflow.Kernel.Builder.{Builder, ◌▸◌, done, new_builder, mutate, event, effect, wf_mut}
use cflow.Kernel.Lookup.{gate_open, is_allocatable, task_branch}
use cflow.Kernel.Attempt.{decide_attempt_ended, settle_node_succeeded}
use cflow.Kernel.Dispatch.{closed_gate}
use cflow.Kernel.Chain.{code_or, running_attempt, allocated, ended_input}
use cflow.Kernel.Verify.{accepted_attempt, chain_closed, task_node_of}

-- An allocation's Node and Attempt rows.
unfoldable pub start_merge : State → Node → String → Builder → Builder
start_merge st node base b =
    let a = allocated st node "" base in
    b
    ▸ mutate (Mutation.node_status node.id NodeStatus.running node.retry_charged)
    ▸ event EventKind.node_started node.id a.key Code.none_set "merge node started"
    ▸ mutate (Mutation.attempt_append a)
    ▸ event EventKind.attempt_created node.id a.key Code.none_set "merge attempt created"

-- The base of a merge into the Workspace: the verified head, or the observed one before adoption.
unfoldable pub workspace_base : State → DispatchInput → String
workspace_base st input =
    if st.workflow.verified_workspace_head == ""
    then input.base_head
    else st.workflow.verified_workspace_head

-- The merge of an accepted commit into the Workspace Branch, or into the Integration Branch.
unfoldable pub allocate_merge :
    State → Node → Node → Attempt → DispatchInput → Result Fault Decision
allocate_merge st node task task_attempt input =
    let base = workspace_base st input in
    let head = st.workflow.integration_head in
    let branch = task_branch st.workflow.id task.id in
    if leb 2 st.workflow.layout_version
    then refuse (base == "") (invariant_fault "merge allocation requires a workspace head")
      >> done (
          new_builder st
          ▸ start_merge st node base
          ▸ effect (EffectIntent.workspace_merge node.id base branch task_attempt.end_head))
    else refuse (head == "") (invalid_input "merge allocation requires a recorded integration head")
      >> done (
          new_builder st
          ▸ start_merge st node head
          ▸ effect (EffectIntent.integration_merge node.id head branch task_attempt.end_head))

unfoldable pub decide_merge_dispatch : State → DispatchInput → Result Fault Decision
decide_merge_dispatch st input = do
  refuse (st.workflow.id == "") (invalid_input "no workflow to dispatch")
  refuse (not (WorkflowStage.is_execution st.workflow.stage))
      (invalid_input "dispatch requires the EXECUTION stage")
  refuse (not (gate_open st)) closed_gate
  node ← need (node_at st.nodes input.node) (invalid_input "")
  refuse (not (NodeKind.is_merge node.kind)) (invalid_input "")
  refuse (not (is_allocatable node.status)) (invalid_input "")
  task ← task_node_of st node
  refuse (chain_closed st task) (
      new_fault Code.commit_during_policy_drift_window
        "the task branch is quarantined; the merge path is closed for it")
  task_attempt ← accepted_attempt st task
  allocate_merge st node task task_attempt input

-- The commit that a merge produced, as evidence on the delivery Branch.
unfoldable pub commit_evidence : EffectResultInput → String → EvidenceRef
commit_evidence input branch = record {
  kind = EvidenceKind.commit;
  hash = input.end_head;
  subject = branch;
}

unfoldable pub merged_end : Attempt → EffectResultInput → String → EffectResultInput
merged_end attempt input branch =
    let base = ended_input attempt.key AttemptOutcome.succeeded Code.none_set in
    record base {
      end_head = input.end_head;
      evidence = commit_evidence input branch;
      evidence_refs = commit_evidence input branch ∷ [];
    }

-- The Workflow row with nothing changed.
unfoldable pub same_row : State → WorkflowMutation
same_row st = wf_mut st st.workflow.stage st.workflow.runtime st.workflow.cancel_intent

unfoldable pub integration_row : State → String → WorkflowMutation
integration_row st head = let row = same_row st in record row { integration_head = head }

unfoldable pub verified_row : State → String → WorkflowMutation
verified_row st head = let row = same_row st in record row { verified_workspace_head = head }

-- The Node of a merge result, with the caller's text.
unfoldable pub merge_node : State → Attempt → String → Result Fault Node
merge_node st attempt text = do
  node ← need (node_at st.nodes attempt.key.node) (invariant_fault text)
  refuse (not (NodeKind.is_merge node.kind)) (invariant_fault text)
  ok node

unfoldable pub decide_integration_merged : State → EffectResultInput → Result Fault Decision
decide_integration_merged st input = do
  attempt ← running_attempt st input.attempt
  node ← merge_node st attempt "merge result references a non-merge node"
  refuse (input.end_head == "" || input.end_head == st.workflow.integration_head)
      (invariant_fault "merge result did not advance the integration head")
  done (
      new_builder st
      ▸ settle_node_succeeded st node attempt
          (merged_end attempt input st.workflow.integration_branch)
          (Mutation.workflow (integration_row st input.end_head) ∷ []))

unfoldable pub decide_workspace_merged : State → EffectResultInput → Result Fault Decision
decide_workspace_merged st input = do
  attempt ← running_attempt st input.attempt
  node ← merge_node st attempt "workspace merge result references a non-merge node"
  refuse (input.end_head == "" || input.end_head == st.workflow.verified_workspace_head)
      (invariant_fault "workspace merge result did not advance the verified workspace head")
  done (
      new_builder st
      ▸ settle_node_succeeded st node attempt
          (merged_end attempt input st.workflow.workspace_branch)
          (Mutation.workflow (verified_row st input.end_head) ∷ []))

-- A failed merge asks for the rollback; the Attempt settles when it is done.
unfoldable pub decide_integration_merge_failed : State → EffectResultInput → Result Fault Decision
decide_integration_merge_failed st input = do
  attempt ← running_attempt st input.attempt
  refuse (input.pre_merge_head == "") (invariant_fault "merge failure carries no pre-merge head")
  let code = code_or input.failure_code Code.merge_conflict
  done (
      new_builder st
      ▸ effect (EffectIntent.integration_rollback input.pre_merge_head attempt.key code))

unfoldable pub decide_workspace_merge_failed : State → EffectResultInput → Result Fault Decision
decide_workspace_merge_failed st input = do
  attempt ← running_attempt st input.attempt
  refuse (input.pre_merge_head == "")
      (invariant_fault "workspace merge failure carries no pre-merge head")
  let code = code_or input.failure_code Code.merge_conflict
  done (
      new_builder st
      ▸ effect (EffectIntent.workspace_rollback input.pre_merge_head attempt.key code))

unfoldable pub rolled_back : Attempt → EffectResultInput → EffectResultInput
rolled_back attempt input =
    let code = code_or input.failure_code Code.merge_conflict in
    let base = ended_input attempt.key AttemptOutcome.failed code in
    record base { evidence = input.evidence }

-- The body that `decideIntegrationRollbacked` and `decideWorkspaceRollbacked` both have.
unfoldable pub decide_rollbacked : State → EffectResultInput → Result Fault Decision
decide_rollbacked st input = do
  attempt ← running_attempt st input.attempt
  decide_attempt_ended st (rolled_back attempt input)
