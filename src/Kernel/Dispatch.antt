-- ===== src/Kernel/Dispatch.antt =====
-- The allocation of a Node: `decideDispatchAgentTask`, `decideCheckpointDispatch` and
-- `decideTaskWorktreeCreated` of internal/decision/dispatch.go whose lookups stand in Lookup.antt.
use cflow.Base.{false, String, [], ◌==◌, ◌&&◌, ◌||◌, not, ltb, if◌then◌else◌, pos}
use cflow.Base.Result.{Result, ◌>>◌, ◌>>=◌, refuse, need}
use cflow.Model.WorkflowStage
use cflow.Model.WorkflowStage.{WorkflowStage}
use cflow.Model.NodeKind
use cflow.Model.NodeKind.{NodeKind}
use cflow.Model.NodeStatus
use cflow.Model.NodeStatus.{NodeStatus}
use cflow.Model.AttemptStatus.{AttemptStatus}
use cflow.Model.SessionStatus.{SessionStatus}
use cflow.Model.ProcessStatus.{ProcessStatus}
use cflow.Model.FaultScope.{FaultScope}
use cflow.Model.Code
use cflow.Model.Code.{Code}
use cflow.Model.Evidence.{no_evidence}
use cflow.Model.Fault.{Fault, invalid_input, new_fault}
use cflow.Model.Runtime.{no_attempt, Attempt, Finding, Node, ProcessRecord, Session}
use cflow.Model.State.{State, node_at}
use cflow.Model.Effect.{EffectIntent}
use cflow.Model.Decision.{Decision, EventKind, Mutation}
use cflow.Kernel.Input.{DispatchInput}
use cflow.Kernel.Builder.{Builder, ◌▸◌, done, new_builder, mutate, event, effect}
use cflow.Kernel.Settle.{next_finding_id}
use cflow.Kernel.Lookup.{gate_open, is_allocatable, next_attempt_number, task_branch}
use cflow.Kernel.SessionPick.{SessionChoice, task_base, choose_session}

unfoldable pub checkpoint_finding : State → Node → Finding
checkpoint_finding st node = record {
  id = next_finding_id st;
  code = Code.not_yet_available;
  scope = FaultScope.workflow;
  subject = node.id;
  blocking = false;
  text =
      "checkpoint observation reached; the checkpoint agent session dispatch lands with a later task";
  evidence = no_evidence;
  seq = st.next_event_seq;
}

unfoldable pub closed_gate : Fault
closed_gate = new_fault Code.dispatch_gate_closed "dispatch gate is closed; no new node may start"

unfoldable pub decide_checkpoint_dispatch : State → DispatchInput → Result Fault Decision
decide_checkpoint_dispatch st input = do
  refuse (st.workflow.id == "") (invalid_input "no workflow to dispatch")
  refuse
      (not (
        WorkflowStage.is_execution st.workflow.stage
        || WorkflowStage.is_final_verification st.workflow.stage))
      (invalid_input "checkpoint dispatch requires the EXECUTION or FINAL_VERIFICATION stage")
  refuse (not (gate_open st)) closed_gate
  node ← need (node_at st.nodes input.node) (invalid_input "")
  refuse (not (NodeKind.is_checkpoint node.kind)) (invalid_input "")
  refuse (not (is_allocatable node.status)) (invalid_input "")
  done (
      new_builder st
      ▸ mutate (Mutation.node_status node.id NodeStatus.succeeded node.retry_charged)
      ▸ event EventKind.node_succeeded node.id no_attempt Code.none_set "checkpoint reached"
      ▸ mutate (Mutation.finding_append (checkpoint_finding st node))
      ▸ event EventKind.finding_opened node.id no_attempt Code.not_yet_available
          "checkpoint observation recorded")

unfoldable pub started_attempt : State → Node → SessionChoice → String → Attempt
started_attempt st node c base = record {
  key = record { node = node.id; number = next_attempt_number st node.id };
  session = c.session;
  status = AttemptStatus.running;
  start_head = base;
  start_dirty_fingerprint = "";
  end_head = "";
  end_dirty_fingerprint = "";
  failure_code = Code.none_set;
  evidence = [];
  retry_charged = false;
  started_at = st.now;
  ended_at = 0;
}

-- The Session row of a fresh Session; the provider stands beside it.
unfoldable pub append_session : SessionChoice → DispatchInput → Builder → Builder
append_session c input b =
    let s : Session = record {
      id = c.session;
      provider_session_id = "";
      purpose = c.purpose;
      status = SessionStatus.starting;
      supersedes = "";
      provider = "";
      context_bundle_revision = 0;
      context_bundle_path = "";
      context_bundle_sha256 = "";
    } in
    if c.reuse || c.resume then b else b ▸ mutate (Mutation.session_append s input.route)

unfoldable pub append_process : State → SessionChoice → DispatchInput → Builder → Builder
append_process st c input b =
    let p : ProcessRecord = record {
      id = input.process;
      session = c.session;
      purpose = c.purpose;
      status = ProcessStatus.running;
      exit_code = pos 0;
      started_at = st.now;
      ended_at = 0;
    } in
    if input.process == "" then b else b ▸ mutate (Mutation.process_append p)

unfoldable pub start_effect :
    State → Node → SessionChoice → DispatchInput → String → Builder → Builder
start_effect st node c input base b =
    if NodeStatus.is_pending node.status
    then b
      ▸ mutate (Mutation.task node.id base "")
      ▸ effect (EffectIntent.task_worktree_create node.id (task_branch st.workflow.id node.id) base)
    else if c.resume
    then b ▸ effect (EffectIntent.provider_resume c.session c.purpose input.process)
    else b
      ▸ effect
          (EffectIntent.provider_start c.session c.purpose input.route "" node.id input.process)

-- The Decision of an allocation that passed every guard.
unfoldable pub allocate : State → Node → SessionChoice → DispatchInput → String → Builder → Builder
allocate st node c input base b =
    let a = started_attempt st node c base in
    b
    ▸ mutate (Mutation.node_status node.id NodeStatus.running node.retry_charged)
    ▸ event EventKind.node_ready node.id a.key Code.none_set "node ready"
    ▸ event EventKind.node_started node.id a.key Code.none_set "node started"
    ▸ append_session c input
    ▸ mutate (Mutation.attempt_append a)
    ▸ event EventKind.attempt_created node.id a.key Code.none_set "attempt created"
    ▸ append_process st c input
    ▸ start_effect st node c input base

unfoldable pub decide_dispatch_agent_task : State → DispatchInput → Result Fault Decision
decide_dispatch_agent_task st input = do
  refuse (st.workflow.id == "") (invalid_input "no workflow to dispatch")
  refuse (not (WorkflowStage.is_execution st.workflow.stage))
      (invalid_input "dispatch requires the EXECUTION stage")
  refuse (not (gate_open st)) closed_gate
  node ← need (node_at st.nodes input.node) (invalid_input "")
  refuse (not (NodeKind.is_agent_task node.kind)) (invalid_input "")
  refuse (not (is_allocatable node.status)) (invalid_input "")
  refuse (NodeStatus.is_ready node.status && ltb node.retry_budget node.retry_charged)
      (invalid_input "")
  refuse (input.session == "" || input.route == "")
      (invalid_input "allocation requires a session identity and an approved route")
  base ← task_base node input
  c ← choose_session st node input
  done (allocate st node c input base (new_builder st))
