-- ===== src/Kernel/Settle.antt =====
-- The settlement protocols of internal/decision/execution.go: the end of a cancel, of a quiesce and
-- of a controlled stop, and the closing of dispatch after a blocking failure.
use cflow.Base.{
  Bool, true, false, String, Option, none, some, List, [], ◌∷◌, map, ◌&&◌, ◌||◌, not, if◌then◌else◌,
  length, decimal, ◌+◌, ◌&◌,
}
use cflow.Model.RuntimeStatus
use cflow.Model.RuntimeStatus.{RuntimeStatus}
use cflow.Model.NodeStatus
use cflow.Model.NodeStatus.{NodeStatus}
use cflow.Model.AttemptStatus
use cflow.Model.AttemptStatus.{AttemptStatus}
use cflow.Model.RunStatus
use cflow.Model.RunStatus.{RunStatus}
use cflow.Model.Code
use cflow.Model.Code.{Code}
use cflow.Model.FaultScope.{FaultScope}
use cflow.Model.Evidence.{no_evidence}
use cflow.Model.Runtime.{AttemptKey, no_attempt, Attempt, Run, Finding}
use cflow.Model.State.{State, CancelIntent, node_at, attempt_at}
use cflow.Model.Decision.{EventKind, Mutation}
use cflow.Kernel.Facts.{
  active_run, has_running_attempt_except, has_running_process, has_running_process_except,
  has_blocking_finding, sorted_attempt_keys, sorted_node_ids, running_snapshot,
}
use cflow.Kernel.Builder.{Builder, ◌▸◌, mutate, event, note, wf_mut, wf_mut_status}

-- `fmt.Sprintf("finding-%d", len(state.Findings)+1)`
unfoldable pub next_finding_id : State → String
next_finding_id st = "finding-" & decimal (length st.findings + 1)

-- The cancel intent that is still to be completed, at which the code calls `finishCancel`.
unfoldable pub pending_cancel : State → Option CancelIntent
pending_cancel st =
    if RuntimeStatus.is_terminal st.workflow.runtime then none else st.workflow.cancel_intent

-- `if run := activeRun(state); run != nil && !run.Status.IsTerminal() { … }`
unfoldable pub with_run : State → (Run → Builder → Builder) → Builder → Builder
with_run st f b = elim (active_run st) [
  | none ↦ b
  | some r ↦ if RunStatus.is_terminal r.status then b else f r b
]

-- The first loop of `finishCancel`.
unfoldable pub cancel_nodes : State → List String → Builder → Builder
cancel_nodes st [] b = b
cancel_nodes st (id ∷ ids) b = cancel_nodes st ids (elim (node_at st.nodes id) [
  | none ↦ b
  | some n ↦
      if NodeStatus.is_terminal n.status
      then b
      else b
        ▸ mutate (Mutation.node_status n.id NodeStatus.cancelled n.retry_charged)
        ▸ event EventKind.node_cancelled n.id no_attempt Code.none_set "node cancelled"
])

-- The second loop of `finishCancel`.
unfoldable pub cancel_attempts : State → List AttemptKey → Builder → Builder
cancel_attempts st [] b = b
cancel_attempts st (k ∷ ks) b = cancel_attempts st ks (elim (attempt_at st.attempts k) [
  | none ↦ b
  | some a ↦
      if not (AttemptStatus.is_terminal a.status) && not (AttemptStatus.is_running a.status)
      then b
        ▸ mutate
            (Mutation.attempt_end k AttemptStatus.cancelled "" "" Code.none_set [] false st.now)
        ▸ event EventKind.attempt_cancelled k.node k Code.none_set "attempt cancelled"
      else b
])

unfoldable pub finish_cancel : State → CancelIntent → Builder → Builder
finish_cancel st intent b =
    b
    ▸ mutate (Mutation.workflow (wf_mut st st.workflow.stage RuntimeStatus.cancelled (some intent)))
    ▸ with_run st (λ r c.
      c
      ▸ mutate (Mutation.run r.id RunStatus.cancelled false Code.none_set [])
      ▸ note EventKind.run_cancelled "run cancelled")
    ▸ cancel_nodes st (sorted_node_ids st)
    ▸ cancel_attempts st (sorted_attempt_keys (map (λ (e : AttemptKey × Attempt). e.0) st.attempts))
    ▸ note EventKind.workflow_cancelled "workflow cancelled"

-- The Workflow's own part of the convergence of a stop.
unfoldable pub settle_stopped : State → Run → Builder → Builder
settle_stopped st run b =
    let c =
      b
      ▸ mutate (Mutation.run run.id RunStatus.interrupted false run.stop_reason [])
      ▸ note EventKind.run_interrupted "run interrupted" in
    if has_blocking_finding st
    then c
      ▸ mutate (Mutation.workflow (wf_mut_status st RuntimeStatus.blocked))
      ▸ note EventKind.workflow_blocked "workflow blocked after the stop"
    else c
      ▸ mutate (Mutation.workflow (wf_mut_status st RuntimeStatus.paused))
      ▸ note EventKind.workflow_paused "workflow paused after the stop"

unfoldable pub converge_stopping : State → AttemptKey → String → Bool → Builder → Builder
converge_stopping st attempt process transitioning b = elim (active_run st) [
  | none ↦ b
  | some run ↦
      if not transitioning && not (RunStatus.is_stopping run.status)
      then b
      else if has_running_process_except st process || has_running_attempt_except st attempt
      then b
      else elim (pending_cancel st) [
        | some intent ↦ finish_cancel st intent b
        | none ↦ settle_stopped st run b
      ]
]

-- It is called only where a Run is active; on nil the code panics, and nothing is appended here.
unfoldable pub converge_quiescing : State → Builder → Builder
converge_quiescing st b = elim (active_run st) [
  | none ↦ b
  | some run ↦
      b
      ▸ mutate (Mutation.run run.id RunStatus.blocked false Code.none_set [])
      ▸ note EventKind.run_blocked "run blocked after quiescing"
      ▸ mutate (Mutation.workflow (wf_mut_status st RuntimeStatus.blocked))
      ▸ note EventKind.workflow_blocked "workflow blocked"
      ▸ note EventKind.workflow_quiesced "quiescing converged"
]

-- `run != nil && run.Status == model.RunQuiescing && !hasRunningAttemptExcept(state, ended)`
unfoldable pub settle_run : State → AttemptKey → Builder → Builder
settle_run st ended b = elim (active_run st) [
  | none ↦ converge_stopping st ended "" false b
  | some run ↦
      if RunStatus.is_quiescing run.status && not (has_running_attempt_except st ended)
      then converge_quiescing st b
      else converge_stopping st ended "" false b
]

unfoldable pub settle_after_attempt_end : State → AttemptKey → Builder → Builder
settle_after_attempt_end st ended b =
    if not (has_running_attempt_except st ended) && not (has_running_process st)
    then elim (pending_cancel st) [
      | some intent ↦ finish_cancel st intent b
      | none ↦ settle_run st ended b
    ]
    else settle_run st ended b

-- Block the Workflow: the mutation and its event.
unfoldable pub block_workflow : State → Builder → Builder
block_workflow st b =
    b
    ▸ mutate (Mutation.workflow (wf_mut_status st RuntimeStatus.blocked))
    ▸ note EventKind.workflow_blocked "workflow blocked"

unfoldable pub close_dispatch_for_failure : State → AttemptKey → Builder → Builder
close_dispatch_for_failure st exclude b = elim (active_run st) [
  | none ↦ block_workflow st b
  | some run ↦
      if RunStatus.is_terminal run.status
      then block_workflow st b
      else if has_running_attempt_except st exclude
      then b
        ▸ mutate (
            Mutation.run run.id RunStatus.quiescing false Code.none_set
              (running_snapshot st exclude))
        ▸ note EventKind.run_quiescing "run quiescing"
        ▸ note EventKind.workflow_quiesce_requested "quiesce requested"
      else b
        ▸ mutate (Mutation.run run.id RunStatus.blocked false Code.none_set [])
        ▸ note EventKind.run_blocked "run blocked"
        ▸ block_workflow st
]

-- The fact of a process that survived the forced stop.
unfoldable pub settle_orphan_process : State → String → Builder → Builder
settle_orphan_process st process b =
    let (code, scope) : Code × FaultScope = elim (pending_cancel st) [
      | none ↦ (Code.orphan_child_process, FaultScope.run)
      | some _ ↦ (Code.cancel_pending_orphan_process, FaultScope.workflow)
    ] in
    let finding : Finding = record {
      id = next_finding_id st;
      code = code;
      scope = scope;
      subject = process;
      blocking = true;
      text = Code.spell code;
      evidence = no_evidence;
      seq = st.next_event_seq;
    } in
    b
    ▸ mutate (Mutation.finding_append finding)
    ▸ event EventKind.finding_opened "" no_attempt code "orphan process finding"
    ▸ with_run st (λ r c.
      c
      ▸ mutate (Mutation.run r.id RunStatus.interrupted false Code.none_set [])
      ▸ note EventKind.run_interrupted "run interrupted by an orphan process")
    ▸ mutate (Mutation.workflow (wf_mut_status st RuntimeStatus.blocked))
    ▸ note EventKind.workflow_blocked "workflow blocked by an orphan process"
