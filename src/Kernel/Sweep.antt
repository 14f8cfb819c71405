-- ===== src/Kernel/Sweep.antt =====
-- `decideProcessStopped`, `decideReconcile` and `decideAgentEvent` of internal/decision/execution.go.
use cflow.Base.{Bool, true, false, none, some, [], ◌∷◌, ◌&&◌, not, if◌then◌else◌}
use cflow.Base.Result.{Result, err, ◌>>◌, ◌>>=◌, refuse, need}
use cflow.Base.{pos}
use cflow.Model.RuntimeStatus
use cflow.Model.RuntimeStatus.{RuntimeStatus}
use cflow.Model.RunStatus.{RunStatus}
use cflow.Model.ProcessStatus.{ProcessStatus}
use cflow.Model.Code
use cflow.Model.Code.{Code}
use cflow.Model.Fault.{Fault, invalid_input, new_fault}
use cflow.Model.Runtime.{no_attempt}
use cflow.Model.State.{State}
use cflow.Model.Decision.{Decision, EventKind, Mutation}
use cflow.Kernel.Input.{AgentEventInput, AgentEventKind, EffectResultInput}
use cflow.Kernel.Facts.{
  active_quiescing, active_run_stopping, any_failed_node, find_process, has_running_attempt,
  has_running_process, is_running_process,
}
use cflow.Kernel.Builder.{Builder, ◌▸◌, done, new_builder, mutate, note, stop_running_processes}
use cflow.Kernel.Settle.{
  pending_cancel, with_run, finish_cancel, converge_stopping, converge_quiescing, block_workflow,
  settle_orphan_process,
}

-- `state.Workflow.CancelIntent != nil || activeRunStopping(state)`
unfoldable pub is_stopping : State → Bool
is_stopping st = elim st.workflow.cancel_intent [ none ↦ active_run_stopping st | some _ ↦ true ]

-- What follows the end of the process itself.
unfoldable pub settle_stopped_process : State → EffectResultInput → Builder → Builder
settle_stopped_process st input b =
    if input.orphan
    then settle_orphan_process st input.process b
    else (let next = b ▸ stop_running_processes st (input.process ∷ []) in
        (if is_stopping st then next else b) ▸ converge_stopping st no_attempt input.process false)

unfoldable pub decide_process_stopped : State → EffectResultInput → Result Fault Decision
decide_process_stopped st input = do
  p ← need (find_process st input.process) (invalid_input "")
  refuse (not (is_running_process p)) (invalid_input "")
  done (
      new_builder st
      ▸ mutate (Mutation.process_end p.id ProcessStatus.stopped (pos 0) st.now)
      ▸ settle_stopped_process st input)

-- A RUNNING Workflow with a FAILED Node and nothing in flight is blocked.
unfoldable pub block_failed : State → Builder → Builder
block_failed st b =
    if RuntimeStatus.is_running st.workflow.runtime
      && any_failed_node st
      && not (has_running_attempt st)
    then b
      ▸ block_workflow st
      ▸ with_run st (λ r c.
        c
        ▸ mutate (Mutation.run r.id RunStatus.blocked false Code.none_set [])
        ▸ note EventKind.run_blocked "run blocked")
    else b

unfoldable pub sweep : State → Builder → Builder
sweep st b =
    if active_quiescing st && not (has_running_attempt st)
    then b ▸ converge_quiescing st
    else b ▸ converge_stopping st no_attempt "" false ▸ block_failed st

-- The input carries nothing.
unfoldable pub decide_reconcile : State → Result Fault Decision
decide_reconcile st =
    let b = new_builder st in
    done (elim (pending_cancel st) [
      | none ↦ sweep st b
      | some intent ↦
          if not (has_running_attempt st) && not (has_running_process st)
          then finish_cancel st intent b
          else sweep st b
    ])

-- The switch over the kind of an Agent Event: the state is never read.
unfoldable pub decide_agent_event : State → AgentEventInput → Result Fault Decision
decide_agent_event st input = elim input.kind [
  | AgentEventKind.claims_complete ↦ err (
      new_fault Code.untrusted_completion
        "agent output cannot complete a Node; completion requires Runtime-judged evidence")
  | AgentEventKind.undeclared _ ↦ err (invalid_input "unsupported agent event")
]
