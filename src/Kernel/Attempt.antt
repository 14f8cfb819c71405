-- ===== src/Kernel/Attempt.antt =====
-- The end of an Attempt: `decideAttemptEnded` of internal/decision/execution.go with what it calls,
-- `settleNodeSucceeded` and `evidenceOf` of verify.go.
use cflow.Base.{
  ℕ, Bool, true, false, String, Option, none, some, List, [], ◌∷◌, ◌==◌, ◌&&◌, ◌||◌, not, ◌+◌, ltb,
  leb, any, if◌then◌else◌,
}
use cflow.Base.Result.{Result, err, ◌>>◌, ◌>>=◌, refuse, need}
use cflow.Model.NodeKind
use cflow.Model.NodeKind.{NodeKind}
use cflow.Model.NodeStatus.{NodeStatus}
use cflow.Model.AttemptStatus
use cflow.Model.AttemptStatus.{AttemptStatus}
use cflow.Model.AttemptOutcome.{AttemptOutcome}
use cflow.Model.AgentPurpose
use cflow.Model.AgentPurpose.{AgentPurpose}
use cflow.Model.RunStatus
use cflow.Model.RunStatus.{RunStatus}
use cflow.Model.Code
use cflow.Model.Code.{Code}
use cflow.Model.Evidence
use cflow.Model.Evidence.{EvidenceRef, no_evidence}
use cflow.Model.Fault.{Fault, FaultPolicy, policy, policy_or_zero, invalid_input, invariant_fault}
use cflow.Model.Runtime.{AttemptKey, Attempt, Finding, Node, Run, Session}
use cflow.Model.State.{State, node_at, attempt_at}
use cflow.Model.Decision.{Decision, EventKind, Mutation}
use cflow.Kernel.Input.{EffectResultInput}
use cflow.Kernel.Facts.{
  active_quiescing, active_run, branch_quarantined, has_running_attempt_except, has_running_process,
}
use cflow.Kernel.Builder.{
  Builder, ◌▸◌, done, new_builder, mutate, mutate_all, event, note, stop_running_processes,
}
use cflow.Kernel.Settle.{
  next_finding_id, pending_cancel, finish_cancel, converge_stopping, settle_after_attempt_end,
  close_dispatch_for_failure,
}

-- `evidenceOf`: the evidence list that an Attempt's end records.
unfoldable pub evidence_of : EffectResultInput → List EvidenceRef
evidence_of input = elim input.evidence_refs [
  | e ∷ es ↦ e ∷ es
  | [] ↦ if Evidence.same input.evidence no_evidence then [] else input.evidence ∷ []
]

-- The mutation of an Attempt's end with the facts that the input carries.
unfoldable pub end_of : State → Attempt → EffectResultInput → AttemptStatus → Code → Bool → Mutation
end_of st attempt input status code charged =
    Mutation.attempt_end attempt.key status input.end_head input.end_dirty_fingerprint code
      (evidence_of input) charged st.now

unfoldable pub settle_node_succeeded :
    State → Node → Attempt → EffectResultInput → List Mutation → Builder → Builder
settle_node_succeeded st node attempt input extra b =
    b
    ▸ mutate (end_of st attempt input AttemptStatus.succeeded Code.none_set false)
    ▸ event EventKind.attempt_succeeded node.id attempt.key Code.none_set "attempt succeeded"
    ▸ mutate (Mutation.node_status node.id NodeStatus.succeeded node.retry_charged)
    ▸ event EventKind.node_succeeded node.id attempt.key Code.none_set "node succeeded"
    ▸ mutate_all extra
    ▸ settle_after_attempt_end st attempt.key

-- The loop of `priorAttemptEndHead`, with its best number and end so far.
unfoldable pub prior_end : String → ℕ → List (AttemptKey × Attempt) → ℕ → String → String
prior_end node number [] best end = end
prior_end node number ((k, a) ∷ rest) best end =
    let skip = not (k.node == node) || leb number k.number in
    let skips = skip || not (AttemptStatus.is_terminal a.status) in
    let better = not (a.end_head == "") && (end == "" || ltb best k.number) in
    let keeps = skips || not better in
    prior_end node number rest (if keeps then best else k.number)
      (if keeps then end else a.end_head)

unfoldable pub prior_attempt_end_head : State → String → ℕ → String
prior_attempt_end_head st node number = prior_end node number st.attempts 0 ""

unfoldable pub is_repair_session : String → Session → Bool
is_repair_session id s = s.id == id && AgentPurpose.is_repair s.purpose

unfoldable pub repair_clean_end_accepted : State → Attempt → Node → Bool
repair_clean_end_accepted st attempt node =
    if attempt.start_head == ""
    then false
    else if not (any (is_repair_session attempt.session) st.sessions)
    then false
    else (let prior = prior_attempt_end_head st node.id attempt.key.number in
        not (prior == "") && not (prior == node.base_commit))

-- A failure's Finding; its text is the code's.
unfoldable pub failure_finding :
    State → Node → EffectResultInput → Code → FaultPolicy → Bool → Finding
failure_finding st node input code pol blocking = record {
  id = next_finding_id st;
  code = code;
  scope = pol.scope;
  subject = node.id;
  blocking = blocking;
  text = Code.spell code;
  evidence = input.evidence;
  seq = st.next_event_seq;
}

-- The Attempt that a budgeted retry appends.
unfoldable pub successor : State → Node → Attempt → EffectResultInput → Attempt
successor st node attempt input = record {
  key = record { node = node.id; number = attempt.key.number + 1 };
  session = input.successor_session.id;
  status = AttemptStatus.ready;
  start_head = input.end_head;
  start_dirty_fingerprint = "";
  end_head = "";
  end_dirty_fingerprint = "";
  failure_code = Code.none_set;
  evidence = [];
  retry_charged = false;
  started_at = st.now;
  ended_at = 0;
}

-- The three ends of `decideAttemptFailure`: the budgeted retry,
unfoldable pub retry_attempt :
    State → Node → Attempt → EffectResultInput → Code → FaultPolicy → Builder → Builder
retry_attempt st node attempt input code pol b =
    let next = successor st node attempt input in
    b
    ▸ mutate (end_of st attempt input AttemptStatus.failed code pol.retry.charges_budget)
    ▸ event EventKind.attempt_failed node.id attempt.key code "attempt failed"
    ▸ mutate (Mutation.node_status node.id NodeStatus.ready (node.retry_charged + 1))
    ▸ event EventKind.node_ready node.id attempt.key Code.none_set "node ready for retry"
    ▸ mutate (Mutation.attempt_append next)
    ▸ event EventKind.attempt_created node.id next.key Code.none_set "successor attempt created"

-- the retry that a quiesce or a cancel defers,
unfoldable pub defer_retry :
    State → Node → Attempt → EffectResultInput → Code → FaultPolicy → Builder → Builder
defer_retry st node attempt input code pol b =
    b
    ▸ mutate (end_of st attempt input AttemptStatus.failed code false)
    ▸ event EventKind.attempt_failed node.id attempt.key code "attempt failed; retry deferred"
    ▸ mutate (Mutation.node_status node.id NodeStatus.ready node.retry_charged)
    ▸ event EventKind.node_ready node.id attempt.key Code.none_set "node ready; retry deferred"
    ▸ mutate (Mutation.finding_append (failure_finding st node input code pol false))
    ▸ event EventKind.finding_opened node.id attempt.key code "failure finding"
    ▸ settle_after_attempt_end st attempt.key

-- and the blocking failure.
unfoldable pub block_attempt :
    State → Node → Attempt → EffectResultInput → Code → FaultPolicy → Builder → Builder
block_attempt st node attempt input code pol b =
    let finding_code = if pol.retry.allows_successor then Code.retry_exhausted else code in
    b
    ▸ mutate (end_of st attempt input AttemptStatus.failed code pol.retry.charges_budget)
    ▸ event EventKind.attempt_failed node.id attempt.key code "attempt failed"
    ▸ mutate (Mutation.node_status node.id NodeStatus.failed node.retry_charged)
    ▸ event EventKind.node_failed node.id attempt.key finding_code "node failed"
    ▸ mutate (Mutation.finding_append (failure_finding st node input finding_code pol true))
    ▸ event EventKind.finding_opened node.id attempt.key finding_code "blocking finding"
    ▸ close_dispatch_for_failure st attempt.key

-- `state.Workflow.CancelIntent != nil && !state.Workflow.Runtime.IsTerminal()`
unfoldable pub is_cancelling : State → Bool
is_cancelling st = elim (pending_cancel st) [ none ↦ false | some _ ↦ true ]

-- The choice between the three, once the code and its policy are settled.
unfoldable pub settle_failure :
    State → Node → Attempt → EffectResultInput → Code → FaultPolicy → Bool → Builder → Builder
settle_failure st node attempt input code pol quarantined b =
    let retryable = pol.retry.allows_successor && ltb node.retry_charged node.retry_budget in
    let held = active_quiescing st || is_cancelling st in
    if retryable && not held && not quarantined
    then retry_attempt st node attempt input code pol b
    else if retryable && held
    then defer_retry st node attempt input code pol b
    else block_attempt st node attempt input code pol b

-- A quarantined Branch replaces the code, and its policy with it.
unfoldable pub decide_attempt_failure :
    State → Node → Attempt → EffectResultInput → Code → Builder → Result Fault Decision
decide_attempt_failure st node attempt input code b = do
  pol ← need (policy code) (invalid_input "")
  let drift = Code.commit_during_policy_drift_window
  let quarantined = branch_quarantined st node.branch
  let settled_code = if quarantined then drift else code
  let settled_pol = if quarantined then policy_or_zero drift else pol
  done (settle_failure st node attempt input settled_code settled_pol quarantined b)

-- The controlled stop that an interruption opens on an active Run.
unfoldable pub open_stop : State → Attempt → EffectResultInput → Run → Builder → Builder
open_stop st attempt input run b =
    let stopping = RunStatus.is_stopping run.status in
    let safety = Code.same input.failure_code Code.commit_policy_safety_stop_requested in
    let reason = if safety then Code.commit_policy_drift else Code.user_interrupted in
    let kind =
      if safety
      then EventKind.commit_policy_safety_stop_requested
      else EventKind.controlled_stop_requested in
    let stopped =
      b
      ▸ mutate (Mutation.run run.id RunStatus.stopping false reason [])
      ▸ note kind "stop requested"
      ▸ note EventKind.run_stopped "run stopping"
      ▸ stop_running_processes st [] in
    (if stopping then b else stopped) ▸ converge_stopping st attempt.key "" (not stopping)

-- The Node of an interrupted Attempt is READY again, with the same charge.
unfoldable pub make_ready : State → Node → Attempt → Builder → Builder
make_ready st node attempt b =
    b
    ▸ mutate (Mutation.node_status node.id NodeStatus.ready node.retry_charged)
    ▸ event EventKind.node_ready node.id attempt.key Code.none_set "node ready"

-- The end of an interruption with no cancel to complete.
unfoldable pub ready_and_stop : State → Node → Attempt → EffectResultInput → Builder → Builder
ready_and_stop st node attempt input b =
    let ready = make_ready st node attempt b in
    elim (active_run st) [
      | none ↦ ready
      | some run ↦
          if RunStatus.is_terminal run.status then ready else open_stop st attempt input run ready
    ]

unfoldable pub end_interrupted : State → Node → Attempt → EffectResultInput → Builder → Builder
end_interrupted st node attempt input b =
    b
    ▸ mutate (end_of st attempt input AttemptStatus.interrupted input.failure_code false)
    ▸ event EventKind.attempt_interrupted node.id attempt.key Code.none_set "attempt interrupted"

unfoldable pub settle_interrupted : State → Node → Attempt → EffectResultInput → Builder → Builder
settle_interrupted st node attempt input b =
    let ended = end_interrupted st node attempt input b in
    elim (pending_cancel st) [
      | some intent ↦
          if not (has_running_attempt_except st attempt.key) && not (has_running_process st)
          then finish_cancel st intent ended
          else ended
      | none ↦ ready_and_stop st node attempt input ended
    ]

-- The evidence gate of a coding Attempt: the code that fails a reported success.
unfoldable pub evidence_gate : State → Node → Attempt → EffectResultInput → Option Code
evidence_gate st node attempt input =
    if not (NodeKind.is_agent_task node.kind)
    then none
    else if not (input.end_dirty_fingerprint == "")
    then some Code.dirty_task_worktree
    else if (input.end_head == "" || input.end_head == attempt.start_head)
        && not (repair_clean_end_accepted st attempt node)
    then some Code.missing_implementation_commit
    else none

-- The switch over the outcome.
unfoldable pub settle_outcome :
    State → Node → Attempt → EffectResultInput → AttemptOutcome → Result Fault Decision
settle_outcome st node attempt input AttemptOutcome.interrupted =
    done (settle_interrupted st node attempt input (new_builder st))
settle_outcome st node attempt input AttemptOutcome.succeeded =
    elim (evidence_gate st node attempt input) [
      | some code ↦ decide_attempt_failure st node attempt input code (new_builder st)
      | none ↦
          refuse (Evidence.same input.evidence no_evidence)
            (invalid_input "attempt success requires evidence")
          >> done (settle_node_succeeded st node attempt input [] (new_builder st))
    ]
settle_outcome st node attempt input AttemptOutcome.failed =
    refuse (not (Code.is_set input.failure_code))
      (invalid_input "failed attempt requires a failure code")
    >> (if Code.same input.failure_code Code.user_interrupted
        then done (settle_interrupted st node attempt input (new_builder st))
        else decide_attempt_failure st node attempt input input.failure_code (new_builder st))
settle_outcome st node attempt input (AttemptOutcome.undeclared _) =
    err (invalid_input "invalid attempt outcome")

unfoldable pub decide_attempt_ended : State → EffectResultInput → Result Fault Decision
decide_attempt_ended st input = do
  attempt ← need (attempt_at st.attempts input.attempt) (invalid_input "")
  refuse (not (AttemptStatus.is_running attempt.status)) (invalid_input "")
  node ← need (node_at st.nodes input.attempt.node) (invariant_fault "")
  settle_outcome st node attempt input input.outcome
