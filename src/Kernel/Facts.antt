-- ===== src/Kernel/Facts.antt =====
-- The questions that internal/decision/kernel.go asks of the aggregate, and those of planning.go,
-- safety.go and verify.go that its decisions share.
use cflow.Base.{
  Bool, true, false, String, Option, none, some, List, map, ◌==◌, ◌&&◌, ◌||◌, not, any, find, sort,
  keep, text_lt, ltb, eqb, if◌then◌else◌,
}
use cflow.Model.AttemptStatus
use cflow.Model.RunStatus
use cflow.Model.NodeStatus
use cflow.Model.ProcessStatus
use cflow.Model.ApplyStatus
use cflow.Model.Code.{Code}
use cflow.Model.Artifact.{Approval}
use cflow.Model.Runtime.{
  AttemptKey, same_key, Node, Attempt, Run, Session, ProcessRecord, Finding, Quarantine,
  ApplyAttempt,
}
use cflow.Model.State.{State}

unfoldable pub is_active : Run → Bool
unfolding RunStatus.is_terminal
is_active r = not (RunStatus.is_terminal r.status)

-- The first Run whose status is not terminal.
unfoldable pub active_run : State → Option Run
unfolding find is_active
active_run st = find is_active st.runs

unfoldable pub active_quiescing : State → Bool
unfolding active_run RunStatus.is_quiescing
active_quiescing st = elim (active_run st) [
  | none ↦ false
  | some r ↦ RunStatus.is_quiescing r.status
]

unfoldable pub active_run_stopping : State → Bool
unfolding active_run RunStatus.is_stopping
active_run_stopping st = elim (active_run st) [
  | none ↦ false
  | some r ↦ RunStatus.is_stopping r.status
]

unfoldable pub is_running_attempt : AttemptKey × Attempt → Bool
unfolding AttemptStatus.is_running
is_running_attempt e = AttemptStatus.is_running e.1.status

unfoldable pub has_running_attempt : State → Bool
unfolding any is_running_attempt
has_running_attempt st = any is_running_attempt st.attempts

-- `k != exclude && a.Status == model.AttemptRunning`
unfoldable pub is_other_running : AttemptKey → AttemptKey × Attempt → Bool
unfolding same_key is_running_attempt
is_other_running exclude e = not (same_key e.0 exclude) && is_running_attempt e

unfoldable pub has_running_attempt_except : State → AttemptKey → Bool
unfolding any is_other_running
has_running_attempt_except st exclude = any (is_other_running exclude) st.attempts

unfoldable pub is_running_process : ProcessRecord → Bool
unfolding ProcessStatus.is_running
is_running_process p = ProcessStatus.is_running p.status

unfoldable pub has_running_process : State → Bool
unfolding any is_running_process
has_running_process st = any is_running_process st.processes

unfoldable pub has_running_process_except : State → String → Bool
unfolding any is_running_process
has_running_process_except st exclude =
    any (λ (p : ProcessRecord). not (p.id == exclude) && is_running_process p) st.processes

unfoldable pub has_active_apply : State → Bool
unfolding any ApplyStatus.is_active
has_active_apply st = any (λ (a : ApplyAttempt). ApplyStatus.is_active a.status) st.apply_attempts

-- The codes of the `switch` of `projectMutationQuarantined`.
quarantines_project : Code → Bool
quarantines_project Code.orphan_child_process = true
quarantines_project Code.cancel_pending_orphan_process = true
quarantines_project Code.commit_during_policy_drift_window = true
quarantines_project Code.insecure_cflow_home_permissions = true
quarantines_project _ = false

unfoldable pub project_mutation_quarantined : State → Bool
unfolding any quarantines_project
project_mutation_quarantined st =
    any (λ (q : Quarantine). true) st.quarantines
    || any (λ (f : Finding). f.blocking && quarantines_project f.code) st.findings

unfoldable pub has_blocking_finding : State → Bool
unfolding any
has_blocking_finding st = any (λ (f : Finding). f.blocking) st.findings

unfoldable pub any_failed_node : State → Bool
unfolding any NodeStatus.is_failed
any_failed_node st = any (λ (e : String × Node). NodeStatus.is_failed e.1.status) st.nodes

unfoldable pub branch_quarantined : State → String → Bool
unfolding any
branch_quarantined st branch = any (λ (q : Quarantine). q.branch == branch) st.quarantines

unfoldable pub find_process : State → String → Option ProcessRecord
unfolding find
find_process st id = find (λ (p : ProcessRecord). p.id == id) st.processes

-- `findSessionState` of planning.go.
unfoldable pub find_session : State → String → Option Session
unfolding find
find_session st id = find (λ (s : Session). s.id == id) st.sessions

-- `sortedAttemptKeys` and `sortedNodeIDs` of execution.go.
unfoldable pub key_lt : AttemptKey → AttemptKey → Bool
key_lt a b = if a.node == b.node then ltb a.number b.number else text_lt a.node b.node

unfoldable pub sorted_attempt_keys : List AttemptKey → List AttemptKey
unfolding sort key_lt
sorted_attempt_keys = sort key_lt

unfoldable pub sorted_node_ids : State → List String
unfolding sort
sorted_node_ids st = sort text_lt (map (λ (e : String × Node). e.0) st.nodes)

-- The keys of the RUNNING Attempts but `exclude`, sorted: the snapshot of a quiescing Run.
unfoldable pub running_snapshot : State → AttemptKey → List AttemptKey
unfolding sorted_attempt_keys keep is_other_running
running_snapshot st exclude =
    sorted_attempt_keys
      (map (λ (e : AttemptKey × Attempt). e.0) (keep (is_other_running exclude) st.attempts))

-- `policyConfirmed` of safety.go.
unfoldable pub policy_confirmed : State → Bool
unfolding any
policy_confirmed st = elim st.workflow.execution_facts [
  | none ↦ true
  | some facts ↦
      eqb facts.preflight_revision 0
      || any (λ (a : Approval). eqb a.preflight_revision facts.preflight_revision) st.approvals
]
