-- ===== src/Kernel/SessionPick.antt =====
-- The Task Base and the Session of an allocation: the middle of `decideDispatchAgentTask` of
-- internal/decision/dispatch.go, `validateFreshSession` of workflow.go.
use cflow.Base.{
  Bool, true, false, String, Option, none, some, ◌==◌, ◌&&◌, ◌||◌, not, any, if◌then◌else◌,
}
use cflow.Base.Result.{Result, err, ok, ◌>>◌, ◌>>=◌, refuse}
use cflow.Model.NodeStatus
use cflow.Model.NodeStatus.{NodeStatus}
use cflow.Model.AttemptStatus
use cflow.Model.AttemptStatus.{AttemptStatus}
use cflow.Model.SessionStatus
use cflow.Model.SessionStatus.{SessionStatus}
use cflow.Model.AgentPurpose
use cflow.Model.AgentPurpose.{AgentPurpose}
use cflow.Model.Code
use cflow.Model.Code.{Code}
use cflow.Model.Fault.{Fault, invalid_input, new_fault}
use cflow.Model.Runtime.{Attempt, Node, Session}
use cflow.Model.State.{State}
use cflow.Kernel.Input.{DispatchInput}
use cflow.Kernel.Facts.{find_session}
use cflow.Kernel.Lookup.{highest_terminal_attempt}

-- `validateFreshSession` of workflow.go.
unfoldable pub validate_fresh_session : State → String → Result Fault Unit
validate_fresh_session st id =
    if id == ""
    then err (invalid_input "a session identity is required")
    else refuse (any (λ (s : Session). s.id == id) st.sessions)
        (invalid_input "session identity is already in use")

-- The Task Base: a first allocation takes the observed HEAD, a retry the recorded one.
unfoldable pub task_base : Node → DispatchInput → Result Fault String
task_base node input =
    if NodeStatus.is_ready node.status
    then refuse (node.base_commit == "") (invalid_input "") >> ok node.base_commit
    else refuse (input.base_head == "")
        (invalid_input "allocation requires the verified integration head")
      >> ok input.base_head

-- How the Session of an allocation is chosen.
pub record SessionChoice : Type 0 where
  pub session : String
  pub purpose : AgentPurpose
  pub reuse : Bool
  pub resume : Bool

unfoldable pub fresh_choice : DispatchInput → SessionChoice
fresh_choice input = record {
  session = input.session;
  purpose = AgentPurpose.implementation;
  reuse = false;
  resume = false;
}

-- The Session of an interrupted prior Attempt, where it can be resumed.
unfoldable pub resume_choice : State → Option Attempt → DispatchInput → SessionChoice
resume_choice st none input = fresh_choice input
resume_choice st (some prior) input =
    if AttemptStatus.is_interrupted prior.status && not (prior.session == "")
    then elim (find_session st prior.session) [
      | none ↦ fresh_choice input
      | some s ↦
          if SessionStatus.is_interrupted s.status && not (s.provider_session_id == "")
          then record { session = prior.session; purpose = s.purpose; reuse = false; resume = true }
          else fresh_choice input
    ]
    else fresh_choice input

-- A READY Node: a STARTING successor Session is reused, or else the prior Attempt decides.
unfoldable pub retry_choice : State → Node → DispatchInput → Result Fault SessionChoice
retry_choice st node input =
    let resumed = resume_choice st (highest_terminal_attempt st node.id) input in
    elim (find_session st input.session) [
      | none ↦ ok resumed
      | some s ↦
          if SessionStatus.is_starting s.status
          then refuse (not (AgentPurpose.is_implementation s.purpose)) (
              new_fault Code.session_independence_violation
                "the reused successor session's purpose does not match the task")
            >> ok (record {
              session = input.session;
              purpose = AgentPurpose.implementation;
              reuse = true;
              resume = false;
            })
          else ok resumed
    ]

-- A dirty prior Attempt wants a Repair Session; a Session that is not kept must be fresh.
unfoldable pub fresh_session : State → Node → SessionChoice → Result Fault SessionChoice
fresh_session st node c =
    let dirty : Bool = elim (highest_terminal_attempt st node.id) [
      | none ↦ false
      | some prior ↦ Code.same prior.failure_code Code.dirty_task_worktree
    ] in
    let repair = record c { purpose = AgentPurpose.repair } in
    validate_fresh_session st c.session >> ok (if dirty then repair else c)

unfoldable pub choose_session : State → Node → DispatchInput → Result Fault SessionChoice
choose_session st node input = do
  c ←
      if NodeStatus.is_ready node.status
      then retry_choice st node input
      else ok (fresh_choice input)
  if c.reuse || c.resume then ok c else fresh_session st node c
