-- ===== src/Tests/Kernel.antt =====
-- The theorems on the Kernel, applied to concrete states and inputs.
use cflow.Kernel.Latest.{
  has_number, none_above, has_wanted, highest_terminal_attempt-is_latest,
  highest_terminal_attempt-none,
}
use cflow.Kernel.Lookup.{highest_terminal_attempt}
use cflow.Kernel.Control.{decide_start}
use cflow.Model.Runtime.{Attempt}
use cflow.Base.{count}
use cflow.Base.{
  Bool, true, false, String, Option, none, some, List, [], ◌∷◌, ◌≡◌, refl, ◌&&◌, ◌||◌, leb, not,
}
use cflow.Base.Result.{Result, ok, err}
use cflow.Model.Runtime.{Node}
use cflow.Model.WorkflowStage.{WorkflowStage}
use cflow.Model.RuntimeStatus.{RuntimeStatus}
use cflow.Model.State.{State, node_at, attempt_at}
use cflow.Model.Runtime.{same_key}
use cflow.Model.Code
use cflow.Model.WorkflowStage
use cflow.Model.RuntimeStatus
use cflow.Model.NodeKind
use cflow.Model.NodeStatus
use cflow.Model.AttemptStatus
use cflow.Model.AttemptStatus.{AttemptStatus}
use cflow.Kernel.Facts.{active_run, policy_confirmed}
use cflow.Kernel.Control.{is_settling, decide_resume}
use cflow.Kernel.Dispatch.{decide_dispatch_agent_task}
use cflow.Kernel.Lookup.{gate_open}
use cflow.Kernel.Admit.{dispatch-admits, resume-admits}
use cflow.Store.Apply.{apply_all}
use cflow.Store.Attempts.{terminal_attempt_is_immutable}
use cflow.Kernel.Lawful.Rules.{Passes}
use cflow.Kernel.Sweep.{decide_reconcile}
use cflow.Kernel.Quiet.{is_closing, decide_reconcile-closes}
use cflow.Kernel.Builder.{wf_mut_status}
use cflow.Model.Decision.{Mutation}
use cflow.Model.RunStatus.{RunStatus}
use cflow.Model.NodeStatus.{NodeStatus}
use cflow.Model.Code.{Code}
use cflow.Tests.{
  node, in_flight, waiting, failed_once, paused, allocation, start_command, decided, stored,
  first_key, first_attempt, with_parts, workflow, open_run,
}

dispatch-admits_example :
    (WorkflowStage.is_execution waiting.workflow.stage && gate_open waiting) ≡ true
    × ((n : Node) × ((node_at waiting.nodes allocation.node ≡ some n)
          × ((NodeKind.is_agent_task n.kind
                && (NodeStatus.is_pending n.status
                    || (NodeStatus.is_ready n.status && leb n.retry_charged n.retry_budget)))
              ≡ true)))
unfolding decide_dispatch_agent_task cflow.Base.Result.◌>>◌ cflow.Base.Result.◌>>=◌
    cflow.Base.Result.refuse WorkflowStage.is_execution gate_open active_run
    cflow.Model.RunStatus.is_running cflow.Base.Result.need node_at NodeKind.is_agent_task
    cflow.Kernel.Lookup.is_allocatable NodeStatus.is_pending NodeStatus.is_ready
    cflow.Kernel.SessionPick.task_base cflow.Kernel.SessionPick.choose_session
    cflow.Kernel.SessionPick.fresh_choice decide_resume RuntimeStatus.is_paused is_settling
    policy_confirmed cflow.Kernel.Builder.done apply_all cflow.Kernel.SessionPick.retry_choice
    cflow.Kernel.SessionPick.fresh_session cflow.Kernel.SessionPick.validate_fresh_session
    cflow.Kernel.Facts.find_session
dispatch-admits_example =
    dispatch-admits waiting allocation (decided (decide_dispatch_agent_task waiting allocation))
      refl

resume-admits_example :
    ((RuntimeStatus.is_paused paused.workflow.runtime
        || RuntimeStatus.is_blocked paused.workflow.runtime)
      && (not (is_settling (active_run paused))
          && (not (WorkflowStage.is_execution paused.workflow.stage) || policy_confirmed paused)))
    ≡ true
unfolding decide_resume cflow.Base.Result.◌>>◌ cflow.Base.Result.◌>>=◌ cflow.Base.Result.refuse
    RuntimeStatus.is_paused is_settling active_run WorkflowStage.is_execution policy_confirmed
    cflow.Kernel.Builder.done decide_dispatch_agent_task apply_all gate_open
    cflow.Model.RunStatus.is_running cflow.Base.Result.need node_at NodeKind.is_agent_task
    cflow.Kernel.Lookup.is_allocatable NodeStatus.is_pending NodeStatus.is_ready
    cflow.Kernel.SessionPick.task_base cflow.Kernel.SessionPick.choose_session
    cflow.Kernel.SessionPick.retry_choice cflow.Kernel.Facts.find_session
resume-admits_example =
    resume-admits paused start_command (decided (decide_resume paused start_command)) refl

terminal_attempt_is_immutable_example :
    attempt_at
      (stored (
        apply_all failed_once
          (decided (decide_dispatch_agent_task failed_once allocation)).mutations)).attempts
      first_key
    ≡ some (first_attempt AttemptStatus.failed)
unfolding decide_dispatch_agent_task apply_all cflow.Base.Result.◌>>◌ cflow.Base.Result.◌>>=◌
    cflow.Base.Result.refuse WorkflowStage.is_execution gate_open active_run
    cflow.Model.RunStatus.is_running cflow.Base.Result.need node_at NodeKind.is_agent_task
    cflow.Kernel.Lookup.is_allocatable NodeStatus.is_pending NodeStatus.is_ready
    cflow.Kernel.SessionPick.task_base cflow.Kernel.SessionPick.choose_session
    cflow.Kernel.SessionPick.retry_choice cflow.Kernel.Facts.find_session
    cflow.Kernel.SessionPick.resume_choice cflow.Kernel.Lookup.highest_terminal_attempt
    cflow.Kernel.Lookup.highest AttemptStatus.is_terminal cflow.Kernel.Lookup.is_better
    AttemptStatus.is_interrupted cflow.Kernel.SessionPick.fresh_choice
    cflow.Kernel.SessionPick.fresh_session cflow.Kernel.SessionPick.validate_fresh_session
    cflow.Base.any cflow.Kernel.Builder.done cflow.Kernel.Dispatch.allocate cflow.Kernel.Builder.◌▸◌
    cflow.Kernel.Dispatch.start_effect Code.same cflow.Kernel.Builder.effect
    cflow.Kernel.Dispatch.append_process cflow.Kernel.Builder.mutate cflow.Kernel.Builder.event
    cflow.Kernel.Dispatch.append_session cflow.Kernel.Builder.new_builder
    cflow.Store.Apply.apply_mutation same_key cflow.Kernel.Dispatch.started_attempt
    cflow.Kernel.Lookup.next_attempt_number cflow.Kernel.Lookup.max_number
terminal_attempt_is_immutable_example =
    terminal_attempt_is_immutable failed_once
      (decided (decide_dispatch_agent_task failed_once allocation)).mutations first_key
      (first_attempt AttemptStatus.failed)
      (stored (
        apply_all failed_once
          (decided (decide_dispatch_agent_task failed_once allocation)).mutations))
      refl refl refl

highest_terminal_attempt-is_latest_example :
    (AttemptStatus.is_terminal AttemptStatus.failed
      && (has_number "task-a" 1 failed_once.attempts
          && none_above
              (λ (b : Attempt). AttemptStatus.is_terminal b.status)
              "task-a"
              1
              failed_once.attempts))
    ≡ true
unfolding highest_terminal_attempt cflow.Kernel.Latest.is_numbered cflow.Base.all
    cflow.Kernel.Lookup.highest AttemptStatus.is_terminal cflow.Kernel.Lookup.is_better decide_start
    cflow.Base.Result.◌>>◌ cflow.Base.Result.◌>>=◌ cflow.Base.Result.refuse RuntimeStatus.is_pending
    cflow.Kernel.Builder.done decide_resume RuntimeStatus.is_paused is_settling active_run
    WorkflowStage.is_execution policy_confirmed
highest_terminal_attempt-is_latest_example =
    highest_terminal_attempt-is_latest failed_once "task-a" (first_attempt AttemptStatus.failed)
      refl refl

highest_terminal_attempt-none_example :
    has_wanted (λ (b : Attempt). AttemptStatus.is_terminal b.status) "task-a" in_flight.attempts
    ≡ false
unfolding highest_terminal_attempt cflow.Kernel.Lookup.highest AttemptStatus.is_terminal
    decide_start cflow.Base.Result.◌>>◌ cflow.Base.Result.◌>>=◌ cflow.Base.Result.refuse
    RuntimeStatus.is_pending cflow.Kernel.Builder.done decide_resume RuntimeStatus.is_paused
    is_settling active_run WorkflowStage.is_execution policy_confirmed
highest_terminal_attempt-none_example = highest_terminal_attempt-none in_flight "task-a" refl

-- A Workflow that is paused while its Run is still open.
abbrev resumable : State
resumable =
    with_parts (workflow WorkflowStage.execution RuntimeStatus.paused) [] [] (open_run ∷ []) []

-- A Workflow whose only Node failed while the Run stayed open.
abbrev abandoned : State
abandoned =
    with_parts (workflow WorkflowStage.execution RuntimeStatus.running)
      (("task-a", node NodeStatus.failed) ∷ []) [] (open_run ∷ []) []

decide_reconcile-closes_example : Passes abandoned is_closing (decide_reconcile abandoned)
decide_reconcile-closes_example = decide_reconcile-closes abandoned

-- The sweep blocks that Workflow and its Run.
decide_reconcile_test :
    (decided (decide_reconcile abandoned)).mutations
    ≡ Mutation.workflow (wf_mut_status abandoned RuntimeStatus.blocked)
      ∷ Mutation.run "run-w-1" RunStatus.blocked false Code.none_set []
      ∷ []
unfolding decide_reconcile cflow.Kernel.Builder.done cflow.Kernel.Settle.pending_cancel
    RuntimeStatus.is_terminal cflow.Kernel.Sweep.sweep cflow.Kernel.Facts.active_quiescing
    cflow.Kernel.Builder.◌▸◌ cflow.Kernel.Sweep.block_failed RuntimeStatus.is_running
    cflow.Kernel.Facts.any_failed_node cflow.Kernel.Facts.has_running_attempt
    cflow.Kernel.Settle.with_run cflow.Kernel.Builder.note cflow.Kernel.Builder.event
    cflow.Kernel.Builder.mutate cflow.Kernel.Settle.block_workflow
    cflow.Kernel.Settle.converge_stopping cflow.Model.RunStatus.is_stopping
    cflow.Kernel.Builder.new_builder
decide_reconcile_test = refl
