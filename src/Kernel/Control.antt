-- ===== src/Kernel/Control.antt =====
-- The user's Workflow commands: `decideCreateWorkflow`, `decideStart`, `decidePause` and
-- `decideResume` of internal/decision/workflow.go, `decideCancel` of apply_cleanup.go.
use cflow.Base.{
  Bool, true, false, String, Option, none, some, [], ◌==◌, ◌&&◌, ◌||◌, not, if◌then◌else◌,
}
use cflow.Base.Result.{Result, err, ◌>>◌, refuse}
use cflow.Model.WorkflowStage
use cflow.Model.WorkflowStage.{WorkflowStage}
use cflow.Model.RuntimeStatus
use cflow.Model.RuntimeStatus.{RuntimeStatus}
use cflow.Model.RunStatus
use cflow.Model.RunStatus.{RunStatus}
use cflow.Model.Code
use cflow.Model.Code.{Code}
use cflow.Model.Fault.{Fault, invalid_input, new_fault}
use cflow.Model.Runtime.{no_attempt, Run}
use cflow.Model.State.{State, CancelIntent}
use cflow.Model.Effect.{EffectIntent}
use cflow.Model.Decision.{Decision, EventKind, Mutation, WorkflowMutation}
use cflow.Kernel.Facts.{
  active_run, has_blocking_finding, has_running_attempt, has_running_process, policy_confirmed,
}
use cflow.Kernel.Builder.{
  Builder, ◌▸◌, done, new_builder, mutate, note, effect, wf_mut, wf_mut_status, new_run,
  close_prior_runs, stop_running_processes,
}
use cflow.Kernel.Settle.{with_run, finish_cancel, converge_stopping}

pub data WorkflowCommandKind : Type 0 where
  create start pause resume cancel : WorkflowCommandKind
  undeclared : String → WorkflowCommandKind

pub record WorkflowCommandInput : Type 0 where
  pub kind : WorkflowCommandKind
  pub workflow : String
  pub project : String
  pub name : String
  pub target_branch : String
  pub base_commit : String
  pub reason : String
  pub workspace_path : String
  pub workspace_branch : String

-- The Runs are closed and a fresh Run with an open gate is appended.
unfoldable pub open_run : State → Builder → Builder
open_run st b =
    b ▸ close_prior_runs st ▸ mutate (Mutation.run_append (new_run st RunStatus.running true))

-- The Workflow row of a creation.
unfoldable pub created : State → WorkflowCommandInput → WorkflowMutation
created st input =
    let base = wf_mut st WorkflowStage.requirement_discussion RuntimeStatus.pending none in
    record base {
      name = input.name;
      layout_version = 2;
      workspace_path = input.workspace_path;
      workspace_branch = input.workspace_branch;
    }

unfoldable pub decide_create : State → WorkflowCommandInput → Result Fault Decision
decide_create st input = do
  refuse (not (st.workflow.id == "")) (invalid_input "workflow already exists")
  refuse (input.workflow == "" || input.project == "")
      (invalid_input "workflow creation requires opaque workflow and project identities")
  refuse (input.target_branch == "" || input.base_commit == "")
      (invalid_input "workflow creation requires a target branch and base commit")
  refuse (input.workspace_path == "" || input.workspace_branch == "")
      (invalid_input "workflow creation requires the workspace layout facts")
  let b =
      new_builder st
      ▸ mutate (Mutation.workflow (created st input))
      ▸ note EventKind.workflow_created "workflow created"
      ▸ effect (
          EffectIntent.workspace_worktree_create input.workflow input.base_commit
            input.workspace_branch input.workspace_path)
  done b

unfoldable pub decide_start : State → WorkflowCommandInput → Result Fault Decision
decide_start st input = do
  refuse (st.workflow.id == "") (invalid_input "no workflow to start")
  refuse (not (RuntimeStatus.is_pending st.workflow.runtime))
      (invalid_input "workflow can only start from PENDING")
  let b =
      new_builder st
      ▸ mutate (Mutation.workflow (wf_mut_status st RuntimeStatus.running))
      ▸ open_run st
      ▸ note EventKind.run_started "run started"
      ▸ note EventKind.workflow_started "workflow started"
  done b

-- `run != nil && run.Status == model.RunQuiescing`, or a blocking Finding.
unfoldable pub blocks_pause : State → Bool
blocks_pause st =
    has_blocking_finding st
    || elim (active_run st) [ none ↦ false | some r ↦ RunStatus.is_quiescing r.status ]

-- A pause converges to BLOCKED with a blocking Finding or during a quiesce.
unfoldable pub pause_status : State → Builder → Builder
pause_status st b =
    if blocks_pause st
    then b
      ▸ mutate (Mutation.workflow (wf_mut_status st RuntimeStatus.blocked))
      ▸ note EventKind.workflow_blocked "workflow blocked"
    else b
      ▸ mutate (Mutation.workflow (wf_mut_status st RuntimeStatus.paused))
      ▸ note EventKind.workflow_paused "workflow paused"

-- Whether this Decision moves the Run to STOPPING, the `transitioned` of the code.
unfoldable pub stops_run : State → Bool
stops_run st = elim (active_run st) [
  | none ↦ false
  | some r ↦ not (RunStatus.is_terminal r.status) && not (RunStatus.is_stopping r.status)
]

unfoldable pub decide_pause : State → WorkflowCommandInput → Result Fault Decision
decide_pause st input = do
  refuse (st.workflow.id == "") (invalid_input "no workflow to pause")
  refuse (not (RuntimeStatus.is_running st.workflow.runtime))
      (invalid_input "workflow can only pause from RUNNING")
  let b =
      new_builder st
      ▸ pause_status st
      ▸ with_run st (λ r c.
        if RunStatus.is_stopping r.status
        then c
        else c
          ▸ mutate (Mutation.run r.id RunStatus.stopping false Code.user_interrupted [])
          ▸ note EventKind.controlled_stop_requested "stop requested"
          ▸ note EventKind.run_stopped "run stopping"
          ▸ stop_running_processes st [])
      ▸ converge_stopping st no_attempt "" (stops_run st)
  done b

-- The Run that a stop or a quiesce is still settling.
unfoldable pub is_settling : Option Run → Bool
is_settling none = false
is_settling (some r) = RunStatus.is_stopping r.status || RunStatus.is_quiescing r.status

unfoldable pub decide_resume : State → WorkflowCommandInput → Result Fault Decision
decide_resume st input = do
  refuse (st.workflow.id == "") (invalid_input "no workflow to resume")
  refuse
      (not (RuntimeStatus.is_paused st.workflow.runtime)
        && not (RuntimeStatus.is_blocked st.workflow.runtime))
      (invalid_input "workflow can only resume from PAUSED or BLOCKED")
  refuse (is_settling (active_run st))
      (invalid_input "a stop or quiesce is still settling; resume is refused until it completes")
  refuse (WorkflowStage.is_execution st.workflow.stage && not (policy_confirmed st)) (
      new_fault Code.commit_policy_confirmation_required
        "the exact new commit policy must be confirmed before resume")
  let b =
      new_builder st
      ▸ mutate (Mutation.workflow (wf_mut_status st RuntimeStatus.running))
      ▸ open_run st
      ▸ note EventKind.run_started "run started"
      ▸ note EventKind.workflow_resumed "workflow resumed"
  done b

unfoldable pub decide_cancel : State → WorkflowCommandInput → Result Fault Decision
decide_cancel st input = do
  refuse (st.workflow.id == "") (invalid_input "no workflow to cancel")
  refuse (RuntimeStatus.is_terminal st.workflow.runtime)
      (invalid_input "workflow is already terminal")
  let intent : CancelIntent = record { requested_seq = st.next_event_seq; reason = input.reason }
  let b =
      new_builder st
      ▸ mutate (Mutation.workflow (wf_mut st st.workflow.stage st.workflow.runtime (some intent)))
      ▸ note EventKind.workflow_cancel_requested "cancel requested"
      ▸ with_run st (λ r c.
        c
        ▸ mutate (Mutation.run r.id RunStatus.stopping false Code.none_set [])
        ▸ note EventKind.run_stopped "run stopping")
      ▸ stop_running_processes st []
  let settled = b ▸ finish_cancel st intent
  done (if has_running_attempt st || has_running_process st then b else settled)

-- The switch of `decideWorkflow`.
unfoldable pub decide_command :
    State → WorkflowCommandInput → WorkflowCommandKind → Result Fault Decision
decide_command st input WorkflowCommandKind.create = decide_create st input
decide_command st input WorkflowCommandKind.start = decide_start st input
decide_command st input WorkflowCommandKind.pause = decide_pause st input
decide_command st input WorkflowCommandKind.resume = decide_resume st input
decide_command st input WorkflowCommandKind.cancel = decide_cancel st input
decide_command st input (WorkflowCommandKind.undeclared _) =
    err (invalid_input "unsupported workflow command")

unfoldable pub decide_workflow : State → WorkflowCommandInput → Result Fault Decision
decide_workflow st input = decide_command st input input.kind
