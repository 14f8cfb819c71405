-- ===== src/Kernel/Lawful/Workflow.antt =====
-- The user's Workflow commands ask for lawful mutations only.
use cflow.Base.{true, false, some, [], ◌≡◌, refl, if◌then◌else◌, arith, eq_refl}
use cflow.Model.RuntimeStatus
use cflow.Model.RuntimeStatus.{RuntimeStatus}
use cflow.Model.RunStatus
use cflow.Model.RunStatus.{RunStatus}
use cflow.Model.Code
use cflow.Model.Code.{Code}
use cflow.Model.Runtime.{Run}
use cflow.Model.State.{State, CancelIntent}
use cflow.Model.Decision.{EventKind, Mutation}
use cflow.Kernel.Builder.{
  Builder, ◌▸◌, mutate, note, wf_mut, new_run, close_prior_runs, stop_running_processes,
}
use cflow.Kernel.Control
use cflow.Kernel.Control.{WorkflowCommandKind, WorkflowCommandInput, decide_workflow}
use cflow.Kernel.Lawful.Rules.{
  is_lawful, Holds, Keeps, Passes, builder_rules, result_rules, if-Holds, err-Passes,
  with_run-Keeps, close_runs-Keeps,
}
use cflow.Kernel.Lawful.Settle.{
  IsKeyed, wf_mut-cancel_lawful, wf_mut_status-lawful, run-lawful, finish_cancel-Keeps,
  converge_stopping-Keeps,
}

module _ (st : State) where
  pub new_run-lawful : is_lawful st (Mutation.run_append (new_run st RunStatus.running true)) ≡ true
  unfolding is_lawful new_run RunStatus.is_running
  new_run-lawful = refl

  prior_run-lawful :
      (r : Run)
      → is_lawful st (Mutation.run r.id RunStatus.interrupted false r.stop_reason []) ≡ true
  unfolding RunStatus.is_running
  prior_run-lawful r = run-lawful st r.id RunStatus.interrupted r.stop_reason [] refl

  pub open_run-Keeps : Keeps st (is_lawful st) (Control.open_run st)
  unfolding Control.open_run close_prior_runs RunStatus.is_running
  open_run-Keeps = record {
    keep =
        λ b h. search (builder_rules, close_runs-Keeps, prior_run-lawful, new_run-lawful) depth 12;
  }

  created-lawful :
      (input : WorkflowCommandInput)
      → is_lawful st (Mutation.workflow (Control.created st input)) ≡ true
  unfolding is_lawful wf_mut Control.created RuntimeStatus.is_cancelled
  created-lawful input = ground (
    arith,
    eq_refl st.workflow.id,
    eq_refl st.workflow.project,
    eq_refl st.workflow.target_branch,
    eq_refl st.workflow.base_commit,
  )

  decide_create-Passes :
      (input : WorkflowCommandInput) → Passes st (is_lawful st) (Control.decide_create st input)
  unfolding Control.decide_create
  decide_create-Passes input = search (result_rules, builder_rules, created-lawful) depth 16

  decide_start-Passes :
      (input : WorkflowCommandInput) → Passes st (is_lawful st) (Control.decide_start st input)
  unfolding Control.decide_start RuntimeStatus.is_cancelled
  decide_start-Passes input =
      search (result_rules, builder_rules, wf_mut_status-lawful, open_run-Keeps) depth 16

  decide_resume-Passes :
      (input : WorkflowCommandInput) → Passes st (is_lawful st) (Control.decide_resume st input)
  unfolding Control.decide_resume RuntimeStatus.is_cancelled
  decide_resume-Passes input =
      search (result_rules, builder_rules, wf_mut_status-lawful, open_run-Keeps) depth 16

  stop_run-Keeps :
      (r : Run) (c : Builder)
      → Holds st (is_lawful st) c
      → Holds st (is_lawful st) (
          if RunStatus.is_stopping r.status
          then c
          else c
            ▸ mutate (Mutation.run r.id RunStatus.stopping false Code.user_interrupted [])
            ▸ note EventKind.controlled_stop_requested "stop requested"
            ▸ note EventKind.run_stopped "run stopping"
            ▸ stop_running_processes st [])
  unfolding RunStatus.is_running
  stop_run-Keeps r c h =
      if-Holds _ (RunStatus.is_stopping r.status) _ _ (λ _. h)
        (λ _. search (builder_rules, run-lawful) depth 14)

  pause_status-Keeps : Keeps st (is_lawful st) (Control.pause_status st)
  unfolding Control.pause_status RuntimeStatus.is_cancelled
  pause_status-Keeps = record {
    keep = λ b h. search (builder_rules, wf_mut_status-lawful) depth 12;
  }

  pub decide_pause-Passes :
      (input : WorkflowCommandInput)
      → IsKeyed st
      → Passes st (is_lawful st) (Control.decide_pause st input)
  unfolding Control.decide_pause
  decide_pause-Passes input keyed =
      search
        (
          result_rules,
          builder_rules,
          pause_status-Keeps,
          with_run-Keeps,
          stop_run-Keeps,
          converge_stopping-Keeps st keyed,
        )
        depth 16

  cancel_run-Keeps :
      (r : Run)
      → Keeps st (is_lawful st) (λ c.
        c
        ▸ mutate (Mutation.run r.id RunStatus.stopping false Code.none_set [])
        ▸ note EventKind.run_stopped "run stopping")
  unfolding RunStatus.is_running
  cancel_run-Keeps r = record { keep = λ b h. search (builder_rules, run-lawful) depth 10 }

  intent-lawful :
      (intent : CancelIntent)
      → is_lawful st
          (Mutation.workflow (wf_mut st st.workflow.stage st.workflow.runtime (some intent)))
        ≡ true
  intent-lawful intent = wf_mut-cancel_lawful st st.workflow.stage st.workflow.runtime intent

  pub decide_cancel-Passes :
      (input : WorkflowCommandInput)
      → IsKeyed st
      → Passes st (is_lawful st) (Control.decide_cancel st input)
  unfolding Control.decide_cancel
  decide_cancel-Passes input keyed =
      search
        (
          result_rules,
          builder_rules,
          intent-lawful,
          with_run-Keeps,
          cancel_run-Keeps,
          finish_cancel-Keeps st keyed,
          if-Holds,
        )
        depth 18

  decide_command-Passes :
      (input : WorkflowCommandInput) (k : WorkflowCommandKind)
      → IsKeyed st
      → Passes st (is_lawful st) (Control.decide_command st input k)
  unfolding Control.decide_command
  decide_command-Passes input WorkflowCommandKind.create keyed = decide_create-Passes input
  decide_command-Passes input WorkflowCommandKind.start keyed = decide_start-Passes input
  decide_command-Passes input WorkflowCommandKind.pause keyed = decide_pause-Passes input keyed
  decide_command-Passes input WorkflowCommandKind.resume keyed = decide_resume-Passes input
  decide_command-Passes input WorkflowCommandKind.cancel keyed = decide_cancel-Passes input keyed
  decide_command-Passes input (WorkflowCommandKind.undeclared _) keyed = err-Passes _ _

  -- In a state with well-keyed Nodes and Attempts, a Workflow command is a fault or asks for lawful
  -- mutations only: a Workflow row keeps the identity,
  -- Project, Target Branch and Base Commit and is CANCELLED only with a cancel intent; a Run that is
  -- changed has its dispatch gate closed and is not RUNNING; a Node's charge stays within its budget;
  -- an Attempt ends once, with a terminal status, and none is appended under a used key.
  -- Its events are numbered consecutively from the next event number on and name the Workflow.
  pub decide_workflow-Passes :
      (input : WorkflowCommandInput)
      → IsKeyed st
      → Passes st (is_lawful st) (decide_workflow st input)
  unfolding decide_workflow
  decide_workflow-Passes input keyed = decide_command-Passes input input.kind keyed
