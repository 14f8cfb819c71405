-- ===== src/Kernel/Builder.antt =====
-- The builder of internal/decision/kernel.go. A method that appends to the Decision returns the new
-- builder; `b ▸ f` is the call `f(b)`.
use cflow.Base.{
  ◌+◌, ◌%◌, ◌^◌, Bool, false, String, Option, none, some, List, [], ◌∷◌, ◌++◌, ◌==◌, ◌&&◌, not, ◌&◌,
  decimal, length, any, if◌then◌else◌,
}
use cflow.Base.Result.{Result, ok}
use cflow.Model.Fault.{Fault}
use cflow.Model.WorkflowStage.{WorkflowStage}
use cflow.Model.RuntimeStatus.{RuntimeStatus}
use cflow.Model.RunStatus.{RunStatus}
use cflow.Model.Code
use cflow.Model.Code.{Code}
use cflow.Model.Runtime.{AttemptKey, no_attempt, Run, ProcessRecord}
use cflow.Model.State.{State, CancelIntent}
use cflow.Model.Effect.{EffectIntent}
use cflow.Model.Decision.{Decision, Event, EventKind, Mutation, WorkflowMutation}
use cflow.Kernel.Facts.{is_active, is_running_process}

-- The zero Decision.
abbrev pub no_decision : Decision
no_decision = record { mutations = []; events = []; effect = none }

pub record Builder : Type 0 where
  pub state : State
  pub d : Decision

infixl 6 ◌▸◌
unfoldable pub ◌▸◌ : Builder → (Builder → Builder) → Builder
b ▸ f = f b

unfoldable pub new_builder : State → Builder
new_builder st = record { state = st; d = no_decision }

-- `return b.d, nil`
unfoldable pub done : Builder → Result Fault Decision
done b = ok b.d

unfoldable pub mutate : Mutation → Builder → Builder
mutate m b = record b { d = record b.d { mutations = b.d.mutations ++ m ∷ [] } }

-- `for _, m := range ms { b.mutate(m) }`
unfoldable pub mutate_all : List Mutation → Builder → Builder
mutate_all [] b = b
mutate_all (m ∷ ms) b = mutate_all ms (b ▸ mutate m)

-- The sequence number is a uint64.
unfoldable pub event : EventKind → String → AttemptKey → Code → String → Builder → Builder
event kind node attempt code text b =
    let e : Event = record {
      seq = (b.state.next_event_seq + length b.d.events) % 2 ^ 64;
      kind = kind;
      workflow = b.state.workflow.id;
      node = node;
      attempt = attempt;
      code = code;
      text = text;
      at = b.state.now;
    } in
    record b { d = record b.d { events = b.d.events ++ e ∷ [] } }

-- An event of the whole Workflow: no node, no Attempt, no code.
unfoldable pub note : EventKind → String → Builder → Builder
note kind text = event kind "" no_attempt Code.none_set text

unfoldable pub effect : EffectIntent → Builder → Builder
effect e b = record b { d = record b.d { effect = some e } }

unfoldable pub wf_mut :
    State → WorkflowStage → RuntimeStatus → Option CancelIntent → WorkflowMutation
wf_mut st stage rt intent = record {
  id = st.workflow.id;
  project = st.workflow.project;
  name = st.workflow.name;
  stage = stage;
  runtime = rt;
  target_branch = st.workflow.target_branch;
  base_commit = st.workflow.base_commit;
  integration_branch = st.workflow.integration_branch;
  integration_head = st.workflow.integration_head;
  layout_version = st.workflow.layout_version;
  workspace_path = st.workflow.workspace_path;
  workspace_branch = st.workflow.workspace_branch;
  candidate_workspace_head = st.workflow.candidate_workspace_head;
  verified_workspace_head = st.workflow.verified_workspace_head;
  workspace_dirty_fingerprint = st.workflow.workspace_dirty_fingerprint;
  cancel_intent = intent;
}

unfoldable pub wf_mut_status : State → RuntimeStatus → WorkflowMutation
wf_mut_status st rt = wf_mut st st.workflow.stage rt st.workflow.cancel_intent

-- The identity "run-<workflow>-<n + 1>" over n Runs.
unfoldable pub next_run_id : State → String
next_run_id st = "run-" & st.workflow.id & "-" & decimal (length st.runs + 1)

unfoldable pub new_run : State → RunStatus → Bool → Run
new_run st status gate = record {
  id = next_run_id st;
  status = status;
  dispatch_gate = gate;
  stop_reason = Code.none_set;
  quiesce_snapshot = [];
  started_at = st.now;
  ended_at = 0;
}

-- The loop of `closePriorRuns`.
unfoldable pub close_runs : List Run → Builder → Builder
close_runs [] b = b
close_runs (r ∷ rs) b = close_runs rs (
    if is_active r
    then b
      ▸ mutate (Mutation.run r.id RunStatus.interrupted false r.stop_reason [])
      ▸ note EventKind.run_interrupted "prior run superseded"
    else b)

unfoldable pub close_prior_runs : State → Builder → Builder
close_prior_runs st = close_runs st.runs

-- Whether a text is in a list: the loop over `exclude`.
unfoldable pub is_in : String → List String → Bool
is_in id = any (λ (x : String). id == x)

unfoldable pub stop_first : List String → List ProcessRecord → Builder → Builder
stop_first exclude [] b = b
stop_first exclude (p ∷ ps) b =
    if is_running_process p && not (is_in p.id exclude)
    then b ▸ effect (EffectIntent.managed_process_stop p.id)
    else stop_first exclude ps b

-- The first RUNNING process that is not excluded is asked to stop.
unfoldable pub stop_running_processes : State → List String → Builder → Builder
stop_running_processes st exclude = stop_first exclude st.processes
