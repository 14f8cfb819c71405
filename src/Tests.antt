-- ===== src/Tests.antt =====
-- Concrete states and inputs, on which the theorems are applied.
pub mod Kernel
pub mod Schedule
pub mod Model
pub mod Install
pub mod Chain
pub mod Output
pub mod Store
use cflow.Store.Apply.{apply_all}
use cflow.Kernel.Control.{WorkflowCommandInput, WorkflowCommandKind, decide_workflow}
use cflow.Kernel.Lawful.Rules.{is_lawful, Passes}
use cflow.Kernel.Lawful.Attempt.{decide_attempt_ended-Passes}
use cflow.Kernel.Attempt.{decide_attempt_ended}
use cflow.Store.Attempts.{same_key_iff}
use cflow.Base.{eq_iff, eqb, leb}
use cflow.Base.{
  ℕ, Bool, true, false, String, Option, none, some, List, [], ◌∷◌, ◌≡◌, refl, ◌==◌, ◌≤◌, all, arith,
  pos,
}
use cflow.Base.Result.{Result, ok, err}
use cflow.Model.WorkflowStage.{WorkflowStage}
use cflow.Model.RuntimeStatus.{RuntimeStatus}
use cflow.Model.NodeKind.{NodeKind}
use cflow.Model.NodeStatus.{NodeStatus}
use cflow.Model.AttemptStatus.{AttemptStatus}
use cflow.Model.AttemptOutcome.{AttemptOutcome}
use cflow.Model.RunStatus.{RunStatus}
use cflow.Model.SessionStatus.{SessionStatus}
use cflow.Model.AgentPurpose.{AgentPurpose}
use cflow.Model.ProcessStatus.{ProcessStatus}
use cflow.Model.ArtifactType.{ArtifactType}
use cflow.Model.Code
use cflow.Model.Code.{Code}
use cflow.Model.Evidence.{no_evidence}
use cflow.Model.Artifact.{ArtifactRef}
use cflow.Model.Fault.{Fault}
use cflow.Model.Runtime.{
  AttemptKey, no_attempt, Attempt, Node, ProcessRecord, Run, Session, same_key,
}
use cflow.Model.State.{State, Workflow, node_at, attempt_at}
use cflow.Model.Decision.{Decision}
use cflow.Kernel.Input.{DispatchInput, EffectResultInput, EffectResultKind, no_result}
use cflow.Kernel.Builder.{no_decision}
use cflow.Kernel.Lawful.Settle.{IsKeyed}

-- One coding Node.
abbrev pub node : NodeStatus → Node
node status = record {
  id = "task-a";
  kind = NodeKind.agent_task;
  status = status;
  dependencies = [];
  branch = "cflow/w/task-task-a";
  base_commit = "base";
  retry_budget = 2;
  retry_charged = 0;
}

abbrev pub first_key : AttemptKey
first_key = record { node = "task-a"; number = 1 }

abbrev pub first_attempt : AttemptStatus → Attempt
first_attempt status = record {
  key = first_key;
  session = "s-1";
  status = status;
  start_head = "base";
  start_dirty_fingerprint = "";
  end_head = "";
  end_dirty_fingerprint = "";
  failure_code = Code.none_set;
  evidence = [];
  retry_charged = false;
  started_at = 5;
  ended_at = 0;
}

abbrev pub open_run : Run
open_run = record {
  id = "run-w-1";
  status = RunStatus.running;
  dispatch_gate = true;
  stop_reason = Code.none_set;
  quiesce_snapshot = [];
  started_at = 4;
  ended_at = 0;
}

abbrev pub agent_process : ProcessRecord
agent_process = record {
  id = "p-1";
  session = "s-1";
  purpose = AgentPurpose.implementation;
  status = ProcessStatus.running;
  exit_code = pos 0;
  started_at = 5;
  ended_at = 0;
}

abbrev pub workflow : WorkflowStage → RuntimeStatus → Workflow
workflow stage runtime = record {
  id = "w";
  project = "p";
  name = "demo";
  stage = stage;
  runtime = runtime;
  target_branch = "main";
  base_commit = "base";
  integration_branch = "";
  integration_head = "base";
  layout_version = 2;
  workspace_path = "/w";
  workspace_branch = "cflow/w";
  candidate_workspace_head = "";
  verified_workspace_head = "";
  workspace_dirty_fingerprint = "";
  execution_facts = none;
  cancel_intent = none;
}

abbrev pub with_parts :
    Workflow
    → List (String × Node)
    → List (AttemptKey × Attempt)
    → List Run
    → List ProcessRecord
    → State
with_parts w nodes attempts runs processes = record {
  version = 7;
  now = 9;
  workflow = w;
  plan = none;
  nodes = nodes;
  attempts = attempts;
  approvals = [];
  sessions = [];
  runs = runs;
  findings = [];
  processes = processes;
  quarantines = [];
  apply_attempts = [];
  cleanup_attempts = [];
  next_event_seq = 11;
}

-- A coding Node in flight.
abbrev pub in_flight : State
in_flight =
    with_parts (workflow WorkflowStage.execution RuntimeStatus.running)
      (("task-a", node NodeStatus.running) ∷ [])
      ((first_key, first_attempt AttemptStatus.running) ∷ []) (open_run ∷ []) (agent_process ∷ [])

-- The same Node before its first Attempt.
abbrev pub waiting : State
waiting =
    with_parts (workflow WorkflowStage.execution RuntimeStatus.running)
      (("task-a", node NodeStatus.pending) ∷ []) [] (open_run ∷ []) []

-- The Node's first Attempt failed, and a retry is ready.
abbrev pub failed_once : State
failed_once =
    with_parts (workflow WorkflowStage.execution RuntimeStatus.running)
      (("task-a", node NodeStatus.ready) ∷ [])
      ((first_key, first_attempt AttemptStatus.failed) ∷ []) (open_run ∷ []) []

-- A Workflow paused by a stop that is complete.
abbrev pub paused : State
paused = with_parts (workflow WorkflowStage.execution RuntimeStatus.paused) [] [] [] []

-- A Workflow that was never started.
abbrev pub unstarted : State
unstarted =
    with_parts (workflow WorkflowStage.requirement_discussion RuntimeStatus.pending) [] [] [] []

pub in_flight-IsKeyed : IsKeyed in_flight
unfolding node_at attempt_at same_key
in_flight-IsKeyed = record {
  at_node = λ id n e. (ground (arith, e, (eq_iff "task-a" id).0), ground (arith, e));
  at_attempt = λ k a e. ground (arith, e, (same_key_iff first_key k).0);
  is_last = λ k a e r. ground (arith, e, (same_key_iff first_key k).0);
}

pub waiting-IsKeyed : IsKeyed waiting
unfolding node_at attempt_at same_key
waiting-IsKeyed = record {
  at_node = λ id n e. (ground (arith, e, (eq_iff "task-a" id).0), ground (arith, e));
  at_attempt = λ k a e. ground (arith, e);
  is_last = λ k a e r. ground (arith, e);
}

pub unstarted-IsKeyed : IsKeyed unstarted
unfolding node_at attempt_at
unstarted-IsKeyed = record {
  at_node = λ id n e. (ground (arith, e), ground (arith, e));
  at_attempt = λ k a e. ground (arith, e);
  is_last = λ k a e r. ground (arith, e);
}

-- The first Attempt failed with a retryable code.
abbrev pub failed_end : EffectResultInput
failed_end = record no_result {
  kind = EffectResultKind.attempt_ended;
  attempt = first_key;
  outcome = AttemptOutcome.failed;
  failure_code = Code.command_failed;
  end_head = "head-1";
}

-- The process of the Attempt was stopped.
abbrev pub stopped_process : EffectResultInput
stopped_process = record failed_end { kind = EffectResultKind.process_stopped; process = "p-1" }

abbrev pub allocation : DispatchInput
allocation = record {
  node = "task-a";
  session = "s-1";
  route = "codex";
  base_head = "head-0";
  process = "p-1";
}

abbrev pub start_command : WorkflowCommandInput
start_command = record {
  kind = WorkflowCommandKind.start;
  workflow = "w";
  project = "p";
  name = "";
  target_branch = "";
  base_commit = "";
  reason = "";
  workspace_path = "";
  workspace_branch = "";
}

-- The Decision of an accepted input.
abbrev pub decided : Result Fault Decision → Decision
decided (ok d) = d
decided (err e) = no_decision

abbrev pub stored : Option State → State
stored (some st) = st
stored none = unstarted
