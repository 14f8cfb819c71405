-- ===== src/Kernel/Complete.antt =====
-- `decideComplete` of internal/decision/workflow.go.
use cflow.Base.{
  false, String, Option, none, some, List, [], ◌∷◌, ◌==◌, ◌||◌, not, leb, eqb, if◌then◌else◌,
  length, pos,
}
use cflow.Base.Result.{Result, ok, ◌>>◌, ◌>>=◌, refuse, need}
use cflow.Model.WorkflowStage
use cflow.Model.WorkflowStage.{WorkflowStage}
use cflow.Model.RuntimeStatus
use cflow.Model.RuntimeStatus.{RuntimeStatus}
use cflow.Model.RunStatus.{RunStatus}
use cflow.Model.NodeKind
use cflow.Model.NodeKind.{NodeKind}
use cflow.Model.NodeStatus
use cflow.Model.NodeStatus.{NodeStatus}
use cflow.Model.ProcessStatus.{ProcessStatus}
use cflow.Model.EvidenceKind.{EvidenceKind}
use cflow.Model.Evidence.{evidence_on}
use cflow.Model.Code
use cflow.Model.Code.{Code}
use cflow.Model.Fault.{Fault, invalid_input, invariant_fault, new_fault}
use cflow.Model.Runtime.{Node, ProcessRecord, Run}
use cflow.Model.State.{State}
use cflow.Model.Decision.{Decision, EventKind, Mutation}
use cflow.Kernel.Facts.{has_blocking_finding, is_running_process}
use cflow.Kernel.Builder.{Builder, ◌▸◌, done, new_builder, mutate, note, wf_mut}
use cflow.Kernel.Settle.{with_run}
use cflow.Kernel.Chain.{succeeded_attempt_of}
use cflow.Kernel.Verify.{delivery_head}

-- The loop over the Nodes: every Node is SUCCEEDED, and the last final-verify Node is kept. A Go map has
-- no order, so the model's is that of the association list.
unfoldable pub final_verify_of : List (String × Node) → Option Node → Result Fault (Option Node)
final_verify_of [] found = ok found
final_verify_of ((k, n) ∷ rest) found =
    refuse (not (NodeStatus.is_succeeded n.status))
      (invalid_input "completion requires every node succeeded")
    >> final_verify_of rest (if NodeKind.is_final_verify n.kind then some n else found)

unfoldable pub delivery_branch : State → String
delivery_branch st =
    if leb 2 st.workflow.layout_version
    then st.workflow.workspace_branch
    else st.workflow.integration_branch

-- The succeeded Attempt of one merge Node carries its commit on the delivery Branch.
unfoldable pub check_merge : State → Node → Result Fault Unit
check_merge st n = do
  ma ←
      need (succeeded_attempt_of st n.id)
        (invalid_input "completion requires a succeeded merge attempt")
  refuse (not (evidence_on ma.evidence EvidenceKind.commit (delivery_branch st))) (
      new_fault Code.evidence_subject_changed
        "a merge attempt's commit evidence subject changed; completion requires the exact verified subjects")

unfoldable pub check_merges : State → List (String × Node) → Result Fault Unit
check_merges st [] = ok tt
check_merges st ((k, n) ∷ rest) =
    if NodeKind.is_merge n.kind
    then check_merge st n >> check_merges st rest
    else check_merges st rest

-- The loop that marks the processes stopped.
unfoldable pub stop_processes : State → List ProcessRecord → Builder → Builder
stop_processes st [] b = b
stop_processes st (p ∷ ps) b = stop_processes st ps (
    if is_running_process p
    then b ▸ mutate (Mutation.process_end p.id ProcessStatus.stopped (pos 0) st.now)
    else b)

unfoldable pub succeed_run : Run → Builder → Builder
succeed_run r b =
    b
    ▸ mutate (Mutation.run r.id RunStatus.succeeded false Code.none_set [])
    ▸ note EventKind.run_succeeded "run succeeded"

unfoldable pub complete_workflow : State → Builder → Builder
complete_workflow st b =
    b
    ▸ mutate (Mutation.workflow (wf_mut st WorkflowStage.completed RuntimeStatus.succeeded none))
    ▸ note EventKind.workflow_succeeded "workflow completed"
    ▸ with_run st succeed_run
    ▸ stop_processes st st.processes

unfoldable pub decide_complete : State → Result Fault Decision
decide_complete st = do
  refuse (st.workflow.id == "") (invalid_input "no workflow to complete")
  refuse (not (WorkflowStage.is_final_verification st.workflow.stage))
      (invalid_input "completion requires the FINAL_VERIFICATION stage")
  refuse (not (RuntimeStatus.is_running st.workflow.runtime))
      (invalid_input "completion requires a running workflow")
  refuse (has_blocking_finding st) (invalid_input "a blocking finding prevents completion")
  found ← final_verify_of st.nodes none
  final_verify ← need found (invariant_fault "completion requires a final verify node")
  fv ←
      need (succeeded_attempt_of st final_verify.id)
        (invalid_input "completion requires the succeeded final verify attempt with evidence")
  refuse (eqb (length fv.evidence) 0)
      (invalid_input "completion requires the succeeded final verify attempt with evidence")
  refuse (fv.start_head == "" || not (fv.start_head == delivery_head st)) (
      new_fault Code.evidence_subject_changed
        "the delivery head moved after the final review; completion requires the exact verified head")
  check_merges st st.nodes
  done (new_builder st ▸ complete_workflow st)
