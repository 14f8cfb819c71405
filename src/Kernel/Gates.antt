-- ===== src/Kernel/Gates.antt =====
-- The planning and approval gates of internal/decision/workflow.go: the Plan and its check, the Specs,
-- the compilation, the Execution Dry Run and the two user approvals.
use cflow.Base.{
  ℕ, Bool, false, String, List, [], ◌∷◌, ◌==◌, ◌&&◌, ◌||◌, not, ◌&◌, leb, ltb, eqb, if◌then◌else◌,
  length,
}
use cflow.Base.Result.{Result, ◌>>◌, ◌>>=◌, refuse, need}
use cflow.Model.WorkflowStage
use cflow.Model.WorkflowStage.{WorkflowStage}
use cflow.Model.RuntimeStatus
use cflow.Model.RuntimeStatus.{RuntimeStatus}
use cflow.Model.RunStatus.{RunStatus}
use cflow.Model.AgentPurpose.{AgentPurpose}
use cflow.Model.ArtifactType
use cflow.Model.ArtifactType.{ArtifactType}
use cflow.Model.ApprovalKind.{ApprovalKind}
use cflow.Model.PlanStatus
use cflow.Model.PlanStatus.{PlanStatus}
use cflow.Model.Code
use cflow.Model.Code.{Code}
use cflow.Model.Artifact.{ArtifactRef, Approval, ExecutionFacts, matches, ref_text, same_ref}
use cflow.Model.Fault.{Fault, invalid_input, invariant_fault, new_fault}
use cflow.Model.Runtime.{Run}
use cflow.Model.State.{State}
use cflow.Model.Effect.{EffectIntent}
use cflow.Model.Decision.{Decision, EventKind, Mutation, WorkflowMutation}
use cflow.Kernel.Builder.{
  Builder, ◌▸◌, done, new_builder, mutate, note, effect, wf_mut, wf_mut_status,
}
use cflow.Kernel.Settle.{with_run}
use cflow.Kernel.Control.{open_run}
use cflow.Kernel.Deliver.{next_approval_id}
use cflow.Kernel.Replace.{execution_refs, first_spec_hash}
use cflow.Kernel.Drift.{PreflightFacts, preflight_succeeded, record_preflight}
use cflow.Kernel.Planning.{
  has_native_discussion_lineage, may_plan, may_start, opened_run, planning_runtime_allowed,
  record_artifact, start_fresh, start_if_needed, start_planner,
}

pub record GeneratePlanInput : Type 0 where
  pub provider : String
  pub session : String
  pub handoff_ref : ArtifactRef
  pub change_set_ref : ArtifactRef

-- The stages of a Plan generation.
unfoldable pub generates_plan : WorkflowStage → Bool
generates_plan s =
    WorkflowStage.is_requirement_discussion s
    || (WorkflowStage.is_plan_generation s
        || (WorkflowStage.is_plan_check s || WorkflowStage.is_spec_generation s))

-- Both discussion inputs, or neither and no native lineage.
unfoldable pub check_discussion : State → GeneratePlanInput → Result Fault Unit
check_discussion st input =
    if input.handoff_ref.hash == "" && input.change_set_ref.hash == ""
    then refuse (has_native_discussion_lineage st) (
        new_fault Code.approval_input_changed
          "plan generation requires both the discussion handoff and the frozen change set for a native discussion")
    else refuse (input.handoff_ref.hash == "" || input.change_set_ref.hash == "") (
        new_fault Code.approval_input_changed
          "plan generation requires both the discussion handoff and the frozen change set")

-- The switch over the status: a PENDING or PAUSED Workflow opens a Run first.
unfoldable pub plan_run : State → RuntimeStatus → Builder → Builder
plan_run st RuntimeStatus.pending b =
    b ▸ opened_run st EventKind.workflow_started "workflow started"
plan_run st RuntimeStatus.paused b = b ▸ opened_run st EventKind.workflow_resumed "workflow resumed"
plan_run st _ b = b

unfoldable pub plan_runtime : RuntimeStatus → RuntimeStatus
plan_runtime RuntimeStatus.pending = RuntimeStatus.running
plan_runtime RuntimeStatus.paused = RuntimeStatus.running
plan_runtime rt = rt

-- Move the Workflow to a stage with a status.
unfoldable pub change_stage : State → WorkflowStage → RuntimeStatus → String → Builder → Builder
change_stage st stage rt text b =
    b
    ▸ mutate (Mutation.workflow (wf_mut st stage rt st.workflow.cancel_intent))
    ▸ note EventKind.stage_changed text

unfoldable pub decide_generate_plan : State → GeneratePlanInput → Result Fault Decision
decide_generate_plan st input = do
  may_plan st "no workflow to generate a plan for" (generates_plan st.workflow.stage) ""
  may_start st input.provider input.session
  check_discussion st input
  done (
      new_builder st
      ▸ plan_run st st.workflow.runtime
      ▸ change_stage st WorkflowStage.plan_generation (plan_runtime st.workflow.runtime)
          "stage changed to PLAN_GENERATION"
      ▸ start_planner st input.session input.provider)

-- A planning command that names a Provider and a Session, as `CheckPlanInput` and
-- `WorkflowCompilationInput` do.
pub record PlanningInput : Type 0 where
  pub provider : String
  pub session : String

unfoldable pub decide_check_plan : State → PlanningInput → Result Fault Decision
decide_check_plan st input = do
  refuse (st.workflow.id == "") (invalid_input "no workflow to check")
  refuse (not (WorkflowStage.is_plan_check st.workflow.stage))
      (invalid_input "plan check requires the PLAN_CHECK stage")
  plan ← need st.plan (invalid_input "no plan to check")
  refuse (not (PlanStatus.is_draft plan.status)) (invalid_input "plan must be DRAFT before check")
  refuse (not (planning_runtime_allowed st.workflow.runtime)) (invalid_input "")
  may_start st input.provider input.session
  done (
      new_builder st
      ▸ mutate (Mutation.plan PlanStatus.checking)
      ▸ start_if_needed st
      ▸ start_fresh input.session AgentPurpose.plan_check input.provider)

pub record PlanApprovalInput : Type 0 where
  pub plan_ref : ArtifactRef
  pub hash : String

unfoldable pub plan_approval : State → ArtifactRef → Approval
plan_approval st ref = record {
  id = next_approval_id st;
  kind = ApprovalKind.plan;
  seq = st.next_event_seq;
  refs = ref ∷ [];
  fingerprint = "";
  preflight_revision = 0;
  decision_context = "";
}

unfoldable pub approve_plan : State → ArtifactRef → Builder → Builder
approve_plan st ref b =
    b
    ▸ mutate (Mutation.plan PlanStatus.approved)
    ▸ mutate (Mutation.approval_append (plan_approval st ref))
    ▸ mutate (
        Mutation.workflow
          (wf_mut st WorkflowStage.spec_generation st.workflow.runtime st.workflow.cancel_intent))
    ▸ note EventKind.plan_approved "plan approved"
    ▸ note EventKind.stage_changed "stage changed to SPEC_GENERATION"

unfoldable pub decide_plan_approval : State → PlanApprovalInput → Result Fault Decision
decide_plan_approval st input = do
  plan ← need st.plan (invalid_input "no plan to approve")
  refuse (not (same_ref plan.artifact input.plan_ref) || not (plan.hash == input.hash))
      (new_fault Code.approval_input_changed "plan revision or hash changed since it was checked")
  refuse (not (PlanStatus.is_checked plan.status))
      (invalid_input "plan must be CHECKED before approval")
  refuse (not (WorkflowStage.is_plan_check st.workflow.stage))
      (invalid_input "plan approval requires the PLAN_CHECK stage")
  done (new_builder st ▸ approve_plan st input.plan_ref)

pub record ExecutionApprovalInput : Type 0 where
  pub plan_hash : String
  pub spec_hashes : List String
  pub catalog_hash : String
  pub workflow_hash : String
  pub routing_hash : String
  pub budget_hash : String
  pub commit_policy_hash : String
  pub change_set_hash : String

unfoldable pub execution_approval : State → ExecutionFacts → ℕ → String → Approval
execution_approval st facts plan spec = record {
  id = next_approval_id st;
  kind = ApprovalKind.execution;
  seq = st.next_event_seq;
  refs = execution_refs st facts plan spec;
  fingerprint = facts.fingerprint;
  preflight_revision = facts.preflight_revision;
  decision_context = "";
}

unfoldable pub integration_branch : String → String
integration_branch workflow = "cflow/" & workflow & "/integration"

-- The row of the entry into EXECUTION: the legacy layout records its Integration Branch.
unfoldable pub execution_row : State → WorkflowMutation
execution_row st =
    let row = wf_mut st WorkflowStage.execution RuntimeStatus.running st.workflow.cancel_intent in
    let branch = integration_branch st.workflow.id in
    record row {
      integration_branch =
          if leb 2 st.workflow.layout_version then st.workflow.integration_branch else branch;
    }

unfoldable pub request_integration : State → Builder → Builder
request_integration st b =
    if ltb st.workflow.layout_version 2
    then b
      ▸ effect (EffectIntent.integration_worktree_create st.workflow.id st.workflow.base_commit)
    else b

unfoldable pub approve_execution : State → ExecutionFacts → ℕ → String → Builder → Builder
approve_execution st facts plan spec b =
    b
    ▸ mutate (Mutation.approval_append (execution_approval st facts plan spec))
    ▸ open_run st
    ▸ mutate (Mutation.workflow (execution_row st))
    ▸ note EventKind.run_started "run started"
    ▸ note EventKind.workflow_resumed "workflow resumed into execution"
    ▸ note EventKind.execution_approved "execution approved"
    ▸ note EventKind.stage_changed "stage changed to EXECUTION"
    ▸ request_integration st

unfoldable pub decide_execution_approval : State → ExecutionApprovalInput → Result Fault Decision
decide_execution_approval st input = do
  facts ← need st.workflow.execution_facts (invalid_input "no execution facts awaiting approval")
  refuse (not (WorkflowStage.is_workflow_generation st.workflow.stage))
      (invalid_input "execution approval requires the WORKFLOW_GENERATION stage")
  refuse (not (RuntimeStatus.is_paused st.workflow.runtime))
      (invalid_input "execution approval requires the paused Dry Run gate")
  plan ← need st.plan (invalid_input "execution approval requires the approved plan reference")
  refuse
      (not (
        matches facts input.plan_hash input.spec_hashes input.catalog_hash input.workflow_hash
          input.routing_hash input.budget_hash input.commit_policy_hash input.change_set_hash))
      (new_fault Code.approval_input_changed "execution facts changed since the approval preview")
  spec ← need (first_spec_hash facts) (invariant_fault "index out of range")
  done (new_builder st ▸ approve_execution st facts plan.revision spec)

pub record SpecGenerationInput : Type 0 where
  pub provider : String
  pub session : String
  pub catalog_ref : ArtifactRef

unfoldable pub decide_spec_generation : State → SpecGenerationInput → Result Fault Decision
decide_spec_generation st input = do
  may_plan st "no workflow to generate specs for"
      (WorkflowStage.is_spec_generation st.workflow.stage
        || WorkflowStage.is_workflow_generation st.workflow.stage)
      ""
  may_start st input.provider input.session
  refuse
      (not (ArtifactType.is_catalog input.catalog_ref.type)
        || (eqb input.catalog_ref.revision 0 || input.catalog_ref.hash == ""))
      (invalid_input "the verification catalog revision is required")
  done (
      new_builder st
      ▸ record_artifact input.catalog_ref
      ▸ start_if_needed st
      ▸ start_fresh input.session AgentPurpose.spec_generation input.provider)

unfoldable pub decide_workflow_compilation : State → PlanningInput → Result Fault Decision
decide_workflow_compilation st input = do
  may_plan st "no workflow to compile" (WorkflowStage.is_workflow_generation st.workflow.stage)
      "workflow compilation requires the WORKFLOW_GENERATION stage"
  may_start st input.provider input.session
  done
      (new_builder st ▸ start_fresh input.session AgentPurpose.workflow_optimization input.provider)

pub record ExecutionDryRunInput : Type 0 where
  pub preflight : PreflightFacts
  pub routing_ref : ArtifactRef
  pub budget_ref : ArtifactRef
  pub change_set_ref : ArtifactRef

-- An optional reference of a type at its own text.
unfoldable pub record_policy : ArtifactType → ArtifactRef → Builder → Builder
record_policy type ref b =
    if ref.hash == ""
    then b
    else b ▸ mutate (Mutation.artifact_ref type ref.revision (ref_text ref) ref.hash)

-- The four execution inputs are bound.
unfoldable pub is_complete : ExecutionFacts → Bool
is_complete facts =
    not (facts.plan_hash == "")
    && (not (eqb (length facts.spec_hashes) 0)
        && (not (facts.catalog_hash == "") && not (facts.workflow_hash == "")))

unfoldable pub interrupt_at_gate : Run → Builder → Builder
interrupt_at_gate r b =
    b
    ▸ mutate (Mutation.run r.id RunStatus.interrupted false Code.none_set [])
    ▸ note EventKind.run_interrupted "run interrupted at the approval gate"

unfoldable pub decide_execution_dry_run : State → ExecutionDryRunInput → Result Fault Decision
decide_execution_dry_run st input = do
  refuse (st.workflow.id == "") (invalid_input "no workflow for an execution dry run")
  refuse (not (WorkflowStage.is_workflow_generation st.workflow.stage))
      (invalid_input "execution dry run requires the WORKFLOW_GENERATION stage")
  refuse (not (RuntimeStatus.is_running st.workflow.runtime))
      (invalid_input "execution dry run requires a running workflow")
  facts ← need st.workflow.execution_facts (
      invalid_input
        "execution inputs are incomplete; generate specs and compile the workflow first")
  refuse (not (is_complete facts)) (
      invalid_input
        "execution inputs are incomplete; generate specs and compile the workflow first")
  refuse (not (preflight_succeeded input.preflight))
      (invalid_input "a successful commit preflight is required before the execution dry run")
  done (
      new_builder st
      ▸ record_preflight facts input.preflight
      ▸ record_policy ArtifactType.routing_policy input.routing_ref
      ▸ record_policy ArtifactType.budget_policy input.budget_ref
      ▸ record_policy ArtifactType.change_set input.change_set_ref
      ▸ mutate (Mutation.workflow (wf_mut_status st RuntimeStatus.paused))
      ▸ note EventKind.workflow_paused "workflow paused for execution approval"
      ▸ with_run st interrupt_at_gate)
