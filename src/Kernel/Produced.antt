-- ===== src/Kernel/Produced.antt =====
-- What internal/decision/planning.go does with a Provider's output: the body that is written, the
-- Finding of an output that is not accepted, and the transition that a written Artifact commits.
use cflow.Base.{
  ℕ, Bool, true, false, String, none, some, List, [], ◌∷◌, ◌==◌, ◌&&◌, ◌||◌, not, ◌&◌, ltb, eqb,
  if◌then◌else◌, length, decimal, ◌+◌,
}
use cflow.Base.Result.{Result, err, ok, ◌>>◌, ◌>>=◌, refuse, need}
use cflow.Model.WorkflowStage
use cflow.Model.WorkflowStage.{WorkflowStage}
use cflow.Model.RuntimeStatus.{RuntimeStatus}
use cflow.Model.AgentPurpose.{AgentPurpose}
use cflow.Model.ArtifactType
use cflow.Model.ArtifactType.{ArtifactType}
use cflow.Model.PlanStatus.{PlanStatus}
use cflow.Model.FaultScope.{FaultScope}
use cflow.Model.Evidence.{no_evidence}
use cflow.Model.Code.{Code}
use cflow.Model.Artifact.{ArtifactRef}
use cflow.Model.Fault.{Fault, invariant_fault, new_fault}
use cflow.Model.Runtime.{no_attempt, Finding, Session}
use cflow.Model.State.{State}
use cflow.Model.Effect.{EffectIntent}
use cflow.Model.Decision.{Decision, EventKind, Mutation}
use cflow.Kernel.Input.{EffectResultInput}
use cflow.Kernel.Builder.{
  Builder, ◌▸◌, done, new_builder, no_decision, mutate, event, note, effect, wf_mut, wf_mut_status,
}
use cflow.Kernel.Settle.{next_finding_id}
use cflow.Kernel.Codec.{Codec}
use cflow.Kernel.Chain.{session_end, reuses_provider_session}
use cflow.Base.{◌%◌, ◌^◌}
use cflow.Kernel.Discuss.{max_turn_text}
use cflow.Kernel.Gates.{change_stage}
use cflow.Kernel.Merge.{integration_row}
use cflow.Kernel.Output.{
  CheckDecision, assemble_plan_body, is_bounded, judge_patch, judge_specs, parse_check_result,
  validate_plan_markdown,
}
use cflow.Kernel.Planning.{record_artifact}

unfoldable pub schema_finding : State → Session → String → Finding
schema_finding st created text = record {
  id = next_finding_id st;
  code = Code.schema_invalid;
  scope = FaultScope.artifact;
  subject = created.id;
  blocking = false;
  text = text;
  evidence = no_evidence;
  seq = st.next_event_seq;
}

-- A failed Check returns the Plan to DRAFT.
unfoldable pub restore_plan : Bool → Builder → Builder
restore_plan restore b = if restore then b ▸ mutate (Mutation.plan PlanStatus.draft) else b

unfoldable pub invalid_output :
    State → EffectResultInput → Session → String → Bool → Result Fault Decision
invalid_output st input created text restore = done (
    new_builder st
    ▸ mutate (session_end st created input)
    ▸ restore_plan restore
    ▸ mutate (Mutation.finding_append (schema_finding st created text))
    ▸ event EventKind.finding_opened "" no_attempt Code.schema_invalid text)

-- A reference with the Workflow's identity, a type and a revision, and no hash yet.
unfoldable pub pending_ref : State → ArtifactType → ℕ → ArtifactRef
pending_ref st type revision = record {
  workflow = st.workflow.id;
  type = type;
  revision = revision;
  hash = "";
}

-- End the Session and write its output.
unfoldable pub end_and_write :
    State → EffectResultInput → Session → ArtifactRef → List ℕ → AgentPurpose → Builder → Builder
end_and_write st input created ref body producer b =
    b
    ▸ mutate (session_end st created input)
    ▸ effect (EffectIntent.artifact_write ref body producer created.id)

unfoldable pub decide_discussion_turn_result :
    Codec → State → EffectResultInput → Session → Result Fault Decision
decide_discussion_turn_result codec st input created =
    let bad =
      eqb (length input.body) 0
      || (ltb max_turn_text (length input.body) || not (codec.json_valid input.body)) in
    if bad
    then invalid_output st input created "requirement turn output is not a bounded JSON body" false
    else done (
        new_builder st
        ▸ end_and_write st input created (pending_ref st ArtifactType.discussion_turn 0) input.body
            AgentPurpose.planning)

unfoldable pub next_plan_revision : State → ℕ
next_plan_revision st = elim st.plan [ none ↦ 1 | some p ↦ p.revision + 1 ]

-- The body of an accepted Plan.
unfoldable pub plan_body : Codec → State → List ℕ → Result String (List ℕ)
plan_body codec st body = do
  title ← validate_plan_markdown codec body
  assemble_plan_body codec st (next_plan_revision st) title body

unfoldable pub decide_plan_generated :
    Codec → State → EffectResultInput → Session → Result Fault Decision
decide_plan_generated codec st input created = elim (plan_body codec st input.body) [
  | err text ↦ invalid_output st input created text false
  | ok body ↦ done (
      new_builder st
      ▸ end_and_write st input created (pending_ref st ArtifactType.plan (next_plan_revision st))
          body AgentPurpose.planning)
]

-- The body of an accepted check; without a Plan the code panics, and here it is an error.
unfoldable pub check_body : Codec → State → EffectResultInput → Session → Result String (List ℕ)
check_body codec st input created = do
  (out, decision) ← parse_check_result codec input.body
  plan ← need st.plan ""
  need (codec.marshal_check plan.revision plan.hash input.session.provider created.id st.now out) ""

unfoldable pub decide_check_result :
    Codec → State → EffectResultInput → Session → Result Fault Decision
decide_check_result codec st input created = do
  refuse (reuses_provider_session st created.id input.session.provider_session_id) (
      new_fault Code.session_independence_violation
        "the checker session reuses an existing session's provider session id")
  elim (check_body codec st input created) [
    | err text ↦ invalid_output st input created text true
    | ok body ↦ done (
        new_builder st
        ▸ end_and_write st input created (pending_ref st ArtifactType.plan_check 0) body
            AgentPurpose.plan_check)
  ]

-- The Catalog Revision that the Runtime validated, where the result carries one.
unfoldable pub record_catalog : EffectResultInput → Builder → Builder
record_catalog input b =
    if ArtifactType.is_catalog input.catalog_ref.type
      && (not (eqb input.catalog_ref.revision 0) && not (input.catalog_ref.hash == ""))
    then b ▸ record_artifact input.catalog_ref
    else b

unfoldable pub decide_specs_generated :
    Codec → State → EffectResultInput → Session → Result Fault Decision
decide_specs_generated codec st input created = elim (judge_specs codec input.body) [
  | err text ↦ invalid_output st input created text false
  | ok body ↦ done (
      new_builder st
      ▸ record_catalog input
      ▸ end_and_write st input created (pending_ref st ArtifactType.spec 0) body
          AgentPurpose.spec_generation)
]

unfoldable pub decide_patch_proposed :
    Codec → State → EffectResultInput → Session → Result Fault Decision
decide_patch_proposed codec st input created = elim (judge_patch codec input.body) [
  | err text ↦ invalid_output st input created text false
  | ok _ ↦ done (
      new_builder st
      ▸ mutate (session_end st created input)
      ▸ effect (EffectIntent.workflow_compile input.body))
]

-- The n-th Finding of a compilation, n from 0 on.
unfoldable pub compile_finding : State → ℕ → Code → String → Finding
compile_finding st n code text = record {
  id = "finding-" & decimal (length st.findings + (n + 1));
  code = code;
  scope = FaultScope.workflow_revision;
  subject = st.workflow.id;
  blocking = false;
  text = text;
  evidence = no_evidence;
  seq = (st.next_event_seq + n) % 2 ^ 64;
}

-- The loop over the operations of one list, from the n-th Finding on.
unfoldable pub record_operations : State → Code → String → ℕ → List String → Builder → Builder
record_operations st code prefix n [] b = b
record_operations st code prefix n (op ∷ ops) b = record_operations st code prefix (n + 1) ops (
    b
    ▸ mutate (Mutation.finding_append (compile_finding st n code (prefix & op)))
    ▸ event EventKind.finding_opened "" no_attempt code (prefix & op))

unfoldable pub decide_workflow_compiled : State → EffectResultInput → Result Fault Decision
decide_workflow_compiled st input = do
  refuse (not (is_bounded input.body))
      (invariant_fault "compiled workflow body is empty or exceeds the bounded size")
  done (
      new_builder st
      ▸ record_operations st Code.workflow_patch_forbidden "rejected patch: " 0 input.rejected_ops
      ▸ record_operations st Code.workflow_patch_applied "applied patch: "
          (length input.rejected_ops) input.applied_ops
      ▸ effect (
          EffectIntent.artifact_write (pending_ref st ArtifactType.workflow 0) input.body
            AgentPurpose.workflow_optimization ""))

unfoldable pub decide_integration_worktree_created :
    State → EffectResultInput → Result Fault Decision
decide_integration_worktree_created st input = do
  refuse (input.integration_head == "")
      (invariant_fault "integration worktree result carries no head")
  done (new_builder st ▸ mutate (Mutation.workflow (integration_row st input.integration_head)))

unfoldable pub spec_revision_recorded : State → ArtifactRef → Builder → Builder
spec_revision_recorded st ref b =
    let recorded = b ▸ record_artifact ref in
    if WorkflowStage.is_workflow_generation st.workflow.stage
    then recorded
    else recorded
      ▸ change_stage st WorkflowStage.workflow_generation st.workflow.runtime
          "stage changed to WORKFLOW_GENERATION"

unfoldable pub plan_revision_recorded : State → ArtifactRef → Builder → Builder
plan_revision_recorded st ref b =
    b
    ▸ record_artifact ref
    ▸ mutate (Mutation.plan PlanStatus.draft)
    ▸ mutate (
        Mutation.workflow
          (wf_mut st WorkflowStage.plan_check st.workflow.runtime st.workflow.cancel_intent))
    ▸ note EventKind.plan_generated "plan revision recorded"
    ▸ note EventKind.stage_changed "stage changed to PLAN_CHECK"

-- The Workflow pauses with the Plan in a status.
unfoldable pub pause_with_plan :
    State → PlanStatus → EventKind → String → String → Builder → Builder
pause_with_plan st status kind text paused b =
    b
    ▸ mutate (Mutation.plan status)
    ▸ mutate (Mutation.workflow (wf_mut_status st RuntimeStatus.paused))
    ▸ note kind text
    ▸ note EventKind.workflow_paused paused

-- The Workflow goes back to a stage with the Plan in DRAFT.
unfoldable pub return_to_stage :
    State → WorkflowStage → EventKind → String → String → Builder → Builder
return_to_stage st stage kind text changed b =
    b
    ▸ mutate (Mutation.plan PlanStatus.draft)
    ▸ mutate (Mutation.workflow (wf_mut st stage RuntimeStatus.running st.workflow.cancel_intent))
    ▸ note kind text
    ▸ note EventKind.stage_changed changed

-- The switch over the Checker's decision.
unfoldable pub apply_check : State → CheckDecision → Builder → Builder
apply_check st CheckDecision.pass b =
    pause_with_plan st PlanStatus.checked EventKind.plan_check_passed "plan check passed"
      "workflow paused for plan approval" b
apply_check st CheckDecision.needs_revision b =
    return_to_stage st WorkflowStage.plan_generation EventKind.plan_check_needs_revision
      "plan check needs revision" "stage changed to PLAN_GENERATION" b
apply_check st CheckDecision.needs_discussion b =
    return_to_stage st WorkflowStage.requirement_discussion EventKind.plan_check_needs_discussion
      "plan check needs discussion" "stage changed to REQUIREMENT_DISCUSSION" b
apply_check st CheckDecision.reject b =
    pause_with_plan st PlanStatus.rejected EventKind.plan_check_rejected "plan check rejected"
      "workflow paused after plan rejection" b

unfoldable pub check_result_committed : Codec → State → EffectResultInput → Result Fault Decision
check_result_committed codec st input = elim (parse_check_result codec input.body) [
  | err text ↦ err (invariant_fault "check artifact body cannot be re-judged")
  | ok (out, decision) ↦
      done (new_builder st ▸ record_artifact input.artifact ▸ apply_check st decision)
]

-- The switch over the type of a written Artifact.
unfoldable pub commit_artifact :
    Codec → State → EffectResultInput → ArtifactType → Result Fault Decision
commit_artifact codec st input ArtifactType.plan =
    done (plan_revision_recorded st input.artifact (new_builder st))
commit_artifact codec st input ArtifactType.discussion_turn = ok no_decision
commit_artifact codec st input ArtifactType.discussion_handoff = ok no_decision
commit_artifact codec st input ArtifactType.plan_check = check_result_committed codec st input
commit_artifact codec st input ArtifactType.spec =
    done (spec_revision_recorded st input.artifact (new_builder st))
commit_artifact codec st input ArtifactType.workflow =
    done (record_artifact input.artifact (new_builder st))
commit_artifact codec st input _ =
    err (invariant_fault "artifact write result for an unexpected type")

unfoldable pub decide_artifact_written : Codec → State → EffectResultInput → Result Fault Decision
decide_artifact_written codec st input = do
  refuse
      (not (input.artifact.workflow == st.workflow.id)
        || (not (ArtifactType.is_valid input.artifact.type)
            || (eqb input.artifact.revision 0 || input.artifact.hash == "")))
      (invariant_fault "artifact write result carries an invalid reference")
  commit_artifact codec st input input.artifact.type
