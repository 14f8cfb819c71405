-- ===== src/Kernel/Provider.antt =====
-- `decideProviderRunEnded` of internal/decision/planning.go with the settlements that it selects.
use cflow.Base.{Bool, true, false, none, some, ◌==◌, ◌&&◌, ◌||◌, not, if◌then◌else◌}
use cflow.Base.Result.{Result, err, ok, ◌>>◌, ◌>>=◌, refuse, need}
use cflow.Model.WorkflowStage
use cflow.Model.WorkflowStage.{WorkflowStage}
use cflow.Model.SessionStatus
use cflow.Model.SessionStatus.{SessionStatus}
use cflow.Model.AttemptOutcome.{AttemptOutcome}
use cflow.Model.AgentPurpose
use cflow.Model.AgentPurpose.{AgentPurpose}
use cflow.Model.PlanStatus
use cflow.Model.PlanStatus.{PlanStatus}
use cflow.Model.FaultScope.{FaultScope}
use cflow.Model.Evidence.{no_evidence}
use cflow.Model.Code
use cflow.Model.Code.{Code}
use cflow.Model.Fault.{Fault, invalid_input, invariant_fault, new_fault}
use cflow.Model.Runtime.{no_attempt, Attempt, Finding, Node, Session}
use cflow.Model.State.{State, node_at}
use cflow.Model.Decision.{Decision, EventKind, Mutation}
use cflow.Kernel.Input.{EffectResultInput}
use cflow.Kernel.Facts.{find_session}
use cflow.Kernel.Builder.{Builder, ◌▸◌, done, new_builder, mutate, event}
use cflow.Kernel.Settle.{next_finding_id}
use cflow.Kernel.Attempt.{decide_attempt_failure, settle_interrupted}
use cflow.Kernel.Codec.{Codec}
use cflow.Kernel.Chain.{session_end, code_or, attempt_by_session, ended_input}
use cflow.Kernel.Adopt.{
  decide_adoption_coding_run_ended, decide_adoption_review_run_ended, has_attempt,
}
use cflow.Kernel.Apply.{apply_attempt_staging}
use cflow.Kernel.Deliver.{decide_apply_review_failed, decide_apply_review_run_ended}
use cflow.Kernel.Produced.{
  decide_check_result, decide_discussion_turn_result, decide_patch_proposed, decide_plan_generated,
  decide_specs_generated, restore_plan,
}
use cflow.Kernel.Verify.{decide_review_run_ended}

-- A failed run leaves a Plan that is CHECKING in DRAFT.
unfoldable pub restores_plan : State → Session → Bool
restores_plan st created =
    AgentPurpose.is_plan_check created.purpose
    && elim st.plan [ none ↦ false | some p ↦ PlanStatus.is_checking p.status ]

unfoldable pub session_finding : State → Session → Code → Finding
session_finding st created code = record {
  id = next_finding_id st;
  code = code;
  scope = FaultScope.session;
  subject = created.id;
  blocking = false;
  text = Code.spell code;
  evidence = no_evidence;
  seq = st.next_event_seq;
}

unfoldable pub settle_session_finding :
    State → EffectResultInput → Session → Code → Result Fault Decision
settle_session_finding st input created code = done (
    new_builder st
    ▸ restore_plan (restores_plan st created)
    ▸ mutate (session_end st created input)
    ▸ mutate (Mutation.finding_append (session_finding st created code))
    ▸ event EventKind.finding_opened "" no_attempt code "provider run failed")

-- The guards on the successor Session of a fallback.
unfoldable pub check_successor : Session → Session → Result Fault Unit
check_successor created s = do
  refuse (not (AgentPurpose.spell s.purpose == AgentPurpose.spell created.purpose)) (
      new_fault Code.session_independence_violation
        "the fallback successor must keep the lost session's purpose")
  refuse (not (s.supersedes == created.id)) (invariant_fault "")
  refuse (s.provider == "") (invalid_input "fallback successor carries no provider")
  refuse (not (SessionStatus.is_starting s.status))
      (invalid_input "fallback successor must be allocated STARTING")

unfoldable pub append_fallback_successor :
    Session → EffectResultInput → Builder → Result Fault Builder
append_fallback_successor created input b =
    let s = input.successor_session in
    if s.id == ""
    then ok b
    else check_successor created s >> ok (b ▸ mutate (Mutation.session_append s s.provider))

-- The end of an Attempt whose Session the user interrupted.
unfoldable pub interrupted_end : Attempt → EffectResultInput → EffectResultInput
interrupted_end attempt input =
    let base = ended_input attempt.key AttemptOutcome.interrupted Code.user_interrupted in
    record base { end_head = input.end_head }

unfoldable pub failed_end : Attempt → EffectResultInput → Code → EffectResultInput
failed_end attempt input code =
    let base = ended_input attempt.key AttemptOutcome.failed code in
    record base { end_head = input.end_head; successor_session = input.successor_session }

-- The RUNNING Attempt of a failed Session and its Node.
unfoldable pub settle_attempt_failure :
    State → EffectResultInput → Session → Code → Attempt → Node → Result Fault Decision
settle_attempt_failure st input created code attempt node =
    let b = new_builder st ▸ mutate (session_end st created input) in
    if Code.same code Code.user_interrupted
    then done (b ▸ settle_interrupted st node attempt (interrupted_end attempt input))
    else append_fallback_successor created input b >>= λ c.
        decide_attempt_failure st node attempt (failed_end attempt input code) code c

unfoldable pub settle_execution_session_failure :
    State → EffectResultInput → Session → Code → Result Fault Decision
settle_execution_session_failure st input created code = elim (attempt_by_session st created.id) [
  | none ↦ settle_session_finding st input created code
  | some attempt ↦ need (node_at st.nodes attempt.key.node) (invariant_fault "") >>= λ node.
      settle_attempt_failure st input created code attempt node
]

-- `decideImplementationRunEnded` of dispatch.go: the Session's facts only.
unfoldable pub decide_implementation_run_ended :
    State → EffectResultInput → Session → Result Fault Decision
decide_implementation_run_ended st input created =
    done (new_builder st ▸ mutate (session_end st created input))

unfoldable pub unexpected_stage : Result Fault Decision
unexpected_stage = err (invariant_fault "provider run completed in an unexpected stage")

-- The switch over the stage of a completed planning run.
unfoldable pub planning_completed :
    Codec → State → EffectResultInput → Session → WorkflowStage → Result Fault Decision
planning_completed codec st input created WorkflowStage.requirement_discussion =
    decide_discussion_turn_result codec st input created
planning_completed codec st input created WorkflowStage.plan_generation =
    decide_plan_generated codec st input created
planning_completed codec st input created _ = unexpected_stage

-- A Reviewer with an Attempt reviews a task, one without the adopted Workspace.
unfoldable pub review_completed :
    Codec → State → EffectResultInput → Session → Result Fault Decision
review_completed codec st input created =
    if has_attempt st created
    then decide_review_run_ended codec st input created
    else decide_adoption_review_run_ended codec st input created

unfoldable pub when_stage : Bool → Result Fault Decision → Result Fault Decision
when_stage t k = if t then k else unexpected_stage

-- COMPLETED with an Apply Attempt in its staging.
unfoldable pub is_reviewing_apply : State → Bool
is_reviewing_apply st =
    WorkflowStage.is_completed st.workflow.stage
    && elim (apply_attempt_staging st) [ none ↦ false | some _ ↦ true ]

-- The switch over the purpose of a completed run.
unfoldable pub run_completed :
    Codec → State → EffectResultInput → Session → AgentPurpose → Result Fault Decision
run_completed codec st input created AgentPurpose.planning =
    planning_completed codec st input created st.workflow.stage
run_completed codec st input created AgentPurpose.plan_check =
    when_stage (WorkflowStage.is_plan_check st.workflow.stage)
      (decide_check_result codec st input created)
run_completed codec st input created AgentPurpose.spec_generation =
    when_stage
      (WorkflowStage.is_spec_generation st.workflow.stage
        || WorkflowStage.is_workflow_generation st.workflow.stage)
      (decide_specs_generated codec st input created)
run_completed codec st input created AgentPurpose.workflow_optimization =
    when_stage (WorkflowStage.is_workflow_generation st.workflow.stage)
      (decide_patch_proposed codec st input created)
run_completed codec st input created AgentPurpose.implementation =
    when_stage (WorkflowStage.is_execution st.workflow.stage)
      (decide_implementation_run_ended st input created)
run_completed codec st input created AgentPurpose.repair =
    when_stage (WorkflowStage.is_execution st.workflow.stage)
      (decide_implementation_run_ended st input created)
run_completed codec st input created AgentPurpose.adoption =
    when_stage (WorkflowStage.is_execution st.workflow.stage)
      (decide_adoption_coding_run_ended codec st input created)
run_completed codec st input created AgentPurpose.review =
    when_stage (WorkflowStage.is_execution st.workflow.stage)
      (review_completed codec st input created)
run_completed codec st input created AgentPurpose.final_verification =
    when_stage (WorkflowStage.is_final_verification st.workflow.stage)
      (decide_review_run_ended codec st input created)
run_completed codec st input created AgentPurpose.apply_verification =
    when_stage (is_reviewing_apply st) (decide_apply_review_run_ended codec st input created)
run_completed codec st input created (AgentPurpose.undeclared _) = unexpected_stage

-- The purposes that share a case of the switch over a failed run.
unfoldable pub executes : AgentPurpose → Bool
executes AgentPurpose.implementation = true
executes AgentPurpose.review = true
executes AgentPurpose.repair = true
executes _ = false

-- The switch over the purpose of a failed or cancelled run.
unfoldable pub run_failed :
    Codec → State → EffectResultInput → Session → Code → AgentPurpose → Result Fault Decision
run_failed codec st input created code AgentPurpose.adoption =
    if WorkflowStage.is_execution st.workflow.stage
    then decide_adoption_coding_run_ended codec st input created
    else settle_session_finding st input created code
run_failed codec st input created code AgentPurpose.final_verification =
    if WorkflowStage.is_final_verification st.workflow.stage
    then settle_execution_session_failure st input created code
    else settle_session_finding st input created code
run_failed codec st input created code AgentPurpose.apply_verification =
    if is_reviewing_apply st
    then decide_apply_review_failed st input created code
    else settle_session_finding st input created code
run_failed codec st input created code purpose =
    if executes purpose && WorkflowStage.is_execution st.workflow.stage
    then settle_execution_session_failure st input created code
    else settle_session_finding st input created code

unfoldable pub decide_provider_run_ended : Codec → State → EffectResultInput → Result Fault Decision
decide_provider_run_ended codec st input = do
  refuse (input.session.id == "" || not (AgentPurpose.is_valid input.session.purpose))
      (invalid_input "provider run result carries no valid session")
  created ←
      need (find_session st input.session.id)
        (invariant_fault "provider run result references unknown session")
  refuse (not (AgentPurpose.spell created.purpose == AgentPurpose.spell input.session.purpose)) (
      new_fault Code.session_independence_violation
        "provider run result changed the session purpose")
  let code = code_or input.failure_code Code.agent_process_crashed
  if SessionStatus.is_completed input.session.status
      then run_completed codec st input created created.purpose
      else refuse (not (SessionStatus.is_terminal input.session.status))
          (invariant_fault "provider run result carries non-terminal session status")
        >> run_failed codec st input created code created.purpose
