-- ===== src/Model/WorkflowStage.antt =====
-- `WorkflowStage` of internal/model/state.go: a Go string type.
-- `undeclared` holds every other string, "" included.
use cflow.Base.{
  Bool, true, false, String, Option, none, some, List, [], ◌∷◌, read_as, if◌then◌else◌,
}
use cflow.Model.RuntimeStatus
use cflow.Model.RuntimeStatus.{RuntimeStatus}

pub data WorkflowStage : Type 0 where
  requirement_discussion plan_generation plan_check spec_generation workflow_generation :
      WorkflowStage
  execution final_verification completed : WorkflowStage
  undeclared : String → WorkflowStage

unfoldable pub is_valid : WorkflowStage → Bool
is_valid (undeclared s) = false
is_valid _ = true

unfoldable pub spell : WorkflowStage → String
spell requirement_discussion = "REQUIREMENT_DISCUSSION"
spell plan_generation = "PLAN_GENERATION"
spell plan_check = "PLAN_CHECK"
spell spec_generation = "SPEC_GENERATION"
spell workflow_generation = "WORKFLOW_GENERATION"
spell execution = "EXECUTION"
spell final_verification = "FINAL_VERIFICATION"
spell completed = "COMPLETED"
spell (undeclared s) = s

unfoldable pub declared : List WorkflowStage
declared =
    requirement_discussion ∷ plan_generation ∷ plan_check ∷ spec_generation ∷ workflow_generation
    ∷ execution ∷ final_verification ∷ completed ∷ []

-- The conversion of a string to the type.
unfoldable pub of_string : String → WorkflowStage
unfolding declared spell read_as
of_string = read_as spell undeclared declared

-- `none` is the error.
unfoldable pub parse : String → Option WorkflowStage
unfolding of_string is_valid
parse s = let v = of_string s in if is_valid v then some v else none

unfoldable pub can_transition_to : WorkflowStage → WorkflowStage → Bool
can_transition_to requirement_discussion plan_generation = true
can_transition_to plan_generation plan_check = true
can_transition_to plan_check requirement_discussion = true
can_transition_to plan_check plan_generation = true
can_transition_to plan_check spec_generation = true
can_transition_to spec_generation workflow_generation = true
can_transition_to spec_generation plan_generation = true
can_transition_to workflow_generation execution = true
can_transition_to execution final_verification = true
can_transition_to final_verification execution = true
can_transition_to final_verification completed = true
can_transition_to _ _ = false

unfoldable pub is_requirement_discussion : WorkflowStage → Bool
is_requirement_discussion requirement_discussion = true
is_requirement_discussion _ = false

unfoldable pub is_plan_check : WorkflowStage → Bool
is_plan_check plan_check = true
is_plan_check _ = false

unfoldable pub is_spec_generation : WorkflowStage → Bool
is_spec_generation spec_generation = true
is_spec_generation _ = false

unfoldable pub is_workflow_generation : WorkflowStage → Bool
is_workflow_generation workflow_generation = true
is_workflow_generation _ = false

unfoldable pub is_execution : WorkflowStage → Bool
is_execution execution = true
is_execution _ = false

unfoldable pub is_final_verification : WorkflowStage → Bool
is_final_verification final_verification = true
is_final_verification _ = false

unfoldable pub is_completed : WorkflowStage → Bool
is_completed completed = true
is_completed _ = false

-- The legal pairs of a stage and a runtime status.
unfoldable pub valid_with_runtime : WorkflowStage → RuntimeStatus → Bool
unfolding is_completed is_requirement_discussion RuntimeStatus.is_valid RuntimeStatus.is_pending
    RuntimeStatus.is_succeeded
valid_with_runtime s r =
    if is_completed s
    then RuntimeStatus.is_succeeded r
    else if RuntimeStatus.is_succeeded r
    then false
    else if RuntimeStatus.is_pending r
    then is_requirement_discussion s
    else RuntimeStatus.is_valid r

unfoldable pub is_plan_generation : WorkflowStage → Bool
is_plan_generation plan_generation = true
is_plan_generation _ = false
