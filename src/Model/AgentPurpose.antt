-- ===== src/Model/AgentPurpose.antt =====
-- `AgentPurpose` of internal/model/runtime.go: a Go string type.
-- `undeclared` holds every other string, "" included.
use cflow.Base.{Bool, true, false, String}

pub data AgentPurpose : Type 0 where
  planning plan_check spec_generation workflow_optimization implementation repair review :
      AgentPurpose
  final_verification adoption apply_verification : AgentPurpose
  undeclared : String → AgentPurpose

unfoldable pub is_valid : AgentPurpose → Bool
is_valid (undeclared s) = false
is_valid _ = true

unfoldable pub spell : AgentPurpose → String
spell planning = "planning"
spell plan_check = "plan-check"
spell spec_generation = "spec-generation"
spell workflow_optimization = "workflow-optimization"
spell implementation = "implementation"
spell repair = "repair"
spell review = "review"
spell final_verification = "final-verification"
spell adoption = "adoption"
spell apply_verification = "apply-verification"
spell (undeclared s) = s

unfoldable pub is_planning : AgentPurpose → Bool
is_planning planning = true
is_planning _ = false

unfoldable pub is_implementation : AgentPurpose → Bool
is_implementation implementation = true
is_implementation _ = false

unfoldable pub is_repair : AgentPurpose → Bool
is_repair repair = true
is_repair _ = false

unfoldable pub is_review : AgentPurpose → Bool
is_review review = true
is_review _ = false

unfoldable pub is_plan_check : AgentPurpose → Bool
is_plan_check plan_check = true
is_plan_check _ = false

unfoldable pub is_apply_verification : AgentPurpose → Bool
is_apply_verification apply_verification = true
is_apply_verification _ = false
