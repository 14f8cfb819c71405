-- ===== src/Model/ArtifactType.antt =====
-- `ArtifactType` of internal/model/artifacts.go: a Go string type.
-- `undeclared` holds every other string, "" included.
use cflow.Base.{Bool, true, false, String}

pub data ArtifactType : Type 0 where
  plan spec workflow catalog report cleanup_manifest discussion_turn plan_check routing_policy :
      ArtifactType
  budget_policy change_set discussion_handoff : ArtifactType
  undeclared : String → ArtifactType

unfoldable pub is_valid : ArtifactType → Bool
is_valid (undeclared s) = false
is_valid _ = true

unfoldable pub spell : ArtifactType → String
spell plan = "plan"
spell spec = "spec"
spell workflow = "workflow"
spell catalog = "catalog"
spell report = "report"
spell cleanup_manifest = "cleanup-manifest"
spell discussion_turn = "discussion-turn"
spell plan_check = "plan-check"
spell routing_policy = "routing-policy"
spell budget_policy = "budget-policy"
spell change_set = "change-set"
spell discussion_handoff = "discussion-handoff"
spell (undeclared s) = s

unfoldable pub is_plan : ArtifactType → Bool
is_plan plan = true
is_plan _ = false

unfoldable pub is_catalog : ArtifactType → Bool
is_catalog catalog = true
is_catalog _ = false
