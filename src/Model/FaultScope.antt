-- ===== src/Model/FaultScope.antt =====
-- `FaultScope` of internal/model/fault.go: a Go string type.
-- `undeclared` holds every other string, "" included.
use cflow.Base.{Bool, true, false, String}

pub data FaultScope : Type 0 where
  input project workflow workflow_revision run node attempt session plan artifact approval :
      FaultScope
  branch apply cleanup database : FaultScope
  undeclared : String → FaultScope

unfoldable pub is_valid : FaultScope → Bool
is_valid (undeclared s) = false
is_valid _ = true

unfoldable pub spell : FaultScope → String
spell input = "INPUT"
spell project = "PROJECT"
spell workflow = "WORKFLOW"
spell workflow_revision = "WORKFLOW_REVISION"
spell run = "RUN"
spell node = "NODE"
spell attempt = "ATTEMPT"
spell session = "SESSION"
spell plan = "PLAN"
spell artifact = "ARTIFACT"
spell approval = "APPROVAL"
spell branch = "BRANCH"
spell apply = "APPLY"
spell cleanup = "CLEANUP"
spell database = "DATABASE"
spell (undeclared s) = s
