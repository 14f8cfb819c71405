-- ===== src/Model/NodeKind.antt =====
-- `NodeKind` of internal/model/runtime.go: a Go string type.
-- `undeclared` holds every other string, "" included.
use cflow.Base.{Bool, true, false, String}

pub data NodeKind : Type 0 where
  agent_task verify review merge checkpoint final_verify : NodeKind
  undeclared : String → NodeKind

unfoldable pub is_valid : NodeKind → Bool
is_valid (undeclared s) = false
is_valid _ = true

unfoldable pub spell : NodeKind → String
spell agent_task = "agent-task"
spell verify = "verify"
spell review = "review"
spell merge = "merge"
spell checkpoint = "checkpoint"
spell final_verify = "final-verify"
spell (undeclared s) = s

unfoldable pub is_agent_task : NodeKind → Bool
is_agent_task agent_task = true
is_agent_task _ = false

unfoldable pub is_merge : NodeKind → Bool
is_merge merge = true
is_merge _ = false

unfoldable pub is_checkpoint : NodeKind → Bool
is_checkpoint checkpoint = true
is_checkpoint _ = false

unfoldable pub is_final_verify : NodeKind → Bool
is_final_verify final_verify = true
is_final_verify _ = false

unfoldable pub is_verify : NodeKind → Bool
is_verify verify = true
is_verify _ = false
