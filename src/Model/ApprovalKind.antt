-- ===== src/Model/ApprovalKind.antt =====
-- `ApprovalKind` of internal/model/artifacts.go: a Go string type.
-- `undeclared` holds every other string, "" included.
use cflow.Base.{Bool, true, false, String}

pub data ApprovalKind : Type 0 where
  plan execution commit_policy apply_catalog : ApprovalKind
  undeclared : String → ApprovalKind

unfoldable pub is_valid : ApprovalKind → Bool
is_valid (undeclared s) = false
is_valid _ = true

unfoldable pub spell : ApprovalKind → String
spell plan = "plan"
spell execution = "execution"
spell commit_policy = "commit-policy"
spell apply_catalog = "apply-catalog"
spell (undeclared s) = s

unfoldable pub is_execution : ApprovalKind → Bool
is_execution execution = true
is_execution _ = false

unfoldable pub is_commit_policy : ApprovalKind → Bool
is_commit_policy commit_policy = true
is_commit_policy _ = false

unfoldable pub is_apply_catalog : ApprovalKind → Bool
is_apply_catalog apply_catalog = true
is_apply_catalog _ = false
