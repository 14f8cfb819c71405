-- ===== src/Model/CleanupItemStatus.antt =====
-- `CleanupItemStatus` of internal/model/apply.go: a Go string type.
-- `undeclared` holds every other string, "" included.
use cflow.Base.{Bool, true, false, String}

pub data CleanupItemStatus : Type 0 where
  pending requested completed failed : CleanupItemStatus
  undeclared : String → CleanupItemStatus

unfoldable pub is_valid : CleanupItemStatus → Bool
is_valid (undeclared s) = false
is_valid _ = true

unfoldable pub spell : CleanupItemStatus → String
spell pending = "PENDING"
spell requested = "REQUESTED"
spell completed = "COMPLETED"
spell failed = "FAILED"
spell (undeclared s) = s

unfoldable pub is_terminal : CleanupItemStatus → Bool
is_terminal completed = true
is_terminal failed = true
is_terminal _ = false

unfoldable pub is_pending : CleanupItemStatus → Bool
is_pending pending = true
is_pending _ = false

unfoldable pub is_requested : CleanupItemStatus → Bool
is_requested requested = true
is_requested _ = false
