-- ===== src/Model/CleanupStatus.antt =====
-- `CleanupStatus` of internal/model/apply.go: a Go string type.
-- `undeclared` holds every other string, "" included.
use cflow.Base.{Bool, true, false, String}

pub data CleanupStatus : Type 0 where
  dry_run awaiting_confirmation running succeeded failed blocked cancelled : CleanupStatus
  undeclared : String → CleanupStatus

unfoldable pub is_valid : CleanupStatus → Bool
is_valid (undeclared s) = false
is_valid _ = true

unfoldable pub spell : CleanupStatus → String
spell dry_run = "DRY_RUN"
spell awaiting_confirmation = "AWAITING_CONFIRMATION"
spell running = "RUNNING"
spell succeeded = "SUCCEEDED"
spell failed = "FAILED"
spell blocked = "BLOCKED"
spell cancelled = "CANCELLED"
spell (undeclared s) = s
