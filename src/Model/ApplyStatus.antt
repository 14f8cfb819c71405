-- ===== src/Model/ApplyStatus.antt =====
-- `ApplyStatus` of internal/model/apply.go: a Go string type.
-- `undeclared` holds every other string, "" included.
use cflow.Base.{Bool, true, false, String}

pub data ApplyStatus : Type 0 where
  staging awaiting_confirmation running succeeded failed blocked cancelled : ApplyStatus
  undeclared : String → ApplyStatus

unfoldable pub is_valid : ApplyStatus → Bool
is_valid (undeclared s) = false
is_valid _ = true

unfoldable pub spell : ApplyStatus → String
spell staging = "STAGING"
spell awaiting_confirmation = "AWAITING_CONFIRMATION"
spell running = "RUNNING"
spell succeeded = "SUCCEEDED"
spell failed = "FAILED"
spell blocked = "BLOCKED"
spell cancelled = "CANCELLED"
spell (undeclared s) = s

-- The test of `hasActiveApply` on one Apply Attempt (internal/decision/kernel.go).
unfoldable pub is_active : ApplyStatus → Bool
is_active staging = true
is_active awaiting_confirmation = true
is_active running = true
is_active _ = false

unfoldable pub is_staging : ApplyStatus → Bool
is_staging staging = true
is_staging _ = false

unfoldable pub is_blocked : ApplyStatus → Bool
is_blocked blocked = true
is_blocked _ = false

unfoldable pub is_running : ApplyStatus → Bool
is_running running = true
is_running _ = false

unfoldable pub is_awaiting_confirmation : ApplyStatus → Bool
is_awaiting_confirmation awaiting_confirmation = true
is_awaiting_confirmation _ = false
