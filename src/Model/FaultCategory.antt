-- ===== src/Model/FaultCategory.antt =====
-- `FaultCategory` of internal/model/fault.go: a Go string type.
-- `undeclared` holds every other string, "" included.
use cflow.Base.{Bool, true, false, String}

pub data FaultCategory : Type 0 where
  invalid_input retryable_attempt_failure user_action_required safety_stop invariant_failure :
      FaultCategory
  undeclared : String → FaultCategory

unfoldable pub is_valid : FaultCategory → Bool
is_valid (undeclared s) = false
is_valid _ = true

unfoldable pub spell : FaultCategory → String
spell invalid_input = "INVALID_INPUT"
spell retryable_attempt_failure = "RETRYABLE_ATTEMPT_FAILURE"
spell user_action_required = "USER_ACTION_REQUIRED"
spell safety_stop = "SAFETY_STOP"
spell invariant_failure = "INVARIANT_FAILURE"
spell (undeclared s) = s

unfoldable pub is_retryable_attempt_failure : FaultCategory → Bool
is_retryable_attempt_failure retryable_attempt_failure = true
is_retryable_attempt_failure _ = false
