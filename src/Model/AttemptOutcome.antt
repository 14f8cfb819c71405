-- ===== src/Model/AttemptOutcome.antt =====
-- `AttemptOutcome` of internal/model/input.go: a Go string type.
-- `undeclared` holds every other string, "" included.
use cflow.Base.{Bool, true, false, String}

pub data AttemptOutcome : Type 0 where
  succeeded failed interrupted : AttemptOutcome
  undeclared : String → AttemptOutcome

unfoldable pub is_valid : AttemptOutcome → Bool
is_valid (undeclared s) = false
is_valid _ = true

unfoldable pub spell : AttemptOutcome → String
spell succeeded = "SUCCEEDED"
spell failed = "FAILED"
spell interrupted = "INTERRUPTED"
spell (undeclared s) = s
