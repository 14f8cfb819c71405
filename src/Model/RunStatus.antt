-- ===== src/Model/RunStatus.antt =====
-- `RunStatus` of internal/model/runtime.go: a Go string type.
-- `undeclared` holds every other string, "" included.
use cflow.Base.{
  Bool, true, false, String, Option, none, some, List, [], ◌∷◌, read_as, if◌then◌else◌,
}

pub data RunStatus : Type 0 where
  starting running quiescing stopping interrupted blocked succeeded failed cancelled : RunStatus
  undeclared : String → RunStatus

unfoldable pub is_valid : RunStatus → Bool
is_valid (undeclared s) = false
is_valid _ = true

unfoldable pub spell : RunStatus → String
spell starting = "STARTING"
spell running = "RUNNING"
spell quiescing = "QUIESCING"
spell stopping = "STOPPING"
spell interrupted = "INTERRUPTED"
spell blocked = "BLOCKED"
spell succeeded = "SUCCEEDED"
spell failed = "FAILED"
spell cancelled = "CANCELLED"
spell (undeclared s) = s

unfoldable pub declared : List RunStatus
declared =
    starting ∷ running ∷ quiescing ∷ stopping ∷ interrupted ∷ blocked ∷ succeeded ∷ failed
    ∷ cancelled ∷ []

-- The conversion of a string to the type.
unfoldable pub of_string : String → RunStatus
unfolding declared spell read_as
of_string = read_as spell undeclared declared

-- `none` is the error.
unfoldable pub parse : String → Option RunStatus
unfolding of_string is_valid
parse s = let v = of_string s in if is_valid v then some v else none

unfoldable pub is_terminal : RunStatus → Bool
is_terminal interrupted = true
is_terminal blocked = true
is_terminal succeeded = true
is_terminal failed = true
is_terminal cancelled = true
is_terminal _ = false

unfoldable pub can_transition_to : RunStatus → RunStatus → Bool
can_transition_to starting running = true
can_transition_to running quiescing = true
can_transition_to running stopping = true
can_transition_to running blocked = true
can_transition_to running succeeded = true
can_transition_to running failed = true
can_transition_to running interrupted = true
can_transition_to quiescing blocked = true
can_transition_to quiescing stopping = true
can_transition_to quiescing interrupted = true
can_transition_to stopping interrupted = true
can_transition_to stopping cancelled = true
can_transition_to _ _ = false

unfoldable pub is_running : RunStatus → Bool
is_running running = true
is_running _ = false

unfoldable pub is_quiescing : RunStatus → Bool
is_quiescing quiescing = true
is_quiescing _ = false

unfoldable pub is_stopping : RunStatus → Bool
is_stopping stopping = true
is_stopping _ = false
