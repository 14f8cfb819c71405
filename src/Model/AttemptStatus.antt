-- ===== src/Model/AttemptStatus.antt =====
-- `AttemptStatus` of internal/model/runtime.go: a Go string type.
-- `undeclared` holds every other string, "" included.
use cflow.Base.{
  Bool, true, false, String, Option, none, some, List, [], ◌∷◌, read_as, if◌then◌else◌,
}

pub data AttemptStatus : Type 0 where
  ready running succeeded failed interrupted cancelled : AttemptStatus
  undeclared : String → AttemptStatus

unfoldable pub is_valid : AttemptStatus → Bool
is_valid (undeclared s) = false
is_valid _ = true

unfoldable pub spell : AttemptStatus → String
spell ready = "READY"
spell running = "RUNNING"
spell succeeded = "SUCCEEDED"
spell failed = "FAILED"
spell interrupted = "INTERRUPTED"
spell cancelled = "CANCELLED"
spell (undeclared s) = s

unfoldable pub declared : List AttemptStatus
declared = ready ∷ running ∷ succeeded ∷ failed ∷ interrupted ∷ cancelled ∷ []

-- The conversion of a string to the type.
unfoldable pub of_string : String → AttemptStatus
unfolding declared spell read_as
of_string = read_as spell undeclared declared

-- `none` is the error.
unfoldable pub parse : String → Option AttemptStatus
unfolding of_string is_valid
parse s = let v = of_string s in if is_valid v then some v else none

unfoldable pub is_terminal : AttemptStatus → Bool
is_terminal succeeded = true
is_terminal failed = true
is_terminal interrupted = true
is_terminal cancelled = true
is_terminal _ = false

unfoldable pub is_running : AttemptStatus → Bool
is_running running = true
is_running _ = false

unfoldable pub is_succeeded : AttemptStatus → Bool
is_succeeded succeeded = true
is_succeeded _ = false

unfoldable pub is_interrupted : AttemptStatus → Bool
is_interrupted interrupted = true
is_interrupted _ = false
