-- ===== src/Model/SessionStatus.antt =====
-- `SessionStatus` of internal/model/runtime.go: a Go string type.
-- `undeclared` holds every other string, "" included.
use cflow.Base.{
  Bool, true, false, String, Option, none, some, List, [], ◌∷◌, read_as, if◌then◌else◌,
}

pub data SessionStatus : Type 0 where
  starting active interrupted paused interactive_idle completed failed cancelled lost :
      SessionStatus
  undeclared : String → SessionStatus

unfoldable pub is_valid : SessionStatus → Bool
is_valid (undeclared s) = false
is_valid _ = true

unfoldable pub spell : SessionStatus → String
spell starting = "STARTING"
spell active = "ACTIVE"
spell interrupted = "INTERRUPTED"
spell paused = "PAUSED"
spell interactive_idle = "INTERACTIVE_IDLE"
spell completed = "COMPLETED"
spell failed = "FAILED"
spell cancelled = "CANCELLED"
spell lost = "LOST"
spell (undeclared s) = s

unfoldable pub declared : List SessionStatus
declared =
    starting ∷ active ∷ interrupted ∷ paused ∷ interactive_idle ∷ completed ∷ failed ∷ cancelled
    ∷ lost ∷ []

-- The conversion of a string to the type.
unfoldable pub of_string : String → SessionStatus
unfolding declared spell read_as
of_string = read_as spell undeclared declared

-- `none` is the error.
unfoldable pub parse : String → Option SessionStatus
unfolding of_string is_valid
parse s = let v = of_string s in if is_valid v then some v else none

unfoldable pub is_terminal : SessionStatus → Bool
is_terminal completed = true
is_terminal failed = true
is_terminal cancelled = true
is_terminal lost = true
is_terminal _ = false

unfoldable pub is_starting : SessionStatus → Bool
is_starting starting = true
is_starting _ = false

unfoldable pub is_active : SessionStatus → Bool
is_active active = true
is_active _ = false

unfoldable pub is_interrupted : SessionStatus → Bool
is_interrupted interrupted = true
is_interrupted _ = false

unfoldable pub is_interactive_idle : SessionStatus → Bool
is_interactive_idle interactive_idle = true
is_interactive_idle _ = false

unfoldable pub is_completed : SessionStatus → Bool
is_completed completed = true
is_completed _ = false
