-- ===== src/Model/RuntimeStatus.antt =====
-- `RuntimeStatus` of internal/model/state.go: a Go string type.
-- `undeclared` holds every other string, "" included.
use cflow.Base.{
  Bool, true, false, String, Option, none, some, List, [], ◌∷◌, read_as, if◌then◌else◌,
}

pub data RuntimeStatus : Type 0 where
  pending running paused blocked failed succeeded cancelled : RuntimeStatus
  undeclared : String → RuntimeStatus

unfoldable pub is_valid : RuntimeStatus → Bool
is_valid (undeclared s) = false
is_valid _ = true

unfoldable pub spell : RuntimeStatus → String
spell pending = "PENDING"
spell running = "RUNNING"
spell paused = "PAUSED"
spell blocked = "BLOCKED"
spell failed = "FAILED"
spell succeeded = "SUCCEEDED"
spell cancelled = "CANCELLED"
spell (undeclared s) = s

unfoldable pub declared : List RuntimeStatus
declared = pending ∷ running ∷ paused ∷ blocked ∷ failed ∷ succeeded ∷ cancelled ∷ []

-- The conversion of a string to the type.
unfoldable pub of_string : String → RuntimeStatus
unfolding declared spell read_as
of_string = read_as spell undeclared declared

-- `none` is the error.
unfoldable pub parse : String → Option RuntimeStatus
unfolding of_string is_valid
parse s = let v = of_string s in if is_valid v then some v else none

unfoldable pub is_terminal : RuntimeStatus → Bool
is_terminal succeeded = true
is_terminal failed = true
is_terminal cancelled = true
is_terminal _ = false

unfoldable pub can_transition_to : RuntimeStatus → RuntimeStatus → Bool
can_transition_to pending running = true
can_transition_to pending cancelled = true
can_transition_to pending failed = true
can_transition_to running paused = true
can_transition_to running blocked = true
can_transition_to running succeeded = true
can_transition_to running failed = true
can_transition_to running cancelled = true
can_transition_to paused running = true
can_transition_to paused cancelled = true
can_transition_to paused failed = true
can_transition_to blocked running = true
can_transition_to blocked cancelled = true
can_transition_to blocked failed = true
can_transition_to _ _ = false

unfoldable pub is_pending : RuntimeStatus → Bool
is_pending pending = true
is_pending _ = false

unfoldable pub is_running : RuntimeStatus → Bool
is_running running = true
is_running _ = false

unfoldable pub is_paused : RuntimeStatus → Bool
is_paused paused = true
is_paused _ = false

unfoldable pub is_blocked : RuntimeStatus → Bool
is_blocked blocked = true
is_blocked _ = false

unfoldable pub is_succeeded : RuntimeStatus → Bool
is_succeeded succeeded = true
is_succeeded _ = false

unfoldable pub is_cancelled : RuntimeStatus → Bool
is_cancelled cancelled = true
is_cancelled _ = false
