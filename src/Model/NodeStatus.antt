-- ===== src/Model/NodeStatus.antt =====
-- `NodeStatus` of internal/model/runtime.go: a Go string type.
-- `undeclared` holds every other string, "" included.
use cflow.Base.{
  Bool, true, false, String, Option, none, some, List, [], ◌∷◌, read_as, if◌then◌else◌,
}

pub data NodeStatus : Type 0 where
  pending ready running succeeded failed cancelled skipped : NodeStatus
  undeclared : String → NodeStatus

unfoldable pub is_valid : NodeStatus → Bool
is_valid (undeclared s) = false
is_valid _ = true

unfoldable pub spell : NodeStatus → String
spell pending = "PENDING"
spell ready = "READY"
spell running = "RUNNING"
spell succeeded = "SUCCEEDED"
spell failed = "FAILED"
spell cancelled = "CANCELLED"
spell skipped = "SKIPPED"
spell (undeclared s) = s

unfoldable pub declared : List NodeStatus
declared = pending ∷ ready ∷ running ∷ succeeded ∷ failed ∷ cancelled ∷ skipped ∷ []

-- The conversion of a string to the type.
unfoldable pub of_string : String → NodeStatus
unfolding declared spell read_as
of_string = read_as spell undeclared declared

-- `none` is the error.
unfoldable pub parse : String → Option NodeStatus
unfolding of_string is_valid
parse s = let v = of_string s in if is_valid v then some v else none

unfoldable pub is_terminal : NodeStatus → Bool
is_terminal succeeded = true
is_terminal failed = true
is_terminal cancelled = true
is_terminal skipped = true
is_terminal _ = false

unfoldable pub can_transition_to : NodeStatus → NodeStatus → Bool
can_transition_to pending ready = true
can_transition_to pending cancelled = true
can_transition_to pending skipped = true
can_transition_to ready running = true
can_transition_to ready cancelled = true
can_transition_to ready skipped = true
can_transition_to running succeeded = true
can_transition_to running failed = true
can_transition_to running cancelled = true
can_transition_to running ready = true
can_transition_to _ _ = false

unfoldable pub is_pending : NodeStatus → Bool
is_pending pending = true
is_pending _ = false

unfoldable pub is_ready : NodeStatus → Bool
is_ready ready = true
is_ready _ = false

unfoldable pub is_running : NodeStatus → Bool
is_running running = true
is_running _ = false

unfoldable pub is_succeeded : NodeStatus → Bool
is_succeeded succeeded = true
is_succeeded _ = false

unfoldable pub is_failed : NodeStatus → Bool
is_failed failed = true
is_failed _ = false

unfoldable pub is_cancelled : NodeStatus → Bool
is_cancelled cancelled = true
is_cancelled _ = false

unfoldable pub is_skipped : NodeStatus → Bool
is_skipped skipped = true
is_skipped _ = false
