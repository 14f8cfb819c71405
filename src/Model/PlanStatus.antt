-- ===== src/Model/PlanStatus.antt =====
-- `PlanStatus` of internal/model/state.go: a Go string type.
-- `undeclared` holds every other string, "" included.
use cflow.Base.{
  Bool, true, false, String, Option, none, some, List, [], ◌∷◌, read_as, if◌then◌else◌,
}

pub data PlanStatus : Type 0 where
  draft checking checked approved stale rejected : PlanStatus
  undeclared : String → PlanStatus

unfoldable pub is_valid : PlanStatus → Bool
is_valid (undeclared s) = false
is_valid _ = true

unfoldable pub spell : PlanStatus → String
spell draft = "DRAFT"
spell checking = "CHECKING"
spell checked = "CHECKED"
spell approved = "APPROVED"
spell stale = "STALE"
spell rejected = "REJECTED"
spell (undeclared s) = s

unfoldable pub declared : List PlanStatus
declared = draft ∷ checking ∷ checked ∷ approved ∷ stale ∷ rejected ∷ []

-- The conversion of a string to the type.
unfoldable pub of_string : String → PlanStatus
unfolding declared spell read_as
of_string = read_as spell undeclared declared

-- `none` is the error.
unfoldable pub parse : String → Option PlanStatus
unfolding of_string is_valid
parse s = let v = of_string s in if is_valid v then some v else none

unfoldable pub can_transition_to : PlanStatus → PlanStatus → Bool
can_transition_to draft checking = true
can_transition_to checking draft = true
can_transition_to checking checked = true
can_transition_to checking rejected = true
can_transition_to checked approved = true
can_transition_to checked stale = true
can_transition_to approved stale = true
can_transition_to stale draft = true
can_transition_to rejected draft = true
can_transition_to _ _ = false

unfoldable pub is_draft : PlanStatus → Bool
is_draft draft = true
is_draft _ = false

unfoldable pub is_checked : PlanStatus → Bool
is_checked checked = true
is_checked _ = false

unfoldable pub is_checking : PlanStatus → Bool
is_checking checking = true
is_checking _ = false
