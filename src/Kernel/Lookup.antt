-- ===== src/Kernel/Lookup.antt =====
-- The lookups of internal/decision/dispatch.go, execution.go and verify.go over the Attempts of a
-- Node, and the state of the dispatch gate.
use cflow.Base.{
  ℕ, Bool, true, false, String, Option, none, some, List, [], ◌∷◌, ◌==◌, ◌&&◌, ◌||◌, ◌+◌, ◌&◌, ltb,
  if◌then◌else◌,
}
use cflow.Model.NodeStatus
use cflow.Model.NodeStatus.{NodeStatus}
use cflow.Model.AttemptStatus
use cflow.Model.AttemptStatus.{AttemptStatus}
use cflow.Model.RunStatus
use cflow.Model.RunStatus.{RunStatus}
use cflow.Model.Runtime.{AttemptKey, Attempt}
use cflow.Model.State.{State}
use cflow.Kernel.Facts.{active_run}

-- The loop of `nextAttemptNumber`.
unfoldable pub max_number : String → List (AttemptKey × Attempt) → ℕ → ℕ
max_number node [] best = best
max_number node ((k, a) ∷ rest) best =
    max_number node rest (if k.node == node && ltb best k.number then k.number else best)

unfoldable pub next_attempt_number : State → String → ℕ
next_attempt_number st node = max_number node st.attempts 0 + 1

unfoldable pub task_branch : String → String → String
task_branch workflow node = "cflow/" & workflow & "/task-" & node

-- `k.Number > best.Key.Number`, or there is no best yet.
unfoldable pub is_better : ℕ → Option Attempt → Bool
is_better number none = true
is_better number (some best) = ltb best.key.number number

-- The loop of `highestTerminalAttempt` and of `succeededAttemptOf`.
unfoldable pub highest :
    (Attempt → Bool) → String → List (AttemptKey × Attempt) → Option Attempt → Option Attempt
highest wanted node [] best = best
highest wanted node ((k, a) ∷ rest) best =
    highest wanted node rest
      (if k.node == node && wanted a && is_better k.number best then some a else best)

unfoldable pub highest_terminal_attempt : State → String → Option Attempt
highest_terminal_attempt st node =
    highest (λ (a : Attempt). AttemptStatus.is_terminal a.status) node st.attempts none

-- `runningAttemptOf`, in the order of the association list.
unfoldable pub running_attempt_of : String → List (AttemptKey × Attempt) → Option Attempt
running_attempt_of node [] = none
running_attempt_of node ((k, a) ∷ rest) =
    if k.node == node && AttemptStatus.is_running a.status
    then some a
    else running_attempt_of node rest

-- `run == nil || run.Status != model.RunRunning || !run.DispatchGate`, negated.
unfoldable pub gate_open : State → Bool
gate_open st = elim (active_run st) [
  | none ↦ false
  | some run ↦ RunStatus.is_running run.status && run.dispatch_gate
]

unfoldable pub is_allocatable : NodeStatus → Bool
is_allocatable s = NodeStatus.is_pending s || NodeStatus.is_ready s
