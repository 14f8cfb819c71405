-- ===== src/Schedule.antt =====
-- internal/schedule/scheduler.go: `Scheduler.Next`, the pure policy that picks the Nodes to allocate,
-- with the records of internal/model/state.go that it reads. An empty reason of the code is `none`;
-- a bound below 1 sets no limit, so that the bounds are natural numbers.
use cflow.Base.{
  ℕ, Bool, true, false, String, Option, none, some, List, [], ◌∷◌, map, ◌==◌, ◌&&◌, ◌||◌, not, ◌+◌,
  ◌&◌, ltb, leb, count, sort, text_lt, if◌then◌else◌,
}
use cflow.Model.NodeKind
use cflow.Model.NodeKind.{NodeKind}
use cflow.Model.NodeStatus
use cflow.Model.NodeStatus.{NodeStatus}
pub mod Laws
pub mod Limits
pub mod Total

pub record GraphNode : Type 0 where
  pub id : String
  pub kind : NodeKind
  pub status : NodeStatus
  pub dependencies : List String
  pub branch : String

pub record GraphSnapshot : Type 0 where
  pub nodes : List GraphNode
  pub dispatch_gate_open : Bool

pub record DispatchPolicy : Type 0 where
  pub max_concurrency : ℕ
  pub default_retry_budget : ℕ
  pub budgets : List (NodeKind × ℕ)

pub record DispatchDecision : Type 0 where
  pub eligible : List String
  pub reasons : List (String × String)

-- `==` of two kinds.
unfoldable pub same_kind : NodeKind → NodeKind → Bool
same_kind a b = NodeKind.spell a == NodeKind.spell b

-- `byID[n.ID] = n`: a later Node replaces an earlier one.
unfoldable pub put : GraphNode → List GraphNode → List GraphNode
put n [] = n ∷ []
put n (m ∷ ms) = if m.id == n.id then n ∷ ms else m ∷ put n ms

unfoldable pub put_all : List GraphNode → List GraphNode → List GraphNode
put_all [] ms = ms
put_all (n ∷ ns) ms = put_all ns (put n ms)

unfoldable pub by_id : GraphSnapshot → List GraphNode
by_id snap = put_all snap.nodes []

unfoldable pub node_of : List GraphNode → String → Option GraphNode
node_of [] id = none
node_of (n ∷ ns) id = if n.id == id then some n else node_of ns id

unfoldable pub sorted_ids : List GraphNode → List String
sorted_ids nodes = sort text_lt (map (λ (n : GraphNode). n.id) nodes)

-- The loop over the dependencies in `schedulable`.
unfoldable pub blocked_by : List GraphNode → List String → Option String
blocked_by nodes [] = none
blocked_by nodes (d ∷ ds) =
    let rest = blocked_by nodes ds in
    elim (node_of nodes d) [
      | none ↦ some ("dependency " & d & " does not exist")
      | some dep ↦
          if NodeStatus.is_succeeded dep.status
          then rest
          else some ("dependency " & d & " has not succeeded")
    ]

unfoldable pub schedulable : GraphNode → GraphSnapshot → List GraphNode → Option String
schedulable n snap nodes =
    if not snap.dispatch_gate_open
    then some "dispatch gate is closed"
    else if NodeStatus.is_pending n.status || NodeStatus.is_ready n.status
    then blocked_by nodes n.dependencies
    else if NodeStatus.is_running n.status
    then some "node is running"
    else some ("node is " & NodeStatus.spell n.status)

-- `running` and `runningByKind[kind]`.
unfoldable pub running : List GraphNode → ℕ
running = count (λ (n : GraphNode). NodeStatus.is_running n.status)

unfoldable pub running_by_kind : List GraphNode → NodeKind → ℕ
running_by_kind nodes kind =
    count (λ (n : GraphNode). NodeStatus.is_running n.status && same_kind n.kind kind) nodes

-- `policy.Budgets[kind]`, and 0 where there is none: a budget of 0 sets no limit either.
unfoldable pub budget_of : List (NodeKind × ℕ) → NodeKind → ℕ
budget_of [] kind = 0
budget_of ((k, cap) ∷ rest) kind = if same_kind k kind then cap else budget_of rest kind

-- `allocatedByKind[kind]++`; a kind is a key by its text.
unfoldable pub bump : NodeKind → (String → ℕ) → String → ℕ
bump kind allocated k = if NodeKind.spell kind == k then allocated k + 1 else allocated k

-- Why the policy holds a schedulable Node back, with what is allocated so far.
unfoldable pub over_limit :
    DispatchPolicy → List GraphNode → GraphNode → ℕ → (String → ℕ) → Option String
over_limit policy nodes n allocated by_kind =
    let cap = budget_of policy.budgets n.kind in
    if ltb 0 policy.max_concurrency && leb policy.max_concurrency (running nodes + allocated)
    then some "max concurrency reached"
    else if ltb 0 cap && leb cap (running_by_kind nodes n.kind + by_kind (NodeKind.spell n.kind))
    then some "kind budget exhausted"
    else none

unfoldable pub reason_of :
    GraphSnapshot → DispatchPolicy → List GraphNode → GraphNode → ℕ → (String → ℕ) → Option String
reason_of snap policy nodes n allocated by_kind = elim (schedulable n snap nodes) [
  | some reason ↦ some reason
  | none ↦ over_limit policy nodes n allocated by_kind
]

unfoldable pub add_reason : String → String → DispatchDecision → DispatchDecision
add_reason id reason dec = record dec { reasons = (id, reason) ∷ dec.reasons }

unfoldable pub add_eligible : String → DispatchDecision → DispatchDecision
add_eligible id dec = record dec { eligible = id ∷ dec.eligible }

-- The loop over the sorted identities; each one is a key of the map.
unfoldable pub pick :
    GraphSnapshot
    → DispatchPolicy
    → List GraphNode
    → List String
    → ℕ
    → (String → ℕ)
    → DispatchDecision
pick snap policy nodes [] allocated by_kind = record { eligible = []; reasons = [] }
pick snap policy nodes (id ∷ ids) allocated by_kind = elim (node_of nodes id) [
  | none ↦ pick snap policy nodes ids allocated by_kind
  | some n ↦ elim (reason_of snap policy nodes n allocated by_kind) [
    | some reason ↦ add_reason id reason (pick snap policy nodes ids allocated by_kind)
    | none ↦ add_eligible id (pick snap policy nodes ids (allocated + 1) (bump n.kind by_kind))
  ]
]

unfoldable pub next : GraphSnapshot → DispatchPolicy → DispatchDecision
next snap policy = let nodes = by_id snap in pick snap policy nodes (sorted_ids nodes) 0 (λ kind. 0)
