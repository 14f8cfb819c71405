-- ===== src/Schedule/Limits.antt =====
-- The guarantees of one pass of the Scheduler.
use cflow.Base.{
  ℕ, Bool, true, false, String, none, some, List, [], ◌∷◌, ◌≡◌, refl, ◌+◌, ◌≤◌, ◌<◌, all, length,
  count, arith, eq_iff, Option-cases, inl, inr,
}
use cflow.Model.NodeKind
use cflow.Model.NodeKind.{NodeKind}
use cflow.Schedule.{
  GraphNode, GraphSnapshot, DispatchPolicy, same_kind, by_id, node_of, sorted_ids, running,
  running_by_kind, budget_of, bump, over_limit, reason_of, add_reason, add_eligible, pick, next,
}
use cflow.Schedule.Laws.{is_ready_id, pick-ready, pick-fits}

-- Every eligible identity is that of a Node that the readiness rule admits: the Dispatch Gate is
-- open, the Node is PENDING or READY, and each of its dependencies is a Node that has SUCCEEDED.
pub next-ready :
    (snap : GraphSnapshot) (policy : DispatchPolicy)
    → all (is_ready_id snap (by_id snap)) (next snap policy).eligible ≡ true
unfolding next
next-ready snap policy =
    let nodes = by_id snap in pick-ready snap policy nodes (sorted_ids nodes) 0 (λ kind. 0)

-- While the RUNNING Nodes are within a limit above 0 on concurrency, they and the eligible ones
-- together are.
pub next-fits :
    (snap : GraphSnapshot) (policy : DispatchPolicy)
    → 0 < policy.max_concurrency
    → running (by_id snap) ≤ policy.max_concurrency
    → running (by_id snap) + length (next snap policy).eligible ≤ policy.max_concurrency
unfolding next
next-fits snap policy p h =
    let nodes = by_id snap in
    omega (arith, pick-fits snap policy nodes (sorted_ids nodes) 0 (λ kind. 0) p (omega (arith, h)))

-- Whether an identity is that of a Node of the kind.
unfoldable pub has_kind : List GraphNode → NodeKind → String → Bool
has_kind nodes kind id = elim (node_of nodes id) [ none ↦ false | some n ↦ same_kind n.kind kind ]

budget_of-same :
    (budgets : List (NodeKind × ℕ)) (j k : NodeKind)
    → same_kind j k ≡ true
    → budget_of budgets j ≡ budget_of budgets k
unfolding budget_of same_kind
budget_of-same [] j k e = refl
budget_of-same ((i, cap) ∷ rest) j k e =
    rw ((eq_iff _ _).0 e) (ground (arith, budget_of-same rest j k e))

running_by_kind-same :
    (nodes : List GraphNode) (j k : NodeKind)
    → same_kind j k ≡ true
    → running_by_kind nodes j ≡ running_by_kind nodes k
unfolding running_by_kind same_kind count
running_by_kind-same [] j k e = refl
running_by_kind-same (n ∷ ns) j k e =
    rw ((eq_iff _ _).0 e) (ground (arith, running_by_kind-same ns j k e))

module _ (snap : GraphSnapshot) (policy : DispatchPolicy) (nodes : List GraphNode)
    (k : NodeKind) where
  over_limit-kind :
      (n : GraphNode) (allocated : ℕ) (by_kind : String → ℕ)
      → same_kind n.kind k ≡ true
      → 0 < budget_of policy.budgets k
      → over_limit policy nodes n allocated by_kind ≡ none
      → running_by_kind nodes k + by_kind (NodeKind.spell k) < budget_of policy.budgets k
  unfolding over_limit same_kind
  over_limit-kind n allocated by_kind e p h = ground (
    arith,
    p,
    h,
    budget_of-same policy.budgets n.kind k e,
    running_by_kind-same nodes n.kind k e,
    (eq_iff (NodeKind.spell n.kind) (NodeKind.spell k)).0 e,
  )

  pick-kind_fits :
      (ids : List String) (allocated : ℕ) (by_kind : String → ℕ)
      → 0 < budget_of policy.budgets k
      → running_by_kind nodes k + by_kind (NodeKind.spell k) ≤ budget_of policy.budgets k
      → running_by_kind nodes k
          + by_kind (NodeKind.spell k)
          + count (has_kind nodes k) (pick snap policy nodes ids allocated by_kind).eligible
        ≤ budget_of policy.budgets k
  unfolding pick reason_of add_reason add_eligible count has_kind bump same_kind
  pick-kind_fits [] allocated by_kind p h = omega (arith, h)
  pick-kind_fits (id ∷ ids) allocated by_kind p h = elim (Option-cases (node_of nodes id)) [
    | inl e ↦ ground (arith, e, pick-kind_fits ids allocated by_kind p h)
    | inr (n, e) ↦ elim (Option-cases (reason_of snap policy nodes n allocated by_kind)) [
      | inl r ↦ ground (
        arith,
        e,
        r,
        p,
        h,
        over_limit-kind n allocated by_kind,
        pick-kind_fits ids (allocated + 1) (bump n.kind by_kind) p,
      )
      | inr (t, r) ↦ ground (arith, e, r, pick-kind_fits ids allocated by_kind p h)
    ]
  ]

-- While the RUNNING Nodes of a kind are within its budget above 0, they and the eligible Nodes of
-- that kind together are.
pub next-kind_fits :
    (snap : GraphSnapshot) (policy : DispatchPolicy) (kind : NodeKind)
    → 0 < budget_of policy.budgets kind
    → running_by_kind (by_id snap) kind ≤ budget_of policy.budgets kind
    → running_by_kind (by_id snap) kind
        + count (has_kind (by_id snap) kind) (next snap policy).eligible
      ≤ budget_of policy.budgets kind
unfolding next
next-kind_fits snap policy kind p h =
    let nodes = by_id snap in
    omega (
      arith,
      pick-kind_fits snap policy nodes kind (sorted_ids nodes) 0 (λ k. 0) p (omega (arith, h)),
    )
