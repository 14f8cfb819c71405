-- ===== src/Schedule/Laws.antt =====
-- What the choice of `Scheduler.Next` guarantees: readiness, the two limits and completeness.
use cflow.Base.{inl, inr}
use cflow.Base.{
  ℕ, Bool, true, false, String, Option, none, some, List, [], ◌∷◌, ◌≡◌, refl, ◌&&◌, ◌||◌, ◌+◌, ◌≤◌,
  ◌<◌, all, keep, length, count, arith, Option-cases,
}
use cflow.Model.NodeStatus
use cflow.Model.NodeStatus.{NodeStatus}
use cflow.Schedule.{
  GraphNode, GraphSnapshot, DispatchPolicy, node_of, blocked_by, schedulable, running, budget_of,
  bump, over_limit, reason_of, add_reason, add_eligible, pick,
}

-- The readiness rule, stated without the loop: every dependency is a Node that has SUCCEEDED.
unfoldable pub deps_succeeded : List GraphNode → List String → Bool
deps_succeeded nodes = all (λ (d : String). elim (node_of nodes d) [
  | none ↦ false
  | some dep ↦ NodeStatus.is_succeeded dep.status
])

unfoldable pub is_ready_node : GraphSnapshot → List GraphNode → GraphNode → Bool
is_ready_node snap nodes n =
    snap.dispatch_gate_open
    && ((NodeStatus.is_pending n.status || NodeStatus.is_ready n.status)
        && deps_succeeded nodes n.dependencies)

unfoldable pub is_ready_id : GraphSnapshot → List GraphNode → String → Bool
is_ready_id snap nodes id = elim (node_of nodes id) [
  | none ↦ false
  | some n ↦ is_ready_node snap nodes n
]

unfoldable pub has_node : List GraphNode → String → Bool
has_node nodes id = elim (node_of nodes id) [ none ↦ false | some _ ↦ true ]

unfoldable pub has_none : Option String → Bool
has_none none = true
has_none (some _) = false

blocked_by-deps :
    (nodes : List GraphNode) (ds : List String)
    → has_none (blocked_by nodes ds) ≡ deps_succeeded nodes ds
unfolding has_none blocked_by deps_succeeded all
blocked_by-deps nodes [] = refl
blocked_by-deps nodes (d ∷ ds) = ground (arith, blocked_by-deps nodes ds)

-- A Node has no reason against it exactly where the readiness rule holds.
schedulable-ready :
    (n : GraphNode) (snap : GraphSnapshot) (nodes : List GraphNode)
    → has_none (schedulable n snap nodes) ≡ is_ready_node snap nodes n
unfolding has_none schedulable is_ready_node
schedulable-ready n snap nodes = ground (arith, blocked_by-deps nodes n.dependencies)

module _ (snap : GraphSnapshot) (policy : DispatchPolicy) (nodes : List GraphNode) where
  pub pick-ready :
      (ids : List String) (allocated : ℕ) (by_kind : String → ℕ)
      → all (is_ready_id snap nodes) (pick snap policy nodes ids allocated by_kind).eligible ≡ true
  unfolding pick all is_ready_id reason_of has_none add_reason add_eligible
  pick-ready [] allocated by_kind = refl
  pick-ready (id ∷ ids) allocated by_kind = elim (Option-cases (node_of nodes id)) [
    | inl e ↦ ground (arith, e, pick-ready ids allocated by_kind)
    | inr (n, e) ↦ elim (Option-cases (reason_of snap policy nodes n allocated by_kind)) [
      | inl r ↦ ground (
        arith,
        e,
        r,
        schedulable-ready n snap nodes,
        pick-ready ids (allocated + 1) (bump n.kind by_kind),
      )
      | inr (t, r) ↦ ground (arith, e, r, pick-ready ids allocated by_kind)
    ]
  ]

  -- The Nodes allocated by a pass fit into what the RUNNING ones leave of the limit.
  pub pick-fits :
      (ids : List String) (allocated : ℕ) (by_kind : String → ℕ)
      → 0 < policy.max_concurrency
      → running nodes + allocated ≤ policy.max_concurrency
      → running nodes + allocated + length (pick snap policy nodes ids allocated by_kind).eligible
        ≤ policy.max_concurrency
  unfolding pick reason_of over_limit add_reason add_eligible
  pick-fits [] allocated by_kind p h = omega (arith, h)
  pick-fits (id ∷ ids) allocated by_kind p h = elim (Option-cases (node_of nodes id)) [
    | inl e ↦ ground (arith, e, pick-fits ids allocated by_kind p h)
    | inr (n, e) ↦ elim (Option-cases (reason_of snap policy nodes n allocated by_kind)) [
      | inl r ↦ ground (arith, e, r, p, h, pick-fits ids (allocated + 1) (bump n.kind by_kind) p)
      | inr (t, r) ↦ ground (arith, e, r, pick-fits ids allocated by_kind p h)
    ]
  ]

  -- With no limit, a pass takes exactly the ready ones, in their order.
  pub pick_complete :
      (ids : List String) (allocated : ℕ) (by_kind : String → ℕ)
      → policy.max_concurrency ≡ 0
      → policy.budgets ≡ []
      → (pick snap policy nodes ids allocated by_kind).eligible ≡ keep (is_ready_id snap nodes) ids
  unfolding pick keep is_ready_id reason_of over_limit has_none budget_of add_reason add_eligible
  pick_complete [] allocated by_kind m b = refl
  pick_complete (id ∷ ids) allocated by_kind m b = elim (Option-cases (node_of nodes id)) [
    | inl e ↦ ground (arith, e, pick_complete ids allocated by_kind m b)
    | inr (n, e) ↦ rw b (
        ground (
          arith,
          e,
          m,
          b,
          schedulable-ready n snap nodes,
          pick_complete ids allocated by_kind m b,
          pick_complete ids (allocated + 1) (bump n.kind by_kind) m b,
        ))
  ]

  -- Each identity of a Node gets exactly one answer.
  pub pick-total :
      (ids : List String) (allocated : ℕ) (by_kind : String → ℕ)
      → length (pick snap policy nodes ids allocated by_kind).eligible
          + length (pick snap policy nodes ids allocated by_kind).reasons
        ≡ count (λ (id : String). has_node nodes id) ids
  unfolding pick count has_node add_reason add_eligible
  pick-total [] allocated by_kind = refl
  pick-total (id ∷ ids) allocated by_kind = elim (Option-cases (node_of nodes id)) [
    | inl e ↦ ground (arith, e, pick-total ids allocated by_kind)
    | inr (n, e) ↦ elim (Option-cases (reason_of snap policy nodes n allocated by_kind)) [
      | inl r ↦ ground (arith, e, r, pick-total ids (allocated + 1) (bump n.kind by_kind))
      | inr (t, r) ↦ ground (arith, e, r, pick-total ids allocated by_kind)
    ]
  ]
