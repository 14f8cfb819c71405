-- ===== src/Kernel/Manifest.antt =====
-- `ClassifyManifest` of internal/decision/safety.go: the Reconciliation action of each Node. The two Go
-- maps of successor facts are functions.
pub mod Safe
use cflow.Base.{
  Bool, true, false, String, Option, none, some, List, [], ◌∷◌, ◌==◌, ◌&&◌, ◌||◌, if◌then◌else◌,
  any, find,
}
use cflow.Model.NodeKind
use cflow.Model.NodeKind.{NodeKind}
use cflow.Model.NodeStatus
use cflow.Model.NodeStatus.{NodeStatus}
use cflow.Model.Runtime.{Node}
use cflow.Model.State.{State, node_at}
use cflow.Kernel.Facts.{branch_quarantined}
use cflow.Kernel.Facts.{sorted_node_ids}

pub data ManifestActionKind : Type 0 where
  reuse_succeeded resume_interrupted replace_contaminated rerun_verification : ManifestActionKind

pub record ManifestAction : Type 0 where
  pub node : String
  pub action : ManifestActionKind
  pub reason : String

-- The actions found so far: `action[id]`, with the reason.
unfoldable pub action_at : List ManifestAction → String → Option ManifestAction
action_at actions id = find (λ (a : ManifestAction). a.node == id) actions

unfoldable pub is_replaced : List ManifestAction → String → Bool
is_replaced actions id = elim (action_at actions id) [
  | none ↦ false
  | some a ↦ elim a.action [ ManifestActionKind.replace_contaminated ↦ true | _ ↦ false ]
]

unfoldable pub act : String → ManifestActionKind → String → ManifestAction
act id action reason = record { node = id; action = action; reason = reason }

-- Pass 1: a quarantined Branch or a failure.
unfoldable pub contaminate : State → List String → List ManifestAction
contaminate st [] = []
contaminate st (id ∷ ids) =
    let rest = contaminate st ids in
    elim (node_at st.nodes id) [
      | none ↦ rest
      | some n ↦
          if branch_quarantined st n.branch
          then act id ManifestActionKind.replace_contaminated
              "branch quarantined inside the drift window"
            ∷ rest
          else if NodeStatus.is_failed n.status
          then act id ManifestActionKind.replace_contaminated "node failed inside the drift window"
            ∷ rest
          else rest
    ]

-- One dependency of `nodePathReplaced`.
unfoldable pub dependency_replaced : State → List ManifestAction → String → Bool
dependency_replaced st actions d = is_replaced actions d || elim (node_at st.nodes d) [
  | none ↦ false
  | some dn ↦ NodeKind.is_agent_task dn.kind && branch_quarantined st dn.branch
]

unfoldable pub node_path_replaced : State → Node → List ManifestAction → Bool
node_path_replaced st n actions = any (dependency_replaced st actions) n.dependencies

-- The switch over the status of a Node on a trusted path.
unfoldable pub classify_status : Bool → Bool → String → NodeStatus → Option ManifestAction
classify_status unchanged resumable id NodeStatus.succeeded =
    if unchanged
    then some (
        act id ManifestActionKind.reuse_succeeded
          "succeeded with intact evidence and an unchanged definition")
    else some (
        act id ManifestActionKind.replace_contaminated
          "the successor revision changed the node's definition")
classify_status unchanged resumable id NodeStatus.cancelled = none
classify_status unchanged resumable id NodeStatus.skipped = none
classify_status unchanged resumable id s =
    if NodeStatus.is_ready s || NodeStatus.is_pending s
    then (if unchanged && resumable
        then some (
            act id ManifestActionKind.resume_interrupted
              "facts match the interruption checkpoint; resume on the same path")
        else some (
            act id ManifestActionKind.replace_contaminated
              "the path cannot be reused: facts drifted or the definition changed"))
    else some (
        act id ManifestActionKind.replace_contaminated
          "the node cannot be resumed from its persisted state")

unfoldable pub classify_node :
    State → Bool → Bool → List ManifestAction → String → Node → Option ManifestAction
classify_node st unchanged resumable actions id n =
    if node_path_replaced st n actions
    then (if NodeKind.is_verify n.kind
        then some (
            act id ManifestActionKind.rerun_verification
              "the verification path of a replaced task must re-run")
        else some (
            act id ManifestActionKind.replace_contaminated
              "the merge path of a replaced task must be re-created"))
    else classify_status unchanged resumable id n.status

-- What pass 2 adds for one Node.
unfoldable pub extend :
    State → (String → Bool) → (String → Bool) → List ManifestAction → String → List ManifestAction
extend st unchanged resumable actions id = elim (action_at actions id) [
  | some _ ↦ actions
  | none ↦ elim (node_at st.nodes id) [
    | none ↦ actions
    | some n ↦ elim (classify_node st (unchanged id) (resumable id) actions id n) [
      | none ↦ actions
      | some a ↦ a ∷ actions
    ]
  ]
]

-- Pass 2, in the order of the identities: a Node sees the actions of those before it.
unfoldable pub classify :
    State
    → (String → Bool)
    → (String → Bool)
    → List String
    → List ManifestAction
    → List ManifestAction
classify st unchanged resumable [] actions = actions
classify st unchanged resumable (id ∷ ids) actions =
    classify st unchanged resumable ids (extend st unchanged resumable actions id)

-- The actions in the order of the identities.
unfoldable pub listed : List ManifestAction → List String → List ManifestAction
listed actions [] = []
listed actions (id ∷ ids) =
    let rest = listed actions ids in elim (action_at actions id) [ none ↦ rest | some a ↦ a ∷ rest ]

unfoldable pub classify_manifest : State → (String → Bool) → (String → Bool) → List ManifestAction
classify_manifest st unchanged resumable =
    let ids = sorted_node_ids st in
    listed (classify st unchanged resumable ids (contaminate st ids)) ids
