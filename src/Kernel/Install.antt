-- ===== src/Kernel/Install.antt =====
-- `decideGraphInstall` of internal/decision/dispatch.go, with `replacementApproved` of safety.go. The
-- reason that encoding/json reads from a decision context is a parameter: `none` is its error.
use cflow.Base.{
  ℕ, ℤ, pos, negsuc, Bool, true, false, String, Option, none, some, List, [], ◌∷◌, map, ◌==◌, ◌&&◌,
  ◌||◌, not, any, sort, text_lt, if◌then◌else◌,
}
use cflow.Base.Result.{Result, err, ok, ◌>>◌, ◌>>=◌, refuse}
use cflow.Model.WorkflowStage
use cflow.Model.NodeKind
use cflow.Model.NodeKind.{NodeKind}
use cflow.Model.NodeStatus.{NodeStatus}
use cflow.Model.ApprovalKind
use cflow.Model.ApprovalKind.{ApprovalKind}
use cflow.Model.Artifact.{Approval}
use cflow.Model.Fault.{Fault, invalid_input}
use cflow.Model.Runtime.{Node}
use cflow.Model.State.{State, node_at}
use cflow.Model.Decision.{Decision, EventKind, Mutation}
use cflow.Kernel.Builder.{Builder, ◌▸◌, done, new_builder, mutate, note, is_in}
use cflow.Kernel.Lookup.{task_branch}
pub mod Laws

pub record InstallNode : Type 0 where
  pub id : String
  pub kind : NodeKind
  pub dependencies : List String
  pub retry_budget : ℤ

pub record GraphInstallInput : Type 0 where
  pub nodes : List InstallNode
  pub replacement : Bool

-- `n.RetryBudget < 0`
unfoldable pub is_negative : ℤ → Bool
is_negative (pos n) = false
is_negative (negsuc n) = true

-- A budget that passed the test.
unfoldable pub to_budget : ℤ → ℕ
to_budget (pos n) = n
to_budget (negsuc n) = 0

unfoldable pub is_replacement : (String → Option String) → Approval → Bool
is_replacement context_reason a =
    (ApprovalKind.spell a.kind == ApprovalKind.spell ApprovalKind.execution
      && not (a.decision_context == ""))
    && elim (context_reason a.decision_context) [
      | none ↦ false
      | some reason ↦ reason == "COMMIT_POLICY_DRIFT_REPLACEMENT"
    ]

unfoldable pub replacement_approved : (String → Option String) → State → Bool
replacement_approved context_reason st = any (is_replacement context_reason) st.approvals

-- The first loop: each Node is valid, new to the list, and names its dependencies.
unfoldable pub check_nodes : List String → List InstallNode → Result Fault Unit
check_nodes seen [] = ok tt
check_nodes seen (n ∷ ns) =
    let rest = check_nodes (n.id ∷ seen) ns in
    refuse (n.id == "" || not (NodeKind.is_valid n.kind))
      (invalid_input "the execution graph carries an invalid node")
    >> (refuse (is_in n.id seen) (invalid_input "")
        >> (refuse (is_negative n.retry_budget) (invalid_input "")
            >> (refuse (is_in "" n.dependencies) (invalid_input "") >> rest)))

-- `!byID[d]` and `state.Nodes[d] == nil`
unfoldable pub is_dangling : State → List String → String → Bool
is_dangling st ids d =
    not (is_in d ids) && elim (node_at st.nodes d) [ none ↦ true | some _ ↦ false ]

-- The second loop.
unfoldable pub check_dependencies : State → List String → List InstallNode → Result Fault Unit
check_dependencies st ids [] = ok tt
check_dependencies st ids (n ∷ ns) =
    let rest = check_dependencies st ids ns in
    refuse (any (is_dangling st ids) n.dependencies) (invalid_input "") >> rest

unfoldable pub same_dependencies : List String → List String → Bool
same_dependencies [] [] = true
same_dependencies (a ∷ rest) (b ∷ others) = a == b && same_dependencies rest others
same_dependencies _ _ = false

-- The Node that is appended, PENDING and with no charge.
unfoldable pub installed : State → InstallNode → Node
installed st n = record {
  id = n.id;
  kind = n.kind;
  status = NodeStatus.pending;
  dependencies = n.dependencies;
  branch = if NodeKind.is_agent_task n.kind then task_branch st.workflow.id n.id else "";
  base_commit = "";
  retry_budget = to_budget n.retry_budget;
  retry_charged = 0;
}

-- The identity of an existing Node must keep its definition.
unfoldable pub changes : Node → InstallNode → Bool
changes old n =
    not (NodeKind.spell old.kind == NodeKind.spell n.kind)
    || not (same_dependencies old.dependencies n.dependencies)

-- The third loop, over the sorted Nodes.
unfoldable pub install_nodes : State → List InstallNode → Builder → Result Fault Builder
install_nodes st [] b = ok b
install_nodes st (n ∷ ns) b =
    let kept = install_nodes st ns b in
    let added = install_nodes st ns (b ▸ mutate (Mutation.node_append (installed st n))) in
    elim (node_at st.nodes n.id) [
      | some old ↦ refuse (changes old n) (invalid_input "") >> kept
      | none ↦ added
    ]

unfoldable pub sorted_nodes : List InstallNode → List InstallNode
sorted_nodes = sort (λ (a b : InstallNode). text_lt a.id b.id)

unfoldable pub is_empty {ℓ} : {A : Type ℓ} → List A → Bool
is_empty [] = true
is_empty (x ∷ xs) = false

unfoldable pub decide_graph_install :
    (String → Option String) → State → GraphInstallInput → Result Fault Decision
decide_graph_install context_reason st input = do
  refuse (st.workflow.id == "") (invalid_input "no workflow to install an execution graph for")
  refuse (not (WorkflowStage.is_execution st.workflow.stage))
      (invalid_input "the execution graph can only be installed at the EXECUTION stage")
  refuse
      (not (is_empty st.nodes)
        && (not input.replacement || not (replacement_approved context_reason st)))
      (invalid_input
        "the execution graph is already installed; only an approved replacement may extend it")
  refuse (is_empty input.nodes) (invalid_input "the execution graph is empty")
  check_nodes [] input.nodes
  check_dependencies st (map (λ (n : InstallNode). n.id) input.nodes) input.nodes
  b ← install_nodes st (sorted_nodes input.nodes) (new_builder st)
  done (b ▸ note EventKind.graph_installed "execution graph installed")
