-- ===== src/Tests/Install.antt =====
-- The install of a graph of two Nodes.
use cflow.Base.{
  Bool, true, false, String, Option, none, some, List, [], ◌∷◌, map, ◌≡◌, refl, ◌&&◌, all, pos,
}
use cflow.Model.WorkflowStage.{WorkflowStage}
use cflow.Model.RuntimeStatus.{RuntimeStatus}
use cflow.Model.NodeKind.{NodeKind}
use cflow.Model.State.{State}
use cflow.Kernel.Install.{InstallNode, GraphInstallInput, decide_graph_install}
use cflow.Kernel.Install.Laws.{is_distinct, is_closed, is_fresh_append, install-shows}
use cflow.Tests.{with_parts, workflow, decided}

abbrev bare : State
bare = with_parts (workflow WorkflowStage.execution RuntimeStatus.running) [] [] [] []

abbrev two_nodes : GraphInstallInput
two_nodes = record {
  nodes =
      record {
        id = "verify-a";
        kind = NodeKind.verify;
        dependencies = "task-a" ∷ [];
        retry_budget = pos 0;
      }
      ∷ record {
        id = "task-a";
        kind = NodeKind.agent_task;
        dependencies = [];
        retry_budget = pos 2;
      }
      ∷ [];
  replacement = false;
}

-- A decoder that takes the whole text for the reason.
abbrev whole : String → Option String
whole text = some text

install-shows_example :
    (is_distinct two_nodes.nodes
      && (is_closed bare (map (λ (n : InstallNode). n.id) two_nodes.nodes) two_nodes.nodes
          && all
              (is_fresh_append bare)
              (decided (decide_graph_install whole bare two_nodes)).mutations))
    ≡ true
unfolding decide_graph_install cflow.Base.Result.◌>>◌ cflow.Base.Result.◌>>=◌
    cflow.Base.Result.refuse cflow.Model.WorkflowStage.is_execution cflow.Kernel.Install.is_empty
    cflow.Kernel.Install.check_nodes cflow.Model.NodeKind.is_valid cflow.Kernel.Builder.is_in
    cflow.Base.any cflow.Kernel.Install.is_negative cflow.Kernel.Install.check_dependencies
    cflow.Kernel.Install.is_dangling cflow.Kernel.Install.install_nodes
    cflow.Kernel.Install.sorted_nodes cflow.Base.sort cflow.Model.State.node_at
    cflow.Kernel.Builder.done
install-shows_example =
    install-shows whole bare two_nodes (decided (decide_graph_install whole bare two_nodes)) refl
