-- ===== src/Tests/Schedule.antt =====
-- The theorems on the Scheduler, applied to a graph of three Nodes.
use cflow.Base.{
  ℕ, Bool, true, false, String, List, [], ◌∷◌, ◌≡◌, refl, ◌+◌, ◌≤◌, all, count, length, arith,
}
use cflow.Model.NodeKind.{NodeKind}
use cflow.Model.NodeStatus
use cflow.Model.NodeStatus.{NodeStatus}
use cflow.Schedule.{
  GraphNode, GraphSnapshot, DispatchPolicy, by_id, sorted_ids, running, running_by_kind, budget_of,
  next,
}
use cflow.Schedule.Laws.{is_ready_id}
use cflow.Schedule.Limits.{has_kind, next-ready, next-fits, next-kind_fits}

abbrev task : String → NodeStatus → GraphNode
task id status = record {
  id = id;
  kind = NodeKind.agent_task;
  status = status;
  dependencies = [];
  branch = "";
}

abbrev checked : GraphNode
checked = record {
  id = "verify-a";
  kind = NodeKind.verify;
  status = NodeStatus.pending;
  dependencies = "task-a" ∷ [];
  branch = "";
}

abbrev graph : GraphSnapshot
graph = record {
  nodes =
      checked
      ∷ task "task-a" NodeStatus.succeeded
      ∷ task "task-b" NodeStatus.running
      ∷ task "task-c" NodeStatus.pending
      ∷ [];
  dispatch_gate_open = true;
}

abbrev limits : DispatchPolicy
limits = record {
  max_concurrency = 2;
  default_retry_budget = 1;
  budgets = (NodeKind.agent_task, 2) ∷ [];
}

abbrev no_limits : DispatchPolicy
no_limits = record { max_concurrency = 0; default_retry_budget = 1; budgets = [] }

next-ready_example : all (is_ready_id graph (by_id graph)) (next graph limits).eligible ≡ true
next-ready_example = next-ready graph limits

next-fits_example : running (by_id graph) + length (next graph limits).eligible ≤ 2
unfolding running count by_id cflow.Schedule.put_all cflow.Schedule.put NodeStatus.is_running
    running_by_kind budget_of cflow.Schedule.same_kind cflow.Model.NodeKind.spell next
    cflow.Schedule.pick sorted_ids cflow.Base.sort cflow.Schedule.node_of cflow.Schedule.reason_of
    cflow.Schedule.schedulable NodeStatus.is_pending NodeStatus.is_ready cflow.Schedule.add_reason
    cflow.Schedule.blocked_by cflow.Schedule.over_limit
next-fits_example = next-fits graph limits (omega arith) (omega arith)

next-kind_fits_example :
    running_by_kind (by_id graph) NodeKind.agent_task
      + count (has_kind (by_id graph) NodeKind.agent_task) (next graph limits).eligible
    ≤ budget_of limits.budgets NodeKind.agent_task
unfolding running_by_kind budget_of cflow.Schedule.same_kind cflow.Model.NodeKind.spell count by_id
    cflow.Schedule.put_all cflow.Schedule.put NodeStatus.is_running next cflow.Schedule.pick
    sorted_ids cflow.Base.sort cflow.Schedule.node_of cflow.Schedule.reason_of
    cflow.Schedule.schedulable NodeStatus.is_pending NodeStatus.is_ready cflow.Schedule.add_reason
    cflow.Schedule.blocked_by cflow.Schedule.over_limit running
next-kind_fits_example = next-kind_fits graph limits NodeKind.agent_task (omega arith) (omega arith)

-- The pass in full: the third Node waits for a place, the first two are not to be allocated.
next_test : (next graph limits).eligible ≡ "task-c" ∷ []
unfolding next cflow.Schedule.pick sorted_ids cflow.Base.sort by_id cflow.Schedule.put_all
    cflow.Schedule.put cflow.Schedule.node_of cflow.Schedule.reason_of cflow.Schedule.schedulable
    NodeStatus.is_pending NodeStatus.is_ready NodeStatus.is_running cflow.Schedule.add_reason
    cflow.Schedule.blocked_by cflow.Schedule.over_limit running count budget_of
    cflow.Schedule.same_kind cflow.Model.NodeKind.spell running_by_kind cflow.Schedule.add_eligible
    NodeStatus.is_succeeded
next_test = refl
