-- ===== src/Kernel/Lawful/Merge.antt =====
-- The merges of a delivery chain ask for lawful mutations only.
use cflow.Base.{true, some, [], ◌≡◌, refl, String, ◌∷◌, arith, all}
use cflow.Base.Result.{ok}
use cflow.Model.NodeStatus.{NodeStatus}
use cflow.Model.State.{State, node_at}
use cflow.Model.Runtime.{Attempt, Node}
use cflow.Model.Decision.{Mutation}
use cflow.Kernel.Input.{DispatchInput, EffectResultInput}
use cflow.Kernel.Builder.{wf_mut}
use cflow.Kernel.Lawful.Rules.{
  Keeps, Passes, is_lawful, result_rules, if-Passes, chain-Holds, new_builder-Holds, need-Passes,
  bind-Passes, done-Passes,
}
use cflow.Kernel.Lawful.Settle.{IsKeyed}
use cflow.Kernel.Lawful.Free.{free_rules, is_intended, row-lawful, then-Passes}
use cflow.Kernel.Merge
use cflow.Kernel.Admit.{need-ok, refuse-ok}
use cflow.Kernel.Lawful.Free.{ok-Passes}
use cflow.Kernel.Lawful.Dispatch.{start-lawful}
use cflow.Kernel.Lawful.Attempt.{settle_succeeded-Keeps, decide_attempt_ended-Passes}
use cflow.Kernel.Lawful.Found.{running_attempt-shows}
use cflow.Kernel.Lawful.Chain.{allocated-lawful}

module _ (st : State) (keyed : IsKeyed st) where
  start_merge-Keeps :
      (id : String) (node : Node) (base : String)
      → node_at st.nodes id ≡ some node
      → Keeps st (is_lawful st) (Merge.start_merge st node base)
  unfolding Merge.start_merge
  start_merge-Keeps id node base at = record {
    keep = λ b h.
        search (free_rules, start-lawful st keyed id node NodeStatus.running at, allocated-lawful)
          depth 14;
  }

  allocate_merge-Passes :
      (id : String) (node task : Node) (a : Attempt) (input : DispatchInput)
      → node_at st.nodes id ≡ some node
      → Passes st (is_lawful st) (Merge.allocate_merge st node task a input)
  unfolding Merge.allocate_merge
  allocate_merge-Passes id node task a input at =
      search (result_rules, free_rules, if-Passes, then-Passes, start_merge-Keeps id node _ at)
        depth 14

  -- In a state with well-keyed Nodes and Attempts, the allocation of a merge is a fault or asks for
  -- lawful mutations only, with consecutively numbered events of the Workflow; its Attempt has a
  -- number that the Node never used.
  pub merge_dispatch-Passes :
      (input : DispatchInput) → Passes st (is_lawful st) (Merge.decide_merge_dispatch st input)
  unfolding Merge.decide_merge_dispatch
  merge_dispatch-Passes input = then-Passes _ _ _ (
      then-Passes _ _ _ (
        then-Passes _ _ _ (
          need-Passes _ _ _ _ (λ node at. then-Passes _ _ _ (
            then-Passes _ _ _ (
              bind-Passes _ _ _ (λ task. then-Passes _ _ _ (
                bind-Passes _ _ _
                  (λ a. allocate_merge-Passes input.node node task a input at)))))))))

  merge_node-shows :
      (a : Attempt) (text : String) (node : Node)
      → Merge.merge_node st a text ≡ ok node
      → node_at st.nodes a.key.node ≡ some node
  unfolding Merge.merge_node
  merge_node-shows a text node e =
      let (n, (at, e1)) = need-ok _ _ _ node e in
      let (g, e2) = refuse-ok _ _ _ node e1 in ground (arith, at, e2)

  one-lawful : (m : Mutation) → is_lawful st m ≡ true → all (is_lawful st) (m ∷ []) ≡ true
  unfolding all
  one-lawful m h = ground (arith, h)

  integration_row-lawful :
      (head : String)
      → is_intended st ≡ true
      → all (is_lawful st) (Mutation.workflow (Merge.integration_row st head) ∷ []) ≡ true
  unfolding Merge.integration_row Merge.same_row wf_mut
  integration_row-lawful head h = one-lawful _ (row-lawful st _ h refl refl refl refl refl refl)

  verified_row-lawful :
      (head : String)
      → is_intended st ≡ true
      → all (is_lawful st) (Mutation.workflow (Merge.verified_row st head) ∷ []) ≡ true
  unfolding Merge.verified_row Merge.same_row wf_mut
  verified_row-lawful head h = one-lawful _ (row-lawful st _ h refl refl refl refl refl refl)

  -- In a state with well-keyed Nodes and Attempts whose CANCELLED Workflow has its intent, a merge
  -- into the Integration Branch is a fault or asks for lawful mutations only, with consecutively
  -- numbered events of the Workflow.
  pub integration_merged-Passes :
      (input : EffectResultInput)
      → is_intended st ≡ true
      → Passes st (is_lawful st) (Merge.decide_integration_merged st input)
  unfolding Merge.decide_integration_merged
  integration_merged-Passes input intended = ok-Passes _ _ _ (λ a e.
      let (found, running) = running_attempt-shows st keyed input.attempt a e in
      ok-Passes _ _ _ (λ node f. then-Passes _ _ _ (
        done-Passes _ _ (
          chain-Holds _ _ _ (new_builder-Holds _) (
            settle_succeeded-Keeps st keyed a.key a node _ found running
              (merge_node-shows a _ node f) _ (integration_row-lawful input.end_head intended))))))

  -- In a state with well-keyed Nodes and Attempts whose CANCELLED Workflow has its intent, a merge
  -- into the Workspace Branch is a fault or asks for lawful mutations only, with consecutively
  -- numbered events of the Workflow.
  pub workspace_merged-Passes :
      (input : EffectResultInput)
      → is_intended st ≡ true
      → Passes st (is_lawful st) (Merge.decide_workspace_merged st input)
  unfolding Merge.decide_workspace_merged
  workspace_merged-Passes input intended = ok-Passes _ _ _ (λ a e.
      let (found, running) = running_attempt-shows st keyed input.attempt a e in
      ok-Passes _ _ _ (λ node f. then-Passes _ _ _ (
        done-Passes _ _ (
          chain-Holds _ _ _ (new_builder-Holds _) (
            settle_succeeded-Keeps st keyed a.key a node _ found running
              (merge_node-shows a _ node f) _ (verified_row-lawful input.end_head intended))))))

  pub integration_merge_failed-Passes :
      (input : EffectResultInput)
      → Passes st (is_lawful st) (Merge.decide_integration_merge_failed st input)
  unfolding Merge.decide_integration_merge_failed
  integration_merge_failed-Passes input =
      search (result_rules, free_rules, bind-Passes, then-Passes) depth 12

  pub workspace_merge_failed-Passes :
      (input : EffectResultInput)
      → Passes st (is_lawful st) (Merge.decide_workspace_merge_failed st input)
  unfolding Merge.decide_workspace_merge_failed
  workspace_merge_failed-Passes input =
      search (result_rules, free_rules, bind-Passes, then-Passes) depth 12

  pub rollbacked-Passes :
      (input : EffectResultInput) → Passes st (is_lawful st) (Merge.decide_rollbacked st input)
  unfolding Merge.decide_rollbacked
  rollbacked-Passes input = bind-Passes _ _ _ (λ a. decide_attempt_ended-Passes st _ keyed)
