-- ===== src/Kernel/Lawful/Dispatch.antt =====
-- The allocation of a Node asks for lawful mutations only.
use cflow.Base.{
  ℕ, true, String, none, some, List, [], ◌∷◌, ◌≡◌, refl, ◌==◌, ◌||◌, ◌+◌, ◌≤◌, ◌<◌, arith,
}
use cflow.Model.NodeStatus.{NodeStatus}
use cflow.Model.Runtime.{AttemptKey, Attempt, Node, same_key}
use cflow.Model.State.{State, node_at, attempt_at}
use cflow.Model.Decision.{Mutation}
use cflow.Kernel.Input.{DispatchInput}
use cflow.Kernel.Dispatch
use cflow.Kernel.Dispatch.{decide_checkpoint_dispatch, decide_dispatch_agent_task}
use cflow.Kernel.Lookup.{max_number, next_attempt_number}
use cflow.Kernel.SessionPick
use cflow.Kernel.SessionPick.{SessionChoice}
use cflow.Kernel.Lawful.Rules.{
  is_lawful, Keeps, Passes, builder_rules, result_rules, if-Holds, chain-Holds, mutate-Keeps,
  refuse-Passes, need-Passes, bind-Passes, done-Passes, new_builder-Holds,
}
use cflow.Kernel.Lawful.Settle.{IsKeyed, node-lawful, finding-lawful}

max_number-above :
    (node : String) (xs : List (AttemptKey × Attempt)) (best : ℕ) → best ≤ max_number node xs best
unfolding max_number
max_number-above node [] best = omega arith
max_number-above node ((k, a) ∷ xs) best =
    ground (arith, max_number-above node xs k.number, max_number-above node xs best)

-- No Attempt of the Node is recorded under a number above the highest.
pub max_number-fresh :
    (node : String) (n : ℕ) (xs : List (AttemptKey × Attempt)) (best : ℕ)
    → max_number node xs best < n
    → attempt_at xs (record { node = node; number = n }) ≡ none
unfolding max_number attempt_at same_key
max_number-fresh node n [] best h = refl
max_number-fresh node n ((k, a) ∷ xs) best h = ground (
  arith,
  h,
  max_number-above node xs k.number,
  max_number-above node xs best,
  max_number-fresh node n xs k.number,
  max_number-fresh node n xs best,
)

module _ (st : State) (keyed : IsKeyed st) where
  pub start-lawful :
      (id : String) (node : Node) (status : NodeStatus)
      → node_at st.nodes id ≡ some node
      → is_lawful st (Mutation.node_status node.id status node.retry_charged) ≡ true
  start-lawful id node status at = node-lawful st keyed id node status at

  fresh-lawful :
      (node : Node) (c : SessionChoice) (base : String)
      → is_lawful st (Mutation.attempt_append (Dispatch.started_attempt st node c base)) ≡ true
  unfolding is_lawful Dispatch.started_attempt next_attempt_number
  fresh-lawful node c base =
      ground (arith, max_number-fresh node.id (max_number node.id st.attempts 0 + 1) st.attempts 0)

  append_session-Keeps :
      (c : SessionChoice) (input : DispatchInput)
      → Keeps st (is_lawful st) (Dispatch.append_session c input)
  unfolding Dispatch.append_session is_lawful
  append_session-Keeps c input = record {
    keep = λ b k.
        if-Holds _ (c.reuse || c.resume) _ _ (λ _. k)
          (λ _. chain-Holds _ _ _ k (mutate-Keeps _ _ refl));
  }

  append_process-Keeps :
      (c : SessionChoice) (input : DispatchInput)
      → Keeps st (is_lawful st) (Dispatch.append_process st c input)
  unfolding Dispatch.append_process is_lawful
  append_process-Keeps c input = record {
    keep = λ b k.
        if-Holds _ (input.process == "") _ _ (λ _. k)
          (λ _. chain-Holds _ _ _ k (mutate-Keeps _ _ refl));
  }

  task-lawful : (id base path : String) → is_lawful st (Mutation.task id base path) ≡ true
  unfolding is_lawful
  task-lawful id base path = refl

  start_effect-Keeps :
      (node : Node) (c : SessionChoice) (input : DispatchInput) (base : String)
      → Keeps st (is_lawful st) (Dispatch.start_effect st node c input base)
  unfolding Dispatch.start_effect
  start_effect-Keeps node c input base = record {
    keep = λ b k. search (builder_rules, task-lawful) depth 12;
  }

  allocate-Keeps :
      (id : String) (node : Node) (c : SessionChoice) (input : DispatchInput) (base : String)
      → node_at st.nodes id ≡ some node
      → Keeps st (is_lawful st) (Dispatch.allocate st node c input base)
  unfolding Dispatch.allocate
  allocate-Keeps id node c input base at = record {
    keep = λ b k.
        search
          (
            builder_rules,
            start-lawful id node NodeStatus.running at,
            append_session-Keeps,
            fresh-lawful,
            append_process-Keeps,
            start_effect-Keeps,
          )
          depth 18;
  }

  -- In a state with well-keyed Nodes and Attempts, the allocation of a coding Node is a fault or asks for
  -- lawful mutations only, in the sense of `is_lawful`.
  -- Its events are numbered consecutively from the next event number on and name the Workflow.
  pub decide_dispatch-Passes :
      (input : DispatchInput) → Passes st (is_lawful st) (decide_dispatch_agent_task st input)
  unfolding decide_dispatch_agent_task
  decide_dispatch-Passes input = refuse-Passes _ _ _ _ (
      refuse-Passes _ _ _ _ (
        refuse-Passes _ _ _ _ (
          need-Passes _ (node_at st.nodes input.node) _ _ (λ node at. refuse-Passes _ _ _ _ (
            refuse-Passes _ _ _ _ (
              refuse-Passes _ _ _ _ (
                refuse-Passes _ _ _ _ (
                  bind-Passes _ (SessionPick.task_base node input) _ (λ base.
                    bind-Passes _ (SessionPick.choose_session st node input) _ (λ c.
                      done-Passes _ _ (
                        (allocate-Keeps input.node node c input base at).keep _
                          (new_builder-Holds _))))))))))))

  pub decide_checkpoint-Passes :
      (input : DispatchInput) → Passes st (is_lawful st) (decide_checkpoint_dispatch st input)
  unfolding decide_checkpoint_dispatch
  decide_checkpoint-Passes input = refuse-Passes _ _ _ _ (
      refuse-Passes _ _ _ _ (
        refuse-Passes _ _ _ _ (
          need-Passes _ (node_at st.nodes input.node) _ _ (λ node at.
            search
              (
                result_rules,
                builder_rules,
                finding-lawful,
                start-lawful input.node node NodeStatus.succeeded at,
              )
              depth 14))))
