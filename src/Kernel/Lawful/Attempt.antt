-- ===== src/Kernel/Lawful/Attempt.antt =====
-- The end of an Attempt asks for lawful mutations only.
use cflow.Base.{List, [], all}
use cflow.Base.{Bool, true, false, some, ◌≡◌, refl, ◌&&◌, ◌||◌, not, ◌+◌, ltb, arith}
use cflow.Model.NodeStatus.{NodeStatus}
use cflow.Model.AttemptStatus
use cflow.Model.AttemptStatus.{AttemptStatus}
use cflow.Model.AttemptOutcome.{AttemptOutcome}
use cflow.Model.RunStatus
use cflow.Model.RunStatus.{RunStatus}
use cflow.Model.Code
use cflow.Model.Code.{Code}
use cflow.Model.Evidence
use cflow.Model.Evidence.{no_evidence}
use cflow.Model.Fault.{FaultPolicy, policy}
use cflow.Model.Runtime.{AttemptKey, Attempt, Node, Run}
use cflow.Model.State.{State, node_at, attempt_at}
use cflow.Model.Decision.{Mutation}
use cflow.Kernel.Input.{EffectResultInput}
use cflow.Kernel.Facts.{
  active_quiescing, active_run, has_running_attempt_except, has_running_process,
}
use cflow.Kernel.Builder.{Builder}
use cflow.Kernel.Settle
use cflow.Kernel.Attempt
use cflow.Kernel.Attempt.{decide_attempt_ended}
use cflow.Kernel.Lawful.Rules.{
  Holds, mutate_all-Keeps, is_lawful, Keeps, Passes, builder_rules, if-Holds, if-Keeps, done-Passes,
  Option-Holds, if-Passes, Option-Passes, guard-Passes, need-Passes, new_builder-Holds, err-Passes,
}
use cflow.Kernel.Lawful.Settle.{
  IsKeyed, node-lawful, finding-lawful, run-lawful, finish_cancel-Keeps, converge_stopping-Keeps,
  settle_after_attempt_end-Keeps, close_dispatch_for_failure-Keeps,
}

running-open :
    (s : AttemptStatus) → AttemptStatus.is_running s ≡ true → AttemptStatus.is_terminal s ≡ false
unfolding AttemptStatus.is_running AttemptStatus.is_terminal
running-open AttemptStatus.running e = refl
running-open AttemptStatus.ready e = refl
running-open AttemptStatus.succeeded e = cc
running-open AttemptStatus.failed e = cc
running-open AttemptStatus.interrupted e = cc
running-open AttemptStatus.cancelled e = cc
running-open (AttemptStatus.undeclared s) e = refl

-- One RUNNING Attempt and its Node, which an end settles.
module _ (st : State) (keyed : IsKeyed st) (key : AttemptKey) (attempt : Attempt) (node : Node)
    (input : EffectResultInput) (found : attempt_at st.attempts key ≡ some attempt)
    (running : AttemptStatus.is_running attempt.status ≡ true)
    (at : node_at st.nodes key.node ≡ some node) where
  end-lawful :
      (status : AttemptStatus) (c : Code) (charged : Bool)
      → AttemptStatus.is_terminal status ≡ true
      → is_lawful st (Attempt.end_of st attempt input status c charged) ≡ true
  unfolding is_lawful Attempt.end_of
  end-lawful status c charged h =
      rw (keyed.at_attempt key attempt found) (ground (arith, running-open attempt.status running))

  charge-lawful :
      (status : NodeStatus)
      → is_lawful st (Mutation.node_status node.id status node.retry_charged) ≡ true
  charge-lawful status = node-lawful st keyed key.node node status at

  retry_charge-lawful :
      ltb node.retry_charged node.retry_budget ≡ true
      → is_lawful st (Mutation.node_status node.id NodeStatus.ready (node.retry_charged + 1)) ≡ true
  unfolding is_lawful
  retry_charge-lawful h =
      let (same, fits) = keyed.at_node key.node node at in rw same (ground arith)

  successor-lawful :
      is_lawful st (Mutation.attempt_append (Attempt.successor st node attempt input)) ≡ true
  unfolding is_lawful Attempt.successor
  successor-lawful =
      let (same, fits) = keyed.at_node key.node node at in
      rw (keyed.at_attempt key attempt found)
        (rw same (ground (arith, keyed.is_last key attempt found running)))

  retry_attempt-Keeps :
      (c : Code) (pol : FaultPolicy)
      → ltb node.retry_charged node.retry_budget ≡ true
      → Keeps st (is_lawful st) (Attempt.retry_attempt st node attempt input c pol)
  unfolding Attempt.retry_attempt AttemptStatus.is_terminal
  retry_attempt-Keeps c pol h = record {
    keep =
        λ b k. search (builder_rules, end-lawful, retry_charge-lawful h, successor-lawful) depth 16;
  }

  defer_retry-Keeps :
      (c : Code) (pol : FaultPolicy)
      → Keeps st (is_lawful st) (Attempt.defer_retry st node attempt input c pol)
  unfolding Attempt.defer_retry AttemptStatus.is_terminal
  defer_retry-Keeps c pol = record {
    keep = λ b k.
        search
          (
            builder_rules,
            end-lawful,
            charge-lawful,
            finding-lawful,
            settle_after_attempt_end-Keeps st keyed,
          )
          depth 16;
  }

  block_attempt-Keeps :
      (c : Code) (pol : FaultPolicy)
      → Keeps st (is_lawful st) (Attempt.block_attempt st node attempt input c pol)
  unfolding Attempt.block_attempt AttemptStatus.is_terminal
  block_attempt-Keeps c pol = record {
    keep = λ b k.
        search
          (
            builder_rules,
            end-lawful,
            charge-lawful,
            finding-lawful,
            close_dispatch_for_failure-Keeps st keyed,
          )
          depth 16;
  }

  settle_failure-Keeps :
      (c : Code) (pol : FaultPolicy) (q : Bool)
      → Keeps st (is_lawful st) (Attempt.settle_failure st node attempt input c pol q)
  unfolding Attempt.settle_failure
  settle_failure-Keeps c pol q =
      let allowed = pol.retry.allows_successor in
      let fits = ltb node.retry_charged node.retry_budget in
      let held = active_quiescing st || Attempt.is_cancelling st in
      if-Keeps _ (allowed && fits && not held && not q) _ _
        (λ h. retry_attempt-Keeps c pol (ground (arith, h)))
        (λ _.
          if-Keeps _ (allowed && fits && held) _ _ (λ _. defer_retry-Keeps c pol)
            (λ _. block_attempt-Keeps c pol))

  pub decide_failure-Passes :
      (c : Code) (b : Builder)
      → Holds st (is_lawful st) b
      → Passes st (is_lawful st) (Attempt.decide_attempt_failure st node attempt input c b)
  unfolding Attempt.decide_attempt_failure
  decide_failure-Passes c b h =
      need-Passes _ (policy c) _ _
        (λ pol _. done-Passes _ _ ((settle_failure-Keeps _ _ _).keep b h))

  open_stop-Keeps : (run : Run) → Keeps st (is_lawful st) (Attempt.open_stop st attempt input run)
  unfolding Attempt.open_stop RunStatus.is_running
  open_stop-Keeps run = record {
    keep = λ b k. search (builder_rules, run-lawful, converge_stopping-Keeps st keyed) depth 18;
  }

  make_ready-Keeps : Keeps st (is_lawful st) (Attempt.make_ready st node attempt)
  unfolding Attempt.make_ready
  make_ready-Keeps = record { keep = λ b k. search (builder_rules, charge-lawful) depth 10 }

  ready_and_stop-Keeps : Keeps st (is_lawful st) (Attempt.ready_and_stop st node attempt input)
  unfolding Attempt.ready_and_stop
  ready_and_stop-Keeps = record {
    keep = λ b k.
        Option-Holds _ (active_run st) _ _ (λ _. make_ready-Keeps.keep b k)
          (λ run _.
            if-Holds _ (RunStatus.is_terminal run.status) _ _ (λ _. make_ready-Keeps.keep b k)
              (λ _. (open_stop-Keeps run).keep _ (make_ready-Keeps.keep b k)));
  }

  end_interrupted-Keeps : Keeps st (is_lawful st) (Attempt.end_interrupted st node attempt input)
  unfolding Attempt.end_interrupted AttemptStatus.is_terminal
  end_interrupted-Keeps = record { keep = λ b k. search (builder_rules, end-lawful) depth 10 }

  pub settle_interrupted-Keeps :
      Keeps st (is_lawful st) (Attempt.settle_interrupted st node attempt input)
  unfolding Attempt.settle_interrupted
  settle_interrupted-Keeps = record {
    keep = λ b k.
        let ended = end_interrupted-Keeps.keep b k in
        Option-Holds _ (Settle.pending_cancel st) _ _ (λ _. ready_and_stop-Keeps.keep _ ended)
          (λ intent _.
            if-Holds _
              (not (has_running_attempt_except st attempt.key) && not (has_running_process st)) _ _
              (λ _. (finish_cancel-Keeps st keyed intent).keep _ ended) (λ _. ended));
  }

  pub settle_succeeded-Keeps :
      (extra : List Mutation)
      → all (is_lawful st) extra ≡ true
      → Keeps st (is_lawful st) (Attempt.settle_node_succeeded st node attempt input extra)
  unfolding Attempt.settle_node_succeeded AttemptStatus.is_terminal
  settle_succeeded-Keeps extra h = record {
    keep = λ b k.
        search
          (
            builder_rules,
            end-lawful,
            charge-lawful,
            mutate_all-Keeps,
            settle_after_attempt_end-Keeps st keyed,
          )
          depth 16;
  }

  settle_outcome-Passes :
      (o : AttemptOutcome)
      → Passes st (is_lawful st) (Attempt.settle_outcome st node attempt input o)
  unfolding Attempt.settle_outcome all
  settle_outcome-Passes AttemptOutcome.interrupted =
      done-Passes _ _ (settle_interrupted-Keeps.keep _ (new_builder-Holds _))
  settle_outcome-Passes AttemptOutcome.succeeded =
      Option-Passes _ (Attempt.evidence_gate st node attempt input) _ _
        (λ _.
          guard-Passes _ (Evidence.same input.evidence no_evidence) _ _
            (λ _. done-Passes _ _ ((settle_succeeded-Keeps [] refl).keep _ (new_builder-Holds _))))
        (λ c _. decide_failure-Passes c _ (new_builder-Holds _))
  settle_outcome-Passes AttemptOutcome.failed =
      guard-Passes _ (not (Code.is_set input.failure_code)) _ _ (λ _.
        if-Passes _ (Code.same input.failure_code Code.user_interrupted) _ _
          (λ _. done-Passes _ _ (settle_interrupted-Keeps.keep _ (new_builder-Holds _)))
          (λ _. decide_failure-Passes input.failure_code _ (new_builder-Holds _)))
  settle_outcome-Passes (AttemptOutcome.undeclared _) = err-Passes _ _

-- In a state with well-keyed Nodes and Attempts, where a RUNNING Attempt is its Node's last, the end
-- of an Attempt is a fault or asks for lawful mutations only: a Workflow row keeps the identity,
-- Project, Target Branch and Base Commit and is CANCELLED only with a cancel intent; a Run that is
-- changed has its dispatch gate closed and is not RUNNING; a Node's charge stays within its budget;
-- an Attempt ends once, with a terminal status, and none is appended under a used key.
-- Its events are numbered consecutively from the next event number on and name the Workflow.
pub decide_attempt_ended-Passes :
    (st : State) (input : EffectResultInput)
    → IsKeyed st
    → Passes st (is_lawful st) (decide_attempt_ended st input)
unfolding decide_attempt_ended
decide_attempt_ended-Passes st input keyed =
    need-Passes _ (attempt_at st.attempts input.attempt) _ _ (λ a found.
      guard-Passes _ (not (AttemptStatus.is_running a.status)) _ _ (λ running.
        need-Passes _ (node_at st.nodes input.attempt.node) _ _ (λ n at.
          settle_outcome-Passes st keyed input.attempt a n input found (ground (arith, running)) at
            input.outcome)))
