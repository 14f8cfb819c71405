-- ===== src/Kernel/Quiet.antt =====
-- What the Recovery sweep of internal/decision/execution.go may ask of the Store: closings only.
use cflow.Base.{Bool, true, false, String, List, [], ◌∷◌, ◌&&◌, ◌||◌, not}
use cflow.Model.RuntimeStatus.{RuntimeStatus}
use cflow.Model.NodeStatus
use cflow.Model.NodeStatus.{NodeStatus}
use cflow.Model.AttemptStatus
use cflow.Model.AttemptStatus.{AttemptStatus}
use cflow.Model.RunStatus
use cflow.Model.RunStatus.{RunStatus}
use cflow.Model.Code
use cflow.Model.Code.{Code}
use cflow.Model.Runtime.{AttemptKey, Run}
use cflow.Model.State.{State, CancelIntent, node_at, attempt_at}
use cflow.Model.Decision.{EventKind, Mutation}
use cflow.Kernel.Facts.{
  active_quiescing, active_run, has_blocking_finding, has_running_attempt,
  has_running_attempt_except, has_running_process, has_running_process_except,
}
use cflow.Kernel.Builder.{Builder, ◌▸◌, mutate, note, wf_mut, wf_mut_status}
use cflow.Kernel.Settle
use cflow.Kernel.Sweep
use cflow.Kernel.Sweep.{decide_reconcile}
use cflow.Kernel.Lawful.Rules.{
  Holds, Keeps, Passes, builder_rules, if-Holds, chain-Holds, Option-Holds, done-Passes,
  new_builder-Holds, with_run-Keeps,
}

unfoldable pub is_closed_run : RunStatus → Bool
is_closed_run RunStatus.interrupted = true
is_closed_run RunStatus.blocked = true
is_closed_run RunStatus.cancelled = true
is_closed_run _ = false

unfoldable pub is_halted : RuntimeStatus → Bool
is_halted RuntimeStatus.paused = true
is_halted RuntimeStatus.blocked = true
is_halted RuntimeStatus.cancelled = true
is_halted _ = false

-- A mutation that only closes: a Run is INTERRUPTED, BLOCKED or CANCELLED with its gate closed, the
-- Workflow is PAUSED, BLOCKED or CANCELLED, a Node or an Attempt is CANCELLED. No other mutation is.
unfoldable pub is_closing : Mutation → Bool
unfolding NodeStatus.is_cancelled
is_closing (Mutation.workflow m) = is_halted m.runtime
is_closing (Mutation.run id status gate reason snapshot) = not gate && is_closed_run status
is_closing (Mutation.node_status id status charged) = NodeStatus.is_cancelled status
is_closing (Mutation.attempt_end key AttemptStatus.cancelled _ _ _ _ _ _) = true
is_closing _ = false

module _ (st : State) where
  cancel_nodes-closing : (ids : List String) → Keeps st is_closing (Settle.cancel_nodes st ids)
  unfolding Settle.cancel_nodes is_closing NodeStatus.is_cancelled
  cancel_nodes-closing ids = record { keep = go ids }
    where
      go :
          (ids : List String) (b : Builder)
          → Holds st is_closing b
          → Holds st is_closing (Settle.cancel_nodes st ids b)
      go [] b h = h
      go (id ∷ ids) b h = go ids _ (
          Option-Holds _ (node_at st.nodes id) b _ (λ _. h)
            (λ n e.
              if-Holds _ (NodeStatus.is_terminal n.status) b _ (λ _. h)
                (λ _. search (builder_rules) depth 10)))

  cancel_attempts-closing :
      (ks : List AttemptKey) → Keeps st is_closing (Settle.cancel_attempts st ks)
  unfolding Settle.cancel_attempts is_closing
  cancel_attempts-closing ks = record { keep = go ks }
    where
      go :
          (ks : List AttemptKey) (b : Builder)
          → Holds st is_closing b
          → Holds st is_closing (Settle.cancel_attempts st ks b)
      go [] b h = h
      go (k ∷ ks) b h = go ks _ (
          Option-Holds _ (attempt_at st.attempts k) b _ (λ _. h)
            (λ a e.
              if-Holds _
                (not (AttemptStatus.is_terminal a.status)
                  && not (AttemptStatus.is_running a.status))
                _ b (λ o. search (builder_rules) depth 10) (λ _. h)))

  cancel_run-closing :
      (r : Run)
      → Keeps st is_closing (λ c.
        c
        ▸ mutate (Mutation.run r.id RunStatus.cancelled false Code.none_set [])
        ▸ note EventKind.run_cancelled "run cancelled")
  unfolding is_closing is_closed_run
  cancel_run-closing r = record { keep = λ b h. search (builder_rules) depth 10 }

  finish_cancel-closing :
      (intent : CancelIntent) → Keeps st is_closing (Settle.finish_cancel st intent)
  unfolding Settle.finish_cancel is_closing is_halted wf_mut
  finish_cancel-closing intent = record {
    keep = λ b h.
        search
          (
            builder_rules, with_run-Keeps, cancel_run-closing, cancel_nodes-closing,
            cancel_attempts-closing,
          )
          depth 14;
  }

  settle_stopped-closing : (run : Run) → Keeps st is_closing (Settle.settle_stopped st run)
  unfolding Settle.settle_stopped is_closing is_halted is_closed_run wf_mut_status wf_mut
  settle_stopped-closing run = record {
    keep = λ b h.
        if-Holds _ (has_blocking_finding st) _ _ (λ _. search (builder_rules) depth 12)
          (λ _. search (builder_rules) depth 12);
  }

  converge_stopping-closing :
      (k : AttemptKey) (process : String) (t : Bool)
      → Keeps st is_closing (Settle.converge_stopping st k process t)
  unfolding Settle.converge_stopping
  converge_stopping-closing k process t = record {
    keep = λ b h.
        Option-Holds _ (active_run st) b _ (λ _. h)
          (λ run e.
            if-Holds _ (not t && not (RunStatus.is_stopping run.status)) b _ (λ _. h)
              (λ _.
                if-Holds _
                  (has_running_process_except st process || has_running_attempt_except st k) b _
                  (λ _. h)
                  (λ _.
                    Option-Holds _ (Settle.pending_cancel st) _ _
                      (λ _. (settle_stopped-closing run).keep b h)
                      (λ intent c. (finish_cancel-closing intent).keep b h))));
  }

  converge_quiescing-closing : Keeps st is_closing (Settle.converge_quiescing st)
  unfolding Settle.converge_quiescing is_closing is_halted is_closed_run wf_mut_status wf_mut
  converge_quiescing-closing = record {
    keep = λ b h.
        Option-Holds _ (active_run st) b _ (λ _. h) (λ run e. search (builder_rules) depth 16);
  }

  block_workflow-closing : Keeps st is_closing (Settle.block_workflow st)
  unfolding Settle.block_workflow is_closing is_halted wf_mut_status wf_mut
  block_workflow-closing = record { keep = λ b h. search (builder_rules) depth 12 }

  blocked_run-closing :
      (r : Run)
      → Keeps st is_closing (λ c.
        c
        ▸ mutate (Mutation.run r.id RunStatus.blocked false Code.none_set [])
        ▸ note EventKind.run_blocked "run blocked")
  unfolding is_closing is_closed_run
  blocked_run-closing r = record { keep = λ b h. search (builder_rules) depth 10 }

  block_failed-closing : Keeps st is_closing (Sweep.block_failed st)
  unfolding Sweep.block_failed
  block_failed-closing = record {
    keep = λ b k.
        search (builder_rules, block_workflow-closing, with_run-Keeps, blocked_run-closing) depth
          12;
  }

  sweep-closing : Keeps st is_closing (Sweep.sweep st)
  unfolding Sweep.sweep
  sweep-closing = record {
    keep = λ b k.
        if-Holds _ (active_quiescing st && not (has_running_attempt st)) _ _
          (λ _. chain-Holds _ _ _ k converge_quiescing-closing)
          (λ _.
            chain-Holds _ _ _ (chain-Holds _ _ _ k (converge_stopping-closing _ _ _))
              block_failed-closing);
  }

  -- In any state, the Recovery sweep is a fault or asks for closings only: it opens no Run and no
  -- gate, allocates nothing and puts neither the Workflow nor a Node nor an Attempt back to work.
  -- Its events are numbered consecutively from the next event number on and name the Workflow.
  pub decide_reconcile-closes : Passes st is_closing (decide_reconcile st)
  unfolding decide_reconcile
  decide_reconcile-closes =
      let start = new_builder-Holds _ in
      done-Passes _ _ (
        Option-Holds _ (Settle.pending_cancel st) _ _ (λ _. sweep-closing.keep _ start)
          (λ intent _.
            if-Holds _ (not (has_running_attempt st) && not (has_running_process st)) _ _
              (λ _. (finish_cancel-closing intent).keep _ start) (λ _. sweep-closing.keep _ start)))
