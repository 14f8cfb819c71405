-- ===== src/Kernel/Lawful/Sweep.antt =====
-- The end of a process and the Recovery sweep ask for lawful mutations only.
use cflow.Base.{true, false, [], ◌≡◌, refl, ◌&&◌, not}
use cflow.Model.RunStatus
use cflow.Model.RunStatus.{RunStatus}
use cflow.Base.{pos}
use cflow.Model.ProcessStatus.{ProcessStatus}
use cflow.Model.Code
use cflow.Model.Code.{Code}
use cflow.Model.Runtime.{ProcessRecord, Run}
use cflow.Model.State.{State}
use cflow.Model.Decision.{EventKind, Mutation}
use cflow.Kernel.Input.{EffectResultInput}
use cflow.Kernel.Facts.{active_quiescing, find_process, has_running_attempt, has_running_process}
use cflow.Kernel.Builder.{◌▸◌, mutate, note}
use cflow.Kernel.Settle
use cflow.Kernel.Sweep
use cflow.Kernel.Sweep.{decide_process_stopped, decide_reconcile}
use cflow.Kernel.Lawful.Rules.{
  is_lawful, Keeps, Passes, builder_rules, result_rules, if-Holds, chain-Holds, Option-Holds,
  need-Passes, done-Passes, new_builder-Holds, with_run-Keeps,
}
use cflow.Kernel.Lawful.Settle.{
  IsKeyed, run-lawful, finish_cancel-Keeps, converge_stopping-Keeps, converge_quiescing-Keeps,
  block_workflow-Keeps, settle_orphan_process-Keeps,
}

module _ (st : State) (keyed : IsKeyed st) where
  settle_stopped_process-Keeps :
      (input : EffectResultInput) → Keeps st (is_lawful st) (Sweep.settle_stopped_process st input)
  unfolding Sweep.settle_stopped_process
  settle_stopped_process-Keeps input = record {
    keep = λ b k.
        if-Holds _ input.orphan _ _
          (λ _. (settle_orphan_process-Keeps st keyed input.process).keep b k)
          (λ _. search (builder_rules, converge_stopping-Keeps st keyed) depth 12);
  }

  process-lawful :
      (p : ProcessRecord)
      → is_lawful st (Mutation.process_end p.id ProcessStatus.stopped (pos 0) st.now) ≡ true
  unfolding is_lawful
  process-lawful p = refl

  -- In a state with well-keyed Nodes and Attempts, the end of a managed process is a fault or asks for
  -- lawful mutations only, in the sense of `is_lawful`.
  -- Its events are numbered consecutively from the next event number on and name the Workflow.
  pub decide_process_stopped-Passes :
      (input : EffectResultInput) → Passes st (is_lawful st) (decide_process_stopped st input)
  unfolding decide_process_stopped
  decide_process_stopped-Passes input = need-Passes _ (find_process st input.process) _ _ (λ p _.
      search (result_rules, builder_rules, process-lawful, settle_stopped_process-Keeps) depth 12)

  blocked_run-Keeps :
      (r : Run)
      → Keeps st (is_lawful st) (λ c.
        c
        ▸ mutate (Mutation.run r.id RunStatus.blocked false Code.none_set [])
        ▸ note EventKind.run_blocked "run blocked")
  unfolding RunStatus.is_running
  blocked_run-Keeps r = record { keep = λ b h. search (builder_rules, run-lawful) depth 10 }

  block_failed-Keeps : Keeps st (is_lawful st) (Sweep.block_failed st)
  unfolding Sweep.block_failed
  block_failed-Keeps = record {
    keep = λ b k.
        search (builder_rules, block_workflow-Keeps, with_run-Keeps, blocked_run-Keeps) depth 12;
  }

  sweep-Keeps : Keeps st (is_lawful st) (Sweep.sweep st)
  unfolding Sweep.sweep
  sweep-Keeps = record {
    keep = λ b k.
        if-Holds _ (active_quiescing st && not (has_running_attempt st)) _ _
          (λ _. chain-Holds _ _ _ k (converge_quiescing-Keeps st keyed))
          (λ _.
            chain-Holds _ _ _ (chain-Holds _ _ _ k (converge_stopping-Keeps st keyed _ _ _))
              block_failed-Keeps);
  }

  -- In a state with well-keyed Nodes and Attempts, the Recovery sweep is a fault or asks for
  -- lawful mutations only, in the sense of `is_lawful`.
  -- Its events are numbered consecutively from the next event number on and name the Workflow.
  pub decide_reconcile-Passes : Passes st (is_lawful st) (decide_reconcile st)
  unfolding decide_reconcile
  decide_reconcile-Passes =
      let start = new_builder-Holds _ in
      done-Passes _ _ (
        Option-Holds _ (Settle.pending_cancel st) _ _ (λ _. sweep-Keeps.keep _ start)
          (λ intent _.
            if-Holds _ (not (has_running_attempt st) && not (has_running_process st)) _ _
              (λ _. (finish_cancel-Keeps st keyed intent).keep _ start)
              (λ _. sweep-Keeps.keep _ start)))
