-- ===== src/Kernel/Lawful/Settle.antt =====
-- The settlement protocols ask for lawful mutations only.
use cflow.Base.{
  Bool, true, false, String, Option, none, some, List, [], ◌∷◌, ◌≡◌, refl, ◌&&◌, ◌||◌, not, ◌≤◌,
  ◌+◌, arith, eq_refl,
}
use cflow.Model.RuntimeStatus
use cflow.Model.RuntimeStatus.{RuntimeStatus}
use cflow.Model.NodeStatus
use cflow.Model.NodeStatus.{NodeStatus}
use cflow.Model.RunStatus
use cflow.Model.RunStatus.{RunStatus}
use cflow.Model.AttemptStatus
use cflow.Model.AttemptStatus.{AttemptStatus}
use cflow.Model.WorkflowStage.{WorkflowStage}
use cflow.Model.Code
use cflow.Model.Code.{Code}
use cflow.Model.Runtime.{Finding, AttemptKey, Node, Attempt, Run}
use cflow.Model.State.{State, CancelIntent, node_at, attempt_at}
use cflow.Model.Decision.{EventKind, Mutation}
use cflow.Kernel.Facts.{
  active_run, has_blocking_finding, has_running_attempt_except, has_running_process,
  has_running_process_except,
}
use cflow.Kernel.Builder.{Builder, ◌▸◌, mutate, note, wf_mut, wf_mut_status}
use cflow.Kernel.Settle
use cflow.Kernel.Lawful.Rules.{
  is_lawful, Holds, Keeps, builder_rules, if-Holds, Option-Holds, with_run-Keeps,
}

module _ (st : State) where
  -- A Workflow row that keeps the identity is lawful, unless it is CANCELLED with no intent.
  pub wf_mut-lawful :
      (stage : WorkflowStage) (rt : RuntimeStatus) (intent : Option CancelIntent)
      → RuntimeStatus.is_cancelled rt ≡ false
      → is_lawful st (Mutation.workflow (wf_mut st stage rt intent)) ≡ true
  unfolding is_lawful wf_mut
  wf_mut-lawful stage rt intent h = ground (
    arith,
    eq_refl st.workflow.id,
    eq_refl st.workflow.project,
    eq_refl st.workflow.target_branch,
    eq_refl st.workflow.base_commit,
  )

  pub wf_mut-cancel_lawful :
      (stage : WorkflowStage) (rt : RuntimeStatus) (intent : CancelIntent)
      → is_lawful st (Mutation.workflow (wf_mut st stage rt (some intent))) ≡ true
  unfolding is_lawful wf_mut
  wf_mut-cancel_lawful stage rt intent = ground (
    arith,
    eq_refl st.workflow.id,
    eq_refl st.workflow.project,
    eq_refl st.workflow.target_branch,
    eq_refl st.workflow.base_commit,
  )

  pub wf_mut_status-lawful :
      (rt : RuntimeStatus)
      → RuntimeStatus.is_cancelled rt ≡ false
      → is_lawful st (Mutation.workflow (wf_mut_status st rt)) ≡ true
  unfolding wf_mut_status
  wf_mut_status-lawful rt h = wf_mut-lawful st.workflow.stage rt st.workflow.cancel_intent h

  pub run-lawful :
      (id : String) (status : RunStatus) (c : Code) (ks : List AttemptKey)
      → RunStatus.is_running status ≡ false
      → is_lawful st (Mutation.run id status false c ks) ≡ true
  unfolding is_lawful
  run-lawful id status c ks h = ground arith

abbrev blocked_lawful : RuntimeStatus.is_cancelled RuntimeStatus.blocked ≡ false
unfolding RuntimeStatus.is_cancelled
blocked_lawful = refl

-- An Attempt that is neither terminal nor running may be cancelled.
attempt-lawful :
    (st : State) (k : AttemptKey) (a : Attempt)
    → attempt_at st.attempts k ≡ some a
    → (not (AttemptStatus.is_terminal a.status) && not (AttemptStatus.is_running a.status)) ≡ true
    → is_lawful st
        (Mutation.attempt_end k AttemptStatus.cancelled "" "" Code.none_set [] false st.now)
      ≡ true
unfolding is_lawful
attempt-lawful st k a e o = ground arith

-- Each Node and each Attempt of the maps stands under its own identity, a Node within its budget,
-- and a RUNNING Attempt is the last of its Node.
pub record IsKeyed (st : State) : Type 0 where
  pub at_node :
      (id : String) (n : Node)
      → node_at st.nodes id ≡ some n
      → (n.id ≡ id) × (n.retry_charged ≤ n.retry_budget)
  pub at_attempt : (k : AttemptKey) (a : Attempt) → attempt_at st.attempts k ≡ some a → a.key ≡ k
  pub is_last :
      (k : AttemptKey) (a : Attempt)
      → attempt_at st.attempts k ≡ some a
      → AttemptStatus.is_running a.status ≡ true
      → attempt_at st.attempts (record { node = k.node; number = k.number + 1 }) ≡ none

module _ (st : State) (keyed : IsKeyed st) where
  pub node-lawful :
      (id : String) (n : Node) (status : NodeStatus)
      → node_at st.nodes id ≡ some n
      → is_lawful st (Mutation.node_status n.id status n.retry_charged) ≡ true
  unfolding is_lawful
  node-lawful id n status e = let (same, fits) = keyed.at_node id n e in rw same (ground arith)

  pub cancel_nodes-Keeps :
      (ids : List String) → Keeps st (is_lawful st) (Settle.cancel_nodes st ids)
  unfolding Settle.cancel_nodes
  cancel_nodes-Keeps ids = record { keep = go ids }
    where
      go :
          (ids : List String) (b : Builder)
          → Holds st (is_lawful st) b
          → Holds st (is_lawful st) (Settle.cancel_nodes st ids b)
      go [] b h = h
      go (id ∷ ids) b h = go ids _ (
          Option-Holds _ (node_at st.nodes id) b _ (λ _. h)
            (λ n e.
              if-Holds _ (NodeStatus.is_terminal n.status) b _ (λ _. h)
                (λ _. search (builder_rules, node-lawful id n NodeStatus.cancelled e) depth 10)))

  pub cancel_attempts-Keeps :
      (ks : List AttemptKey) → Keeps st (is_lawful st) (Settle.cancel_attempts st ks)
  unfolding Settle.cancel_attempts
  cancel_attempts-Keeps ks = record { keep = go ks }
    where
      go :
          (ks : List AttemptKey) (b : Builder)
          → Holds st (is_lawful st) b
          → Holds st (is_lawful st) (Settle.cancel_attempts st ks b)
      go [] b h = h
      go (k ∷ ks) b h = go ks _ (
          Option-Holds _ (attempt_at st.attempts k) b _ (λ _. h)
            (λ a e.
              if-Holds _
                (not (AttemptStatus.is_terminal a.status)
                  && not (AttemptStatus.is_running a.status))
                _ b (λ o. search (builder_rules, attempt-lawful st k a e o) depth 10) (λ _. h)))

  cancel_run-Keeps :
      (r : Run)
      → Keeps st (is_lawful st) (λ c.
        c
        ▸ mutate (Mutation.run r.id RunStatus.cancelled false Code.none_set [])
        ▸ note EventKind.run_cancelled "run cancelled")
  unfolding RunStatus.is_running
  cancel_run-Keeps r = record {
    keep = λ b h. search (builder_rules, run-lawful st r.id RunStatus.cancelled) depth 10;
  }

  pub finish_cancel-Keeps :
      (intent : CancelIntent) → Keeps st (is_lawful st) (Settle.finish_cancel st intent)
  unfolding Settle.finish_cancel
  finish_cancel-Keeps intent = record {
    keep = λ b h.
        search
          (
            builder_rules, wf_mut-cancel_lawful, with_run-Keeps, cancel_run-Keeps,
            cancel_nodes-Keeps, cancel_attempts-Keeps,
          )
          depth 14;
  }

  pub settle_stopped-Keeps : (run : Run) → Keeps st (is_lawful st) (Settle.settle_stopped st run)
  unfolding Settle.settle_stopped RuntimeStatus.is_cancelled RunStatus.is_running
  settle_stopped-Keeps run = record {
    keep = λ b h.
        if-Holds _ (has_blocking_finding st) _ _
          (λ _. search (builder_rules, run-lawful, wf_mut_status-lawful) depth 12)
          (λ _. search (builder_rules, run-lawful, wf_mut_status-lawful) depth 12);
  }

  pub converge_stopping-Keeps :
      (k : AttemptKey) (process : String) (t : Bool)
      → Keeps st (is_lawful st) (Settle.converge_stopping st k process t)
  unfolding Settle.converge_stopping
  converge_stopping-Keeps k process t = record {
    keep = λ b h.
        Option-Holds _ (active_run st) b _ (λ _. h)
          (λ run e.
            if-Holds _ (not t && not (RunStatus.is_stopping run.status)) b _ (λ _. h)
              (λ _.
                if-Holds _
                  (has_running_process_except st process || has_running_attempt_except st k) b _
                  (λ _. h)
                  (λ _.
                    Option-Holds _ (Settle.pending_cancel st) _ _
                      (λ _. (settle_stopped-Keeps run).keep b h)
                      (λ intent c. (finish_cancel-Keeps intent).keep b h))));
  }

  pub converge_quiescing-Keeps : Keeps st (is_lawful st) (Settle.converge_quiescing st)
  unfolding Settle.converge_quiescing RuntimeStatus.is_cancelled RunStatus.is_running
  converge_quiescing-Keeps = record {
    keep = λ b h.
        Option-Holds _ (active_run st) b _ (λ _. h)
          (λ run e. search (builder_rules, run-lawful, wf_mut_status-lawful) depth 16);
  }

  pub settle_run-Keeps : (k : AttemptKey) → Keeps st (is_lawful st) (Settle.settle_run st k)
  unfolding Settle.settle_run
  settle_run-Keeps k = record {
    keep = λ b h.
        Option-Holds _ (active_run st) _ _ (λ _. (converge_stopping-Keeps k "" false).keep b h)
          (λ run e.
            if-Holds _ (RunStatus.is_quiescing run.status && not (has_running_attempt_except st k))
              _ _ (λ _. converge_quiescing-Keeps.keep b h)
              (λ _. (converge_stopping-Keeps k "" false).keep b h));
  }

  pub settle_after_attempt_end-Keeps :
      (k : AttemptKey) → Keeps st (is_lawful st) (Settle.settle_after_attempt_end st k)
  unfolding Settle.settle_after_attempt_end
  settle_after_attempt_end-Keeps k = record {
    keep = λ b h.
        if-Holds _ (not (has_running_attempt_except st k) && not (has_running_process st)) _ _
          (λ _.
            Option-Holds _ (Settle.pending_cancel st) _ _ (λ _. (settle_run-Keeps k).keep b h)
              (λ intent c. (finish_cancel-Keeps intent).keep b h))
          (λ _. (settle_run-Keeps k).keep b h);
  }

  pub block_workflow-Keeps : Keeps st (is_lawful st) (Settle.block_workflow st)
  unfolding Settle.block_workflow RuntimeStatus.is_cancelled
  block_workflow-Keeps = record {
    keep = λ b h. search (builder_rules, wf_mut_status-lawful) depth 12;
  }

  pub close_dispatch_for_failure-Keeps :
      (k : AttemptKey) → Keeps st (is_lawful st) (Settle.close_dispatch_for_failure st k)
  unfolding Settle.close_dispatch_for_failure RunStatus.is_running
  close_dispatch_for_failure-Keeps k = record {
    keep = λ b h.
        Option-Holds _ (active_run st) _ _ (λ _. block_workflow-Keeps.keep b h)
          (λ run e.
            if-Holds _ (RunStatus.is_terminal run.status) _ _ (λ _. block_workflow-Keeps.keep b h)
              (λ _.
                if-Holds _ (has_running_attempt_except st k) _ _
                  (λ _. search (builder_rules, run-lawful) depth 12)
                  (λ _. search (builder_rules, run-lawful, block_workflow-Keeps) depth 12)));
  }

  orphan_run-Keeps :
      (r : Run)
      → Keeps st (is_lawful st) (λ c.
        c
        ▸ mutate (Mutation.run r.id RunStatus.interrupted false Code.none_set [])
        ▸ note EventKind.run_interrupted "run interrupted by an orphan process")
  unfolding RunStatus.is_running
  orphan_run-Keeps r = record { keep = λ b h. search (builder_rules, run-lawful) depth 10 }

  pub finding-lawful : (f : Finding) → is_lawful st (Mutation.finding_append f) ≡ true
  unfolding is_lawful
  finding-lawful f = refl

  pub settle_orphan_process-Keeps :
      (id : String) → Keeps st (is_lawful st) (Settle.settle_orphan_process st id)
  unfolding Settle.settle_orphan_process RuntimeStatus.is_cancelled
  settle_orphan_process-Keeps id = record {
    keep = λ b h.
        search
          (builder_rules, finding-lawful, with_run-Keeps, orphan_run-Keeps, wf_mut_status-lawful)
          depth 14;
  }
