-- ===== src/Kernel/Lawful/Drift.antt =====
-- The settlement of a Commit Policy drift asks for lawful mutations only.
use cflow.Base.{ℕ, true, some, [], ◌≡◌, refl, String, ◌==◌, ◌∷◌, List, if◌then◌else◌, ◌+◌, arith}
use cflow.Base.Result.{Result, ok, err}
use cflow.Model.RuntimeStatus
use cflow.Model.RuntimeStatus.{RuntimeStatus}
use cflow.Model.NodeStatus.{NodeStatus}
use cflow.Model.Artifact.{ExecutionFacts}
use cflow.Model.Fault.{Fault}
use cflow.Model.State.{State, node_at}
use cflow.Model.Runtime.{Node}
use cflow.Model.Decision.{Mutation}
use cflow.Kernel.Builder.{Builder}
use cflow.Kernel.Lawful.Rules.{
  Holds, Keeps, Passes, is_lawful, result_rules, Option-Holds, new_builder-Holds, need-Passes,
}
use cflow.Kernel.Lawful.Settle.{IsKeyed, node-lawful, wf_mut_status-lawful}
use cflow.Kernel.Lawful.Free.{free_rules, then-Passes}
use cflow.Base.{subst, ap, Bool-cases, inl, inr}
use cflow.Kernel.Builder.{is_in}
use cflow.Kernel.Admit.{refuse-ok}
use cflow.Kernel.Drift
use cflow.Kernel.Drift.{
  CommitPolicyApprovalInput, PolicyDriftSettleInput, PreflightFacts, WindowCommit,
}
use cflow.Kernel.Lawful.Free.{same-Holds, ok-Passes}

-- The builder of a result of the loop.
snd_ok : Result Fault (String × Builder) → Result Fault Builder
snd_ok (ok p) = ok p.1
snd_ok (err e) = err e

module _ (st : State) where
  pub record_preflight-Keeps :
      (f : ExecutionFacts) (p : PreflightFacts)
      → Keeps st (is_lawful st) (Drift.record_preflight f p)
  unfolding Drift.record_preflight
  record_preflight-Keeps f p = record { keep = λ b h. search (free_rules) depth 12 }

  pub pause_at_gate-Keeps : (t : String) → Keeps st (is_lawful st) (Drift.pause_at_gate st t)
  unfolding Drift.pause_at_gate RuntimeStatus.is_cancelled
  pause_at_gate-Keeps t = record {
    keep = λ b h. search (free_rules, wf_mut_status-lawful) depth 12;
  }

  drift_confirmation-Passes :
      (input : PolicyDriftSettleInput)
      → Passes st (is_lawful st) (Drift.decide_drift_confirmation st input)
  unfolding Drift.decide_drift_confirmation
  drift_confirmation-Passes input = need-Passes _ _ _ _ (λ p e. then-Passes _ _ _ (
      need-Passes _ _ _ _ (λ f g.
        search (result_rules, free_rules, record_preflight-Keeps, pause_at_gate-Keeps) depth 14)))

  block_at_window-Keeps : (t : String) → Keeps st (is_lawful st) (Drift.block_at_window st t)
  unfolding Drift.block_at_window RuntimeStatus.is_cancelled
  block_at_window-Keeps t = record {
    keep = λ b h. search (free_rules, wf_mut_status-lawful) depth 12;
  }

  pub commit_policy-Passes :
      (input : CommitPolicyApprovalInput)
      → Passes st (is_lawful st) (Drift.decide_commit_policy_approval st input)
  unfolding Drift.decide_commit_policy_approval
  commit_policy-Passes input = then-Passes _ _ _ (
      then-Passes _ _ _
        (need-Passes _ _ _ _ (λ f g. search (result_rules, free_rules, then-Passes) depth 14)))

module _ (st : State) (keyed : IsKeyed st) where
  window_node-lawful :
      (id : String) (n : Node)
      → node_at st.nodes id ≡ some n
      → is_lawful st (Mutation.node_status id NodeStatus.failed n.retry_charged) ≡ true
  window_node-lawful id n e =
      let (same, fits) = keyed.at_node id n e in
      subst (λ k. is_lawful st (Mutation.node_status k NodeStatus.failed n.retry_charged) ≡ true)
        same (node-lawful st keyed id n NodeStatus.failed e)

  fail_window_node-Keeps : (id : String) → Keeps st (is_lawful st) (Drift.fail_window_node st id)
  unfolding Drift.fail_window_node
  fail_window_node-Keeps id = record {
    keep = λ b h.
        Option-Holds _ (node_at st.nodes id) _ _ (λ _. h)
          (λ n e. search (free_rules, window_node-lawful id n e) depth 12);
  }

  quarantine_commit-Holds :
      (i : ℕ) (wc : WindowCommit) (b : Builder)
      → Holds st (is_lawful st) b
      → Holds st (is_lawful st) (Drift.quarantine_commit st i wc b)
  unfolding Drift.quarantine_commit
  quarantine_commit-Holds i wc b h = search (free_rules, fail_window_node-Keeps) depth 12

  window-Holds :
      (seen : List String) (first : String) (i : ℕ) (wcs : List WindowCommit) (b c : Builder)
      (last : String)
      → Drift.quarantine_window st seen first i wcs b ≡ ok (last, c)
      → Holds st (is_lawful st) b
      → Holds st (is_lawful st) c
  unfolding Drift.quarantine_window snd_ok
  window-Holds seen first i [] b c last e h =
      same-Holds st (is_lawful st) b c (ok b) refl (ap snd_ok e) h
  window-Holds seen first i (wc ∷ wcs) b c last e h =
      let (g, f) = refuse-ok _ _ _ _ e in
      elim (Bool-cases (is_in wc.branch seen)) [
        | inl t ↦ window-Holds seen first (i + 1) wcs b c last (ground (arith, t, f)) h
        | inr t ↦
            window-Holds (wc.branch ∷ seen) (if first == "" then wc.branch else first) (i + 1) wcs _
              c last (ground (arith, t, f)) (quarantine_commit-Holds i wc b h)
      ]

  drift_quarantine-Passes :
      (input : PolicyDriftSettleInput)
      → Passes st (is_lawful st) (Drift.decide_drift_window_quarantine st input)
  unfolding Drift.decide_drift_window_quarantine
  drift_quarantine-Passes input = ok-Passes _ _ _ (λ r e.
      let k = window-Holds _ _ _ _ _ r.1 r.0 e (new_builder-Holds _) in
      search (result_rules, free_rules, then-Passes, block_at_window-Keeps) depth 12)

  pub drift_settle-Passes :
      (input : PolicyDriftSettleInput)
      → Passes st (is_lawful st) (Drift.decide_policy_drift_settle st input)
  unfolding Drift.decide_policy_drift_settle
  drift_settle-Passes input =
      then-Passes _ _ _ (then-Passes _ _ _ (then-Passes _ _ _ (go input.window_commits)))
    where
      go :
          (wcs : List WindowCommit)
          → Passes st (is_lawful st) (elim wcs [
            | [] ↦ Drift.decide_drift_confirmation st input
            | _ ∷ _ ↦ Drift.decide_drift_window_quarantine st input
          ])
      go [] = drift_confirmation-Passes st input
      go (_ ∷ _) = drift_quarantine-Passes input
