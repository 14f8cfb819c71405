-- ===== src/Kernel/Drift.antt =====
-- The Commit Policy drift of internal/decision/safety.go: the settlement after the Safety Stop, the
-- quarantine of drift-window commits and the confirmation of the new policy.
use cflow.Base.{
  ℕ, Bool, true, false, String, Option, none, some, List, [], ◌∷◌, ◌==◌, ◌&&◌, ◌||◌, not, ◌&◌, eqb,
  if◌then◌else◌, length, any, map, decimal, ◌+◌,
}
use cflow.Base.Result.{Result, ok, ◌>>◌, ◌>>=◌, refuse, need}
use cflow.Model.RuntimeStatus
use cflow.Model.RuntimeStatus.{RuntimeStatus}
use cflow.Model.NodeStatus
use cflow.Model.NodeStatus.{NodeStatus}
use cflow.Model.ArtifactType.{ArtifactType}
use cflow.Model.ApprovalKind.{ApprovalKind}
use cflow.Model.FaultScope.{FaultScope}
use cflow.Model.Evidence.{no_evidence}
use cflow.Model.Code
use cflow.Model.Code.{Code}
use cflow.Model.Artifact.{ArtifactRef, Approval, ExecutionFacts}
use cflow.Model.Fault.{Fault, invalid_input, new_fault}
use cflow.Model.Runtime.{no_attempt, Finding, Quarantine, Run}
use cflow.Model.State.{State, node_at}
use cflow.Model.Decision.{Decision, EventKind, Mutation}
use cflow.Kernel.Facts.{has_blocking_finding, policy_confirmed}
use cflow.Kernel.Builder.{Builder, ◌▸◌, done, new_builder, mutate, event, note, wf_mut_status}
use cflow.Kernel.Settle.{next_finding_id}
use cflow.Base.{◌%◌, ◌^◌}
use cflow.Kernel.Builder.{is_in}
use cflow.Kernel.Deliver.{next_approval_id}

pub record PreflightFacts : Type 0 where
  pub evidence_hash : String
  pub git_version : String
  pub repository_context : String
  pub fingerprint : String
  pub identity_json : String
  pub signing_policy_json : String
  pub probe_status : String
  pub probe_required : Bool
  pub probe_success : Bool
  pub artifact_path : String

pub record WindowCommit : Type 0 where
  pub branch : String
  pub from_head : String
  pub to_head : String
  pub node : String

-- `none` is the nil Preflight.
pub record PolicyDriftSettleInput : Type 0 where
  pub preflight : Option PreflightFacts
  pub window_commits : List WindowCommit

-- A Preflight that succeeded: `p.Fingerprint == "" || …`, negated.
unfoldable pub preflight_succeeded : PreflightFacts → Bool
preflight_succeeded p =
    not (p.fingerprint == "")
    && (not (p.evidence_hash == "") && (not p.probe_required || p.probe_success))

-- The record of the next Preflight Revision.
unfoldable pub record_preflight : ExecutionFacts → PreflightFacts → Builder → Builder
record_preflight facts p b =
    b
    ▸ mutate (
        Mutation.preflight_record (facts.preflight_revision + 1) p.repository_context p.git_version
          p.fingerprint p.identity_json p.signing_policy_json p.probe_status p.artifact_path
          p.evidence_hash)

-- The Workflow pauses at a gate, unless a blocking Finding keeps it BLOCKED.
unfoldable pub pause_at_gate : State → String → Builder → Builder
pause_at_gate st text b =
    if has_blocking_finding st
    then b
    else b
      ▸ mutate (Mutation.workflow (wf_mut_status st RuntimeStatus.paused))
      ▸ note EventKind.workflow_paused text

unfoldable pub confirmation_finding : State → String → Finding
confirmation_finding st fingerprint = record {
  id = next_finding_id st;
  code = Code.commit_policy_confirmation_required;
  scope = FaultScope.workflow;
  subject = fingerprint;
  blocking = false;
  text = "commit policy drifted; confirm the exact new preflight before commit-capable actions";
  evidence = no_evidence;
  seq = st.next_event_seq;
}

unfoldable pub decide_drift_confirmation : State → PolicyDriftSettleInput → Result Fault Decision
decide_drift_confirmation st input = do
  p ←
      need input.preflight
        (invalid_input "a successful new commit preflight is required before the confirmation gate")
  refuse (not (preflight_succeeded p))
      (invalid_input "a successful new commit preflight is required before the confirmation gate")
  facts ← need st.workflow.execution_facts (invalid_input "no execution facts to confirm against")
  done (
      new_builder st
      ▸ record_preflight facts p
      ▸ mutate (Mutation.finding_append (confirmation_finding st p.fingerprint))
      ▸ event EventKind.finding_opened "" no_attempt Code.commit_policy_confirmation_required
          "commit policy confirmation required"
      ▸ pause_at_gate st "workflow paused at the commit policy confirmation gate")

-- The Node of a window commit fails, unless it is unknown or settled.
unfoldable pub fail_window_node : State → String → Builder → Builder
fail_window_node st id b = elim (node_at st.nodes id) [
  | none ↦ b
  | some n ↦
      if id == "" || NodeStatus.is_terminal n.status
      then b
      else b
        ▸ mutate (Mutation.node_status id NodeStatus.failed n.retry_charged)
        ▸ event EventKind.node_failed id no_attempt Code.commit_during_policy_drift_window
            "node failed: branch quarantined"
]

-- The Quarantine at an index of the loop; its sequence number is that of the next event.
unfoldable pub window_quarantine : State → ℕ → WindowCommit → Builder → Quarantine
window_quarantine st i wc b =
    let id = "quarantine-" & decimal (length st.quarantines + i + 1) in
    record {
      id = id;
      audit_ref = "refs/cflow/" & st.workflow.id & "/quarantine/" & id;
      branch = wc.branch;
      from_head = wc.from_head;
      to_head = wc.to_head;
      code = Code.commit_during_policy_drift_window;
      reason = "a commit was created inside the policy drift window";
      seq = (st.next_event_seq + length b.d.events) % 2 ^ 64;
    }

unfoldable pub quarantine_commit : State → ℕ → WindowCommit → Builder → Builder
quarantine_commit st i wc b =
    b
    ▸ mutate (Mutation.quarantine_append (window_quarantine st i wc b))
    ▸ event EventKind.quarantine_recorded wc.node no_attempt Code.commit_during_policy_drift_window
        "branch quarantined"
    ▸ fail_window_node st wc.node

-- The loop over the window commits: the branches quarantined so far, the first branch of this loop
-- ("" is none) and the index of the next commit.
unfoldable pub quarantine_window :
    State → List String → String → ℕ → List WindowCommit → Builder → Result Fault (String × Builder)
quarantine_window st seen first i [] b = ok (first, b)
quarantine_window st seen first i (wc ∷ wcs) b =
    refuse (wc.branch == "" || (wc.from_head == "" || wc.to_head == ""))
      (invalid_input "a window commit requires the branch and the head range")
    >> (if is_in wc.branch seen
        then quarantine_window st seen first (i + 1) wcs b
        else quarantine_window st (wc.branch ∷ seen) (if first == "" then wc.branch else first)
            (i + 1) wcs (quarantine_commit st i wc b))

unfoldable pub window_finding : State → String → Finding
window_finding st branch = record {
  id = next_finding_id st;
  code = Code.commit_during_policy_drift_window;
  scope = FaultScope.branch;
  subject = branch;
  blocking = true;
  text = "a commit was created inside the policy drift window; the branch is quarantined";
  evidence = no_evidence;
  seq = st.next_event_seq;
}

unfoldable pub block_at_window : State → String → Builder → Builder
block_at_window st branch b =
    b
    ▸ mutate (Mutation.finding_append (window_finding st branch))
    ▸ event EventKind.finding_opened "" no_attempt Code.commit_during_policy_drift_window
        "blocking drift-window finding"
    ▸ mutate (Mutation.workflow (wf_mut_status st RuntimeStatus.blocked))
    ▸ note EventKind.workflow_blocked "workflow blocked by the drift-window commit"

unfoldable pub quarantined_branches : State → List String
quarantined_branches st = map (λ (q : Quarantine). q.branch) st.quarantines

unfoldable pub decide_drift_window_quarantine :
    State → PolicyDriftSettleInput → Result Fault Decision
decide_drift_window_quarantine st input = do
  (first, b) ←
      quarantine_window st (quarantined_branches st) "" 0 input.window_commits (new_builder st)
  refuse (eqb (length b.d.mutations) 0)
      (invalid_input "every window commit belongs to an already-quarantined branch")
  done (b ▸ block_at_window st first)

-- A Run that a Policy Safety Stop ended.
unfoldable pub was_safety_stopped : State → Bool
was_safety_stopped st = any (λ (r : Run). Code.same r.stop_reason Code.commit_policy_drift) st.runs

unfoldable pub decide_policy_drift_settle : State → PolicyDriftSettleInput → Result Fault Decision
decide_policy_drift_settle st input = do
  refuse (st.workflow.id == "") (invalid_input "no workflow for a policy drift settle")
  refuse (RuntimeStatus.is_terminal st.workflow.runtime)
      (invalid_input "a terminal workflow cannot settle a policy drift")
  refuse (not (was_safety_stopped st))
      (invalid_input "a policy drift settle requires the persisted COMMIT_POLICY_DRIFT stop")
  elim input.window_commits [
    | [] ↦ decide_drift_confirmation st input
    | _ ∷ _ ↦ decide_drift_window_quarantine st input
  ]

pub record CommitPolicyApprovalInput : Type 0 where
  pub preflight_revision : ℕ
  pub preflight_hash : String
  pub fingerprint : String

unfoldable pub commit_policy_approval : State → ExecutionFacts → Approval
commit_policy_approval st facts =
    let report : ArtifactRef = record {
      workflow = st.workflow.id;
      type = ArtifactType.report;
      revision = facts.preflight_revision;
      hash = facts.commit_policy_hash;
    } in
    record {
      id = next_approval_id st;
      kind = ApprovalKind.commit_policy;
      seq = st.next_event_seq;
      refs = report ∷ [];
      fingerprint = facts.fingerprint;
      preflight_revision = facts.preflight_revision;
      decision_context = "";
    }

unfoldable pub decide_commit_policy_approval :
    State → CommitPolicyApprovalInput → Result Fault Decision
decide_commit_policy_approval st input = do
  refuse (st.workflow.id == "") (invalid_input "no workflow to confirm")
  refuse (RuntimeStatus.is_terminal st.workflow.runtime)
      (invalid_input "a terminal workflow cannot confirm a commit policy")
  facts ← need st.workflow.execution_facts (
      new_fault Code.commit_policy_input_changed
        "commit policy facts changed since the drift confirmation; re-observe the preflight")
  refuse
      (not (eqb facts.preflight_revision input.preflight_revision)
        || (not (facts.commit_policy_hash == input.preflight_hash)
            || not (facts.fingerprint == input.fingerprint)))
      (new_fault Code.commit_policy_input_changed
        "commit policy facts changed since the drift confirmation; re-observe the preflight")
  refuse (policy_confirmed st)
      (invalid_input "no pending commit policy confirmation: the latest preflight is already bound")
  done (
      new_builder st
      ▸ mutate (Mutation.approval_append (commit_policy_approval st facts))
      ▸ note EventKind.commit_policy_confirmed "commit policy confirmed")
