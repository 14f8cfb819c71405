-- ===== src/Kernel/Replace.antt =====
-- The replacement of a contaminated execution, of internal/decision/safety.go: the preview of the
-- successor references and the unified Replacement Execution Approval.
use cflow.Base.{
  ℕ, Bool, true, String, Option, none, some, List, [], ◌∷◌, ◌==◌, ◌&&◌, ◌||◌, not, ◌&◌, ltb, eqb,
  if◌then◌else◌, length, all, any, decimal,
}
use cflow.Base.Result.{Result, ◌>>◌, ◌>>=◌, refuse, need}
use cflow.Model.RuntimeStatus
use cflow.Model.RuntimeStatus.{RuntimeStatus}
use cflow.Model.RunStatus.{RunStatus}
use cflow.Model.ArtifactType.{ArtifactType}
use cflow.Model.ApprovalKind
use cflow.Model.ApprovalKind.{ApprovalKind}
use cflow.Model.Code.{Code}
use cflow.Model.Artifact.{ArtifactRef, Approval, ExecutionFacts, matches}
use cflow.Model.Fault.{Fault, invalid_input, invariant_fault, new_fault}
use cflow.Model.Runtime.{Quarantine}
use cflow.Model.State.{State}
use cflow.Model.Decision.{Decision, EventKind, Mutation}
use cflow.Kernel.Builder.{Builder, ◌▸◌, done, new_builder, mutate, note, wf_mut_status, new_run}
use cflow.Kernel.Codec.{Codec}
use cflow.Base.{◌++◌}
use cflow.Kernel.Deliver.{next_approval_id}
use cflow.Kernel.Drift.{PreflightFacts, preflight_succeeded, record_preflight, pause_at_gate}

pub record ReplacementApprovalInput : Type 0 where
  pub plan_hash : String
  pub spec_hashes : List String
  pub catalog_hash : String
  pub workflow_hash : String
  pub routing_hash : String
  pub budget_hash : String
  pub preflight_revision : ℕ
  pub preflight_hash : String
  pub fingerprint : String
  pub quarantine_ids : List String
  pub superseded_approval_id : String
  pub manifest_revision : ℕ
  pub manifest_hash : String

unfoldable pub plan_revision_of : State → ℕ
plan_revision_of st = elim st.plan [ none ↦ 0 | some p ↦ p.revision ]

-- The identity of a recorded Quarantine.
unfoldable pub is_quarantine : State → String → Bool
is_quarantine st id = any (λ (q : Quarantine). q.id == id) st.quarantines

unfoldable pub supersedes_execution : State → String → Bool
supersedes_execution st id =
    any (λ (a : Approval). a.id == id && ApprovalKind.is_execution a.kind) st.approvals

unfoldable pub artifact_of : State → ArtifactType → ℕ → String → ArtifactRef
artifact_of st type revision hash = record {
  workflow = st.workflow.id;
  type = type;
  revision = revision;
  hash = hash;
}

-- `facts.SpecHashes[0]`; with no Spec the code panics, and here there is no hash.
unfoldable pub first_spec_hash : ExecutionFacts → Option String
first_spec_hash facts = elim facts.spec_hashes [ [] ↦ none | h ∷ _ ↦ some h ]

-- The references that an Execution Approval binds.
unfoldable pub execution_refs : State → ExecutionFacts → ℕ → String → List ArtifactRef
execution_refs st facts plan spec =
    let bound =
      artifact_of st ArtifactType.plan plan facts.plan_hash
      ∷ artifact_of st ArtifactType.spec facts.spec_revision spec
      ∷ artifact_of st ArtifactType.catalog facts.catalog_revision facts.catalog_hash
      ∷ artifact_of st ArtifactType.workflow facts.workflow_revision facts.workflow_hash
      ∷ [] in
    let change_set =
      artifact_of st ArtifactType.change_set facts.change_set_revision facts.change_set_hash in
    if not (facts.change_set_hash == "") && ltb 0 facts.change_set_revision
    then bound ++ change_set ∷ []
    else bound

-- The guards on what the user binds.
unfoldable pub binds_facts : State → ExecutionFacts → ReplacementApprovalInput → Result Fault Unit
binds_facts st facts input = do
  refuse
      (not (
        matches facts input.plan_hash input.spec_hashes input.catalog_hash input.workflow_hash
          input.routing_hash input.budget_hash input.preflight_hash facts.change_set_hash))
      (new_fault Code.approval_input_changed
        "the successor execution artifacts changed since the replacement preview; re-generate it")
  refuse
      (not (eqb facts.preflight_revision input.preflight_revision)
        || (not (facts.commit_policy_hash == input.preflight_hash)
            || not (facts.fingerprint == input.fingerprint)))
      (new_fault Code.approval_input_changed
        "the commit policy facts changed since the replacement preview; re-observe the preflight")

unfoldable pub binds_quarantines : State → ReplacementApprovalInput → Result Fault Unit
binds_quarantines st input = do
  refuse (eqb (length input.quarantine_ids) 0)
      (invalid_input "a replacement requires the quarantine set")
  refuse (not (all (is_quarantine st) input.quarantine_ids)) (
      new_fault Code.approval_input_changed
        "the quarantine set changed since the replacement preview")

-- The Approval; its context is serialized by encoding/json, where `none` is the error.
unfoldable pub replacement_approval : State → ExecutionFacts → String → String → Approval
replacement_approval st facts spec context = record {
  id = next_approval_id st;
  kind = ApprovalKind.execution;
  seq = st.next_event_seq;
  refs = execution_refs st facts (plan_revision_of st) spec;
  fingerprint = facts.fingerprint;
  preflight_revision = facts.preflight_revision;
  decision_context = context;
}

unfoldable pub decide_replacement_approval :
    Codec → State → ReplacementApprovalInput → Result Fault Decision
decide_replacement_approval codec st input = do
  refuse (st.workflow.id == "") (invalid_input "no workflow for a replacement approval")
  facts ← need st.workflow.execution_facts (invalid_input "no execution facts to replace")
  binds_facts st facts input
  binds_quarantines st input
  refuse (not (supersedes_execution st input.superseded_approval_id))
      (invalid_input "the replacement must supersede the recorded execution approval")
  refuse (eqb input.manifest_revision 0 || input.manifest_hash == "")
      (invalid_input "the replacement requires the fixed reconciliation manifest revision and hash")
  refuse
      (not (RuntimeStatus.is_blocked st.workflow.runtime)
        && not (RuntimeStatus.is_paused st.workflow.runtime))
      (invalid_input
        "a replacement approval requires the blocked or paused workflow at the drift gate")
  context ←
      need
        (codec.replacement_context input.superseded_approval_id input.quarantine_ids
          input.manifest_revision input.manifest_hash)
        (invariant_fault "replacement decision context cannot be serialized")
  spec ← need (first_spec_hash facts) (invariant_fault "index out of range")
  done (
      new_builder st
      ▸ mutate (Mutation.approval_append (replacement_approval st facts spec context))
      ▸ note EventKind.execution_approved "replacement execution approved"
      ▸ mutate (Mutation.run_append (new_run st RunStatus.running true))
      ▸ mutate (Mutation.workflow (wf_mut_status st RuntimeStatus.running))
      ▸ note EventKind.run_started "replacement run started")

pub record ReplacementPreviewInput : Type 0 where
  pub plan_hash : String
  pub spec_hashes : List String
  pub spec_revision : ℕ
  pub catalog_hash : String
  pub workflow_hash : String
  pub workflow_revision : ℕ
  pub routing_hash : String
  pub budget_hash : String
  pub preflight : PreflightFacts
  pub quarantine_ids : List String
  pub superseded_approval_id : String
  pub manifest_revision : ℕ
  pub manifest_hash : String

unfoldable pub artifact_path : ℕ → String → String
artifact_path revision hash = decimal revision & "/" & hash

-- The reference of one Artifact Revision at its store path.
unfoldable pub record_ref : ArtifactType → ℕ → String → Builder → Builder
record_ref type revision hash b =
    b ▸ mutate (Mutation.artifact_ref type revision (artifact_path revision hash) hash)

-- A reference of the successor execution is missing; the list of Specs is tested apart.
unfoldable pub lacks_reference : ReplacementPreviewInput → Bool
lacks_reference input =
    input.plan_hash == ""
    || (input.catalog_hash == ""
        || (input.workflow_hash == ""
            || (eqb input.manifest_revision 0 || input.manifest_hash == "")))

unfoldable pub decide_replacement_preview : State → ReplacementPreviewInput → Result Fault Decision
decide_replacement_preview st input = do
  refuse (st.workflow.id == "") (invalid_input "no workflow for a replacement preview")
  refuse (RuntimeStatus.is_terminal st.workflow.runtime)
      (invalid_input "a terminal workflow cannot be replaced")
  refuse (eqb (length st.quarantines) 0) (invalid_input "no quarantined branch to replace")
  facts ← need st.workflow.execution_facts (invalid_input "no execution facts to replace")
  spec ←
      need (elim input.spec_hashes [ [] ↦ none | h ∷ _ ↦ some h ])
        (invalid_input "the replacement preview requires the complete successor references")
  refuse (lacks_reference input)
      (invalid_input "the replacement preview requires the complete successor references")
  refuse (not (preflight_succeeded input.preflight))
      (invalid_input "a successful commit preflight is required for the replacement preview")
  done (
      new_builder st
      ▸ record_ref ArtifactType.spec input.spec_revision spec
      ▸ record_ref ArtifactType.workflow input.workflow_revision input.workflow_hash
      ▸ record_preflight facts input.preflight
      ▸ pause_at_gate st "workflow paused at the replacement approval gate")
