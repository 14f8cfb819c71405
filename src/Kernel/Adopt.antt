-- ===== src/Kernel/Adopt.antt =====
-- The Workspace Adoption Gate of internal/decision/verify.go.
use cflow.Base.{
  ℕ, Bool, true, false, String, Option, none, some, List, ◌==◌, ◌&&◌, ◌||◌, not, ltb, eqb,
  if◌then◌else◌, length, find,
}
use cflow.Base.Result.{Result, ◌>>◌, ◌>>=◌, refuse, need}
use cflow.Model.WorkflowStage
use cflow.Model.WorkflowStage.{WorkflowStage}
use cflow.Model.RuntimeStatus
use cflow.Model.RuntimeStatus.{RuntimeStatus}
use cflow.Model.SessionStatus
use cflow.Model.SessionStatus.{SessionStatus}
use cflow.Model.AgentPurpose
use cflow.Model.AgentPurpose.{AgentPurpose}
use cflow.Model.ArtifactType.{ArtifactType}
use cflow.Model.Evidence.{no_evidence}
use cflow.Model.Code
use cflow.Model.Code.{Code}
use cflow.Model.Artifact.{ref_text}
use cflow.Model.Fault.{Fault, policy_or_zero, invalid_input, invariant_fault, new_fault}
use cflow.Model.Runtime.{no_attempt, Finding, Session}
use cflow.Model.State.{State}
use cflow.Model.Effect.{EffectIntent}
use cflow.Model.Decision.{Decision, EventKind, Mutation, WorkflowMutation}
use cflow.Kernel.Input.{EffectResultInput}
use cflow.Kernel.Builder.{
  Builder, ◌▸◌, done, new_builder, mutate, event, note, effect, wf_mut_status,
}
use cflow.Kernel.Settle.{next_finding_id}
use cflow.Kernel.SessionPick.{validate_fresh_session}
use cflow.Kernel.Codec.{Codec}
use cflow.Kernel.Verdict.{parse_review_verdict}
use cflow.Kernel.Chain.{record_session, session_end, code_or, attempt_by_session}
use cflow.Kernel.Merge.{same_row}

pub record AdoptWorkspaceInput : Type 0 where
  pub session : String
  pub route : String
  pub change_set_hash : String
  pub candidate_head : String
  pub dirty_fingerprint : String
  pub adoption_session : String
  pub adoption_route : String

-- The Workflow row with the candidate facts.
unfoldable pub candidate_row : State → String → String → WorkflowMutation
candidate_row st head fingerprint =
    let row = same_row st in
    record row { candidate_workspace_head = head; workspace_dirty_fingerprint = fingerprint }

-- The dirty Workspace: the adoption Session runs first, the Review Session is recorded with it.
unfoldable pub start_adoption : State → AdoptWorkspaceInput → Builder → Builder
start_adoption st input b =
    b
    ▸ mutate (Mutation.workflow (candidate_row st input.candidate_head input.dirty_fingerprint))
    ▸ record_session input.adoption_session AgentPurpose.adoption input.adoption_route
    ▸ record_session input.session AgentPurpose.review input.route
    ▸ effect (
        EffectIntent.provider_start input.adoption_session AgentPurpose.adoption
          input.adoption_route "" "" "")

unfoldable pub start_adoption_review : State → AdoptWorkspaceInput → Builder → Builder
start_adoption_review st input b =
    b
    ▸ mutate (Mutation.workflow (candidate_row st input.candidate_head input.dirty_fingerprint))
    ▸ record_session input.session AgentPurpose.review input.route
    ▸ effect (EffectIntent.provider_start input.session AgentPurpose.review input.route "" "" "")

unfoldable pub decide_adopt_workspace : State → AdoptWorkspaceInput → Result Fault Decision
decide_adopt_workspace st input = do
  refuse (st.workflow.id == "") (invalid_input "no workflow to adopt")
  refuse
      (ltb st.workflow.layout_version 2
        || (st.workflow.workspace_path == "" || st.workflow.workspace_branch == ""))
      (invalid_input "workspace adoption requires the aggregated workspace layout")
  refuse (not (WorkflowStage.is_execution st.workflow.stage))
      (invalid_input "workspace adoption requires the EXECUTION stage")
  refuse (not (RuntimeStatus.is_running st.workflow.runtime))
      (invalid_input "workspace adoption requires a running workflow")
  refuse (not (st.workflow.verified_workspace_head == ""))
      (invalid_input "the workspace is already adopted")
  facts ←
      need st.workflow.execution_facts
        (invalid_input "workspace adoption requires an execution approval bound to a change set")
  refuse (facts.change_set_hash == "")
      (invalid_input "workspace adoption requires an execution approval bound to a change set")
  refuse (input.change_set_hash == "" || not (input.change_set_hash == facts.change_set_hash)) (
      new_fault Code.approval_input_changed
        "the change set hash does not match the execution approval facts")
  refuse (input.candidate_head == "" || input.dirty_fingerprint == "")
      (invalid_input "workspace adoption requires the verified workspace facts")
  validate_fresh_session st input.session
  refuse (input.route == "") (invalid_input "workspace adoption requires the approved review route")
  elim (input.adoption_session == "") [
    | true ↦ done (new_builder st ▸ start_adoption_review st input)
    | false ↦
        validate_fresh_session st input.adoption_session
        >> (refuse (input.adoption_route == "")
              (invalid_input "workspace adoption requires the approved adoption route")
            >> done (new_builder st ▸ start_adoption st input))
  ]

-- `adoptionFailure`: a blocking Finding, and the Workflow is BLOCKED.
unfoldable pub adoption_failure : State → Session → Code → Builder → Builder
adoption_failure st created code b =
    let pol = policy_or_zero code in
    let finding : Finding = record {
      id = next_finding_id st;
      code = code;
      scope = pol.scope;
      subject = created.id;
      blocking = true;
      text = Code.spell code;
      evidence = no_evidence;
      seq = st.next_event_seq;
    } in
    b
    ▸ mutate (Mutation.finding_append finding)
    ▸ event EventKind.finding_opened "" no_attempt code "workspace adoption review failed"
    ▸ mutate (Mutation.workflow (wf_mut_status st RuntimeStatus.blocked))
    ▸ note EventKind.workflow_blocked "workflow blocked by the workspace adoption review"

-- The recorded independent Review Session.
unfoldable pub adoption_review_session_of : State → Option Session
adoption_review_session_of st =
    find (λ (s : Session). AgentPurpose.is_review s.purpose && SessionStatus.is_starting s.status)
      st.sessions

-- The re-frozen Change Set lists a commit.
unfoldable pub adoption_change_set_carries_commit : Codec → List ℕ → Bool
adoption_change_set_carries_commit codec body =
    if eqb (length body) 0
    then false
    else elim (codec.change_set_commits body) [ none ↦ false | some n ↦ ltb 0 n ]

-- What an adoption Session's end fails the gate with; `none`: the evidence holds.
unfoldable pub adoption_fault : Codec → State → EffectResultInput → Option Code
adoption_fault codec st input =
    if not (SessionStatus.is_completed input.session.status)
    then some (code_or input.failure_code Code.agent_process_crashed)
    else if not (input.end_dirty_fingerprint == "")
    then some Code.dirty_worktree_drifted
    else if input.end_head == "" || input.end_head == st.workflow.candidate_workspace_head
    then some Code.missing_implementation_commit
    else if not (adoption_change_set_carries_commit codec input.body)
    then some Code.missing_implementation_commit
    else none

-- The active Change Set reference advances to the re-frozen revision.
unfoldable pub advance_change_set : EffectResultInput → Builder → Builder
advance_change_set input b =
    if input.artifact.hash == ""
    then b
    else b
      ▸ mutate (
          Mutation.artifact_ref ArtifactType.change_set input.artifact.revision
            (ref_text input.artifact) input.artifact.hash)

unfoldable pub adopted_candidate : State → EffectResultInput → Session → Session → Builder → Builder
adopted_candidate st input created review b =
    b
    ▸ mutate (session_end st created input)
    ▸ mutate (Mutation.workflow (candidate_row st input.end_head input.end_dirty_fingerprint))
    ▸ advance_change_set input
    ▸ effect (EffectIntent.provider_start review.id AgentPurpose.review review.provider "" "" "")

-- `attempt != nil` in both settlements of the gate.
unfoldable pub has_attempt : State → Session → Bool
has_attempt st created = elim (attempt_by_session st created.id) [ none ↦ false | some _ ↦ true ]

unfoldable pub decide_adoption_coding_run_ended :
    Codec → State → EffectResultInput → Session → Result Fault Decision
decide_adoption_coding_run_ended codec st input created = do
  refuse (has_attempt st created) (invariant_fault "")
  let ended = new_builder st ▸ mutate (session_end st created input)
  elim (adoption_fault codec st input) [
    | some code ↦ done (ended ▸ adoption_failure st created code)
    | none ↦
        need (adoption_review_session_of st)
          (invariant_fault "the adoption review session is missing")
        >>= λ review. done (new_builder st ▸ adopted_candidate st input created review)
  ]

unfoldable pub adopted_row : State → EffectResultInput → WorkflowMutation
adopted_row st input =
    let row = same_row st in
    record row {
      candidate_workspace_head = st.workflow.candidate_workspace_head;
      verified_workspace_head = st.workflow.candidate_workspace_head;
      workspace_dirty_fingerprint = input.end_dirty_fingerprint;
    }

unfoldable pub adoption_review_fault : Codec → EffectResultInput → Option Code
adoption_review_fault codec input =
    if not (SessionStatus.is_completed input.session.status)
    then some (code_or input.failure_code Code.agent_process_crashed)
    else elim (parse_review_verdict codec input.body) [
      | none ↦ some Code.semantic_review_failed
      | some false ↦ some Code.semantic_review_failed
      | some true ↦ none
    ]

unfoldable pub decide_adoption_review_run_ended :
    Codec → State → EffectResultInput → Session → Result Fault Decision
decide_adoption_review_run_ended codec st input created = do
  refuse (has_attempt st created) (invariant_fault "")
  let ended = new_builder st ▸ mutate (session_end st created input)
  elim (adoption_review_fault codec input) [
    | some code ↦ done (ended ▸ adoption_failure st created code)
    | none ↦ done (
        ended
        ▸ mutate (Mutation.workflow (adopted_row st input))
        ▸ note EventKind.workflow_resumed "workspace adopted")
  ]
