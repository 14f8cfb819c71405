-- ===== src/Kernel/Discuss.antt =====
-- The requirement discussion of internal/decision/workflow.go: a managed turn, and the native
-- interactive discussion with its bootstrap, its turns, the switch of the agent and the finish.
use cflow.Base.{
  ℕ, Bool, false, String, List, ◌==◌, ◌&&◌, ◌||◌, not, ◌&◌, ltb, eqb, if◌then◌else◌, length,
  decimal, ◌+◌, pos,
}
use cflow.Base.Result.{Result, ok, ◌>>◌, ◌>>=◌, refuse, need}
use cflow.Model.WorkflowStage
use cflow.Model.WorkflowStage.{WorkflowStage}
use cflow.Model.SessionStatus
use cflow.Model.SessionStatus.{SessionStatus}
use cflow.Model.ProcessStatus.{ProcessStatus}
use cflow.Model.AgentPurpose
use cflow.Model.AgentPurpose.{AgentPurpose}
use cflow.Model.ArtifactType.{ArtifactType}
use cflow.Model.FaultScope.{FaultScope}
use cflow.Model.Evidence.{no_evidence}
use cflow.Model.Code.{Code}
use cflow.Model.Artifact.{ArtifactRef}
use cflow.Model.Fault.{Fault, invalid_input, invariant_fault, new_fault}
use cflow.Model.Runtime.{Finding, Session}
use cflow.Model.State.{State}
use cflow.Model.Effect.{EffectIntent}
use cflow.Model.Decision.{Decision, EventKind, Mutation, WorkflowMutation}
use cflow.Kernel.Input.{EffectResultInput}
use cflow.Kernel.Facts.{find_process, find_session, is_running_process}
use cflow.Kernel.Builder.{◌▸◌, done, new_builder, mutate, note, effect}
use cflow.Kernel.Settle.{next_finding_id}
use cflow.Kernel.SessionPick.{validate_fresh_session}
use cflow.Kernel.Chain.{fresh_session_row, record_process}
use cflow.Base.{len, ℤ, negsuc}
use cflow.Kernel.Merge.{same_row}
use cflow.Kernel.Planning.{
  append_planner, may_plan, may_start, start_if_needed, start_planner, validate_provider,
}

-- `maxTurnText`: 64 * 1024.
abbrev pub max_turn_text : ℕ
max_turn_text = 65536

pub record DiscussRequirementInput : Type 0 where
  pub text : String
  pub provider : String
  pub session : String

unfoldable pub decide_discuss_requirement : State → DiscussRequirementInput → Result Fault Decision
decide_discuss_requirement st input = do
  may_plan st "no workflow to discuss" (WorkflowStage.is_requirement_discussion st.workflow.stage)
      "requirement discussion requires the REQUIREMENT_DISCUSSION stage"
  refuse (input.text == "" || ltb max_turn_text (len input.text))
      (invalid_input "requirement turn text must be non-empty and bounded")
  may_start st input.provider input.session
  done (new_builder st ▸ start_if_needed st ▸ start_planner st input.session input.provider)

pub record PrepareNativeDiscussionInput : Type 0 where
  pub provider : String
  pub session : String
  pub process : String

unfoldable pub decide_prepare_native_discussion :
    State → PrepareNativeDiscussionInput → Result Fault Decision
decide_prepare_native_discussion st input = do
  may_plan st "no workflow to discuss natively"
      (WorkflowStage.is_requirement_discussion st.workflow.stage)
      "native discussion requires the REQUIREMENT_DISCUSSION stage"
  may_start st input.provider input.session
  refuse (input.process == "")
      (invalid_input "native discussion requires the managed process identity")
  done (
      new_builder st
      ▸ start_if_needed st
      ▸ append_planner st input.session input.provider
      ▸ record_process st input.process input.session AgentPurpose.planning
      ▸ note EventKind.workflow_resumed "native discussion session prepared"
      ▸ effect (EffectIntent.native_bootstrap input.session AgentPurpose.planning input.provider))

-- A planning Session that the aggregate records, with the caller's texts for an unknown Session and
-- for one of another purpose.
unfoldable pub discussion_session : State → String → String → String → Result Fault Session
discussion_session st id unbound other = do
  session ← need (find_session st id) (invalid_input unbound)
  refuse (not (AgentPurpose.is_planning session.purpose)) (invariant_fault other)
  ok session

-- STARTING or INTERACTIVE_IDLE.
unfoldable pub is_resumable : SessionStatus → Bool
is_resumable s = SessionStatus.is_starting s || SessionStatus.is_interactive_idle s

pub record FinishDiscussionInput : Type 0 where
  pub session : String
  pub handoff : List ℕ

unfoldable pub handoff_ref : State → ArtifactRef
handoff_ref st = record {
  workflow = st.workflow.id;
  type = ArtifactType.discussion_handoff;
  revision = 0;
  hash = "";
}

unfoldable pub decide_finish_discussion : State → FinishDiscussionInput → Result Fault Decision
decide_finish_discussion st input = do
  refuse (st.workflow.id == "") (invalid_input "no workflow to finish")
  refuse (not (WorkflowStage.is_requirement_discussion st.workflow.stage))
      (invalid_input "finishing a discussion requires the REQUIREMENT_DISCUSSION stage")
  session ←
      discussion_session st input.session "the discussion session is not bound to this workflow"
        "the finished session is not a discussion session"
  refuse (not (is_resumable session.status))
      (invalid_input "finishing requires a resumable discussion session")
  refuse (session.provider_session_id == "") (
      new_fault Code.provider_session_id_missing
        "the discussion session has no bound provider session; finish it after the managed bootstrap")
  refuse (eqb (length input.handoff) 0 || ltb max_turn_text (length input.handoff))
      (invalid_input "the discussion handoff is required and bounded")
  done (
      new_builder st
      ▸ mutate (
          Mutation.session_end session.id session.provider_session_id SessionStatus.completed
            st.now)
      ▸ effect (
          EffectIntent.artifact_write (handoff_ref st) input.handoff AgentPurpose.planning
            input.session)
      ▸ note EventKind.workflow_resumed "native discussion finished")

pub record NativeDiscussionReturnInput : Type 0 where
  pub session : String
  pub process : String
  pub exit_code : ℤ
  pub exit_fact : String
  pub provider : String
  pub provider_session : String
  pub workspace_head : String
  pub workspace_dirty_fingerprint : String

-- `strconv.Itoa`.
unfoldable pub integer_text : ℤ → String
integer_text (pos n) = decimal n
integer_text (negsuc n) = "-" & decimal (n + 1)

unfoldable pub exit_detail : NativeDiscussionReturnInput → String
exit_detail input =
    let detail = "exit " & integer_text input.exit_code in
    if input.exit_fact == "" then detail else detail & " (" & input.exit_fact & ")"

-- The Workflow row with the candidate facts of the turn.
unfoldable pub returned_row : State → NativeDiscussionReturnInput → WorkflowMutation
returned_row st input =
    let row = same_row st in
    record row {
      candidate_workspace_head =
          if input.workspace_head == ""
          then st.workflow.candidate_workspace_head
          else input.workspace_head;
      workspace_dirty_fingerprint = input.workspace_dirty_fingerprint;
    }

-- The guards on the binding that the turn ran on.
unfoldable pub check_binding : State → NativeDiscussionReturnInput → Session → Result Fault Unit
check_binding st input session = do
  refuse (input.provider == "" || not (input.provider == session.provider)) (
      new_fault Code.provider_binding_changed
        "the returned discussion provider does not match the recorded binding")
  refuse
      (input.provider_session == "" || not (input.provider_session == session.provider_session_id))
      (new_fault Code.provider_binding_changed
        "the returned provider session does not match the recorded binding")
  process ←
      need (find_process st input.process)
        (invalid_input "the returned discussion has no managed process record")
  refuse (not (is_running_process process))
      (invalid_input "the returned discussion process is not running")
  refuse (not (process.session == input.session)) (
      new_fault Code.session_independence_violation
        "the returned process is not bound to the discussion session")

unfoldable pub decide_native_discussion_return :
    State → NativeDiscussionReturnInput → Result Fault Decision
decide_native_discussion_return st input = do
  refuse (st.workflow.id == "") (invalid_input "no workflow for a native discussion return")
  session ←
      discussion_session st input.session
        "the returned discussion session is not bound to this workflow"
        "the returned session is not a discussion session"
  refuse
      (not (SessionStatus.is_starting session.status)
        && not (SessionStatus.is_active session.status))
      (invalid_input "the discussion return requires a starting or active session")
  check_binding st input session
  done (
      new_builder st
      ▸ mutate (Mutation.process_end input.process ProcessStatus.exited input.exit_code st.now)
      ▸ mutate (Mutation.session_status input.session SessionStatus.interactive_idle)
      ▸ mutate (Mutation.workflow (returned_row st input))
      ▸ note EventKind.workflow_resumed ("native discussion turn returned: " & exit_detail input))

pub record ContinueNativeDiscussionInput : Type 0 where
  pub session : String
  pub process : String

unfoldable pub decide_continue_native_discussion :
    State → ContinueNativeDiscussionInput → Result Fault Decision
decide_continue_native_discussion st input = do
  may_plan st "no workflow to continue natively"
      (WorkflowStage.is_requirement_discussion st.workflow.stage)
      "native discussion requires the REQUIREMENT_DISCUSSION stage"
  session ←
      discussion_session st input.session "the continued session is not bound to this workflow"
        "the continued session is not a discussion session"
  refuse (not (is_resumable session.status)) (
      new_fault Code.session_independence_violation
        "only an interactive-idle discussion session may continue")
  refuse (session.provider_session_id == "") (
      new_fault Code.provider_session_id_missing
        "the continued session has no bound provider session")
  refuse (input.process == "")
      (invalid_input "continuing the discussion requires the managed process identity")
  done (
      new_builder st
      ▸ start_if_needed st
      ▸ mutate (Mutation.session_status input.session SessionStatus.active)
      ▸ record_process st input.process input.session AgentPurpose.planning
      ▸ note EventKind.workflow_resumed "native discussion resumed")

pub record SwitchAgentInput : Type 0 where
  pub session : String
  pub provider : String
  pub reason : String
  pub supersedes : String
  pub process : String
  pub context_bundle_revision : ℕ
  pub context_bundle_path : String
  pub context_bundle_sha256 : String

unfoldable pub switched_session : SwitchAgentInput → Session
switched_session input =
    let row = fresh_session_row input.session AgentPurpose.planning in
    record row {
      supersedes = input.supersedes;
      context_bundle_revision = input.context_bundle_revision;
      context_bundle_path = input.context_bundle_path;
      context_bundle_sha256 = input.context_bundle_sha256;
    }

unfoldable pub switch_finding : State → SwitchAgentInput → Finding
switch_finding st input = record {
  id = next_finding_id st;
  code = Code.session_superseded;
  scope = FaultScope.session;
  subject = input.supersedes;
  blocking = false;
  text = "switch-agent: " & input.reason;
  evidence = no_evidence;
  seq = st.next_event_seq;
}

-- The guards on the Session that is superseded.
unfoldable pub check_superseded : State → SwitchAgentInput → Result Fault Unit
check_superseded st input = do
  superseded ←
      discussion_session st input.supersedes
        "the superseded discussion session is not bound to this workflow"
        "the superseded session is not a discussion session"
  refuse (input.provider == superseded.provider) (
      new_fault Code.session_independence_violation
        "switching the discussion agent requires a different provider")
  refuse (superseded.provider_session_id == "") (
      new_fault Code.provider_session_id_missing
        "the superseded session has no bound provider session")

unfoldable pub decide_switch_agent : State → SwitchAgentInput → Result Fault Decision
decide_switch_agent st input = do
  may_plan st "no workflow to switch" (WorkflowStage.is_requirement_discussion st.workflow.stage)
      "native discussion requires the REQUIREMENT_DISCUSSION stage"
  validate_provider input.provider
  refuse (input.reason == "" || ltb 4096 (len input.reason))
      (invalid_input "switching the discussion agent requires a bounded reason")
  validate_fresh_session st input.session
  refuse (input.process == "")
      (invalid_input "switching the discussion agent requires the managed process identity")
  check_superseded st input
  done (
      new_builder st
      ▸ start_if_needed st
      ▸ mutate (Mutation.session_append (switched_session input) input.provider)
      ▸ record_process st input.process input.session AgentPurpose.planning
      ▸ mutate (Mutation.finding_append (switch_finding st input))
      ▸ note EventKind.workflow_resumed "native discussion switched agents"
      ▸ effect (EffectIntent.native_bootstrap input.session AgentPurpose.planning input.provider))

-- `decideNativeBootstrapEstablished` of planning.go.
unfoldable pub decide_native_bootstrap_established :
    State → EffectResultInput → Result Fault Decision
decide_native_bootstrap_established st input = do
  refuse (input.session.id == "") (invalid_input "the bootstrap result carries no session")
  session ←
      need (find_session st input.session.id)
        (invariant_fault "bootstrap result references unknown session")
  refuse (not (SessionStatus.is_starting session.status))
      (invalid_input "the bootstrap result arrived after the session left STARTING")
  refuse (input.session.provider_session_id == "")
      (new_fault Code.provider_session_id_missing "the provider bootstrap returned no session id")
  refuse (input.session.provider_session_id == input.session.id) (
      new_fault Code.session_independence_violation
        "the provider session id must never be the CFlow session id")
  done (
      new_builder st
      ▸ mutate (Mutation.session_bind session.id input.session.provider_session_id)
      ▸ note EventKind.workflow_resumed "native discussion bootstrap bound the provider session")
