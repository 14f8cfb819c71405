-- ===== src/Kernel/Chain.antt =====
-- What the decisions of one delivery chain share: the rows of a fresh Session and of its managed
-- process, the lookups of internal/decision/verify.go and dispatch.go over Attempts and Sessions,
-- `sessionEnd` of planning.go, and the guards of an allocation.
use cflow.Base.{
  Bool, false, String, Option, none, some, [], ◌==◌, ◌&&◌, not, any, find, pos, if◌then◌else◌,
}
use cflow.Base.Result.{Result, ok, ◌>>◌, ◌>>=◌, refuse, need}
use cflow.Model.NodeKind
use cflow.Model.NodeKind.{NodeKind}
use cflow.Model.AttemptStatus
use cflow.Model.AttemptStatus.{AttemptStatus}
use cflow.Model.AttemptOutcome.{AttemptOutcome}
use cflow.Model.SessionStatus
use cflow.Model.SessionStatus.{SessionStatus}
use cflow.Model.AgentPurpose.{AgentPurpose}
use cflow.Model.ProcessStatus
use cflow.Model.ProcessStatus.{ProcessStatus}
use cflow.Model.Code
use cflow.Model.Code.{Code}
use cflow.Model.Fault.{Fault, invalid_input}
use cflow.Model.Runtime.{AttemptKey, Attempt, Node, ProcessRecord, Session}
use cflow.Model.State.{State, attempt_at}
use cflow.Model.Decision.{Mutation}
use cflow.Kernel.Input.{EffectResultInput, EffectResultKind, no_result}
use cflow.Kernel.Facts.{find_session}
use cflow.Kernel.Builder.{Builder, ◌▸◌, mutate}
use cflow.Kernel.Lookup.{highest, next_attempt_number}

-- A STARTING Session of a purpose; every other field has its zero value.
unfoldable pub fresh_session_row : String → AgentPurpose → Session
fresh_session_row id purpose = record {
  id = id;
  provider_session_id = "";
  purpose = purpose;
  status = SessionStatus.starting;
  supersedes = "";
  provider = "";
  context_bundle_revision = 0;
  context_bundle_path = "";
  context_bundle_sha256 = "";
}

-- Record a fresh Session on a route.
unfoldable pub record_session : String → AgentPurpose → String → Builder → Builder
record_session id purpose route b =
    b ▸ mutate (Mutation.session_append (fresh_session_row id purpose) route)

-- Record the RUNNING managed process of a Session.
unfoldable pub record_process : State → String → String → AgentPurpose → Builder → Builder
record_process st id session purpose b =
    let p : ProcessRecord = record {
      id = id;
      session = session;
      purpose = purpose;
      status = ProcessStatus.running;
      exit_code = pos 0;
      started_at = st.now;
      ended_at = 0;
    } in
    b ▸ mutate (Mutation.process_append p)

-- `if in.Process != "" { … }`
unfoldable pub record_chain_process : State → String → String → AgentPurpose → Builder → Builder
record_chain_process st id session purpose b =
    if id == "" then b else b ▸ record_process st id session purpose

-- `sessionEnd` of planning.go.
unfoldable pub session_end : State → Session → EffectResultInput → Mutation
session_end st created input =
    Mutation.session_end created.id input.session.provider_session_id input.session.status st.now

-- `in.FailureCode`, or a default where it is not set.
unfoldable pub code_or : Code → Code → Code
code_or code default = if Code.is_set code then code else default

unfoldable pub verify_failure_code : Node → Code
verify_failure_code node =
    if NodeKind.is_final_verify node.kind
    then Code.integration_verification_failed
    else Code.command_failed

unfoldable pub is_running_of : String → AttemptKey × Attempt → Bool
is_running_of session e = e.1.session == session && AttemptStatus.is_running e.1.status

-- `attemptBySession`, in the order of the association list.
unfoldable pub attempt_by_session : State → String → Option Attempt
attempt_by_session st session = elim (find (is_running_of session) st.attempts) [
  | none ↦ none
  | some e ↦ some e.1
]

unfoldable pub succeeded_attempt_of : State → String → Option Attempt
succeeded_attempt_of st node =
    highest (λ (a : Attempt). AttemptStatus.is_succeeded a.status) node st.attempts none

-- `processOfAttempt`: "" where there is none.
unfoldable pub process_of_attempt : State → AttemptKey → String
process_of_attempt st key = elim (attempt_at st.attempts key) [
  | none ↦ ""
  | some a ↦
      elim (find
        (λ (p : ProcessRecord). p.session == a.session && ProcessStatus.is_running p.status)
        st.processes) [ none ↦ "" | some p ↦ p.id ]
]

-- A recorded Session that never started settles cancelled.
unfoldable pub cancel_session : State → String → Builder → Builder
cancel_session st id b = elim (find_session st id) [
  | none ↦ b
  | some s ↦
      if SessionStatus.is_terminal s.status
      then b
      else b ▸ mutate (Mutation.session_end s.id "" SessionStatus.cancelled st.now)
]

-- Another Session than `created` has the same Provider session id, and one that is set.
unfoldable pub reuses_provider_session : State → String → String → Bool
reuses_provider_session st created provider_session =
    any
      (λ (s : Session).
        not (s.id == created)
        && (not (s.provider_session_id == "") && s.provider_session_id == provider_session))
      st.sessions

-- The RUNNING Attempt of a result: `attempt == nil || attempt.Status != model.AttemptRunning`.
unfoldable pub running_attempt : State → AttemptKey → Result Fault Attempt
running_attempt st key = do
  attempt ← need (attempt_at st.attempts key) (invalid_input "")
  refuse (not (AttemptStatus.is_running attempt.status)) (invalid_input "")
  ok attempt

-- The RUNNING Attempt that an allocation records.
unfoldable pub allocated : State → Node → String → String → Attempt
allocated st node session head = record {
  key = record { node = node.id; number = next_attempt_number st node.id };
  session = session;
  status = AttemptStatus.running;
  start_head = head;
  start_dirty_fingerprint = "";
  end_head = "";
  end_dirty_fingerprint = "";
  failure_code = Code.none_set;
  evidence = [];
  retry_charged = false;
  started_at = st.now;
  ended_at = 0;
}

-- The input that a settlement builds for the end of an Attempt: its kind, key, outcome and code; every
-- field that the caller does not set after it has its zero value.
unfoldable pub ended_input : AttemptKey → AttemptOutcome → Code → EffectResultInput
ended_input key outcome code = record no_result {
  kind = EffectResultKind.attempt_ended;
  attempt = key;
  outcome = outcome;
  failure_code = code;
}
