-- ===== src/Kernel/Apply.antt =====
-- The protected Apply of internal/decision/apply_cleanup.go: the request, the staging, the independent
-- review, the delivery and its result.
use cflow.Base.{
  Bool, true, false, String, Option, none, some, List, [], ◌∷◌, ◌==◌, ◌&&◌, ◌||◌, not, ◌&◌,
  if◌then◌else◌, length, any, find, decimal, ◌+◌, pos,
}
use cflow.Base.Result.{Result, err, ok, ◌>>◌, ◌>>=◌, refuse, need}
use cflow.Model.WorkflowStage
use cflow.Model.WorkflowStage.{WorkflowStage}
use cflow.Model.RuntimeStatus
use cflow.Model.RuntimeStatus.{RuntimeStatus}
use cflow.Model.SessionStatus
use cflow.Model.SessionStatus.{SessionStatus}
use cflow.Model.ProcessStatus
use cflow.Model.ProcessStatus.{ProcessStatus}
use cflow.Model.AgentPurpose
use cflow.Model.AgentPurpose.{AgentPurpose}
use cflow.Model.ApprovalKind
use cflow.Model.ApprovalKind.{ApprovalKind}
use cflow.Model.ApplyStatus
use cflow.Model.ApplyStatus.{ApplyStatus}
use cflow.Model.Code.{Code}
use cflow.Model.Artifact.{ArtifactRef, Approval}
use cflow.Model.Fault.{Fault, invalid_input, invariant_fault, new_fault}
use cflow.Model.Runtime.{no_attempt, ApplyAttempt, ProcessRecord, Session}
use cflow.Model.State.{State}
use cflow.Model.Effect.{EffectIntent}
use cflow.Model.Decision.{Decision, EventKind, Mutation}
use cflow.Kernel.Input.{is_apply_staging_succeeded, is_apply_staging_failed, EffectResultInput}
use cflow.Kernel.Facts.{branch_quarantined}
use cflow.Kernel.Builder.{Builder, ◌▸◌, done, new_builder, mutate, event, note, effect}
use cflow.Kernel.SessionPick.{validate_fresh_session}
use cflow.Kernel.Codec.{Codec}
use cflow.Kernel.Chain.{fresh_session_row, record_session, record_process, code_or}

pub data ApplyCommandKind : Type 0 where
  request execute : ApplyCommandKind
  undeclared : String → ApplyCommandKind

pub record ApplyCommandInput : Type 0 where
  pub kind : ApplyCommandKind
  pub attempt : String
  pub target_head : String
  pub integration_head : String
  pub preflight : ArtifactRef
  pub preflight_hash : String
  pub fingerprint : String
  pub review_session : String
  pub review_route : String
  pub review_process : String
  pub resolution_session : String
  pub resolution_process : String

-- The last element: `lastApplyAttempt` and `lastCleanupAttempt`.
unfoldable pub last_of {ℓ} : {A : Type ℓ} → List A → Option A
last_of [] = none
last_of (x ∷ xs) = elim (last_of xs) [ none ↦ some x | some y ↦ some y ]

unfoldable pub find_apply_attempt : State → String → Option ApplyAttempt
find_apply_attempt st id = find (λ (a : ApplyAttempt). a.id == id) st.apply_attempts

unfoldable pub apply_attempt_staging : State → Option ApplyAttempt
apply_attempt_staging st =
    find (λ (a : ApplyAttempt). ApplyStatus.is_staging a.status) st.apply_attempts

unfoldable pub session_exists : State → String → Bool
session_exists st id = any (λ (s : Session). s.id == id) st.sessions

unfoldable pub process_by_session : State → String → Option ProcessRecord
process_by_session st session = find (λ (p : ProcessRecord). p.session == session) st.processes

-- An Approval that confirms the Apply Attempt; its context is read by encoding/json.
unfoldable pub confirms : Codec → String → Approval → Bool
confirms codec attempt ap =
    (ApprovalKind.is_commit_policy ap.kind || ApprovalKind.is_apply_catalog ap.kind)
    && elim (codec.context_attempt ap.decision_context) [ none ↦ false | some a ↦ a == attempt ]

unfoldable pub apply_confirmation_recorded : Codec → State → String → Bool
apply_confirmation_recorded codec st attempt = any (confirms codec attempt) st.approvals

-- The latest apply-verification Session that has not started, with its route; ("", "") is none.
unfoldable pub starting_review : List Session → String × String → String × String
starting_review [] best = best
starting_review (s ∷ ss) best = starting_review ss (
    if AgentPurpose.is_apply_verification s.purpose && SessionStatus.is_starting s.status
    then (s.id, s.provider)
    else best)

unfoldable pub running_review : List ProcessRecord → String → String
running_review [] best = best
running_review (p ∷ ps) best = running_review ps (
    if AgentPurpose.is_apply_verification p.purpose && ProcessStatus.is_running p.status
    then p.id
    else best)

-- `applyReviewFacts`: the Session with its route, and the process.
unfoldable pub apply_review_facts : State → (String × String) × String
apply_review_facts st = (starting_review st.sessions ("", ""), running_review st.processes "")

-- What `applyAttemptFor` returns, with the builder that it appended to. Its `created` is read nowhere.
pub record AttemptChoice : Type 0 where
  pub attempt : ApplyAttempt
  pub staging_will_run : Bool
  pub builder : Builder

-- The Attempt with the request's review allocation.
unfoldable pub with_review : ApplyCommandInput → ApplyAttempt → ApplyAttempt
with_review input att = record att {
  review_session = input.review_session;
  review_route = input.review_route;
  review_process = input.review_process;
}

unfoldable pub next_apply_id : State → String
next_apply_id st = "apply-" & decimal (length st.apply_attempts + 1)

unfoldable pub new_apply_attempt : State → ApplyCommandInput → ApplyAttempt
new_apply_attempt st input = record {
  id = next_apply_id st;
  number = length st.apply_attempts + 1;
  status = ApplyStatus.staging;
  target_head = input.target_head;
  integration_head = input.integration_head;
  preflight = input.preflight;
  preflight_hash = input.preflight_hash;
  fingerprint = input.fingerprint;
  started_at = st.now;
  ended_at = 0;
  staging_head = "";
  review_session = input.review_session;
  review_route = input.review_route;
  review_process = input.review_process;
}

unfoldable pub append_apply_attempt : ApplyAttempt → Builder → Builder
append_apply_attempt att b =
    b
    ▸ mutate (Mutation.apply_append att)
    ▸ note EventKind.apply_attempt_created "apply attempt created"

unfoldable pub reopen_apply_attempt : String → String → Builder → Builder
reopen_apply_attempt id text b =
    b ▸ mutate (Mutation.apply id ApplyStatus.staging 0 "") ▸ note EventKind.apply_restarted text

unfoldable pub fresh_attempt : State → ApplyCommandInput → Builder → AttemptChoice
fresh_attempt st input b = record {
  attempt = new_apply_attempt st input;
  staging_will_run = true;
  builder = b ▸ append_apply_attempt (new_apply_attempt st input);
}

-- The switch over the status of a last Attempt whose heads match.
unfoldable pub matched_attempt :
    State → ApplyCommandInput → ApplyAttempt → ApplyStatus → Builder → AttemptChoice
matched_attempt st input last ApplyStatus.awaiting_confirmation b = record {
  attempt = last;
  staging_will_run = false;
  builder = b;
}
matched_attempt st input last ApplyStatus.running b = record {
  attempt = last;
  staging_will_run = false;
  builder = b;
}
matched_attempt st input last ApplyStatus.staging b = record {
  attempt = with_review input last;
  staging_will_run = true;
  builder = b;
}
matched_attempt st input last ApplyStatus.blocked b =
    let reopened = with_review input last in
    record {
      attempt = record reopened { status = ApplyStatus.staging; ended_at = 0 };
      staging_will_run = true;
      builder = b ▸ reopen_apply_attempt last.id "apply attempt re-opened for staging";
    }
matched_attempt st input last _ b = fresh_attempt st input b

-- The Attempt that the request operates on, by the last one recorded.
unfoldable pub choose_attempt :
    State → ApplyCommandInput → Option ApplyAttempt → Builder → AttemptChoice
choose_attempt st input none b = fresh_attempt st input b
choose_attempt st input (some last) b =
    if input.target_head == last.target_head && input.integration_head == last.integration_head
    then matched_attempt st input last last.status b
    else fresh_attempt st input b

unfoldable pub apply_attempt_for : State → ApplyCommandInput → Builder → AttemptChoice
apply_attempt_for st input b = choose_attempt st input (last_of st.apply_attempts) b

-- The Commit Policy fingerprint that the Attempt recorded differs from the approved one.
unfoldable pub policy_drifted : State → ApplyAttempt → Bool
policy_drifted st att = elim st.workflow.execution_facts [
  | none ↦ false
  | some facts ↦ not (facts.fingerprint == "") && not (att.fingerprint == facts.fingerprint)
]

-- Block an Apply Attempt with a code.
unfoldable pub block_apply : State → String → Code → String → Builder → Builder
block_apply st id code text b =
    b
    ▸ mutate (Mutation.apply id ApplyStatus.blocked st.now "")
    ▸ event EventKind.apply_blocked "" no_attempt code text

-- A restricted Session of a purpose with its managed process.
unfoldable pub allocate_review : State → String → String → String → Builder → Builder
allocate_review st session route process b =
    let row = fresh_session_row session AgentPurpose.apply_verification in
    b
    ▸ mutate (Mutation.session_append (record row { provider = route }) route)
    ▸ record_process st process session AgentPurpose.apply_verification

unfoldable pub allocate_resolution : State → String → String → String → Builder → Builder
allocate_resolution st session route process b =
    b
    ▸ record_session session AgentPurpose.repair route
    ▸ record_process st process session AgentPurpose.repair

-- The review Session is appended once for a staging run.
unfoldable pub with_review_session :
    State → String → String → String → Builder → Result Fault Builder
with_review_session st session route process b =
    if session_exists st session
    then ok b
    else validate_fresh_session st session >> ok (b ▸ allocate_review st session route process)

-- The one restricted Merge Resolution Session, where one is allocated.
unfoldable pub with_resolution : State → String → String → String → Builder → Result Fault Builder
with_resolution st session route process b =
    if session == ""
    then ok b
    else validate_fresh_session st session
      >> (refuse (process == "")
            (invalid_input "the resolution allocation requires a process identity")
          >> ok (b ▸ allocate_resolution st session route process))

unfoldable pub stage_request : State → ApplyCommandInput → AttemptChoice → Result Fault Decision
stage_request st input c = do
  b ← with_review_session st input.review_session input.review_route input.review_process c.builder
  staged ← with_resolution st input.resolution_session input.review_route input.resolution_process b
  done (
      staged
      ▸ effect (
          EffectIntent.apply_staging_create c.attempt.id c.attempt.target_head
            c.attempt.integration_head input.resolution_session))

unfoldable pub apply_request : Codec → State → ApplyCommandInput → Result Fault Decision
apply_request codec st input = do
  refuse
      (not (WorkflowStage.is_completed st.workflow.stage)
        || not (RuntimeStatus.is_succeeded st.workflow.runtime))
      (invalid_input "apply requires a completed workflow")
  refuse (branch_quarantined st st.workflow.integration_branch) (
      new_fault Code.commit_during_policy_drift_window
        "a quarantined integration branch can never re-enter Apply")
  refuse (input.target_head == "" || input.integration_head == "")
      (invalid_input "apply requires target and integration HEAD values")
  refuse (input.preflight_hash == "" || input.fingerprint == "")
      (invalid_input "apply requires the commit-policy preflight facts")
  refuse (input.review_session == "" || (input.review_route == "" || input.review_process == ""))
      (invalid_input "apply requires the independent apply verification session allocation")
  let c = apply_attempt_for st input (new_builder st)
  let confirmed = apply_confirmation_recorded codec st c.attempt.id
  if not c.staging_will_run
      then done c.builder
      else if policy_drifted st c.attempt && not confirmed
      then done (
          c.builder
          ▸ block_apply st c.attempt.id Code.commit_policy_confirmation_required
              "commit policy drifted since the execution approval; apply blocked until the exact confirmation")
      else stage_request st input c

-- The recorded allocation of a staging that failed before its review.
unfoldable pub settle_never_started : State → Builder → Builder
settle_never_started st b =
    let ((session, route), process) = apply_review_facts st in
    let c =
      if session == ""
      then b
      else b ▸ mutate (Mutation.session_end session "" SessionStatus.cancelled st.now) in
    if process == ""
    then c
    else c ▸ mutate (Mutation.process_end process ProcessStatus.stopped (pos 0) st.now)

unfoldable pub start_apply_review : State → ApplyAttempt → EffectResultInput → Builder → Builder
start_apply_review st att input b =
    let ((session, route), process) = apply_review_facts st in
    b
    ▸ mutate (Mutation.apply att.id (ApplyStatus.undeclared "") 0 input.end_head)
    ▸ effect
        (EffectIntent.provider_start session AgentPurpose.apply_verification route "" "" process)

unfoldable pub staging_failed : State → ApplyAttempt → EffectResultInput → Builder → Builder
staging_failed st att input b =
    let code = code_or input.failure_code Code.state_invariant_violation in
    b ▸ block_apply st att.id code "apply staging blocked" ▸ settle_never_started st

-- The switch over the kind of a staging result.
unfoldable pub settle_staging : State → ApplyAttempt → EffectResultInput → Result Fault Decision
settle_staging st att input =
    if is_apply_staging_succeeded input.kind
    then refuse (input.end_head == "" || input.manifest_hash == "")
        (invariant_fault "apply staging success carries no staging head or verification manifest")
      >> done (new_builder st ▸ start_apply_review st att input)
    else if is_apply_staging_failed input.kind
    then done (new_builder st ▸ staging_failed st att input)
    else err (invalid_input "unsupported apply staging result")

-- An Apply Attempt with a status that passes the test.
unfoldable pub need_apply :
    (ApplyStatus → Bool) → State → String → String → Result Fault ApplyAttempt
need_apply wanted st id text = do
  att ← need (find_apply_attempt st id) (invalid_input text)
  refuse (not (wanted att.status)) (invalid_input text)
  ok att

unfoldable pub decide_apply_staging_result : State → EffectResultInput → Result Fault Decision
decide_apply_staging_result st input = do
  att ←
      need_apply ApplyStatus.is_staging st input.apply_attempt
        "unknown or non-staging apply attempt"
  settle_staging st att input
