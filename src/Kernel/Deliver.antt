-- ===== src/Kernel/Deliver.antt =====
-- The second half of the protected Apply of internal/decision/apply_cleanup.go: the verdict of the
-- independent review, the explicit delivery, its result, and the confirmation of a blocked Attempt.
use cflow.Base.{
  Bool, true, false, String, none, some, List, [], ◌∷◌, ◌==◌, ◌&&◌, ◌||◌, not, ◌&◌, eqb,
  if◌then◌else◌, length, decimal, ◌+◌,
}
use cflow.Base.Result.{Result, err, ok, ◌>>◌, ◌>>=◌, refuse, need}
use cflow.Model.ArtifactType
use cflow.Model.ArtifactType.{ArtifactType}
use cflow.Model.ApprovalKind.{ApprovalKind}
use cflow.Model.ApplyStatus
use cflow.Model.ApplyStatus.{ApplyStatus}
use cflow.Model.Code.{Code}
use cflow.Model.Artifact.{ArtifactRef, Approval, same_ref}
use cflow.Model.Fault.{Fault, invalid_input, invariant_fault, new_fault}
use cflow.Model.Runtime.{ApplyAttempt, Session}
use cflow.Model.State.{State}
use cflow.Model.Effect.{CatalogRef, EffectIntent}
use cflow.Model.Decision.{Decision, EventKind, Mutation}
use cflow.Kernel.Input.{
  is_apply_fast_forward_succeeded, is_apply_fast_forward_failed, EffectResultInput,
}
use cflow.Kernel.Facts.{is_running_process}
use cflow.Kernel.Builder.{Builder, ◌▸◌, done, new_builder, mutate, note, effect}
use cflow.Kernel.Codec.{Codec}
use cflow.Kernel.Verdict.{parse_review_verdict}
use cflow.Kernel.Chain.{session_end, code_or, reuses_provider_session}
use cflow.Kernel.Apply.{
  ApplyCommandInput, ApplyCommandKind, apply_attempt_staging, apply_request, block_apply,
  find_apply_attempt, last_of, need_apply, process_by_session, reopen_apply_attempt,
  with_resolution, with_review_session,
}

-- The process of the review Session is stopped through the managed stop.
unfoldable pub stop_review_process : State → Session → Builder → Builder
stop_review_process st created b = elim (process_by_session st created.id) [
  | none ↦ b
  | some p ↦ if is_running_process p then b ▸ effect (EffectIntent.managed_process_stop p.id) else b
]

unfoldable pub verify_apply : String → Builder → Builder
verify_apply id b =
    b
    ▸ mutate (Mutation.apply id ApplyStatus.awaiting_confirmation 0 "")
    ▸ note EventKind.apply_verified "apply staging verified"

unfoldable pub decide_apply_review_run_ended :
    Codec → State → EffectResultInput → Session → Result Fault Decision
decide_apply_review_run_ended codec st input created = do
  refuse (reuses_provider_session st created.id input.session.provider_session_id) (
      new_fault Code.session_independence_violation
        "the apply verification session reuses an existing session's provider session id")
  att ← need (apply_attempt_staging st) (invariant_fault "apply review has no staging attempt")
  refuse (input.manifest_hash == "")
      (invariant_fault "apply review carries no deterministic verification manifest")
  let b = new_builder st ▸ mutate (session_end st created input) ▸ stop_review_process st created
  let failed =
      b ▸ block_apply st att.id Code.semantic_review_failed "apply verification review failed"
  elim (parse_review_verdict codec input.body) [
    | none ↦ done failed
    | some false ↦ done failed
    | some true ↦ done (b ▸ verify_apply att.id)
  ]

unfoldable pub decide_apply_review_failed :
    State → EffectResultInput → Session → Code → Result Fault Decision
decide_apply_review_failed st input created code = do
  att ←
      need (apply_attempt_staging st)
        (invariant_fault "apply review failure has no staging attempt")
  done (
      new_builder st
      ▸ mutate (session_end st created input)
      ▸ block_apply st att.id code "apply verification review failed")

-- The reference that an explicit delivery binds misses one of its facts.
unfoldable pub is_incomplete : ApplyCommandInput → Bool
is_incomplete input =
    input.target_head == ""
    || (input.integration_head == ""
        || (input.preflight_hash == ""
            || (input.fingerprint == ""
                || (input.preflight.workflow == ""
                    || (not (ArtifactType.is_valid input.preflight.type)
                        || (eqb input.preflight.revision 0 || input.preflight.hash == ""))))))

-- The re-bind of an Attempt that awaits its delivery.
unfoldable pub rebind : ApplyCommandInput → ApplyAttempt → Result Fault Unit
rebind input att = do
  refuse (not (input.attempt == "") && is_incomplete input) (
      new_fault Code.commit_policy_input_changed
        "the bound apply preflight reference is incomplete")
  refuse (not (input.attempt == "") && not (same_ref input.preflight att.preflight)) (
      new_fault Code.commit_policy_input_changed
        "the apply preflight reference changed since the apply staging")
  refuse
      (not (input.target_head == att.target_head)
        || not (input.integration_head == att.integration_head))
      (new_fault Code.target_head_changed
        "target or integration HEAD drifted since the apply staging")
  refuse
      (not (input.preflight_hash == att.preflight_hash)
        || not (input.fingerprint == att.fingerprint))
      (new_fault Code.commit_policy_input_changed
        "commit-policy preflight facts changed since the apply staging")

-- The switch over the status of the Attempt to deliver.
unfoldable pub may_deliver : ApplyCommandInput → ApplyAttempt → ApplyStatus → Result Fault Unit
may_deliver input att ApplyStatus.awaiting_confirmation = rebind input att
may_deliver input att ApplyStatus.running = ok tt
may_deliver input att _ = err (invalid_input "")

unfoldable pub apply_execute : State → ApplyCommandInput → Result Fault Decision
apply_execute st input = do
  att ←
      need
        (if input.attempt == ""
          then last_of st.apply_attempts
          else find_apply_attempt st input.attempt)
        (invalid_input "no apply attempt to execute")
  may_deliver input att att.status
  done (
      new_builder st
      ▸ mutate (Mutation.apply att.id ApplyStatus.running 0 "")
      ▸ effect (EffectIntent.apply_fast_forward att.id att.target_head))

-- The switch of `decideApply`.
unfoldable pub decide_apply_command :
    Codec → State → ApplyCommandInput → ApplyCommandKind → Result Fault Decision
decide_apply_command codec st input ApplyCommandKind.request = apply_request codec st input
decide_apply_command codec st input ApplyCommandKind.execute = apply_execute st input
decide_apply_command codec st input (ApplyCommandKind.undeclared _) =
    err (invalid_input "unsupported apply command")

unfoldable pub decide_apply : Codec → State → ApplyCommandInput → Result Fault Decision
decide_apply codec st input = decide_apply_command codec st input input.kind

unfoldable pub delivered : State → ApplyAttempt → EffectResultInput → Builder → Builder
delivered st att input b =
    b
    ▸ mutate (Mutation.apply att.id ApplyStatus.succeeded st.now input.observed_head)
    ▸ note EventKind.apply_succeeded ("apply delivered " & input.observed_head)

-- The switch over the kind of a delivery's result.
unfoldable pub settle_delivery : State → ApplyAttempt → EffectResultInput → Result Fault Decision
settle_delivery st att input =
    if is_apply_fast_forward_succeeded input.kind
    then refuse (input.observed_head == "")
        (invariant_fault "apply delivery carries no observed head")
      >> done (new_builder st ▸ delivered st att input)
    else if is_apply_fast_forward_failed input.kind
    then done (
        new_builder st
        ▸ block_apply st att.id (code_or input.failure_code Code.target_head_changed)
            "apply delivery blocked")
    else err (invalid_input "unsupported apply delivery result")

unfoldable pub decide_apply_result : State → EffectResultInput → Result Fault Decision
decide_apply_result st input = do
  att ←
      need_apply ApplyStatus.is_running st input.apply_attempt
        "unknown or non-running apply attempt"
  settle_delivery st att input

pub record ApplyPolicyConfirmationInput : Type 0 where
  pub attempt : String
  pub target_head : String
  pub integration_head : String
  pub preflight : ArtifactRef
  pub preflight_hash : String
  pub fingerprint : String
  pub catalog_ref : CatalogRef
  pub review_session : String
  pub review_route : String
  pub review_process : String
  pub resolution_session : String
  pub resolution_process : String

-- The confirmation carries a fixed Catalog Revision.
unfoldable pub names_catalog : ApplyPolicyConfirmationInput → Bool
names_catalog input = not (eqb input.catalog_ref.revision 0) && not (input.catalog_ref.hash == "")

unfoldable pub confirmation_context : ApplyPolicyConfirmationInput → List (String × String)
confirmation_context input =
    let bound =
      ("attempt", input.attempt)
      ∷ ("target_head", input.target_head)
      ∷ ("integration_head", input.integration_head)
      ∷ [] in
    if names_catalog input
    then ("catalog_revision", decimal input.catalog_ref.revision)
      ∷ ("catalog_hash", input.catalog_ref.hash)
      ∷ bound
    else bound

unfoldable pub next_approval_id : State → String
next_approval_id st = "approval-" & decimal (length st.approvals + 1)

unfoldable pub confirmation_refs : State → ApplyPolicyConfirmationInput → List ArtifactRef
confirmation_refs st input =
    let catalog : ArtifactRef = record {
      workflow = st.workflow.id;
      type = ArtifactType.catalog;
      revision = input.catalog_ref.revision;
      hash = input.catalog_ref.hash;
    } in
    if names_catalog input then input.preflight ∷ catalog ∷ [] else input.preflight ∷ []

unfoldable pub confirmation : Codec → State → ApplyPolicyConfirmationInput → Approval
confirmation codec st input = record {
  id = next_approval_id st;
  kind = if names_catalog input then ApprovalKind.apply_catalog else ApprovalKind.commit_policy;
  seq = st.next_event_seq;
  refs = confirmation_refs st input;
  fingerprint = input.fingerprint;
  preflight_revision = input.preflight.revision;
  decision_context = codec.marshal_context (confirmation_context input);
}

-- The Approval and the confirmed facts.
unfoldable pub record_confirmation :
    Codec → State → ApplyAttempt → ApplyPolicyConfirmationInput → Builder → Builder
record_confirmation codec st att input b =
    b
    ▸ mutate (Mutation.approval_append (confirmation codec st input))
    ▸ mutate
        (Mutation.apply_confirmation att.id input.preflight input.preflight_hash input.fingerprint)
    ▸ note EventKind.commit_policy_confirmed "apply policy confirmation recorded"

unfoldable pub decide_apply_policy_confirm :
    Codec → State → ApplyPolicyConfirmationInput → Result Fault Decision
decide_apply_policy_confirm codec st input = do
  att ← need_apply ApplyStatus.is_blocked st input.attempt "no blocked apply attempt to confirm"
  refuse
      (not (input.target_head == att.target_head)
        || not (input.integration_head == att.integration_head))
      (new_fault Code.target_head_changed
        "a bound HEAD changed since the apply attempt was recorded; the confirmation input is void")
  refuse (not (input.fingerprint == att.fingerprint)) (
      new_fault Code.commit_policy_input_changed
        "the commit policy changed again; the confirmation input is void")
  refuse
      (input.preflight_hash == ""
        || (input.fingerprint == ""
            || (eqb input.preflight.revision 0 || input.preflight.hash == "")))
      (invalid_input
        "the confirmation requires the exact new preflight revision, hash, and fingerprint")
  let b = new_builder st ▸ record_confirmation codec st att input
  reviewed ← with_review_session st input.review_session input.review_route input.review_process b
  staged ←
      with_resolution st input.resolution_session input.review_route input.resolution_process
        reviewed
  done (
      staged
      ▸ reopen_apply_attempt att.id "apply attempt re-opened after the confirmation"
      ▸ effect (
          EffectIntent.apply_staging_create att.id att.target_head att.integration_head
            input.resolution_session))
