-- ===== src/Kernel/Lawful/Apply.antt =====
-- Apply asks for lawful mutations only.
use cflow.Base.{Bool, if◌then◌else◌}
use cflow.Base.{true, false, some, none, String, ◌==◌, ◌&&◌, Option}
use cflow.Model.AgentPurpose.{AgentPurpose}
use cflow.Model.Code.{Code}
use cflow.Model.State.{State}
use cflow.Model.ApplyStatus
use cflow.Model.ApplyStatus.{ApplyStatus}
use cflow.Model.Runtime.{ApplyAttempt, Session}
use cflow.Kernel.Codec.{Codec}
use cflow.Kernel.Input.{EffectResultInput}
use cflow.Kernel.Builder.{Builder, mutate}
use cflow.Kernel.Verdict.{parse_review_verdict}
use cflow.Kernel.Chain
use cflow.Kernel.Apply
use cflow.Kernel.Apply.{ApplyCommandInput, ApplyCommandKind, AttemptChoice}
use cflow.Kernel.Deliver
use cflow.Kernel.Deliver.{ApplyPolicyConfirmationInput}
use cflow.Kernel.Lawful.Rules.{
  Holds, Keeps, Passes, is_lawful, result_rules, if-Passes, Option-Holds, chain-Holds, need-Passes,
  bind-Passes, err-Passes,
}
use cflow.Kernel.Lawful.Free.{
  verdict-Passes, Yields, free_rules, then-Passes, yield-Passes, ok-Yields, then-Yields, if-Yields,
}

module _ (st : State) where
  block_apply-Keeps :
      (id : String) (c : Code) (text : String)
      → Keeps st (is_lawful st) (Apply.block_apply st id c text)
  unfolding Apply.block_apply
  block_apply-Keeps id c text = record { keep = λ b h. search (free_rules) depth 12 }

  append_apply_attempt-Keeps :
      (att : ApplyAttempt) → Keeps st (is_lawful st) (Apply.append_apply_attempt att)
  unfolding Apply.append_apply_attempt
  append_apply_attempt-Keeps att = record { keep = λ b h. search (free_rules) depth 12 }

  reopen_apply_attempt-Keeps :
      (id text : String) → Keeps st (is_lawful st) (Apply.reopen_apply_attempt id text)
  unfolding Apply.reopen_apply_attempt
  reopen_apply_attempt-Keeps id text = record { keep = λ b h. search (free_rules) depth 12 }

  record_session-Keeps :
      (id : String) (p : AgentPurpose) (r : String)
      → Keeps st (is_lawful st) (Chain.record_session id p r)
  unfolding Chain.record_session
  record_session-Keeps id p r = record { keep = λ b h. search (free_rules) depth 12 }

  record_process-Keeps :
      (id s : String) (p : AgentPurpose) → Keeps st (is_lawful st) (Chain.record_process st id s p)
  unfolding Chain.record_process
  record_process-Keeps id s p = record { keep = λ b h. search (free_rules) depth 12 }

  allocate_review-Keeps :
      (s r p : String) → Keeps st (is_lawful st) (Apply.allocate_review st s r p)
  unfolding Apply.allocate_review
  allocate_review-Keeps s r p = record {
    keep = λ b h. search (free_rules, record_process-Keeps) depth 12;
  }

  allocate_resolution-Keeps :
      (s r p : String) → Keeps st (is_lawful st) (Apply.allocate_resolution st s r p)
  unfolding Apply.allocate_resolution
  allocate_resolution-Keeps s r p = record {
    keep = λ b h. search (free_rules, record_process-Keeps, record_session-Keeps) depth 12;
  }

  with_review-Yields :
      (s r p : String) (b : Builder)
      → Holds st (is_lawful st) b
      → Yields st (is_lawful st) (Apply.with_review_session st s r p b)
  unfolding Apply.with_review_session
  with_review-Yields s r p b h =
      search (free_rules, if-Yields, ok-Yields, then-Yields, allocate_review-Keeps) depth 10

  with_resolution-Yields :
      (s r p : String) (b : Builder)
      → Holds st (is_lawful st) b
      → Yields st (is_lawful st) (Apply.with_resolution st s r p b)
  unfolding Apply.with_resolution
  with_resolution-Yields s r p b h =
      search (free_rules, if-Yields, ok-Yields, then-Yields, allocate_resolution-Keeps) depth 10

  stage_request-Passes :
      (input : ApplyCommandInput) (c : AttemptChoice)
      → Holds st (is_lawful st) c.builder
      → Passes st (is_lawful st) (Apply.stage_request st input c)
  unfolding Apply.stage_request
  stage_request-Passes input c h =
      search (result_rules, free_rules, yield-Passes, with_review-Yields, with_resolution-Yields)
        depth 14

  matched-Holds :
      (input : ApplyCommandInput) (last : ApplyAttempt) (status : ApplyStatus) (b : Builder)
      → Holds st (is_lawful st) b
      → Holds st (is_lawful st) (Apply.matched_attempt st input last status b).builder
  unfolding Apply.matched_attempt Apply.fresh_attempt
  matched-Holds input last ApplyStatus.awaiting_confirmation b h = h
  matched-Holds input last ApplyStatus.running b h = h
  matched-Holds input last ApplyStatus.staging b h = h
  matched-Holds input last ApplyStatus.blocked b h =
      chain-Holds _ _ _ h (reopen_apply_attempt-Keeps _ _)
  matched-Holds input last ApplyStatus.succeeded b h =
      chain-Holds _ _ _ h (append_apply_attempt-Keeps _)
  matched-Holds input last ApplyStatus.failed b h =
      chain-Holds _ _ _ h (append_apply_attempt-Keeps _)
  matched-Holds input last ApplyStatus.cancelled b h =
      chain-Holds _ _ _ h (append_apply_attempt-Keeps _)
  matched-Holds input last (ApplyStatus.undeclared _) b h =
      chain-Holds _ _ _ h (append_apply_attempt-Keeps _)

  if-builder :
      (t : Bool) (x y : AttemptChoice)
      → Holds st (is_lawful st) x.builder
      → Holds st (is_lawful st) y.builder
      → Holds st (is_lawful st) (if t then x else y).builder
  if-builder true x y hx hy = hx
  if-builder false x y hx hy = hy

  choose-Holds_attempt :
      (input : ApplyCommandInput) (last : Option ApplyAttempt) (b : Builder)
      → Holds st (is_lawful st) b
      → Holds st (is_lawful st) (Apply.choose_attempt st input last b).builder
  unfolding Apply.choose_attempt Apply.fresh_attempt
  choose-Holds_attempt input none b h = chain-Holds _ _ _ h (append_apply_attempt-Keeps _)
  choose-Holds_attempt input (some last) b h =
      if-builder
        (input.target_head == last.target_head && input.integration_head == last.integration_head) _
        _ (matched-Holds input last last.status b h)
        (chain-Holds _ _ _ h (append_apply_attempt-Keeps _))

  chosen-Holds :
      (input : ApplyCommandInput) (b : Builder)
      → Holds st (is_lawful st) b
      → Holds st (is_lawful st) (Apply.apply_attempt_for st input b).builder
  unfolding Apply.apply_attempt_for
  chosen-Holds input b h = choose-Holds_attempt input (Apply.last_of st.apply_attempts) b h

  apply_request-Passes :
      (codec : Codec) (input : ApplyCommandInput)
      → Passes st (is_lawful st) (Apply.apply_request codec st input)
  unfolding Apply.apply_request
  apply_request-Passes codec input =
      search
        (
          result_rules, free_rules, then-Passes, if-Passes, chosen-Holds, block_apply-Keeps,
          stage_request-Passes,
        )
        depth 16

  settle_never_started-Keeps : Keeps st (is_lawful st) (Apply.settle_never_started st)
  unfolding Apply.settle_never_started
  settle_never_started-Keeps = record { keep = λ b h. search free_rules depth 12 }

  start_apply_review-Keeps :
      (att : ApplyAttempt) (input : EffectResultInput)
      → Keeps st (is_lawful st) (Apply.start_apply_review st att input)
  unfolding Apply.start_apply_review
  start_apply_review-Keeps att input = record { keep = λ b h. search free_rules depth 12 }

  staging_failed-Keeps :
      (att : ApplyAttempt) (input : EffectResultInput)
      → Keeps st (is_lawful st) (Apply.staging_failed st att input)
  unfolding Apply.staging_failed
  staging_failed-Keeps att input = record {
    keep = λ b h. search (free_rules, block_apply-Keeps, settle_never_started-Keeps) depth 12;
  }

  pub staging_result-Passes :
      (input : EffectResultInput)
      → Passes st (is_lawful st) (Apply.decide_apply_staging_result st input)
  unfolding Apply.decide_apply_staging_result Apply.settle_staging
  staging_result-Passes input =
      bind-Passes _ (Apply.need_apply ApplyStatus.is_staging st input.apply_attempt _) _ (λ att.
        search
          (
            result_rules, free_rules, if-Passes, then-Passes, start_apply_review-Keeps,
            staging_failed-Keeps,
          )
          depth 14)

  pub apply_execute-Passes :
      (input : ApplyCommandInput) → Passes st (is_lawful st) (Deliver.apply_execute st input)
  unfolding Deliver.apply_execute
  apply_execute-Passes input =
      need-Passes _ _ _ _ (λ att e. search (result_rules, free_rules, then-Passes) depth 14)

  verify_apply-Keeps : (id : String) → Keeps st (is_lawful st) (Deliver.verify_apply id)
  unfolding Deliver.verify_apply
  verify_apply-Keeps id = record { keep = λ b h. search free_rules depth 10 }

  stop_review_process-Keeps :
      (s : Session) → Keeps st (is_lawful st) (Deliver.stop_review_process st s)
  unfolding Deliver.stop_review_process
  stop_review_process-Keeps s = record {
    keep = λ b h.
        Option-Holds _ (Apply.process_by_session st s.id) _ _ (λ _. h)
          (λ p _. search free_rules depth 10);
  }

  end_session-Keeps :
      (s : Session) (input : EffectResultInput)
      → Keeps st (is_lawful st) (mutate (Chain.session_end st s input))
  unfolding Chain.session_end
  end_session-Keeps s input = search free_rules depth 10

  pub apply_review-Passes :
      (codec : Codec) (input : EffectResultInput) (s : Session)
      → Passes st (is_lawful st) (Deliver.decide_apply_review_run_ended codec st input s)
  unfolding Deliver.decide_apply_review_run_ended
  apply_review-Passes codec input s = then-Passes _ _ _ (
      need-Passes _ _ _ _ (λ att e. then-Passes _ _ _ (
        verdict-Passes _ (parse_review_verdict codec input.body) _ _ _
          (search
            (
              result_rules, free_rules, end_session-Keeps, stop_review_process-Keeps,
              block_apply-Keeps,
            )
            depth 14)
          (search
            (
              result_rules, free_rules, end_session-Keeps, stop_review_process-Keeps,
              block_apply-Keeps,
            )
            depth 14)
          (search
            (
              result_rules, free_rules, end_session-Keeps, stop_review_process-Keeps,
              verify_apply-Keeps,
            )
            depth 14))))

  pub apply_review_failed-Passes :
      (input : EffectResultInput) (s : Session) (c : Code)
      → Passes st (is_lawful st) (Deliver.decide_apply_review_failed st input s c)
  unfolding Deliver.decide_apply_review_failed
  apply_review_failed-Passes input s c =
      need-Passes _ _ _ _
        (λ att e. search (result_rules, free_rules, end_session-Keeps, block_apply-Keeps) depth 14)

  delivered-Keeps :
      (att : ApplyAttempt) (input : EffectResultInput)
      → Keeps st (is_lawful st) (Deliver.delivered st att input)
  unfolding Deliver.delivered
  delivered-Keeps att input = record { keep = λ b h. search free_rules depth 12 }

  pub apply_result-Passes :
      (input : EffectResultInput) → Passes st (is_lawful st) (Deliver.decide_apply_result st input)
  unfolding Deliver.decide_apply_result Deliver.settle_delivery
  apply_result-Passes input =
      bind-Passes _ (Apply.need_apply ApplyStatus.is_running st input.apply_attempt _) _ (λ att.
        search
          (result_rules, free_rules, if-Passes, then-Passes, delivered-Keeps, block_apply-Keeps)
          depth 14)

  record_confirmation-Keeps :
      (codec : Codec) (att : ApplyAttempt) (input : ApplyPolicyConfirmationInput)
      → Keeps st (is_lawful st) (Deliver.record_confirmation codec st att input)
  unfolding Deliver.record_confirmation
  record_confirmation-Keeps codec att input = record { keep = λ b h. search free_rules depth 12 }

  pub policy_confirm-Passes :
      (codec : Codec) (input : ApplyPolicyConfirmationInput)
      → Passes st (is_lawful st) (Deliver.decide_apply_policy_confirm codec st input)
  unfolding Deliver.decide_apply_policy_confirm
  policy_confirm-Passes codec input =
      bind-Passes _ (Apply.need_apply ApplyStatus.is_blocked st input.attempt _) _ (λ att.
        search
          (
            result_rules, free_rules, then-Passes, yield-Passes, with_review-Yields,
            with_resolution-Yields, record_confirmation-Keeps, reopen_apply_attempt-Keeps,
          )
          depth 18)

  apply_kind-Passes :
      (codec : Codec) (input : ApplyCommandInput) (k : ApplyCommandKind)
      → Passes st (is_lawful st) (Deliver.decide_apply_command codec st input k)
  unfolding Deliver.decide_apply_command
  apply_kind-Passes codec input ApplyCommandKind.request = apply_request-Passes codec input
  apply_kind-Passes codec input ApplyCommandKind.execute = apply_execute-Passes input
  apply_kind-Passes codec input (ApplyCommandKind.undeclared _) = err-Passes _ _

  pub apply-Passes :
      (codec : Codec) (input : ApplyCommandInput)
      → Passes st (is_lawful st) (Deliver.decide_apply codec st input)
  unfolding Deliver.decide_apply
  apply-Passes codec input = apply_kind-Passes codec input input.kind
