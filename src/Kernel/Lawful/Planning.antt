-- ===== src/Kernel/Lawful/Planning.antt =====
-- The discussion, planning and approval commands ask for lawful mutations only.
use cflow.Base.{true, ◌≡◌, refl, String}
use cflow.Model.RuntimeStatus
use cflow.Model.RuntimeStatus.{RuntimeStatus}
use cflow.Model.AgentPurpose.{AgentPurpose}
use cflow.Model.Artifact.{ArtifactRef}
use cflow.Model.State.{State}
use cflow.Model.Decision.{EventKind, Mutation}
use cflow.Kernel.Input.{EffectResultInput}
use cflow.Kernel.Builder.{wf_mut}
use cflow.Kernel.Lawful.Rules.{
  Keeps, Passes, is_lawful, builder_rules, result_rules, need-Passes, bind-Passes,
}
use cflow.Kernel.Lawful.Settle.{wf_mut_status-lawful}
use cflow.Kernel.Lawful.Free.{free_rules, is_intended, row-lawful, then-Passes}
use cflow.Kernel.Planning
use cflow.Kernel.Discuss
use cflow.Kernel.Merge
use cflow.Kernel.Lawful.Workflow.{open_run-Keeps}
use cflow.Kernel.Lawful.Chain.{record_session-Keeps, record_process-Keeps}

module _ (st : State) where
  pub opened_run-Keeps :
      (kind : EventKind) (text : String)
      → Keeps st (is_lawful st) (Planning.opened_run st kind text)
  unfolding Planning.opened_run
  opened_run-Keeps kind text = record {
    keep = λ b h. search (builder_rules, open_run-Keeps) depth 12;
  }

  start_from-Keeps : (rt : RuntimeStatus) → Keeps st (is_lawful st) (Planning.start_from st rt)
  unfolding Planning.start_from RuntimeStatus.is_cancelled
  start_from-Keeps RuntimeStatus.pending = record {
    keep = λ b h. search (builder_rules, wf_mut_status-lawful, opened_run-Keeps) depth 12;
  }
  start_from-Keeps RuntimeStatus.paused = record {
    keep = λ b h. search (builder_rules, wf_mut_status-lawful, opened_run-Keeps) depth 12;
  }
  start_from-Keeps RuntimeStatus.running = record { keep = λ b h. h }
  start_from-Keeps RuntimeStatus.blocked = record { keep = λ b h. h }
  start_from-Keeps RuntimeStatus.succeeded = record { keep = λ b h. h }
  start_from-Keeps RuntimeStatus.failed = record { keep = λ b h. h }
  start_from-Keeps RuntimeStatus.cancelled = record { keep = λ b h. h }
  start_from-Keeps (RuntimeStatus.undeclared _) = record { keep = λ b h. h }

  pub start_if_needed-Keeps : Keeps st (is_lawful st) (Planning.start_if_needed st)
  unfolding Planning.start_if_needed
  start_if_needed-Keeps = start_from-Keeps st.workflow.runtime

  append_planner-Keeps :
      (id provider : String) → Keeps st (is_lawful st) (Planning.append_planner st id provider)
  unfolding Planning.append_planner
  append_planner-Keeps id provider = record { keep = λ b h. search (free_rules) depth 8 }

  pub start_planner-Keeps :
      (id provider : String) → Keeps st (is_lawful st) (Planning.start_planner st id provider)
  unfolding Planning.start_planner
  start_planner-Keeps id provider = record {
    keep = λ b h. search (free_rules, append_planner-Keeps) depth 10;
  }

  pub start_fresh-Keeps :
      (id : String) (purpose : AgentPurpose) (provider : String)
      → Keeps st (is_lawful st) (Planning.start_fresh id purpose provider)
  unfolding Planning.start_fresh
  start_fresh-Keeps id purpose provider = record {
    keep = λ b h. search (free_rules, record_session-Keeps) depth 10;
  }

  pub record_artifact-Keeps :
      (ref : ArtifactRef) → Keeps st (is_lawful st) (Planning.record_artifact ref)
  unfolding Planning.record_artifact
  record_artifact-Keeps ref = record { keep = λ b h. search (free_rules) depth 8 }

  pub discuss-Passes :
      (input : Discuss.DiscussRequirementInput)
      → Passes st (is_lawful st) (Discuss.decide_discuss_requirement st input)
  unfolding Discuss.decide_discuss_requirement
  discuss-Passes input =
      search (result_rules, free_rules, then-Passes, start_if_needed-Keeps, start_planner-Keeps)
        depth 14

  pub prepare-Passes :
      (input : Discuss.PrepareNativeDiscussionInput)
      → Passes st (is_lawful st) (Discuss.decide_prepare_native_discussion st input)
  unfolding Discuss.decide_prepare_native_discussion
  prepare-Passes input =
      search
        (
          result_rules, free_rules, then-Passes, start_if_needed-Keeps, append_planner-Keeps,
          record_process-Keeps,
        )
        depth 14

  pub finish-Passes :
      (input : Discuss.FinishDiscussionInput)
      → Passes st (is_lawful st) (Discuss.decide_finish_discussion st input)
  unfolding Discuss.decide_finish_discussion
  finish-Passes input = search (result_rules, free_rules, then-Passes, bind-Passes) depth 14

  returned-lawful :
      (input : Discuss.NativeDiscussionReturnInput)
      → is_intended st ≡ true
      → is_lawful st (Mutation.workflow (Discuss.returned_row st input)) ≡ true
  unfolding Discuss.returned_row Merge.same_row wf_mut
  returned-lawful input intended = row-lawful st _ intended refl refl refl refl refl refl

  pub return-Passes :
      (input : Discuss.NativeDiscussionReturnInput)
      → is_intended st ≡ true
      → Passes st (is_lawful st) (Discuss.decide_native_discussion_return st input)
  unfolding Discuss.decide_native_discussion_return
  return-Passes input intended =
      search (result_rules, free_rules, then-Passes, bind-Passes, returned-lawful input intended)
        depth 16

  pub continue-Passes :
      (input : Discuss.ContinueNativeDiscussionInput)
      → Passes st (is_lawful st) (Discuss.decide_continue_native_discussion st input)
  unfolding Discuss.decide_continue_native_discussion
  continue-Passes input =
      search
        (
          result_rules, free_rules, then-Passes, bind-Passes, start_if_needed-Keeps,
          record_process-Keeps,
        )
        depth 16

  pub switch-Passes :
      (input : Discuss.SwitchAgentInput)
      → Passes st (is_lawful st) (Discuss.decide_switch_agent st input)
  unfolding Discuss.decide_switch_agent
  switch-Passes input =
      search (result_rules, free_rules, then-Passes, start_if_needed-Keeps, record_process-Keeps)
        depth 18

  pub bootstrap-Passes :
      (input : EffectResultInput)
      → Passes st (is_lawful st) (Discuss.decide_native_bootstrap_established st input)
  unfolding Discuss.decide_native_bootstrap_established
  bootstrap-Passes input =
      then-Passes _ _ _
        (need-Passes _ _ _ _ (λ s e. search (result_rules, free_rules, then-Passes) depth 14))
