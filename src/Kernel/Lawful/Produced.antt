-- ===== src/Kernel/Lawful/Produced.antt =====
-- The outputs of planning runs ask for lawful mutations only.
use cflow.Base.{ℕ, true, false, [], ◌≡◌, refl, String, ◌∷◌, List, Bool, ◌+◌, all}
use cflow.Base.Result.{Result, ok, err}
use cflow.Model.WorkflowStage
use cflow.Model.WorkflowStage.{WorkflowStage}
use cflow.Model.RuntimeStatus
use cflow.Model.RuntimeStatus.{RuntimeStatus}
use cflow.Model.PlanStatus.{PlanStatus}
use cflow.Model.ArtifactType.{ArtifactType}
use cflow.Model.AgentPurpose.{AgentPurpose}
use cflow.Model.Code.{Code}
use cflow.Model.Artifact.{ArtifactRef}
use cflow.Model.Fault.{Fault}
use cflow.Model.State.{State}
use cflow.Model.Runtime.{Session}
use cflow.Model.Decision.{Decision, EventKind, Mutation}
use cflow.Kernel.Codec.{Codec}
use cflow.Kernel.Input.{EffectResultInput}
use cflow.Kernel.Builder.{Builder, wf_mut}
use cflow.Kernel.Chain
use cflow.Kernel.Lawful.Rules.{
  Holds, Keeps, Passes, is_lawful, builder_rules, result_rules, if-Holds, if-Passes, chain-Holds,
  new_builder-Holds, done-Passes, err-Passes,
}
use cflow.Kernel.Lawful.Settle.{wf_mut-lawful, wf_mut_status-lawful}
use cflow.Kernel.Lawful.Free.{free_rules, is_intended, row-lawful, stage-lawful, then-Passes}
use cflow.Kernel.Produced
use cflow.Kernel.Output.{CheckDecision, judge_patch, judge_specs, parse_check_result}
use cflow.Kernel.Merge
use cflow.Kernel.Builder.{no_decision}
use cflow.Kernel.Lawful.Rules.{is_sound, is_stamped}
use cflow.Kernel.Lawful.Planning.{record_artifact-Keeps}
use cflow.Kernel.Gates

-- Reading an output fails with a text, or yields what the Decision goes on with.
pub read-Passes :
    {A : Type 0} {st : State} (p : Mutation → Bool) (r : Result String A)
    (n : String → Result Fault Decision) (f : A → Result Fault Decision)
    → ((t : String) → Passes st p (n t))
    → ((a : A) → Passes st p (f a))
    → Passes st p (elim r [ err t ↦ n t | ok a ↦ f a ])
read-Passes p (err t) n f hn hf = hn t
read-Passes p (ok a) n f hn hf = hf a

pub nothing-Passes : (st : State) → Passes st (is_lawful st) (ok no_decision)
unfolding is_sound is_stamped all
nothing-Passes st = record { pass = refl }

module _ (st : State) where
  pub restore_plan-Keeps : (t : Bool) → Keeps st (is_lawful st) (Produced.restore_plan t)
  unfolding Produced.restore_plan
  restore_plan-Keeps t = record {
    keep = λ b h. if-Holds _ t _ _ (λ _. search (free_rules) depth 8) (λ _. h);
  }

  invalid_output-Passes :
      (input : EffectResultInput) (s : Session) (text : String) (t : Bool)
      → Passes st (is_lawful st) (Produced.invalid_output st input s text t)
  unfolding Produced.invalid_output Chain.session_end
  invalid_output-Passes input s text t =
      search (result_rules, free_rules, restore_plan-Keeps) depth 12

  end_and_write-Keeps :
      (input : EffectResultInput) (s : Session) (ref : ArtifactRef) (body : List ℕ)
      (producer : AgentPurpose)
      → Keeps st (is_lawful st) (Produced.end_and_write st input s ref body producer)
  unfolding Produced.end_and_write Chain.session_end
  end_and_write-Keeps input s ref body producer = record {
    keep = λ b h. search (free_rules) depth 8;
  }

  pub turn-Passes :
      (codec : Codec) (input : EffectResultInput) (s : Session)
      → Passes st (is_lawful st) (Produced.decide_discussion_turn_result codec st input s)
  unfolding Produced.decide_discussion_turn_result
  turn-Passes codec input s =
      search (result_rules, free_rules, if-Passes, invalid_output-Passes, end_and_write-Keeps) depth
        12

  pub plan-Passes :
      (codec : Codec) (input : EffectResultInput) (s : Session)
      → Passes st (is_lawful st) (Produced.decide_plan_generated codec st input s)
  unfolding Produced.decide_plan_generated
  plan-Passes codec input s =
      read-Passes _ (Produced.plan_body codec st input.body) _ _
        (λ t. invalid_output-Passes input s t false)
        (λ body. search (result_rules, free_rules, end_and_write-Keeps) depth 12)

  pub check-Passes :
      (codec : Codec) (input : EffectResultInput) (s : Session)
      → Passes st (is_lawful st) (Produced.decide_check_result codec st input s)
  unfolding Produced.decide_check_result
  check-Passes codec input s = then-Passes _ _ _ (
      read-Passes _ (Produced.check_body codec st input s) _ _
        (λ t. invalid_output-Passes input s t true)
        (λ body. search (result_rules, free_rules, end_and_write-Keeps) depth 12))

  record_catalog-Keeps :
      (input : EffectResultInput) → Keeps st (is_lawful st) (Produced.record_catalog input)
  unfolding Produced.record_catalog
  record_catalog-Keeps input = record {
    keep = λ b h. search (free_rules, record_artifact-Keeps) depth 10;
  }

  pub specs-Passes :
      (codec : Codec) (input : EffectResultInput) (s : Session)
      → Passes st (is_lawful st) (Produced.decide_specs_generated codec st input s)
  unfolding Produced.decide_specs_generated
  specs-Passes codec input s =
      read-Passes _ (judge_specs codec input.body) _ _ (λ t. invalid_output-Passes input s t false)
        (λ body.
          search (result_rules, free_rules, record_catalog-Keeps, end_and_write-Keeps) depth 12)

  pub patch-Passes :
      (codec : Codec) (input : EffectResultInput) (s : Session)
      → Passes st (is_lawful st) (Produced.decide_patch_proposed codec st input s)
  unfolding Produced.decide_patch_proposed Chain.session_end
  patch-Passes codec input s =
      read-Passes _ (judge_patch codec input.body) _ _ (λ t. invalid_output-Passes input s t false)
        (λ body. search (result_rules, free_rules) depth 12)

  record_operations-Keeps :
      (c : Code) (prefix : String) (n : ℕ) (ops : List String)
      → Keeps st (is_lawful st) (Produced.record_operations st c prefix n ops)
  unfolding Produced.record_operations
  record_operations-Keeps c prefix n ops = record { keep = go n ops }
    where
      go :
          (n : ℕ) (ops : List String) (b : Builder)
          → Holds st (is_lawful st) b
          → Holds st (is_lawful st) (Produced.record_operations st c prefix n ops b)
      go n [] b h = h
      go n (op ∷ ops) b h = go (n + 1) ops _ (search (free_rules) depth 10)

  pub compiled-Passes :
      (input : EffectResultInput)
      → Passes st (is_lawful st) (Produced.decide_workflow_compiled st input)
  unfolding Produced.decide_workflow_compiled
  compiled-Passes input =
      search (result_rules, free_rules, then-Passes, record_operations-Keeps) depth 14

  pause_with_plan-Keeps :
      (status : PlanStatus) (kind : EventKind) (text paused : String)
      → Keeps st (is_lawful st) (Produced.pause_with_plan st status kind text paused)
  unfolding Produced.pause_with_plan RuntimeStatus.is_cancelled
  pause_with_plan-Keeps status kind text paused = record {
    keep = λ b h. search (free_rules, wf_mut_status-lawful) depth 12;
  }

  return_to_stage-Keeps :
      (stage : WorkflowStage) (kind : EventKind) (text changed : String)
      → Keeps st (is_lawful st) (Produced.return_to_stage st stage kind text changed)
  unfolding Produced.return_to_stage RuntimeStatus.is_cancelled
  return_to_stage-Keeps stage kind text changed = record {
    keep = λ b h. search (free_rules, wf_mut-lawful) depth 12;
  }

  apply_check-Keeps : (d : CheckDecision) → Keeps st (is_lawful st) (Produced.apply_check st d)
  unfolding Produced.apply_check
  apply_check-Keeps CheckDecision.pass = record { keep = (pause_with_plan-Keeps _ _ _ _).keep }
  apply_check-Keeps CheckDecision.reject = record { keep = (pause_with_plan-Keeps _ _ _ _).keep }
  apply_check-Keeps CheckDecision.needs_revision = record {
    keep = (return_to_stage-Keeps _ _ _ _).keep;
  }
  apply_check-Keeps CheckDecision.needs_discussion = record {
    keep = (return_to_stage-Keeps _ _ _ _).keep;
  }

  check_committed-Passes :
      (codec : Codec) (input : EffectResultInput)
      → Passes st (is_lawful st) (Produced.check_result_committed codec st input)
  unfolding Produced.check_result_committed
  check_committed-Passes codec input =
      read-Passes _ (parse_check_result codec input.body) _ _ (λ t. err-Passes _ _)
        (λ out.
          search (result_rules, free_rules, record_artifact-Keeps, apply_check-Keeps) depth 12)

module _ (st : State) (intended : is_intended st ≡ true) where
  integration-lawful :
      (head : String) → is_lawful st (Mutation.workflow (Merge.integration_row st head)) ≡ true
  unfolding Merge.integration_row Merge.same_row wf_mut
  integration-lawful head = row-lawful st _ intended refl refl refl refl refl refl

  pub integration_worktree-Passes :
      (input : EffectResultInput)
      → Passes st (is_lawful st) (Produced.decide_integration_worktree_created st input)
  unfolding Produced.decide_integration_worktree_created
  integration_worktree-Passes input = search (result_rules, free_rules, integration-lawful) depth 12

  moved-Keeps :
      (stage : WorkflowStage) (text : String)
      → Keeps st (is_lawful st) (Gates.change_stage st stage st.workflow.runtime text)
  unfolding Gates.change_stage
  moved-Keeps stage text = record {
    keep = λ b h. search (builder_rules, stage-lawful st stage intended) depth 10;
  }

  spec_recorded-Keeps :
      (ref : ArtifactRef) → Keeps st (is_lawful st) (Produced.spec_revision_recorded st ref)
  unfolding Produced.spec_revision_recorded
  spec_recorded-Keeps ref = record {
    keep = λ b h.
        let recorded = chain-Holds _ _ _ h (record_artifact-Keeps st ref) in
        if-Holds _ (WorkflowStage.is_workflow_generation st.workflow.stage) _ _ (λ _. recorded)
          (λ _. chain-Holds _ _ _ recorded (moved-Keeps WorkflowStage.workflow_generation _));
  }

  plan_recorded-Keeps :
      (ref : ArtifactRef) → Keeps st (is_lawful st) (Produced.plan_revision_recorded st ref)
  unfolding Produced.plan_revision_recorded
  plan_recorded-Keeps ref = record {
    keep = λ b h.
        search
          (free_rules, record_artifact-Keeps, stage-lawful st WorkflowStage.plan_check intended)
          depth 14;
  }

  commit-Passes :
      (codec : Codec) (input : EffectResultInput) (t : ArtifactType)
      → Passes st (is_lawful st) (Produced.commit_artifact codec st input t)
  unfolding Produced.commit_artifact
  commit-Passes codec input ArtifactType.plan =
      done-Passes _ _ ((plan_recorded-Keeps input.artifact).keep _ (new_builder-Holds _))
  commit-Passes codec input ArtifactType.discussion_turn = nothing-Passes st
  commit-Passes codec input ArtifactType.discussion_handoff = nothing-Passes st
  commit-Passes codec input ArtifactType.plan_check = check_committed-Passes st codec input
  commit-Passes codec input ArtifactType.spec =
      done-Passes _ _ ((spec_recorded-Keeps input.artifact).keep _ (new_builder-Holds _))
  commit-Passes codec input ArtifactType.workflow =
      done-Passes _ _ ((record_artifact-Keeps st input.artifact).keep _ (new_builder-Holds _))
  commit-Passes codec input _ = err-Passes _ _

  pub written-Passes :
      (codec : Codec) (input : EffectResultInput)
      → Passes st (is_lawful st) (Produced.decide_artifact_written codec st input)
  unfolding Produced.decide_artifact_written
  written-Passes codec input = then-Passes _ _ _ (commit-Passes codec input input.artifact.type)
