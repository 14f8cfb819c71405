-- ===== src/Kernel/Lawful/Gates.antt =====
-- The gates of planning, the completion and the replacement ask for lawful mutations only.
use cflow.Base.{ℕ, true, false, [], ◌≡◌, refl, String, ◌==◌, ◌∷◌, List, arith}
use cflow.Model.WorkflowStage.{WorkflowStage}
use cflow.Model.RuntimeStatus
use cflow.Model.RuntimeStatus.{RuntimeStatus}
use cflow.Model.RunStatus
use cflow.Model.RunStatus.{RunStatus}
use cflow.Model.ArtifactType.{ArtifactType}
use cflow.Model.Artifact.{ArtifactRef, ExecutionFacts}
use cflow.Model.State.{State}
use cflow.Model.Runtime.{ProcessRecord, Run}
use cflow.Model.Decision.{Mutation}
use cflow.Kernel.Codec.{Codec}
use cflow.Kernel.Builder.{Builder, wf_mut}
use cflow.Kernel.Lawful.Rules.{
  Holds, Keeps, Passes, is_lawful, builder_rules, result_rules, if-Holds, chain-Holds,
  new_builder-Holds, need-Passes, bind-Passes, done-Passes, with_run-Keeps,
}
use cflow.Kernel.Lawful.Settle.{run-lawful, wf_mut-lawful, wf_mut_status-lawful}
use cflow.Kernel.Lawful.Free.{free_rules, is_intended, stage-lawful, then-Passes}
use cflow.Base.{subst, sym, inl, inr, ◌⊎◌, eq_refl, ltb}
use cflow.Kernel.Gates
use cflow.Kernel.Complete
use cflow.Kernel.Replace
use cflow.Kernel.Facts.{is_running_process}
use cflow.Kernel.Lawful.Workflow.{open_run-Keeps, new_run-lawful}
use cflow.Kernel.Lawful.Drift.{record_preflight-Keeps, pause_at_gate-Keeps}
use cflow.Kernel.Lawful.Planning.{
  opened_run-Keeps, record_artifact-Keeps, start_fresh-Keeps, start_if_needed-Keeps,
  start_planner-Keeps,
}

-- A Plan generation keeps the status or opens a Run.
planned :
    (rt : RuntimeStatus)
    → (Gates.plan_runtime rt ≡ rt) ⊎ (RuntimeStatus.is_cancelled (Gates.plan_runtime rt) ≡ false)
unfolding Gates.plan_runtime RuntimeStatus.is_cancelled
planned RuntimeStatus.pending = inr refl
planned RuntimeStatus.paused = inr refl
planned RuntimeStatus.running = inl refl
planned RuntimeStatus.blocked = inl refl
planned RuntimeStatus.succeeded = inl refl
planned RuntimeStatus.failed = inl refl
planned RuntimeStatus.cancelled = inl refl
planned (RuntimeStatus.undeclared _) = inl refl

module _ (st : State) where
  plan_run-Keeps : (rt : RuntimeStatus) → Keeps st (is_lawful st) (Gates.plan_run st rt)
  unfolding Gates.plan_run
  plan_run-Keeps RuntimeStatus.pending = record {
    keep = λ b h. search (builder_rules, opened_run-Keeps) depth 10;
  }
  plan_run-Keeps RuntimeStatus.paused = record {
    keep = λ b h. search (builder_rules, opened_run-Keeps) depth 10;
  }
  plan_run-Keeps RuntimeStatus.running = record { keep = λ b h. h }
  plan_run-Keeps RuntimeStatus.blocked = record { keep = λ b h. h }
  plan_run-Keeps RuntimeStatus.succeeded = record { keep = λ b h. h }
  plan_run-Keeps RuntimeStatus.failed = record { keep = λ b h. h }
  plan_run-Keeps RuntimeStatus.cancelled = record { keep = λ b h. h }
  plan_run-Keeps (RuntimeStatus.undeclared _) = record { keep = λ b h. h }

  planned-lawful :
      (stage : WorkflowStage)
      → is_intended st ≡ true
      → is_lawful st (
          Mutation.workflow
            (wf_mut st stage (Gates.plan_runtime st.workflow.runtime) st.workflow.cancel_intent))
        ≡ true
  planned-lawful stage h = elim (planned st.workflow.runtime) [
    | inl same ↦
        subst
          (λ rt.
            is_lawful st (Mutation.workflow (wf_mut st stage rt st.workflow.cancel_intent)) ≡ true)
          (sym same) (stage-lawful st stage h)
    | inr live ↦ wf_mut-lawful st stage _ _ live
  ]

  planned_stage-Keeps :
      (text : String)
      → is_intended st ≡ true
      → Keeps st (is_lawful st) (
          Gates.change_stage st WorkflowStage.plan_generation
            (Gates.plan_runtime st.workflow.runtime)
            text)
  unfolding Gates.change_stage
  planned_stage-Keeps text h = record {
    keep = λ b k. search (builder_rules, planned-lawful WorkflowStage.plan_generation h) depth 10;
  }

  pub generate_plan-Passes :
      (input : Gates.GeneratePlanInput)
      → is_intended st ≡ true
      → Passes st (is_lawful st) (Gates.decide_generate_plan st input)
  unfolding Gates.decide_generate_plan
  generate_plan-Passes input intended = then-Passes _ _ _ (
      then-Passes _ _ _ (
        then-Passes _ _ _ (
          search
            (
              result_rules,
              builder_rules,
              plan_run-Keeps,
              planned_stage-Keeps _ intended,
              start_planner-Keeps,
            )
            depth 12)))

  pub check_plan-Passes :
      (input : Gates.PlanningInput) → Passes st (is_lawful st) (Gates.decide_check_plan st input)
  unfolding Gates.decide_check_plan
  check_plan-Passes input = then-Passes _ _ _ (
      then-Passes _ _ _ (
        need-Passes _ _ _ _ (λ p e.
          search (result_rules, free_rules, then-Passes, start_if_needed-Keeps, start_fresh-Keeps)
            depth 14)))

  approve_plan-Keeps :
      (ref : ArtifactRef)
      → is_intended st ≡ true
      → Keeps st (is_lawful st) (Gates.approve_plan st ref)
  unfolding Gates.approve_plan
  approve_plan-Keeps ref intended = record {
    keep =
        λ b h. search (free_rules, stage-lawful st WorkflowStage.spec_generation intended) depth 14;
  }

  pub plan_approval-Passes :
      (input : Gates.PlanApprovalInput)
      → is_intended st ≡ true
      → Passes st (is_lawful st) (Gates.decide_plan_approval st input)
  unfolding Gates.decide_plan_approval
  plan_approval-Passes input intended = need-Passes _ _ _ _ (λ p e. then-Passes _ _ _ (
      then-Passes _ _ _ (
        then-Passes _ _ _ (
          done-Passes _ _ (
            chain-Holds _ _ _ (new_builder-Holds _)
              (approve_plan-Keeps input.plan_ref intended))))))

  execution-lawful : is_lawful st (Mutation.workflow (Gates.execution_row st)) ≡ true
  unfolding Gates.execution_row is_lawful wf_mut RuntimeStatus.is_cancelled
  execution-lawful = ground (
    arith,
    eq_refl st.workflow.id,
    eq_refl st.workflow.project,
    eq_refl st.workflow.target_branch,
    eq_refl st.workflow.base_commit,
  )

  request_integration-Keeps : Keeps st (is_lawful st) (Gates.request_integration st)
  unfolding Gates.request_integration
  request_integration-Keeps = record {
    keep = λ b h.
        if-Holds _ (ltb st.workflow.layout_version 2) _ _ (λ _. search (free_rules) depth 8)
          (λ _. h);
  }

  approve_execution-Keeps :
      (facts : ExecutionFacts) (plan : ℕ) (spec : String)
      → Keeps st (is_lawful st) (Gates.approve_execution st facts plan spec)
  unfolding Gates.approve_execution
  approve_execution-Keeps facts plan spec = record {
    keep = λ b h.
        search (free_rules, open_run-Keeps, execution-lawful, request_integration-Keeps) depth 18;
  }

  pub execution_approval-Passes :
      (input : Gates.ExecutionApprovalInput)
      → Passes st (is_lawful st) (Gates.decide_execution_approval st input)
  unfolding Gates.decide_execution_approval
  execution_approval-Passes input = need-Passes _ _ _ _ (λ f e. then-Passes _ _ _ (
      then-Passes _ _ _ (
        need-Passes _ _ _ _ (λ p e1. then-Passes _ _ _ (
          need-Passes _ _ _ _
            (λ spec e2. search (result_rules, free_rules, approve_execution-Keeps) depth 10))))))

  pub spec_generation-Passes :
      (input : Gates.SpecGenerationInput)
      → Passes st (is_lawful st) (Gates.decide_spec_generation st input)
  unfolding Gates.decide_spec_generation
  spec_generation-Passes input =
      search
        (
          result_rules, free_rules, then-Passes, record_artifact-Keeps, start_if_needed-Keeps,
          start_fresh-Keeps,
        )
        depth 14

  pub compilation-Passes :
      (input : Gates.PlanningInput)
      → Passes st (is_lawful st) (Gates.decide_workflow_compilation st input)
  unfolding Gates.decide_workflow_compilation
  compilation-Passes input =
      search (result_rules, free_rules, then-Passes, start_fresh-Keeps) depth 14

  record_policy-Keeps :
      (type : ArtifactType) (ref : ArtifactRef)
      → Keeps st (is_lawful st) (Gates.record_policy type ref)
  unfolding Gates.record_policy
  record_policy-Keeps type ref = record {
    keep = λ b h. if-Holds _ (ref.hash == "") _ _ (λ _. h) (λ _. search (free_rules) depth 8);
  }

  interrupt_at_gate-Keeps : (r : Run) → Keeps st (is_lawful st) (Gates.interrupt_at_gate r)
  unfolding Gates.interrupt_at_gate RunStatus.is_running
  interrupt_at_gate-Keeps r = record { keep = λ b h. search (builder_rules, run-lawful) depth 10 }

  pub dry_run-Passes :
      (input : Gates.ExecutionDryRunInput)
      → Passes st (is_lawful st) (Gates.decide_execution_dry_run st input)
  unfolding Gates.decide_execution_dry_run RuntimeStatus.is_cancelled
  dry_run-Passes input = then-Passes _ _ _ (
      then-Passes _ _ _ (
        then-Passes _ _ _ (
          need-Passes _ _ _ _ (λ f e. then-Passes _ _ _ (
            then-Passes _ _ _ (
              search
                (
                  result_rules, builder_rules, record_preflight-Keeps, record_policy-Keeps,
                  wf_mut_status-lawful, with_run-Keeps, interrupt_at_gate-Keeps,
                )
                depth 16))))))

  -- A Workflow that completes.
  succeed_run-Keeps : (r : Run) → Keeps st (is_lawful st) (Complete.succeed_run r)
  unfolding Complete.succeed_run RunStatus.is_running
  succeed_run-Keeps r = record { keep = λ b h. search (builder_rules, run-lawful) depth 10 }

  stop_processes-Keeps :
      (ps : List ProcessRecord) → Keeps st (is_lawful st) (Complete.stop_processes st ps)
  unfolding Complete.stop_processes
  stop_processes-Keeps ps = record { keep = go ps }
    where
      go :
          (ps : List ProcessRecord) (b : Builder)
          → Holds st (is_lawful st) b
          → Holds st (is_lawful st) (Complete.stop_processes st ps b)
      go [] b h = h
      go (p ∷ ps) b h =
          go ps _
            (if-Holds _ (is_running_process p) _ b (λ _. search (free_rules) depth 10) (λ _. h))

  complete_workflow-Keeps : Keeps st (is_lawful st) (Complete.complete_workflow st)
  unfolding Complete.complete_workflow RuntimeStatus.is_cancelled
  complete_workflow-Keeps = record {
    keep = λ b h.
        search
          (builder_rules, wf_mut-lawful, with_run-Keeps, succeed_run-Keeps, stop_processes-Keeps)
          depth 14;
  }

  pub complete-Passes : Passes st (is_lawful st) (Complete.decide_complete st)
  unfolding Complete.decide_complete
  complete-Passes = then-Passes _ _ _ (
      then-Passes _ _ _ (
        then-Passes _ _ _ (
          then-Passes _ _ _ (
            bind-Passes _ _ _ (λ found. need-Passes _ _ _ _ (λ n e. need-Passes _ _ _ _ (λ fv f.
              then-Passes _ _ _ (
                then-Passes _ _ _ (
                  then-Passes _ _ _ (
                    done-Passes _ _
                      (chain-Holds _ _ _ (new_builder-Holds _) complete_workflow-Keeps)))))))))))

  pub replacement_approval-Passes :
      (codec : Codec) (input : Replace.ReplacementApprovalInput)
      → Passes st (is_lawful st) (Replace.decide_replacement_approval codec st input)
  unfolding Replace.decide_replacement_approval RuntimeStatus.is_cancelled
  replacement_approval-Passes codec input =
      search
        (result_rules, free_rules, then-Passes, bind-Passes, new_run-lawful, wf_mut_status-lawful)
        depth 20

  record_ref-Keeps :
      (type : ArtifactType) (revision : ℕ) (hash : String)
      → Keeps st (is_lawful st) (Replace.record_ref type revision hash)
  unfolding Replace.record_ref
  record_ref-Keeps type revision hash = record { keep = λ b h. search (free_rules) depth 8 }

  pub replacement_preview-Passes :
      (input : Replace.ReplacementPreviewInput)
      → Passes st (is_lawful st) (Replace.decide_replacement_preview st input)
  unfolding Replace.decide_replacement_preview
  replacement_preview-Passes input =
      search
        (
          result_rules, free_rules, then-Passes, bind-Passes, record_ref-Keeps,
          record_preflight-Keeps, pause_at_gate-Keeps,
        )
        depth 18
