-- ===== src/Kernel/Lawful/Provider.antt =====
-- The end of a Provider run asks for lawful mutations only.
use cflow.Base.{true, false, some, ◌≡◌, refl, ◌==◌, Bool, if◌then◌else◌}
use cflow.Base.Result.{Result}
use cflow.Model.WorkflowStage
use cflow.Model.WorkflowStage.{WorkflowStage}
use cflow.Model.AttemptStatus
use cflow.Model.AgentPurpose.{AgentPurpose}
use cflow.Model.Code
use cflow.Model.Code.{Code}
use cflow.Model.Fault.{Fault}
use cflow.Model.State.{State, node_at, attempt_at}
use cflow.Model.Runtime.{Attempt, Node, Session}
use cflow.Model.Decision.{Decision}
use cflow.Kernel.Codec.{Codec}
use cflow.Kernel.Input.{EffectResultInput}
use cflow.Kernel.Builder.{Builder}
use cflow.Kernel.Chain
use cflow.Kernel.Lawful.Rules.{
  Holds, Passes, is_lawful, result_rules, if-Passes, Option-Passes, chain-Holds, new_builder-Holds,
  need-Passes, done-Passes, err-Passes,
}
use cflow.Kernel.Lawful.Settle.{IsKeyed}
use cflow.Kernel.Lawful.Free.{
  free-Keeps, Yields, free_rules, is_intended, then-Passes, yield-Passes, ok-Yields, then-Yields,
  if-Yields,
}
use cflow.Model.SessionStatus
use cflow.Kernel.Provider
use cflow.Kernel.Adopt
use cflow.Kernel.Chain.{attempt_by_session}
use cflow.Kernel.Lawful.Attempt.{decide_failure-Passes, settle_interrupted-Keeps}
use cflow.Kernel.Lawful.Found.{has_distinct_keys, attempt_by_session-shows}
use cflow.Kernel.Lawful.Adopt.{adoption_coding-Passes, adoption_review-Passes}
use cflow.Kernel.Lawful.Apply.{apply_review-Passes, apply_review_failed-Passes}
use cflow.Kernel.Lawful.Verify.{review_run-Passes}
use cflow.Kernel.Lawful.Produced.{
  restore_plan-Keeps, turn-Passes, plan-Passes, check-Passes, specs-Passes, patch-Passes,
}

module _ (st : State) where
  session_finding-Passes :
      (input : EffectResultInput) (s : Session) (c : Code)
      → Passes st (is_lawful st) (Provider.settle_session_finding st input s c)
  unfolding Provider.settle_session_finding Chain.session_end
  session_finding-Passes input s c = search (result_rules, free_rules, restore_plan-Keeps) depth 14

  successor-Yields :
      (s : Session) (input : EffectResultInput) (b : Builder)
      → Holds st (is_lawful st) b
      → Yields st (is_lawful st) (Provider.append_fallback_successor s input b)
  unfolding Provider.append_fallback_successor
  successor-Yields s input b h =
      if-Yields _ (input.successor_session.id == "") _ _ (ok-Yields _ b h)
        (then-Yields _ _ _ (ok-Yields _ _ (search (free_rules) depth 8)))

  unexpected-Passes : Passes st (is_lawful st) Provider.unexpected_stage
  unfolding Provider.unexpected_stage
  unexpected-Passes = err-Passes _ _

  when-Passes :
      (t : Bool) (k : Result Fault Decision)
      → Passes st (is_lawful st) k
      → Passes st (is_lawful st) (Provider.when_stage t k)
  unfolding Provider.when_stage
  when-Passes true k h = h
  when-Passes false k h = unexpected-Passes

  implementation-Passes :
      (input : EffectResultInput) (s : Session)
      → Passes st (is_lawful st) (Provider.decide_implementation_run_ended st input s)
  unfolding Provider.decide_implementation_run_ended Chain.session_end
  implementation-Passes input s = search (result_rules, free_rules) depth 10

  planning-Passes :
      (codec : Codec) (input : EffectResultInput) (s : Session) (stage : WorkflowStage)
      → Passes st (is_lawful st) (Provider.planning_completed codec st input s stage)
  unfolding Provider.planning_completed
  planning-Passes codec input s WorkflowStage.requirement_discussion = turn-Passes st codec input s
  planning-Passes codec input s WorkflowStage.plan_generation = plan-Passes st codec input s
  planning-Passes codec input s _ = unexpected-Passes

module _ (st : State) (keyed : IsKeyed st) (distinct : has_distinct_keys st.attempts ≡ true) where
  attempt_failure-Passes :
      (input : EffectResultInput) (s : Session) (c : Code) (a : Attempt) (node : Node)
      → attempt_at st.attempts a.key ≡ some a
      → AttemptStatus.is_running a.status ≡ true
      → node_at st.nodes a.key.node ≡ some node
      → Passes st (is_lawful st) (Provider.settle_attempt_failure st input s c a node)
  unfolding Provider.settle_attempt_failure Chain.session_end
  attempt_failure-Passes input s c a node found running at =
      let ended = chain-Holds _ _ _ (new_builder-Holds _) (free-Keeps st _ refl) in
      if-Passes _ (Code.same c Code.user_interrupted) _ _
        (λ _. done-Passes _ _ (
          chain-Holds _ _ _ ended
            (settle_interrupted-Keeps st keyed a.key a node _ found running at)))
        (λ _.
          yield-Passes _ _ _ (successor-Yields st s input _ ended)
            (λ b h. decide_failure-Passes st keyed a.key a node _ found running at c b h))

  execution_failure-Passes :
      (input : EffectResultInput) (s : Session) (c : Code)
      → Passes st (is_lawful st) (Provider.settle_execution_session_failure st input s c)
  unfolding Provider.settle_execution_session_failure
  execution_failure-Passes input s c =
      Option-Passes _ (attempt_by_session st s.id) _ _ (λ _. session_finding-Passes st input s c)
        (λ a e.
          let (found, running) = attempt_by_session-shows st keyed s.id a distinct e in
          need-Passes _ _ _ _ (λ node at. attempt_failure-Passes input s c a node found running at))

module _ (st : State) (keyed : IsKeyed st) (distinct : has_distinct_keys st.attempts ≡ true)
    (intended : is_intended st ≡ true) where
  review_completed-Passes :
      (codec : Codec) (input : EffectResultInput) (s : Session)
      → Passes st (is_lawful st) (Provider.review_completed codec st input s)
  unfolding Provider.review_completed
  review_completed-Passes codec input s =
      if-Passes _ (Adopt.has_attempt st s) _ _
        (λ _. review_run-Passes st keyed codec input s distinct)
        (λ _. adoption_review-Passes st intended codec input s)

  run_completed-Passes :
      (codec : Codec) (input : EffectResultInput) (s : Session) (p : AgentPurpose)
      → Passes st (is_lawful st) (Provider.run_completed codec st input s p)
  unfolding Provider.run_completed
  run_completed-Passes codec input s AgentPurpose.planning =
      planning-Passes st codec input s st.workflow.stage
  run_completed-Passes codec input s AgentPurpose.plan_check =
      when-Passes st _ _ (check-Passes st codec input s)
  run_completed-Passes codec input s AgentPurpose.spec_generation =
      when-Passes st _ _ (specs-Passes st codec input s)
  run_completed-Passes codec input s AgentPurpose.workflow_optimization =
      when-Passes st _ _ (patch-Passes st codec input s)
  run_completed-Passes codec input s AgentPurpose.implementation =
      when-Passes st _ _ (implementation-Passes st input s)
  run_completed-Passes codec input s AgentPurpose.repair =
      when-Passes st _ _ (implementation-Passes st input s)
  run_completed-Passes codec input s AgentPurpose.adoption =
      when-Passes st _ _ (adoption_coding-Passes st intended codec input s)
  run_completed-Passes codec input s AgentPurpose.review =
      when-Passes st _ _ (review_completed-Passes codec input s)
  run_completed-Passes codec input s AgentPurpose.final_verification =
      when-Passes st _ _ (review_run-Passes st keyed codec input s distinct)
  run_completed-Passes codec input s AgentPurpose.apply_verification =
      when-Passes st _ _ (apply_review-Passes st codec input s)
  run_completed-Passes codec input s (AgentPurpose.undeclared _) = unexpected-Passes st

  executed-Passes :
      (t : Bool) (input : EffectResultInput) (s : Session) (c : Code)
      → Passes st (is_lawful st) (
          if t
          then Provider.settle_execution_session_failure st input s c
          else Provider.settle_session_finding st input s c)
  executed-Passes true input s c = execution_failure-Passes st keyed distinct input s c
  executed-Passes false input s c = session_finding-Passes st input s c

  run_failed-Passes :
      (codec : Codec) (input : EffectResultInput) (s : Session) (c : Code) (p : AgentPurpose)
      → Passes st (is_lawful st) (Provider.run_failed codec st input s c p)
  unfolding Provider.run_failed
  run_failed-Passes codec input s c AgentPurpose.adoption =
      if-Passes _ (WorkflowStage.is_execution st.workflow.stage) _ _
        (λ _. adoption_coding-Passes st intended codec input s)
        (λ _. session_finding-Passes st input s c)
  run_failed-Passes codec input s c AgentPurpose.final_verification = executed-Passes _ input s c
  run_failed-Passes codec input s c AgentPurpose.apply_verification =
      if-Passes _ (Provider.is_reviewing_apply st) _ _
        (λ _. apply_review_failed-Passes st input s c) (λ _. session_finding-Passes st input s c)
  run_failed-Passes codec input s c AgentPurpose.planning = executed-Passes _ input s c
  run_failed-Passes codec input s c AgentPurpose.plan_check = executed-Passes _ input s c
  run_failed-Passes codec input s c AgentPurpose.spec_generation = executed-Passes _ input s c
  run_failed-Passes codec input s c AgentPurpose.workflow_optimization = executed-Passes _ input s c
  run_failed-Passes codec input s c AgentPurpose.implementation = executed-Passes _ input s c
  run_failed-Passes codec input s c AgentPurpose.repair = executed-Passes _ input s c
  run_failed-Passes codec input s c AgentPurpose.review = executed-Passes _ input s c
  run_failed-Passes codec input s c (AgentPurpose.undeclared _) = executed-Passes _ input s c

  pub provider_run-Passes :
      (codec : Codec) (input : EffectResultInput)
      → Passes st (is_lawful st) (Provider.decide_provider_run_ended codec st input)
  unfolding Provider.decide_provider_run_ended
  provider_run-Passes codec input = then-Passes _ _ _ (
      need-Passes _ _ _ _ (λ s e. then-Passes _ _ _ (
        if-Passes _ (SessionStatus.is_completed input.session.status) _ _
          (λ _. run_completed-Passes codec input s s.purpose)
          (λ _. then-Passes _ _ _ (run_failed-Passes codec input s _ s.purpose)))))
