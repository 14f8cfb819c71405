-- ===== src/Kernel/Lawful/Verify.antt =====
-- The verification of a delivery chain asks for lawful mutations only.
use cflow.Base.{true, false, some, [], ◌≡◌, refl, String, Bool, all}
use cflow.Base.Result.{◌>>=◌, need}
use cflow.Model.WorkflowStage.{WorkflowStage}
use cflow.Model.NodeStatus.{NodeStatus}
use cflow.Model.AttemptStatus
use cflow.Model.Artifact.{ExecutionFacts}
use cflow.Model.Fault.{invariant_fault}
use cflow.Model.State.{State, node_at, attempt_at}
use cflow.Model.Runtime.{Attempt, Node, Session}
use cflow.Kernel.Codec.{Codec}
use cflow.Kernel.Input.{DispatchInput, EffectResultInput}
use cflow.Kernel.Builder.{Builder, ◌▸◌, new_builder, done}
use cflow.Kernel.Verdict.{parse_review_verdict}
use cflow.Kernel.Chain
use cflow.Kernel.Lawful.Rules.{
  Holds, Keeps, Passes, is_lawful, chain-Holds, new_builder-Holds, need-Passes, bind-Passes,
  done-Passes,
}
use cflow.Kernel.Lawful.Settle.{IsKeyed}
use cflow.Kernel.Lawful.Free.{
  free_rules, is_intended, stage-lawful, then-Passes, verdict-Passes, free-Keeps,
}
use cflow.Kernel.Chain.{running_attempt, attempt_by_session}
use cflow.Kernel.Facts.{find_session}
use cflow.Kernel.Verify
use cflow.Kernel.Lawful.Free.{ok-Passes}
use cflow.Kernel.Lawful.Dispatch.{start-lawful}
use cflow.Kernel.Lawful.Attempt.{decide_failure-Passes, settle_succeeded-Keeps}
use cflow.Kernel.Lawful.Found.{has_distinct_keys, running_attempt-shows, attempt_by_session-shows}
use cflow.Kernel.Lawful.Chain.{
  allocated-lawful, record_session-Keeps, record_chain_process-Keeps, cancel_session-Keeps,
}

module _ (st : State) (keyed : IsKeyed st) where
  start_final_verify-Keeps :
      (id : String) (node : Node) (input : DispatchInput) (facts : ExecutionFacts)
      → is_intended st ≡ true
      → node_at st.nodes id ≡ some node
      → Keeps st (is_lawful st) (Verify.start_final_verify st node input facts)
  unfolding Verify.start_final_verify
  start_final_verify-Keeps id node input facts intended at = record {
    keep = λ b h.
        search
          (
            free_rules,
            start-lawful st keyed id node NodeStatus.running at,
            allocated-lawful,
            record_session-Keeps,
            record_chain_process-Keeps,
            stage-lawful st WorkflowStage.final_verification intended,
          )
          depth 18;
  }

  start_verify-Keeps :
      (id : String) (node : Node) (a : Attempt) (input : DispatchInput) (facts : ExecutionFacts)
      → node_at st.nodes id ≡ some node
      → Keeps st (is_lawful st) (Verify.start_verify st node a input facts)
  unfolding Verify.start_verify
  start_verify-Keeps id node a input facts at = record {
    keep = λ b h.
        search
          (
            free_rules,
            start-lawful st keyed id node NodeStatus.running at,
            allocated-lawful,
            record_session-Keeps,
            record_chain_process-Keeps,
          )
          depth 18;
  }

  pub final_verify_dispatch-Passes :
      (input : DispatchInput)
      → is_intended st ≡ true
      → Passes st (is_lawful st) (Verify.decide_final_verify_dispatch st input)
  unfolding Verify.decide_final_verify_dispatch
  final_verify_dispatch-Passes input intended = then-Passes _ _ _ (
      then-Passes _ _ _ (
        then-Passes _ _ _ (
          need-Passes _ _ _ _ (λ node at. then-Passes _ _ _ (
            then-Passes _ _ _ (
              then-Passes _ _ _ (
                then-Passes _ _ _ (
                  bind-Passes _ _ _ (λ facts. then-Passes _ _ _ (
                    done-Passes _ _ (
                      (start_final_verify-Keeps input.node node input facts intended at).keep _
                        (new_builder-Holds _))))))))))))

  pub verify_dispatch-Passes :
      (input : DispatchInput) → Passes st (is_lawful st) (Verify.decide_verify_dispatch st input)
  unfolding Verify.decide_verify_dispatch
  verify_dispatch-Passes input = then-Passes _ _ _ (
      then-Passes _ _ _ (
        then-Passes _ _ _ (
          need-Passes _ _ _ _ (λ node at. then-Passes _ _ _ (
            then-Passes _ _ _ (
              then-Passes _ _ _ (
                bind-Passes _ _ _ (λ facts. bind-Passes _ _ _ (λ task. then-Passes _ _ _ (
                  bind-Passes _ _ _ (λ a. then-Passes _ _ _ (
                    done-Passes _ _ (
                      (start_verify-Keeps input.node node a input facts at).keep _
                        (new_builder-Holds _))))))))))))))

  start_review-Keeps :
      (node : Node) (a : Attempt) (s : Session)
      → Keeps st (is_lawful st) (Verify.start_review st node a s)
  unfolding Verify.start_review
  start_review-Keeps node a s = record { keep = λ b h. search (free_rules) depth 8 }

  verification_failed-Passes :
      (node : Node) (a : Attempt) (input : EffectResultInput)
      → attempt_at st.attempts a.key ≡ some a
      → AttemptStatus.is_running a.status ≡ true
      → node_at st.nodes a.key.node ≡ some node
      → Passes st (is_lawful st) (Verify.verification_failed st node a input)
  unfolding Verify.verification_failed
  verification_failed-Passes node a input found running at =
      decide_failure-Passes st keyed a.key a node _ found running at _ _
        ((cancel_session-Keeps st a.session).keep _ (new_builder-Holds _))

  -- In a state with well-keyed Nodes and Attempts, the end of a deterministic verification run is a
  -- fault or asks for lawful mutations only, with consecutively numbered events of the Workflow: the
  -- Attempt that it fails is the RUNNING one it names, and one that passed starts its review.
  pub verification_run-Passes :
      (input : EffectResultInput)
      → Passes st (is_lawful st) (Verify.decide_verification_run_ended st input)
  unfolding Verify.decide_verification_run_ended
  verification_run-Passes input = ok-Passes _ _ _ (λ a e.
      let (found, running) = running_attempt-shows st keyed input.attempt a e in
      need-Passes _ _ _ _
        (λ node at. then-Passes _ _ _ (verdict input.passed a node found running at)))
    where
      verdict :
          (t : Bool) (a : Attempt) (node : Node)
          → attempt_at st.attempts a.key ≡ some a
          → AttemptStatus.is_running a.status ≡ true
          → node_at st.nodes a.key.node ≡ some node
          → Passes st (is_lawful st) (elim t [
            | false ↦ Verify.verification_failed st node a input
            | true ↦ need (find_session st a.session) (invariant_fault "") >>= λ review.
                done (new_builder st ▸ Verify.start_review st node a review)
          ])
      verdict false a node found running at =
          verification_failed-Passes node a input found running at
      verdict true a node found running at = need-Passes _ _ _ _ (λ s _.
          done-Passes _ _ (chain-Holds _ _ _ (new_builder-Holds _) (start_review-Keeps node a s)))

  review_failed-Passes :
      (node : Node) (a : Attempt) (b : Builder)
      → attempt_at st.attempts a.key ≡ some a
      → AttemptStatus.is_running a.status ≡ true
      → node_at st.nodes a.key.node ≡ some node
      → Holds st (is_lawful st) b
      → Passes st (is_lawful st) (Verify.review_failed st node a b)
  unfolding Verify.review_failed
  review_failed-Passes node a b found running at h =
      decide_failure-Passes st keyed a.key a node _ found running at _ _ h

  -- In a state with well-keyed Nodes and Attempts under distinct keys, the end of an independent
  -- review is a fault or asks for lawful mutations only, with consecutively numbered events of the
  -- Workflow, whatever the verdict: no Attempt is settled but the RUNNING one of the Session.
  pub review_run-Passes :
      (codec : Codec) (input : EffectResultInput) (created : Session)
      → has_distinct_keys st.attempts ≡ true
      → Passes st (is_lawful st) (Verify.decide_review_run_ended codec st input created)
  unfolding Verify.decide_review_run_ended Chain.session_end all
  review_run-Passes codec input created distinct = then-Passes _ _ _ (
      need-Passes _ _ _ _ (λ a e.
        let (found, running) = attempt_by_session-shows st keyed created.id a distinct e in
        need-Passes _ _ _ _ (λ node at.
          let ended = chain-Holds _ _ _ (new_builder-Holds _) (free-Keeps st _ refl) in
          verdict-Passes _ (parse_review_verdict codec input.body) _ _ _
            (review_failed-Passes node a _ found running at ended)
            (review_failed-Passes node a _ found running at ended)
            (done-Passes _ _ (
              chain-Holds _ _ _ ended
                (settle_succeeded-Keeps st keyed a.key a node _ found running at [] refl))))))
