-- ===== src/Kernel/Lawful/Adopt.antt =====
-- The adoption of the aggregated Workspace asks for lawful mutations only.
use cflow.Base.{true, false, ◌≡◌, refl, String, ◌==◌, Bool}
use cflow.Base.Result.{◌>>◌, refuse}
use cflow.Model.RuntimeStatus
use cflow.Model.RuntimeStatus.{RuntimeStatus}
use cflow.Model.Code.{Code}
use cflow.Model.Fault.{invalid_input}
use cflow.Model.State.{State}
use cflow.Model.Runtime.{Session}
use cflow.Model.Decision.{Mutation}
use cflow.Kernel.Codec.{Codec}
use cflow.Kernel.Input.{EffectResultInput}
use cflow.Kernel.Builder.{◌▸◌, new_builder, done, wf_mut}
use cflow.Kernel.Chain
use cflow.Kernel.Lawful.Rules.{
  Keeps, Passes, is_lawful, result_rules, if-Holds, Option-Passes, chain-Holds, new_builder-Holds,
  need-Passes, done-Passes,
}
use cflow.Kernel.Lawful.Settle.{wf_mut_status-lawful}
use cflow.Kernel.Lawful.Free.{free_rules, is_intended, row-lawful, then-Passes}
use cflow.Kernel.SessionPick.{validate_fresh_session}
use cflow.Kernel.Adopt
use cflow.Kernel.Adopt.{AdoptWorkspaceInput}
use cflow.Kernel.Merge
use cflow.Kernel.Lawful.Chain.{record_session-Keeps}

module _ (st : State) where
  adoption_failure-Keeps :
      (s : Session) (c : Code) → Keeps st (is_lawful st) (Adopt.adoption_failure st s c)
  unfolding Adopt.adoption_failure RuntimeStatus.is_cancelled
  adoption_failure-Keeps s c = record {
    keep = λ b h. search (free_rules, wf_mut_status-lawful) depth 14;
  }

module _ (st : State) (intended : is_intended st ≡ true) where
  candidate-lawful :
      (head fingerprint : String)
      → is_lawful st (Mutation.workflow (Adopt.candidate_row st head fingerprint)) ≡ true
  unfolding Adopt.candidate_row Merge.same_row wf_mut
  candidate-lawful head fingerprint = row-lawful st _ intended refl refl refl refl refl refl

  start_adoption-Keeps :
      (input : AdoptWorkspaceInput) → Keeps st (is_lawful st) (Adopt.start_adoption st input)
  unfolding Adopt.start_adoption
  start_adoption-Keeps input = record {
    keep = λ b h. search (free_rules, candidate-lawful, record_session-Keeps) depth 14;
  }

  start_adoption_review-Keeps :
      (input : AdoptWorkspaceInput) → Keeps st (is_lawful st) (Adopt.start_adoption_review st input)
  unfolding Adopt.start_adoption_review
  start_adoption_review-Keeps input = record {
    keep = λ b h. search (free_rules, candidate-lawful, record_session-Keeps) depth 14;
  }

  started-Passes :
      (input : AdoptWorkspaceInput) (t : Bool)
      → Passes st (is_lawful st) (elim t [
        | true ↦ done (new_builder st ▸ Adopt.start_adoption_review st input)
        | false ↦
            validate_fresh_session st input.adoption_session
            >> (refuse
                  (input.adoption_route == "")
                  (invalid_input "workspace adoption requires the approved adoption route")
                >> done (new_builder st ▸ Adopt.start_adoption st input))
      ])
  started-Passes input true =
      done-Passes _ _ (chain-Holds _ _ _ (new_builder-Holds _) (start_adoption_review-Keeps input))
  started-Passes input false = then-Passes _ _ _ (
      then-Passes _ _ _
        (done-Passes _ _ (chain-Holds _ _ _ (new_builder-Holds _) (start_adoption-Keeps input))))

  -- In a state whose CANCELLED Workflow has its intent, the adoption of the Workspace is a fault or
  -- asks for lawful mutations only, with consecutively numbered events of the Workflow.
  pub adopt-Passes :
      (input : AdoptWorkspaceInput)
      → Passes st (is_lawful st) (Adopt.decide_adopt_workspace st input)
  unfolding Adopt.decide_adopt_workspace
  adopt-Passes input = then-Passes _ _ _ (
      then-Passes _ _ _ (
        then-Passes _ _ _ (
          then-Passes _ _ _ (
            then-Passes _ _ _ (
              need-Passes _ _ _ _ (λ facts e. then-Passes _ _ _ (
                then-Passes _ _ _ (
                  then-Passes _ _ _ (
                    then-Passes _ _ _ (
                      then-Passes _ _ _
                        (started-Passes input (input.adoption_session == ""))))))))))))

  advance_change_set-Keeps :
      (input : EffectResultInput) → Keeps st (is_lawful st) (Adopt.advance_change_set input)
  unfolding Adopt.advance_change_set
  advance_change_set-Keeps input = record {
    keep = λ b h.
        if-Holds _ (input.artifact.hash == "") _ _ (λ _. h) (λ _. search (free_rules) depth 8);
  }

  adopted_candidate-Keeps :
      (input : EffectResultInput) (s r : Session)
      → Keeps st (is_lawful st) (Adopt.adopted_candidate st input s r)
  unfolding Adopt.adopted_candidate Chain.session_end
  adopted_candidate-Keeps input s r = record {
    keep = λ b h. search (free_rules, candidate-lawful, advance_change_set-Keeps) depth 14;
  }

  pub adoption_coding-Passes :
      (codec : Codec) (input : EffectResultInput) (s : Session)
      → Passes st (is_lawful st) (Adopt.decide_adoption_coding_run_ended codec st input s)
  unfolding Adopt.decide_adoption_coding_run_ended Chain.session_end
  adoption_coding-Passes codec input s = then-Passes _ _ _ (
      Option-Passes _ (Adopt.adoption_fault codec st input) _ _
        (λ _. need-Passes _ _ _ _ (λ r e.
          done-Passes _ _
            (chain-Holds _ _ _ (new_builder-Holds _) (adopted_candidate-Keeps input s r))))
        (λ c _. search (result_rules, free_rules, adoption_failure-Keeps) depth 12))

  adopted-lawful :
      (input : EffectResultInput)
      → is_lawful st (Mutation.workflow (Adopt.adopted_row st input)) ≡ true
  unfolding Adopt.adopted_row Merge.same_row wf_mut
  adopted-lawful input = row-lawful st _ intended refl refl refl refl refl refl

  pub adoption_review-Passes :
      (codec : Codec) (input : EffectResultInput) (s : Session)
      → Passes st (is_lawful st) (Adopt.decide_adoption_review_run_ended codec st input s)
  unfolding Adopt.decide_adoption_review_run_ended Chain.session_end
  adoption_review-Passes codec input s = then-Passes _ _ _ (
      Option-Passes _ (Adopt.adoption_review_fault codec input) _ _
        (λ _. search (result_rules, free_rules, adopted-lawful) depth 12)
        (λ c _. search (result_rules, free_rules, adoption_failure-Keeps) depth 12))
