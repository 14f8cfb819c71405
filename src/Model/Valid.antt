-- ===== src/Model/Valid.antt =====
-- `ValidateState` of internal/model/state.go. A loop over a Go map has no order, so the text of the
-- error that names the first bad entry is left out: the error is `none`, nil is `some`.
use cflow.Base.{
  Bool, true, false, String, Option, none, some, ◌==◌, ◌&&◌, ◌||◌, ◌≡◌, refl, arith, not, leb, all,
  if◌then◌else◌,
}
use cflow.Model.WorkflowStage
use cflow.Model.RuntimeStatus
use cflow.Model.RuntimeStatus.{RuntimeStatus}
use cflow.Model.NodeStatus
use cflow.Model.AttemptStatus
use cflow.Model.RunStatus
use cflow.Model.Runtime.{AttemptKey, same_key, Node, Attempt, Run, Quarantine}
use cflow.Model.State.{State, Workflow, node_at}

is_none {ℓ} : {A : Type ℓ} → Option A → Bool
is_none none = true
is_none (some a) = false

-- The test of one Node of the map.
node_is_valid : String × Node → Bool
unfolding NodeStatus.is_valid
node_is_valid (k, n) = NodeStatus.is_valid n.status && leb n.retry_charged n.retry_budget

-- The test of one Attempt of the map, in the order of the code.
attempt_is_valid : State → AttemptKey × Attempt → Bool
unfolding AttemptStatus.is_valid same_key node_at is_none
attempt_is_valid st (key, a) =
    same_key a.key key
    && (leb 1 key.number
        && (not (is_none (node_at st.nodes key.node)) && AttemptStatus.is_valid a.status))

-- The tests of the Workflow row once its identity is set.
workflow_is_valid : Workflow → Bool
unfolding WorkflowStage.is_valid RuntimeStatus.is_valid WorkflowStage.valid_with_runtime
    RuntimeStatus.is_cancelled is_none
workflow_is_valid w =
    WorkflowStage.is_valid w.stage
    && (RuntimeStatus.is_valid w.runtime
        && (WorkflowStage.valid_with_runtime w.stage w.runtime
            && not (RuntimeStatus.is_cancelled w.runtime && is_none w.cancel_intent)))

-- The zero Workflow: absent, with neither stage nor status.
workflow_is_absent : Workflow → Bool
unfolding WorkflowStage.spell RuntimeStatus.spell
workflow_is_absent w = WorkflowStage.spell w.stage == "" && RuntimeStatus.spell w.runtime == ""

unfoldable pub validate_state : State → Bool
unfolding all workflow_is_absent workflow_is_valid node_is_valid attempt_is_valid RunStatus.is_valid
validate_state st =
    if st.workflow.id == ""
    then workflow_is_absent st.workflow
    else workflow_is_valid st.workflow
      && (all node_is_valid st.nodes
          && (all (attempt_is_valid st) st.attempts
              && (all (λ (r : Run). RunStatus.is_valid r.status) st.runs
                  && all (λ (q : Quarantine). not (q.branch == "")) st.quarantines)))

absent-live :
    (rt : RuntimeStatus)
    → (RuntimeStatus.spell rt == "") ≡ true
    → RuntimeStatus.is_cancelled rt ≡ false
unfolding RuntimeStatus.spell RuntimeStatus.is_cancelled
absent-live RuntimeStatus.pending h = refl
absent-live RuntimeStatus.running h = refl
absent-live RuntimeStatus.paused h = refl
absent-live RuntimeStatus.blocked h = refl
absent-live RuntimeStatus.failed h = refl
absent-live RuntimeStatus.succeeded h = refl
absent-live RuntimeStatus.cancelled h = cc
absent-live (RuntimeStatus.undeclared _) h = refl

-- The Workflow of a valid state is CANCELLED only with its intent.
pub valid-is_intended :
    (st : State)
    → validate_state st ≡ true
    → (not (RuntimeStatus.is_cancelled st.workflow.runtime)
        || elim st.workflow.cancel_intent [ none ↦ false | some _ ↦ true ])
      ≡ true
unfolding validate_state workflow_is_absent workflow_is_valid is_none
valid-is_intended st h = ground (arith, h, absent-live st.workflow.runtime)
