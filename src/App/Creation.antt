-- ===== src/App/Creation.antt =====
-- What the commit of an input leaves behind: a creation, and every other input.
use cflow.Base.{Bool, true, false, ℕ, String, ◌≡◌, refl, sym, ap, ◌∙◌, ◌==◌, ◌||◌}
use cflow.Base.Result.{Result, ok, ◌>>=◌}
use cflow.Model.WorkflowStage.{WorkflowStage}
use cflow.Model.RuntimeStatus.{RuntimeStatus}
use cflow.Model.Fault.{Fault}
use cflow.Model.State.{State}
use cflow.Model.Decision.{Decision}
use cflow.Store.Edit.{replace_workflow}
use cflow.Kernel.Admit.{bind-ok}
use cflow.Kernel.Codec.{Codec}
use cflow.Kernel.Control.{WorkflowCommandInput, created}
use cflow.Kernel.Decide.{Input, decide}
use cflow.Kernel.Lawful.Settle.{IsKeyed}
use cflow.Kernel.Lawful.Found.{has_distinct_keys}
use cflow.Kernel.Lawful.Committed.{IsCommitted, transact-commits}
use cflow.App.{complete_create_identity, commit_input, is_create, named}

-- The aggregate that a creation makes: the named row, and all else as it was.
unfoldable pub born : State → WorkflowCommandInput → State
born st input = record st {
  workflow = replace_workflow (named input (created st input)) st.workflow;
}

-- The Workflow was absent; it has the identity, Project, Target Branch and Base Commit of the command,
-- none of them empty, and is PENDING in the first stage; the rest of the aggregate is as it was.
pub record IsCreated (st : State) (input : WorkflowCommandInput) (s' : State) : Type 0 where
  pub was_absent : (st.workflow.id == "") ≡ true
  pub is_named :
      (input.workflow == ""
        || input.project == ""
        || input.target_branch == ""
        || input.base_commit == "")
      ≡ false
  pub id : s'.workflow.id ≡ input.workflow
  pub project : s'.workflow.project ≡ input.project
  pub target_branch : s'.workflow.target_branch ≡ input.target_branch
  pub base_commit : s'.workflow.base_commit ≡ input.base_commit
  pub stage : s'.workflow.stage ≡ WorkflowStage.requirement_discussion
  pub runtime : s'.workflow.runtime ≡ RuntimeStatus.pending
  pub rest : record s' { workflow = st.workflow } ≡ st

-- The input is the command to create a Workflow.
unfoldable pub creates : Input → Bool
creates (Input.workflow_command i) = is_create i.kind
creates _ = false

complete-same :
    (input : Input) (d : Decision) → creates input ≡ false → complete_create_identity input d ≡ d
unfolding complete_create_identity creates
complete-same (Input.workflow_command i) d n = rw n refl
complete-same _ d n = refl

completed-decides :
    (r : Result Fault Decision) (input : Input) (c : Decision)
    → creates input ≡ false
    → (r >>= λ d. ok (complete_create_identity input d)) ≡ ok c
    → r ≡ ok c
completed-decides r input c n h =
    let (d, (e, h1)) = bind-ok _ _ c h in e ∙ ap ok (sym (complete-same input d n)) ∙ h1

-- In a state with well-keyed Nodes and Attempts under distinct keys, where a RUNNING Attempt is its
-- Node's last, an input other than a creation that the Application commits leaves a valid state whose
-- Workflow has the identity, Project, Target Branch and Base Commit it had, the Project not empty.
pub commit-keeps :
    (codec : Codec) (bound : String) (expected : ℕ) (st : State) (input : Input) (d : Decision)
    (s' : State)
    → IsKeyed st
    → has_distinct_keys st.attempts ≡ true
    → creates input ≡ false
    → commit_input codec bound expected st input ≡ ok (d, s')
    → IsCommitted st s'
unfolding commit_input
commit-keeps codec bound expected st input d s' keyed distinct n =
    transact-commits codec bound expected st input d s' _ keyed distinct
      (λ c. completed-decides (decide codec st input) input c n)
