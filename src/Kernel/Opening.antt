-- ===== src/Kernel/Opening.antt =====
-- What the Workflow commands that open a Run, `decideStart` and `decideResume` of
-- internal/decision/workflow.go, ask of the Store.
use cflow.Base.{Bool, true, false, List, [], ◌∷◌, ◌++◌, map, keep}
use cflow.Model.RunStatus.{RunStatus}
use cflow.Model.RuntimeStatus.{RuntimeStatus}
use cflow.Model.Runtime.{Run}
use cflow.Model.State.{State}
use cflow.Model.Decision.{Decision, Mutation}
use cflow.Kernel.Facts.{is_active}
use cflow.Kernel.Builder.{Builder, new_run, wf_mut_status}
use cflow.Kernel.Control.{WorkflowCommandKind}

-- The end of a Run that another one supersedes: INTERRUPTED, with its gate closed.
unfoldable pub superseded : Run → Mutation
superseded r = Mutation.run r.id RunStatus.interrupted false r.stop_reason []

-- The mutations that open a Run: the Workflow goes RUNNING, every Run that has not ended is
-- superseded, and one Run is appended, RUNNING with its dispatch gate open.
unfoldable pub opening : State → List Mutation
opening st =
    Mutation.workflow (wf_mut_status st RuntimeStatus.running)
    ∷ (map superseded (keep is_active st.runs)
        ++ Mutation.run_append (new_run st RunStatus.running true) ∷ [])

-- The commands that open a Run.
unfoldable pub opens : WorkflowCommandKind → Bool
opens WorkflowCommandKind.start = true
opens WorkflowCommandKind.resume = true
opens _ = false
