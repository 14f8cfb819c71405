-- ===== src/Store/Transact.antt =====
-- internal/store/store.go: what `transact` refuses before and after it applies a Decision in memory.
-- The database handle, the hydration of the state and the rows that are written are not modelled.
use cflow.Base.{ℕ, String, List, [], ◌∷◌, ◌==◌, ◌||◌, not, eqb}
use cflow.Base.Result.{Result, ok, ◌>>◌, ◌>>=◌, refuse, need}
use cflow.Model.Fault.{Fault, invalid_input, invariant_fault}
use cflow.Model.State.{State}
use cflow.Model.Valid.{validate_state}
use cflow.Model.Decision.{Decision, Mutation}
use cflow.Store.Apply.{apply_all}

-- The second loop over the mutations: the last Workflow row names the aggregate.
unfoldable pub effective_workflow : String → List Mutation → Result Fault String
effective_workflow bound [] = ok bound
effective_workflow bound (Mutation.workflow m ∷ ms) =
    refuse (m.id == "" || m.project == "") (invalid_input "workflow mutation without identity")
    >> effective_workflow m.id ms
effective_workflow bound (_ ∷ ms) = effective_workflow bound ms

-- `transact` on the hydrated state, up to the first row: `bound` is the identity the Store is bound
-- to. The texts of the errors that are formatted are left out.
unfoldable pub transact :
    String → ℕ → State → (State → Result Fault Decision) → Result Fault (Decision × State)
transact bound expected st fn = do
  refuse (not (eqb st.version expected)) (invalid_input "")
  d ← fn st
  new_state ← need (apply_all st d.mutations) (invariant_fault "")
  refuse (not (validate_state new_state)) (invariant_fault "")
  workflow ← effective_workflow bound d.mutations
  refuse (workflow == "")
      (invalid_input "decision on an empty aggregate must establish the workflow")
  refuse (new_state.workflow.project == "")
      (invalid_input "decision leaves the workflow without a project")
  ok (d, new_state)
