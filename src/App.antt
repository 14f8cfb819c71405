-- ===== src/App.antt =====
-- internal/app/application.go: the Decision of one turn of the Application, which fills the identity
-- of a created Workflow into it, inside the transaction of the Store.
use cflow.Base.{Bool, true, false, ℕ, String, map, ◌==◌, ◌&&◌, not, if◌then◌else◌}
use cflow.Base.Result.{Result, ok, ◌>>=◌}
use cflow.Model.Fault.{Fault}
use cflow.Model.State.{State}
use cflow.Model.Decision.{Decision, Event, Mutation, WorkflowMutation}
use cflow.Store.Transact.{transact}
use cflow.Kernel.Codec.{Codec}
use cflow.Kernel.Control.{WorkflowCommandInput, WorkflowCommandKind}
use cflow.Kernel.Decide.{Input, decide}
pub mod Creation

unfoldable pub is_create : WorkflowCommandKind → Bool
is_create WorkflowCommandKind.create = true
is_create _ = false

-- The row of the Workflow under the identity of the command.
unfoldable pub named : WorkflowCommandInput → WorkflowMutation → WorkflowMutation
named input m = record m {
  id = input.workflow;
  project = input.project;
  target_branch = input.target_branch;
  base_commit = input.base_commit;
}

-- The body of the first loop.
unfoldable pub name_mutation : WorkflowCommandInput → Mutation → Mutation
name_mutation input (Mutation.workflow m) = Mutation.workflow (named input m)
name_mutation input m = m

unfoldable pub complete_create_identity : Input → Decision → Decision
complete_create_identity (Input.workflow_command input) d =
    if is_create input.kind && not (input.workflow == "")
    then record d {
      mutations = map (name_mutation input) d.mutations;
      events = map (λ (e : Event). record e { workflow = input.workflow }) d.events;
    }
    else d
complete_create_identity _ d = d

-- The function that the Application gives to the transaction, and the transaction over it.
unfoldable pub commit_input : Codec → String → ℕ → State → Input → Result Fault (Decision × State)
commit_input codec bound expected st input =
    transact bound expected st
      (λ s. do d ← decide codec s input; ok (complete_create_identity input d))
