-- ===== src/Store/Edit.antt =====
-- The cases of applyMutation (internal/store/mutations.go) that look up a row and change it.
use cflow.Base.{
  ℕ, zero, suc, Bool, String, Option, none, some, List, [], ◌∷◌, ◌++◌, ◌==◌, modify, if◌then◌else◌,
}
use mathlib.Core.Option
use cflow.Model.ArtifactType
use cflow.Model.PlanStatus.{PlanStatus}
use cflow.Model.AttemptStatus
use cflow.Model.AttemptStatus.{AttemptStatus}
use cflow.Model.ArtifactType.{ArtifactType}
use cflow.Model.RunStatus.{RunStatus}
use cflow.Model.CleanupItemStatus.{CleanupItemStatus}
use cflow.Model.Code.{Code}
use cflow.Model.Evidence.{EvidenceRef}
use cflow.Model.RunStatus
use cflow.Model.CleanupItemStatus
use cflow.Model.Runtime.{
  AttemptKey, same_key, Node, Attempt, Run, Session, ProcessRecord, ApplyAttempt, CleanupItem,
  CleanupAttempt,
}
use cflow.Model.State.{State, Workflow, Plan, node_at, attempt_at}
use cflow.Model.Decision.{WorkflowMutation}

-- `case model.WorkflowMutation`: the execution facts survive.
unfoldable pub replace_workflow : WorkflowMutation → Workflow → Workflow
replace_workflow m w = record {
  id = m.id;
  project = m.project;
  name = m.name;
  stage = m.stage;
  runtime = m.runtime;
  target_branch = m.target_branch;
  base_commit = m.base_commit;
  integration_branch = m.integration_branch;
  integration_head = m.integration_head;
  layout_version = m.layout_version;
  workspace_path = m.workspace_path;
  workspace_branch = m.workspace_branch;
  candidate_workspace_head = m.candidate_workspace_head;
  verified_workspace_head = m.verified_workspace_head;
  workspace_dirty_fingerprint = m.workspace_dirty_fingerprint;
  execution_facts = w.execution_facts;
  cancel_intent = m.cancel_intent;
}

-- A new Plan keeps the review status of the old one.
unfoldable pub plan_status : Option Plan → PlanStatus
plan_status none = PlanStatus.undeclared ""
plan_status (some p) = p.status

unfoldable pub on_session : String → (Session → Session) → State → Option State
unfolding modify
on_session id f st =
    Option.map (λ (l : List Session). record st { sessions = l })
      (modify (λ (s : Session). s.id == id) f st.sessions)

unfoldable pub on_process : String → (ProcessRecord → ProcessRecord) → State → Option State
unfolding modify
on_process id f st =
    Option.map (λ (l : List ProcessRecord). record st { processes = l })
      (modify (λ (p : ProcessRecord). p.id == id) f st.processes)

unfoldable pub on_run : String → (Run → Run) → State → Option State
unfolding modify
on_run id f st =
    Option.map (λ (l : List Run). record st { runs = l })
      (modify (λ (r : Run). r.id == id) f st.runs)

unfoldable pub on_apply : String → (ApplyAttempt → ApplyAttempt) → State → Option State
unfolding modify
on_apply id f st =
    Option.map (λ (l : List ApplyAttempt). record st { apply_attempts = l })
      (modify (λ (a : ApplyAttempt). a.id == id) f st.apply_attempts)

unfoldable pub on_cleanup : String → (CleanupAttempt → CleanupAttempt) → State → Option State
unfolding modify
on_cleanup id f st =
    Option.map (λ (l : List CleanupAttempt). record st { cleanup_attempts = l })
      (modify (λ (c : CleanupAttempt). c.id == id) f st.cleanup_attempts)

unfoldable pub on_node :
    String → (Node → Node) → List (String × Node) → Option (List (String × Node))
unfolding modify
on_node id f = modify (λ (e : String × Node). e.0 == id) (λ (e : String × Node). (e.0, f e.1))

unfoldable pub on_attempt :
    AttemptKey
    → (Attempt → Attempt)
    → List (AttemptKey × Attempt)
    → Option (List (AttemptKey × Attempt))
unfolding modify
on_attempt key f =
    modify (λ (e : AttemptKey × Attempt). same_key e.0 key)
      (λ (e : AttemptKey × Attempt). (e.0, f e.1))

-- `item := &c.Items[m.Index]`; `none` where the index is out of range or the item is terminal.
unfoldable pub set_item :
    ℕ → CleanupItemStatus → Code → List CleanupItem → Option (List CleanupItem)
unfolding CleanupItemStatus.is_terminal
set_item index status code [] = none
set_item zero status code (item ∷ items) =
    if CleanupItemStatus.is_terminal item.status
    then none
    else some (record item { status = status; failure_code = code } ∷ items)
set_item (suc index) status code (item ∷ items) =
    Option.map (λ (l : List CleanupItem). item ∷ l) (set_item index status code items)

-- The status and the items of one Cleanup Attempt after an item's result.
unfoldable pub set_cleanup_item :
    String → ℕ → CleanupItemStatus → Code → List CleanupAttempt → Option (List CleanupAttempt)
unfolding set_item
set_cleanup_item id index status code [] = none
set_cleanup_item id index status code (c ∷ cs) =
    let rest =
      Option.map (λ (l : List CleanupAttempt). c ∷ l) (set_cleanup_item id index status code cs) in
    if c.id == id
    then Option.map (λ (l : List CleanupItem). record c { items = l } ∷ cs)
        (set_item index status code c.items)
    else rest

-- The `case model.ArtifactRefMutation`.
unfoldable pub apply_artifact_ref : State → ArtifactType → ℕ → String → Option State
unfolding plan_status ArtifactType.is_valid ArtifactType.is_plan
apply_artifact_ref st type revision hash =
    let plan : Plan = record {
      revision = revision;
      status = plan_status st.plan;
      artifact = record {
        workflow = st.workflow.id;
        type = type;
        revision = revision;
        hash = hash;
      };
      hash = hash;
    } in
    if ArtifactType.is_valid type
    then some (if ArtifactType.is_plan type then record st { plan = some plan } else st)
    else none

-- The `case model.AttemptEndMutation`, at the Attempt that the key leads to.
unfoldable pub end_attempt :
    AttemptStatus → String → String → Code → List EvidenceRef → Bool → ℕ → Attempt → Attempt
end_attempt status end_head fingerprint code evidence charged ended_at a = record a {
  status = status;
  end_head = end_head;
  end_dirty_fingerprint = fingerprint;
  failure_code = code;
  evidence = evidence;
  retry_charged = charged;
  ended_at = ended_at;
}

-- The `case model.RunMutation`, at the Run that the identity leads to.
unfoldable pub set_run : ℕ → RunStatus → Bool → Code → List AttemptKey → Run → Run
unfolding RunStatus.is_terminal
set_run now status gate reason snapshot r = record r {
  status = status;
  dispatch_gate = gate;
  stop_reason = reason;
  quiesce_snapshot = snapshot;
  ended_at = if RunStatus.is_terminal status then now else r.ended_at;
}

-- A map entry is added only under a new key.
unfoldable pub add_node : State → Node → Option State
unfolding node_at
add_node st n = elim (node_at st.nodes n.id) [
  | none ↦ some (record st { nodes = st.nodes ++ (n.id, n) ∷ [] })
  | some _ ↦ none
]

unfoldable pub add_attempt : State → Attempt → Option State
unfolding attempt_at
add_attempt st a = elim (attempt_at st.attempts a.key) [
  | none ↦ some (record st { attempts = st.attempts ++ (a.key, a) ∷ [] })
  | some _ ↦ none
]

-- A terminal Attempt is not reopened.
unfoldable pub close_attempt : State → AttemptKey → (Attempt → Attempt) → Option State
unfolding attempt_at on_attempt AttemptStatus.is_terminal
close_attempt st key f = elim (attempt_at st.attempts key) [
  | none ↦ none
  | some a ↦
      if AttemptStatus.is_terminal a.status
      then none
      else Option.map (λ (l : List (AttemptKey × Attempt)). record st { attempts = l })
          (on_attempt key f st.attempts)
]
