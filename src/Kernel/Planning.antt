-- ===== src/Kernel/Planning.antt =====
-- The guards and the lineage that the planning commands of internal/decision/workflow.go share.
use cflow.Base.{
  Bool, true, false, String, Option, none, some, List, [], ◌∷◌, ◌==◌, ◌&&◌, ◌||◌, not, ◌&◌, ltb,
  if◌then◌else◌, any, decimal,
}
use cflow.Base.Result.{Result, ◌>>◌, refuse}
use cflow.Model.RuntimeStatus.{RuntimeStatus}
use cflow.Model.SessionStatus
use cflow.Model.SessionStatus.{SessionStatus}
use cflow.Model.AgentPurpose
use cflow.Model.AgentPurpose.{AgentPurpose}
use cflow.Model.ArtifactType
use cflow.Model.ArtifactType.{ArtifactType}
use cflow.Model.Artifact.{ArtifactRef}
use cflow.Model.Fault.{Fault, invalid_input}
use cflow.Model.Runtime.{ProcessRecord, Session}
use cflow.Model.State.{State}
use cflow.Model.Effect.{EffectIntent}
use cflow.Model.Decision.{EventKind, Mutation}
use cflow.Kernel.Builder.{Builder, ◌▸◌, mutate, note, effect, wf_mut_status}
use cflow.Kernel.SessionPick.{validate_fresh_session}
use cflow.Kernel.Chain.{fresh_session_row, record_session}
use cflow.Base.{len}
use cflow.Kernel.Control.{open_run}

-- The length in bytes.
unfoldable pub validate_provider : String → Result Fault Unit
validate_provider provider =
    refuse (provider == "" || ltb 128 (len provider))
      (invalid_input "provider is required and bounded")

unfoldable pub planning_runtime_allowed : RuntimeStatus → Bool
planning_runtime_allowed RuntimeStatus.pending = true
planning_runtime_allowed RuntimeStatus.running = true
planning_runtime_allowed RuntimeStatus.paused = true
planning_runtime_allowed _ = false

-- The Workflow may plan in one of its stages: the first three guards of each planning command, with
-- the command's texts for an absent Workflow and a wrong stage.
unfoldable pub may_plan : State → String → Bool → String → Result Fault Unit
may_plan st absent in_stage wrong_stage = do
  refuse (st.workflow.id == "") (invalid_input absent)
  refuse (not in_stage) (invalid_input wrong_stage)
  refuse (not (planning_runtime_allowed st.workflow.runtime)) (invalid_input "")

-- A Provider and a fresh Session for a planning run.
unfoldable pub may_start : State → String → String → Result Fault Unit
may_start st provider session = validate_provider provider >> validate_fresh_session st session

unfoldable pub opened_run : State → EventKind → String → Builder → Builder
opened_run st kind text b =
    b ▸ open_run st ▸ note EventKind.run_started "run started" ▸ note kind text

-- The switch of `startIfNeeded`.
unfoldable pub start_from : State → RuntimeStatus → Builder → Builder
start_from st RuntimeStatus.pending b =
    b
    ▸ mutate (Mutation.workflow (wf_mut_status st RuntimeStatus.running))
    ▸ opened_run st EventKind.workflow_started "workflow started"
start_from st RuntimeStatus.paused b =
    b
    ▸ mutate (Mutation.workflow (wf_mut_status st RuntimeStatus.running))
    ▸ opened_run st EventKind.workflow_resumed "workflow resumed"
start_from st _ b = b

unfoldable pub start_if_needed : State → Builder → Builder
start_if_needed st = start_from st st.workflow.runtime

-- The loop from the last Session on.
unfoldable pub latest_planning : List Session → Option Session
latest_planning [] = none
latest_planning (s ∷ ss) = elim (latest_planning ss) [
  | some later ↦ some later
  | none ↦ if AgentPurpose.is_planning s.purpose then some s else none
]

unfoldable pub latest_planning_session : State → Option Session
latest_planning_session st = latest_planning st.sessions

unfoldable pub supersedes_of : Option Session → String
supersedes_of none = ""
supersedes_of (some s) = s.id

unfoldable pub provider_session_of : Option Session → String
provider_session_of none = ""
provider_session_of (some s) = s.provider_session_id

unfoldable pub session_has_managed_process : State → String → Bool
session_has_managed_process st id = any (λ (p : ProcessRecord). p.session == id) st.processes

-- A bound planning Session that is open, or that had a managed process.
unfoldable pub is_native : State → Session → Bool
is_native st s =
    AgentPurpose.is_planning s.purpose
    && (not (s.provider_session_id == "")
        && (not (SessionStatus.is_terminal s.status) || session_has_managed_process st s.id))

unfoldable pub has_native_discussion_lineage : State → Bool
has_native_discussion_lineage st = any (is_native st) st.sessions

-- A fresh planning Session that supersedes the latest one.
unfoldable pub append_planner : State → String → String → Builder → Builder
append_planner st id provider b =
    let row = fresh_session_row id AgentPurpose.planning in
    let parent = latest_planning_session st in
    b ▸ mutate (Mutation.session_append (record row { supersedes = supersedes_of parent }) provider)

-- Start a planning run that continues the latest planning Session.
unfoldable pub start_planner : State → String → String → Builder → Builder
start_planner st id provider b =
    b
    ▸ append_planner st id provider
    ▸ effect (
        EffectIntent.provider_start id AgentPurpose.planning provider
          (provider_session_of (latest_planning_session st)) "" "")

-- Start a run of a purpose with no lineage.
unfoldable pub start_fresh : String → AgentPurpose → String → Builder → Builder
start_fresh id purpose provider b =
    b
    ▸ record_session id purpose provider
    ▸ effect (EffectIntent.provider_start id purpose provider "" "" "")

-- `artifactRefPath` of planning.go.
unfoldable pub artifact_ref_path : ArtifactRef → String
artifact_ref_path ref = ArtifactType.spell ref.type & "/" & decimal ref.revision & "/" & ref.hash

-- Record a reference at its store path.
unfoldable pub record_artifact : ArtifactRef → Builder → Builder
record_artifact ref b =
    b ▸ mutate (Mutation.artifact_ref ref.type ref.revision (artifact_ref_path ref) ref.hash)
