-- ===== src/Model.antt =====
-- Package internal/model: the data of the Workflow aggregate. A file stands for each Go string
-- type with constants, and for each family of records.
pub mod RuntimeStatus
pub mod WorkflowStage
pub mod PlanStatus
pub mod NodeStatus
pub mod AttemptStatus
pub mod RunStatus
pub mod SessionStatus
pub mod NodeKind
pub mod ProcessStatus
pub mod AgentPurpose
pub mod ArtifactType
pub mod ApplyStatus
pub mod CleanupStatus
pub mod CleanupItemStatus
pub mod EvidenceKind
pub mod ApprovalKind
pub mod AttemptOutcome
pub mod Code
pub mod FaultCategory
pub mod FaultScope
pub mod StopScope
pub mod Evidence
pub mod Artifact
pub mod Runtime
pub mod State
pub mod Effect
pub mod Decision
pub mod Valid
pub mod Fault
pub mod Machines
pub mod Texts
pub mod Policies
