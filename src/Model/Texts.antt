-- ===== src/Model/Texts.antt =====
-- The texts under which the Store keeps a status: spelling and parsing are inverse to each other.
use cflow.Base.{
  Bool, true, String, Option, none, some, List, [], ◌∷◌, ◌≡◌, refl, read_as, arith, eq_iff,
  if◌then◌else◌, any, is_some, ◌==◌,
}
use cflow.Model.RuntimeStatus
use cflow.Model.RuntimeStatus.{RuntimeStatus}
use cflow.Model.NodeStatus
use cflow.Model.NodeStatus.{NodeStatus}
use cflow.Model.AttemptStatus
use cflow.Model.AttemptStatus.{AttemptStatus}
use cflow.Model.RunStatus
use cflow.Model.RunStatus.{RunStatus}
use cflow.Model.SessionStatus
use cflow.Model.SessionStatus.{SessionStatus}
use cflow.Model.PlanStatus
use cflow.Model.PlanStatus.{PlanStatus}
use cflow.Model.WorkflowStage
use cflow.Model.WorkflowStage.{WorkflowStage}

-- A declared value is read back from its text, a text that is read is exactly that of the value, and
-- the texts that are read are the ones of the list, no more and no fewer.
pub record IsRoundTrip {S : Type 0} (is_valid : S → Bool) (spell : S → String)
    (parse : String → Option S) (texts : List String) : Type 0 where
  pub back : (v : S) → is_valid v ≡ true → parse (spell v) ≡ some v
  pub exact : (s : String) (v : S) → parse s ≡ some v → spell v ≡ s
  pub accepts : (s : String) → is_some (parse s) ≡ any (λ (t : String). t == s) texts

read_as-spell :
    {A : Type 0} (spell : A → String) (other : String → A) (vs : List A) (s : String)
    → spell (other s) ≡ s
    → spell (read_as spell other vs s) ≡ s
unfolding read_as
read_as-spell spell other [] s h = h
read_as-spell spell other (v ∷ vs) s h =
    ground (arith, h, (eq_iff (spell v) s).0, read_as-spell spell other vs s h)

parsed-exact :
    {A : Type 0} (is_valid : A → Bool) (spell : A → String) (w v : A) (s : String)
    → spell w ≡ s
    → (if is_valid w then some w else none) ≡ some v
    → spell v ≡ s
parsed-exact is_valid spell w v s e h = ground (arith, e, h)

runtime_status-back :
    (v : RuntimeStatus)
    → RuntimeStatus.is_valid v ≡ true
    → RuntimeStatus.parse (RuntimeStatus.spell v) ≡ some v
unfolding RuntimeStatus.is_valid RuntimeStatus.parse RuntimeStatus.of_string RuntimeStatus.declared
    RuntimeStatus.spell read_as
runtime_status-back RuntimeStatus.pending h = refl
runtime_status-back RuntimeStatus.running h = refl
runtime_status-back RuntimeStatus.paused h = refl
runtime_status-back RuntimeStatus.blocked h = refl
runtime_status-back RuntimeStatus.failed h = refl
runtime_status-back RuntimeStatus.succeeded h = refl
runtime_status-back RuntimeStatus.cancelled h = refl
runtime_status-back (RuntimeStatus.undeclared x) h = ground arith

runtime_status-exact :
    (s : String) (v : RuntimeStatus) → RuntimeStatus.parse s ≡ some v → RuntimeStatus.spell v ≡ s
unfolding RuntimeStatus.parse RuntimeStatus.of_string RuntimeStatus.spell
runtime_status-exact s v h =
    parsed-exact RuntimeStatus.is_valid RuntimeStatus.spell _ v s
      (read_as-spell RuntimeStatus.spell RuntimeStatus.undeclared RuntimeStatus.declared s refl) h

runtime_status-accepts :
    (s : String)
    → is_some (RuntimeStatus.parse s)
      ≡ any
          (λ (t : String). t == s)
          ("PENDING" ∷ "RUNNING" ∷ "PAUSED" ∷ "BLOCKED" ∷ "FAILED" ∷ "SUCCEEDED" ∷ "CANCELLED" ∷ [])
unfolding RuntimeStatus.is_valid RuntimeStatus.parse RuntimeStatus.of_string RuntimeStatus.declared
    RuntimeStatus.spell read_as any is_some
runtime_status-accepts s = ground arith

-- Every declared value of the runtime status is read back from its text, a text that is read is exactly that
-- of the value, and the texts that are read are these 7 and no other.
pub runtime_status-IsRoundTrip :
    IsRoundTrip RuntimeStatus.is_valid RuntimeStatus.spell RuntimeStatus.parse
      ("PENDING" ∷ "RUNNING" ∷ "PAUSED" ∷ "BLOCKED" ∷ "FAILED" ∷ "SUCCEEDED" ∷ "CANCELLED" ∷ [])
runtime_status-IsRoundTrip = record {
  back = runtime_status-back;
  exact = runtime_status-exact;
  accepts = runtime_status-accepts;
}

node_status-back :
    (v : NodeStatus) → NodeStatus.is_valid v ≡ true → NodeStatus.parse (NodeStatus.spell v) ≡ some v
unfolding NodeStatus.is_valid NodeStatus.parse NodeStatus.of_string NodeStatus.declared
    NodeStatus.spell read_as
node_status-back NodeStatus.pending h = refl
node_status-back NodeStatus.ready h = refl
node_status-back NodeStatus.running h = refl
node_status-back NodeStatus.succeeded h = refl
node_status-back NodeStatus.failed h = refl
node_status-back NodeStatus.cancelled h = refl
node_status-back NodeStatus.skipped h = refl
node_status-back (NodeStatus.undeclared x) h = ground arith

node_status-exact :
    (s : String) (v : NodeStatus) → NodeStatus.parse s ≡ some v → NodeStatus.spell v ≡ s
unfolding NodeStatus.parse NodeStatus.of_string NodeStatus.spell
node_status-exact s v h =
    parsed-exact NodeStatus.is_valid NodeStatus.spell _ v s
      (read_as-spell NodeStatus.spell NodeStatus.undeclared NodeStatus.declared s refl) h

node_status-accepts :
    (s : String)
    → is_some (NodeStatus.parse s)
      ≡ any
          (λ (t : String). t == s)
          ("PENDING" ∷ "READY" ∷ "RUNNING" ∷ "SUCCEEDED" ∷ "FAILED" ∷ "CANCELLED" ∷ "SKIPPED" ∷ [])
unfolding NodeStatus.is_valid NodeStatus.parse NodeStatus.of_string NodeStatus.declared
    NodeStatus.spell read_as any is_some
node_status-accepts s = ground arith

-- Every declared value of the node status is read back from its text, a text that is read is exactly that
-- of the value, and the texts that are read are these 7 and no other.
pub node_status-IsRoundTrip :
    IsRoundTrip NodeStatus.is_valid NodeStatus.spell NodeStatus.parse
      ("PENDING" ∷ "READY" ∷ "RUNNING" ∷ "SUCCEEDED" ∷ "FAILED" ∷ "CANCELLED" ∷ "SKIPPED" ∷ [])
node_status-IsRoundTrip = record {
  back = node_status-back;
  exact = node_status-exact;
  accepts = node_status-accepts;
}

attempt_status-back :
    (v : AttemptStatus)
    → AttemptStatus.is_valid v ≡ true
    → AttemptStatus.parse (AttemptStatus.spell v) ≡ some v
unfolding AttemptStatus.is_valid AttemptStatus.parse AttemptStatus.of_string AttemptStatus.declared
    AttemptStatus.spell read_as
attempt_status-back AttemptStatus.ready h = refl
attempt_status-back AttemptStatus.running h = refl
attempt_status-back AttemptStatus.succeeded h = refl
attempt_status-back AttemptStatus.failed h = refl
attempt_status-back AttemptStatus.interrupted h = refl
attempt_status-back AttemptStatus.cancelled h = refl
attempt_status-back (AttemptStatus.undeclared x) h = ground arith

attempt_status-exact :
    (s : String) (v : AttemptStatus) → AttemptStatus.parse s ≡ some v → AttemptStatus.spell v ≡ s
unfolding AttemptStatus.parse AttemptStatus.of_string AttemptStatus.spell
attempt_status-exact s v h =
    parsed-exact AttemptStatus.is_valid AttemptStatus.spell _ v s
      (read_as-spell AttemptStatus.spell AttemptStatus.undeclared AttemptStatus.declared s refl) h

attempt_status-accepts :
    (s : String)
    → is_some (AttemptStatus.parse s)
      ≡ any
          (λ (t : String). t == s)
          ("READY" ∷ "RUNNING" ∷ "SUCCEEDED" ∷ "FAILED" ∷ "INTERRUPTED" ∷ "CANCELLED" ∷ [])
unfolding AttemptStatus.is_valid AttemptStatus.parse AttemptStatus.of_string AttemptStatus.declared
    AttemptStatus.spell read_as any is_some
attempt_status-accepts s = ground arith

-- Every declared value of the attempt status is read back from its text, a text that is read is exactly that
-- of the value, and the texts that are read are these 6 and no other.
pub attempt_status-IsRoundTrip :
    IsRoundTrip AttemptStatus.is_valid AttemptStatus.spell AttemptStatus.parse
      ("READY" ∷ "RUNNING" ∷ "SUCCEEDED" ∷ "FAILED" ∷ "INTERRUPTED" ∷ "CANCELLED" ∷ [])
attempt_status-IsRoundTrip = record {
  back = attempt_status-back;
  exact = attempt_status-exact;
  accepts = attempt_status-accepts;
}

run_status-back :
    (v : RunStatus) → RunStatus.is_valid v ≡ true → RunStatus.parse (RunStatus.spell v) ≡ some v
unfolding RunStatus.is_valid RunStatus.parse RunStatus.of_string RunStatus.declared RunStatus.spell
    read_as
run_status-back RunStatus.starting h = refl
run_status-back RunStatus.running h = refl
run_status-back RunStatus.quiescing h = refl
run_status-back RunStatus.stopping h = refl
run_status-back RunStatus.interrupted h = refl
run_status-back RunStatus.blocked h = refl
run_status-back RunStatus.succeeded h = refl
run_status-back RunStatus.failed h = refl
run_status-back RunStatus.cancelled h = refl
run_status-back (RunStatus.undeclared x) h = ground arith

run_status-exact : (s : String) (v : RunStatus) → RunStatus.parse s ≡ some v → RunStatus.spell v ≡ s
unfolding RunStatus.parse RunStatus.of_string RunStatus.spell
run_status-exact s v h =
    parsed-exact RunStatus.is_valid RunStatus.spell _ v s
      (read_as-spell RunStatus.spell RunStatus.undeclared RunStatus.declared s refl) h

run_status-accepts :
    (s : String)
    → is_some (RunStatus.parse s)
      ≡ any
          (λ (t : String). t == s)
          ("STARTING" ∷ "RUNNING" ∷ "QUIESCING" ∷ "STOPPING" ∷ "INTERRUPTED" ∷ "BLOCKED"
            ∷ "SUCCEEDED" ∷ "FAILED" ∷ "CANCELLED" ∷ [])
unfolding RunStatus.is_valid RunStatus.parse RunStatus.of_string RunStatus.declared RunStatus.spell
    read_as any is_some
run_status-accepts s = ground arith

-- Every declared value of the run status is read back from its text, a text that is read is exactly that
-- of the value, and the texts that are read are these 9 and no other.
pub run_status-IsRoundTrip : IsRoundTrip RunStatus.is_valid RunStatus.spell RunStatus.parse (
    "STARTING" ∷ "RUNNING" ∷ "QUIESCING" ∷ "STOPPING" ∷ "INTERRUPTED" ∷ "BLOCKED" ∷ "SUCCEEDED"
    ∷ "FAILED" ∷ "CANCELLED" ∷ [])
run_status-IsRoundTrip = record {
  back = run_status-back;
  exact = run_status-exact;
  accepts = run_status-accepts;
}

session_status-back :
    (v : SessionStatus)
    → SessionStatus.is_valid v ≡ true
    → SessionStatus.parse (SessionStatus.spell v) ≡ some v
unfolding SessionStatus.is_valid SessionStatus.parse SessionStatus.of_string SessionStatus.declared
    SessionStatus.spell read_as
session_status-back SessionStatus.starting h = refl
session_status-back SessionStatus.active h = refl
session_status-back SessionStatus.interrupted h = refl
session_status-back SessionStatus.paused h = refl
session_status-back SessionStatus.interactive_idle h = refl
session_status-back SessionStatus.completed h = refl
session_status-back SessionStatus.failed h = refl
session_status-back SessionStatus.cancelled h = refl
session_status-back SessionStatus.lost h = refl
session_status-back (SessionStatus.undeclared x) h = ground arith

session_status-exact :
    (s : String) (v : SessionStatus) → SessionStatus.parse s ≡ some v → SessionStatus.spell v ≡ s
unfolding SessionStatus.parse SessionStatus.of_string SessionStatus.spell
session_status-exact s v h =
    parsed-exact SessionStatus.is_valid SessionStatus.spell _ v s
      (read_as-spell SessionStatus.spell SessionStatus.undeclared SessionStatus.declared s refl) h

session_status-accepts :
    (s : String)
    → is_some (SessionStatus.parse s)
      ≡ any
          (λ (t : String). t == s)
          ("STARTING" ∷ "ACTIVE" ∷ "INTERRUPTED" ∷ "PAUSED" ∷ "INTERACTIVE_IDLE" ∷ "COMPLETED"
            ∷ "FAILED" ∷ "CANCELLED" ∷ "LOST" ∷ [])
unfolding SessionStatus.is_valid SessionStatus.parse SessionStatus.of_string SessionStatus.declared
    SessionStatus.spell read_as any is_some
session_status-accepts s = ground arith

-- Every declared value of the session status is read back from its text, a text that is read is exactly that
-- of the value, and the texts that are read are these 9 and no other.
pub session_status-IsRoundTrip :
    IsRoundTrip SessionStatus.is_valid SessionStatus.spell SessionStatus.parse (
      "STARTING" ∷ "ACTIVE" ∷ "INTERRUPTED" ∷ "PAUSED" ∷ "INTERACTIVE_IDLE" ∷ "COMPLETED" ∷ "FAILED"
      ∷ "CANCELLED" ∷ "LOST" ∷ [])
session_status-IsRoundTrip = record {
  back = session_status-back;
  exact = session_status-exact;
  accepts = session_status-accepts;
}

plan_status-back :
    (v : PlanStatus) → PlanStatus.is_valid v ≡ true → PlanStatus.parse (PlanStatus.spell v) ≡ some v
unfolding PlanStatus.is_valid PlanStatus.parse PlanStatus.of_string PlanStatus.declared
    PlanStatus.spell read_as
plan_status-back PlanStatus.draft h = refl
plan_status-back PlanStatus.checking h = refl
plan_status-back PlanStatus.checked h = refl
plan_status-back PlanStatus.approved h = refl
plan_status-back PlanStatus.stale h = refl
plan_status-back PlanStatus.rejected h = refl
plan_status-back (PlanStatus.undeclared x) h = ground arith

plan_status-exact :
    (s : String) (v : PlanStatus) → PlanStatus.parse s ≡ some v → PlanStatus.spell v ≡ s
unfolding PlanStatus.parse PlanStatus.of_string PlanStatus.spell
plan_status-exact s v h =
    parsed-exact PlanStatus.is_valid PlanStatus.spell _ v s
      (read_as-spell PlanStatus.spell PlanStatus.undeclared PlanStatus.declared s refl) h

plan_status-accepts :
    (s : String)
    → is_some (PlanStatus.parse s)
      ≡ any
          (λ (t : String). t == s)
          ("DRAFT" ∷ "CHECKING" ∷ "CHECKED" ∷ "APPROVED" ∷ "STALE" ∷ "REJECTED" ∷ [])
unfolding PlanStatus.is_valid PlanStatus.parse PlanStatus.of_string PlanStatus.declared
    PlanStatus.spell read_as any is_some
plan_status-accepts s = ground arith

-- Every declared value of the plan status is read back from its text, a text that is read is exactly that
-- of the value, and the texts that are read are these 6 and no other.
pub plan_status-IsRoundTrip :
    IsRoundTrip PlanStatus.is_valid PlanStatus.spell PlanStatus.parse
      ("DRAFT" ∷ "CHECKING" ∷ "CHECKED" ∷ "APPROVED" ∷ "STALE" ∷ "REJECTED" ∷ [])
plan_status-IsRoundTrip = record {
  back = plan_status-back;
  exact = plan_status-exact;
  accepts = plan_status-accepts;
}

workflow_stage-back :
    (v : WorkflowStage)
    → WorkflowStage.is_valid v ≡ true
    → WorkflowStage.parse (WorkflowStage.spell v) ≡ some v
unfolding WorkflowStage.is_valid WorkflowStage.parse WorkflowStage.of_string WorkflowStage.declared
    WorkflowStage.spell read_as
workflow_stage-back WorkflowStage.requirement_discussion h = refl
workflow_stage-back WorkflowStage.plan_generation h = refl
workflow_stage-back WorkflowStage.plan_check h = refl
workflow_stage-back WorkflowStage.spec_generation h = refl
workflow_stage-back WorkflowStage.workflow_generation h = refl
workflow_stage-back WorkflowStage.execution h = refl
workflow_stage-back WorkflowStage.final_verification h = refl
workflow_stage-back WorkflowStage.completed h = refl
workflow_stage-back (WorkflowStage.undeclared x) h = ground arith

workflow_stage-exact :
    (s : String) (v : WorkflowStage) → WorkflowStage.parse s ≡ some v → WorkflowStage.spell v ≡ s
unfolding WorkflowStage.parse WorkflowStage.of_string WorkflowStage.spell
workflow_stage-exact s v h =
    parsed-exact WorkflowStage.is_valid WorkflowStage.spell _ v s
      (read_as-spell WorkflowStage.spell WorkflowStage.undeclared WorkflowStage.declared s refl) h

workflow_stage-accepts :
    (s : String)
    → is_some (WorkflowStage.parse s)
      ≡ any
          (λ (t : String). t == s)
          ("REQUIREMENT_DISCUSSION" ∷ "PLAN_GENERATION" ∷ "PLAN_CHECK" ∷ "SPEC_GENERATION"
            ∷ "WORKFLOW_GENERATION" ∷ "EXECUTION" ∷ "FINAL_VERIFICATION" ∷ "COMPLETED" ∷ [])
unfolding WorkflowStage.is_valid WorkflowStage.parse WorkflowStage.of_string WorkflowStage.declared
    WorkflowStage.spell read_as any is_some
workflow_stage-accepts s = ground arith

-- Every declared value of the workflow stage is read back from its text, a text that is read is exactly that
-- of the value, and the texts that are read are these 8 and no other.
pub workflow_stage-IsRoundTrip :
    IsRoundTrip WorkflowStage.is_valid WorkflowStage.spell WorkflowStage.parse (
      "REQUIREMENT_DISCUSSION" ∷ "PLAN_GENERATION" ∷ "PLAN_CHECK" ∷ "SPEC_GENERATION"
      ∷ "WORKFLOW_GENERATION" ∷ "EXECUTION" ∷ "FINAL_VERIFICATION" ∷ "COMPLETED" ∷ [])
workflow_stage-IsRoundTrip = record {
  back = workflow_stage-back;
  exact = workflow_stage-exact;
  accepts = workflow_stage-accepts;
}
