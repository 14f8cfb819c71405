-- ===== src/Kernel/Verify.antt =====
-- The verify and Final Verify Nodes of internal/decision/verify.go: their allocation, the result of the
-- deterministic run and the verdict of the independent Reviewer.
use cflow.Base.{after_prefix}
use cflow.Base.{
  Bool, true, false, String, Option, none, some, List, [], ◌∷◌, ◌==◌, ◌&&◌, ◌||◌, not, ◌&◌, leb,
  eqb, if◌then◌else◌,
}
use cflow.Base.Result.{Result, ok, ◌>>◌, ◌>>=◌, refuse, need}
use cflow.Model.WorkflowStage
use cflow.Model.WorkflowStage.{WorkflowStage}
use cflow.Model.NodeKind
use cflow.Model.NodeKind.{NodeKind}
use cflow.Model.NodeStatus
use cflow.Model.NodeStatus.{NodeStatus}
use cflow.Model.AttemptOutcome.{AttemptOutcome}
use cflow.Model.AgentPurpose.{AgentPurpose}
use cflow.Model.EvidenceKind.{EvidenceKind}
use cflow.Model.Evidence.{EvidenceRef}
use cflow.Model.Code
use cflow.Model.Code.{Code}
use cflow.Model.Artifact.{ExecutionFacts}
use cflow.Model.Fault.{Fault, invalid_input, invariant_fault, new_fault}
use cflow.Model.Runtime.{Attempt, Node, Session}
use cflow.Model.State.{State, node_at}
use cflow.Model.Effect.{CatalogRef, EffectIntent}
use cflow.Model.Decision.{Decision, EventKind, Mutation}
use cflow.Kernel.Input.{DispatchInput, EffectResultInput}
use cflow.Kernel.Facts.{branch_quarantined, find_session}
use cflow.Kernel.Builder.{Builder, ◌▸◌, done, new_builder, mutate, event, note, effect, wf_mut}
use cflow.Kernel.Lookup.{gate_open, is_allocatable}
use cflow.Kernel.SessionPick.{validate_fresh_session}
use cflow.Kernel.Attempt.{decide_attempt_failure, settle_node_succeeded}
use cflow.Kernel.Dispatch.{closed_gate}
use cflow.Kernel.Codec.{Codec}
use cflow.Kernel.Verdict.{parse_review_verdict}
use cflow.Kernel.Chain.{
  record_session, record_chain_process, session_end, code_or, verify_failure_code,
  attempt_by_session, succeeded_attempt_of, process_of_attempt, cancel_session,
  reuses_provider_session, running_attempt, allocated, ended_input,
}

-- The Execution Facts of an approval that fixed a Verification Catalog, with the caller's text.
unfoldable pub approved_catalog : State → String → Result Fault ExecutionFacts
approved_catalog st text = do
  facts ← need st.workflow.execution_facts (invalid_input text)
  refuse (eqb facts.catalog_revision 0 || facts.catalog_hash == "") (invalid_input text)
  ok facts

-- The Spec that a derived Node is named after: the loop over the prefixes of `taskNodeOf`.
unfoldable pub spec_of : List String → String → Option String
spec_of [] id = none
spec_of (prefix ∷ rest) id = elim (after_prefix prefix id) [
  | some spec ↦ some spec
  | none ↦ spec_of rest id
]

-- The agent task that a verify or merge Node is derived from, by the Compiler's naming.
unfoldable pub task_node_of : State → Node → Result Fault Node
task_node_of st node = do
  spec ← need (spec_of ("verify-" ∷ "merge-" ∷ []) node.id) (invalid_input "")
  task ← need (node_at st.nodes ("task-" & spec)) (invariant_fault "")
  refuse (not (NodeKind.is_agent_task task.kind)) (invariant_fault "")
  ok task

-- A quarantined Branch or a FAILED task never re-enters the delivery chain.
unfoldable pub chain_closed : State → Node → Bool
chain_closed st task = branch_quarantined st task.branch || NodeStatus.is_failed task.status

-- The head that the full delivery stands at: the verified Workspace Head of the aggregated layout,
-- the Integration HEAD of the legacy one.
unfoldable pub delivery_head : State → String
delivery_head st =
    if leb 2 st.workflow.layout_version
    then st.workflow.verified_workspace_head
    else st.workflow.integration_head

-- The text of the refusal where the layout has no such head.
unfoldable pub missing_head : State → String
missing_head st =
    if leb 2 st.workflow.layout_version
    then "final verify allocation requires a verified workspace head"
    else "final verify allocation requires a recorded integration head"

unfoldable pub catalog_of : ExecutionFacts → CatalogRef
catalog_of facts = record { revision = facts.catalog_revision; hash = facts.catalog_hash }

-- The Final Verify's Decision once every guard held.
unfoldable pub start_final_verify :
    State → Node → DispatchInput → ExecutionFacts → Builder → Builder
start_final_verify st node input facts b =
    let head = delivery_head st in
    let a = allocated st node input.session head in
    b
    ▸ mutate (Mutation.node_status node.id NodeStatus.running node.retry_charged)
    ▸ event EventKind.node_started node.id a.key Code.none_set "final verify node started"
    ▸ record_session input.session AgentPurpose.final_verification input.route
    ▸ record_chain_process st input.process input.session AgentPurpose.final_verification
    ▸ mutate (Mutation.attempt_append a)
    ▸ event EventKind.attempt_created node.id a.key Code.none_set "final verify attempt created"
    ▸ mutate (
        Mutation.workflow (
          wf_mut st WorkflowStage.final_verification st.workflow.runtime st.workflow.cancel_intent))
    ▸ note EventKind.stage_changed "stage changed to FINAL_VERIFICATION"
    ▸ effect (
        EffectIntent.verification_run node.id (catalog_of facts)
          (st.workflow.base_commit & ".." & head))

unfoldable pub decide_final_verify_dispatch : State → DispatchInput → Result Fault Decision
decide_final_verify_dispatch st input = do
  refuse (st.workflow.id == "") (invalid_input "no workflow to dispatch")
  refuse
      (not (
        WorkflowStage.is_execution st.workflow.stage
        || WorkflowStage.is_final_verification st.workflow.stage))
      (invalid_input "final verify dispatch requires the EXECUTION or FINAL_VERIFICATION stage")
  refuse (not (gate_open st)) closed_gate
  node ← need (node_at st.nodes input.node) (invalid_input "")
  refuse (not (NodeKind.is_final_verify node.kind)) (invalid_input "")
  refuse (not (is_allocatable node.status)) (invalid_input "")
  refuse (input.session == "" || input.route == "") (
      invalid_input
        "final verify allocation requires the final reviewer session and the approved route")
  refuse (delivery_head st == "") (invalid_input (missing_head st))
  facts ← approved_catalog st "final verify allocation requires the approved verification catalog"
  validate_fresh_session st input.session
  done (start_final_verify st node input facts (new_builder st))

unfoldable pub start_verify :
    State → Node → Attempt → DispatchInput → ExecutionFacts → Builder → Builder
start_verify st node task_attempt input facts b =
    let a = allocated st node input.session task_attempt.end_head in
    b
    ▸ mutate (Mutation.node_status node.id NodeStatus.running node.retry_charged)
    ▸ event EventKind.node_started node.id a.key Code.none_set "verify node started"
    ▸ record_session input.session AgentPurpose.review input.route
    ▸ record_chain_process st input.process input.session AgentPurpose.review
    ▸ mutate (Mutation.attempt_append a)
    ▸ event EventKind.attempt_created node.id a.key Code.none_set "verify attempt created"
    ▸ effect (
        EffectIntent.verification_run node.id (catalog_of facts)
          (task_attempt.start_head & ".." & task_attempt.end_head))

-- The accepted Attempt of a task: SUCCEEDED, with a commit.
unfoldable pub accepted_attempt : State → Node → Result Fault Attempt
accepted_attempt st task = do
  a ← need (succeeded_attempt_of st task.id) (invalid_input "")
  refuse (a.end_head == "") (invalid_input "")
  ok a

unfoldable pub decide_verify_dispatch : State → DispatchInput → Result Fault Decision
decide_verify_dispatch st input = do
  refuse (st.workflow.id == "") (invalid_input "no workflow to dispatch")
  refuse (not (WorkflowStage.is_execution st.workflow.stage))
      (invalid_input "dispatch requires the EXECUTION stage")
  refuse (not (gate_open st)) closed_gate
  node ← need (node_at st.nodes input.node) (invalid_input "")
  refuse (not (NodeKind.is_verify node.kind)) (invalid_input "")
  refuse (not (is_allocatable node.status)) (invalid_input "")
  refuse (input.session == "" || input.route == "")
      (invalid_input "verify allocation requires the reviewer session and the approved route")
  facts ← approved_catalog st "verify allocation requires the approved verification catalog"
  task ← task_node_of st node
  refuse (chain_closed st task) (
      new_fault Code.commit_during_policy_drift_window
        "the task branch is quarantined; verification is closed for it")
  task_attempt ← accepted_attempt st task
  validate_fresh_session st input.session
  done (start_verify st node task_attempt input facts (new_builder st))

-- The evidence of a deterministic run on a Node.
unfoldable pub test_evidence : Node → EffectResultInput → EvidenceRef
test_evidence node input = record {
  kind = EvidenceKind.test_result;
  hash = input.manifest_hash;
  subject = node.id;
}

-- A run that did not pass: the Reviewer's Session settles cancelled and the Attempt fails.
unfoldable pub verification_failed :
    State → Node → Attempt → EffectResultInput → Result Fault Decision
verification_failed st node attempt input =
    let code = code_or input.failure_code (verify_failure_code node) in
    let base = ended_input attempt.key AttemptOutcome.failed code in
    decide_attempt_failure st node attempt (record base { evidence = test_evidence node input })
      code (cancel_session st attempt.session (new_builder st))

unfoldable pub start_review : State → Node → Attempt → Session → Builder → Builder
start_review st node attempt review b =
    b
    ▸ effect (
        EffectIntent.provider_start attempt.session review.purpose review.provider "" node.id
          (process_of_attempt st attempt.key))

unfoldable pub decide_verification_run_ended : State → EffectResultInput → Result Fault Decision
decide_verification_run_ended st input = do
  attempt ← running_attempt st input.attempt
  node ←
      need (node_at st.nodes attempt.key.node)
        (invariant_fault "verification result references a non-verify node")
  refuse (not (NodeKind.is_verify node.kind) && not (NodeKind.is_final_verify node.kind))
      (invariant_fault "verification result references a non-verify node")
  elim input.passed [
    | false ↦ verification_failed st node attempt input
    | true ↦ need (find_session st attempt.session) (invariant_fault "") >>= λ review.
        done (new_builder st ▸ start_review st node attempt review)
  ]

-- The failure of a review: no verdict, or FAIL.
unfoldable pub review_failed : State → Node → Attempt → Builder → Result Fault Decision
review_failed st node attempt b =
    let code = Code.semantic_review_failed in
    decide_attempt_failure st node attempt (ended_input attempt.key AttemptOutcome.failed code) code
      b

unfoldable pub review_evidence : Codec → Session → EffectResultInput → EvidenceRef
review_evidence codec created input = record {
  kind = EvidenceKind.review_result;
  hash = codec.sha256_hex input.body;
  subject = created.id;
}

-- The end of an Attempt that the review passed.
unfoldable pub reviewed : Codec → Node → Attempt → Session → EffectResultInput → EffectResultInput
reviewed codec node attempt created input =
    let review = review_evidence codec created input in
    let base = ended_input attempt.key AttemptOutcome.succeeded Code.none_set in
    record base {
      end_head = attempt.start_head;
      evidence = review;
      evidence_refs = test_evidence node input ∷ review ∷ [];
    }

-- A RUNNING Attempt without a Node makes the code panic; here it is a fault.
unfoldable pub decide_review_run_ended :
    Codec → State → EffectResultInput → Session → Result Fault Decision
decide_review_run_ended codec st input created = do
  refuse (reuses_provider_session st created.id input.session.provider_session_id) (
      new_fault Code.session_independence_violation
        "the reviewer session reuses an existing session's provider session id")
  attempt ← need (attempt_by_session st created.id) (invariant_fault "")
  node ← need (node_at st.nodes attempt.key.node) (invariant_fault "")
  let b = new_builder st ▸ mutate (session_end st created input)
  elim (parse_review_verdict codec input.body) [
    | none ↦ review_failed st node attempt b
    | some false ↦ review_failed st node attempt b
    | some true ↦
        done
          (b ▸ settle_node_succeeded st node attempt (reviewed codec node attempt created input) [])
  ]
