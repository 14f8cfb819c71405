-- ===== src/Store/Apply.antt =====
-- internal/store/mutations.go: `applyMutation`, which applies one Mutation to the aggregate, and its
-- finders. `none` is the error, whose text is left out. A finder that returns a pointer, and the
-- assignments through it, are one `modify`. The order of entries in a map is not modelled.
use cflow.Base.{String, Option, none, some, List, [], ◌∷◌, ◌++◌, ◌==◌, if◌then◌else◌}
use mathlib.Core.Option
use cflow.Model.Runtime.{Node, CleanupAttempt}
use cflow.Model.State.{State, Plan}
use cflow.Model.Decision.{Mutation}
use cflow.Store.Edit.{
  replace_workflow, on_session, on_process, on_run, on_apply, on_cleanup, on_node, set_cleanup_item,
  apply_artifact_ref, end_attempt, set_run, add_node, add_attempt, close_attempt,
}

unfoldable pub apply_mutation : State → Mutation → Option State
unfolding replace_workflow on_session on_process on_run on_apply on_cleanup on_node set_cleanup_item
    apply_artifact_ref end_attempt set_run add_node add_attempt close_attempt
apply_mutation st (Mutation.workflow m) =
    some (record st { workflow = replace_workflow m st.workflow })
apply_mutation st (Mutation.plan status) =
    Option.map (λ (p : Plan). record st { plan = some (record p { status = status }) }) st.plan
apply_mutation st (Mutation.artifact_ref type revision path hash) =
    apply_artifact_ref st type revision hash
apply_mutation st (Mutation.preflight_record _ _ _ _ _ _ _ _ _) = some st
apply_mutation st (Mutation.session_end id provider_session_id status ended_at) =
    on_session id (λ s. record s { provider_session_id = provider_session_id; status = status }) st
apply_mutation st (Mutation.session_bind id provider_session_id) =
    on_session id (λ s. record s { provider_session_id = provider_session_id }) st
apply_mutation st (Mutation.session_status id status) =
    on_session id (λ s. record s { status = status }) st
apply_mutation st (Mutation.node_status node status charged) =
    Option.map (λ (l : List (String × Node)). record st { nodes = l })
      (on_node node (λ n. record n { status = status; retry_charged = charged }) st.nodes)
apply_mutation st (Mutation.node_append node) = add_node st node
apply_mutation st (Mutation.task _ _ _) = some st
apply_mutation st (Mutation.attempt_append attempt) = add_attempt st attempt
apply_mutation st
      (Mutation.attempt_end key status end_head fingerprint code evidence charged ended_at) =
    close_attempt st key (end_attempt status end_head fingerprint code evidence charged ended_at)
apply_mutation st (Mutation.finding_append f) =
    some (record st { findings = st.findings ++ f ∷ [] })
apply_mutation st (Mutation.approval_append a) =
    some (record st { approvals = st.approvals ++ a ∷ [] })
apply_mutation st (Mutation.run_append r) = some (record st { runs = st.runs ++ r ∷ [] })
apply_mutation st (Mutation.run id status gate reason snapshot) =
    on_run id (set_run st.now status gate reason snapshot) st
apply_mutation st (Mutation.session_append s provider) =
    some (record st { sessions = st.sessions ++ s ∷ [] })
apply_mutation st (Mutation.process_append p) =
    if p.session == "" then none else some (record st { processes = st.processes ++ p ∷ [] })
apply_mutation st (Mutation.process_end id status exit_code ended_at) =
    on_process id (λ p. record p { status = status; exit_code = exit_code; ended_at = ended_at }) st
apply_mutation st (Mutation.quarantine_append q) =
    some (record st { quarantines = st.quarantines ++ q ∷ [] })
apply_mutation st (Mutation.apply_append a) =
    some (record st { apply_attempts = st.apply_attempts ++ a ∷ [] })
apply_mutation st (Mutation.apply id status ended_at staging_head) =
    on_apply id
      (λ a. record a {
        status = status;
        ended_at = ended_at;
        staging_head = if staging_head == "" then a.staging_head else staging_head;
      })
      st
apply_mutation st (Mutation.apply_confirmation id preflight hash fingerprint) =
    on_apply id
      (λ a. record a { preflight = preflight; preflight_hash = hash; fingerprint = fingerprint }) st
apply_mutation st (Mutation.cleanup_append c) =
    some (record st { cleanup_attempts = st.cleanup_attempts ++ c ∷ [] })
apply_mutation st (Mutation.cleanup id status ended_at) =
    on_cleanup id (λ c. record c { status = status; ended_at = ended_at }) st
apply_mutation st (Mutation.cleanup_item attempt index status code) =
    Option.map (λ (l : List CleanupAttempt). record st { cleanup_attempts = l })
      (set_cleanup_item attempt index status code st.cleanup_attempts)

-- The loop of `transact` over the mutations of a Decision (internal/store/store.go).
unfoldable pub apply_all : State → List Mutation → Option State
apply_all st [] = some st
apply_all st (m ∷ ms) = elim (apply_mutation st m) [ none ↦ none | some st' ↦ apply_all st' ms ]
