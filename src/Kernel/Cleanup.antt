-- ===== src/Kernel/Cleanup.antt =====
-- The two-step Cleanup of internal/decision/apply_cleanup.go, with `CleanupManifestHash` of
-- internal/model/apply.go.
use cflow.Base.{
  ℕ, Bool, true, false, String, Option, none, some, List, [], ◌∷◌, ◌==◌, ◌&&◌, not, ◌&◌, ltb, eqb,
  if◌then◌else◌, length, find, map, decimal, ◌+◌, pos,
}
use cflow.Base.Result.{Result, err, ok, ◌>>◌, ◌>>=◌, refuse, need}
use cflow.Model.RuntimeStatus
use cflow.Model.RuntimeStatus.{RuntimeStatus}
use cflow.Model.ArtifactType.{ArtifactType}
use cflow.Model.CleanupStatus.{CleanupStatus}
use cflow.Model.CleanupItemStatus
use cflow.Model.CleanupItemStatus.{CleanupItemStatus}
use cflow.Model.Code
use cflow.Model.Code.{Code}
use cflow.Model.Artifact.{ArtifactRef, same_ref}
use cflow.Model.Fault.{Fault, invalid_input, new_fault}
use cflow.Model.Runtime.{CleanupAttempt, CleanupItem, CleanupItemKind}
use cflow.Model.State.{State}
use cflow.Model.Effect.{EffectIntent}
use cflow.Model.Decision.{Decision, EventKind, Mutation}
use cflow.Kernel.Input.{is_cleanup_item_removed, is_cleanup_item_failed, EffectResultInput}
use cflow.Kernel.Facts.{has_active_apply, has_running_process, project_mutation_quarantined}
use cflow.Kernel.Builder.{Builder, ◌▸◌, done, new_builder, mutate, note, effect}
use cflow.Kernel.Codec.{Codec}
use cflow.Base.{sort, ℤ, negsuc, zero, suc}
use cflow.Kernel.Apply.{last_of}

pub data CleanupCommandKind : Type 0 where
  dry_run execute : CleanupCommandKind
  undeclared : String → CleanupCommandKind

pub record CleanupCommandInput : Type 0 where
  pub kind : CleanupCommandKind
  pub items : List CleanupItem
  pub manifest : ArtifactRef

unfoldable pub spell_kind : CleanupItemKind → String
spell_kind CleanupItemKind.worktree = "worktree"
spell_kind CleanupItemKind.scratch = "scratch"
spell_kind (CleanupItemKind.undeclared s) = s

-- The lines that are hashed, one for each item in the order of the indices.
unfoldable pub manifest_text : List CleanupItem → String
manifest_text [] = ""
manifest_text (it ∷ its) =
    decimal it.index
    & "|"
    & spell_kind it.kind
    & "|"
    & it.canonical_path
    & "|"
    & it.branch
    & "|"
    & it.expected_head
    & "|"
    & it.fingerprint
    & "\n"
    & manifest_text its

-- `CleanupManifestHash`; items of one index keep their order, where `sort.Slice` fixes none.
unfoldable pub cleanup_manifest_hash : Codec → List CleanupItem → String
cleanup_manifest_hash codec items =
    codec.sha256_text
      (manifest_text (sort (λ (a : CleanupItem) (b : CleanupItem). ltb a.index b.index) items))

unfoldable pub pending_item : CleanupItem → CleanupItem
pending_item it = record it { status = CleanupItemStatus.pending }

unfoldable pub next_cleanup_id : State → String
next_cleanup_id st = "cleanup-" & decimal (length st.cleanup_attempts + 1)

unfoldable pub new_cleanup_attempt : Codec → State → List CleanupItem → CleanupAttempt
new_cleanup_attempt codec st items = record {
  id = next_cleanup_id st;
  status = CleanupStatus.awaiting_confirmation;
  manifest = record {
    workflow = st.workflow.id;
    type = ArtifactType.cleanup_manifest;
    revision = 1;
    hash = cleanup_manifest_hash codec items;
  };
  items = items;
  started_at = st.now;
  ended_at = 0;
}

unfoldable pub append_cleanup : CleanupAttempt → Builder → Builder
append_cleanup att b =
    b
    ▸ mutate (Mutation.cleanup_append att)
    ▸ note EventKind.cleanup_attempt_created "cleanup manifest created"

-- The gates of a terminal Workflow with no managed process.
unfoldable pub settled_workflow : State → Result Fault Unit
settled_workflow st = do
  refuse (not (RuntimeStatus.is_terminal st.workflow.runtime))
      (new_fault Code.cleanup_workflow_not_terminal "cleanup requires a terminal workflow")
  refuse (has_running_process st)
      (new_fault Code.cleanup_active_process "cleanup requires no managed processes")

unfoldable pub cleanup_dry_run : Codec → State → CleanupCommandInput → Result Fault Decision
cleanup_dry_run codec st input = do
  settled_workflow st
  done (
      new_builder st ▸ append_cleanup (new_cleanup_attempt codec st (map pending_item input.items)))

unfoldable pub find_cleanup_attempt : State → String → Option CleanupAttempt
find_cleanup_attempt st id = find (λ (a : CleanupAttempt). a.id == id) st.cleanup_attempts

unfoldable pub first_pending_item : CleanupAttempt → Option CleanupItem
first_pending_item att =
    find (λ (it : CleanupItem). CleanupItemStatus.is_pending it.status) att.items

unfoldable pub first_unsettled_item : CleanupAttempt → Option CleanupItem
first_unsettled_item att =
    find (λ (it : CleanupItem). not (CleanupItemStatus.is_terminal it.status)) att.items

unfoldable pub is_worktree : CleanupItemKind → Bool
is_worktree CleanupItemKind.worktree = true
is_worktree _ = false

unfoldable pub request_cleanup_effect : CleanupAttempt → CleanupItem → Builder → Builder
request_cleanup_effect att item b =
    if is_worktree item.kind
    then b ▸ effect (EffectIntent.cleanup_worktree_remove att.id item.index)
    else b ▸ effect (EffectIntent.cleanup_scratch_remove att.id item.index)

-- The map of the manifest's items: the last item of an index is the one that it holds.
unfoldable pub item_at : ℕ → List CleanupItem → Option CleanupItem
item_at i [] = none
item_at i (it ∷ its) = elim (item_at i its) [
  | some found ↦ some found
  | none ↦ if eqb it.index i then some it else none
]

unfoldable pub same_facts : CleanupItem → CleanupItem → Bool
same_facts a b =
    spell_kind a.kind == spell_kind b.kind
    && (a.canonical_path == b.canonical_path
        && (a.branch == b.branch
            && (a.expected_head == b.expected_head && a.fingerprint == b.fingerprint)))

-- The observed item is the manifest's, and it is clean.
unfoldable pub check_item : CleanupAttempt → CleanupItem → Result Fault Unit
check_item att it = do
  refuse (not (elim (item_at it.index att.items) [ none ↦ false | some m ↦ same_facts it m ])) (
      new_fault Code.cleanup_facts_changed "cleanup item facts drifted from the confirmed manifest")
  refuse it.dirty (new_fault Code.cleanup_target_dirty "cleanup target is dirty")

unfoldable pub check_items : CleanupAttempt → List CleanupItem → Result Fault Unit
check_items att [] = ok tt
check_items att (it ∷ its) = check_item att it >> check_items att its

-- The item that an execution requests, by the status of the Attempt.
unfoldable pub next_item :
    Codec → CleanupAttempt → CleanupCommandInput → CleanupStatus → Result Fault CleanupItem
next_item codec att input CleanupStatus.awaiting_confirmation =
    refuse (not (cleanup_manifest_hash codec input.items == att.manifest.hash)) (
      new_fault Code.cleanup_facts_changed
        "observed cleanup facts no longer match the confirmed manifest")
    >> (check_items att input.items
        >> need (first_pending_item att) (invalid_input "cleanup manifest has no pending items"))
next_item codec att input CleanupStatus.running =
    need (first_unsettled_item att)
      (invalid_input "cleanup manifest has no unsettled items to recover")
next_item codec att input _ = err (invalid_input "")

-- Request one item's removal.
unfoldable pub request_item : CleanupAttempt → CleanupItem → Builder → Builder
request_item att item b =
    b
    ▸ mutate (Mutation.cleanup_item att.id item.index CleanupItemStatus.requested Code.none_set)
    ▸ note EventKind.cleanup_item_requested "cleanup item requested"
    ▸ request_cleanup_effect att item

unfoldable pub cleanup_execute : Codec → State → CleanupCommandInput → Result Fault Decision
cleanup_execute codec st input = do
  att ← need (last_of st.cleanup_attempts) (invalid_input "no cleanup attempt to execute")
  refuse (not (same_ref input.manifest att.manifest)) (
      new_fault Code.cleanup_facts_changed
        "cleanup manifest identity or hash changed since the dry run")
  settled_workflow st
  refuse (project_mutation_quarantined st)
      (new_fault Code.cleanup_quarantined "cleanup requires no project mutation quarantine")
  refuse (has_active_apply st)
      (new_fault Code.cleanup_active_apply "cleanup requires no in-flight apply attempt")
  next ← next_item codec att input att.status
  done (
      new_builder st
      ▸ mutate (Mutation.cleanup att.id CleanupStatus.running 0)
      ▸ request_item att next)

unfoldable pub decide_cleanup_command :
    Codec → State → CleanupCommandInput → CleanupCommandKind → Result Fault Decision
decide_cleanup_command codec st input CleanupCommandKind.dry_run = cleanup_dry_run codec st input
decide_cleanup_command codec st input CleanupCommandKind.execute = cleanup_execute codec st input
decide_cleanup_command codec st input (CleanupCommandKind.undeclared _) =
    err (invalid_input "unsupported cleanup command")

unfoldable pub decide_cleanup : Codec → State → CleanupCommandInput → Result Fault Decision
decide_cleanup codec st input = decide_cleanup_command codec st input input.kind

-- The item at a position; `none` is out of range, a negative position included.
unfoldable pub item_of : List CleanupItem → ℤ → Option CleanupItem
item_of items (negsuc n) = none
item_of [] (pos n) = none
item_of (it ∷ its) (pos zero) = some it
item_of (it ∷ its) (pos (suc n)) = item_of its (pos n)

-- The position of a result that is in range.
unfoldable pub to_index : ℤ → ℕ
to_index (pos n) = n
to_index (negsuc n) = 0

unfoldable pub item_removed : State → CleanupAttempt → ℕ → Builder → Builder
item_removed st att index b =
    let c =
      b
      ▸ mutate (Mutation.cleanup_item att.id index CleanupItemStatus.completed Code.none_set)
      ▸ note EventKind.cleanup_item_completed "cleanup item completed" in
    elim (first_pending_item att) [
      | some next ↦ c ▸ request_item att next
      | none ↦ c ▸ mutate (Mutation.cleanup att.id CleanupStatus.succeeded st.now)
    ]

unfoldable pub item_failed : State → CleanupAttempt → ℕ → Code → Builder → Builder
item_failed st att index code b =
    b
    ▸ mutate (Mutation.cleanup_item att.id index CleanupItemStatus.failed code)
    ▸ note EventKind.cleanup_item_failed "cleanup item failed"
    ▸ mutate (Mutation.cleanup att.id CleanupStatus.blocked st.now)

-- The switch over the kind of a result: any other kind appends nothing.
unfoldable pub settle_item : State → CleanupAttempt → EffectResultInput → Builder → Builder
settle_item st att input b =
    let index = to_index input.item_index in
    if is_cleanup_item_removed input.kind
    then b ▸ item_removed st att index
    else if is_cleanup_item_failed input.kind
    then b ▸ item_failed st att index input.failure_code
    else b

unfoldable pub decide_cleanup_result : State → EffectResultInput → Result Fault Decision
decide_cleanup_result st input = do
  att ←
      need (find_cleanup_attempt st input.cleanup_attempt) (invalid_input "unknown cleanup attempt")
  item ← need (item_of att.items input.item_index) (invalid_input "cleanup item index out of range")
  refuse (not (CleanupItemStatus.is_requested item.status))
      (invalid_input "cleanup item is not requested")
  done (new_builder st ▸ settle_item st att input)
