-- ===== src/Model/Machines.antt =====
-- The status machines of a Workflow, a Node and a Run, and the texts that the Store keeps.
use cflow.Base.{Bool, true, false, ◌≡◌, refl, ◌&&◌, arith}
use cflow.Model.RuntimeStatus
use cflow.Model.RuntimeStatus.{RuntimeStatus}
use cflow.Model.NodeStatus
use cflow.Model.NodeStatus.{NodeStatus}
use cflow.Model.RunStatus
use cflow.Model.RunStatus.{RunStatus}

-- A status machine: no transition leaves a terminal status, one leaves every declared status that is
-- not terminal, none stays where it is, and none leads from or to an undeclared text.
pub record IsMachine {S : Type 0} (is_valid is_terminal : S → Bool) (can : S → S → Bool)
    : Type 0 where
  pub closed : (s t : S) → is_terminal s ≡ true → can s t ≡ false
  pub live : (s : S) → is_valid s ≡ true → is_terminal s ≡ false → (t : S) × (can s t ≡ true)
  pub moves : (s : S) → can s s ≡ false
  pub declared : (s t : S) → can s t ≡ true → (is_valid s && is_valid t) ≡ true

runtime-closed :
    (s t : RuntimeStatus)
    → RuntimeStatus.is_terminal s ≡ true
    → RuntimeStatus.can_transition_to s t ≡ false
unfolding RuntimeStatus.is_valid RuntimeStatus.is_terminal RuntimeStatus.can_transition_to
runtime-closed RuntimeStatus.pending t h = ground arith
runtime-closed RuntimeStatus.running t h = ground arith
runtime-closed RuntimeStatus.paused t h = ground arith
runtime-closed RuntimeStatus.blocked t h = ground arith
runtime-closed RuntimeStatus.failed t h = ground arith
runtime-closed RuntimeStatus.succeeded t h = ground arith
runtime-closed RuntimeStatus.cancelled t h = ground arith
runtime-closed (RuntimeStatus.undeclared x) t h = ground arith

runtime-live :
    (s : RuntimeStatus)
    → RuntimeStatus.is_valid s ≡ true
    → RuntimeStatus.is_terminal s ≡ false
    → (t : RuntimeStatus) × (RuntimeStatus.can_transition_to s t ≡ true)
unfolding RuntimeStatus.is_valid RuntimeStatus.is_terminal RuntimeStatus.can_transition_to
runtime-live RuntimeStatus.pending v h = (RuntimeStatus.running, refl)
runtime-live RuntimeStatus.running v h = (RuntimeStatus.paused, refl)
runtime-live RuntimeStatus.paused v h = (RuntimeStatus.running, refl)
runtime-live RuntimeStatus.blocked v h = (RuntimeStatus.running, refl)
runtime-live RuntimeStatus.failed v h = (RuntimeStatus.failed, ground arith)
runtime-live RuntimeStatus.succeeded v h = (RuntimeStatus.succeeded, ground arith)
runtime-live RuntimeStatus.cancelled v h = (RuntimeStatus.cancelled, ground arith)
runtime-live (RuntimeStatus.undeclared x) v h = (RuntimeStatus.undeclared x, ground arith)

runtime-moves : (s : RuntimeStatus) → RuntimeStatus.can_transition_to s s ≡ false
unfolding RuntimeStatus.is_valid RuntimeStatus.is_terminal RuntimeStatus.can_transition_to
runtime-moves RuntimeStatus.pending = refl
runtime-moves RuntimeStatus.running = refl
runtime-moves RuntimeStatus.paused = refl
runtime-moves RuntimeStatus.blocked = refl
runtime-moves RuntimeStatus.failed = refl
runtime-moves RuntimeStatus.succeeded = refl
runtime-moves RuntimeStatus.cancelled = refl
runtime-moves (RuntimeStatus.undeclared x) = refl

runtime-declared :
    (s t : RuntimeStatus)
    → RuntimeStatus.can_transition_to s t ≡ true
    → (RuntimeStatus.is_valid s && RuntimeStatus.is_valid t) ≡ true
unfolding RuntimeStatus.is_valid RuntimeStatus.is_terminal RuntimeStatus.can_transition_to
runtime-declared RuntimeStatus.pending t h = ground arith
runtime-declared RuntimeStatus.running t h = ground arith
runtime-declared RuntimeStatus.paused t h = ground arith
runtime-declared RuntimeStatus.blocked t h = ground arith
runtime-declared RuntimeStatus.failed t h = ground arith
runtime-declared RuntimeStatus.succeeded t h = ground arith
runtime-declared RuntimeStatus.cancelled t h = ground arith
runtime-declared (RuntimeStatus.undeclared x) t h = ground arith

-- The runtime statuses form a machine: no transition leaves a terminal status, one leaves every other
-- declared status, none stays in place, and undeclared texts take no part.
pub runtime_status-IsMachine :
    IsMachine RuntimeStatus.is_valid RuntimeStatus.is_terminal RuntimeStatus.can_transition_to
runtime_status-IsMachine = record {
  closed = runtime-closed;
  live = runtime-live;
  moves = runtime-moves;
  declared = runtime-declared;
}

node-closed :
    (s t : NodeStatus) → NodeStatus.is_terminal s ≡ true → NodeStatus.can_transition_to s t ≡ false
unfolding NodeStatus.is_valid NodeStatus.is_terminal NodeStatus.can_transition_to
node-closed NodeStatus.pending t h = ground arith
node-closed NodeStatus.ready t h = ground arith
node-closed NodeStatus.running t h = ground arith
node-closed NodeStatus.succeeded t h = ground arith
node-closed NodeStatus.failed t h = ground arith
node-closed NodeStatus.cancelled t h = ground arith
node-closed NodeStatus.skipped t h = ground arith
node-closed (NodeStatus.undeclared x) t h = ground arith

node-live :
    (s : NodeStatus)
    → NodeStatus.is_valid s ≡ true
    → NodeStatus.is_terminal s ≡ false
    → (t : NodeStatus) × (NodeStatus.can_transition_to s t ≡ true)
unfolding NodeStatus.is_valid NodeStatus.is_terminal NodeStatus.can_transition_to
node-live NodeStatus.pending v h = (NodeStatus.ready, refl)
node-live NodeStatus.ready v h = (NodeStatus.running, refl)
node-live NodeStatus.running v h = (NodeStatus.succeeded, refl)
node-live NodeStatus.succeeded v h = (NodeStatus.succeeded, ground arith)
node-live NodeStatus.failed v h = (NodeStatus.failed, ground arith)
node-live NodeStatus.cancelled v h = (NodeStatus.cancelled, ground arith)
node-live NodeStatus.skipped v h = (NodeStatus.skipped, ground arith)
node-live (NodeStatus.undeclared x) v h = (NodeStatus.undeclared x, ground arith)

node-moves : (s : NodeStatus) → NodeStatus.can_transition_to s s ≡ false
unfolding NodeStatus.is_valid NodeStatus.is_terminal NodeStatus.can_transition_to
node-moves NodeStatus.pending = refl
node-moves NodeStatus.ready = refl
node-moves NodeStatus.running = refl
node-moves NodeStatus.succeeded = refl
node-moves NodeStatus.failed = refl
node-moves NodeStatus.cancelled = refl
node-moves NodeStatus.skipped = refl
node-moves (NodeStatus.undeclared x) = refl

node-declared :
    (s t : NodeStatus)
    → NodeStatus.can_transition_to s t ≡ true
    → (NodeStatus.is_valid s && NodeStatus.is_valid t) ≡ true
unfolding NodeStatus.is_valid NodeStatus.is_terminal NodeStatus.can_transition_to
node-declared NodeStatus.pending t h = ground arith
node-declared NodeStatus.ready t h = ground arith
node-declared NodeStatus.running t h = ground arith
node-declared NodeStatus.succeeded t h = ground arith
node-declared NodeStatus.failed t h = ground arith
node-declared NodeStatus.cancelled t h = ground arith
node-declared NodeStatus.skipped t h = ground arith
node-declared (NodeStatus.undeclared x) t h = ground arith

-- The node statuses form a machine: no transition leaves a terminal status, one leaves every other
-- declared status, none stays in place, and undeclared texts take no part.
pub node_status-IsMachine :
    IsMachine NodeStatus.is_valid NodeStatus.is_terminal NodeStatus.can_transition_to
node_status-IsMachine = record {
  closed = node-closed;
  live = node-live;
  moves = node-moves;
  declared = node-declared;
}

run-closed :
    (s t : RunStatus) → RunStatus.is_terminal s ≡ true → RunStatus.can_transition_to s t ≡ false
unfolding RunStatus.is_valid RunStatus.is_terminal RunStatus.can_transition_to
run-closed RunStatus.starting t h = ground arith
run-closed RunStatus.running t h = ground arith
run-closed RunStatus.quiescing t h = ground arith
run-closed RunStatus.stopping t h = ground arith
run-closed RunStatus.interrupted t h = ground arith
run-closed RunStatus.blocked t h = ground arith
run-closed RunStatus.succeeded t h = ground arith
run-closed RunStatus.failed t h = ground arith
run-closed RunStatus.cancelled t h = ground arith
run-closed (RunStatus.undeclared x) t h = ground arith

run-live :
    (s : RunStatus)
    → RunStatus.is_valid s ≡ true
    → RunStatus.is_terminal s ≡ false
    → (t : RunStatus) × (RunStatus.can_transition_to s t ≡ true)
unfolding RunStatus.is_valid RunStatus.is_terminal RunStatus.can_transition_to
run-live RunStatus.starting v h = (RunStatus.running, refl)
run-live RunStatus.running v h = (RunStatus.quiescing, refl)
run-live RunStatus.quiescing v h = (RunStatus.blocked, refl)
run-live RunStatus.stopping v h = (RunStatus.interrupted, refl)
run-live RunStatus.interrupted v h = (RunStatus.interrupted, ground arith)
run-live RunStatus.blocked v h = (RunStatus.blocked, ground arith)
run-live RunStatus.succeeded v h = (RunStatus.succeeded, ground arith)
run-live RunStatus.failed v h = (RunStatus.failed, ground arith)
run-live RunStatus.cancelled v h = (RunStatus.cancelled, ground arith)
run-live (RunStatus.undeclared x) v h = (RunStatus.undeclared x, ground arith)

run-moves : (s : RunStatus) → RunStatus.can_transition_to s s ≡ false
unfolding RunStatus.is_valid RunStatus.is_terminal RunStatus.can_transition_to
run-moves RunStatus.starting = refl
run-moves RunStatus.running = refl
run-moves RunStatus.quiescing = refl
run-moves RunStatus.stopping = refl
run-moves RunStatus.interrupted = refl
run-moves RunStatus.blocked = refl
run-moves RunStatus.succeeded = refl
run-moves RunStatus.failed = refl
run-moves RunStatus.cancelled = refl
run-moves (RunStatus.undeclared x) = refl

run-declared :
    (s t : RunStatus)
    → RunStatus.can_transition_to s t ≡ true
    → (RunStatus.is_valid s && RunStatus.is_valid t) ≡ true
unfolding RunStatus.is_valid RunStatus.is_terminal RunStatus.can_transition_to
run-declared RunStatus.starting t h = ground arith
run-declared RunStatus.running t h = ground arith
run-declared RunStatus.quiescing t h = ground arith
run-declared RunStatus.stopping t h = ground arith
run-declared RunStatus.interrupted t h = ground arith
run-declared RunStatus.blocked t h = ground arith
run-declared RunStatus.succeeded t h = ground arith
run-declared RunStatus.failed t h = ground arith
run-declared RunStatus.cancelled t h = ground arith
run-declared (RunStatus.undeclared x) t h = ground arith

-- The run statuses form a machine: no transition leaves a terminal status, one leaves every other
-- declared status, none stays in place, and undeclared texts take no part.
pub run_status-IsMachine :
    IsMachine RunStatus.is_valid RunStatus.is_terminal RunStatus.can_transition_to
run_status-IsMachine = record {
  closed = run-closed;
  live = run-live;
  moves = run-moves;
  declared = run-declared;
}
