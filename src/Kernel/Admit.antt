-- ===== src/Kernel/Admit.antt =====
-- What an accepted decision shows of the state it was made from.
pub mod Delivery
use cflow.Base.Result.{err}
use cflow.Base.{Bool, true, false, Option, none, some, ◌≡◌, refl, ◌&&◌, ◌||◌, not, leb, arith}
use cflow.Base.Result.{Result, ok, ◌>>=◌, ◌>>◌, refuse, need}
use cflow.Model.WorkflowStage
use cflow.Model.RuntimeStatus
use cflow.Model.NodeKind
use cflow.Model.NodeStatus
use cflow.Model.Runtime.{Node}
use cflow.Model.State.{State, node_at}
use cflow.Model.Decision.{Decision}
use cflow.Kernel.Input.{DispatchInput}
use cflow.Kernel.Facts.{active_run, policy_confirmed}
use cflow.Kernel.Control.{WorkflowCommandInput, is_settling, decide_resume}
use cflow.Kernel.Dispatch.{decide_dispatch_agent_task}
use cflow.Kernel.Lookup.{gate_open, is_allocatable}

-- A guard that passed did not hold.
pub refuse_tt : {E : Type 0} (t : Bool) (e : E) → refuse t e ≡ ok tt → t ≡ false
unfolding refuse
refuse_tt true e h = ground (arith, h)
refuse_tt false e h = refl

module _ {E A : Type 0} where
  pub refuse-ok :
      (t : Bool) (e : E) (k : Result E A) (a : A)
      → (refuse t e >> k) ≡ ok a
      → (t ≡ false) × (k ≡ ok a)
  unfolding refuse ◌>>◌ ◌>>=◌
  refuse-ok true e k a h = ground (arith, h)
  refuse-ok false e k a h = (refl, h)

  pub need-ok :
      {B : Type 0} (o : Option B) (e : E) (k : B → Result E A) (a : A)
      → (need o e >>= k) ≡ ok a
      → (b : B) × ((o ≡ some b) × (k b ≡ ok a))
  unfolding need ◌>>=◌
  need-ok none e k a h = ground (arith, h)
  need-ok (some b) e k a h = (b, (refl, h))

  pub bind-ok :
      {B : Type 0} (r : Result E B) (k : B → Result E A) (a : A)
      → (r >>= k) ≡ ok a
      → (b : B) × ((r ≡ ok b) × (k b ≡ ok a))
  unfolding ◌>>=◌
  bind-ok (err e) k a h = ground (arith, h)
  bind-ok (ok b) k a h = (b, (refl, h))

  pub then-ok :
      (r : Result E Unit) (k : Result E A) (a : A) → (r >> k) ≡ ok a → (r ≡ ok tt) × (k ≡ ok a)
  unfolding ◌>>◌ ◌>>=◌
  then-ok (err e) k a h = ground (arith, h)
  then-ok (ok u) k a h = (refl, h)

-- An accepted allocation of a coding Node starts from the EXECUTION stage with the dispatch gate of
-- a RUNNING Run open, and takes an agent-task Node of the graph that is PENDING or READY, a READY one
-- only while its charge is within its budget.
pub dispatch-admits :
    (st : State) (input : DispatchInput) (d : Decision)
    → decide_dispatch_agent_task st input ≡ ok d
    → (WorkflowStage.is_execution st.workflow.stage && gate_open st) ≡ true
      × ((n : Node) × ((node_at st.nodes input.node ≡ some n)
            × ((NodeKind.is_agent_task n.kind
                  && (NodeStatus.is_pending n.status
                      || (NodeStatus.is_ready n.status && leb n.retry_charged n.retry_budget)))
                ≡ true)))
unfolding decide_dispatch_agent_task is_allocatable
dispatch-admits st input d h0 =
    let (g1, h1) = refuse-ok _ _ _ d h0 in
    let (g2, h2) = refuse-ok _ _ _ d h1 in
    let (g3, h3) = refuse-ok _ _ _ d h2 in
    let (n, (at, h4)) = need-ok _ _ _ d h3 in
    let (g5, h5) = refuse-ok _ _ _ d h4 in
    let (g6, h6) = refuse-ok _ _ _ d h5 in
    let (g7, h7) = refuse-ok _ _ _ d h6 in
    (ground (arith, g2, g3), (n, (at, ground (arith, g5, g6, g7))))

-- An accepted resume starts from PAUSED or BLOCKED, finds no stop or quiesce still settling, and in
-- the EXECUTION stage finds the commit policy confirmed.
pub resume-admits :
    (st : State) (input : WorkflowCommandInput) (d : Decision)
    → decide_resume st input ≡ ok d
    → ((RuntimeStatus.is_paused st.workflow.runtime || RuntimeStatus.is_blocked st.workflow.runtime)
        && (not (is_settling (active_run st))
            && (not (WorkflowStage.is_execution st.workflow.stage) || policy_confirmed st)))
      ≡ true
unfolding decide_resume
resume-admits st input d h0 =
    let (g1, h1) = refuse-ok _ _ _ d h0 in
    let (g2, h2) = refuse-ok _ _ _ d h1 in
    let (g3, h3) = refuse-ok _ _ _ d h2 in
    let (g4, h4) = refuse-ok _ _ _ d h3 in ground (arith, g2, g3, g4)
