-- ===== src/Kernel/Lawful/Committed.antt =====
-- What a Decision of the Kernel leaves behind in `transact` of internal/store/store.go.
use cflow.Base.{ℕ, String, true, false, ◌≡◌, ◌==◌, arith, some, ap, sym, refl, subst, ◌∙◌}
use cflow.Base.Result.{Result, ok, err}
use cflow.Model.Fault.{Fault}
use cflow.Model.State.{State}
use cflow.Model.Valid.{validate_state}
use cflow.Model.Decision.{Decision}
use cflow.Store.Transact.{transact}
use cflow.Kernel.Admit.{refuse-ok, need-ok, bind-ok}
use cflow.Kernel.Codec.{Codec}
use cflow.Kernel.Decide.{Input, decide}
use cflow.Kernel.Lawful.Settle.{IsKeyed}
use cflow.Kernel.Lawful.Found.{has_distinct_keys}
use cflow.Kernel.Lawful.Applied.{SameWorkflow, decide-SameWorkflow}

-- A committed state is valid, names the same Workflow, and has a Project.
pub record IsCommitted (st s' : State) : Type 0 where
  pub same : SameWorkflow s' st
  pub is_valid : validate_state s' ≡ true
  pub has_project : (s'.workflow.project == "") ≡ false

pub ok-second :
    {E : Type 0} (t s : State) (c d : Decision) (r q : Result E (Decision × State))
    → r ≡ ok (c, t)
    → q ≡ ok (d, s)
    → r ≡ q
    → t ≡ s
ok-second t s c d r q u v e = ap (λ x. elim x [ ok y ↦ y.1 | err f ↦ t ]) (sym u ∙ e ∙ v)

-- In a state with well-keyed Nodes and Attempts under distinct keys, where a RUNNING Attempt is its
-- Node's last, a transaction over a function that only accepts what the Kernel decides on an input
-- leaves a committed state.
pub transact-commits :
    (codec : Codec) (bound : String) (expected : ℕ) (st : State) (input : Input) (d : Decision)
    (s' : State) (fn : State → Result Fault Decision)
    → IsKeyed st
    → has_distinct_keys st.attempts ≡ true
    → ((c : Decision) → fn st ≡ ok c → decide codec st input ≡ ok c)
    → transact bound expected st fn ≡ ok (d, s')
    → IsCommitted st s'
unfolding transact
transact-commits codec bound expected st input d s' fn keyed distinct like h0 =
    let (g1, h1) = refuse-ok _ _ _ (d, s') h0 in
    let (c, (e, h2)) = bind-ok _ _ (d, s') h1 in
    let (t, (a, h3)) = need-ok _ _ _ (d, s') h2 in
    let (g4, h4) = refuse-ok _ _ _ (d, s') h3 in
    let (w, (f, h5)) = bind-ok _ _ (d, s') h4 in
    let (g6, h6) = refuse-ok _ _ _ (d, s') h5 in
    let (g7, h7) = refuse-ok _ _ _ (d, s') h6 in
    let same = ok-second t s' c d _ _ refl refl h7 in
    record {
      same = decide-SameWorkflow codec st input c s' keyed distinct (like c e) (a ∙ ap some same);
      is_valid = subst (λ x. validate_state x ≡ true) same (ground (arith, g4));
      has_project = subst (λ x. (x.workflow.project == "") ≡ false) same g7;
    }
