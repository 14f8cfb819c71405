-- ===== src/Kernel/Lawful/Applied.antt =====
-- What lawful mutations leave behind when the Store applies them in turn.
use cflow.Base.{
  true, false, some, List, [], ◌∷◌, ◌≡◌, refl, all, arith, eq_iff, inl, inr, Option-cases,
}
use cflow.Base.Result.{Result, ok, err}
use cflow.Model.State.{State}
use cflow.Model.Decision.{Decision, Mutation}
use cflow.Model.Fault.{Fault}
use cflow.Store.Apply.{apply_mutation, apply_all}
use cflow.Store.Edit.{replace_workflow}
use cflow.Kernel.Lawful.Rules.{is_lawful, workflow_is_lawful, is_sound, Passes}
use cflow.Kernel.Lawful.Settle.{IsKeyed}
use cflow.Kernel.Codec.{Codec}
use cflow.Kernel.Decide.{Input, decide}
use cflow.Kernel.Lawful.Found.{has_distinct_keys}
use cflow.Kernel.Lawful.Decide.{decide-Passes}

-- The identity, Project, Target Branch and Base Commit of the Workflow, unchanged.
pub record SameWorkflow (a b : State) : Type 0 where
  pub id : a.workflow.id ≡ b.workflow.id
  pub project : a.workflow.project ≡ b.workflow.project
  pub target_branch : a.workflow.target_branch ≡ b.workflow.target_branch
  pub base_commit : a.workflow.base_commit ≡ b.workflow.base_commit

SameWorkflow-apply :
    (st s s' : State) (m : Mutation)
    → SameWorkflow s st
    → is_lawful st m ≡ true
    → apply_mutation s m ≡ some s'
    → SameWorkflow s' st
unfolding apply_mutation is_lawful workflow_is_lawful replace_workflow
SameWorkflow-apply st s s' (Mutation.workflow m) h l e = record {
  id = ground (arith, (eq_iff m.id st.workflow.id).0);
  project = ground (arith, (eq_iff m.project st.workflow.project).0);
  target_branch = ground (arith, (eq_iff m.target_branch st.workflow.target_branch).0);
  base_commit = ground (arith, (eq_iff m.base_commit st.workflow.base_commit).0);
}
SameWorkflow-apply st s s' m h l e = record {
  id = ground (arith, h.id);
  project = ground (arith, h.project);
  target_branch = ground (arith, h.target_branch);
  base_commit = ground (arith, h.base_commit);
}

SameWorkflow-apply_all :
    (st s s' : State) (ms : List Mutation)
    → SameWorkflow s st
    → all (is_lawful st) ms ≡ true
    → apply_all s ms ≡ some s'
    → SameWorkflow s' st
unfolding apply_all all
SameWorkflow-apply_all st s s' [] h l e = record {
  id = ground (arith, h.id);
  project = ground (arith, h.project);
  target_branch = ground (arith, h.target_branch);
  base_commit = ground (arith, h.base_commit);
}
SameWorkflow-apply_all st s s' (m ∷ ms) h l e = elim (Option-cases (apply_mutation s m)) [
  | inl q ↦ absurd_state st s' (ground arith)
  | inr (t, q) ↦
      SameWorkflow-apply_all st t s' ms (SameWorkflow-apply st s t m h (ground arith) q)
        (ground arith) (ground arith)
]
  where
    absurd_state : (a b : State) → true ≡ false → SameWorkflow b a
    absurd_state a b e = record {
      id = ground (arith, e);
      project = ground (arith, e);
      target_branch = ground (arith, e);
      base_commit = ground (arith, e);
    }

Passes-SameWorkflow :
    (st s' : State) (r : Result Fault Decision) (d : Decision)
    → Passes st (is_lawful st) r
    → r ≡ ok d
    → apply_all st d.mutations ≡ some s'
    → SameWorkflow s' st
unfolding is_sound
Passes-SameWorkflow st s' (ok c) d h e a =
    SameWorkflow-apply_all st st s' d.mutations
      (record { id = refl; project = refl; target_branch = refl; base_commit = refl })
      (ground (arith, h.pass)) a
Passes-SameWorkflow st s' (err f) d h e a = record {
  id = ground (arith, e);
  project = ground (arith, e);
  target_branch = ground (arith, e);
  base_commit = ground (arith, e);
}

-- In a state with well-keyed Nodes and Attempts under distinct keys, where a RUNNING Attempt is its
-- Node's last, a Decision on any input whose mutations the Store accepts leaves the Workflow's
-- identity, Project, Target Branch and Base Commit as they were.
pub decide-SameWorkflow :
    (codec : Codec) (st : State) (input : Input) (d : Decision) (s' : State)
    → IsKeyed st
    → has_distinct_keys st.attempts ≡ true
    → decide codec st input ≡ ok d
    → apply_all st d.mutations ≡ some s'
    → SameWorkflow s' st
decide-SameWorkflow codec st input d s' keyed distinct e a =
    Passes-SameWorkflow st s' _ d (decide-Passes codec st input keyed distinct) e a
