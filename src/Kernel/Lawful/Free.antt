-- ===== src/Kernel/Lawful/Free.antt =====
-- The mutations that no rule restricts, the Workflow rows that keep what a Workflow is, and the rules for a
-- Decision that is built in steps which may fail.
use cflow.Base.{subst, ap, sym, ◌∙◌, if◌then◌else◌}
use cflow.Base.{Bool, true, false, Option, none, some, ◌≡◌, refl, ◌||◌, not, arith, eq_refl}
use cflow.Base.Result.{Result, ok, err, ◌>>=◌, ◌>>◌}
use cflow.Model.WorkflowStage.{WorkflowStage}
use cflow.Model.RuntimeStatus
use cflow.Model.RuntimeStatus.{RuntimeStatus}
use cflow.Model.Fault.{Fault}
use cflow.Model.State.{State}
use cflow.Model.Decision.{Decision, Mutation, WorkflowMutation}
use cflow.Kernel.Builder.{Builder, wf_mut, mutate}
use cflow.Kernel.Lawful.Rules.{
  Holds, Keeps, Passes, mutate-Keeps, err-Passes, is_lawful, builder_rules,
}

-- A CANCELLED Workflow has its cancel intent.
unfoldable pub is_intended : State → Bool
is_intended st =
    not (RuntimeStatus.is_cancelled st.workflow.runtime)
    || elim st.workflow.cancel_intent [ none ↦ false | some _ ↦ true ]

-- A row of the Workflow itself, whose status and intent are those of the state.
pub row-lawful :
    (st : State) (m : WorkflowMutation)
    → is_intended st ≡ true
    → m.id ≡ st.workflow.id
    → m.project ≡ st.workflow.project
    → m.target_branch ≡ st.workflow.target_branch
    → m.base_commit ≡ st.workflow.base_commit
    → m.runtime ≡ st.workflow.runtime
    → m.cancel_intent ≡ st.workflow.cancel_intent
    → is_lawful st (Mutation.workflow m) ≡ true
unfolding is_lawful is_intended
row-lawful st m h a b c d e f = rw a (
    rw b (
      rw c (
        rw d (
          rw e (
            rw f (
              ground (
                arith,
                h,
                eq_refl st.workflow.id,
                eq_refl st.workflow.project,
                eq_refl st.workflow.target_branch,
                eq_refl st.workflow.base_commit,
              )))))))

pub stage-lawful :
    (st : State) (stage : WorkflowStage)
    → is_intended st ≡ true
    → is_lawful st
        (Mutation.workflow (wf_mut st stage st.workflow.runtime st.workflow.cancel_intent))
      ≡ true
unfolding wf_mut
stage-lawful st stage h = row-lawful st _ h refl refl refl refl refl refl

-- The mutations that every state allows.
abbrev pub is_free : Mutation → Bool
is_free (Mutation.workflow _) = false
is_free (Mutation.run _ _ _ _ _) = false
is_free (Mutation.run_append _) = false
is_free (Mutation.node_status _ _ _) = false
is_free (Mutation.attempt_end _ _ _ _ _ _ _ _) = false
is_free (Mutation.attempt_append _) = false
is_free _ = true

pub free-lawful : (st : State) (m : Mutation) → is_free m ≡ true → is_lawful st m ≡ true
unfolding is_lawful
free-lawful st m h = ground arith

pub free-Keeps : (st : State) (m : Mutation) → is_free m ≡ true → Keeps st (is_lawful st) (mutate m)
free-Keeps st m h = mutate-Keeps (is_lawful st) m (free-lawful st m h)

pub ruleset free_rules = (builder_rules, free-lawful)

fetch : Result Fault Builder → Builder → Builder
fetch (ok b) c = b
fetch (err e) c = c

-- The builder that a step returns is the one that it is known to return.
pub same-Holds :
    (st : State) (p : Mutation → Bool) (b c : Builder) (r : Result Fault Builder)
    → r ≡ ok b
    → r ≡ ok c
    → Holds st p b
    → Holds st p c
unfolding fetch
same-Holds st p b c r e f h = subst (λ x. Holds st p x) (ap (λ x. fetch x b) (sym e ∙ f)) h

-- A step that may fail and that otherwise returns a builder.
pub record Yields (st : State) (p : Mutation → Bool) (r : Result Fault Builder) : Type 0 where
  pub yields : (b : Builder) → r ≡ ok b → Holds st p b

module _ {st : State} (p : Mutation → Bool) where
  pub then-Passes :
      (m : Result Fault Unit) (k : Result Fault Decision) → Passes st p k → Passes st p (m >> k)
  unfolding ◌>>◌ ◌>>=◌
  then-Passes (ok u) k h = h
  then-Passes (err e) k h = err-Passes p e

  pub yield-Passes :
      (r : Result Fault Builder) (k : Builder → Result Fault Decision)
      → Yields st p r
      → ((b : Builder) → Holds st p b → Passes st p (k b))
      → Passes st p (r >>= k)
  unfolding ◌>>=◌
  yield-Passes (ok b) k y h = h b (y.yields b refl)
  yield-Passes (err e) k y h = err-Passes p e

  pub ok-Yields : (b : Builder) → Holds st p b → Yields st p (ok b)
  ok-Yields b h = record { yields = λ c e. same-Holds st p b c (ok b) refl e h }

  pub then-Yields :
      (m : Result Fault Unit) (r : Result Fault Builder) → Yields st p r → Yields st p (m >> r)
  unfolding ◌>>◌ ◌>>=◌
  then-Yields (ok u) r y = y
  then-Yields (err e) r y = record { yields = λ c h. ground (arith, h) }

  pub if-Yields :
      (t : Bool) (a b : Result Fault Builder)
      → Yields st p a
      → Yields st p b
      → Yields st p (if t then a else b)
  if-Yields true a b ya yb = ya
  if-Yields false a b ya yb = yb

  -- The three ways in which a verdict may come out.
  pub verdict-Passes :
      (v : Option Bool) (n f t : Result Fault Decision)
      → Passes st p n
      → Passes st p f
      → Passes st p t
      → Passes st p (elim v [ none ↦ n | some false ↦ f | some true ↦ t ])
  verdict-Passes none n f t hn hf ht = hn
  verdict-Passes (some false) n f t hn hf ht = hf
  verdict-Passes (some true) n f t hn hf ht = ht

  -- What follows a step may use what the step returned.
  pub ok-Passes :
      {A : Type 0} (r : Result Fault A) (k : A → Result Fault Decision)
      → ((a : A) → r ≡ ok a → Passes st p (k a))
      → Passes st p (r >>= k)
  unfolding ◌>>=◌
  ok-Passes (ok a) k h = h a refl
  ok-Passes (err e) k h = err-Passes p e
