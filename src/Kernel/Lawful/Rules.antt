-- ===== src/Kernel/Lawful/Rules.antt =====
-- The test itself, and a rule for each call that appends to a Decision.
use cflow.Base.{eq_refl, eqb_refl}
use cflow.Model.Code
use cflow.Model.Runtime.{no_attempt}
use cflow.Model.Decision.{Event}
use cflow.Base.{◌%◌, ◌^◌, ◌+◌, eqb, length}
use cflow.Base.{
  ℕ, Bool, true, false, String, Option, none, some, List, [], ◌∷◌, ◌++◌, ◌≡◌, refl, ◌==◌, ◌&&◌,
  ◌||◌, not, all, leb, if◌then◌else◌, arith,
}
use cflow.Base.Result.{Result, ok, err, ◌>>=◌, ◌>>◌, refuse, need}
use cflow.Model.Fault.{Fault}
use cflow.Model.RuntimeStatus
use cflow.Model.RuntimeStatus.{RuntimeStatus}
use cflow.Model.RunStatus
use cflow.Model.RunStatus.{RunStatus}
use cflow.Model.AttemptStatus
use cflow.Model.Code.{Code}
use cflow.Model.Runtime.{AttemptKey, Run, ProcessRecord}
use cflow.Model.State.{State, node_at, attempt_at}
use cflow.Model.Effect.{EffectIntent}
use cflow.Model.Decision.{Decision, EventKind, Mutation, WorkflowMutation}
use cflow.Kernel.Facts.{active_run, is_active}
use cflow.Kernel.Builder.{
  Builder, ◌▸◌, done, new_builder, mutate, mutate_all, event, note, effect, close_runs,
}
use cflow.Kernel.Builder.{stop_first, stop_running_processes, is_in}
use cflow.Kernel.Facts.{is_running_process}
use cflow.Kernel.Settle.{with_run}

-- Project, Target Branch and Base Commit are fixed at creation, and CANCELLED wants an intent.
unfoldable pub workflow_is_lawful : State → WorkflowMutation → Bool
unfolding RuntimeStatus.is_cancelled
workflow_is_lawful st m =
    m.id == st.workflow.id
    && (m.project == st.workflow.project
        && (m.target_branch == st.workflow.target_branch
            && (m.base_commit == st.workflow.base_commit
                && (not (RuntimeStatus.is_cancelled m.runtime)
                    || elim m.cancel_intent [ none ↦ false | some _ ↦ true ]))))

-- A Node's charge stays within its budget.
unfoldable pub charge_is_lawful : State → String → ℕ → Bool
charge_is_lawful st id charged = elim (node_at st.nodes id) [
  | none ↦ false
  | some n ↦ leb charged n.retry_budget
]

-- An Attempt ends once, in a terminal status.
unfoldable pub end_is_lawful : State → AttemptKey → Bool
unfolding AttemptStatus.is_terminal
end_is_lawful st key = elim (attempt_at st.attempts key) [
  | none ↦ false
  | some a ↦ not (AttemptStatus.is_terminal a.status)
]

-- An Attempt identity is never reused.
unfoldable pub key_is_fresh : State → AttemptKey → Bool
key_is_fresh st key = elim (attempt_at st.attempts key) [ none ↦ true | some _ ↦ false ]

unfoldable pub is_lawful : State → Mutation → Bool
unfolding workflow_is_lawful charge_is_lawful end_is_lawful key_is_fresh RunStatus.is_running
    AttemptStatus.is_terminal
is_lawful st (Mutation.workflow m) = workflow_is_lawful st m
is_lawful st (Mutation.run id status gate reason snapshot) =
    not gate && not (RunStatus.is_running status)
is_lawful st (Mutation.run_append r) = RunStatus.is_running r.status && r.dispatch_gate
is_lawful st (Mutation.node_status id status charged) = charge_is_lawful st id charged
is_lawful st (Mutation.attempt_end key status _ _ _ _ _ _) =
    AttemptStatus.is_terminal status && end_is_lawful st key
is_lawful st (Mutation.attempt_append a) = key_is_fresh st a.key
is_lawful st _ = true

module _ {ℓ} {A : Type ℓ} where
  pub all-append : (p : A → Bool) (xs ys : List A) → all p (xs ++ ys) ≡ (all p xs && all p ys)
  unfolding all
  all-append p [] ys = refl
  all-append p (x ∷ xs) ys = ground (arith, all-append p xs ys)

-- The events are numbered from a number on without a gap, modulo 2 ^ 64, and name the Workflow.
unfoldable pub is_stamped : State → ℕ → List Event → Bool
is_stamped st n [] = true
is_stamped st n (e ∷ es) =
    eqb e.seq (n % 2 ^ 64) && (e.workflow == st.workflow.id && is_stamped st (n + 1) es)

pub is_stamped-snoc :
    (st : State) (n : ℕ) (es : List Event) (e : Event)
    → is_stamped st n (es ++ e ∷ []) ≡ (
        is_stamped st n es
        && (eqb e.seq ((n + length es) % 2 ^ 64) && e.workflow == st.workflow.id))
unfolding is_stamped
is_stamped-snoc st n [] e = ground arith
is_stamped-snoc st n (x ∷ es) e = ground (arith, is_stamped-snoc st (n + 1) es e)

-- Every mutation asked for so far passes the test, and the events so far are numbered in order.
pub record Holds (st : State) (p : Mutation → Bool) (b : Builder) : Type 0 where
  pub same : b.state ≡ st
  pub all_pass : all p b.d.mutations ≡ true
  pub stamped : is_stamped st st.next_event_seq b.d.events ≡ true

-- A call that asks for passing mutations only.
pub record Keeps (st : State) (p : Mutation → Bool) (f : Builder → Builder) : Type 0 where
  pub keep : (b : Builder) → Holds st p b → Holds st p (f b)

module _ {st : State} (p : Mutation → Bool) where
  pub new_builder-Holds : Holds st p (new_builder st)
  unfolding new_builder all is_stamped
  new_builder-Holds = record { same = refl; all_pass = refl; stamped = refl }

  -- The call chain.
  pub chain-Holds :
      (b : Builder) (f : Builder → Builder) → Holds st p b → Keeps st p f → Holds st p (b ▸ f)
  unfolding ◌▸◌
  chain-Holds b f h k = k.keep b h

  pub mutate-Keeps : (m : Mutation) → p m ≡ true → Keeps st p (mutate m)
  unfolding mutate all
  mutate-Keeps m pm = record {
    keep = λ b h. record {
      same = h.same;
      all_pass = rw all-append (ground arith);
      stamped = h.stamped;
    };
  }

  pub mutate_all-Keeps : (ms : List Mutation) → all p ms ≡ true → Keeps st p (mutate_all ms)
  unfolding mutate_all all
  mutate_all-Keeps [] h = record { keep = λ b k. k }
  mutate_all-Keeps (m ∷ ms) h = record {
    keep = λ b k.
        (mutate_all-Keeps ms (ground (arith, h))).keep _
          (chain-Holds b _ k (mutate-Keeps m (ground (arith, h))));
  }

  pub event-Keeps :
      (kind : EventKind) (node : String) (k : AttemptKey) (c : Code) (text : String)
      → Keeps st p (event kind node k c text)
  unfolding event
  event-Keeps kind node k c text = record {
    keep = λ b h. record {
      same = h.same;
      all_pass = h.all_pass;
      stamped = rw is_stamped-snoc (
          rw h.same (
            ground (
              arith,
              h.stamped,
              eq_refl st.workflow.id,
              eqb_refl ((st.next_event_seq + length b.d.events) % 2 ^ 64),
            )));
    };
  }

  pub note-Keeps : (kind : EventKind) (text : String) → Keeps st p (note kind text)
  unfolding note
  note-Keeps kind text = event-Keeps kind "" no_attempt Code.none_set text

  pub effect-Keeps : (e : EffectIntent) → Keeps st p (effect e)
  unfolding effect
  effect-Keeps e = record {
    keep = λ b h. record { same = h.same; all_pass = h.all_pass; stamped = h.stamped };
  }

  pub if-Holds :
      (t : Bool) (a b : Builder)
      → (t ≡ true → Holds st p a)
      → (t ≡ false → Holds st p b)
      → Holds st p (if t then a else b)
  if-Holds true a b ha hb = ha refl
  if-Holds false a b ha hb = hb refl

  pub choose-Holds :
      (t : Bool) (a b : Builder) → Holds st p a → Holds st p b → Holds st p (if t then a else b)
  choose-Holds t a b ha hb = if-Holds t a b (λ _. ha) (λ _. hb)

  -- A test between two builders, each of which may use how it came out.
  pub if-Keeps :
      (t : Bool) (f g : Builder → Builder)
      → (t ≡ true → Keeps st p f)
      → (t ≡ false → Keeps st p g)
      → Keeps st p (λ b. if t then f b else g b)
  if-Keeps true f g hf hg = hf refl
  if-Keeps false f g hf hg = hg refl

  pub stop_running_processes-Keeps :
      (s : State) (exclude : List String) → Keeps st p (stop_running_processes s exclude)
  unfolding stop_running_processes stop_first ◌▸◌
  stop_running_processes-Keeps s exclude = record { keep = λ b h. go b h s.processes }
    where
      go :
          (b : Builder)
          → Holds st p b
          → (ps : List ProcessRecord) → Holds st p (stop_first exclude ps b)
      go b h [] = h
      go b h (x ∷ xs) =
          if-Holds (is_running_process x && not (is_in x.id exclude))
            (effect (EffectIntent.managed_process_stop x.id) b) (stop_first exclude xs b)
            (λ _. (effect-Keeps (EffectIntent.managed_process_stop x.id)).keep b h) (λ _. go b h xs)

-- A rule for a case split on an optional value.
pub Option-Holds {ℓ} :
    {st : State} (p : Mutation → Bool) {A : Type ℓ} (o : Option A) (n : Builder) (f : A → Builder)
    → (o ≡ none → Holds st p n)
    → ((a : A) → o ≡ some a → Holds st p (f a))
    → Holds st p (elim o [ none ↦ n | some a ↦ f a ])
Option-Holds p none n f hn hf = hn refl
Option-Holds p (some a) n f hn hf = hf a refl

pub ruleset builder_rules = (
  new_builder-Holds, chain-Holds, mutate-Keeps, event-Keeps, note-Keeps, effect-Keeps,
  stop_running_processes-Keeps, choose-Holds,
)

module _ {st : State} (p : Mutation → Bool) where
  pub with_run-Keeps :
      (s : State) (f : Run → Builder → Builder)
      → ((r : Run) → active_run s ≡ some r → Keeps st p (f r))
      → Keeps st p (with_run s f)
  unfolding with_run
  with_run-Keeps s f hf = record {
    keep = λ b h.
        Option-Holds p (active_run s) b _ (λ _. h)
          (λ r e.
            if-Holds p (RunStatus.is_terminal r.status) b (f r b) (λ _. h)
              (λ _. (hf r e).keep b h));
  }

  pub close_runs-Keeps :
      (rs : List Run)
      → ((r : Run) → p (Mutation.run r.id RunStatus.interrupted false r.stop_reason []) ≡ true)
      → Keeps st p (close_runs rs)
  unfolding close_runs
  close_runs-Keeps rs hp = record { keep = go rs }
    where
      go : (rs : List Run) (b : Builder) → Holds st p b → Holds st p (close_runs rs b)
      go [] b h = h
      go (r ∷ rs) b h =
          go rs _ (if-Holds p (is_active r) _ b (λ _. search (builder_rules, hp) depth 10) (λ _. h))

-- A result is a fault, or a Decision whose mutations all pass the test and whose events are numbered
-- from the state's next number on.
unfoldable pub is_sound : State → (Mutation → Bool) → Result Fault Decision → Bool
is_sound st p (ok d) = all p d.mutations && is_stamped st st.next_event_seq d.events
is_sound st p (err e) = true

pub record Passes (st : State) (p : Mutation → Bool) (r : Result Fault Decision) : Type 0 where
  pub pass : is_sound st p r ≡ true

module _ {st : State} (p : Mutation → Bool) where
  pub done-Passes : (b : Builder) → Holds st p b → Passes st p (done b)
  unfolding is_sound done
  done-Passes b h = record { pass = ground (arith, h.all_pass, h.stamped) }

  pub err-Passes : (e : Fault) → Passes st p (err e)
  unfolding is_sound
  err-Passes e = record { pass = refl }

  pub refuse-Passes :
      (t : Bool) (e : Fault) (k : Result Fault Decision)
      → Passes st p k
      → Passes st p (refuse t e >> k)
  unfolding refuse ◌>>◌ ◌>>=◌
  refuse-Passes true e k h = err-Passes e
  refuse-Passes false e k h = h

  -- What follows a guard may use that the guard did not hold.
  pub guard-Passes :
      (t : Bool) (e : Fault) (k : Result Fault Decision)
      → (t ≡ false → Passes st p k)
      → Passes st p (refuse t e >> k)
  unfolding refuse ◌>>◌ ◌>>=◌
  guard-Passes true e k h = err-Passes e
  guard-Passes false e k h = h refl

  pub need-Passes :
      {A : Type 0} (o : Option A) (e : Fault) (k : A → Result Fault Decision)
      → ((a : A) → o ≡ some a → Passes st p (k a))
      → Passes st p (need o e >>= k)
  unfolding need ◌>>=◌
  need-Passes none e k h = err-Passes e
  need-Passes (some a) e k h = h a refl

  pub bind-Passes :
      {A : Type 0} (r : Result Fault A) (k : A → Result Fault Decision)
      → ((a : A) → Passes st p (k a))
      → Passes st p (r >>= k)
  unfolding ◌>>=◌
  bind-Passes (ok a) k h = h a
  bind-Passes (err e) k h = err-Passes e

  pub if-Passes :
      (t : Bool) (a b : Result Fault Decision)
      → (t ≡ true → Passes st p a)
      → (t ≡ false → Passes st p b)
      → Passes st p (if t then a else b)
  if-Passes true a b ha hb = ha refl
  if-Passes false a b ha hb = hb refl

  pub Option-Passes :
      {A : Type 0} (o : Option A) (n : Result Fault Decision) (f : A → Result Fault Decision)
      → (o ≡ none → Passes st p n)
      → ((a : A) → o ≡ some a → Passes st p (f a))
      → Passes st p (elim o [ none ↦ n | some a ↦ f a ])
  Option-Passes none n f hn hf = hn refl
  Option-Passes (some a) n f hn hf = hf a refl

pub ruleset result_rules = (done-Passes, err-Passes, refuse-Passes)
