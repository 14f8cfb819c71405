-- ===== src/Store/Attempts.antt =====
-- What `applyMutation` does to the Attempts of the aggregate.
use cflow.Base.{
  true, some, List, [], ◌∷◌, ◌++◌, ◌≡◌, ◌↔◌, arith, eq_iff, eqb_iff, if◌then◌else◌, Option-cases,
  inl, inr,
}
use mathlib.Core.Option
use cflow.Model.AttemptStatus
use cflow.Model.Runtime.{AttemptKey, same_key, Attempt}
use cflow.Model.State.{State, attempt_at}
use cflow.Model.Decision.{Mutation}
use cflow.Store.Apply.{apply_mutation, apply_all}
use cflow.Store.Edit.{on_attempt, close_attempt, end_attempt}

pub same_key_iff : (a b : AttemptKey) → (same_key a b ≡ true) ↔ (a ≡ b)
unfolding same_key
same_key_iff a b = ground (arith, eq_iff a.node b.node, eqb_iff a.number b.number)

attempt_at-append :
    (xs ys : List (AttemptKey × Attempt)) (k : AttemptKey) (a : Attempt)
    → attempt_at xs k ≡ some a
    → attempt_at (xs ++ ys) k ≡ some a
unfolding attempt_at
attempt_at-append [] ys k a h = ground arith
attempt_at-append ((j, b) ∷ xs) ys k a h = ground (arith, attempt_at-append xs ys k a)

-- An edit through one key is seen under that key alone.
attempt_at-on_attempt :
    (key k : AttemptKey) (f : Attempt → Attempt) (xs ys : List (AttemptKey × Attempt))
    → on_attempt key f xs ≡ some ys
    → attempt_at ys k ≡ (if same_key key k then Option.map f (attempt_at xs k) else attempt_at xs k)
unfolding attempt_at on_attempt
attempt_at-on_attempt key k f [] ys h = ground arith
attempt_at-on_attempt key k f ((j, b) ∷ xs) ys h = elim (Option-cases (on_attempt key f xs)) [
  | inl e ↦ ground (arith, same_key_iff j key, same_key_iff key k, same_key_iff j k)
  | inr (zs, e) ↦ ground (
    arith,
    same_key_iff j key,
    same_key_iff key k,
    same_key_iff j k,
    attempt_at-on_attempt key k f xs zs,
  )
]

close_attempt-terminal :
    (st : State) (key : AttemptKey) (f : Attempt → Attempt) (k : AttemptKey) (a : Attempt)
    (st' : State)
    → close_attempt st key f ≡ some st'
    → attempt_at st.attempts k ≡ some a
    → AttemptStatus.is_terminal a.status ≡ true
    → attempt_at st'.attempts k ≡ some a
unfolding close_attempt
close_attempt-terminal st key f k a st' h at t =
    elim (Option-cases (on_attempt key f st.attempts)) [
      | inl e ↦ ground arith
      | inr (zs, e) ↦
          ground (arith, same_key_iff key k, attempt_at-on_attempt key k f st.attempts zs e)
    ]

-- No accepted mutation changes a terminal Attempt.
apply_mutation-terminal :
    (st : State) (m : Mutation) (k : AttemptKey) (a : Attempt) (st' : State)
    → apply_mutation st m ≡ some st'
    → attempt_at st.attempts k ≡ some a
    → AttemptStatus.is_terminal a.status ≡ true
    → attempt_at st'.attempts k ≡ some a
unfolding apply_mutation
apply_mutation-terminal st (Mutation.attempt_append b) k a st' h at t =
    ground (arith, attempt_at-append st.attempts ((b.key, b) ∷ []) k a)
apply_mutation-terminal st (Mutation.attempt_end key s eh fp c ev ch en) k a st' h at t =
    close_attempt-terminal st key (end_attempt s eh fp c ev ch en) k a st' h at t
apply_mutation-terminal st m k a st' h at t = ground arith

-- A terminal Attempt is a permanent record: no sequence of mutations that the Store accepts changes
-- any of its facts or removes it.
pub terminal_attempt_is_immutable :
    (st : State) (ms : List Mutation) (k : AttemptKey) (a : Attempt) (st' : State)
    → apply_all st ms ≡ some st'
    → attempt_at st.attempts k ≡ some a
    → AttemptStatus.is_terminal a.status ≡ true
    → attempt_at st'.attempts k ≡ some a
unfolding apply_all
terminal_attempt_is_immutable st [] k a st' h at t = ground arith
terminal_attempt_is_immutable st (m ∷ ms) k a st' h at t =
    elim (Option-cases (apply_mutation st m)) [
      | inl e ↦ ground arith
      | inr (s, e) ↦
          terminal_attempt_is_immutable s ms k a st' (ground arith)
            (apply_mutation-terminal st m k a s e at t) t
    ]
