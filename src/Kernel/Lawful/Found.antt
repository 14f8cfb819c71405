-- ===== src/Kernel/Lawful/Found.antt =====
-- What the lookups of a delivery chain find.
use cflow.Base.{
  Bool, true, false, String, Option, none, some, List, [], ◌∷◌, ◌≡◌, refl, ◌&&◌, not, all, find,
  subst, ap, sym, arith, eq_refl, eqb_refl, if◌then◌else◌,
}
use cflow.Base.Result.{ok}
use cflow.Model.AttemptStatus
use cflow.Model.Runtime.{AttemptKey, Attempt, same_key}
use cflow.Model.State.{State, attempt_at}
use cflow.Kernel.Admit.{refuse-ok, need-ok}
use cflow.Kernel.Chain
use cflow.Kernel.Lawful.Settle.{IsKeyed}

-- No two entries of the map have one key.
unfoldable pub has_distinct_keys : List (AttemptKey × Attempt) → Bool
has_distinct_keys [] = true
has_distinct_keys (e ∷ es) =
    all (λ (f : AttemptKey × Attempt). not (same_key e.0 f.0)) es && has_distinct_keys es

same_key_refl : (k : AttemptKey) → same_key k k ≡ true
unfolding same_key
same_key_refl k = ground (arith, eq_refl k.node, eqb_refl k.number)

unsome {ℓ} : {A : Type ℓ} (x y : A) → some x ≡ some y → x ≡ y
unsome x y e = ap (λ o. elim o [ none ↦ x | some z ↦ z ]) e

find-all :
    (p q : AttemptKey × Attempt → Bool) (xs : List (AttemptKey × Attempt))
    (x : AttemptKey × Attempt)
    → all q xs ≡ true
    → find p xs ≡ some x
    → (p x && q x) ≡ true
unfolding find all
find-all p q [] x h e = ground (arith, e)
find-all p q (y ∷ ys) x h e = step (p y) refl e (find-all p q ys x (ground (arith, h)))
  where
    step :
        (t : Bool)
        → p y ≡ t
        → (if t then some y else find p ys) ≡ some x
        → (find p ys ≡ some x → (p x && q x) ≡ true)
        → (p x && q x) ≡ true
    step true py f rest = subst (λ z. (p z && q z) ≡ true) (unsome y x f) (ground (arith, py, h))
    step false py f rest = rest f

-- An entry that a search finds is the one that its key finds.
find-at :
    (p : AttemptKey × Attempt → Bool) (xs : List (AttemptKey × Attempt)) (e : AttemptKey × Attempt)
    → has_distinct_keys xs ≡ true
    → find p xs ≡ some e
    → attempt_at xs e.0 ≡ some e.1
unfolding find has_distinct_keys attempt_at
find-at p [] e d f = ground (arith, f)
find-at p ((k, a) ∷ xs) e d f = step (p (k, a)) refl f (find-at p xs e (ground (arith, d)))
  where
    step :
        (t : Bool)
        → p (k, a) ≡ t
        → (if t then some (k, a) else find p xs) ≡ some e
        → (find p xs ≡ some e → attempt_at xs e.0 ≡ some e.1)
        → (if same_key k e.0 then some a else attempt_at xs e.0) ≡ some e.1
    step true pe g rest =
        subst (λ z. (if same_key k z.0 then some a else attempt_at xs z.0) ≡ some z.1)
          (unsome (k, a) e g) (ground (arith, same_key_refl k))
    step false pe g rest =
        let later = find-all p (λ x. not (same_key k x.0)) xs e (ground (arith, d)) g in
        let found = rest g in ground (arith, later, found)

all-true : (xs : List (AttemptKey × Attempt)) → all (λ x. true) xs ≡ true
unfolding all
all-true [] = refl
all-true (x ∷ xs) = all-true xs

is_running_of-running :
    (id : String) (x : AttemptKey × Attempt)
    → Chain.is_running_of id x ≡ true
    → AttemptStatus.is_running x.1.status ≡ true
unfolding Chain.is_running_of
is_running_of-running id x h = ground (arith, h)

module _ (st : State) (keyed : IsKeyed st) where
  -- The Attempt that a result names.
  pub running_attempt-shows :
      (key : AttemptKey) (a : Attempt)
      → Chain.running_attempt st key ≡ ok a
      → (attempt_at st.attempts a.key ≡ some a) × (AttemptStatus.is_running a.status ≡ true)
  unfolding Chain.running_attempt
  running_attempt-shows key a e0 =
      let (b, (at, e1)) = need-ok _ _ _ a e0 in
      let (g, e2) = refuse-ok _ _ _ a e1 in
      let same = ap (λ r. elim r [ ok x ↦ x | _ ↦ b ]) e2 in
      (
        subst (λ x. attempt_at st.attempts x.key ≡ some x) same
            (subst (λ k. attempt_at st.attempts k ≡ some b) (sym (keyed.at_attempt key b at)) at),
        subst (λ x. AttemptStatus.is_running x.status ≡ true) same (ground (arith, g)),
      )

  -- The Attempt that a Session runs.
  pub attempt_by_session-shows :
      (id : String) (a : Attempt)
      → has_distinct_keys st.attempts ≡ true
      → Chain.attempt_by_session st id ≡ some a
      → (attempt_at st.attempts a.key ≡ some a) × (AttemptStatus.is_running a.status ≡ true)
  unfolding Chain.attempt_by_session
  attempt_by_session-shows id a d e = step (find (Chain.is_running_of id) st.attempts) refl e
    where
      step :
          (o : Option (AttemptKey × Attempt))
          → find (Chain.is_running_of id) st.attempts ≡ o
          → (elim o [ none ↦ none | some e ↦ some e.1 ]) ≡ some a
          → (attempt_at st.attempts a.key ≡ some a) × (AttemptStatus.is_running a.status ≡ true)
      step none f g = ground (arith, g)
      step (some x) f g =
          let same = unsome x.1 a g in
          let found = find-at (Chain.is_running_of id) st.attempts x d f in
          let at = subst (λ b. attempt_at st.attempts x.0 ≡ some b) same found in
          let key = keyed.at_attempt x.0 a at in
          let picked =
            find-all (Chain.is_running_of id) (λ x. true) st.attempts x (all-true st.attempts) f in
          (
            subst (λ k. attempt_at st.attempts k ≡ some a) (sym key) at,
            subst (λ x. AttemptStatus.is_running x.status ≡ true) same
                (ground (arith, picked, is_running_of-running id x)),
          )
