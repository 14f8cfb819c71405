-- ===== src/Kernel/Latest.antt =====
-- The lookups over the Attempts of a Node find the latest one.
use cflow.Base.{any, ◌⊎◌}
use cflow.Base.{
  ℕ, Bool, true, false, String, Option, none, some, List, [], ◌∷◌, ◌≡◌, refl, ◌==◌, ◌&&◌, ◌||◌, not,
  leb, eqb, all, arith, inl,
}
use cflow.Model.AttemptStatus
use cflow.Model.Runtime.{AttemptKey, Attempt}
use cflow.Model.State.{State}
use cflow.Kernel.Lookup.{is_better, highest, highest_terminal_attempt}

-- Each entry of the map stands under the number of its Attempt.
unfoldable pub is_numbered : List (AttemptKey × Attempt) → Bool
is_numbered = all (λ (e : AttemptKey × Attempt). eqb e.1.key.number e.0.number)

-- No Attempt of the Node that passes the test has a number above the bound.
unfoldable pub none_above : (Attempt → Bool) → String → ℕ → List (AttemptKey × Attempt) → Bool
none_above wanted node bound =
    all (λ (e : AttemptKey × Attempt). not (e.0.node == node && wanted e.1) || leb e.0.number bound)

-- An Attempt of the Node with the number is recorded.
unfoldable pub has_number : String → ℕ → List (AttemptKey × Attempt) → Bool
has_number node n = any (λ (e : AttemptKey × Attempt). e.0.node == node && eqb e.0.number n)

unfoldable pub has_wanted : (Attempt → Bool) → String → List (AttemptKey × Attempt) → Bool
has_wanted wanted node = any (λ (e : AttemptKey × Attempt). e.0.node == node && wanted e.1)

unfoldable pub above_best : Option Attempt → Attempt → Bool
above_best none a = true
above_best (some b) a = leb b.key.number a.key.number

unfoldable pub passes_best : (Attempt → Bool) → Option Attempt → Bool
passes_best wanted none = true
passes_best wanted (some b) = wanted b

module _ (wanted : Attempt → Bool) (node : String) where
  highest-top :
      (xs : List (AttemptKey × Attempt)) (best : Option Attempt) (a : Attempt)
      → is_numbered xs ≡ true
      → passes_best wanted best ≡ true
      → highest wanted node xs best ≡ some a
      → (wanted a && (above_best best a && none_above wanted node a.key.number xs)) ≡ true
  unfolding highest is_numbered none_above above_best passes_best all is_better
  highest-top [] none a k p h = ground (arith, h)
  highest-top [] (some b) a k p h = ground (arith, h, p)
  highest-top ((j, c) ∷ xs) none a k p h =
      ground (arith, h, k, p, highest-top xs none a, highest-top xs (some c) a)
  highest-top ((j, c) ∷ xs) (some b) a k p h =
      ground (arith, h, k, p, highest-top xs (some b) a, highest-top xs (some c) a)

  highest-entry :
      (xs : List (AttemptKey × Attempt)) (best : Option Attempt) (a : Attempt)
      → is_numbered xs ≡ true
      → highest wanted node xs best ≡ some a
      → (best ≡ some a) ⊎ (has_number node a.key.number xs ≡ true)
  unfolding highest is_numbered has_number all any
  highest-entry [] best a k h = inl h
  highest-entry ((j, c) ∷ xs) best a k h =
      ground (arith, h, k, highest-entry xs best a, highest-entry xs (some c) a)

  highest-none :
      (xs : List (AttemptKey × Attempt)) (best : Option Attempt)
      → highest wanted node xs best ≡ none
      → (best ≡ none) × (has_wanted wanted node xs ≡ false)
  unfolding highest has_wanted any is_better
  highest-none [] best h = (h, refl)
  highest-none ((j, c) ∷ xs) none h =
      ground (arith, h, highest-none xs none, highest-none xs (some c))
  highest-none ((j, c) ∷ xs) (some b) h =
      ground (arith, h, highest-none xs (some b), highest-none xs (some c))

-- Where each Attempt stands under its own number, the Attempt that the lookup finds is terminal, an
-- Attempt of the Node has its number, and no terminal Attempt of the Node has a higher one.
pub highest_terminal_attempt-is_latest :
    (st : State) (node : String) (a : Attempt)
    → is_numbered st.attempts ≡ true
    → highest_terminal_attempt st node ≡ some a
    → (AttemptStatus.is_terminal a.status
        && (has_number node a.key.number st.attempts
            && none_above
                (λ (b : Attempt). AttemptStatus.is_terminal b.status)
                node
                a.key.number
                st.attempts))
      ≡ true
unfolding highest_terminal_attempt passes_best above_best
highest_terminal_attempt-is_latest st node a k h =
    let wanted = λ (b : Attempt). AttemptStatus.is_terminal b.status in
    ground (
      arith,
      highest-top wanted node st.attempts none a k refl h,
      highest-entry wanted node st.attempts none a k h,
    )

-- Where the lookup finds none, no terminal Attempt of the Node is recorded.
pub highest_terminal_attempt-none :
    (st : State) (node : String)
    → highest_terminal_attempt st node ≡ none
    → has_wanted (λ (b : Attempt). AttemptStatus.is_terminal b.status) node st.attempts ≡ false
unfolding highest_terminal_attempt
highest_terminal_attempt-none st node h =
    (highest-none (λ (b : Attempt). AttemptStatus.is_terminal b.status) node st.attempts none h).1
