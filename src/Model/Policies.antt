-- ===== src/Model/Policies.antt =====
-- The rules that every row of the fault table keeps.
use cflow.Base.{Bool, true, false, some, List, [], ◌∷◌, ◌≡◌, refl, ◌&&◌, not, find, all, arith}
use cflow.Model.Code
use cflow.Model.Code.{Code}
use cflow.Model.FaultCategory.{FaultCategory}
use cflow.Model.Fault.{FaultPolicy, fault_policies, policy, p}

unfoldable pub same_truth : Bool → Bool → Bool
same_truth true b = b
same_truth false b = not b

unfoldable pub is_retryable : FaultCategory → Bool
is_retryable FaultCategory.retryable_attempt_failure = true
is_retryable _ = false

-- A successor Attempt is allowed exactly where the budget is charged; a retryable failure charges it
-- and leaves the dispatch gate open.
unfoldable pub row_is_coherent : FaultPolicy → Bool
row_is_coherent row =
    same_truth row.retry.allows_successor row.retry.charges_budget
    && (same_truth (is_retryable row.category) row.retry.allows_successor
        && not (row.retry.allows_successor && row.close_dispatch))

table-coherent : all row_is_coherent fault_policies ≡ true
unfolding all fault_policies p row_is_coherent same_truth is_retryable
table-coherent = refl

find-all :
    {A : Type 0} (want test : A → Bool) (xs : List A) (x : A)
    → find want xs ≡ some x
    → all test xs ≡ true
    → test x ≡ true
unfolding find all
find-all want test [] x h a = ground arith
find-all want test (y ∷ ys) x h a = ground (arith, h, a, find-all want test ys x)

-- Whatever code a policy is found for: it allows a successor exactly where it charges the budget and
-- exactly where its category is a retryable failure, and then it leaves the dispatch gate open.
pub policy-coherent :
    (code : Code) (row : FaultPolicy) → policy code ≡ some row → row_is_coherent row ≡ true
unfolding policy
policy-coherent code row h =
    find-all (λ r. Code.same r.code code) row_is_coherent fault_policies row h table-coherent
