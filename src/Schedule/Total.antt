-- ===== src/Schedule/Total.antt =====
-- Every Node of the graph gets exactly one answer: the sorted identities are the keys of the map.
use cflow.Base.{Bool, String, any, ◌||◌, ◌==◌}
use cflow.Schedule.{DispatchDecision}

-- The identity is eligible, or a reason is recorded under it.
unfoldable pub is_answered : DispatchDecision → String → Bool
is_answered dec id =
    any (λ (i : String). i == id) dec.eligible
    || any (λ (r : String × String). r.0 == id) dec.reasons
