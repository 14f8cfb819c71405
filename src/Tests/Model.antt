-- ===== src/Tests/Model.antt =====
-- The theorems on the data model, applied to concrete values.
use cflow.Base.{◌≡◌, true, refl}
use cflow.Model.Code.{Code}
use cflow.Model.FaultCategory.{FaultCategory}
use cflow.Model.FaultScope.{FaultScope}
use cflow.Model.StopScope.{StopScope}
use cflow.Model.Fault.{FaultPolicy, policy}
use cflow.Model.Policies.{row_is_coherent, policy-coherent}
use cflow.Base.{false}

abbrev timeout_row : FaultPolicy
timeout_row = record {
  code = Code.agent_timeout;
  category = FaultCategory.retryable_attempt_failure;
  scope = FaultScope.attempt;
  retry = record { charges_budget = true; allows_successor = true };
  close_dispatch = false;
  stop_scope = StopScope.affected;
}

policy-coherent_example : row_is_coherent timeout_row ≡ true
unfolding policy cflow.Model.Fault.fault_policies cflow.Model.Code.same
policy-coherent_example = policy-coherent Code.agent_timeout timeout_row refl
