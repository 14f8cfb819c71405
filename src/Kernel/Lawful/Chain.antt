-- ===== src/Kernel/Lawful/Chain.antt =====
-- What the decisions of a delivery chain record: Sessions, managed processes, fresh Attempts.
use cflow.Base.{true, ◌≡◌, String, ◌==◌, ◌+◌, arith}
use cflow.Model.AgentPurpose.{AgentPurpose}
use cflow.Model.State.{State}
use cflow.Model.Runtime.{Node}
use cflow.Model.Decision.{Mutation}
use cflow.Kernel.Chain
use cflow.Kernel.Lawful.Rules.{Keeps, is_lawful, if-Holds, Option-Holds}
use cflow.Kernel.Lawful.Free.{free_rules}
use cflow.Kernel.Chain.{allocated}
use cflow.Kernel.Lookup.{max_number, next_attempt_number}
use cflow.Kernel.Facts.{find_session}
use cflow.Model.SessionStatus
use cflow.Kernel.Lawful.Dispatch.{max_number-fresh}

module _ (st : State) where
  -- An allocation records an Attempt under a key that was never used.
  pub allocated-lawful :
      (node : Node) (session head : String)
      → is_lawful st (Mutation.attempt_append (allocated st node session head)) ≡ true
  unfolding is_lawful allocated next_attempt_number
  allocated-lawful node session head =
      ground (arith, max_number-fresh node.id (max_number node.id st.attempts 0 + 1) st.attempts 0)

  pub record_session-Keeps :
      (id : String) (purpose : AgentPurpose) (route : String)
      → Keeps st (is_lawful st) (Chain.record_session id purpose route)
  unfolding Chain.record_session
  record_session-Keeps id purpose route = record { keep = λ b h. search (free_rules) depth 8 }

  pub record_process-Keeps :
      (id session : String) (purpose : AgentPurpose)
      → Keeps st (is_lawful st) (Chain.record_process st id session purpose)
  unfolding Chain.record_process
  record_process-Keeps id session purpose = record { keep = λ b h. search (free_rules) depth 8 }

  pub record_chain_process-Keeps :
      (id session : String) (purpose : AgentPurpose)
      → Keeps st (is_lawful st) (Chain.record_chain_process st id session purpose)
  unfolding Chain.record_chain_process
  record_chain_process-Keeps id session purpose = record {
    keep = λ b h.
        if-Holds _ (id == "") _ _ (λ _. h) (λ _. search (free_rules, record_process-Keeps) depth 8);
  }

  pub cancel_session-Keeps : (id : String) → Keeps st (is_lawful st) (Chain.cancel_session st id)
  unfolding Chain.cancel_session
  cancel_session-Keeps id = record {
    keep = λ b h.
        Option-Holds _ (find_session st id) _ _ (λ _. h)
          (λ s _.
            if-Holds _ (SessionStatus.is_terminal s.status) _ _ (λ _. h)
              (λ _. search (free_rules) depth 8));
  }
