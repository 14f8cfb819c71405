-- ===== src/Kernel/Lawful/Cleanup.antt =====
-- Cleanup asks for lawful mutations only.
use cflow.Base.{ℕ}
use cflow.Model.Code.{Code}
use cflow.Model.State.{State}
use cflow.Model.Runtime.{CleanupAttempt, CleanupItem}
use cflow.Kernel.Codec.{Codec}
use cflow.Kernel.Input.{EffectResultInput}
use cflow.Kernel.Lawful.Rules.{
  Keeps, Passes, is_lawful, result_rules, Option-Holds, need-Passes, bind-Passes, err-Passes,
}
use cflow.Kernel.Lawful.Free.{free_rules, then-Passes}
use cflow.Kernel.Cleanup
use cflow.Kernel.Cleanup.{CleanupCommandInput, CleanupCommandKind}

module _ (st : State) where
  append_cleanup-Keeps : (a : CleanupAttempt) → Keeps st (is_lawful st) (Cleanup.append_cleanup a)
  unfolding Cleanup.append_cleanup
  append_cleanup-Keeps a = record { keep = λ b h. search (free_rules) depth 12 }

  request_cleanup_effect-Keeps :
      (a : CleanupAttempt) (i : CleanupItem)
      → Keeps st (is_lawful st) (Cleanup.request_cleanup_effect a i)
  unfolding Cleanup.request_cleanup_effect
  request_cleanup_effect-Keeps a i = record { keep = λ b h. search (free_rules) depth 12 }

  request_item-Keeps :
      (a : CleanupAttempt) (i : CleanupItem) → Keeps st (is_lawful st) (Cleanup.request_item a i)
  unfolding Cleanup.request_item
  request_item-Keeps a i = record {
    keep = λ b h. search (free_rules, request_cleanup_effect-Keeps) depth 12;
  }

  cleanup_kind-Passes :
      (codec : Codec) (input : CleanupCommandInput) (k : CleanupCommandKind)
      → Passes st (is_lawful st) (Cleanup.decide_cleanup_command codec st input k)
  unfolding Cleanup.decide_cleanup_command Cleanup.cleanup_dry_run Cleanup.cleanup_execute
  cleanup_kind-Passes codec input CleanupCommandKind.dry_run =
      search (result_rules, free_rules, then-Passes, append_cleanup-Keeps) depth 12
  cleanup_kind-Passes codec input CleanupCommandKind.execute = need-Passes _ _ _ _ (λ att e.
      search (result_rules, free_rules, then-Passes, bind-Passes, request_item-Keeps) depth 14)
  cleanup_kind-Passes codec input (CleanupCommandKind.undeclared _) = err-Passes _ _

  pub cleanup-Passes :
      (codec : Codec) (input : CleanupCommandInput)
      → Passes st (is_lawful st) (Cleanup.decide_cleanup codec st input)
  unfolding Cleanup.decide_cleanup
  cleanup-Passes codec input = cleanup_kind-Passes codec input input.kind

  item_removed-Keeps :
      (a : CleanupAttempt) (i : ℕ) → Keeps st (is_lawful st) (Cleanup.item_removed st a i)
  unfolding Cleanup.item_removed
  item_removed-Keeps a i = record {
    keep = λ b h.
        Option-Holds _ (Cleanup.first_pending_item a) _ _ (λ _. search free_rules depth 12)
          (λ n _. search (free_rules, request_item-Keeps) depth 12);
  }

  item_failed-Keeps :
      (a : CleanupAttempt) (i : ℕ) (c : Code)
      → Keeps st (is_lawful st) (Cleanup.item_failed st a i c)
  unfolding Cleanup.item_failed
  item_failed-Keeps a i c = record { keep = λ b h. search (free_rules) depth 12 }

  settle_item-Keeps :
      (a : CleanupAttempt) (input : EffectResultInput)
      → Keeps st (is_lawful st) (Cleanup.settle_item st a input)
  unfolding Cleanup.settle_item
  settle_item-Keeps a input = record {
    keep = λ b h. search (free_rules, item_removed-Keeps, item_failed-Keeps) depth 12;
  }

  pub cleanup_result-Passes :
      (input : EffectResultInput)
      → Passes st (is_lawful st) (Cleanup.decide_cleanup_result st input)
  unfolding Cleanup.decide_cleanup_result
  cleanup_result-Passes input = need-Passes _ _ _ _ (λ att e.
      need-Passes _ _ _ _
        (λ item f. search (result_rules, free_rules, then-Passes, settle_item-Keeps) depth 12))
