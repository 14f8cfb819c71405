-- ===== src/Kernel/Admit/Delivery.antt =====
-- What the accepted decisions of the delivery chain show: verification and merge, completion, Apply
-- and Cleanup.
use cflow.Base.{
  Bool, true, false, String, Option, none, some, List, [], ◌∷◌, ◌≡◌, refl, ◌==◌, ◌&&◌, ◌||◌, not,
  all, any, arith, if◌then◌else◌, eqb, length, Bool-cases, inl, inr,
}
use cflow.Base.{subst, ap, sym, ◌∙◌}
use cflow.Base.Result.{ok, ◌>>◌}
use cflow.Model.RuntimeStatus
use cflow.Model.NodeKind
use cflow.Model.NodeKind.{NodeKind}
use cflow.Model.NodeStatus
use cflow.Model.ApplyStatus
use cflow.Model.ApplyStatus.{ApplyStatus}
use cflow.Model.CleanupStatus.{CleanupStatus}
use cflow.Model.Runtime.{ApplyAttempt, Attempt, CleanupAttempt, CleanupItem, Node}
use cflow.Model.State.{State, node_at}
use cflow.Model.Effect.{EffectIntent}
use cflow.Model.Decision.{Decision}
use cflow.Kernel.Input.{DispatchInput}
use cflow.Kernel.Facts.{
  has_active_apply, has_blocking_finding, has_running_process, project_mutation_quarantined,
}
use cflow.Kernel.Builder.{◌▸◌, done, new_builder, mutate, effect}
use cflow.Kernel.Codec.{Codec}
use cflow.Kernel.Chain.{succeeded_attempt_of}
use cflow.Kernel.Verify.{
  accepted_attempt, chain_closed, decide_verify_dispatch, delivery_head, task_node_of,
}
use cflow.Kernel.Merge.{decide_merge_dispatch}
use cflow.Kernel.Complete.{
  check_merge, check_merges, decide_complete, delivery_branch, final_verify_of,
}
use cflow.Model.EvidenceKind.{EvidenceKind}
use cflow.Model.Evidence.{evidence_on}
use cflow.Kernel.Apply.{ApplyCommandInput, find_apply_attempt, last_of}
use cflow.Kernel.Deliver.{apply_execute, may_deliver, rebind}
use cflow.Kernel.Cleanup.{
  CleanupCommandInput, check_item, check_items, cleanup_execute, cleanup_manifest_hash, item_at,
  next_item, same_facts, settled_workflow,
}
use cflow.Kernel.Decide.{dispatch_kind}
use cflow.Kernel.Admit.{refuse_tt, refuse-ok, need-ok, bind-ok, then-ok}

unsome {ℓ} : {A : Type ℓ} (x y : A) → some x ≡ some y → x ≡ y
unsome x y e = ap (λ o. elim o [ none ↦ x | some z ↦ z ]) e

-- The task behind a verify or merge Node, open, with the accepted Attempt that the chain delivers.
pub record IsDeliverable (st : State) (id : String) : Type 0 where
  pub node : Node
  pub node_found : node_at st.nodes id ≡ some node
  pub task : Node
  pub task_found : task_node_of st node ≡ ok task
  pub is_open : chain_closed st task ≡ false
  pub attempt : Attempt
  pub attempt_found : succeeded_attempt_of st task.id ≡ some attempt
  pub has_commit : (attempt.end_head == "") ≡ false

module _ (st : State) where
  accepted :
      (task : Node) (a : Attempt)
      → accepted_attempt st task ≡ ok a
      → (succeeded_attempt_of st task.id ≡ some a) × ((a.end_head == "") ≡ false)
  unfolding accepted_attempt
  accepted task a e =
      let (b, (found, e1)) = need-ok _ _ _ a e in
      let (g, e2) = refuse-ok _ _ _ a e1 in (ground (arith, found, e2), ground (arith, g, e2))

  verify-admits :
      (input : DispatchInput) (d : Decision)
      → decide_verify_dispatch st input ≡ ok d
      → IsDeliverable st input.node
  unfolding decide_verify_dispatch
  verify-admits input d h0 =
      let (g1, h1) = refuse-ok _ _ _ d h0 in
      let (g2, h2) = refuse-ok _ _ _ d h1 in
      let (g3, h3) = refuse-ok _ _ _ d h2 in
      let (n, (at, h4)) = need-ok _ _ _ d h3 in
      let (g5, h5) = refuse-ok _ _ _ d h4 in
      let (g6, h6) = refuse-ok _ _ _ d h5 in
      let (g7, h7) = refuse-ok _ _ _ d h6 in
      let (facts, (g8, h8)) = bind-ok _ _ d h7 in
      let (task, (t, h9)) = bind-ok _ _ d h8 in
      let (g10, h10) = refuse-ok _ _ _ d h9 in
      let (a, (e, h11)) = bind-ok _ _ d h10 in
      let (found, commit) = accepted task a e in
      record {
        node = n;
        node_found = at;
        task = task;
        task_found = t;
        is_open = g10;
        attempt = a;
        attempt_found = found;
        has_commit = commit;
      }

  merge-admits :
      (input : DispatchInput) (d : Decision)
      → decide_merge_dispatch st input ≡ ok d
      → IsDeliverable st input.node
  unfolding decide_merge_dispatch
  merge-admits input d h0 =
      let (g1, h1) = refuse-ok _ _ _ d h0 in
      let (g2, h2) = refuse-ok _ _ _ d h1 in
      let (g3, h3) = refuse-ok _ _ _ d h2 in
      let (n, (at, h4)) = need-ok _ _ _ d h3 in
      let (g5, h5) = refuse-ok _ _ _ d h4 in
      let (g6, h6) = refuse-ok _ _ _ d h5 in
      let (task, (t, h7)) = bind-ok _ _ d h6 in
      let (g8, h8) = refuse-ok _ _ _ d h7 in
      let (a, (e, h9)) = bind-ok _ _ d h8 in
      let (found, commit) = accepted task a e in
      record {
        node = n;
        node_found = at;
        task = task;
        task_found = t;
        is_open = g8;
        attempt = a;
        attempt_found = found;
        has_commit = commit;
      }

-- An accepted allocation of a verify or a merge Node finds the Node's agent task on a Branch that is
-- not quarantined, not FAILED, with a SUCCEEDED Attempt that has a commit.
pub delivery-admits :
    (st : State) (input : DispatchInput) (k : NodeKind) (d : Decision)
    → (NodeKind.is_verify k || NodeKind.is_merge k) ≡ true
    → dispatch_kind st input k ≡ ok d
    → IsDeliverable st input.node
unfolding dispatch_kind NodeKind.is_verify NodeKind.is_merge
delivery-admits st input NodeKind.verify d h e = verify-admits st input d e
delivery-admits st input NodeKind.merge d h e = merge-admits st input d e
delivery-admits st input _ d h e = absurd h
  where
    absurd : false ≡ true → IsDeliverable st input.node
    absurd h = cc

final_verify_of-all :
    (ns : List (String × Node)) (found o : Option Node)
    → final_verify_of ns found ≡ ok o
    → all (λ (e : String × Node). NodeStatus.is_succeeded e.1.status) ns ≡ true
unfolding final_verify_of all
final_verify_of-all [] found o e = refl
final_verify_of-all ((k, n) ∷ rest) found o e =
    let (g, e1) = refuse-ok _ _ _ o e in ground (arith, g, final_verify_of-all rest _ o e1)

final_verify_of-any :
    (p : Node → Bool) (ns : List (String × Node)) (found : Option Node) (n : Node)
    → final_verify_of ns found ≡ ok (some n)
    → p n ≡ true
    → (any (λ (e : String × Node). NodeKind.is_final_verify e.1.kind && p e.1) ns
        || elim found [ none ↦ false | some m ↦ p m ])
      ≡ true
unfolding final_verify_of any
final_verify_of-any p [] found n e h = ground (arith, e, h)
final_verify_of-any p ((k, m) ∷ rest) found n e h =
    let (g, e1) = refuse-ok _ _ _ (some n) e in ground (arith, final_verify_of-any p rest _ n e1 h)

-- The SUCCEEDED Attempt of the Node has evidence and started at the head that is delivered.
unfoldable pub is_reviewed : State → Node → Bool
is_reviewed st n = elim (succeeded_attempt_of st n.id) [
  | none ↦ false
  | some fv ↦ not (eqb (length fv.evidence) 0) && fv.start_head == delivery_head st
]

reviewed :
    (st : State) (n : Node) (fv : Attempt)
    → succeeded_attempt_of st n.id ≡ some fv
    → eqb (length fv.evidence) 0 ≡ false
    → (fv.start_head == "" || not (fv.start_head == delivery_head st)) ≡ false
    → is_reviewed st n ≡ true
unfolding is_reviewed
reviewed st n fv m e h = ground (arith, m, e, h)

-- A merge Node has a SUCCEEDED Attempt with commit evidence on the Branch that is delivered.
unfoldable pub is_delivered : State → Node → Bool
is_delivered st n =
    if NodeKind.is_merge n.kind
    then elim (succeeded_attempt_of st n.id) [
      | none ↦ false
      | some ma ↦ evidence_on ma.evidence EvidenceKind.commit (delivery_branch st)
    ]
    else true

check_merge-delivered :
    (st : State) (n : Node)
    → check_merge st n ≡ ok tt
    → elim (succeeded_attempt_of st n.id) [
      | none ↦ false
      | some ma ↦ evidence_on ma.evidence EvidenceKind.commit (delivery_branch st)
    ]
      ≡ true
unfolding check_merge
check_merge-delivered st n e =
    let (ma, (m, e1)) = need-ok _ _ _ tt e in ground (arith, m, refuse_tt _ _ e1)

check_merges-all :
    (st : State) (ns : List (String × Node))
    → check_merges st ns ≡ ok tt
    → all (λ (e : String × Node). is_delivered st e.1) ns ≡ true
unfolding check_merges is_delivered all
check_merges-all st [] e = refl
check_merges-all st ((k, n) ∷ rest) e = elim (Bool-cases (NodeKind.is_merge n.kind)) [
  | inl w ↦
      let (f, e1) = then-ok _ _ tt (
        subst
          (λ b.
            (if b then check_merge st n >> check_merges st rest else check_merges st rest) ≡ ok tt)
          w e) in
      ground (arith, w, check_merge-delivered st n f, check_merges-all st rest e1)
  | inr w ↦ ground (arith, w, check_merges-all st rest (ground (arith, w, e)))
]

-- An accepted completion finds every Node SUCCEEDED and no blocking Finding; some Node of the graph is
-- a final verify Node whose SUCCEEDED Attempt has evidence and started at the head that is delivered,
-- and every merge Node has a SUCCEEDED Attempt with commit evidence on the delivered Branch.
pub complete-shows :
    (st : State) (d : Decision)
    → decide_complete st ≡ ok d
    → ((all (λ (e : String × Node). NodeStatus.is_succeeded e.1.status) st.nodes
          && not (has_blocking_finding st))
        && (any
              (λ (e : String × Node). NodeKind.is_final_verify e.1.kind && is_reviewed st e.1)
              st.nodes
            && all (λ (e : String × Node). is_delivered st e.1) st.nodes))
      ≡ true
unfolding decide_complete
complete-shows st d h0 =
    let (g1, h1) = refuse-ok _ _ _ d h0 in
    let (g2, h2) = refuse-ok _ _ _ d h1 in
    let (g3, h3) = refuse-ok _ _ _ d h2 in
    let (g4, h4) = refuse-ok _ _ _ d h3 in
    let (found, (f, h5)) = bind-ok _ _ d h4 in
    let (n, (g6, h6)) = need-ok _ _ _ d h5 in
    let (fv, (g7, h7)) = need-ok _ _ _ d h6 in
    let (g8, h8) = refuse-ok _ _ _ d h7 in
    let (g9, h9) = refuse-ok _ _ _ d h8 in
    let (m, h10) = then-ok _ _ d h9 in
    ground (
      arith,
      g4,
      final_verify_of-all st.nodes none found f,
      final_verify_of-any (is_reviewed st) st.nodes none n
          (subst (λ o. final_verify_of st.nodes none ≡ ok o) g6 f) (reviewed st n fv g7 g8 g9),
      check_merges-all st st.nodes m,
    )

-- The delivery binds the heads and the preflight facts that the staging recorded.
unfoldable pub binds : ApplyCommandInput → ApplyAttempt → Bool
binds input att =
    (input.target_head == att.target_head && input.integration_head == att.integration_head)
    && (input.preflight_hash == att.preflight_hash && input.fingerprint == att.fingerprint)

may_deliver-shows :
    (input : ApplyCommandInput) (att : ApplyAttempt) (s : ApplyStatus)
    → may_deliver input att s ≡ ok tt
    → (ApplyStatus.is_running s || (ApplyStatus.is_awaiting_confirmation s && binds input att))
      ≡ true
unfolding may_deliver rebind binds ApplyStatus.is_running ApplyStatus.is_awaiting_confirmation
may_deliver-shows input att ApplyStatus.running e = refl
may_deliver-shows input att ApplyStatus.awaiting_confirmation e =
    let (g1, e1) = refuse-ok _ _ _ tt e in
    let (g2, e2) = refuse-ok _ _ _ tt e1 in
    let (g3, e3) = refuse-ok _ _ _ tt e2 in ground (arith, g3, refuse_tt _ _ e3)
may_deliver-shows input att _ e = ground (arith, e)

-- Every item is the confirmed one, and clean.
unfoldable pub is_confirmed : CleanupAttempt → CleanupItem → Bool
is_confirmed att it =
    elim (item_at it.index att.items) [ none ↦ false | some m ↦ same_facts it m ] && not it.dirty

check_items-all :
    (att : CleanupAttempt) (its : List CleanupItem)
    → check_items att its ≡ ok tt
    → all (is_confirmed att) its ≡ true
unfolding check_items check_item is_confirmed all
check_items-all att [] e = refl
check_items-all att (it ∷ its) e =
    let (f, e1) = then-ok _ _ tt e in
    let (g1, f1) = refuse-ok _ _ _ tt f in
    ground (arith, g1, refuse_tt _ _ f1, check_items-all att its e1)

next-confirmed :
    (codec : Codec) (att : CleanupAttempt) (input : CleanupCommandInput) (s : CleanupStatus)
    (it : CleanupItem)
    → s ≡ CleanupStatus.awaiting_confirmation
    → next_item codec att input s ≡ ok it
    → (cleanup_manifest_hash codec input.items == att.manifest.hash
        && all (is_confirmed att) input.items)
      ≡ true
unfolding next_item
next-confirmed codec att input s it w e =
    let (g, e1) = refuse-ok _ _ _ it (ap (λ x. next_item codec att input x) (sym w) ∙ e) in
    let (f, e2) = then-ok _ _ it e1 in ground (arith, g, check_items-all att input.items f)

settled-shows :
    (st : State)
    → settled_workflow st ≡ ok tt
    → (RuntimeStatus.is_terminal st.workflow.runtime && not (has_running_process st)) ≡ true
unfolding settled_workflow
settled-shows st e = let (g, e1) = refuse-ok _ _ _ tt e in ground (arith, g, refuse_tt _ _ e1)

-- An accepted first execution of a Cleanup that awaits its confirmation finds the Workflow terminal,
-- with no managed process, no quarantine of the Project and no Apply in flight, and every observed
-- item clean and unchanged from the manifest, whose hash is that of the observed items.
pub cleanup-admits :
    (codec : Codec) (st : State) (input : CleanupCommandInput) (att : CleanupAttempt) (d : Decision)
    → last_of st.cleanup_attempts ≡ some att
    → att.status ≡ CleanupStatus.awaiting_confirmation
    → cleanup_execute codec st input ≡ ok d
    → ((RuntimeStatus.is_terminal st.workflow.runtime && not (has_running_process st))
        && ((not (project_mutation_quarantined st) && not (has_active_apply st))
            && (cleanup_manifest_hash codec input.items == att.manifest.hash
                && all (is_confirmed att) input.items)))
      ≡ true
unfolding cleanup_execute
cleanup-admits codec st input att d l w h0 =
    let (b, (m, h1)) = need-ok _ _ _ d h0 in
    let (g2, h2) = refuse-ok _ _ _ d h1 in
    let (f, h3) = then-ok _ _ d h2 in
    let (g4, h4) = refuse-ok _ _ _ d h3 in
    let (g5, h5) = refuse-ok _ _ _ d h4 in
    let (it, (n, h6)) = bind-ok _ _ d h5 in
    let same = unsome _ _ (sym l ∙ m) in
    ground (
      arith,
      settled-shows st f,
      g4,
      g5,
      next-confirmed codec att input att.status it w
          (subst (λ x. next_item codec x input x.status ≡ ok it) (sym same) n),
    )

-- An accepted delivery runs the fast-forward of the Apply Attempt that is asked for, or the last one,
-- to its recorded Target; the Attempt is RUNNING, or awaits its confirmation with the heads and the
-- preflight facts that the command binds.
pub execute-binds :
    (st : State) (input : ApplyCommandInput) (d : Decision)
    → apply_execute st input ≡ ok d
    → (att : ApplyAttempt) × (((if input.attempt == ""
            then last_of st.apply_attempts
            else find_apply_attempt st input.attempt)
          ≡ some att)
        × (((ApplyStatus.is_running att.status
                || (ApplyStatus.is_awaiting_confirmation att.status && binds input att))
              ≡ true)
            × (d.effect ≡ some (EffectIntent.apply_fast_forward att.id att.target_head))))
unfolding apply_execute done ◌▸◌ mutate effect new_builder
execute-binds st input d h0 =
    let (att, (m, h1)) = need-ok _ _ _ d h0 in
    let (f, h2) = then-ok _ _ d h1 in
    (att, (m, (may_deliver-shows input att att.status f, ground (arith, h2))))
