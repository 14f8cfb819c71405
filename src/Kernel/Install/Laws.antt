-- ===== src/Kernel/Install/Laws.antt =====
-- What an accepted graph install shows.
use cflow.Kernel.Lawful.Free.{same-Holds}
use cflow.Kernel.Builder.{note}
use cflow.Kernel.Builder.{◌▸◌}
use cflow.Model.Fault.{invalid_input}
use cflow.Kernel.Admit.{then-ok}
use cflow.Base.{Option-cases, inl, inr}
use cflow.Base.{
  Bool, true, false, String, Option, none, some, List, [], ◌∷◌, map, ◌≡◌, refl, ◌==◌, ◌&&◌, not,
  any, all, eqb, arith,
}
use cflow.Base.Result.{ok}
use cflow.Model.NodeStatus
use cflow.Model.State.{State, node_at}
use cflow.Model.Decision.{Decision, EventKind, Mutation}
use cflow.Kernel.Builder.{Builder, done, is_in}
use cflow.Kernel.Admit.{refuse-ok, bind-ok}
use cflow.Kernel.Install.{
  InstallNode, GraphInstallInput, check_nodes, is_dangling, check_dependencies, installed,
  install_nodes, decide_graph_install, changes,
}
use cflow.Kernel.Lawful.Rules.{Holds, chain-Holds, mutate-Keeps, note-Keeps, new_builder-Holds}

-- No identity stands twice in the list.
unfoldable pub is_distinct : List InstallNode → Bool
is_distinct [] = true
is_distinct (n ∷ ns) = not (any (λ (m : InstallNode). m.id == n.id) ns) && is_distinct ns

-- Every dependency is a Node of the graph or one that is installed already.
unfoldable pub is_closed : State → List String → List InstallNode → Bool
is_closed st ids = all (λ (n : InstallNode). not (any (is_dangling st ids) n.dependencies))

-- The mutation appends a PENDING Node with no charge under an identity that is new to the graph.
unfoldable pub is_fresh_append : State → Mutation → Bool
is_fresh_append st (Mutation.node_append n) =
    NodeStatus.is_pending n.status
    && (eqb n.retry_charged 0 && elim (node_at st.nodes n.id) [ none ↦ true | some _ ↦ false ])
is_fresh_append st _ = false

module _ (st : State) where
  append-fresh :
      (n : InstallNode)
      → node_at st.nodes n.id ≡ none
      → is_fresh_append st (Mutation.node_append (installed st n)) ≡ true
  unfolding is_fresh_append installed NodeStatus.is_pending
  append-fresh n q = ground (arith, q)

  install_nodes-Holds :
      (ns : List InstallNode) (b c : Builder)
      → Holds st (is_fresh_append st) b
      → install_nodes st ns b ≡ ok c
      → Holds st (is_fresh_append st) c
  unfolding install_nodes
  install_nodes-Holds [] b c h e = same-Holds st (is_fresh_append st) b c (ok b) refl e h
  install_nodes-Holds (n ∷ ns) b c h e = elim (Option-cases (node_at st.nodes n.id)) [
    | inl q ↦
        install_nodes-Holds ns _ c (chain-Holds _ _ _ h (mutate-Keeps _ _ (append-fresh n q)))
          (ground (arith, q, e))
    | inr (old, q) ↦
        install_nodes-Holds ns b c h
          (refuse-ok (changes old n) (invalid_input "") (install_nodes st ns b) c
            (ground (arith, q, e))).1
  ]

  check_dependencies-closed :
      (ids : List String) (ns : List InstallNode)
      → check_dependencies st ids ns ≡ ok tt
      → is_closed st ids ns ≡ true
  unfolding check_dependencies is_closed all
  check_dependencies-closed ids [] e = refl
  check_dependencies-closed ids (n ∷ ns) e =
      let (g, h) = refuse-ok (any (is_dangling st ids) n.dependencies) _ _ tt e in
      ground (arith, g, check_dependencies-closed ids ns h)

done-all :
    (st : State) (p : Mutation → Bool) (b : Builder) (d : Decision)
    → done b ≡ ok d
    → Holds st p b
    → all p d.mutations ≡ true
unfolding done
done-all st p b d e h = ground (arith, e, h.all_pass)

-- Nodes that are none of the seen ones, the newest included, differ from the newest.
unseen-apart :
    (id : String) (seen : List String) (ns : List InstallNode)
    → all (λ (m : InstallNode). not (is_in m.id (id ∷ seen))) ns ≡ true
    → (not (any (λ (m : InstallNode). m.id == id) ns)
        && all (λ (m : InstallNode). not (is_in m.id seen)) ns)
      ≡ true
unfolding all any is_in
unseen-apart id seen [] e = refl
unseen-apart id seen (m ∷ ms) e = ground (arith, e, unseen-apart id seen ms)

-- Both guards of the first loop hold: no identity stands twice, and none is one seen before.
check_nodes-distinct :
    (seen : List String) (ns : List InstallNode)
    → check_nodes seen ns ≡ ok tt
    → (is_distinct ns && all (λ (n : InstallNode). not (is_in n.id seen)) ns) ≡ true
unfolding check_nodes is_distinct all any
check_nodes-distinct seen [] e = refl
check_nodes-distinct seen (n ∷ ns) e0 =
    let (g1, e1) = refuse-ok _ _ _ tt e0 in
    let (g2, e2) = refuse-ok (is_in n.id seen) _ _ tt e1 in
    let (g3, e3) = refuse-ok _ _ _ tt e2 in
    let (g4, e4) = refuse-ok _ _ _ tt e3 in
    let rest = check_nodes-distinct (n.id ∷ seen) ns e4 in
    ground (arith, g2, rest, unseen-apart n.id seen ns)

-- An accepted graph install names each Node once, leaves no dependency dangling, and asks only for
-- PENDING Nodes with no charge under identities that are new to the graph.
pub install-shows :
    (context_reason : String → Option String) (st : State) (input : GraphInstallInput)
    (d : Decision)
    → decide_graph_install context_reason st input ≡ ok d
    → (is_distinct input.nodes
        && (is_closed st (map (λ (n : InstallNode). n.id) input.nodes) input.nodes
            && all (is_fresh_append st) d.mutations))
      ≡ true
unfolding decide_graph_install
install-shows context_reason st input d e0 =
    let (g1, e1) = refuse-ok _ _ _ d e0 in
    let (g2, e2) = refuse-ok _ _ _ d e1 in
    let (g3, e3) = refuse-ok _ _ _ d e2 in
    let (g4, e4) = refuse-ok _ _ _ d e3 in
    let (c5, e5) = then-ok _ _ d e4 in
    let (c6, e6) = then-ok _ _ d e5 in
    let (b, (c7, e7)) = bind-ok _ _ d e6 in
    let fresh = install_nodes-Holds st _ _ b (new_builder-Holds _) c7 in
    let last = b ▸ note EventKind.graph_installed "execution graph installed" in
    ground (
      arith,
      check_nodes-distinct [] input.nodes c5,
      check_dependencies-closed st _ input.nodes c6,
      done-all st (is_fresh_append st) last d e7 (chain-Holds _ b _ fresh (note-Keeps _ _ _)),
    )
