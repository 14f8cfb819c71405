-- ===== src/Kernel/Manifest/Safe.antt =====
-- Which Nodes the reconciliation of ClassifyManifest (safety.go) keeps.
use cflow.Base.{
  Bool, true, false, String, none, some, List, [], ◌∷◌, ◌≡◌, refl, ◌==◌, ◌&&◌, ◌||◌, not, all, any,
  find, arith, eq_refl, eq_iff, inl, inr, Bool-cases, Option-cases, subst, sym, if◌then◌else◌,
}
use cflow.Model.NodeStatus
use cflow.Model.NodeStatus.{NodeStatus}
use cflow.Model.Runtime.{Node}
use cflow.Model.State.{State, node_at}
use cflow.Kernel.Builder.{is_in}
use cflow.Kernel.Facts.{branch_quarantined, sorted_node_ids}
use cflow.Kernel.Manifest.{
  ManifestAction, ManifestActionKind, act, action_at, classify, classify_manifest, classify_node,
  classify_status, contaminate, extend, listed,
}

-- A Node, where there is one, that neither failed nor stands on a quarantined Branch.
unfoldable pub is_clean : State → String → Bool
is_clean st id = elim (node_at st.nodes id) [
  | none ↦ true
  | some n ↦ not (branch_quarantined st n.branch) && not (NodeStatus.is_failed n.status)
]

-- A Node that is reused or resumed.
unfoldable pub is_kept : ManifestActionKind → Bool
is_kept ManifestActionKind.reuse_succeeded = true
is_kept ManifestActionKind.resume_interrupted = true
is_kept _ = false

-- A Node is kept only unchanged and clean.
unfoldable pub is_safe : State → (String → Bool) → ManifestAction → Bool
is_safe st unchanged a = not (is_kept a.action) || (unchanged a.node && is_clean st a.node)

found-all :
    (p q : ManifestAction → Bool) (xs : List ManifestAction) (x : ManifestAction)
    → all q xs ≡ true
    → find p xs ≡ some x
    → q x ≡ true
unfolding find all
found-all p q [] x h e = ground (arith, e)
found-all p q (y ∷ ys) x h e = step (p y) e (found-all p q ys x (ground (arith, h)))
  where
    step :
        (t : Bool)
        → (if t then some y else find p ys) ≡ some x
        → (find p ys ≡ some x → q x ≡ true)
        → q x ≡ true
    step true f rest = ground (arith, f, h)
    step false f rest = rest f

turned : (i id : String) → (i == id) ≡ false → (id == i) ≡ false
turned i id f = elim (Bool-cases (id == i)) [
  | inl t ↦
      let same = (eq_iff id i).0 t in
      let g = subst (λ x. (i == x) ≡ false) same f in ground (arith, g, eq_refl i)
  | inr g ↦ g
]

members-wider :
    (i : String) (ids rest : List String)
    → all (λ (id : String). is_in id ids) rest ≡ true
    → all (λ (id : String). is_in id (i ∷ ids)) rest ≡ true
unfolding is_in any all
members-wider i ids [] h = refl
members-wider i ids (id ∷ rest) h = ground (arith, h, members-wider i ids rest)

own-members : (ids : List String) → all (λ (id : String). is_in id ids) ids ≡ true
unfolding is_in any all
own-members [] = refl
own-members (i ∷ ids) = ground (arith, eq_refl i, members-wider i ids ids (own-members ids))

listed-all :
    (q : ManifestAction → Bool) (xs : List ManifestAction) (ids : List String)
    → all q xs ≡ true
    → all q (listed xs ids) ≡ true
unfolding listed all action_at
listed-all q xs [] h = refl
listed-all q xs (id ∷ ids) h =
    let p = λ (a : ManifestAction). a.node == id in
    let rest = listed-all q xs ids h in
    elim (Option-cases (find p xs)) [
      | inl e ↦ ground (arith, e, rest)
      | inr (a, e) ↦ ground (arith, e, rest, found-all p q xs a h e)
    ]

module _ (st : State) where
  contaminate-first :
      (id : String) (ids : List String)
      → action_at (contaminate st (id ∷ ids)) id ≡ none
      → is_clean st id ≡ true
  unfolding contaminate action_at find is_clean act
  contaminate-first id ids e = ground (arith, e, eq_refl id)

  contaminate-rest :
      (i id : String) (ids : List String)
      → (i == id) ≡ false
      → action_at (contaminate st (i ∷ ids)) id ≡ none
      → action_at (contaminate st ids) id ≡ none
  unfolding contaminate action_at find act
  contaminate-rest i id ids f e = ground (arith, e, f)

  contaminate-covers :
      (ids : List String) (id : String)
      → is_in id ids ≡ true
      → action_at (contaminate st ids) id ≡ none
      → is_clean st id ≡ true
  unfolding is_in any
  contaminate-covers [] id h e = ground (arith, h)
  contaminate-covers (i ∷ ids) id h e = elim (Bool-cases (i == id)) [
    | inl t ↦
        let same = (eq_iff i id).0 t in
        subst (λ x. is_clean st x ≡ true) same
          (contaminate-first i ids
            (subst (λ x. action_at (contaminate st (i ∷ ids)) x ≡ none) (sym same) e))
    | inr f ↦
        contaminate-covers ids id (ground (arith, h, turned i id f)) (contaminate-rest i id ids f e)
  ]

module _ (st : State) (unchanged resumable : String → Bool) where
  contaminate-safe : (ids : List String) → all (is_safe st unchanged) (contaminate st ids) ≡ true
  unfolding contaminate all is_safe is_kept act
  contaminate-safe [] = refl
  contaminate-safe (id ∷ ids) = ground (arith, contaminate-safe ids)

  status-safe :
      (id : String) (s : NodeStatus) (a : ManifestAction)
      → is_clean st id ≡ true
      → classify_status (unchanged id) (resumable id) id s ≡ some a
      → is_safe st unchanged a ≡ true
  unfolding classify_status is_safe is_kept act NodeStatus.is_ready NodeStatus.is_pending
  status-safe id NodeStatus.succeeded a c e = ground (arith, c, e)
  status-safe id NodeStatus.ready a c e = ground (arith, c, e)
  status-safe id NodeStatus.pending a c e = ground (arith, c, e)
  status-safe id NodeStatus.cancelled a c e = ground (arith, e)
  status-safe id NodeStatus.skipped a c e = ground (arith, e)
  status-safe id s a c e = ground (arith, e)

  node-safe :
      (actions : List ManifestAction) (id : String) (n : Node) (a : ManifestAction)
      → is_clean st id ≡ true
      → classify_node st (unchanged id) (resumable id) actions id n ≡ some a
      → is_safe st unchanged a ≡ true
  unfolding classify_node is_safe is_kept act
  node-safe actions id n a c e = ground (arith, e, status-safe id n.status a c)

  -- What holds of the actions between two steps of the second pass.
  record IsCovering (ids : List String) (actions : List ManifestAction) : Type 0 where
    pub safe : all (is_safe st unchanged) actions ≡ true
    pub covers :
        (id : String) → is_in id ids ≡ true → action_at actions id ≡ none → is_clean st id ≡ true

  kept-same :
      (actions : List ManifestAction) (id : String) (b : ManifestAction)
      → action_at actions id ≡ some b
      → actions ≡ extend st unchanged resumable actions id
  unfolding extend
  kept-same actions id b e = ground (arith, e)

  missing-same :
      (actions : List ManifestAction) (id : String)
      → action_at actions id ≡ none
      → node_at st.nodes id ≡ none
      → actions ≡ extend st unchanged resumable actions id
  unfolding extend
  missing-same actions id e f = ground (arith, e, f)

  skipped-same :
      (actions : List ManifestAction) (id : String) (n : Node)
      → action_at actions id ≡ none
      → node_at st.nodes id ≡ some n
      → classify_node st (unchanged id) (resumable id) actions id n ≡ none
      → actions ≡ extend st unchanged resumable actions id
  unfolding extend
  skipped-same actions id n e f g = ground (arith, e, f, g)

  added-same :
      (actions : List ManifestAction) (id : String) (n : Node) (a : ManifestAction)
      → action_at actions id ≡ none
      → node_at st.nodes id ≡ some n
      → classify_node st (unchanged id) (resumable id) actions id n ≡ some a
      → (a ∷ actions) ≡ extend st unchanged resumable actions id
  unfolding extend
  added-same actions id n a e f g = ground (arith, e, f, g)

  added-IsCovering :
      (ids : List String) (actions : List ManifestAction) (a : ManifestAction)
      → is_safe st unchanged a ≡ true
      → IsCovering ids actions
      → IsCovering ids (a ∷ actions)
  unfolding all action_at find
  added-IsCovering ids actions a s h = record {
    safe = ground (arith, s, h.safe);
    covers = λ id m e. h.covers id m (ground (arith, e));
  }

  extend-IsCovering :
      (ids : List String) (actions : List ManifestAction) (id : String)
      → is_in id ids ≡ true
      → IsCovering ids actions
      → IsCovering ids (extend st unchanged resumable actions id)
  unfolding extend
  extend-IsCovering ids actions id m h = elim (Option-cases (action_at actions id)) [
    | inr (b, e) ↦ subst (IsCovering ids) (kept-same actions id b e) h
    | inl e ↦ elim (Option-cases (node_at st.nodes id)) [
      | inl f ↦ subst (IsCovering ids) (missing-same actions id e f) h
      | inr (n, f) ↦
          elim (Option-cases (classify_node st (unchanged id) (resumable id) actions id n)) [
            | inl g ↦ subst (IsCovering ids) (skipped-same actions id n e f g) h
            | inr (a, g) ↦
                subst (IsCovering ids) (added-same actions id n a e f g)
                  (added-IsCovering ids actions a (node-safe actions id n a (h.covers id m e) g) h)
          ]
    ]
  ]

  classify-safe :
      (ids rest : List String) (actions : List ManifestAction)
      → all (λ (id : String). is_in id ids) rest ≡ true
      → IsCovering ids actions
      → all (is_safe st unchanged) (classify st unchanged resumable rest actions) ≡ true
  unfolding classify all
  classify-safe ids [] actions m h = h.safe
  classify-safe ids (id ∷ rest) actions m h =
      classify-safe ids rest _ (ground (arith, m))
        (extend-IsCovering ids actions id (ground (arith, m)) h)

-- Whatever Nodes are taken to be unchanged and resumable, the reconciliation of a replacement reuses
-- or resumes a Node only if it is unchanged, did not fail, and its Branch is not quarantined.
pub classify_manifest-safe :
    (st : State) (unchanged resumable : String → Bool)
    → all (is_safe st unchanged) (classify_manifest st unchanged resumable) ≡ true
unfolding classify_manifest
classify_manifest-safe st unchanged resumable =
    let ids = sorted_node_ids st in
    listed-all (is_safe st unchanged) _ ids (
      classify-safe st unchanged resumable ids ids (contaminate st ids) (own-members ids) (record {
        safe = contaminate-safe st unchanged resumable ids;
        covers = contaminate-covers st ids;
      }))
