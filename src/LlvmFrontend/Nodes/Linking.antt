-- ===== src/LlvmFrontend/Nodes/Linking.antt =====
-- The links between nodes, LinkTogether of LlvmCfgNode in src/LlvmFrontend.cpp.
use angie.Common.{
  ℕ, zero, suc, ◌≡◌, refl, false, ◌&&◌, none, some, ◌∷◌, [], ◌++◌, ◌==◌, arith, if◌then◌else◌,
  Option-cases, inl, inr,
}
use angie.Common.Dict.{Dict, ℕ_key, find, assign, find-assign}
use angie.Common.Run.{ok}
use angie.Analysis.{NodeId}
use angie.LlvmFrontend.{
  NodeKind, Node, Parser, node_at, put_node, push_prev, check_unlinked, link_together_true,
  link_together_false, link_together,
}
use angie.LlvmFrontend.Nodes.{
  kind_at, pointer_at, SameRest, node_with_next, node_with_next_false, node_without_next,
}

module _ {T : Type 0} where
  -- The pointer of the target index has changed, and no other one.
  pub record Linked (prev next : NodeId) (target_index : ℕ) (s s' : Parser T) : Type 0 where
    pub kinds : (j : NodeId) → kind_at s' j ≡ kind_at s j
    pub nexts :
        (j : NodeId)
        → pointer_at 0 s' j
          ≡ (if prev == j && target_index == 0 then some next else pointer_at 0 s j)
    pub others :
        (j : NodeId)
        → pointer_at 1 s' j
          ≡ (if prev == j && target_index == 1 then some next else pointer_at 1 s j)
    pub next_node : s'.next_node ≡ s.next_node
    pub rest : SameRest s s'

  -- Both links at once, by the pointer that is set.
  with_target : (target_index : ℕ) → (next : NodeId) → Node T → Node T
  with_target zero next nd = record nd { next = some next }
  with_target (suc zero) next nd = record nd { next_false = some next }
  with_target (suc (suc _)) next nd = nd

  module _ (prev next : NodeId) (s : Parser T) where
    linked_nodes : (target_index : ℕ) → (nd nd' : Node T) → Parser T
    linked_nodes index nd nd' = record s {
      nodes =
          assign next (record nd' { prevs = nd'.prevs ++ next ∷ [] })
            (assign prev (with_target index next nd) s.nodes);
    }

    linked_nodes-Linked :
        (index : ℕ) (nd nd' : Node T)
        → find prev s.nodes ≡ some nd
        → find next (assign prev (with_target index next nd) s.nodes) ≡ some nd'
        → Linked prev next index s (linked_nodes index nd nd')
    unfolding linked_nodes kind_at pointer_at with_target
    linked_nodes-Linked zero nd nd' here there =
        let a : Dict NodeId (Node T) = assign prev (record nd { next = some next }) s.nodes in
        let last : Node T = record nd' { prevs = nd'.prevs ++ next ∷ [] } in
        record {
          kinds = λ j. ground (
            arith,
            find-assign prev j (record nd { next = some next }) s.nodes,
            find-assign next j last a,
          );
          nexts = λ j. ground (
            arith,
            find-assign prev j (record nd { next = some next }) s.nodes,
            find-assign next j last a,
          );
          others = λ j. ground (
            arith,
            find-assign prev j (record nd { next = some next }) s.nodes,
            find-assign next j last a,
          );
          next_node = refl;
          rest = record { mapping = refl; queue = refl };
        }
    linked_nodes-Linked (suc zero) nd nd' here there =
        let changed : Node T = record nd { next_false = some next } in
        let a : Dict NodeId (Node T) = assign prev changed s.nodes in
        let last : Node T = record nd' { prevs = nd'.prevs ++ next ∷ [] } in
        record {
          kinds =
              λ j. ground (arith, find-assign prev j changed s.nodes, find-assign next j last a);
          nexts =
              λ j. ground (arith, find-assign prev j changed s.nodes, find-assign next j last a);
          others =
              λ j. ground (arith, find-assign prev j changed s.nodes, find-assign next j last a);
          next_node = refl;
          rest = record { mapping = refl; queue = refl };
        }
    linked_nodes-Linked (suc (suc k)) nd nd' here there =
        let a : Dict NodeId (Node T) = assign prev nd s.nodes in
        let last : Node T = record nd' { prevs = nd'.prevs ++ next ∷ [] } in
        record {
          kinds = λ j. ground (arith, find-assign prev j nd s.nodes, find-assign next j last a);
          nexts = λ j. ground (arith, find-assign prev j nd s.nodes, find-assign next j last a);
          others = λ j. ground (arith, find-assign prev j nd s.nodes, find-assign next j last a);
          next_node = refl;
          rest = record { mapping = refl; queue = refl };
        }

    there_after :
        (index : ℕ) (nd : Node T)
        → (kind : NodeKind T) → kind_at s next ≡ some kind
        → (nd' : Node T) × (find next (assign prev (with_target index next nd) s.nodes) ≡ some nd')
    unfolding kind_at
    there_after index nd kind h =
        elim (Option-cases (find next (assign prev (with_target index next nd) s.nodes))) [
          | inl missing ↦
              absurd (ground (arith, find-assign prev next (with_target index next nd) s.nodes))
          | inr (nd', found) ↦ (nd', found)
        ]

    -- A link of a node whose pointer leads to a node without a successor throws nothing.
    pub link_together-Linked :
        (index t : ℕ) {kind target : NodeKind T}
        → pointer_at index s prev ≡ some t
        → kind_at s t ≡ some target
        → pointer_at 0 s t ≡ none
        → kind_at s next ≡ some kind
        → (s' : Parser T) × (link_together prev next index s ≡ ok tt s')
          × Linked prev next index s s'
    unfolding link_together link_together_true link_together_false check_unlinked push_prev node_at
        put_node kind_at pointer_at linked_nodes with_target
    link_together-Linked zero t {kind} points unlinked_kind unlinked there =
        let (nd, found, pointer) = node_with_next s prev points in
        let (target, target_found, free) = node_without_next s t unlinked_kind unlinked in
        let (nd', found') = there_after zero nd kind there in
        (linked_nodes zero nd nd', ground arith, linked_nodes-Linked zero nd nd' found found')
    link_together-Linked (suc zero) t {kind} points unlinked_kind unlinked there =
        let (nd, found, pointer) = node_with_next_false s prev points in
        let (target, target_found, free) = node_without_next s t unlinked_kind unlinked in
        let (nd', found') = there_after (suc zero) nd kind there in
        (
          linked_nodes (suc zero) nd nd',
          ground arith,
          linked_nodes-Linked (suc zero) nd nd' found found',
        )
    link_together-Linked (suc (suc _)) t points unlinked_kind unlinked there = absurd (ground arith)

  pub Linked-pointer :
      {prev next index : ℕ} {s s' : Parser T}
      → Linked prev next index s s'
      → (i : ℕ) (k : NodeId) → (prev == k && index == i) ≡ false
      → pointer_at i s' k ≡ pointer_at i s k
  unfolding pointer_at
  Linked-pointer linked zero k differs = ground (arith, linked.nexts k)
  Linked-pointer linked (suc zero) k differs = ground (arith, linked.others k)
  Linked-pointer linked (suc (suc _)) k differs = refl

  pub Linked-set :
      {prev next : NodeId} {index t : ℕ} {s s' : Parser T}
      → Linked prev next index s s'
      → pointer_at index s prev ≡ some t
      → pointer_at index s' prev ≡ some next
  unfolding pointer_at
  Linked-set {prev} {index = zero} linked points = ground (arith, linked.nexts prev)
  Linked-set {prev} {index = suc zero} linked points = ground (arith, linked.others prev)
  Linked-set {prev} {index = suc (suc _)} linked points = ground arith
