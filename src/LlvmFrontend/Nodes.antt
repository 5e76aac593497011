-- ===== src/LlvmFrontend/Nodes.antt =====
-- The members of the nodes of src/LlvmFrontend.cpp by their addresses.
pub mod Insertion
pub mod Linking
use angie.Common.{
  ℕ, zero, suc, ◌+◌, ◌<◌, ◌≡◌, refl, false, ◌&&◌, Option, none, some, ◌∷◌, [], ◌++◌, ◌==◌, arith,
  if◌then◌else◌, Option-cases, inl, inr,
}
use angie.Common.Dict.{Dict, ℕ_key, find, assign, find-assign}
use angie.Common.Run.{ok}
use angie.Values.{FrontendId}
use angie.Analysis.{NodeId}
use angie.Analysis.Args.{OperationArgs}
use angie.Analysis.Instructions.{Instruction}
use angie.LlvmFrontend.{
  NodeKind, start_node, terminal_node, inner_node, Node, Parser, node_at, new_node, put_node,
  special, create_empty, insert_new_after, insert_new_branch_after, push_prev, check_unlinked,
  link_together_true, link_together_false, link_together,
}

module _ {T : Type 0} where
  unfoldable pub kind_at : Parser T → NodeId → Option (NodeKind T)
  kind_at s n = elim (find n s.nodes) [ none ↦ none | some nd ↦ some nd.kind ]

  -- The pointers `next` and `nextFalse`, by the index of the target.
  pub pointer_at : (target_index : ℕ) → Parser T → NodeId → Option NodeId
  pointer_at zero s n = elim (find n s.nodes) [ none ↦ none | some nd ↦ nd.next ]
  pointer_at (suc zero) s n = elim (find n s.nodes) [ none ↦ none | some nd ↦ nd.next_false ]
  pointer_at (suc (suc _)) s n = none

  -- What is the same but for the nodes.
  pub record SameRest (s s' : Parser T) : Type 0 where
    pub mapping : s'.copy_mapping ≡ s.copy_mapping
    pub queue : s'.parse_and_link ≡ s.parse_and_link

  pub node_with_next :
      (s : Parser T) (n : NodeId) {t : NodeId}
      → pointer_at 0 s n ≡ some t
      → (nd : Node T) × (find n s.nodes ≡ some nd) × (nd.next ≡ some t)
  unfolding pointer_at
  node_with_next s n h = elim (Option-cases (find n s.nodes)) [
    | inl missing ↦ absurd (ground arith)
    | inr (nd, found) ↦ (nd, found, ground arith)
  ]

  pub node_with_next_false :
      (s : Parser T) (n : NodeId) {t : NodeId}
      → pointer_at 1 s n ≡ some t
      → (nd : Node T) × (find n s.nodes ≡ some nd) × (nd.next_false ≡ some t)
  unfolding pointer_at
  node_with_next_false s n h = elim (Option-cases (find n s.nodes)) [
    | inl missing ↦ absurd (ground arith)
    | inr (nd, found) ↦ (nd, found, ground arith)
  ]

  pub node_without_next :
      (s : Parser T) (n : NodeId) {kind : NodeKind T}
      → kind_at s n ≡ some kind
      → pointer_at 0 s n ≡ none
      → (nd : Node T) × (find n s.nodes ≡ some nd) × (nd.next ≡ none)
  unfolding kind_at pointer_at
  node_without_next s n there h = elim (Option-cases (find n s.nodes)) [
    | inl missing ↦ absurd (ground arith)
    | inr (nd, found) ↦ (nd, found, ground arith)
  ]

  -- No node has a third pointer.
  pub pointer_at-third :
      (index : ℕ) (s : Parser T) (n : NodeId) → pointer_at (suc (suc index)) s n ≡ none
  unfolding pointer_at
  pointer_at-third index s n = refl

  -- The same nodes and the same map of blocks.
  pub record Unchanged (s s' : Parser T) : Type 0 where
    pub kinds : (j : NodeId) → kind_at s' j ≡ kind_at s j
    pub pointers : (i : ℕ) (j : NodeId) → pointer_at i s' j ≡ pointer_at i s j
    pub next_node : s'.next_node ≡ s.next_node
    pub mapping : s'.copy_mapping ≡ s.copy_mapping

  pub kind_at-nodes :
      (s s' : Parser T) → s'.nodes ≡ s.nodes → (j : NodeId) → kind_at s' j ≡ kind_at s j
  unfolding kind_at
  kind_at-nodes s s' nodes j = ground arith

  pub pointer_at-nodes :
      (s s' : Parser T)
      → s'.nodes ≡ s.nodes
      → (i : ℕ) (j : NodeId) → pointer_at i s' j ≡ pointer_at i s j
  unfolding pointer_at
  pointer_at-nodes s s' nodes zero j = ground arith
  pointer_at-nodes s s' nodes (suc zero) j = ground arith
  pointer_at-nodes s s' nodes (suc (suc _)) j = refl

  pub same-Unchanged :
      (s s' : Parser T)
      → s'.nodes ≡ s.nodes
      → s'.next_node ≡ s.next_node
      → s'.copy_mapping ≡ s.copy_mapping
      → Unchanged s s'
  same-Unchanged s s' nodes next_node mapping = record {
    kinds = kind_at-nodes s s' nodes;
    pointers = pointer_at-nodes s s' nodes;
    next_node = next_node;
    mapping = mapping;
  }
