-- ===== src/LlvmFrontend/Nodes/Insertion.antt =====
-- The nodes that LlvmCfgNode of src/LlvmFrontend.cpp creates and inserts.
use angie.Common.{◌+◌, ◌<◌, ◌≡◌, refl, none, some, ◌∷◌, [], ◌==◌, arith, if◌then◌else◌}
use angie.Common.Dict.{Dict, ℕ_key, assign, find-assign}
use angie.Common.Run.{ok}
use angie.Values.{FrontendId}
use angie.Analysis.{NodeId}
use angie.Analysis.Args.{OperationArgs}
use angie.Analysis.Instructions.{Instruction}
use angie.LlvmFrontend.{
  start_node, terminal_node, inner_node, Node, Parser, node_at, new_node, put_node, special,
  create_empty, insert_new_after, insert_new_branch_after,
}
use angie.LlvmFrontend.Nodes.{kind_at, pointer_at, SameRest, node_with_next}

module _ {T : Type 0} where
  pub record Created (s s' : Parser T) : Type 0 where
    pub kinds :
        (j : NodeId)
        → kind_at s' j ≡ (
            if s.next_node + 1 == j
            then some terminal_node
            else if s.next_node == j
            then some start_node
            else kind_at s j)
    pub nexts :
        (j : NodeId)
        → pointer_at 0 s' j ≡ (
            if s.next_node + 1 == j
            then none
            else if s.next_node == j
            then some (s.next_node + 1)
            else pointer_at 0 s j)
    pub others :
        (j : NodeId)
        → pointer_at 1 s' j ≡ (
            if s.next_node + 1 == j
            then none
            else if s.next_node == j
            then none
            else pointer_at 1 s j)
    pub next_node : s'.next_node ≡ s.next_node + 2
    pub rest : SameRest s s'

  pub create_empty-Created :
      (s : Parser T) → (s' : Parser T) × (create_empty s ≡ ok s.next_node s') × Created s s'
  unfolding create_empty new_node put_node kind_at pointer_at
  create_empty-Created s =
      let n = s.next_node in
      let a : Dict NodeId (Node T) = assign n (special start_node) s.nodes in
      let b : Dict NodeId (Node T) = assign (n + 1) (special terminal_node) a in
      let first : Node T = record (special start_node) { next = some (n + 1) } in
      let last : Node T = record (special terminal_node) { prevs = n ∷ [] } in
      let c : Dict NodeId (Node T) = assign n first b in
      (
        record s { nodes = assign (n + 1) last c; next_node = n + 1 + 1 },
        refl,
        record {
          kinds = λ j. ground (
            arith,
            find-assign n j (special {T = T} start_node) s.nodes,
            find-assign (n + 1) j (special {T = T} terminal_node) a,
            find-assign n j first b,
            find-assign (n + 1) j last c,
          );
          nexts = λ j. ground (
            arith,
            find-assign n j (special {T = T} start_node) s.nodes,
            find-assign (n + 1) j (special {T = T} terminal_node) a,
            find-assign n j first b,
            find-assign (n + 1) j last c,
          );
          others = λ j. ground (
            arith,
            find-assign n j (special {T = T} start_node) s.nodes,
            find-assign (n + 1) j (special {T = T} terminal_node) a,
            find-assign n j first b,
            find-assign (n + 1) j last c,
          );
          next_node = omega arith;
          rest = record { mapping = refl; queue = refl };
        },
      )

  -- A new inner node between `this` and the node after it, with a pointer to `other` or none.
  pub record Inserted (op : Instruction) (args : OperationArgs T) (i : FrontendId) (this t : NodeId)
      (s s' : Parser T) : Type 0 where
    pub kinds :
        (j : NodeId)
        → kind_at s' j ≡ (if s.next_node == j then some (inner_node op args i) else kind_at s j)
    pub nexts :
        (j : NodeId)
        → pointer_at 0 s' j ≡ (
            if this == j
            then some s.next_node
            else if s.next_node == j
            then some t
            else pointer_at 0 s j)
    pub others :
        (j : NodeId) → pointer_at 1 s' j ≡ (if s.next_node == j then none else pointer_at 1 s j)
    pub next_node : s'.next_node ≡ s.next_node + 1
    pub rest : SameRest s s'

  pub record Branched (op : Instruction) (args : OperationArgs T) (i : FrontendId) (this t : NodeId)
      (s s' : Parser T) : Type 0 where
    pub kinds :
        (j : NodeId)
        → kind_at s' j ≡ (
            if s.next_node + 1 == j
            then some terminal_node
            else if s.next_node == j
            then some (inner_node op args i)
            else kind_at s j)
    pub nexts :
        (j : NodeId)
        → pointer_at 0 s' j ≡ (
            if this == j
            then some s.next_node
            else if s.next_node + 1 == j
            then none
            else if s.next_node == j
            then some t
            else pointer_at 0 s j)
    pub others :
        (j : NodeId)
        → pointer_at 1 s' j ≡ (
            if s.next_node + 1 == j
            then none
            else if s.next_node == j
            then some (s.next_node + 1)
            else pointer_at 1 s j)
    pub next_node : s'.next_node ≡ s.next_node + 2
    pub rest : SameRest s s'

  module _ (op : Instruction) (args : OperationArgs T) (i : FrontendId) (this : NodeId)
      (s : Parser T) {t : NodeId} (points : pointer_at 0 s this ≡ some t)
      (old : this < s.next_node) where
    pub insert_new_after-Inserted :
        (s' : Parser T) × (insert_new_after op args i this s ≡ ok s.next_node s')
        × Inserted op args i this t s s'
    unfolding insert_new_after node_at new_node put_node kind_at pointer_at
    insert_new_after-Inserted =
        let (nd, found, next) = node_with_next s this points in
        let new : Node T = record {
          kind = inner_node op args i;
          next = some t;
          next_false = none;
          prevs = this ∷ [];
        } in
        let a : Dict NodeId (Node T) = assign s.next_node new s.nodes in
        let this' : Node T = record nd { next = some s.next_node } in
        (
          record s { nodes = assign this this' a; next_node = s.next_node + 1 },
          ground arith,
          record {
            kinds = λ j.
                ground (arith, find-assign s.next_node j new s.nodes, find-assign this j this' a);
            nexts = λ j.
                ground (arith, find-assign s.next_node j new s.nodes, find-assign this j this' a);
            others = λ j.
                ground (arith, find-assign s.next_node j new s.nodes, find-assign this j this' a);
            next_node = refl;
            rest = record { mapping = refl; queue = refl };
          },
        )

    pub insert_new_branch_after-Branched :
        (s' : Parser T) × (insert_new_branch_after op args i this s ≡ ok s.next_node s')
        × Branched op args i this t s s'
    unfolding insert_new_branch_after node_at new_node put_node kind_at pointer_at
    insert_new_branch_after-Branched =
        let (nd, found, next) = node_with_next s this points in
        let n = s.next_node in
        let new : Node T = record {
          kind = inner_node op args i;
          next = some t;
          next_false = none;
          prevs = this ∷ [];
        } in
        let new' : Node T = record new { next_false = some (n + 1) } in
        let a : Dict NodeId (Node T) = assign n new s.nodes in
        let b : Dict NodeId (Node T) = assign (n + 1) (special {T = T} terminal_node) a in
        let c : Dict NodeId (Node T) = assign n new' b in
        let this' : Node T = record nd { next = some n } in
        (
          record s { nodes = assign this this' c; next_node = n + 1 + 1 },
          ground arith,
          record {
            kinds = λ j. ground (
              arith,
              find-assign n j new s.nodes,
              find-assign (n + 1) j (special {T = T} terminal_node) a,
              find-assign n j new' b,
              find-assign this j this' c,
            );
            nexts = λ j. ground (
              arith,
              find-assign n j new s.nodes,
              find-assign (n + 1) j (special {T = T} terminal_node) a,
              find-assign n j new' b,
              find-assign this j this' c,
            );
            others = λ j. ground (
              arith,
              find-assign n j new s.nodes,
              find-assign (n + 1) j (special {T = T} terminal_node) a,
              find-assign n j new' b,
              find-assign this j this' c,
            );
            next_node = omega arith;
            rest = record { mapping = refl; queue = refl };
          },
        )
