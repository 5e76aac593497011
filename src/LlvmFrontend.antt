-- ===== src/LlvmFrontend.antt =====
-- The nodes of a control flow graph while LlvmCfgParser builds it, and the state of the parser:
-- LlvmCfgNode and LlvmCfgParser of src/LlvmFrontend.cpp and src/LlvmFrontend.hpp.
pub mod Blocks
pub mod Chains
pub mod Links
pub mod Frames
pub mod Supported
pub mod Parsed
pub mod Predicates
pub mod Sequences
pub mod Built
pub mod Complete
pub mod Rounds
pub mod Module
pub mod Keeping
pub mod Entry
pub mod Functions
pub mod Refinement
mod Tests
pub mod Nodes
pub mod Operands
use angie.Common.{ℕ, zero, suc, ◌+◌, Option, none, some, List, [], ◌∷◌, ◌++◌}
use angie.Common.Dict.{Dict, ℕ_key, find, assign}
use angie.Common.Run.{
  Run, Outcome, ok, raise, pure, throw, runtime_error, out_of_range, undefined_behaviour, ◌>>=◌,
  ◌>>◌,
}
use angie.Values.{FrontendId}
use angie.Analysis.{NodeId, CfgNode, terminal, inner}
use angie.Analysis.Args.{OperationArgs}
use angie.Analysis.Instructions.{Instruction}
use angie.Llvm.{BlockId}

-- The class of a node, with what an inner node executes and the LLVM instruction that it is for.
pub data NodeKind (T : Type 0) : Type 0 where
  start_node terminal_node : NodeKind T
  inner_node : Instruction → OperationArgs T → (inner_instruction : FrontendId) → NodeKind T

-- The members of ICfgNode; `none` is a null pointer.
pub record Node (T : Type 0) : Type 0 where
  pub kind : NodeKind T
  pub next : Option NodeId
  pub next_false : Option NodeId
  pub prevs : List NodeId

-- The nodes by their addresses, of which `next_node` is the next one, and the members of the
-- parser.
pub record Parser (T : Type 0) : Type 0 where
  pub nodes : Dict NodeId (Node T)
  pub next_node : NodeId
  pub copy_mapping : Dict BlockId NodeId
  pub parse_and_link : List (BlockId × NodeId × ℕ)
  pub constants : List FrontendId

module _ {T : Type 0} where
  unfoldable pub node_at : NodeId → Run (Parser T) (Node T)
  node_at n s = elim (find n s.nodes) [ none ↦ raise undefined_behaviour s | some nd ↦ ok nd s ]

  -- A read through a pointer.
  abbrev pub deref : Option NodeId → Run (Parser T) NodeId
  deref none = throw undefined_behaviour
  deref (some n) = pure n

  unfoldable pub put_node : NodeId → Node T → Run (Parser T) (Unit {0})
  put_node n nd s = ok tt (record s { nodes = assign n nd s.nodes })

  unfoldable pub new_node : Node T → Run (Parser T) NodeId
  new_node nd s =
      ok s.next_node
        (record s { nodes = assign s.next_node nd s.nodes; next_node = s.next_node + 1 })

  abbrev pub special : NodeKind T → Node T
  special kind = record { kind = kind; next = none; next_false = none; prevs = [] }

  unfoldable pub create_empty : Run (Parser T) NodeId
  unfolding new_node put_node
  create_empty = do
    first ← new_node (special start_node)
    last ← new_node (special terminal_node)
    put_node first (record (special start_node) { next = some last })
    put_node last (record (special terminal_node) { prevs = first ∷ [] })
    pure first

  unfoldable pub insert_new_after :
      Instruction → OperationArgs T → FrontendId → NodeId → Run (Parser T) NodeId
  unfolding node_at new_node put_node
  insert_new_after op args i this = do
    nd ← node_at this
    next ← deref nd.next
    new ← new_node (record {
      kind = inner_node op args i;
      next = some next;
      next_false = none;
      prevs = this ∷ [];
    })
    put_node this (record nd { next = some new })
    pure new

  unfoldable pub insert_new_branch_after :
      Instruction → OperationArgs T → FrontendId → NodeId → Run (Parser T) NodeId
  unfolding node_at new_node put_node
  insert_new_branch_after op args i this = do
    nd ← node_at this
    next ← deref nd.next
    let branch_node : Node T = record {
      kind = inner_node op args i;
      next = some next;
      next_false = none;
      prevs = this ∷ [];
    }
    new ← new_node branch_node
    other ← new_node (special terminal_node)
    put_node new (record branch_node { next_false = some other })
    put_node this (record nd { next = some new })
    pure new

  -- `next.prevs.push_back(next)`
  unfoldable pub push_prev : NodeId → Run (Parser T) (Unit {0})
  unfolding node_at put_node
  push_prev next = do nd ← node_at next; put_node next (record nd { prevs = nd.prevs ++ next ∷ [] })

  -- The test that a pointer leads to a node without a successor, such as a terminal node.
  unfoldable pub check_unlinked : Option NodeId → Run (Parser T) (Unit {0})
  unfolding node_at
  check_unlinked pointer = do
    target ← deref pointer
    nd ← node_at target
    elim nd.next [ none ↦ pure tt | some _ ↦ throw runtime_error ]

  unfoldable pub link_together_true : (prev next : NodeId) → Run (Parser T) (Unit {0})
  unfolding node_at put_node check_unlinked push_prev
  link_together_true prev next = do
    nd ← node_at prev
    check_unlinked nd.next
    put_node prev (record nd { next = some next })
    push_prev next

  unfoldable pub link_together_false : (prev next : NodeId) → Run (Parser T) (Unit {0})
  unfolding node_at put_node check_unlinked push_prev
  link_together_false prev next = do
    nd ← node_at prev
    check_unlinked nd.next_false
    put_node prev (record nd { next_false = some next })
    push_prev next

  unfoldable pub link_together :
      (prev next : NodeId) → (target_index : ℕ) → Run (Parser T) (Unit {0})
  unfolding link_together_true link_together_false
  link_together prev next zero = link_together_true prev next
  link_together prev next (suc zero) = link_together_false prev next
  link_together prev next (suc (suc _)) = throw out_of_range

  -- The node as the analysis sees it. A start node is never reached.
  unfoldable pub cfg_node : Node T → CfgNode
  cfg_node nd = elim nd.kind [
    | terminal_node ↦ terminal
    | start_node ↦ terminal
    | inner_node _ _ _ ↦ elim nd.next [ none ↦ terminal | some next ↦ inner next nd.next_false ]
  ]
