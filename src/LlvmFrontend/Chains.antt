-- ===== src/LlvmFrontend/Chains.antt =====
-- What LlvmCfgParser of src/LlvmFrontend.cpp has built while blocks are still planned: the chains of
-- nodes of the parsed blocks, and the entries of the queue parseAndLinkTogether.
use angie.Common.{
  ℕ, suc, ◌+◌, ◌<◌, ◌≡◌, ◌⊎◌, refl, ◌∙◌, Bool, true, false, ◌&&◌, ◌||◌, none, some, List, [], ◌∷◌,
  ◌++◌, ◌==◌, arith, inl, inr,
}
use angie.Common.Dict.{ℕ_key, find}
use angie.Common.Run.{value}
use angie.Values.{FrontendId}
use angie.Analysis.{NodeId}
use angie.Analysis.Args.{OperationArgs}
use angie.Analysis.Instructions.{Instruction, noop_instr}
use angie.Llvm.{Llvm, BlockId, Opcode, ret, br}
use angie.LlvmFrontend.{NodeKind, terminal_node, inner_node, Parser}
use angie.LlvmFrontend.Operands.{get_operation_for, get_oper_args_for_instr}
use angie.LlvmFrontend.Nodes.{kind_at, pointer_at}

abbrev pub length : {A : Type 0} → List A → ℕ
length [] = 0
length (_ ∷ xs) = suc (length xs)

pub length-append : {A : Type 0} (xs ys : List A) → length (xs ++ ys) ≡ length xs + length ys
length-append [] ys = omega arith
length-append (_ ∷ xs) ys = omega (arith, length-append xs ys)

-- A block to parse, and the node and the index of the target to link it with.
abbrev pub Entry : Type 0
Entry = BlockId × NodeId × ℕ

unfoldable pub is_planned : BlockId → NodeId → ℕ → List Entry → Bool
is_planned bb k index [] = false
is_planned bb k index ((bb', k', index') ∷ q) =
    (bb == bb' && k == k' && index == index') || is_planned bb k index q

unfoldable pub is_planned_link : NodeId → ℕ → List Entry → Bool
is_planned_link k index [] = false
is_planned_link k index ((bb', k', index') ∷ q) =
    (k == k' && index == index') || is_planned_link k index q

-- No pointer is to be linked twice.
abbrev pub AreDistinct : List Entry → Type 0
AreDistinct [] = Unit
AreDistinct ((bb, k, index) ∷ q) = (is_planned_link k index q ≡ false) × AreDistinct q

-- A terminator that is given a node: the others are dropped.
unfoldable pub makes_node : Opcode → Bool
makes_node br = true
makes_node ret = true
makes_node _ = false

module _ {T : Type 0} where
  -- The pointer leads to the first node of the block, or to a terminal node while the block is
  -- planned.
  abbrev pub IsTarget : Parser T → List Entry → NodeId → ℕ → BlockId → Type 0
  IsTarget s q n index bb =
      (t : NodeId) × (pointer_at index s n ≡ some t)
      × ((find bb s.copy_mapping ≡ some t)
          ⊎ ((kind_at s t ≡ some terminal_node) × (is_planned bb n index q ≡ true)))

module _ {T : Type 0} (llvm : Llvm T) where
  -- The pointer of a planned link is that of a branch, and leads to a terminal node.
  pub record IsPending (s : Parser T) (bb : BlockId) (k : NodeId) (index : ℕ) : Type 0 where
    pub op : Instruction
    pub args : OperationArgs T
    pub instr : FrontendId
    pub unlinked : NodeId
    pub node : kind_at s k ≡ some (inner_node op args instr)
    pub opcode : llvm.get_opcode instr ≡ br
    pub ends : llvm.is_terminator instr ≡ true
    pub successor : llvm.get_successor instr index ≡ bb
    pub points : pointer_at index s k ≡ some unlinked
    pub free : kind_at s unlinked ≡ some terminal_node

  abbrev pub ArePending : Parser T → List Entry → Type 0
  ArePending s [] = Unit
  ArePending s ((bb, k, index) ∷ q) = IsPending s bb k index × ArePending s q

  -- The invariant of the parser, where the entries `q` are planned.
  pub record IsSound (s : Parser T) (q : List Entry) : Type 0 where
    pub bounded : (n : NodeId) {kind : NodeKind T} → kind_at s n ≡ some kind → n < s.next_node
    pub terminals : (n : NodeId) → kind_at s n ≡ some terminal_node → pointer_at 0 s n ≡ none
    pub mapped :
        (bb : BlockId) {n : NodeId}
        → find bb s.copy_mapping ≡ some n
        → (kind : NodeKind T) × (kind_at s n ≡ some kind)
    pub pending : ArePending s q
    pub distinct : AreDistinct q

  -- The nodes for a list of instructions: one for each, in their order, with the operation and the
  -- arguments of the instruction, up to the terminator. `Target n index bb` says how the pointer of
  -- `n` with this index leads to the block `bb`.
  pub data Chain (s : Parser T) (Target : NodeId → ℕ → BlockId → Type 0)
      : NodeId → List FrontendId → Type 0 where
    step :
        {n m : NodeId} {instr : FrontendId} {instrs : List FrontendId} {op : Instruction}
        {args : OperationArgs T}
        → llvm.is_terminator instr ≡ false
        → get_operation_for llvm instr ≡ value op
        → get_oper_args_for_instr llvm instr ≡ value args
        → kind_at s n ≡ some (inner_node op args instr)
        → pointer_at 0 s n ≡ some m
        → pointer_at 1 s n ≡ none
        → Chain s Target m instrs
        → Chain s Target n (instr ∷ instrs)
    jump :
        {n : NodeId} {instr : FrontendId} {instrs : List FrontendId} {args : OperationArgs T}
        → llvm.is_terminator instr ≡ true
        → llvm.get_opcode instr ≡ br
        → llvm.is_unconditional instr ≡ true
        → get_oper_args_for_instr llvm instr ≡ value args
        → kind_at s n ≡ some (inner_node noop_instr args instr)
        → Target n 0 (llvm.get_successor instr 0)
        → pointer_at 1 s n ≡ none
        → Chain s Target n (instr ∷ instrs)
    branch :
        {n : NodeId} {instr : FrontendId} {instrs : List FrontendId} {op : Instruction}
        {args : OperationArgs T}
        → llvm.is_terminator instr ≡ true
        → llvm.get_opcode instr ≡ br
        → llvm.is_unconditional instr ≡ false
        → get_operation_for llvm instr ≡ value op
        → get_oper_args_for_instr llvm instr ≡ value args
        → kind_at s n ≡ some (inner_node op args instr)
        → Target n 0 (llvm.get_successor instr 0)
        → Target n 1 (llvm.get_successor instr 1)
        → Chain s Target n (instr ∷ instrs)
    return :
        {n t : NodeId} {instr : FrontendId} {instrs : List FrontendId} {op : Instruction}
        {args : OperationArgs T}
        → llvm.is_terminator instr ≡ true
        → llvm.get_opcode instr ≡ ret
        → get_operation_for llvm instr ≡ value op
        → get_oper_args_for_instr llvm instr ≡ value args
        → kind_at s n ≡ some (inner_node op args instr)
        → pointer_at 0 s n ≡ some t
        → kind_at s t ≡ some terminal_node
        → pointer_at 1 s n ≡ none
        → Chain s Target n (instr ∷ instrs)
    dropped :
        {n : NodeId} {instr : FrontendId} {instrs : List FrontendId}
        → llvm.is_terminator instr ≡ true
        → makes_node (llvm.get_opcode instr) ≡ false
        → kind_at s n ≡ some terminal_node
        → Chain s Target n (instr ∷ instrs)

  -- Each parsed block has its chain of nodes.
  abbrev pub AreBuilt : Parser T → List Entry → Type 0
  AreBuilt s q =
      (bb : BlockId) (n : NodeId)
      → find bb s.copy_mapping ≡ some n
      → Chain s (IsTarget s q) n (llvm.instructions bb)

  -- What a chain needs of a later state.
  pub record Keeps (s s' : Parser T) : Type 0 where
    pub kinds :
        (n : NodeId) {kind : NodeKind T} → kind_at s n ≡ some kind → kind_at s' n ≡ some kind
    pub nexts :
        (n : NodeId) (op : Instruction) (args : OperationArgs T) (instr : FrontendId)
        → kind_at s n ≡ some (inner_node op args instr)
        → (llvm.is_terminator instr ≡ false) ⊎ (llvm.get_opcode instr ≡ ret)
        → pointer_at 0 s' n ≡ pointer_at 0 s n
    pub others :
        (n : NodeId) {kind : NodeKind T}
        → kind_at s n ≡ some kind
        → pointer_at 1 s n ≡ none
        → pointer_at 1 s' n ≡ none

  pub same-Keeps : (s : Parser T) → Keeps s s
  same-Keeps s = record {
    kinds = λ n there. there;
    nexts = λ n op args instr node _. refl;
    others = λ n there free. free;
  }

  pub Keeps-trans : {s s' s'' : Parser T} → Keeps s s' → Keeps s' s'' → Keeps s s''
  Keeps-trans first then_keeps = record {
    kinds = λ n there. then_keeps.kinds n (first.kinds n there);
    nexts = λ n op args instr node kept.
        then_keeps.nexts n op args instr (first.kinds n node) kept
        ∙ first.nexts n op args instr node kept;
    others = λ n there free. then_keeps.others n (first.kinds n there) (first.others n there free);
  }

  -- The branches of the later state lead where those of the earlier one did.
  abbrev pub Carries : Parser T → (Target Target' : NodeId → ℕ → BlockId → Type 0) → Type 0
  Carries s Target Target' =
      (n : NodeId) (index : ℕ) (op : Instruction) (args : OperationArgs T) (instr : FrontendId)
      → kind_at s n ≡ some (inner_node op args instr)
      → Target n index (llvm.get_successor instr index)
      → Target' n index (llvm.get_successor instr index)

  pub Chain-Keeps :
      {s s' : Parser T} {Target Target' : NodeId → ℕ → BlockId → Type 0}
      → Keeps s s'
      → Carries s Target Target'
      → {n : NodeId} {instrs : List FrontendId} → Chain s Target n instrs
      → Chain s' Target' n instrs
  Chain-Keeps keeps carries
        (step {n} {instr = instr} {op = op} {args = args} inside op_is args_is node next other
          rest) =
      step inside op_is args_is (keeps.kinds n node)
        (keeps.nexts n op args instr node (inl inside) ∙ next) (keeps.others n node other)
        (Chain-Keeps keeps carries rest)
  Chain-Keeps keeps carries
        (jump {n} {instr = instr} {args = args} ends opcode plain args_is node target other) =
      jump ends opcode plain args_is (keeps.kinds n node)
        (carries n 0 noop_instr args instr node target) (keeps.others n node other)
  Chain-Keeps keeps carries
        (branch {n} {instr = instr} {op = op} {args = args} ends opcode both op_is args_is node
          target other) =
      branch ends opcode both op_is args_is (keeps.kinds n node)
        (carries n 0 op args instr node target) (carries n 1 op args instr node other)
  Chain-Keeps keeps carries
        (return {n} {t} {instr = instr} {op = op} {args = args} ends opcode op_is args_is node next
          last other) =
      return ends opcode op_is args_is (keeps.kinds n node)
        (keeps.nexts n op args instr node (inr opcode) ∙ next) (keeps.kinds t last)
        (keeps.others n node other)
  Chain-Keeps keeps carries (dropped {n} ends opcode last) =
      dropped ends opcode (keeps.kinds n last)

  pub Chain-node :
      {s : Parser T} {Target : NodeId → ℕ → BlockId → Type 0} {n : NodeId}
      {instrs : List FrontendId}
      → Chain s Target n instrs
      → (kind : NodeKind T) × (kind_at s n ≡ some kind)
  Chain-node (step inside op_is args_is node next other rest) = (_, node)
  Chain-node (jump ends opcode plain args_is node target other) = (_, node)
  Chain-node (branch ends opcode both op_is args_is node target other) = (_, node)
  Chain-node (return ends opcode op_is args_is node next last other) = (_, node)
  Chain-node (dropped ends opcode last) = (_, last)
