-- ===== src/LlvmFrontend/Blocks.antt =====
-- The basic blocks and the links between them: ParseBasicBlock, LinkWithOrPlanProcessing and the
-- loop at the end of ParseModule, in src/LlvmFrontend.cpp.
use angie.Common.{ℕ, zero, suc, Bool, true, false, none, some, List, [], ◌∷◌, ◌++◌, if◌then◌else◌}
use angie.Common.Dict.{ℕ_key, find, assign}
use angie.Common.Run.{Run, ok, pure, throw, of_result, undefined_behaviour, ◌>>=◌, ◌>>◌}
use angie.Values.{FrontendId}
use angie.Analysis.{NodeId}
use angie.Analysis.Args.{OperationArgs}
use angie.Analysis.Instructions.{Instruction, noop_instr}
use angie.Llvm.{Llvm, BlockId, Opcode, ret, br}
use angie.LlvmFrontend.{
  Parser, node_at, deref, create_empty, insert_new_after, insert_new_branch_after, link_together,
}
use angie.LlvmFrontend.Operands.{
  get_operation_for, get_oper_args_for_instr, constants_among, parsed_operands,
}

module _ {T : Type 0} where
  unfoldable pub set_mapped_cfg_node : BlockId → NodeId → Run (Parser T) (Unit {0})
  set_mapped_cfg_node bb n s = ok tt (record s { copy_mapping = assign bb n s.copy_mapping })

  unfoldable pub plan_processing : BlockId → NodeId → ℕ → Run (Parser T) (Unit {0})
  plan_processing bb node index s =
      ok tt (record s { parse_and_link = s.parse_and_link ++ (bb, node, index) ∷ [] })

  unfoldable pub link_with_or_plan_processing :
      NodeId → (next_block : BlockId) → (target_index : ℕ) → Run (Parser T) (Unit {0})
  unfolding link_together plan_processing
  link_with_or_plan_processing current next_block target_index s =
      elim (find next_block s.copy_mapping) [
        | some node ↦ link_together current node target_index s
        | none ↦ plan_processing next_block current target_index s
      ]

module _ {T : Type 0} (llvm : Llvm T) where
  unfoldable pub queue_constants : FrontendId → Run (Parser T) (Unit {0})
  unfolding constants_among parsed_operands
  queue_constants instr s = ok tt (record s {
    constants =
        s.constants ++ constants_among llvm (parsed_operands llvm (llvm.get_opcode instr) instr);
  })

  -- GetOperArgsForInstr, with the constants that it queues.
  unfoldable pub args_for : FrontendId → Run (Parser T) (OperationArgs T)
  unfolding get_oper_args_for_instr queue_constants
  args_for instr = do
    args ← of_result (get_oper_args_for_instr llvm instr)
    queue_constants instr
    pure args

  -- Both kinds of branch. The node of an unconditional one does nothing.
  unfoldable pub parse_jump : OperationArgs T → FrontendId → NodeId → Run (Parser T) (Unit {0})
  unfolding insert_new_after link_with_or_plan_processing
  parse_jump args instr current = do
    node ← insert_new_after noop_instr args instr current
    link_with_or_plan_processing node (llvm.get_successor instr 0) 0

  unfoldable pub parse_branch :
      Instruction → OperationArgs T → FrontendId → NodeId → Run (Parser T) (Unit {0})
  unfolding insert_new_branch_after link_with_or_plan_processing
  parse_branch op args instr current = do
    node ← insert_new_branch_after op args instr current
    link_with_or_plan_processing node (llvm.get_successor instr 0) 0
    link_with_or_plan_processing node (llvm.get_successor instr 1) 1

  -- The switch on the last instruction: no node is made for a terminator that is not supported.
  unfoldable pub insert_terminator :
      Opcode → Instruction → OperationArgs T → FrontendId → NodeId → Run (Parser T) (Unit {0})
  unfolding insert_new_after parse_jump parse_branch
  insert_terminator br op args instr current =
      if llvm.is_unconditional instr
      then parse_jump args instr current
      else parse_branch op args instr current
  insert_terminator ret op args instr current = insert_new_after op args instr current >> pure tt
  insert_terminator _ op args instr current = pure tt

  unfoldable pub parse_terminator : FrontendId → (current : NodeId) → Run (Parser T) (Unit {0})
  unfolding get_operation_for args_for insert_terminator
  parse_terminator instr current = do
    op ← of_result (get_operation_for llvm instr)
    args ← args_for instr
    insert_terminator (llvm.get_opcode instr) op args instr current

  -- The instructions of a block. A block without a terminator has no defined end.
  unfoldable pub parse_instructions :
      List FrontendId → (current : NodeId) → Run (Parser T) (Unit {0})
  unfolding get_operation_for args_for insert_new_after parse_terminator
  parse_instructions [] current = throw undefined_behaviour
  parse_instructions (instr ∷ instrs) current =
      if llvm.is_terminator instr then parse_terminator instr current else (do
        op ← of_result (get_operation_for llvm instr)
        args ← args_for instr
        node ← insert_new_after op args instr current
        parse_instructions instrs node)

  unfoldable pub parse_new_block : BlockId → Run (Parser T) NodeId
  unfolding create_empty parse_instructions node_at set_mapped_cfg_node
  parse_new_block bb = do
    zero_node ← create_empty
    parse_instructions (llvm.instructions bb) zero_node
    nd ← node_at zero_node
    first ← deref nd.next
    set_mapped_cfg_node bb first
    pure first

  unfoldable pub parse_basic_block : BlockId → Run (Parser T) NodeId
  unfolding parse_new_block
  parse_basic_block bb s = elim (find bb s.copy_mapping) [
    | some node ↦ ok node s
    | none ↦ parse_new_block bb s
  ]

  -- A round of the loop over the planned blocks.
  unfoldable pub link_planned_block : BlockId × NodeId × ℕ → Run (Parser T) (Unit {0})
  unfolding parse_basic_block link_together
  link_planned_block (bb, prev, index) = do
    start ← parse_basic_block bb
    link_together prev start index

  -- `true` says that the queue was emptied, and `false` that the fuel has ended.
  unfoldable pub link_planned : ℕ → Run (Parser T) Bool
  unfolding link_planned_block
  link_planned zero s = ok (elim s.parse_and_link [ [] ↦ true | _ ∷ _ ↦ false ]) s
  link_planned (suc fuel) s = elim s.parse_and_link [
    | [] ↦ ok true s
    | entry ∷ entries ↦
        (link_planned_block entry >> link_planned fuel) (record s { parse_and_link = entries })
  ]
