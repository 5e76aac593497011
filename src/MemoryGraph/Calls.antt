-- ===== src/MemoryGraph/Calls.antt =====
-- Calls, returns and the table of operations of src/MemoryGraphAnalysis.hpp.
use angie.Common.{ℕ, suc, Bool, ltb, List, [], ◌∷◌, if◌then◌else◌}
use angie.Common.Run.{
  Run, Outcome, ok, raise, Result, value, error, pure, of_result, then_value, not_supported, ◌>>=◌,
  ◌>>◌, undefined_behaviour,
}
use angie.Values.{ValueId}
use angie.Mapper.{Mapper, FuncMapper, get_function}
use angie.FrontendTypes.{FrontendTypes}
use angie.Analysis.{State, NodeId, get_value}
use angie.Analysis.Args.{
  OperationArgs, pair_of, get_target, get_operand, get_call_options, arg_count,
}
use angie.Analysis.Branch.{execute_branch}
use angie.Analysis.CommonOperations.{
  value_at, assign_to, noop, abort, create_unknown, bin_op_operation,
}
pub use angie.Analysis.Instructions.{
  FunctionHandle, Instruction, ret_instr, br_instr, bin_op_instr, alloca_instr, load_instr,
  store_instr, call_instr, invoke_instr, cast_instr, get_element_ptr_instr, cmp_instr, abort_instr,
  exit_instr, memset_instr, memcpy_instr, memmove_instr, malloc_instr, free_instr,
  not_supported_instr, noop_instr, terminate_instr, create_unknown_val_instr,
  diagnostics_plot_mem_instr,
}
use angie.Analysis.Operations.{OnNewState, Operation, basic, branch, call, ret, throwing}
use angie.MemoryGraph.{MemoryGraph, holder}
use angie.MemoryGraph.Frames.{
  get_stack_ret_node, set_stack_ret_node, stack_push, stack_pop, stack_pop_value,
}
use angie.MemoryGraph.Operations.{
  load_operation, store_operation, alloca_operation, malloc_operation, memset_operation,
  free_operation, get_element_ptr_operation, cast_operation, cmp_operation,
}

-- The global mapping and the function mapping, which all states share.
pub record Globals (T : Type 0) : Type 0 where
  pub mapping : Mapper
  pub functions : FuncMapper (FunctionHandle T)

-- The loops over the parameters: the values of the operands from `i` on, and their assignment.
module _ {X T : Type 0} where
  unfoldable pub operand_values :
      Mapper → OperationArgs T → ℕ → (params : OperationArgs T) → Run (State X) (List ValueId)
  unfolding get_operand
  operand_values global_mapping args i [] = pure []
  operand_values global_mapping args i (_ ∷ params) = do
    operand ← of_result (get_operand i args)
    v ← value_at global_mapping operand
    vs ← operand_values global_mapping args (suc i) params
    pure (v ∷ vs)

  unfoldable pub assign_params :
      (params : OperationArgs T) → List ValueId → Run (State X) (Unit {0})
  unfolding pair_of
  assign_params [] vs = pure tt
  assign_params (param ∷ params) [] = λ s. raise undefined_behaviour s
  assign_params (param ∷ params) (v ∷ vs) = do
    pair ← of_result (pair_of param)
    assign_to pair v
    assign_params params vs

module _ {T : Type 0} (globals : Globals T) (args : OperationArgs T) where
  -- The lookups of OperationCall; a value that is missing becomes NotSupportedException.
  unfoldable pub call_target : State (MemoryGraph T) → Result NodeId
  unfolding get_call_options get_value get_function
  call_target s = then_value (get_call_options args) λ options.
      elim (get_value globals.mapping s options.id) [
        | error _ ↦ error not_supported
        | value v ↦ then_value (get_function globals.functions v) (λ func. value func.cfg)
      ]

  unfoldable pub call_operation : Run (State (MemoryGraph T)) (Unit {0})
  unfolding get_call_options get_function operand_values get_target stack_push assign_params
  call_operation = do
    options ← of_result (get_call_options args)
    function_id ← value_at globals.mapping options
    func ← of_result (get_function globals.functions function_id)
    call_args ← operand_values globals.mapping args 0 func.params
    target ← of_result (get_target args)
    stack_push target.id
    assign_params func.params call_args

  unfoldable pub ret_operation : Run (State (MemoryGraph T)) (Unit {0})
  unfolding arg_count get_operand stack_pop_value stack_pop
  ret_operation =
      if ltb 2 (arg_count args)
      then (do
        operand ← of_result (get_operand 0 args)
        ret_val ← value_at globals.mapping operand
        stack_pop_value ret_val)
      else stack_pop

-- BasicOperationBranch, with the operand of the instruction.
unfoldable pub branch_operation :
    {T : Type 0} → Mapper → OperationArgs T → (br : Bool) → Run (State (MemoryGraph T)) (Unit {0})
unfolding get_operand execute_branch
branch_operation global_mapping args br = do
  operand ← of_result (get_operand 0 args)
  execute_branch holder.vc holder.set_vc global_mapping operand.id br

abbrev pub beside :
    {G X : Type 0} → G → Outcome (State X) (Unit {0}) → Outcome (G × State X) (Unit {0})
beside g (ok a s) = ok a (g, s)
beside g (raise e s) = raise e (g, s)

-- An operation that leaves what the states share as it is.
abbrev pub unshared : {G X : Type 0} → Run (State X) (Unit {0}) → OnNewState G X
unshared m (g, s) = beside g (m s)

-- MemGraphOpFactory, with the arguments of the instruction. The plot of the memory changes nothing.
unfoldable pub operation_of :
    {G T : Type 0} (fe : FrontendTypes T) (globals : Globals T)
    → Instruction
    → OperationArgs T
    → Operation G (MemoryGraph T)
unfolding branch_operation
operation_of fe globals instruction args = elim instruction [
  | ret_instr ↦ ret get_stack_ret_node (unshared (ret_operation globals args))
  | br_instr ↦ branch (λ br. unshared (branch_operation globals.mapping args br))
  | bin_op_instr ↦ basic (unshared (bin_op_operation fe.types holder globals.mapping args))
  | alloca_instr ↦ basic (unshared (alloca_operation fe globals.mapping args))
  | load_instr ↦ basic (unshared (load_operation fe globals.mapping args))
  | store_instr ↦ basic (unshared (store_operation fe globals.mapping args))
  | call_instr ↦
      call (call_target globals args) set_stack_ret_node (unshared (call_operation globals args))
  | invoke_instr ↦ throwing not_supported
  | cast_instr ↦ basic (unshared (cast_operation fe globals.mapping args))
  | get_element_ptr_instr ↦ basic (unshared (get_element_ptr_operation fe globals.mapping args))
  | cmp_instr ↦ basic (unshared (cmp_operation fe globals.mapping args))
  | abort_instr ↦ basic (unshared (abort args))
  | exit_instr ↦ basic (unshared (abort args))
  | memset_instr ↦ basic (unshared (memset_operation fe globals.mapping args))
  | memcpy_instr ↦ throwing not_supported
  | memmove_instr ↦ throwing not_supported
  | malloc_instr ↦ basic (unshared (malloc_operation fe globals.mapping args))
  | free_instr ↦ basic (unshared (free_operation fe globals.mapping args))
  | not_supported_instr ↦ throwing not_supported
  | noop_instr ↦ basic (unshared (noop args))
  | terminate_instr ↦ basic (unshared (noop args))
  | create_unknown_val_instr ↦
      basic (unshared (create_unknown fe.types holder globals.mapping args))
  | diagnostics_plot_mem_instr ↦ basic (unshared (noop args))
]
