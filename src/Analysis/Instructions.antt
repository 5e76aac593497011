-- ===== src/Analysis/Instructions.antt =====
-- The operations that a front end asks IOperationFactory of src/IOperation.hpp for, and the handles
-- of functions of src/FrontedValueMapper.hpp.
use angie.Analysis.{NodeId}
use angie.Analysis.Args.{OperationArgs}

-- The methods of IOperationFactory.
pub data Instruction : Type 0 where
  ret_instr br_instr bin_op_instr alloca_instr load_instr store_instr call_instr : Instruction
  invoke_instr cast_instr get_element_ptr_instr cmp_instr abort_instr exit_instr : Instruction
  memset_instr memcpy_instr memmove_instr malloc_instr free_instr : Instruction
  not_supported_instr noop_instr terminate_instr create_unknown_val_instr : Instruction
  diagnostics_plot_mem_instr : Instruction

-- src/FrontedValueMapper.hpp
pub record FunctionHandle (T : Type 0) : Type 0 where
  pub cfg : NodeId
  pub params : OperationArgs T
