-- ===== src/MemoryGraph/Preserved.antt =====
-- Each operation of the memory graph analysis keeps the graph of a state well-formed, and so does a
-- whole run: src/MemoryGraphAnalysis.hpp and VerificationLoop of src/main.cpp.
use angie.Common.{ℕ, suc, Bool, List, [], ◌∷◌}
use angie.Common.Run.{Run, Outcome, ok, raise, of_result, pure, ◌>>=◌, ◌>>◌}
use angie.Common.Outcomes.{Ends, Keeps, Any, IsKeeping, keeping}
use angie.Values.{ValueId}
use angie.Mapper.{Mapper}
use angie.Smg.WellFormed.{IsWellFormed}
use angie.FrontendTypes.{FrontendTypes}
use angie.Analysis.{State, NodeId, CfgNode}
use angie.Analysis.Args.{
  OperArg, OperationArgs, CastOpKind, bit_cast, pair_of, FrontendIdTypePair, get_operand,
}
use angie.Analysis.CommonOperations.{
  value_at, assign_to, noop, abort, create_unknown, bin_op_operation,
}
use angie.Analysis.Loop.{verify}
use angie.Analysis.Loop.Invariant.{KeepsNew, Preserves, IsKept, verify-IsKept}
use angie.MemoryGraph.{MemoryGraph, holder}
use angie.MemoryGraph.Frames.{set_stack_ret_node}
use angie.MemoryGraph.Invariant.{HasGraph, Wf, memory_calls, derived-IsKeeping, branch-IsKeeping}
use angie.MemoryGraph.Operations.{
  load_operation, store_operation, alloca_operation, malloc_operation, memset_operation,
  free_operation, further_offset, get_element_ptr_operation, cast_operation, cmp_operation,
  derive_at_zero, cast_value,
}
use angie.MemoryGraph.Calls.{
  Instruction, ret_instr, br_instr, bin_op_instr, alloca_instr, load_instr, store_instr, call_instr,
  invoke_instr, cast_instr, get_element_ptr_instr, cmp_instr, abort_instr, exit_instr, memset_instr,
  memcpy_instr, memmove_instr, malloc_instr, free_instr, not_supported_instr, noop_instr,
  terminate_instr, create_unknown_val_instr, diagnostics_plot_mem_instr, Globals, operand_values,
  assign_params, call_operation, ret_operation, branch_operation, beside, unshared, operation_of,
}

module _ {T : Type 0} (fe : FrontendTypes T) (m : Mapper) (args : OperationArgs T) where
  load_operation-IsKeeping : IsKeeping (Wf {T = T}) (load_operation fe m args)
  unfolding load_operation
  load_operation-IsKeeping = search memory_calls depth 12

  store_operation-IsKeeping : IsKeeping (Wf {T = T}) (store_operation fe m args)
  unfolding store_operation
  store_operation-IsKeeping = search memory_calls depth 12

  alloca_operation-IsKeeping : IsKeeping (Wf {T = T}) (alloca_operation fe m args)
  unfolding alloca_operation
  alloca_operation-IsKeeping = search memory_calls depth 12

  malloc_operation-IsKeeping : IsKeeping (Wf {T = T}) (malloc_operation fe m args)
  unfolding malloc_operation
  malloc_operation-IsKeeping = search memory_calls depth 12

  memset_operation-IsKeeping : IsKeeping (Wf {T = T}) (memset_operation fe m args)
  unfolding memset_operation
  memset_operation-IsKeeping = search memory_calls depth 12

  free_operation-IsKeeping : IsKeeping (Wf {T = T}) (free_operation fe m args)
  unfolding free_operation
  free_operation-IsKeeping = search memory_calls depth 12

  further-IsKeeping :
      (indexes : ℕ) (type : T) (offset : ValueId)
      → IsKeeping (Wf {T = T}) (further_offset fe m args indexes type offset)
  unfolding further_offset
  further-IsKeeping indexes type offset = search memory_calls depth 12

  get_element_ptr_operation-IsKeeping : IsKeeping (Wf {T = T}) (get_element_ptr_operation fe m args)
  unfolding get_element_ptr_operation
  get_element_ptr_operation-IsKeeping = search (memory_calls, further-IsKeeping) depth 12

  cmp_operation-IsKeeping : IsKeeping (Wf {T = T}) (cmp_operation fe m args)
  unfolding cmp_operation
  cmp_operation-IsKeeping = search memory_calls depth 12

  create_unknown-IsKeeping : IsKeeping (Wf {T = T}) (create_unknown fe.types holder m args)
  unfolding create_unknown
  create_unknown-IsKeeping = search memory_calls depth 12

  bin_op-IsKeeping : IsKeeping (Wf {T = T}) (bin_op_operation fe.types holder m args)
  unfolding bin_op_operation
  bin_op-IsKeeping = search memory_calls depth 12

  noop-IsKeeping : IsKeeping (Wf {T = T}) (noop {X = MemoryGraph T} args)
  unfolding noop
  noop-IsKeeping = search keeping

  abort-IsKeeping : IsKeeping (Wf {T = T}) (abort {X = MemoryGraph T} args)
  unfolding abort
  abort-IsKeeping = search keeping

module _ {T : Type 0} (globals : Globals T) (args : OperationArgs T) where
  -- One operand, or one parameter, before the others.
  operand-IsKeeping :
      (i : ℕ) (rest : Run (State (MemoryGraph T)) (List ValueId))
      → IsKeeping (Wf {T = T}) rest
      → IsKeeping (Wf {T = T}) (do
        operand ← of_result (get_operand i args)
        v ← value_at globals.mapping operand
        vs ← rest
        pure (v ∷ vs))
  operand-IsKeeping i rest h = search memory_calls depth 12

  operands-IsKeeping :
      (i : ℕ) (params : OperationArgs T)
      → IsKeeping (Wf {T = T}) (operand_values globals.mapping args i params)
  unfolding operand_values
  operands-IsKeeping i [] = search keeping depth 12
  operands-IsKeeping i (param ∷ params) =
      operand-IsKeeping i (operand_values globals.mapping args (suc i) params)
        (operands-IsKeeping (suc i) params)

  param-IsKeeping :
      (param : OperArg T) (v : ValueId) (rest : Run (State (MemoryGraph T)) (Unit {0}))
      → IsKeeping (Wf {T = T}) rest
      → IsKeeping (Wf {T = T}) (do pair ← of_result (pair_of param); assign_to pair v; rest)
  param-IsKeeping param v rest h = search memory_calls depth 12

  params-IsKeeping :
      (params : OperationArgs T) (vs : List ValueId)
      → IsKeeping (Wf {T = T}) (assign_params params vs)
  unfolding assign_params
  params-IsKeeping [] vs = search keeping depth 12
  params-IsKeeping (param ∷ params) [] = search keeping depth 12
  params-IsKeeping (param ∷ params) (v ∷ vs) =
      param-IsKeeping param v (assign_params params vs) (params-IsKeeping params vs)

  call_operation-IsKeeping : IsKeeping (Wf {T = T}) (call_operation globals args)
  unfolding call_operation
  call_operation-IsKeeping = search (memory_calls, operands-IsKeeping, params-IsKeeping) depth 12

  ret_operation-IsKeeping : IsKeeping (Wf {T = T}) (ret_operation globals args)
  unfolding ret_operation
  ret_operation-IsKeeping = search memory_calls depth 12

module _ {T : Type 0} (fe : FrontendTypes T) (m : Mapper) (args : OperationArgs T) where
  derive-IsKeeping : (ptr : ValueId) → IsKeeping IsWellFormed (derive_at_zero fe ptr)
  unfolding derive_at_zero
  derive-IsKeeping ptr = record { holds = λ g h. (derived-IsKeeping fe ptr g.vc.zero_id).holds g h }

  cast_value-IsKeeping :
      (target : FrontendIdTypePair T) (lhs : ValueId) (kind : CastOpKind)
      → IsKeeping (Wf {T = T}) (cast_value fe target lhs kind)
  unfolding cast_value
  cast_value-IsKeeping target lhs bit_cast = search (memory_calls, derive-IsKeeping) depth 12
  cast_value-IsKeeping target lhs _ = search memory_calls depth 12

  cast_operation-IsKeeping : IsKeeping (Wf {T = T}) (cast_operation fe m args)
  unfolding cast_operation
  cast_operation-IsKeeping = search (memory_calls, cast_value-IsKeeping) depth 12

  branch_operation-IsKeeping : (br : Bool) → IsKeeping (Wf {T = T}) (branch_operation m args br)
  unfolding branch_operation
  branch_operation-IsKeeping br = search (memory_calls, branch-IsKeeping) depth 12

-- What is left of an operation that keeps its state, with what the states share beside it.
beside-Ends :
    {G T : Type 0} (g : G) (o : Outcome (State (MemoryGraph T)) (Unit {0}))
    → Keeps Wf Any o
    → Ends (λ (_ : Unit {0}) (new : G × State (MemoryGraph T)). HasGraph new.1.extra) (beside g o)
beside-Ends g (ok a s) (h, _) = h
beside-Ends g (raise e s) h = tt

unshared-KeepsNew :
    {G T : Type 0} {run : Run (State (MemoryGraph T)) (Unit {0})}
    → IsKeeping (Wf {T = T}) run
    → KeepsNew {G = G} (HasGraph {T = T}) (unshared run)
unshared-KeepsNew {run} keeps g st h = beside-Ends g (run st) (keeps.holds st h)

module _ (G : Type 0) {T : Type 0} (fe : FrontendTypes T) (globals : Globals T) where
  operation-Preserves :
      (instruction : Instruction) (args : OperationArgs T)
      → Preserves {G = G} HasGraph (operation_of fe globals instruction args)
  unfolding operation_of set_stack_ret_node
  operation-Preserves ret_instr args = unshared-KeepsNew (ret_operation-IsKeeping globals args)
  operation-Preserves br_instr args =
      λ br. unshared-KeepsNew (branch_operation-IsKeeping fe globals.mapping args br)
  operation-Preserves bin_op_instr args =
      unshared-KeepsNew (bin_op-IsKeeping fe globals.mapping args)
  operation-Preserves alloca_instr args =
      unshared-KeepsNew (alloca_operation-IsKeeping fe globals.mapping args)
  operation-Preserves load_instr args =
      unshared-KeepsNew (load_operation-IsKeeping fe globals.mapping args)
  operation-Preserves store_instr args =
      unshared-KeepsNew (store_operation-IsKeeping fe globals.mapping args)
  operation-Preserves call_instr args =
      (λ node x h. h, unshared-KeepsNew (call_operation-IsKeeping globals args))
  operation-Preserves invoke_instr args = tt
  operation-Preserves cast_instr args =
      unshared-KeepsNew (cast_operation-IsKeeping fe globals.mapping args)
  operation-Preserves get_element_ptr_instr args =
      unshared-KeepsNew (get_element_ptr_operation-IsKeeping fe globals.mapping args)
  operation-Preserves cmp_instr args =
      unshared-KeepsNew (cmp_operation-IsKeeping fe globals.mapping args)
  operation-Preserves abort_instr args = unshared-KeepsNew (abort-IsKeeping fe globals.mapping args)
  operation-Preserves exit_instr args = unshared-KeepsNew (abort-IsKeeping fe globals.mapping args)
  operation-Preserves memset_instr args =
      unshared-KeepsNew (memset_operation-IsKeeping fe globals.mapping args)
  operation-Preserves memcpy_instr args = tt
  operation-Preserves memmove_instr args = tt
  operation-Preserves malloc_instr args =
      unshared-KeepsNew (malloc_operation-IsKeeping fe globals.mapping args)
  operation-Preserves free_instr args =
      unshared-KeepsNew (free_operation-IsKeeping fe globals.mapping args)
  operation-Preserves not_supported_instr args = tt
  operation-Preserves noop_instr args = unshared-KeepsNew (noop-IsKeeping fe globals.mapping args)
  operation-Preserves terminate_instr args =
      unshared-KeepsNew (noop-IsKeeping fe globals.mapping args)
  operation-Preserves create_unknown_val_instr args =
      unshared-KeepsNew (create_unknown-IsKeeping fe globals.mapping args)
  operation-Preserves diagnostics_plot_mem_instr args =
      unshared-KeepsNew (noop-IsKeeping fe globals.mapping args)

  -- Every program: whatever instructions and arguments stand at its nodes, and however long the loop
  -- runs, if the first state has a well-formed graph, then so has each state that is ever in the
  -- pool, also where an exception ends the run.
  pub verify-IsWellFormed :
      (cfg : NodeId → CfgNode) (program : NodeId → Instruction × OperationArgs T) (fuel : ℕ)
      (st : State (MemoryGraph T)) (shared : G)
      → IsWellFormed st.extra.graph
      → Keeps (IsKept HasGraph) Any (
          verify cfg
            (λ node. operation_of fe globals (program node).0 (program node).1)
            fuel
            st
            shared)
  verify-IsWellFormed cfg program fuel st shared =
      verify-IsKept HasGraph cfg (λ node. operation_of fe globals (program node).0 (program node).1)
        (λ node. operation-Preserves (program node).0 (program node).1) fuel st shared
