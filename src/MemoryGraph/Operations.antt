-- ===== src/MemoryGraph/Operations.antt =====
-- The operations on memory of src/MemoryGraphAnalysis.hpp: what each does to the new state.
use angie.Common.{ℕ, ltb, none, some, if◌then◌else◌}
use angie.Common.Run.{
  Run, Outcome, ok, raise, value, throw, read, pure, of_result, not_supported, logic_error,
  assertion_failed, ◌>>=◌, ◌>>◌,
}
use angie.Common.Words.{sub64}
use angie.Values.{ValueId, no_flags, mul, add, CmpFlags}
use angie.ValueContainer.{create_val, create_const_int_val, get_constant_int_inner_val}
use angie.ValueContainer.Arith.{bin_op, extend_int, truncate_int}
use angie.ValueContainer.Assume.{truth_word}
use angie.ValueContainer.Compare.{Tribool, is_cmp, is_zero}
use angie.Mapper.{Mapper}
use angie.Smg.Graph.{on_vc}
use angie.FrontendTypes.{FrontendTypes}
use angie.Analysis.{State}
use angie.Analysis.Args.{
  FrontendIdTypePair, OperationArgs, get_target, get_operand, get_operand_count,
  get_cast_op_options, get_cmp_options, CastOpKind, extend, truncate, bit_cast,
}
use angie.Analysis.CommonOperations.{value_at, assign_to}
use angie.MemoryGraph.{
  MemoryGraph, Memory, is_abstract, smg_is_cmp, store, load, allocate_on_stack, malloc, free,
  memset, create_derived_pointer,
}

abbrev pub put_memory :
    {T A : Type 0}
    → State (MemoryGraph T)
    → Outcome (Memory T) A
    → Outcome (State (MemoryGraph T)) A
put_memory s (ok a g) = ok a (record s { extra = record s.extra { graph = g } })
put_memory s (raise e g) = raise e (record s { extra = record s.extra { graph = g } })

-- A call of a member function of the state that works on its memory.
abbrev pub on_memory : {T A : Type 0} → Run (Memory T) A → Run (State (MemoryGraph T)) A
on_memory m s = put_memory s (m s.extra.graph)

-- The constant of a definite answer.
unfoldable pub known_or : {T : Type 0} → Tribool → Run (Memory T) ValueId → Run (Memory T) ValueId
unfolding create_const_int_val
known_or (some b) otherwise = on_vc (create_const_int_val (truth_word b))
known_or none otherwise = otherwise

module _ {T : Type 0} (fe : FrontendTypes T) where
  -- PTR_TYPE has this width.
  abbrev pub ptr_width : ℕ
  ptr_width = fe.types.get_bit_width fe.types.char_pointer

  -- The offset that GetElementPtr adds for its first index: an element's size times the index.
  unfoldable pub first_offset : (element_type : T) (index : ValueId) → Run (Memory T) ValueId
  unfolding create_const_int_val bin_op
  first_offset element_type index = do
    size ← on_vc (create_const_int_val (fe.types.get_size_of element_type))
    on_vc (bin_op index size ptr_width (record { op_kind = mul; flags = no_flags }))

  -- The offset of a field, whose index has to be constant, added to the first offset.
  unfoldable pub second_offset :
      (element_type : T) (offset index : ValueId) → Run (Memory T) ValueId
  unfolding is_abstract get_constant_int_inner_val create_const_int_val bin_op
  second_offset element_type offset index = do
    abstract ← read (λ g. value (is_abstract index g))
    if abstract then throw assertion_failed else (do
      field_index ← read (λ g. get_constant_int_inner_val g.vc index)
      field_offset ←
          on_vc (create_const_int_val (fe.get_struct_element_offset element_type field_index))
      on_vc (bin_op offset field_offset ptr_width (record { op_kind = add; flags = no_flags })))

  -- The answer of the container, and where it has none, that of the graph.
  unfoldable pub compare : (lhs rhs : ValueId) → T → CmpFlags → Run (Memory T) ValueId
  unfolding is_cmp smg_is_cmp create_val known_or
  compare lhs rhs src_type flags = do
    known ← read (λ g. is_cmp g.vc lhs rhs (fe.types.get_bit_width src_type) flags)
    known_or known
        (do pointers ← read (smg_is_cmp lhs rhs flags); known_or pointers (on_vc create_val))

module _ {T : Type 0} (fe : FrontendTypes T) where
  -- The pointer that a bit cast derives, at the offset zero, and drops.
  unfoldable pub derive_at_zero : ValueId → Run (Memory T) ValueId
  unfolding create_derived_pointer
  derive_at_zero ptr g = create_derived_pointer fe ptr g.vc.zero_id g

  -- The branches of the cast.
  unfoldable pub cast_value :
      (target : FrontendIdTypePair T)
      → ValueId
      → CastOpKind
      → Run (State (MemoryGraph T)) (Unit {0})
  unfolding derive_at_zero truncate_int
  cast_value target lhs bit_cast = do
    assign_to target lhs
    derived ← on_memory (derive_at_zero lhs)
    pure tt
  cast_value target lhs extend = assign_to target lhs
  cast_value target lhs truncate = do
    trunc ← on_memory (on_vc (truncate_int lhs))
    assign_to target trunc
  cast_value target lhs _ = throw logic_error

module _ {T : Type 0} (fe : FrontendTypes T) (global_mapping : Mapper)
    (args : OperationArgs T) where
  unfoldable pub load_operation : Run (State (MemoryGraph T)) (Unit {0})
  unfolding get_operand get_target load
  load_operation = do
    ptr ← of_result (get_operand 0 args)
    reg ← of_result (get_target args)
    ptr_id ← value_at global_mapping ptr
    v ← on_memory (load fe ptr_id reg.type)
    assign_to reg v

  unfoldable pub store_operation : Run (State (MemoryGraph T)) (Unit {0})
  unfolding get_operand store
  store_operation = do
    what ← of_result (get_operand 0 args)
    value_id ← value_at global_mapping what
    to ← of_result (get_operand 1 args)
    target ← value_at global_mapping to
    on_memory (store fe target value_id what.type)

  unfoldable pub alloca_operation : Run (State (MemoryGraph T)) (Unit {0})
  unfolding get_operand get_target extend_int allocate_on_stack
  alloca_operation = do
    operand ← of_result (get_operand 0 args)
    count ← value_at global_mapping operand
    target ← of_result (get_target args)
    count64 ← on_memory (on_vc (extend_int count (fe.types.get_bit_width operand.type) no_flags))
    ret_val ← on_memory (allocate_on_stack fe (fe.get_pointer_element_type target.type) count64)
    assign_to target ret_val

  unfoldable pub malloc_operation : Run (State (MemoryGraph T)) (Unit {0})
  unfolding get_operand get_target extend_int malloc
  malloc_operation = do
    operand ← of_result (get_operand 0 args)
    size ← value_at global_mapping operand
    size64 ← on_memory (on_vc (extend_int size (fe.types.get_bit_width operand.type) no_flags))
    ret_val ← on_memory (malloc fe size64)
    target ← of_result (get_target args)
    assign_to target ret_val

  unfoldable pub memset_operation : Run (State (MemoryGraph T)) (Unit {0})
  unfolding get_operand memset
  memset_operation = do
    to ← of_result (get_operand 0 args)
    target ← value_at global_mapping to
    from ← of_result (get_operand 1 args)
    what ← value_at global_mapping from
    length ← of_result (get_operand 2 args)
    len ← value_at global_mapping length
    on_memory (memset fe target what len)

  unfoldable pub free_operation : Run (State (MemoryGraph T)) (Unit {0})
  unfolding get_operand free
  free_operation = do
    operand ← of_result (get_operand 0 args)
    ptr ← value_at global_mapping operand
    on_memory (free fe ptr)

  -- The second index and the check of the number of indices.
  unfoldable pub further_offset :
      (indexes : ℕ) (element_type : T) (offset : ValueId) → Run (State (MemoryGraph T)) ValueId
  unfolding get_operand second_offset
  further_offset indexes element_type offset =
      if ltb 1 indexes
      then (if fe.is_struct element_type
          then (do
            operand ← of_result (get_operand 2 args)
            index ← value_at global_mapping operand
            sum ← on_memory (second_offset fe element_type offset index)
            if ltb 2 indexes then throw not_supported else pure sum)
          else throw assertion_failed)
      else pure offset

  -- A null source is only reported on the console.
  unfoldable pub get_element_ptr_operation : Run (State (MemoryGraph T)) (Unit {0})
  unfolding get_operand get_target get_operand_count is_zero first_offset further_offset
      create_derived_pointer
  get_element_ptr_operation = do
    source ← of_result (get_operand 0 args)
    source_id ← value_at global_mapping source
    is_null ← read (λ s. is_zero s.extra.graph.vc source_id)
    first ← of_result (get_operand 1 args)
    index ← value_at global_mapping first
    offset ← on_memory (first_offset fe (fe.get_pointer_element_type source.type) index)
    sum ←
        further_offset (sub64 (get_operand_count args) 1) (fe.get_pointer_element_type source.type)
          offset
    ret_val ← on_memory (create_derived_pointer fe source_id sum)
    target ← of_result (get_target args)
    assign_to target ret_val

  unfoldable pub cast_operation : Run (State (MemoryGraph T)) (Unit {0})
  unfolding get_operand get_target get_cast_op_options cast_value
  cast_operation = do
    source ← of_result (get_operand 0 args)
    lhs ← value_at global_mapping source
    opts ← of_result (get_cast_op_options args)
    target ← of_result (get_target args)
    cast_value fe target lhs opts.op_kind

  unfoldable pub cmp_operation : Run (State (MemoryGraph T)) (Unit {0})
  unfolding get_operand get_target get_cmp_options compare
  cmp_operation = do
    left ← of_result (get_operand 0 args)
    lhs ← value_at global_mapping left
    right ← of_result (get_operand 1 args)
    rhs ← value_at global_mapping right
    flags ← of_result (get_cmp_options args)
    ret_val ← on_memory (compare fe lhs rhs left.type flags)
    target ← of_result (get_target args)
    assign_to target ret_val
