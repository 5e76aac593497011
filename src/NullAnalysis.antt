-- ===== src/NullAnalysis.antt =====
-- The forward null analysis, whose memory is one map from addresses to values:
-- src/ForwardNullAnalysis.hpp.
pub mod Calls
pub mod Arguments
mod Tests
use angie.Common.{
  ℕ, zero, suc, Bool, ◌≡◌, ◌==◌, arith, if◌then◌else◌, Option, none, some, List, [], ◌∷◌,
}
use angie.Common.Dict.{Dict, ℕ_key, find, assign, find-assign}
use angie.Common.Run.{
  Run, Outcome, ok, raise, Result, value, error, throw, read, pure, of_result, or_throw,
  invalid_dereference, analysis_error, logic_error, undefined_behaviour, ◌>>=◌, ◌>>◌,
}
use angie.Values.{ValueId, no_flags, add, mul, unsig_gt}
use angie.ValueContainer.{ValueContainer, create_const_int_val}
use angie.ValueContainer.Arith.{bin_op, extend_int}
use angie.ValueContainer.Compare.{is_true, is_cmp, is_zero}
use angie.Mapper.{Mapper}
use angie.FrontendTypes.{FrontendTypes}
use angie.Analysis.{State}
use angie.Analysis.Args.{
  FrontendIdTypePair, OperationArgs, get_target, get_operand, get_call_options, get_cast_op_options,
  CastOpKind, extend, bit_cast,
}
use angie.Analysis.CommonOperations.{Holder, on_container, value_at, assign_to}

-- What ForwardNullAnalysisState adds, and the container of the state.
pub record NullState : Type 0 where
  pub vc : ValueContainer
  pub stack_current_addr : ValueId
  pub has_value : Dict ValueId ValueId

abbrev pub null_holder : Holder NullState
null_holder = record { vc = λ m. m.vc; set_vc = λ c m. record m { vc = c } }

-- The first state's part, as the constructor sets it.
abbrev pub first_null_state : ValueContainer → NullState
first_null_state vc = record { vc = vc; stack_current_addr = 0; has_value = [] }

unfoldable pub null_store : (what to : ValueId) → NullState → NullState
null_store what to m = record m { has_value = assign to what m.has_value }

unfoldable pub null_load : ValueId → NullState → Result ValueId
null_load from m = or_throw invalid_dereference (find from m.has_value)

module _ {T : Type 0} (fe : FrontendTypes T) where
  abbrev pub address_width : ℕ
  address_width = fe.types.get_bit_width fe.types.char_pointer

  -- `Add` and `Mul` at PTR_TYPE.
  abbrev pub add_address : (first second : ValueId) → Run ValueContainer ValueId
  add_address first second =
      bin_op first second address_width (record { op_kind = add; flags = no_flags })

  abbrev pub mul_address : (first second : ValueId) → Run ValueContainer ValueId
  mul_address first second =
      bin_op first second address_width (record { op_kind = mul; flags = no_flags })

module _ {T : Type 0} (fe : FrontendTypes T) (global_mapping : Mapper)
    (args : OperationArgs T) where
  unfoldable pub null_get_element_ptr : Run (State NullState) (Unit {0})
  unfolding get_operand get_target get_call_options is_zero create_const_int_val bin_op
  null_get_element_ptr = do
    source ← of_result (get_operand 0 args)
    lhs ← value_at global_mapping source
    options ← of_result (get_call_options args)
    is_null ← read (λ s. is_zero s.extra.vc lhs)
    if is_true is_null then throw analysis_error else (do
      offset ← on_container null_holder (create_const_int_val options.id)
      ret_val ← on_container null_holder (add_address fe lhs offset)
      target ← of_result (get_target args)
      assign_to target ret_val)

  unfoldable pub null_alloca : Run (State NullState) (Unit {0})
  unfolding get_operand get_target create_const_int_val extend_int bin_op
  null_alloca = do
    operand ← of_result (get_operand 0 args)
    count ← value_at global_mapping operand
    target ← of_result (get_target args)
    element_size ←
        on_container null_holder
          (create_const_int_val (fe.types.get_size_of (fe.get_pointer_element_type target.type)))
    count64 ←
        on_container null_holder (extend_int count (fe.types.get_bit_width operand.type) no_flags)
    size64 ← on_container null_holder (mul_address fe element_size count64)
    base ← read (λ (s : State NullState). value s.extra.stack_current_addr)
    ret_val ← on_container null_holder (add_address fe base size64)
    λ s. ok tt (record s { extra = record s.extra { stack_current_addr = ret_val } })
    assign_to target ret_val

  unfoldable pub null_load_operation : Run (State NullState) (Unit {0})
  unfolding get_operand get_target null_load
  null_load_operation = do
    operand ← of_result (get_operand 0 args)
    from ← value_at global_mapping operand
    v ← read (λ s. null_load from s.extra)
    target ← of_result (get_target args)
    assign_to target v

  unfoldable pub null_store_operation : Run (State NullState) (Unit {0})
  unfolding get_operand null_store
  null_store_operation = do
    what ← of_result (get_operand 0 args)
    v ← value_at global_mapping what
    to ← of_result (get_operand 1 args)
    target ← value_at global_mapping to
    λ s. ok tt (record s { extra = null_store v target s.extra })

  -- The branches of the cast.
  unfoldable pub null_cast_value :
      (target : FrontendIdTypePair T) → ValueId → CastOpKind → Run (State NullState) (Unit {0})
  null_cast_value target lhs bit_cast = assign_to target lhs
  null_cast_value target lhs extend = assign_to target lhs
  null_cast_value target lhs _ = throw logic_error

  unfoldable pub null_cast : Run (State NullState) (Unit {0})
  unfolding get_operand get_target get_cast_op_options null_cast_value
  null_cast = do
    operand ← of_result (get_operand 0 args)
    lhs ← value_at global_mapping operand
    opts ← of_result (get_cast_op_options args)
    target ← of_result (get_target args)
    null_cast_value target lhs opts.op_kind
