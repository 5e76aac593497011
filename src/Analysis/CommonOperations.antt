-- ===== src/Analysis/CommonOperations.antt =====
-- The operations that the analyses share: the common code of src/Operation.hpp, over the State of
-- src/IState.hpp. What they call of the front end's types is the width of a type.
use angie.Common.Run.{Run, Outcome, ok, raise, read, throw, of_result, analysis_error, pure, ◌>>=◌}
use angie.Values.{ValueId}
use angie.ValueContainer.{ValueContainer, create_val}
use angie.ValueContainer.Arith.{bin_op, extend_int, truncate_int}
use angie.ValueContainer.Assume.{cmp}
use angie.Mapper.{Mapper}
use angie.Smg.{TypeSystem}
use angie.Analysis.{State, get_value, assign_value}
use angie.Analysis.Args.{
  FrontendIdTypePair, OperationArgs, get_target, get_operand, get_bin_op_options, get_arith_options,
  get_cmp_options,
}

-- Where an analysis keeps the container of a state.
pub record Holder (X : Type 0) : Type 0 where
  pub vc : X → ValueContainer
  pub set_vc : ValueContainer → X → X

abbrev pub put_vc :
    {X A : Type 0} → Holder X → State X → Outcome ValueContainer A → Outcome (State X) A
put_vc h s (ok a c) = ok a (record s { extra = h.set_vc c s.extra })
put_vc h s (raise e c) = raise e (record s { extra = h.set_vc c s.extra })

-- A call of `GetVc()`.
abbrev pub on_container : {X A : Type 0} → Holder X → Run ValueContainer A → Run (State X) A
on_container h m s = put_vc h s (m (h.vc s.extra))

module _ {X T : Type 0} where
  abbrev pub value_at : Mapper → FrontendIdTypePair T → Run (State X) ValueId
  value_at global_mapping arg = read (λ s. get_value global_mapping s arg.id)

  abbrev pub assign_to : FrontendIdTypePair T → ValueId → Run (State X) (Unit {0})
  assign_to arg v s = ok tt (assign_value arg.id v s)

  unfoldable pub noop : OperationArgs T → Run (State X) (Unit {0})
  noop args = pure tt

  unfoldable pub abort : OperationArgs T → Run (State X) (Unit {0})
  abort args = throw analysis_error

module _ {X T : Type 0} (ty : TypeSystem T) (h : Holder X) (global_mapping : Mapper)
    (args : OperationArgs T) where
  unfoldable pub create_unknown : Run (State X) (Unit {0})
  unfolding get_target create_val assign_value
  create_unknown = do
    target ← of_result (get_target args)
    ret_val ← on_container h create_val
    assign_to target ret_val

  unfoldable pub bin_op_operation : Run (State X) (Unit {0})
  unfolding get_target get_operand get_bin_op_options get_value bin_op assign_value
  bin_op_operation = do
    opts ← of_result (get_bin_op_options args)
    left ← of_result (get_operand 0 args)
    lhs ← value_at global_mapping left
    right ← of_result (get_operand 1 args)
    rhs ← value_at global_mapping right
    ret_val ← on_container h (bin_op lhs rhs (ty.get_bit_width left.type) opts)
    target ← of_result (get_target args)
    assign_to target ret_val

  unfoldable pub truncate_operation : Run (State X) (Unit {0})
  unfolding get_target get_operand get_arith_options get_value truncate_int assign_value
  truncate_operation = do
    flags ← of_result (get_arith_options args)
    source ← of_result (get_operand 0 args)
    lhs ← value_at global_mapping source
    target ← of_result (get_target args)
    ret_val ← on_container h (truncate_int lhs)
    assign_to target ret_val

  unfoldable pub extend_operation : Run (State X) (Unit {0})
  unfolding get_target get_operand get_arith_options get_value extend_int assign_value
  extend_operation = do
    flags ← of_result (get_arith_options args)
    source ← of_result (get_operand 0 args)
    lhs ← value_at global_mapping source
    target ← of_result (get_target args)
    ret_val ← on_container h (extend_int lhs (ty.get_bit_width source.type) flags)
    assign_to target ret_val

  unfoldable pub cmp_operation : Run (State X) (Unit {0})
  unfolding get_target get_operand get_cmp_options get_value cmp assign_value
  cmp_operation = do
    left ← of_result (get_operand 0 args)
    lhs ← value_at global_mapping left
    right ← of_result (get_operand 1 args)
    rhs ← value_at global_mapping right
    flags ← of_result (get_cmp_options args)
    ret_val ← on_container h (cmp lhs rhs (ty.get_bit_width left.type) flags)
    target ← of_result (get_target args)
    assign_to target ret_val
