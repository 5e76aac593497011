-- ===== src/Smg/Container.antt =====
-- The value container that the graph is given: src/ValueContainerV1.hpp as an IValueContainer of
-- src/Values.hpp.
use angie.Values.{add}
use angie.ValueContainer.{ValueContainer, create_val, create_const_int_val}
use angie.ValueContainer.Arith.{bin_op}
use angie.Smg.{TypeSystem, IValueContainer}

-- `Add` is BinOp with BinaryOpKind::Add.
unfoldable pub value_container : {T : Type 0} → TypeSystem T → IValueContainer T ValueContainer
unfolding create_val create_const_int_val bin_op
value_container ty = record {
  create_val = λ type. create_val;
  create_const_int_val = create_const_int_val;
  add = λ first second type flags.
      bin_op first second (ty.get_bit_width type) (record { op_kind = add; flags = flags });
}
