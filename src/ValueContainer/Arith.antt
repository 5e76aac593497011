-- ===== src/ValueContainer/Arith.antt =====
-- BinOp, BitNot, ExtendInt and TruncateInt of src/ValueContainerV1.cpp. An operation on two
-- constants yields `some` of the result for CreateConstIntVal, or `none` where BinOp answers with
-- CreateVal.
pub mod Unsigned
pub mod Widths
use angie.Common.{
  ℕ, ◌+◌, ◌/◌, ◌%◌, Bool, false, ◌&&◌, Option, none, some, bit_and, bit_or, bit_xor, ◌==◌, ltb,
  if◌then◌else◌,
}
use angie.Common.Dict.{ℕ_key, find}
use angie.Common.Run.{Result, value, error, Run, ok, runtime_error, of_result, then_value, ◌>>=◌}
use angie.Common.Words.{
  max_word, add64, sub64, mul64, not64, is_negative, slt, sle, magnitude, shl64, shr64, sdiv64,
  srem64,
}
use angie.Values.{
  ValueId, ArithFlags, signed_flag, unsigned_flag, no_signed_wrap, no_unsigned_wrap, check_flag,
  BinaryOpKind, unknown_op, add, sub, mul, div, rem, shl, shr, band, bor, bxor, BinaryOpOptions,
}
use angie.ValueContainer.{
  ValueContainer, create_val, create_const_int_val, rip_bits, sign_extend64, bsr,
}

-- The locals that BinOp computes for two constants.
pub record Operands : Type 0 where
  pub width : ℕ
  pub u_lhs : ℕ
  pub u_rhs : ℕ
  pub s_lhs : ℕ
  pub s_rhs : ℕ
  pub u_max : ℕ
  pub s_max : ℕ
  pub s_min : ℕ

unfoldable pub operands : (width lhs rhs : ℕ) → Result Operands
unfolding rip_bits sign_extend64 shl64 sub64
operands width lhs rhs = then_value (sign_extend64 width lhs) λ s_lhs.
    then_value (sign_extend64 width rhs) λ s_rhs. then_value (shl64 1 (sub64 width 1)) λ s_min.
      value (record {
        width = width;
        u_lhs = rip_bits width lhs;
        u_rhs = rip_bits width rhs;
        s_lhs = s_lhs;
        s_rhs = s_rhs;
        u_max = rip_bits width max_word;
        s_max = rip_bits (sub64 width 1) max_word;
        s_min = s_min;
      })

-- The test for signed overflow of Add.
unfoldable pub add_overflows : Operands → Bool
unfolding slt sle sub64 mul64
add_overflows o =
    if slt 0 (mul64 o.s_lhs o.s_rhs)
    then if sle 0 o.s_lhs
      then slt (sub64 o.s_max o.s_lhs) o.s_rhs
      else slt o.s_rhs (sub64 o.s_min o.s_lhs)
    else false

unfoldable pub op_add : ArithFlags → Operands → Option ℕ
unfolding check_flag add_overflows add64 sub64
op_add flags o =
    if check_flag flags no_unsigned_wrap
    then if ltb (sub64 o.u_max o.u_lhs) o.u_rhs then none else some (add64 o.u_lhs o.u_rhs)
    else if check_flag flags no_signed_wrap && add_overflows o
    then none
    else some (add64 o.u_lhs o.u_rhs)

-- The test for signed overflow of Sub.
unfoldable pub sub_overflows : Operands → Bool
unfolding slt sle add64 mul64
sub_overflows o =
    if slt (mul64 o.s_lhs o.s_rhs) 0
    then if sle 0 o.s_lhs
      then slt (add64 o.s_max o.s_rhs) o.s_lhs
      else slt o.s_lhs (add64 o.s_min o.s_rhs)
    else false

unfoldable pub op_sub : ArithFlags → Operands → Option ℕ
unfolding check_flag sub_overflows sub64
op_sub flags o =
    if check_flag flags no_unsigned_wrap
    then if ltb o.u_lhs o.u_rhs then none else some (sub64 o.u_lhs o.u_rhs)
    else if check_flag flags no_signed_wrap && sub_overflows o
    then none
    else some (sub64 o.u_lhs o.u_rhs)

unfoldable pub op_mul : ArithFlags → Operands → Option ℕ
unfolding check_flag bsr magnitude mul64
op_mul flags o =
    if check_flag flags no_unsigned_wrap
    then if ltb o.width (bsr o.u_lhs + bsr o.u_rhs) then none else some (mul64 o.s_lhs o.s_rhs)
    else if check_flag flags no_signed_wrap
        && ltb o.width (bsr (magnitude o.s_lhs) + bsr (magnitude o.s_rhs))
    then none
    else some (mul64 o.s_lhs o.s_rhs)

unfoldable pub op_div : ArithFlags → Operands → Result (Option ℕ)
unfolding sdiv64
op_div flags o =
    if o.u_rhs == 0
    then value none
    else if flags == unsigned_flag
    then value (some (o.u_lhs / o.u_rhs))
    else if flags == signed_flag
    then then_value (sdiv64 o.s_lhs o.s_rhs) (λ q. value (some q))
    else error runtime_error

unfoldable pub op_rem : ArithFlags → Operands → Result (Option ℕ)
unfolding srem64
op_rem flags o =
    if o.u_rhs == 0
    then value none
    else if flags == unsigned_flag
    then value (some (o.u_lhs % o.u_rhs))
    else if flags == signed_flag
    then then_value (srem64 o.s_lhs o.s_rhs) (λ r. value (some r))
    else error runtime_error

unfoldable pub op_shl : Operands → Result (Option ℕ)
unfolding shl64
op_shl o = then_value (shl64 o.u_lhs o.u_rhs) λ r. value (some r)

-- `result |= ~((1ULL << origBits) - 1)` for a negative value, with `origBits` an int64_t.
unfoldable pub fill_sign : (width shift result : ℕ) → Result ℕ
unfolding sub64 not64 is_negative shl64
fill_sign width shift result =
    let orig_bits = sub64 width shift in
    if is_negative orig_bits
    then value max_word
    else then_value (shl64 1 orig_bits) (λ m. value (bit_or result (not64 (sub64 m 1))))

unfoldable pub op_shr : ArithFlags → Operands → Result (Option ℕ)
unfolding shl64 shr64 sub64 fill_sign
op_shr flags o = then_value (shr64 o.u_lhs o.u_rhs) λ result.
    then_value (shl64 1 (sub64 o.width 1)) λ sign.
      if flags == unsigned_flag
      then value (some result)
      else if flags == signed_flag
      then if bit_and o.u_lhs sign == 0
        then value (some result)
        else then_value (fill_sign o.width o.u_rhs result) (λ r. value (some r))
      else error runtime_error

-- The switch on the kind of operation.
unfoldable pub op_result : BinaryOpKind → ArithFlags → Operands → Result (Option ℕ)
unfolding op_add op_sub op_mul op_div op_rem op_shl op_shr
op_result add flags o = value (op_add flags o)
op_result sub flags o = value (op_sub flags o)
op_result mul flags o = value (op_mul flags o)
op_result div flags o = op_div flags o
op_result rem flags o = op_rem flags o
op_result band flags o = value (some (bit_and o.u_lhs o.u_rhs))
op_result bor flags o = value (some (bit_or o.u_lhs o.u_rhs))
op_result bxor flags o = value (some (bit_xor o.u_lhs o.u_rhs))
op_result shl flags o = op_shl o
op_result shr flags o = op_shr flags o
op_result unknown_op flags o = error runtime_error

-- The value of a result: a known constant, or a fresh value.
unfoldable pub value_of_result : Option ℕ → Run ValueContainer ValueId
unfolding create_val create_const_int_val
value_of_result none = create_val
value_of_result (some r) = create_const_int_val r

unfoldable pub bin_op_constants :
    (width : ℕ) → BinaryOpOptions → (lhs rhs : ℕ) → Run ValueContainer ValueId
unfolding operands op_result value_of_result
bin_op_constants width options lhs rhs = do
  o ← of_result (operands width lhs rhs)
  r ← of_result (op_result options.op_kind options.flags o)
  value_of_result r

unfoldable pub bin_op :
    (first second : ValueId) → (width : ℕ) → BinaryOpOptions → Run ValueContainer ValueId
unfolding create_val bin_op_constants
bin_op first second width options c = elim (find first c.constants) [
  | none ↦ create_val c
  | some lhs ↦ elim (find second c.constants) [
    | none ↦ create_val c
    | some rhs ↦ bin_op_constants width options lhs rhs c
  ]
]

unfoldable pub bit_not : ValueId → Run ValueContainer ValueId
unfolding create_val create_const_int_val not64
bit_not first c = elim (find first c.constants) [
  | none ↦ create_val c
  | some v ↦ create_const_int_val (not64 v) c
]

unfoldable pub extended : (source_width : ℕ) → ArithFlags → ℕ → Result ℕ
unfolding check_flag sign_extend64 rip_bits
extended source_width flags v =
    if check_flag flags signed_flag
    then sign_extend64 source_width v
    else value (rip_bits source_width v)

unfoldable pub extend_int : ValueId → (source_width : ℕ) → ArithFlags → Run ValueContainer ValueId
unfolding create_val create_const_int_val extended
extend_int first source_width flags c = elim (find first c.constants) [
  | none ↦ create_val c
  | some v ↦ (do r ← of_result (extended source_width flags v); create_const_int_val r) c
]

unfoldable pub truncate_int : ValueId → Run ValueContainer ValueId
unfolding create_val
truncate_int first c = elim (find first c.constants) [ none ↦ create_val c | some _ ↦ ok first c ]
