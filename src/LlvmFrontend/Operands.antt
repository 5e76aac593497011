-- ===== src/LlvmFrontend/Operands.antt =====
-- GetOperationFor and GetOperArgsForInstr of src/LlvmFrontend.cpp.
use text.Mathlib.Text.{starts_with, ◌==◌ as ◌=str=◌}
use angie.Common.{ℕ, Option, none, some, List, [], ◌∷◌, map, bit_or, ◌==◌, if◌then◌else◌}
use angie.Common.Run.{Result, value, error, not_supported, logic_error, then_value}
use angie.Values.{
  FrontendId, ArithFlags, no_flags, signed_flag, unsigned_flag, no_signed_wrap, no_unsigned_wrap,
  CmpFlags, unset, unsigned, eq, neq, gt, gt_eq, lt, lt_eq, float, unordered, unsig_gt, unsig_gt_eq,
  unsig_lt, unsig_lt_eq, combined, BinaryOpKind,
}
use angie.Analysis.Args.{
  OperArg, id_type_pair, bin_op_opts, cast_op_opts, cmp_flags, OperationArgs, CastOpKind,
}
use angie.Analysis.Instructions.{
  Instruction, ret_instr, br_instr, bin_op_instr, alloca_instr, load_instr, store_instr, call_instr,
  invoke_instr, cast_instr, get_element_ptr_instr, cmp_instr, abort_instr, exit_instr, memset_instr,
  malloc_instr, free_instr, not_supported_instr, noop_instr, terminate_instr,
  create_unknown_val_instr, diagnostics_plot_mem_instr,
}
use angie.Llvm.{
  Llvm, Opcode, ret, br, alloca, load, store, get_element_ptr, icmp, fcmp, call, invoke, binary,
  cast, cast_ops_end, other_opcode, BinaryOps, CastOps, Predicate, icmp_ne, icmp_ugt, icmp_uge,
  icmp_ult, icmp_ule,
}

-- The bits of CmpFlags, and `|=` on them.
unfoldable pub bits_of : CmpFlags → ℕ
bits_of unset = 0x00
bits_of unsigned = 0x01
bits_of eq = 0x02
bits_of neq = 0x04
bits_of gt = 0x08
bits_of unsig_gt = 0x09
bits_of gt_eq = 0x0a
bits_of unsig_gt_eq = 0x0b
bits_of lt = 0x10
bits_of unsig_lt = 0x11
bits_of lt_eq = 0x12
bits_of unsig_lt_eq = 0x13
bits_of float = 0x20
bits_of unordered = 0x40
bits_of (combined n) = n

unfoldable pub flags_of : ℕ → CmpFlags
flags_of n =
    if n == 0x00
    then unset
    else if n == 0x01
    then unsigned
    else if n == 0x02
    then eq
    else if n == 0x04
    then neq
    else if n == 0x08
    then gt
    else if n == 0x09
    then unsig_gt
    else if n == 0x0a
    then gt_eq
    else if n == 0x0b
    then unsig_gt_eq
    else if n == 0x10
    then lt
    else if n == 0x11
    then unsig_lt
    else if n == 0x12
    then lt_eq
    else if n == 0x13
    then unsig_lt_eq
    else if n == 0x20
    then float
    else if n == 0x40
    then unordered
    else combined n

unfoldable pub with_flags : CmpFlags → CmpFlags → CmpFlags
unfolding bits_of flags_of
with_flags flags more = flags_of (bit_or (bits_of flags) (bits_of more))

abbrev pub exact_flag : ArithFlags
exact_flag = 0x0004

-- The switch on the predicate of a comparison.
unfoldable pub relation_flags : Predicate → CmpFlags
relation_flags icmp_ne = neq
relation_flags icmp_ugt = gt
relation_flags icmp_uge = gt
relation_flags icmp_ult = lt
relation_flags icmp_ule = lt
relation_flags _ = unset

module _ {T : Type 0} (llvm : Llvm T) where
  -- The call of an intrinsic function, of a function for the analyser, and of a C function.
  unfoldable pub operation_for_intrinsic : (func : FrontendId) → Result Instruction
  operation_for_intrinsic func =
      if starts_with (llvm.get_name func) "llvm.dbg"
      then value noop_instr
      else if starts_with (llvm.get_name func) "llvm.memset"
      then value memset_instr
      else error not_supported

  unfoldable pub operation_for_function : (func : FrontendId) → Instruction
  operation_for_function func =
      if starts_with (llvm.get_name func) "__ANGIE"
      then (if llvm.get_name func =str= "__ANGIE_DIAGNOSTICS_PLOT_MEMORY"
          then diagnostics_plot_mem_instr
          else if starts_with (llvm.get_name func) "__ANGIE_CREATE_UNKNOWN_"
          then create_unknown_val_instr
          else if starts_with (llvm.get_name func) "__ANGIE_fin"
          then terminate_instr
          else call_instr)
      else if llvm.get_name func =str= "abort"
      then abort_instr
      else if llvm.get_name func =str= "exit"
      then exit_instr
      else if llvm.get_name func =str= "malloc"
      then malloc_instr
      else if llvm.get_name func =str= "free"
      then free_instr
      else call_instr

  unfoldable pub operation_for_call : (called : Option FrontendId) → Result Instruction
  unfolding operation_for_intrinsic operation_for_function
  operation_for_call none = value call_instr
  operation_for_call (some func) =
      if llvm.is_intrinsic func
      then operation_for_intrinsic func
      else value (operation_for_function func)

  unfoldable pub operation_for_opcode : Opcode → FrontendId → Result Instruction
  unfolding operation_for_call
  operation_for_opcode ret instr = value ret_instr
  operation_for_opcode br instr = value br_instr
  operation_for_opcode alloca instr = value alloca_instr
  operation_for_opcode load instr = value load_instr
  operation_for_opcode store instr = value store_instr
  operation_for_opcode get_element_ptr instr = value get_element_ptr_instr
  operation_for_opcode icmp instr = value cmp_instr
  operation_for_opcode fcmp instr = value cmp_instr
  operation_for_opcode call instr = operation_for_call (llvm.get_called_function instr)
  operation_for_opcode invoke instr = value invoke_instr
  operation_for_opcode (cast _) instr = value cast_instr
  operation_for_opcode cast_ops_end instr = value cast_instr
  operation_for_opcode (binary _) instr = value bin_op_instr
  operation_for_opcode other_opcode instr = value not_supported_instr

  unfoldable pub get_operation_for : FrontendId → Result Instruction
  unfolding operation_for_opcode
  get_operation_for instr = operation_for_opcode (llvm.get_opcode instr) instr

  unfoldable pub to_oper_arg : FrontendId → OperArg T
  to_oper_arg v = id_type_pair (record { id = v; type = llvm.get_type v })

  -- OperArg::CreateEmptyArg, whose type is null as the void type's is.
  unfoldable pub get_empty_oper_arg : OperArg T
  get_empty_oper_arg = id_type_pair (record { id = 0; type = llvm.void_type })

  -- The flags of a comparison.
  unfoldable pub icmp_flags : FrontendId → CmpFlags
  unfolding with_flags relation_flags
  icmp_flags instr =
      with_flags
        (with_flags (with_flags unset (if llvm.is_unsigned instr then unsigned else unset))
          (if llvm.is_true_when_equal instr then eq else unset))
        (relation_flags (llvm.get_unsigned_predicate instr))

  unfoldable pub bin_op_kind : BinaryOps → BinaryOpKind
  bin_op_kind BinaryOps.add = BinaryOpKind.add
  bin_op_kind BinaryOps.fadd = BinaryOpKind.add
  bin_op_kind BinaryOps.sub = BinaryOpKind.sub
  bin_op_kind BinaryOps.fsub = BinaryOpKind.sub
  bin_op_kind BinaryOps.mul = BinaryOpKind.mul
  bin_op_kind BinaryOps.fmul = BinaryOpKind.mul
  bin_op_kind BinaryOps.udiv = BinaryOpKind.div
  bin_op_kind BinaryOps.sdiv = BinaryOpKind.div
  bin_op_kind BinaryOps.fdiv = BinaryOpKind.div
  bin_op_kind BinaryOps.urem = BinaryOpKind.rem
  bin_op_kind BinaryOps.srem = BinaryOpKind.rem
  bin_op_kind BinaryOps.frem = BinaryOpKind.rem
  bin_op_kind BinaryOps.shl = BinaryOpKind.shl
  bin_op_kind BinaryOps.lshr = BinaryOpKind.shr
  bin_op_kind BinaryOps.ashr = BinaryOpKind.shr
  bin_op_kind BinaryOps.land = BinaryOpKind.band
  bin_op_kind BinaryOps.lor = BinaryOpKind.bor
  bin_op_kind BinaryOps.lxor = BinaryOpKind.bxor

  unfoldable pub wrap_flags : FrontendId → ArithFlags
  wrap_flags instr =
      if llvm.is_overflowing instr
      then bit_or (if llvm.has_no_signed_wrap instr then no_signed_wrap else no_flags)
          (if llvm.has_no_unsigned_wrap instr then no_unsigned_wrap else no_flags)
      else no_flags

  abbrev exactness : FrontendId → ArithFlags
  exactness instr = if llvm.is_exact instr then exact_flag else no_flags

  -- The second switch, with its cases that fall through.
  unfoldable pub sign_flags : BinaryOps → FrontendId → ArithFlags
  sign_flags BinaryOps.sdiv instr = bit_or (exactness instr) signed_flag
  sign_flags BinaryOps.ashr instr = bit_or (exactness instr) signed_flag
  sign_flags BinaryOps.srem instr = signed_flag
  sign_flags BinaryOps.udiv instr = bit_or (exactness instr) unsigned_flag
  sign_flags BinaryOps.lshr instr = bit_or (exactness instr) unsigned_flag
  sign_flags BinaryOps.urem instr = unsigned_flag
  sign_flags _ instr = no_flags

  unfoldable pub cast_op_kind : CastOps → CastOpKind
  cast_op_kind CastOps.trunc = CastOpKind.truncate
  cast_op_kind CastOps.zext = CastOpKind.extend
  cast_op_kind CastOps.sext = CastOpKind.extend
  cast_op_kind CastOps.fp_ext = CastOpKind.extend
  cast_op_kind CastOps.bit_cast = CastOpKind.bit_cast
  cast_op_kind CastOps.ptr_to_int = CastOpKind.ptr_to_int
  cast_op_kind CastOps.int_to_ptr = CastOpKind.int_to_ptr
  cast_op_kind CastOps.other_cast = CastOpKind.default

  unfoldable pub cast_flags : CastOps → ArithFlags
  cast_flags CastOps.zext = unsigned_flag
  cast_flags CastOps.sext = signed_flag
  cast_flags _ = no_flags

  -- The argument after the result. `FrontendId{constantOffset}` carries a number. The branch for
  -- FCmp throws NotImplementedException, a std::logic_error.
  unfoldable pub option_arg : Opcode → FrontendId → Result (OperArg T)
  unfolding to_oper_arg get_empty_oper_arg icmp_flags bin_op_kind wrap_flags sign_flags cast_op_kind
      cast_flags
  option_arg call instr = value (elim (llvm.get_called_function instr) [
    | some func ↦ to_oper_arg func
    | none ↦ to_oper_arg (llvm.get_called_value instr)
  ])
  option_arg icmp instr = value (cmp_flags (icmp_flags instr))
  option_arg fcmp instr = error logic_error
  option_arg get_element_ptr instr = value (elim (llvm.accumulate_constant_offset instr) [
    | some offset ↦ id_type_pair (record { id = offset; type = llvm.void_type })
    | none ↦ get_empty_oper_arg
  ])
  option_arg (binary op) instr = value (
      bin_op_opts (record {
        op_kind = bin_op_kind op;
        flags = bit_or (wrap_flags instr) (sign_flags op instr);
      }))
  option_arg (cast op) instr =
      value (cast_op_opts (record { op_kind = cast_op_kind op; flags = cast_flags op }))
  option_arg _ instr = value get_empty_oper_arg

  -- The operands that the loops parse: those of a call are its arguments.
  unfoldable pub parsed_operands : Opcode → FrontendId → List FrontendId
  parsed_operands call instr = llvm.arg_operands instr
  parsed_operands _ instr = llvm.operands instr

  -- The constants among the operands, which constantValuesToBeCreatedInsert queues.
  unfoldable pub constants_among : List FrontendId → List FrontendId
  constants_among [] = []
  constants_among (v ∷ vs) =
      if llvm.is_constant v then v ∷ constants_among vs else constants_among vs

  unfoldable pub result_arg : FrontendId → OperArg T
  unfolding to_oper_arg get_empty_oper_arg
  result_arg instr = if llvm.is_void_ty instr then get_empty_oper_arg else to_oper_arg instr

  -- The arguments of an instruction.
  unfoldable pub get_oper_args_for_instr : FrontendId → Result (OperationArgs T)
  unfolding option_arg parsed_operands result_arg to_oper_arg
  get_oper_args_for_instr instr = then_value (option_arg (llvm.get_opcode instr) instr) λ option.
      value (
        result_arg instr ∷ option ∷ map to_oper_arg (parsed_operands (llvm.get_opcode instr) instr))
