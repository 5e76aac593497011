-- ===== src/Llvm.antt =====
-- What src/LlvmFrontend.cpp asks of a module of LLVM, which is not part of the repository.
use Prim.Native.String.{String}
use angie.Common.{ℕ, Bool, Option, List}
use angie.Values.{FrontendId}

-- The enumerators of llvm::Instruction::BinaryOps and CastOps, and the others that are named. The
-- casts that have no case of their own are `other_cast`, the instructions `other_opcode`;
-- CastOpsEnd, which is one past the last cast, is `cast_ops_end`.
pub data BinaryOps : Type 0 where
  add fadd sub fsub mul fmul udiv sdiv fdiv urem srem frem shl lshr ashr land lor lxor : BinaryOps

pub data CastOps : Type 0 where
  trunc zext sext fp_ext bit_cast ptr_to_int int_to_ptr other_cast : CastOps

pub data Opcode : Type 0 where
  ret br alloca load store get_element_ptr icmp fcmp call invoke : Opcode
  binary : BinaryOps → Opcode
  cast : CastOps → Opcode
  cast_ops_end other_opcode : Opcode

pub data Predicate : Type 0 where
  icmp_eq icmp_ne icmp_ugt icmp_uge icmp_ult icmp_ule : Predicate
  icmp_sgt icmp_sge icmp_slt icmp_sle : Predicate

-- Blocks, by their addresses. An instruction, a function and any other value is known by the
-- address that becomes its FrontendId.
abbrev pub BlockId : Type 0
BlockId = ℕ

-- The classes of constants that DealWithConstants tells apart. A constant expression is a cast of
-- one operand or a GetElementPtr with two indices, whose operands may be constant integers, or
-- another one.
pub data Constant : Type 0 where
  const_int : (zext_value : ℕ) → Constant
  const_double const_float other_fp null_pointer : Constant
  cast_expr : (operand : Option ℕ) → Constant
  get_element_ptr_expr : (idx0 idx1 : Option ℕ) → Constant
  other_expr function global_variable other_constant : Constant

-- Each field is the method of the same name. `T` are the types of the program.
pub record Llvm (T : Type 0) : Type 0 where
  -- Value
  pub get_type : FrontendId → T
  pub is_void_ty : FrontendId → Bool
  pub is_constant : FrontendId → Bool
  pub constant : FrontendId → Constant
  pub void_type : T
  -- Instruction
  pub get_opcode : FrontendId → Opcode
  pub is_terminator : FrontendId → Bool
  pub operands : FrontendId → List FrontendId
  pub get_called_function : FrontendId → Option FrontendId
  pub get_called_value : FrontendId → FrontendId
  pub arg_operands : FrontendId → List FrontendId
  pub is_unsigned : FrontendId → Bool
  pub is_true_when_equal : FrontendId → Bool
  pub get_unsigned_predicate : FrontendId → Predicate
  pub is_overflowing : FrontendId → Bool
  pub has_no_signed_wrap : FrontendId → Bool
  pub has_no_unsigned_wrap : FrontendId → Bool
  pub is_exact : FrontendId → Bool
  pub accumulate_constant_offset : FrontendId → Option ℕ
  pub is_unconditional : FrontendId → Bool
  pub get_successor : FrontendId → ℕ → BlockId
  -- BasicBlock: its instructions in their order
  pub instructions : BlockId → List FrontendId
  -- Function
  pub is_intrinsic : FrontendId → Bool
  pub get_name : FrontendId → String
  pub is_declaration : FrontendId → Bool
  pub get_entry_block : FrontendId → BlockId
  pub args : FrontendId → List FrontendId
  -- Module
  pub functions : List FrontendId
  pub main : Option FrontendId
