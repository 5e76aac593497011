-- ===== src/Values.antt =====
-- Ids and options of values: src/General.hpp (the flag enumerations), src/IdImpl.hpp, src/ValueId.hpp.
use angie.Common.{ℕ, ◌+◌, ◌%◌, Bool, bit_and, ◌==◌}
use angie.Common.Words.{modulus}

-- ValueId, ConstraintId and FrontendId wrap a uint64_t.
abbrev pub ValueId : Type 0
ValueId = ℕ

abbrev pub ConstraintId : Type 0
ConstraintId = ℕ

abbrev pub FrontendId : Type 0
FrontendId = ℕ

-- `id++`
unfoldable pub next_id : ℕ → ℕ
next_id n = (n + 1) % modulus

-- The enumerators of CmpFlags, one for each value: SigGt is Gt, and so on, and Ordered is Default.
-- `combined` is any other union of flags, such as those of the float predicates.
pub data CmpFlags : Type 0 where
  unset unsigned eq neq gt gt_eq lt lt_eq float unordered : CmpFlags
  unsig_gt unsig_gt_eq unsig_lt unsig_lt_eq : CmpFlags
  combined : ℕ → CmpFlags

pub data BinaryOpKind : Type 0 where
  unknown_op add sub mul div rem shl shr band bor bxor : BinaryOpKind

-- ArithFlags are unions of bits.
abbrev pub ArithFlags : Type 0
ArithFlags = ℕ

abbrev pub no_flags : ArithFlags
no_flags = 0

abbrev pub signed_flag : ArithFlags
signed_flag = 0x0001

abbrev pub unsigned_flag : ArithFlags
unsigned_flag = 0x0002

abbrev pub no_signed_wrap : ArithFlags
no_signed_wrap = 0x0008

abbrev pub no_unsigned_wrap : ArithFlags
no_unsigned_wrap = 0x0010

-- The macro CHECK_FLAG.
unfoldable pub check_flag : ArithFlags → ArithFlags → Bool
check_flag var flag = bit_and var flag == flag

pub record BinaryOpOptions : Type 0 where
  pub op_kind : BinaryOpKind
  pub flags : ArithFlags

pub data AbstractionStatus : Type 0 where
  undefined unknown constant : AbstractionStatus
