-- ===== src/Analysis/Args.antt =====
-- The arguments of an operation: OperArg and OperationArgs of src/General.hpp.
use angie.Common.{ℕ, zero, suc, ◌+◌, List, [], ◌∷◌}
use angie.Common.Words.{sub64}
use angie.Common.Run.{Result, value, error, undefined_behaviour, then_value}
use angie.Values.{FrontendId, BinaryOpOptions, ArithFlags, CmpFlags}

pub data CastOpKind : Type 0 where
  default truncate extend fp_to_int int_to_fp ptr_to_int int_to_ptr bit_cast : CastOpKind
  addr_space_cast : CastOpKind

pub record CastOpOptions : Type 0 where
  pub op_kind : CastOpKind
  pub flags : ArithFlags

pub record FrontendIdTypePair (T : Type 0) : Type 0 where
  pub id : FrontendId
  pub type : T

-- The union, with the member that was set. A read of another one has no defined result.
pub data OperArg (T : Type 0) : Type 0 where
  id_type_pair : FrontendIdTypePair T → OperArg T
  bin_op_opts : BinaryOpOptions → OperArg T
  cast_op_opts : CastOpOptions → OperArg T
  arith_flags : ArithFlags → OperArg T
  cmp_flags : CmpFlags → OperArg T

abbrev pub OperationArgs : Type 0 → Type 0
OperationArgs T = List (OperArg T)

module _ {T : Type 0} where
  -- `args[index]`
  unfoldable pub arg_at : ℕ → OperationArgs T → Result (OperArg T)
  arg_at index [] = error undefined_behaviour
  arg_at zero (arg ∷ args) = value arg
  arg_at (suc index) (arg ∷ args) = arg_at index args

  unfoldable pub pair_of : OperArg T → Result (FrontendIdTypePair T)
  pair_of (id_type_pair pair) = value pair
  pair_of _ = error undefined_behaviour

  unfoldable pub bin_op_opts_of : OperArg T → Result BinaryOpOptions
  bin_op_opts_of (bin_op_opts options) = value options
  bin_op_opts_of _ = error undefined_behaviour

  unfoldable pub cast_op_opts_of : OperArg T → Result CastOpOptions
  cast_op_opts_of (cast_op_opts options) = value options
  cast_op_opts_of _ = error undefined_behaviour

  unfoldable pub arith_flags_of : OperArg T → Result ArithFlags
  arith_flags_of (arith_flags flags) = value flags
  arith_flags_of _ = error undefined_behaviour

  unfoldable pub cmp_flags_of : OperArg T → Result CmpFlags
  cmp_flags_of (cmp_flags flags) = value flags
  cmp_flags_of _ = error undefined_behaviour

  unfoldable pub get_target : OperationArgs T → Result (FrontendIdTypePair T)
  unfolding arg_at pair_of
  get_target args = then_value (arg_at 0 args) pair_of

  unfoldable pub get_operand : ℕ → OperationArgs T → Result (FrontendIdTypePair T)
  unfolding arg_at pair_of
  get_operand index args = then_value (arg_at (index + 2) args) pair_of

  -- The `GetOptions` of the subclasses: the second argument.
  unfoldable pub get_bin_op_options : OperationArgs T → Result BinaryOpOptions
  unfolding arg_at bin_op_opts_of
  get_bin_op_options args = then_value (arg_at 1 args) bin_op_opts_of

  unfoldable pub get_cast_op_options : OperationArgs T → Result CastOpOptions
  unfolding arg_at cast_op_opts_of
  get_cast_op_options args = then_value (arg_at 1 args) cast_op_opts_of

  unfoldable pub get_arith_options : OperationArgs T → Result ArithFlags
  unfolding arg_at arith_flags_of
  get_arith_options args = then_value (arg_at 1 args) arith_flags_of

  unfoldable pub get_cmp_options : OperationArgs T → Result CmpFlags
  unfolding arg_at cmp_flags_of
  get_cmp_options args = then_value (arg_at 1 args) cmp_flags_of

  unfoldable pub get_call_options : OperationArgs T → Result (FrontendIdTypePair T)
  unfolding arg_at pair_of
  get_call_options args = then_value (arg_at 1 args) pair_of

  unfoldable pub arg_count : OperationArgs T → ℕ
  arg_count [] = 0
  arg_count (_ ∷ args) = suc (arg_count args)

  -- `args.size() - 2`, on size_t
  unfoldable pub get_operand_count : OperationArgs T → ℕ
  unfolding arg_count sub64
  get_operand_count args = sub64 (arg_count args) 2
