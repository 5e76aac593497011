-- ===== src/ValueContainer/Arith/Unsigned.antt =====
-- BinOp on two constants against the arithmetic of the natural numbers, for the unsigned operations.
use native.Mathlib.Nat.{mod-lt}
use angie.Common.{
  ℕ, inl, inr, Bool-cases, zero, suc, ◌&&◌, ◌+◌, ◌-◌, ◌/◌, ◌%◌, ◌^◌, ◌<◌, ◌≡◌, refl, ◌∙◌, Bool,
  true, Option, none, some, ◌==◌, ltb, arith, if◌then◌else◌,
}
use angie.Common.Bits.{pow_pos, bit_and_mask}
use angie.Common.Dict.{ℕ_key, find}
use angie.Common.Run.{value}
use angie.Common.Words.{modulus, max_word, add64, sub64}
use angie.Values.{
  ValueId, unsigned_flag, no_unsigned_wrap, check_flag, add, sub, div, rem, BinaryOpOptions,
}
use angie.ValueContainer.{ValueContainer, rip_bits}
use angie.ValueContainer.Model.Returns.{sign_extend64-Returns, shift-Returns}
use angie.ValueContainer.Arith.{
  Operands, operands, op_add, op_sub, op_div, op_rem, op_result, value_of_result, bin_op_constants,
  bin_op,
}

-- RipBits is the remainder by the power of two.
pub rip_bits_mod : (width x : ℕ) → width < 64 → rip_bits width x ≡ x % 2 ^ width
unfolding rip_bits
rip_bits_mod width x h = ground (arith, bit_and_mask width x)

-- The powers of two are below the greatest one, and the greatest word, cut to fewer bits, is the
-- greatest number of so many bits.
cut_max : ℕ → Bool
cut_max zero = true
cut_max (suc n) = (max_word % 2 ^ n == 2 ^ n - 1) && ltb (2 ^ n) modulus && cut_max n

cut_max_64 : cut_max 64 ≡ true
unfolding cut_max
cut_max_64 = refl

cut_max_below :
    (n k : ℕ) → cut_max n ≡ true → k < n → (max_word % 2 ^ k ≡ 2 ^ k - 1) × (2 ^ k < modulus)
unfolding cut_max
cut_max_below zero k h below = absurd (omega arith)
cut_max_below (suc n) k h below = elim (Bool-cases (k == n)) [
  | inl here ↦ let same : k ≡ n = ground arith in rw same (ground arith, ground arith)
  | inr past ↦ cut_max_below n k (ground arith) (ground arith)
]

-- The unsigned operations of BinOp: with NoUnsignedWrap, and with the flag Unsigned alone.
pub data UnsignedOp : Type 0 where
  plus minus quotient remainder : UnsignedOp

abbrev pub options_of : UnsignedOp → BinaryOpOptions
options_of plus = record { op_kind = add; flags = no_unsigned_wrap }
options_of minus = record { op_kind = sub; flags = no_unsigned_wrap }
options_of quotient = record { op_kind = div; flags = unsigned_flag }
options_of remainder = record { op_kind = rem; flags = unsigned_flag }

-- The exact result for numbers below `m`, where there is one below `m`.
abbrev pub exact : UnsignedOp → (m x y : ℕ) → Option ℕ
exact plus m x y = if ltb (x + y) m then some (x + y) else none
exact minus m x y = if ltb x y then none else some (x - y)
exact quotient m x y = if y == 0 then none else some (x / y)
exact remainder m x y = if y == 0 then none else some (x % y)

op_result-exact :
    (op : UnsignedOp) (m : ℕ) (o : Operands)
    → o.u_max + 1 ≡ m
    → m < modulus
    → o.u_lhs < m
    → o.u_rhs < m
    → op_result (options_of op).op_kind (options_of op).flags o ≡ value (exact op m o.u_lhs o.u_rhs)
unfolding op_result op_add op_sub op_div op_rem check_flag add64 sub64
op_result-exact plus m o top fits p q = ground arith
op_result-exact minus m o top fits p q = ground arith
op_result-exact quotient m o top fits p q = ground arith
op_result-exact remainder m o top fits p q = ground arith

module _ (width lhs rhs : ℕ) (some_bits : 0 < width) (less : width < 64) where
  -- The locals of BinOp, for the unsigned operations.
  operands_unsigned :
      (o : Operands) × (operands width lhs rhs ≡ value o)
      × (o.u_lhs ≡ lhs % 2 ^ width)
      × (o.u_rhs ≡ rhs % 2 ^ width)
      × (o.u_max ≡ 2 ^ width - 1)
  unfolding operands
  operands_unsigned =
      let (s_lhs, left) = sign_extend64-Returns {width = width} some_bits (omega arith) lhs in
      let (s_rhs, right) = sign_extend64-Returns {width = width} some_bits (omega arith) rhs in
      let (s_min, shifted) = shift-Returns {width = width} some_bits (omega arith) in
      (
        record {
          width = width;
          u_lhs = rip_bits width lhs;
          u_rhs = rip_bits width rhs;
          s_lhs = s_lhs;
          s_rhs = s_rhs;
          u_max = rip_bits width max_word;
          s_max = rip_bits (sub64 width 1) max_word;
          s_min = s_min;
        },
        rw (left, right, shifted) refl,
        rip_bits_mod width lhs less,
        rip_bits_mod width rhs less,
        rip_bits_mod width max_word less ∙ (cut_max_below 64 width cut_max_64 less).0,
      )

  bin_op_constants-exact :
      (op : UnsignedOp) (c : ValueContainer)
      → bin_op_constants width (options_of op) lhs rhs c
        ≡ value_of_result (exact op (2 ^ width) (lhs % 2 ^ width) (rhs % 2 ^ width)) c
  unfolding bin_op_constants
  bin_op_constants-exact op c =
      let (o, computed, left, right, top) = operands_unsigned in
      let result =
        op_result-exact op (2 ^ width) o (omega (arith, top, pow_pos width))
          (cut_max_below 64 width cut_max_64 less).1
          (omega (arith, left, mod-lt lhs (pow_pos width)))
          (omega (arith, right, mod-lt rhs (pow_pos width))) in
      rw (computed, result, left, right) refl

-- BinOp on two constants, at 1 to 63 bits: addition and subtraction with NoUnsignedWrap, and
-- division and remainder with the flag Unsigned, on the operands taken modulo the power of two.
-- The result is the constant of the exact result, and a fresh value where that does not fit or the
-- divisor is 0.
pub bin_op-exact :
    (op : UnsignedOp) (width : ℕ) (first second : ValueId) {lhs rhs : ℕ} (c : ValueContainer)
    → 0 < width
    → width < 64
    → find first c.constants ≡ some lhs
    → find second c.constants ≡ some rhs
    → bin_op first second width (options_of op) c
      ≡ value_of_result (exact op (2 ^ width) (lhs % 2 ^ width) (rhs % 2 ^ width)) c
unfolding bin_op
bin_op-exact op width first second {lhs} {rhs} c some_bits less left right =
    rw (bin_op, left, right) (bin_op_constants-exact width lhs rhs some_bits less op c)
