-- ===== src/Common/Words.antt =====
-- Words of 64 bits: uint64_t as the numbers below 2 ^ 64, and int64_t by its bit pattern, in two's
-- complement. A shift by 64 or more, and the division of the least int64_t by -1, have no defined
-- result in C++; other signed operations wrap round.
use Prim.Native.Nat.{ℕ, ◌+◌, ◌-◌, ◌*◌, ◌/◌, ◌%◌, ◌^◌}
use mathlib.Core.Bool.{Bool, not, ◌&&◌, ◌||◌}
use angie.Common.Tests.{ltb, leb, ◌==◌, if◌then◌else◌}
use angie.Common.Run.{Result, value, error, undefined_behaviour}

abbrev pub modulus : ℕ
modulus = 0x10000000000000000

abbrev pub sign_bit : ℕ
sign_bit = 0x8000000000000000

abbrev pub max_word : ℕ
max_word = 0xffffffffffffffff

unfoldable pub add64 : ℕ → ℕ → ℕ
add64 a b = (a + b) % modulus

unfoldable pub sub64 : ℕ → ℕ → ℕ
sub64 a b = (a + modulus - b) % modulus

unfoldable pub mul64 : ℕ → ℕ → ℕ
mul64 a b = a * b % modulus

unfoldable pub neg64 : ℕ → ℕ
neg64 a = (modulus - a) % modulus

unfoldable pub not64 : ℕ → ℕ
not64 a = max_word - a

unfoldable pub is_negative : ℕ → Bool
is_negative a = leb sign_bit a

-- `<` on int64_t: the sign bit turned over makes it the order of the numbers.
unfoldable pub slt : ℕ → ℕ → Bool
slt a b = ltb ((a + sign_bit) % modulus) ((b + sign_bit) % modulus)

unfoldable pub sle : ℕ → ℕ → Bool
unfolding slt
sle a b = not (slt b a)

unfoldable pub magnitude : ℕ → ℕ
unfolding is_negative neg64
magnitude a = if is_negative a then neg64 a else a

unfoldable pub shl64 : ℕ → ℕ → Result ℕ
shl64 a k = if ltb k 64 then value (a * 2 ^ k % modulus) else error undefined_behaviour

unfoldable pub shr64 : ℕ → ℕ → Result ℕ
shr64 a k = if ltb k 64 then value (a / 2 ^ k) else error undefined_behaviour

is_overflow : ℕ → ℕ → Bool
is_overflow a b = a == sign_bit && b == max_word

-- `a / b` on int64_t, which rounds towards zero; the divisor is not 0.
unfoldable pub sdiv64 : ℕ → ℕ → Result ℕ
unfolding is_overflow is_negative magnitude neg64
sdiv64 a b =
    if is_overflow a b
    then error undefined_behaviour
    else value (
        if is_negative a && not (is_negative b) || not (is_negative a) && is_negative b
        then neg64 (magnitude a / magnitude b)
        else magnitude a / magnitude b)

-- `a % b` on int64_t, with the sign of `a`; the divisor is not 0.
unfoldable pub srem64 : ℕ → ℕ → Result ℕ
unfolding is_overflow is_negative magnitude neg64
srem64 a b =
    if is_overflow a b
    then error undefined_behaviour
    else value
        (if is_negative a then neg64 (magnitude a % magnitude b) else magnitude a % magnitude b)
