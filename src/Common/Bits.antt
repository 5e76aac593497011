-- ===== src/Common/Bits.antt =====
-- The lowest bits of a number, by a mask and by a remainder.
use Prim.Native.Nat.{
  ℕ, zero, suc, ◌+◌, ◌-◌, ◌*◌, ◌/◌, ◌%◌, ◌^◌, ◌≤◌, ◌<◌, min, bit_and, digits, bit_and-bitwise,
}
use mathlib.Core.Path.{◌≡◌, ap, ◌∙◌}
use native.Mathlib.Omega.{arith}
use native.Mathlib.Nat.{mul_assoc, mul-add-mod_self_left, mod-eq_of_lt, mod-lt, div-add-mod}

-- The remainder by twice a number, one binary digit at a time.
mod_double : (k x : ℕ) → 0 < k → x % (2 * k) ≡ 2 * (x / 2 % k) + x % 2
mod_double k x pos =
    let q = x / 2 in
    let split : x ≡ 2 * k * (q / k) + (2 * (q % k) + x % 2) =
      omega (arith, div-add-mod q k, div-add-mod x 2, mul_assoc 2 k (q / k)) in
    let small : 2 * (q % k) + x % 2 < 2 * k = omega (arith, mod-lt q pos) in
    ap (λ y. y % (2 * k)) split
    ∙ mul-add-mod_self_left (2 * k) (q / k) (2 * (q % k) + x % 2)
    ∙ mod-eq_of_lt small

pub pow_pos : (n : ℕ) → 0 < 2 ^ n
pow_pos zero = omega arith
pow_pos (suc n) = omega (arith, pow_pos n)

mod_pow : (n x : ℕ) → x % 2 ^ suc n ≡ 2 * (x / 2 % 2 ^ n) + x % 2
mod_pow n x =
    let double : 2 ^ suc n ≡ 2 * 2 ^ n = omega arith in
    ap (λ k. x % k) double ∙ mod_double (2 ^ n) x (pow_pos n)

mask_step : (n : ℕ) → ((2 ^ suc n - 1) / 2 ≡ 2 ^ n - 1) × ((2 ^ suc n - 1) % 2 ≡ 1)
mask_step n = (omega (arith, pow_pos n), omega (arith, pow_pos n))

-- By the digits that the native operation stands for; `n` digits of `x` are enough.
digits_mask : (fuel n x : ℕ) → x ≤ fuel → digits (λ b. zero) min fuel x (2 ^ n - 1) ≡ x % 2 ^ n
digits_mask zero n zero h = omega (arith, pow_pos n)
digits_mask zero n (suc x) h = absurd (omega arith)
digits_mask (suc fuel) n zero h = omega (arith, pow_pos n)
digits_mask (suc fuel) zero (suc x) h =
    omega (arith, digits_mask fuel zero (suc x / 2) (omega arith))
digits_mask (suc fuel) (suc n) (suc x) h =
    rw ((mask_step n).0, (mask_step n).1)
      (omega (arith, digits_mask fuel n (suc x / 2) (omega arith), mod_pow n (suc x)))

-- A mask of `n` ones keeps the remainder by `2 ^ n`.
pub bit_and_mask : (n x : ℕ) → bit_and x (2 ^ n - 1) ≡ x % 2 ^ n
bit_and_mask n x = bit_and-bitwise x (2 ^ n - 1) ∙ digits_mask x n x (omega arith)
