-- ===== src/ValueContainer/Arith/Widths.antt =====
-- The test for unsigned overflow of Mul in BinOp of src/ValueContainerV1.cpp, and BSR.
use native.Mathlib.Nat.{
  mul_assoc, mul_comm, mul-one, add-zero, add-suc, pow-suc, mul-le-mul, mul-le-mul_right,
  mul-lt-mul_of_pos_left, pow-le-pow_right,
}
use angie.Common.{
  ℕ, ◌≢◌, ◌⊎◌, inl, inr, Bool-cases, zero, suc, ◌+◌, ◌*◌, ◌/◌, ◌^◌, ◌<◌, ◌≤◌, ◌≡◌, refl, ap, sym,
  ◌∙◌, true, false, none, some, ◌==◌, ltb, leb, arith, if◌then◌else◌,
}
use angie.Common.Bits.{pow_pos}
use angie.Common.Words.{modulus, mul64}
use angie.Values.{ArithFlags, no_unsigned_wrap, check_flag}
use angie.ValueContainer.{bsr_loop, bsr}
use angie.ValueContainer.Arith.{Operands, op_mul}

pow_add : (a b : ℕ) → 2 ^ (a + b) ≡ 2 ^ a * 2 ^ b
pow_add a zero = ap (λ k. 2 ^ k) (add-zero a) ∙ sym (mul-one (2 ^ a))
pow_add a (suc b) =
    ap (λ k. 2 ^ k) (add-suc a b)
    ∙ pow-suc 2 (a + b)
    ∙ ap (λ p. p * 2) (pow_add a b)
    ∙ mul_assoc (2 ^ a) (2 ^ b) 2
    ∙ ap (λ p. 2 ^ a * p) (sym (pow-suc 2 b))

-- The loop counts the bits above the lowest.
bsr_loop_lem :
    (fuel val pos : ℕ)
    → 0 < val
    → val < 2 ^ fuel
    → (d : ℕ) × (bsr_loop fuel val pos ≡ pos + d) × (2 ^ d ≤ val) × (val < 2 * 2 ^ d)
unfolding bsr_loop
bsr_loop_lem zero val pos some_bit small = absurd (omega arith)
bsr_loop_lem (suc fuel) val pos some_bit small = elim (Bool-cases (val / 2 == 0)) [
  | inl last ↦ (0, ground arith, ground arith, ground arith)
  | inr more ↦
      let (d, counted, low, high) =
        bsr_loop_lem fuel (val / 2) (pos + 1) (ground arith) (omega arith) in
      (suc d, ground (arith, counted), omega (arith, low), omega (arith, high))
]

bsr-loop : (v : ℕ) → 2 < v → bsr v ≡ bsr_loop 64 v 1
unfolding bsr
bsr-loop v h =
    let large : leb v 1 ≡ false = ground arith in
    let other : (v == 2) ≡ false = ground arith in
    ap (λ b. if b then v else if v == 2 then 1 else bsr_loop 64 v 1) large
    ∙ ap (λ b. if b then 1 else bsr_loop 64 v 1) other

-- A number lies below the power of two of its length, but for 2, and not below a half of it.
bsr-many : (v : ℕ) → v < modulus → 2 < v → (v < 2 ^ bsr v) × (2 ^ bsr v ≤ 2 * v)
bsr-many v word h =
    let (d, counted, low, high) = bsr_loop_lem 64 v 1 (omega arith) word in
    let length : 2 ^ bsr v ≡ 2 * 2 ^ d = ap (λ k. 2 ^ k) (bsr-loop v h ∙ counted) ∙ pow_add 1 d in
    (omega (arith, high, length), omega (arith, low, length))

bsr-above : (v : ℕ) → v < modulus → v ≢ 2 → v < 2 ^ bsr v
unfolding bsr
bsr-above zero word other = omega arith
bsr-above (suc zero) word other = omega arith
bsr-above (suc (suc zero)) word other = absurd (other refl)
bsr-above (suc (suc (suc v))) word other = (bsr-many (suc (suc (suc v))) word (omega arith)).0

bsr-above_or_at : (v : ℕ) → v < modulus → v ≤ 2 ^ bsr v
unfolding bsr
bsr-above_or_at v word = elim (Bool-cases (v == 2)) [
  | inl same ↦ let two : v ≡ 2 = ground arith in rw two (omega arith)
  | inr other ↦ omega (arith, bsr-above v word (ground arith))
]

bsr-half : (v : ℕ) → v < modulus → 0 < v → 2 ^ bsr v ≤ 2 * v
unfolding bsr
bsr-half zero word some_bit = absurd (omega arith)
bsr-half (suc zero) word some_bit = omega arith
bsr-half (suc (suc zero)) word some_bit = omega arith
bsr-half (suc (suc (suc v))) word some_bit = (bsr-many (suc (suc (suc v))) word (omega arith)).1

mul-below : (l r a b : ℕ) → 0 < a → l ≤ a → r < b → l * r < a * b
mul-below l r a b some_bit p q =
    omega (arith, mul-le-mul_right r p, mul-lt-mul_of_pos_left q some_bit)

-- No product of two words needs more bits than both have, but 2 * 2.
product-below :
    (l r : ℕ) → l < modulus → r < modulus → ¬ ((l ≡ 2) × (r ≡ 2)) → l * r < 2 ^ (bsr l + bsr r)
product-below l r p q other = elim (Bool-cases (r == 2)) [
  | inl same ↦ omega (
    arith,
    pow_add (bsr l) (bsr r),
    mul_comm l r,
    mul_comm (2 ^ bsr l) (2 ^ bsr r),
    mul-below r l (2 ^ bsr r) (2 ^ bsr l) (pow_pos (bsr r)) (bsr-above_or_at r q)
        (bsr-above l p λ two. other (two, ground arith)),
  )
  | inr differs ↦ omega (
    arith,
    pow_add (bsr l) (bsr r),
    mul-below l r (2 ^ bsr l) (2 ^ bsr r) (pow_pos (bsr l)) (bsr-above_or_at l p)
        (bsr-above r q (ground arith)),
  )
]

product-above :
    (l r : ℕ) → l < modulus → r < modulus → 0 < l → 0 < r → 2 ^ (bsr l + bsr r) ≤ 4 * (l * r)
product-above l r p q left right = omega (
  arith,
  pow_add (bsr l) (bsr r),
  mul_assoc 2 l (2 * r),
  mul_assoc 2 l r,
  mul_comm l (2 * r),
  mul_assoc 2 r l,
  mul_comm r l,
  mul-le-mul (bsr-half l p left) (bsr-half r q right),
)

-- The test of Mul for unsigned overflow, on two words that are not 0 and not both 2: where it
-- refuses the constant result, twice the product does not fit into the width, and where it admits
-- it, the product fits.
pub op_mul-fits :
    (flags : ArithFlags) (o : Operands)
    → check_flag flags no_unsigned_wrap ≡ true
    → 0 < o.u_lhs
    → 0 < o.u_rhs
    → o.u_lhs < modulus
    → o.u_rhs < modulus
    → ¬ ((o.u_lhs ≡ 2) × (o.u_rhs ≡ 2))
    → ((op_mul flags o ≡ none) × (2 ^ o.width ≤ 2 * (o.u_lhs * o.u_rhs)))
      ⊎ ((op_mul flags o ≡ some (mul64 o.s_lhs o.s_rhs)) × (o.u_lhs * o.u_rhs < 2 ^ o.width))
unfolding op_mul
op_mul-fits flags o flag left right p q other =
    let k = bsr o.u_lhs + bsr o.u_rhs in
    elim (Bool-cases (ltb o.width k)) [
      | inl over ↦ inl (
        rw (flag, over) refl,
        omega (
          arith,
          pow_pos o.width,
          product-above o.u_lhs o.u_rhs p q left right,
          pow-le-pow_right {n = 2} (omega arith) {i = suc o.width} {j = k} (ground arith),
        ),
      )
      | inr fits ↦ inr (
        rw (flag, fits) refl,
        omega (
          arith,
          product-below o.u_lhs o.u_rhs p q other,
          pow-le-pow_right {n = 2} (omega arith) {i = k} {j = o.width} (ground arith),
        ),
      )
    ]
