-- ===== src/ValueContainer/Model/Returns.antt =====
-- IsCmp of src/ValueContainerV1.cpp returns, on a valid container.
use angie.Common.{
  ℕ, ◌*◌, ◌^◌, ◌%◌, ◌<◌, ◌≤◌, ◌≡◌, refl, Bool, true, false, none, some, List, [], ◌∷◌, ◌==◌, arith,
  inl, inr, Bool-cases, Option-cases,
}
use angie.Common.Dict.{ℕ_key, find}
use angie.Common.Run.{Exception, Result, value, then_value, or_throw}
use angie.Common.Words.{modulus, sub64, shl64}
use angie.Values.{
  ValueId, ConstraintId, CmpFlags, eq, neq, gt, gt_eq, lt, lt_eq, unsig_gt, unsig_gt_eq, unsig_lt,
  unsig_lt_eq,
}
use angie.ValueContainer.{
  BinaryConstraint, contains, get_other, ValueContainer, is_constant, get_constant_int_inner_val,
  get_constraint_id_vector, rip_bits, sign_extend64,
}
use angie.ValueContainer.Compare.{
  Tribool, compare_constants, first_answer, ask_constant, ask_related, cmp_constants,
  cmp_with_constant, is_cmp,
}
use angie.ValueContainer.Valid.{has, refers, IsValid}

-- The comparisons that IsCmp decides between two constants.
unfoldable pub is_supported : CmpFlags → Bool
is_supported eq = true
is_supported neq = true
is_supported gt = true
is_supported gt_eq = true
is_supported lt = true
is_supported lt_eq = true
is_supported unsig_gt = true
is_supported unsig_gt_eq = true
is_supported unsig_lt = true
is_supported unsig_lt_eq = true
is_supported _ = false

not_both : (b : Bool) → b ≡ false → b ≡ true → ⊥
not_both b p q = ground arith

-- The code returns, and does not throw.
abbrev pub Returns : {A : Type 0} → Result A → Type 0
Returns {A} r = (a : A) × (r ≡ value a)

compare_constants-Returns :
    (flags : CmpFlags) (v1 v2 u1 u2 : ℕ)
    → is_supported flags ≡ true
    → Returns (compare_constants flags v1 v2 u1 u2)
unfolding compare_constants is_supported
compare_constants-Returns eq v1 v2 u1 u2 h = (_, refl)
compare_constants-Returns neq v1 v2 u1 u2 h = (_, refl)
compare_constants-Returns gt v1 v2 u1 u2 h = (_, refl)
compare_constants-Returns gt_eq v1 v2 u1 u2 h = (_, refl)
compare_constants-Returns lt v1 v2 u1 u2 h = (_, refl)
compare_constants-Returns lt_eq v1 v2 u1 u2 h = (_, refl)
compare_constants-Returns unsig_gt v1 v2 u1 u2 h = (_, refl)
compare_constants-Returns unsig_gt_eq v1 v2 u1 u2 h = (_, refl)
compare_constants-Returns unsig_lt v1 v2 u1 u2 h = (_, refl)
compare_constants-Returns unsig_lt_eq v1 v2 u1 u2 h = (_, refl)
compare_constants-Returns _ v1 v2 u1 u2 h = ground arith

then_value-Returns :
    {A B : Type 0} {r : Result A} (f : A → Result B)
    → Returns r
    → ((a : A) → Returns (f a))
    → Returns (then_value r f)
then_value-Returns f (a, e) next = rw e (next a)

answer-Returns :
    {rest : Result Tribool}
    → Returns rest
    → (r : Tribool) → Returns (elim r [ none ↦ rest | some b ↦ value (some b) ])
answer-Returns h none = h
answer-Returns h (some b) = (_, refl)

first_answer-Returns :
    (f : ConstraintId → Result Tribool) (ks : List ConstraintId)
    → ((k : ConstraintId) → has k ks ≡ true → Returns (f k))
    → Returns (first_answer f ks)
unfolding first_answer has
first_answer-Returns f [] h = (_, refl)
first_answer-Returns f (k ∷ ks) h =
    let rest = first_answer-Returns f ks (λ j listed. h j (ground arith)) in
    then_value-Returns _ (h k (ground arith)) (answer-Returns rest)

module _ {c : ValueContainer} (valid : IsValid c) where
  -- A constraint that the index lists for a value is there, and has the value for a side.
  pub listed :
      (k : ConstraintId) (x : ValueId)
      → has k (get_constraint_id_vector c x) ≡ true
      → (b : BinaryConstraint) × (y : ValueId) × (find k c.constraints ≡ some b)
        × (get_other b x ≡ value y)
  unfolding get_constraint_id_vector refers contains get_other
  listed k x h = elim (Option-cases (find k c.constraints)) [
    | inl missing ↦
        absurd (not_both (refers c k x) (ground arith) (ground (arith, valid.indexed k x)))
    | inr (b, found) ↦ elim (Bool-cases (x == b.first)) [
      | inl first ↦ (b, b.second, found, ground arith)
      | inr other ↦ (b, b.first, found, ground (arith, valid.indexed k x))
    ]
  ]

module _ {width : ℕ} (some_bits : 0 < width) (in_word : width ≤ 64) where
  pub shift-Returns : Returns (shl64 1 (sub64 width 1))
  unfolding shl64 sub64
  shift-Returns = (1 * 2 ^ sub64 width 1 % modulus, ground arith)

  pub sign_extend64-Returns : (x : ℕ) → Returns (sign_extend64 width x)
  unfolding sign_extend64
  sign_extend64-Returns x = then_value-Returns _ shift-Returns (λ mask. (_, refl))

module _ {c : ValueContainer} (valid : IsValid c) {width : ℕ} (some_bits : 0 < width)
    (in_word : width ≤ 64) where
  constant-Returns :
      (x : ValueId) → is_constant c x ≡ true → Returns (get_constant_int_inner_val c x)
  unfolding is_constant get_constant_int_inner_val
  constant-Returns x h = elim (Option-cases (find x c.constants)) [
    | inl missing ↦ absurd (not_both (is_constant c x) (ground arith) h)
    | inr (v, found) ↦ (v, ground arith)
  ]

  at-Returns :
      (e : Exception) (k : ConstraintId) (x : ValueId)
      → has k (get_constraint_id_vector c x) ≡ true
      → Returns (then_value (or_throw e (find k c.constraints)) (λ b. get_other b x))
  at-Returns e k x h = let (b, y, found, sides) = listed valid k x h in (y, ground arith)

  ask_related-Returns :
      (flags : CmpFlags) (first second : ValueId) (k : ConstraintId)
      → has k (get_constraint_id_vector c first) ≡ true
      → Returns (ask_related c flags first second k)
  unfolding ask_related
  ask_related-Returns flags first second k h =
      let (b, y, found, sides) = listed valid k first h in
      rw (found, sides)
        (elim (Bool-cases (second == y)) [
          | inl same ↦ rw same (_, refl)
          | inr other ↦ rw other (_, refl)
        ])

  ask_constant-Returns :
      (u1 : ℕ) (flags : CmpFlags) (second : ValueId) (k : ConstraintId)
      → has k (get_constraint_id_vector c second) ≡ true
      → Returns (ask_constant c width u1 flags second k)
  unfolding ask_constant
  ask_constant-Returns u1 flags second k h =
      let (b, y, found, sides) = listed valid k second h in
      rw (found, sides)
        (elim (Bool-cases (is_constant c y)) [
          | inl constant_y ↦ rw constant_y (
              then_value-Returns _ (constant-Returns y constant_y) (λ raw.
                then_value-Returns _ (sign_extend64-Returns some_bits in_word raw)
                  (λ _. (_, refl))))
          | inr unknown_y ↦ rw unknown_y (_, refl)
        ])

  cmp_constants-Returns :
      (flags : CmpFlags) (first second : ValueId)
      → is_supported flags ≡ true
      → is_constant c first ≡ true
      → is_constant c second ≡ true
      → Returns (cmp_constants c first second width flags)
  unfolding cmp_constants
  cmp_constants-Returns flags first second supported p q =
      then_value-Returns _ (constant-Returns first p) λ raw1.
        then_value-Returns _ (constant-Returns second q) λ raw2.
          then_value-Returns _ (sign_extend64-Returns some_bits in_word raw1) λ v1.
            then_value-Returns _ (sign_extend64-Returns some_bits in_word raw2) λ v2.
              compare_constants-Returns flags v1 v2 (rip_bits width raw1) (rip_bits width raw2)
                supported

  cmp_with_constant-Returns :
      (flags : CmpFlags) (first second : ValueId)
      → is_constant c first ≡ true
      → Returns (cmp_with_constant c first second width flags)
  unfolding cmp_with_constant
  cmp_with_constant-Returns flags first second p =
      then_value-Returns _ (constant-Returns first p) λ raw.
        then_value-Returns _ (sign_extend64-Returns some_bits in_word raw) λ _.
          first_answer-Returns _ (get_constraint_id_vector c second)
            (ask_constant-Returns (rip_bits width raw) flags second)

  -- On a valid container, at a width from 1 to 64 bits and for the ten comparisons that it decides,
  -- IsCmp returns an answer and does not throw.
  pub is_cmp-Returns :
      (first second : ValueId) (flags : CmpFlags)
      → is_supported flags ≡ true
      → (r : Tribool) × (is_cmp c first second width flags ≡ value r)
  unfolding is_cmp
  is_cmp-Returns first second flags supported = elim (Bool-cases (is_constant c first)) [
    | inl p ↦ elim (Bool-cases (is_constant c second)) [
      | inl q ↦ rw (p, q) (cmp_constants-Returns flags first second supported p q)
      | inr q ↦ rw (p, q) (cmp_with_constant-Returns flags first second p)
    ]
    | inr p ↦ elim (Bool-cases (is_constant c second)) [
      | inl q ↦ rw (p, q) (cmp_with_constant-Returns flags second first q)
      | inr q ↦
          rw (p, q)
            (first_answer-Returns _ (get_constraint_id_vector c first)
              (ask_related-Returns flags first second))
    ]
  ]
