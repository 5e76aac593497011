-- ===== src/LlvmFrontend/Predicates.antt =====
-- The flags of a comparison, for GetOperArgsForInstr of src/LlvmFrontend.cpp, against the predicates
-- of LLVM and against what the value container makes of the flags.
use angie.Common.{
  ℕ, ◌<◌, ◌≡◌, refl, ap, Bool, true, false, not, some, ◌==◌, ltb, arith, if◌then◌else◌,
}
use angie.Common.Run.{value}
use angie.Common.Words.{slt, sle, modulus, sign_bit}
use angie.Values.{
  FrontendId, CmpFlags, unset, unsigned, eq, neq, gt, gt_eq, lt, lt_eq, unsig_gt, unsig_gt_eq,
  unsig_lt, unsig_lt_eq,
}
use angie.Llvm.{
  Llvm, Predicate, icmp_eq, icmp_ne, icmp_ugt, icmp_uge, icmp_ult, icmp_ule, icmp_sgt, icmp_sge,
  icmp_slt, icmp_sle,
}
use angie.LlvmFrontend.Operands.{bits_of, flags_of, with_flags, relation_flags, icmp_flags}
use angie.ValueContainer.Compare.{compare_constants}

-- What LLVM documents of a predicate: whether it is an unsigned order, whether it holds of equal
-- operands, and the unsigned one in its place.
abbrev pub is_unsigned_predicate : Predicate → Bool
is_unsigned_predicate icmp_ugt = true
is_unsigned_predicate icmp_uge = true
is_unsigned_predicate icmp_ult = true
is_unsigned_predicate icmp_ule = true
is_unsigned_predicate _ = false

abbrev pub holds_when_equal : Predicate → Bool
holds_when_equal icmp_eq = true
holds_when_equal icmp_uge = true
holds_when_equal icmp_ule = true
holds_when_equal icmp_sge = true
holds_when_equal icmp_sle = true
holds_when_equal _ = false

abbrev pub unsigned_predicate : Predicate → Predicate
unsigned_predicate icmp_sgt = icmp_ugt
unsigned_predicate icmp_sge = icmp_uge
unsigned_predicate icmp_slt = icmp_ult
unsigned_predicate icmp_sle = icmp_ule
unsigned_predicate p = p

-- An instruction with this predicate.
pub record IsIcmp {T : Type 0} (llvm : Llvm T) (instr : FrontendId) (p : Predicate) : Type 0 where
  pub by_sign : llvm.is_unsigned instr ≡ is_unsigned_predicate p
  pub by_equal : llvm.is_true_when_equal instr ≡ holds_when_equal p
  pub by_order : llvm.get_unsigned_predicate instr ≡ unsigned_predicate p

-- The order of two's complement words: a negative word is below the others.
pub signed_less : (x y : ℕ) → Bool
signed_less x y =
    if ltb x sign_bit
    then if ltb y sign_bit then ltb x y else false
    else if ltb y sign_bit
    then true
    else ltb x y

-- What the predicates say of two words of 64 bits.
pub icmp_holds : Predicate → (x y : ℕ) → Bool
icmp_holds icmp_eq x y = x == y
icmp_holds icmp_ne x y = not (x == y)
icmp_holds icmp_ugt x y = ltb y x
icmp_holds icmp_uge x y = not (ltb x y)
icmp_holds icmp_ult x y = ltb x y
icmp_holds icmp_ule x y = not (ltb y x)
icmp_holds icmp_sgt x y = signed_less y x
icmp_holds icmp_sge x y = not (signed_less x y)
icmp_holds icmp_slt x y = signed_less x y
icmp_holds icmp_sle x y = not (signed_less y x)

abbrev flags_for : Predicate → CmpFlags
flags_for icmp_eq = eq
flags_for icmp_ne = neq
flags_for icmp_ugt = unsig_gt
flags_for icmp_uge = unsig_gt_eq
flags_for icmp_ult = unsig_lt
flags_for icmp_ule = unsig_lt_eq
flags_for icmp_sgt = gt
flags_for icmp_sge = gt_eq
flags_for icmp_slt = lt
flags_for icmp_sle = lt_eq

slt-signed_less : (x y : ℕ) → x < modulus → y < modulus → slt x y ≡ signed_less x y
unfolding slt signed_less
slt-signed_less x y hx hy = ground arith

flags_with :
    (p : Predicate)
    → with_flags
        (with_flags
          (with_flags unset (if is_unsigned_predicate p then unsigned else unset))
          (if holds_when_equal p then eq else unset))
        (relation_flags (unsigned_predicate p))
      ≡ flags_for p
unfolding with_flags flags_of bits_of relation_flags
flags_with icmp_eq = refl
flags_with icmp_ne = refl
flags_with icmp_ugt = refl
flags_with icmp_uge = refl
flags_with icmp_ult = refl
flags_with icmp_ule = refl
flags_with icmp_sgt = refl
flags_with icmp_sge = refl
flags_with icmp_slt = refl
flags_with icmp_sle = refl

icmp_flags_for :
    {T : Type 0} (llvm : Llvm T) (instr : FrontendId) (p : Predicate)
    → IsIcmp llvm instr p
    → icmp_flags llvm instr ≡ flags_for p
unfolding icmp_flags
icmp_flags_for llvm instr p is = rw (is.by_sign, is.by_equal, is.by_order) (flags_with p)

compare_flags :
    (p : Predicate) (x y : ℕ)
    → x < modulus
    → y < modulus
    → compare_constants (flags_for p) x y x y ≡ value (some (icmp_holds p x y))
unfolding compare_constants icmp_holds sle
compare_flags icmp_eq x y hx hy = refl
compare_flags icmp_ne x y hx hy = refl
compare_flags icmp_ugt x y hx hy = refl
compare_flags icmp_uge x y hx hy = refl
compare_flags icmp_ult x y hx hy = refl
compare_flags icmp_ule x y hx hy = refl
compare_flags icmp_sgt x y hx hy = ap (λ b. value (some b)) (slt-signed_less y x hy hx)
compare_flags icmp_sge x y hx hy = ap (λ b. value (some (not b))) (slt-signed_less x y hx hy)
compare_flags icmp_slt x y hx hy = ap (λ b. value (some b)) (slt-signed_less x y hx hy)
compare_flags icmp_sle x y hx hy = ap (λ b. value (some (not b))) (slt-signed_less y x hy hx)

-- The flags that GetOperArgsForInstr makes for an integer comparison, where LLVM answers its
-- questions about the predicate as it documents them: on two words of 64 bits, the comparison of
-- constants in the value container with these flags answers, and as the predicate does, with the
-- order of two's complement numbers for the signed predicates.
pub icmp_flags-compare :
    {T : Type 0} (llvm : Llvm T) (instr : FrontendId) (p : Predicate)
    → IsIcmp llvm instr p
    → (x y : ℕ) → x < modulus
    → y < modulus
    → compare_constants (icmp_flags llvm instr) x y x y ≡ value (some (icmp_holds p x y))
icmp_flags-compare llvm instr p is x y hx hy =
    rw (icmp_flags_for llvm instr p is) (compare_flags p x y hx hy)
