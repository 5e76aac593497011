-- ===== src/ValueContainer/Model.antt =====
-- The meaning of a container: the assignments of words to values that its constants and its
-- constraints allow.
pub mod Assume
pub mod Exchanged
pub mod Queries
pub mod Returns
use angie.Common.{
  ℕ, ◌≡◌, refl, sym, ◌⊎◌, inl, inr, Bool, true, false, not, Option, none, some, List, [], ◌∷◌, ◌==◌,
  arith, ltb, if◌then◌else◌,
}
use angie.Common.Dict.{ℕ_key, find}
use angie.Common.Run.{Result, value, error, then_value}
use angie.Common.Words.{slt, sle}
use angie.Values.{ValueId, ConstraintId, CmpFlags, eq, neq, gt, lt}
use angie.ValueContainer.{BinaryConstraint, get_other, ValueContainer, rip_bits, sign_extend64}
use angie.ValueContainer.Compare.{Tribool, compare_constants, decide_related}

-- What IsCmp answers for two constants with the words `x` and `y`.
unfoldable pub cmp_words : (width : ℕ) → CmpFlags → ℕ → ℕ → Result Tribool
unfolding sign_extend64 compare_constants rip_bits
cmp_words width flags x y = then_value (sign_extend64 width x) λ v1.
    then_value (sign_extend64 width y)
      λ v2. compare_constants flags v1 v2 (rip_bits width x) (rip_bits width y)

-- The words agree in their lowest `width` bits.
unfoldable pub agree : (width : ℕ) → ℕ → ℕ → Bool
agree width x y = rip_bits width x == rip_bits width y

pub record IsModel (ρ : ValueId → ℕ) (width : ℕ) (c : ValueContainer) : Type 0 where
  pub constants : (id : ValueId) {v : ℕ} → find id c.constants ≡ some v → ρ id ≡ v
  pub constraints :
      (k : ConstraintId) {b : BinaryConstraint}
      → find k c.constraints ≡ some b
      → cmp_words width b.relation (ρ b.first) (ρ b.second) ≡ value (some true)

pub agree_comm : (width x y : ℕ) → agree width x y ≡ agree width y x
unfolding agree
agree_comm width x y = ground arith

pub agree_trans : (width x y z : ℕ) → agree width x y ≡ true → agree width x z ≡ agree width y z
unfolding agree
agree_trans width x y z h = ground arith

-- What a relation between two words says of their agreement; `none` says nothing.
unfoldable pub agreement : CmpFlags → Option Bool
agreement eq = some true
agreement neq = some false
agreement gt = some false
agreement lt = some false
agreement _ = none

slt_irrefl : (v : ℕ) → slt v v ≡ false
unfolding slt
slt_irrefl v = ground arith

-- Words that agree are extended alike.
sign_extend64-agree :
    (width x y : ℕ) → agree width x y ≡ true → sign_extend64 width x ≡ sign_extend64 width y
unfolding agree sign_extend64
sign_extend64-agree width x y h = let e : rip_bits width x ≡ rip_bits width y = ground arith in rw e

agree-cmp_words :
    (width : ℕ) (relation : CmpFlags) (x y : ℕ) {r : Bool}
    → cmp_words width relation x y ≡ value (some true)
    → agreement relation ≡ some r
    → agree width x y ≡ r
unfolding cmp_words compare_constants agreement agree slt
agree-cmp_words width gt x y h k = ground (arith, sign_extend64-agree width x y)
agree-cmp_words width lt x y h k = ground (arith, sign_extend64-agree width x y)
agree-cmp_words width _ x y h k = ground arith

-- The two sides of a constraint, in either order.
get_other-cases :
    (b : BinaryConstraint) (x : ValueId) {y : ValueId}
    → get_other b x ≡ value y
    → ((b.first ≡ x) × (b.second ≡ y)) ⊎ ((b.first ≡ y) × (b.second ≡ x))
unfolding get_other
get_other-cases b x h = ground arith

module _ {ρ : ValueId → ℕ} {width : ℕ} {c : ValueContainer} (model : IsModel ρ width c) where
  -- A constraint of `x` settles the agreement of its two sides in every model.
  pub agree-constraint :
      (k : ConstraintId) (b : BinaryConstraint) (x y : ValueId) {r : Bool}
      → find k c.constraints ≡ some b
      → get_other b x ≡ value y
      → agreement b.relation ≡ some r
      → agree width (ρ x) (ρ y) ≡ r
  agree-constraint k b x y there sides says =
      let at =
        agree-cmp_words width b.relation (ρ b.first) (ρ b.second) (model.constraints k there)
          says in
      elim (get_other-cases b x sides) [
        | inl (p, q) ↦ rw (← p, ← q) at
        | inr (p, q) ↦ rw (agree_comm width (ρ x) (ρ y), ← p, ← q) at
      ]
