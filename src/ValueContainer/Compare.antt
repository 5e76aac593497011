-- ===== src/ValueContainer/Compare.antt =====
-- The queries of src/ValueContainerV1.cpp: IsCmp, IsInternalRepEq, IsZero. A tribool is an
-- `Option Bool`, with `none` for `indeterminate`.
use angie.Common.{
  ℕ, Bool, true, false, not, ◌&&◌, Option, none, some, List, [], ◌∷◌, ◌==◌, ltb, if◌then◌else◌,
}
use angie.Common.Dict.{ℕ_key, find}
use angie.Common.Run.{Result, value, error, runtime_error, out_of_range, then_value, or_throw}
use angie.Common.Words.{slt, sle}
use angie.Values.{
  ValueId, ConstraintId, CmpFlags, eq, neq, gt, gt_eq, lt, lt_eq, unsig_gt, unsig_gt_eq, unsig_lt,
  unsig_lt_eq,
}
use angie.ValueContainer.{
  contains, get_other, ValueContainer, is_constant, get_constant_int_inner_val,
  get_constraint_id_vector, rip_bits, sign_extend64,
}

abbrev pub Tribool : Type 0
Tribool = Option Bool

-- A tribool under `if`.
abbrev pub is_true : Tribool → Bool
is_true none = false
is_true (some b) = b

-- The switch on two constants, given signed and unsigned.
unfoldable pub compare_constants : CmpFlags → (v1 v2 u1 u2 : ℕ) → Result Tribool
compare_constants eq v1 v2 u1 u2 = value (some (u1 == u2))
compare_constants neq v1 v2 u1 u2 = value (some (not (u1 == u2)))
compare_constants gt v1 v2 u1 u2 = value (some (slt v2 v1))
compare_constants gt_eq v1 v2 u1 u2 = value (some (sle v2 v1))
compare_constants lt v1 v2 u1 u2 = value (some (slt v1 v2))
compare_constants lt_eq v1 v2 u1 u2 = value (some (sle v1 v2))
compare_constants unsig_gt v1 v2 u1 u2 = value (some (ltb u2 u1))
compare_constants unsig_gt_eq v1 v2 u1 u2 = value (some (not (ltb u1 u2)))
compare_constants unsig_lt v1 v2 u1 u2 = value (some (ltb u1 u2))
compare_constants unsig_lt_eq v1 v2 u1 u2 = value (some (not (ltb u2 u1)))
compare_constants _ v1 v2 u1 u2 = error runtime_error

-- The switch on a constraint with a constant; `same` says that it is the constant compared with.
-- `none` leads to the next constraint.
unfoldable pub decide_constant : CmpFlags → CmpFlags → (same : Bool) → Tribool
decide_constant eq eq same = some same
decide_constant eq neq same = if same then some false else none
decide_constant neq eq same = some (not same)
decide_constant neq neq same = if same then some true else none
decide_constant _ _ same = none

-- The switch on a constraint between the two values.
unfoldable pub decide_related : CmpFlags → CmpFlags → Tribool
decide_related eq eq = some true
decide_related eq neq = some false
decide_related eq gt = some false
decide_related eq lt = some false
decide_related neq eq = some false
decide_related neq neq = some true
decide_related neq gt = some true
decide_related neq lt = some true
decide_related gt gt = some true
decide_related gt eq = some false
decide_related gt lt = some false
decide_related gt lt_eq = some false
decide_related lt lt = some true
decide_related lt eq = some false
decide_related lt gt = some false
decide_related lt gt_eq = some false
decide_related gt_eq gt = some true
decide_related gt_eq gt_eq = some true
decide_related gt_eq eq = some true
decide_related gt_eq lt = some false
decide_related lt_eq lt = some true
decide_related lt_eq lt_eq = some true
decide_related lt_eq eq = some true
decide_related lt_eq gt = some false
decide_related _ _ = none

-- A loop over the constraint ids of a value that ends at the first answer.
unfoldable pub first_answer : (ConstraintId → Result Tribool) → List ConstraintId → Result Tribool
first_answer f [] = value none
first_answer f (k ∷ ks) =
    let rest = first_answer f ks in
    then_value (f k) (λ r. elim r [ none ↦ rest | some b ↦ value (some b) ])

-- One round of the loop where only the other side, `u1`, is a constant.
unfoldable pub ask_constant :
    ValueContainer → (width u1 : ℕ) → CmpFlags → ValueId → ConstraintId → Result Tribool
unfolding get_other is_constant get_constant_int_inner_val sign_extend64 rip_bits decide_constant
ask_constant c width u1 flags second k =
    then_value (or_throw out_of_range (find k c.constraints)) λ b.
      then_value (get_other b second) λ other.
        if is_constant c other
        then then_value (get_constant_int_inner_val c other) (λ raw.
          then_value (sign_extend64 width raw)
            (λ _. value (decide_constant flags b.relation (u1 == rip_bits width raw))))
        else value none

-- One round of the loop where neither value is a constant.
unfoldable pub ask_related :
    ValueContainer → CmpFlags → (first second : ValueId) → ConstraintId → Result Tribool
unfolding get_other decide_related
ask_related c flags first second k = then_value (or_throw runtime_error (find k c.constraints)) λ b.
    then_value (get_other b first)
      λ other. if second == other then value (decide_related flags b.relation) else value none

unfoldable pub cmp_constants :
    ValueContainer → (first second : ValueId) → (width : ℕ) → CmpFlags → Result Tribool
unfolding get_constant_int_inner_val sign_extend64 rip_bits compare_constants
cmp_constants c first second width flags = then_value (get_constant_int_inner_val c first) λ raw1.
    then_value (get_constant_int_inner_val c second) λ raw2.
      then_value (sign_extend64 width raw1) λ v1.
        then_value (sign_extend64 width raw2)
          λ v2. compare_constants flags v1 v2 (rip_bits width raw1) (rip_bits width raw2)

-- The second case, with the constant first.
unfoldable pub cmp_with_constant :
    ValueContainer → (first second : ValueId) → (width : ℕ) → CmpFlags → Result Tribool
unfolding get_constant_int_inner_val sign_extend64 rip_bits get_constraint_id_vector ask_constant
    first_answer
cmp_with_constant c first second width flags =
    then_value (get_constant_int_inner_val c first) λ raw. then_value (sign_extend64 width raw) λ _.
      first_answer (ask_constant c width (rip_bits width raw) flags second)
        (get_constraint_id_vector c second)

unfoldable pub is_cmp :
    ValueContainer → (first second : ValueId) → (width : ℕ) → CmpFlags → Result Tribool
unfolding is_constant cmp_constants cmp_with_constant ask_related first_answer
    get_constraint_id_vector
is_cmp c first second width flags =
    if is_constant c first && is_constant c second
    then cmp_constants c first second width flags
    else if is_constant c second
    then cmp_with_constant c second first width flags
    else if is_constant c first
    then cmp_with_constant c first second width flags
    else first_answer (ask_related c flags first second) (get_constraint_id_vector c first)

-- IsTrue and IsFalse of src/Values.hpp, which the container inherits.
unfoldable pub is_true_value : ValueContainer → ValueId → (width : ℕ) → Result Tribool
unfolding is_cmp
is_true_value c first width = is_cmp c first c.zero_id width neq

unfoldable pub is_false_value : ValueContainer → ValueId → (width : ℕ) → Result Tribool
unfolding is_cmp
is_false_value c first width = is_cmp c first c.zero_id width eq

unfoldable pub decide_rep_eq : CmpFlags → Tribool
decide_rep_eq eq = some true
decide_rep_eq neq = some false
decide_rep_eq gt = some false
decide_rep_eq lt = some false
decide_rep_eq _ = none

unfoldable pub ask_rep_eq : ValueContainer → (second : ValueId) → ConstraintId → Result Tribool
unfolding contains decide_rep_eq
ask_rep_eq c second k =
    then_value (or_throw runtime_error (find k c.constraints))
      λ b. value (if contains b second then decide_rep_eq b.relation else none)

unfoldable pub is_internal_rep_eq : ValueContainer → (first second : ValueId) → Result Tribool
unfolding is_constant ask_rep_eq first_answer get_constraint_id_vector
is_internal_rep_eq c first second =
    if first == second
    then value (some true)
    else if is_constant c first && is_constant c second
    then value (some false)
    else if ltb second first
    then first_answer (ask_rep_eq c first) (get_constraint_id_vector c second)
    else first_answer (ask_rep_eq c second) (get_constraint_id_vector c first)

-- The switch of IsZero on a constraint with the constant `v`, an int64_t.
unfoldable pub decide_zero : CmpFlags → (v : ℕ) → Tribool
decide_zero eq v = some (v == 0)
decide_zero neq v = if v == 0 then some false else none
decide_zero gt v = if sle 0 v then some false else none
decide_zero gt_eq v = if slt 0 v then some false else none
decide_zero lt v = if sle v 0 then some false else none
decide_zero lt_eq v = if slt v 0 then some false else none
decide_zero _ v = none

unfoldable pub ask_zero : ValueContainer → ValueId → ConstraintId → Result Tribool
unfolding get_other decide_zero
ask_zero c first k = then_value (or_throw runtime_error (find k c.constraints)) λ b.
    then_value (get_other b first) λ second.
      value (elim (find second c.constants) [ none ↦ none | some v ↦ decide_zero b.relation v ])

unfoldable pub is_zero : ValueContainer → ValueId → Result Tribool
unfolding ask_zero first_answer get_constraint_id_vector
is_zero c first = if first == c.zero_id then value (some true) else elim (find first c.constants) [
  | some v ↦ value (some (v == 0))
  | none ↦ first_answer (ask_zero c first) (get_constraint_id_vector c first)
]
