-- ===== src/ValueContainer/Tests.antt =====
-- A container with the constant 0 and the constraint #5 > #6, and the theorems at it.
use angie.Common.{
  ◌*◌, ◌≤◌, ◌<◌, ◌⊎◌, none, ◌%◌, ◌^◌, ℕ, ◌≡◌, refl, true, false, some, [], ◌∷◌, ◌==◌, arith,
  Bool-cases, inl, inr, if◌then◌else◌,
}
use angie.Common.Dict.{ℕ_key, find, assign}
use angie.Common.Run.{ok, value}
use angie.Common.Words.{magnitude, is_negative, mul64, slt, shl64, neg64, sub64}
use angie.Values.{
  ValueId, no_unsigned_wrap, no_signed_wrap, check_flag, eq, gt, lt, lt_eq, unsig_lt, next_id,
}
use angie.ValueContainer.{
  create_const_int_val, get_constant_int_inner_val, BinaryConstraint, contains, get_other,
  ValueContainer, vector_at, is_constant, get_constraint_id_vector, get_next_constraint_id,
  rip_bits, sign_extend64, bsr_loop, bsr,
}
use angie.ValueContainer.Constraints.{
  constraint, constructor_body, binary_constraint, invalidate_for_constant, delete_mutual_one,
  delete_mutual, push_back, with_constraint, add_constraint, insert_constraint,
}
use angie.ValueContainer.Assume.{constrain, assume}
use angie.ValueContainer.Compare.{Tribool, is_cmp, compare_constants}
use angie.ValueContainer.Model.{cmp_words, agree, IsModel}
use angie.ValueContainer.Arith.{Operands, op_mul, bin_op, value_of_result}
use angie.ValueContainer.Arith.Widths.{op_mul-fits}
use angie.ValueContainer.Arith.Unsigned.{plus, options_of, exact, bin_op-exact}
use angie.ValueContainer.Valid.Constants.{IsNumbered, create_const_int_val_lem}
use angie.ValueContainer.Model.Returns.{is_supported, is_cmp-Returns}
use angie.ValueContainer.Model.Exchanged.{is_cmp-insert_constraint}
use angie.ValueContainer.Model.Assume.{assume-IsValid, assume-IsModel, is_cmp-assume}
use angie.ValueContainer.Model.Queries.{IsRight, is_cmp-IsRight}
use angie.ValueContainer.Valid.{has, refers, IsValid}
use angie.ValueContainer.Valid.Insert.{Inserted, insert_constraint-Inserted}

abbrev five_gt_six : BinaryConstraint
five_gt_six = constraint 5 6 gt

abbrev sample : ValueContainer
sample = record {
  constants = (0, 0) ∷ [];
  constraints = (0, five_gt_six) ∷ [];
  constraint_ids = (5, 0 ∷ []) ∷ (6, 0 ∷ []) ∷ [];
  zero_id = 0;
  next_value_id = 7;
  next_constraint_id = 1;
}

sample-IsValid : IsValid sample
unfolding has refers vector_at contains find
sample-IsValid = record {
  indexed = λ k v. ground arith;
  distinct = λ v. elim (Bool-cases (5 == v)) [
    | inl five ↦ rw (vector_at, find, five) (refl, tt)
    | inr other ↦ elim (Bool-cases (6 == v)) [
      | inl six ↦ rw (vector_at, find, other, six) (refl, tt)
      | inr neither ↦ rw (vector_at, find, other, neither) tt
    ]
  ];
  sides = λ k b found. ground arith;
  below = λ k b found. ground arith;
}

abbrev word_of : ValueId → ℕ
word_of v = if v == 5 then 9 else if v == 6 then 3 else 0

-- The words keep the constraint.
five_gt_six-holds :
    cmp_words 32 five_gt_six.relation (word_of five_gt_six.first) (word_of five_gt_six.second)
    ≡ value (some true)
unfolding cmp_words compare_constants sign_extend64 rip_bits slt shl64 neg64 sub64
five_gt_six-holds = refl

sample-IsModel : IsModel word_of 32 sample
unfolding find
sample-IsModel = record {
  constants = λ id found. ground arith;
  constraints =
      λ k {b} found. let same : b ≡ five_gt_six = ground arith in rw same five_gt_six-holds;
}

is_cmp-IsRight_example : IsRight eq (agree 32 (word_of 5) (word_of 6)) false
unfolding is_cmp get_other find vector_at
is_cmp-IsRight_example = is_cmp-IsRight sample-IsModel eq 5 6 false refl

abbrev five_lt_seven : BinaryConstraint
five_lt_seven = constraint 5 7 lt

insert_constraint-Inserted_example :
    (c' : ValueContainer) × (insert_constraint five_lt_seven sample ≡ ok tt c')
    × Inserted five_lt_seven sample c'
insert_constraint-Inserted_example =
    insert_constraint-Inserted five_lt_seven refl sample sample-IsValid (omega arith)

assume-IsValid_example :
    (c' : ValueContainer) × (assume 5 7 32 gt sample ≡ ok tt c')
    × IsValid c'
    × (c'.constants ≡ sample.constants)
unfolding is_supported
assume-IsValid_example =
    assume-IsValid sample-IsValid (omega arith) (omega arith) (omega arith) 5 7 refl gt refl

-- The sample with the constraint #5 > #7.
abbrev larger_sample : ValueContainer
larger_sample = record {
  constants = (0, 0) ∷ [];
  constraints = (0, five_gt_six) ∷ (1, constraint 5 7 gt) ∷ [];
  constraint_ids = (5, 0 ∷ 1 ∷ []) ∷ (6, 0 ∷ []) ∷ (7, 1 ∷ []) ∷ [];
  zero_id = 0;
  next_value_id = 7;
  next_constraint_id = 2;
}

assume-IsModel_example : IsModel word_of 32 larger_sample
unfolding is_supported cmp_words compare_constants sign_extend64 rip_bits slt shl64 neg64 sub64
    assume constrain is_cmp find vector_at binary_constraint constructor_body insert_constraint
    invalidate_for_constant is_constant delete_mutual delete_mutual_one get_constraint_id_vector
    get_other add_constraint get_next_constraint_id next_id with_constraint push_back assign
assume-IsModel_example =
    assume-IsModel sample-IsValid (omega arith) (omega arith) (omega arith) 5 7 refl gt refl
      sample-IsModel refl refl

is_cmp-assume_example :
    (c' : ValueContainer) × (assume 5 7 32 lt_eq sample ≡ ok tt c')
    × (is_cmp c' 5 7 32 lt_eq ≡ value (some true))
unfolding is_constant find
is_cmp-assume_example =
    is_cmp-assume sample-IsValid (omega arith) (omega arith) (omega arith) 5 7 refl lt_eq refl refl
      refl

is_cmp-Returns_example : (r : Tribool) × (is_cmp sample 5 7 32 unsig_lt ≡ value r)
unfolding is_supported
is_cmp-Returns_example = is_cmp-Returns sample-IsValid (omega arith) (omega arith) 5 7 unsig_lt refl

sample-IsNumbered : IsNumbered sample
unfolding find is_constant
sample-IsNumbered = record { functional = (refl, tt); below = λ id is. ground arith }

create_const_int_val_lem_example :
    (id : ValueId) × (c' : ValueContainer) × ((create_const_int_val 12 sample ≡ ok id c')
      × (get_constant_int_inner_val c' id ≡ value 12)
      × (create_const_int_val 12 c' ≡ ok id c')
      × IsNumbered c')
create_const_int_val_lem_example = create_const_int_val_lem sample-IsNumbered (omega arith) 12

-- The constants #5 = 200 and #6 = 100, of which the sum does not fit into 8 bits.
abbrev two_constants : ValueContainer
two_constants = record sample { constants = (0, 0) ∷ (5, 200) ∷ (6, 100) ∷ [] }

bin_op-exact_example :
    bin_op 5 6 8 (options_of plus) two_constants
    ≡ value_of_result (exact plus (2 ^ 8) (200 % 2 ^ 8) (100 % 2 ^ 8)) two_constants
unfolding find
bin_op-exact_example = bin_op-exact plus 8 5 6 two_constants (omega arith) (omega arith) refl refl

-- The operands 15 and 17 of 16 bits.
abbrev two_factors : Operands
two_factors = record {
  width = 16;
  u_lhs = 15;
  u_rhs = 17;
  s_lhs = 15;
  s_rhs = 17;
  u_max = 0xffff;
  s_max = 0x7fff;
  s_min = 0x8000;
}

op_mul-fits_example :
    ((op_mul no_unsigned_wrap two_factors ≡ none) × (2 ^ 16 ≤ 2 * (15 * 17)))
    ⊎ ((op_mul no_unsigned_wrap two_factors ≡ some (mul64 15 17)) × (15 * 17 < 2 ^ 16))
unfolding check_flag
op_mul-fits_example =
    op_mul-fits no_unsigned_wrap two_factors refl (omega arith) (omega arith) (omega arith)
      (omega arith) λ both. absurd (omega arith)

-- BSR counts one bit for 2, so that 2 * 2 is taken to fit into 2 bits; and with NoSignedWrap, the
-- product 225 is taken to fit into a signed number of 8 bits.
admitted_products :
    (op_mul no_unsigned_wrap
        (record two_factors { width = 2; u_lhs = 2; u_rhs = 2; s_lhs = 2; s_rhs = 2 })
      ≡ some 4)
    × (op_mul no_signed_wrap (record two_factors { width = 8; u_rhs = 15; s_rhs = 15 }) ≡ some 225)
unfolding op_mul check_flag bsr bsr_loop magnitude is_negative mul64
admitted_products = (refl, refl)

is_cmp-insert_constraint_example :
    (c' : ValueContainer) × (insert_constraint (constraint 7 8 gt) sample ≡ ok tt c')
    × (is_cmp c' 8 7 32 gt ≡ value (some true))
unfolding is_constant find
is_cmp-insert_constraint_example =
    is_cmp-insert_constraint 7 8 32 gt sample-IsValid (omega arith) refl refl refl refl
