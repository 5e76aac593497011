-- ===== src/ValueContainer.antt =====
-- The constants and constraints on values: src/ValueContainerV1.hpp and src/ValueContainerV1.cpp.
-- This file has the state and the small helpers. The two static counters of ids stand in the
-- record beside the fields of the class.
pub mod Constraints
pub mod Compare
pub mod Assume
pub mod Arith
pub mod Model
mod Tests
pub mod Valid
use angie.Common.{
  ℕ, zero, suc, ◌+◌, ◌-◌, ◌/◌, ◌^◌, Bool, true, false, ◌||◌, bit_and, bit_or, Option, none, some,
  List, [], ◌∷◌, ◌==◌, ltb, leb, if◌then◌else◌,
}
use angie.Common.Dict.{Dict, ℕ_key, find, assign}
use angie.Common.Run.{
  Result, value, error, Run, Outcome, ok, runtime_error, out_of_range, then_value, or_throw,
}
use angie.Common.Words.{shl64, neg64, sub64}
use angie.Values.{ValueId, ConstraintId, CmpFlags, AbstractionStatus, unknown, constant, next_id}

pub record BinaryConstraint : Type 0 where
  pub first : ValueId
  pub second : ValueId
  pub relation : CmpFlags

unfoldable pub contains : BinaryConstraint → ValueId → Bool
contains b id = (id == b.first) || (id == b.second)

unfoldable pub get_other : BinaryConstraint → ValueId → Result ValueId
get_other b id =
    if id == b.first
    then value b.second
    else if id == b.second
    then value b.first
    else error runtime_error

pub record ValueContainer : Type 0 where
  pub constants : Dict ValueId ℕ
  pub constraints : Dict ConstraintId BinaryConstraint
  pub constraint_ids : Dict ValueId (List ConstraintId)
  pub zero_id : ValueId
  pub next_value_id : ValueId
  pub next_constraint_id : ConstraintId

unfoldable pub is_constant : ValueContainer → ValueId → Bool
is_constant c id = elim (find id c.constants) [ none ↦ false | some _ ↦ true ]

unfoldable pub is_unknown : ValueContainer → ValueId → Bool
is_unknown c id = elim (find id c.constants) [ none ↦ true | some _ ↦ false ]

unfoldable pub get_abstraction_status : ValueContainer → ValueId → AbstractionStatus
unfolding is_constant
get_abstraction_status c id = if is_constant c id then constant else unknown

-- `constantContainer.at(value)`
unfoldable pub get_constant_int_inner_val : ValueContainer → ValueId → Result ℕ
get_constant_int_inner_val c id = or_throw out_of_range (find id c.constants)

-- The vector of an id, which is empty where the map has no entry.
unfoldable pub vector_at : ValueId → Dict ValueId (List ConstraintId) → List ConstraintId
vector_at id m = elim (find id m) [ none ↦ [] | some ks ↦ ks ]

unfoldable pub get_constraint_id_vector : ValueContainer → ValueId → List ConstraintId
get_constraint_id_vector c id = vector_at id c.constraint_ids

-- `ValueId::GetNextId()`, which is all that CreateVal does.
unfoldable pub create_val : Run ValueContainer ValueId
unfolding next_id
create_val c = ok c.next_value_id (record c { next_value_id = next_id c.next_value_id })

unfoldable pub get_next_constraint_id : Run ValueContainer ConstraintId
unfolding next_id
get_next_constraint_id c =
    ok c.next_constraint_id (record c { next_constraint_id = next_id c.next_constraint_id })

-- The loop of CreateConstIntVal: the first id that holds the value.
unfoldable pub id_of_value : ℕ → Dict ValueId ℕ → Option ValueId
id_of_value v [] = none
id_of_value v ((id, w) ∷ m) = if w == v then some id else id_of_value v m

unfoldable pub insert_constant : ℕ → Run ValueContainer ValueId
unfolding next_id
insert_constant v c = ok c.next_value_id (record c {
  constants = assign c.next_value_id v c.constants;
  next_value_id = next_id c.next_value_id;
})

unfoldable pub create_const_int_val : ℕ → Run ValueContainer ValueId
unfolding id_of_value insert_constant
create_const_int_val v c = elim (id_of_value v c.constants) [
  | some id ↦ ok id c
  | none ↦ insert_constant v c
]

unfoldable pub rip_bits : ℕ → ℕ → ℕ
rip_bits num_of_bits x = if ltb num_of_bits 64 then bit_and x (2 ^ num_of_bits - 1) else x

-- `numOfBits - 1` is taken on size_t.
unfoldable pub sign_extend64 : ℕ → ℕ → Result ℕ
unfolding rip_bits shl64 neg64 sub64
sign_extend64 num_of_bits x =
    let low = rip_bits num_of_bits x in
    then_value (shl64 1 (sub64 num_of_bits 1))
      (λ mask. value (bit_or (neg64 (bit_and low mask)) low))

-- `while (val >>= 1) pos++`; 64 rounds empty a word.
unfoldable pub bsr_loop : ℕ → ℕ → ℕ → ℕ
bsr_loop zero val pos = pos
bsr_loop (suc fuel) val pos =
    let rest = bsr_loop fuel (val / 2) (pos + 1) in if val / 2 == 0 then pos else rest

unfoldable pub bsr : ℕ → ℕ
unfolding bsr_loop
bsr val = if leb val 1 then val else if val == 2 then 1 else bsr_loop 64 val 1
