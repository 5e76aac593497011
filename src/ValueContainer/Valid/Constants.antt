-- ===== src/ValueContainer/Valid/Constants.antt =====
-- CreateConstIntVal of src/ValueContainerV1.cpp: one id for each constant.
use angie.Common.{
  ℕ, ◌+◌, ◌<◌, ◌≡◌, refl, true, Option, none, some, [], ◌∷◌, ◌==◌, inl, inr, Option-cases,
  Bool-cases, ltb, arith,
}
use angie.Common.Dict.{Dict, ℕ_key, find, assign, find-assign, find-assign_self}
use angie.Common.Run.{value, ok}
use angie.Common.Words.{modulus}
use angie.Values.{ValueId, next_id}
use angie.ValueContainer.{
  ValueContainer, is_constant, get_constant_int_inner_val, id_of_value, insert_constant,
  create_const_int_val,
}

-- No id has two entries.
abbrev pub IsFunctional : Dict ValueId ℕ → Type 0
IsFunctional [] = Unit {0}
IsFunctional ((id, _) ∷ m) = (find id m ≡ none) × IsFunctional m

-- Each id has one constant, and is below the next id to give.
pub record IsNumbered (c : ValueContainer) : Type 0 where
  pub functional : IsFunctional c.constants
  pub below : (id : ValueId) → is_constant c id ≡ true → id < c.next_value_id

some-none : {v : ℕ} → ◌≡◌ {A = Option ℕ} (some v) none → ⊥
some-none h = cc

assign-IsFunctional :
    (id : ValueId) (v : ℕ) (m : Dict ValueId ℕ)
    → IsFunctional m
    → find id m ≡ none
    → IsFunctional (assign id v m)
unfolding find assign
assign-IsFunctional id v [] h new_id = (refl, tt)
assign-IsFunctional id v ((j, w) ∷ m) h new_id = elim (Bool-cases (j == id)) [
  | inl same ↦ absurd (some-none (rw (find, same) at new_id))
  | inr other ↦
      let later : find id m ≡ none = rw (find, other) at new_id in
      elim (Bool-cases (ltb id j)) [
        | inl before ↦ rw (other, before) (ground arith, (h.0, h.1))
        | inr after ↦
            rw (other, after)
              (ground (arith, find-assign id j v m, h.0), assign-IsFunctional id v m h.1 later)
      ]
]

find-id_of_value :
    (v : ℕ) (m : Dict ValueId ℕ) {id : ValueId}
    → IsFunctional m
    → id_of_value v m ≡ some id
    → find id m ≡ some v
unfolding find id_of_value
find-id_of_value v [] h found = ground arith
find-id_of_value v ((j, w) ∷ m) {id} h found =
    ground (arith, find-id_of_value v m {id = id} h.1, h.0)

id_of_value-assign :
    (id : ValueId) (v : ℕ) (m : Dict ValueId ℕ)
    → id_of_value v m ≡ none
    → id_of_value v (assign id v m) ≡ some id
unfolding id_of_value assign
id_of_value-assign id v [] h = ground arith
id_of_value-assign id v ((j, w) ∷ m) h = ground (arith, id_of_value-assign id v m)

module _ {c : ValueContainer} (numbered : IsNumbered c) (room : c.next_value_id + 1 < modulus)
    (v : ℕ) where
  -- The container with the constant under the next id.
  abbrev with_constant : ValueContainer
  with_constant = record c {
    constants = assign c.next_value_id v c.constants;
    next_value_id = next_id c.next_value_id;
  }

  abbrev IsConstantFor : ValueContainer → ValueId → Type 0
  IsConstantFor c' id =
      (create_const_int_val v c ≡ ok id c')
      × (get_constant_int_inner_val c' id ≡ value v)
      × (create_const_int_val v c' ≡ ok id c')
      × IsNumbered c'

  unused : find c.next_value_id c.constants ≡ none
  unfolding is_constant
  unused = ground (arith, numbered.below c.next_value_id)

  old-IsConstantFor : (id : ValueId) → id_of_value v c.constants ≡ some id → IsConstantFor c id
  unfolding create_const_int_val get_constant_int_inner_val
  old-IsConstantFor id found = (
    ground arith,
    ground (arith, find-id_of_value v c.constants numbered.functional found),
    ground arith,
    numbered,
  )

  new-IsConstantFor : id_of_value v c.constants ≡ none → IsConstantFor with_constant c.next_value_id
  unfolding create_const_int_val insert_constant get_constant_int_inner_val is_constant next_id
  new-IsConstantFor missing = (
    ground arith,
    ground (arith, find-assign_self c.next_value_id v c.constants),
    ground (arith, id_of_value-assign c.next_value_id v c.constants missing),
    record {
      functional = assign-IsFunctional c.next_value_id v c.constants numbered.functional unused;
      below =
          λ id is. ground (arith, find-assign c.next_value_id id v c.constants, numbered.below id);
    },
  )

  pub create_const_int_val_lem :
      (id : ValueId) × (c' : ValueContainer) × ((create_const_int_val v c ≡ ok id c')
        × (get_constant_int_inner_val c' id ≡ value v)
        × (create_const_int_val v c' ≡ ok id c')
        × IsNumbered c')
  create_const_int_val_lem = elim (Option-cases (id_of_value v c.constants)) [
    | inl missing ↦ (c.next_value_id, with_constant, new-IsConstantFor missing)
    | inr (id, found) ↦ (id, c, old-IsConstantFor id found)
  ]
