-- ===== src/ValueContainer/Model/Exchanged.antt =====
-- IsCmp of src/ValueContainerV1.cpp on the query with the two values of a constraint exchanged: it
-- does not look at which of them is the first one.
use angie.Common.{ℕ, ◌+◌, ◌<◌, ◌≡◌, true, false, none, some, ◌==◌, arith}
use angie.Common.Dict.{ℕ_key}
use angie.Common.Run.{value, ok}
use angie.Common.Words.{modulus}
use angie.Values.{ValueId, ConstraintId, CmpFlags}
use angie.ValueContainer.{
  contains, get_other, ValueContainer, is_constant, get_constraint_id_vector,
}
use angie.ValueContainer.Constraints.{constraint, insert_constraint}
use angie.ValueContainer.Compare.{ask_related, is_cmp}
use angie.ValueContainer.Model.Returns.{listed}
use angie.ValueContainer.Valid.{has, refers, IsValid}
use angie.ValueContainer.Valid.Insert.{Inserted, insert_constraint-Inserted}
use angie.ValueContainer.Model.Assume.{
  is_asked, decide_related_self, first_answer-hit, constant-same,
}

module _ {c c' : ValueContainer} {first second : ValueId} {flags : CmpFlags}
    (apart : (first == second) ≡ false) (ins : Inserted (constraint first second flags) c c') where
  ask_exchanged :
      is_asked flags ≡ true
      → ask_related c' flags second first c.next_constraint_id ≡ value (some true)
  unfolding ask_related get_other
  ask_exchanged asked = ground (arith, ins.present, decide_related_self flags asked)

  ask_other_exchanged :
      (k : ConstraintId)
      → has k (get_constraint_id_vector c' second) ≡ true
      → (c.next_constraint_id == k) ≡ false
      → ask_related c' flags second first k ≡ value none
  unfolding ask_related get_other refers contains
  ask_other_exchanged k h other =
      let (b, y, found, sides) = listed ins.valid k second h in ground (arith, ins.only k)

  exchanged_listed : has c.next_constraint_id (get_constraint_id_vector c' second) ≡ true
  unfolding get_constraint_id_vector refers contains
  exchanged_listed = ground (arith, ins.valid.indexed c.next_constraint_id second, ins.present)

  is_cmp-exchanged :
      (width : ℕ)
      → is_asked flags ≡ true
      → is_constant c first ≡ false
      → is_constant c second ≡ false
      → is_cmp c' second first width flags ≡ value (some true)
  unfolding is_cmp
  is_cmp-exchanged width asked p q =
      rw (constant-same ins second, constant-same ins first, q, p)
        (first_answer-hit (ask_related c' flags second first) c.next_constraint_id
          (get_constraint_id_vector c' second) exchanged_listed (ask_exchanged asked)
          ask_other_exchanged)

-- After InsertConstraint of ==, != or one of the four signed orders between two different values
-- that are no constants, on a valid container whose counter of constraints does not wrap round,
-- IsCmp answers true to the same comparison with the values exchanged: after `a > b` also to
-- `b > a`.
pub is_cmp-insert_constraint :
    {c : ValueContainer} (first second : ValueId) (width : ℕ) (flags : CmpFlags)
    → IsValid c
    → c.next_constraint_id + 1 < modulus
    → (first == second) ≡ false
    → is_asked flags ≡ true
    → is_constant c first ≡ false
    → is_constant c second ≡ false
    → (c' : ValueContainer) × (insert_constraint (constraint first second flags) c ≡ ok tt c')
      × (is_cmp c' second first width flags ≡ value (some true))
is_cmp-insert_constraint {c} first second width flags valid room apart asked p q =
    let (c', ran, ins) =
      insert_constraint-Inserted (constraint first second flags) apart c valid room in
    (c', ran, is_cmp-exchanged apart ins width asked p q)
