-- ===== src/ValueContainer/Assume.antt =====
-- Cmp, Assume, AssumeTrue and AssumeFalse of src/ValueContainerV1.cpp.
use angie.Common.{ℕ, Bool, true, false, none, some, if◌then◌else◌}
use angie.Common.Run.{Run, pure, of_result, read, ◌>>=◌}
use angie.Values.{ValueId, CmpFlags, eq, neq}
use angie.ValueContainer.{ValueContainer, create_val, create_const_int_val}
use angie.ValueContainer.Constraints.{binary_constraint, insert_constraint}
use angie.ValueContainer.Compare.{Tribool, is_true, is_cmp, is_true_value, is_false_value}

-- `static_cast<uint64_t>(result.value)`
abbrev pub truth_word : Bool → ℕ
truth_word true = 1
truth_word false = 0

-- The result of a comparison as a value: a fresh one where it is not known.
unfoldable pub value_of_tribool : Tribool → Run ValueContainer ValueId
value_of_tribool none = create_val
value_of_tribool (some b) = create_const_int_val (truth_word b)

unfoldable pub cmp : (first second : ValueId) → (width : ℕ) → CmpFlags → Run ValueContainer ValueId
cmp first second width flags = do
  result ← read (λ c. is_cmp c first second width flags)
  value_of_tribool result

-- `InsertConstraint(BinaryConstraint(first, second, flags))`
unfoldable pub constrain : (first second : ValueId) → CmpFlags → Run ValueContainer (Unit {0})
constrain first second flags = do
  b ← of_result (binary_constraint first second flags)
  insert_constraint b

unfoldable pub assume :
    (first second : ValueId) → (width : ℕ) → CmpFlags → Run ValueContainer (Unit {0})
assume first second width flags = do
  known ← read (λ c. is_cmp c first second width flags)
  if is_true known then pure tt else constrain first second flags

unfoldable pub assume_true : ValueId → Run ValueContainer (Unit {0})
assume_true first = do
  known ← read (λ c. is_true_value c first 64)
  if is_true known then pure tt else λ c. constrain c.zero_id first neq c

unfoldable pub assume_false : ValueId → Run ValueContainer (Unit {0})
assume_false first = do
  known ← read (λ c. is_false_value c first 64)
  if is_true known then pure tt else λ c. constrain c.zero_id first eq c
