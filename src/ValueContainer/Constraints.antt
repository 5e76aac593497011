-- ===== src/ValueContainer/Constraints.antt =====
-- The constructor of BinaryConstraint, and InsertConstraint and DeleteConstraint of
-- src/ValueContainerV1.cpp.
use angie.Common.{Bool, true, false, none, some, List, [], ◌∷◌, ◌++◌, ◌==◌, ltb, if◌then◌else◌}
use angie.Common.Dict.{Dict, ℕ_key, find, assign, erase}
use angie.Common.Run.{
  Result, value, error, Run, ok, raise, runtime_error, out_of_range, pure, of_result, read,
  then_value, or_throw, ◌>>=◌, ◌>>◌,
}
use angie.Values.{
  ValueId, ConstraintId, CmpFlags, eq, neq, gt, gt_eq, lt, lt_eq, unsig_gt, unsig_gt_eq, unsig_lt,
  unsig_lt_eq,
}
use angie.ValueContainer.{
  BinaryConstraint, get_other, ValueContainer, is_constant, vector_at, get_constraint_id_vector,
  get_next_constraint_id,
}

-- The switch of the constructor: the relation with its sides exchanged.
unfoldable pub mirrored : CmpFlags → Result CmpFlags
mirrored eq = value eq
mirrored neq = value neq
mirrored gt = value lt
mirrored gt_eq = value lt_eq
mirrored lt = value gt
mirrored lt_eq = value gt_eq
mirrored unsig_gt = value unsig_lt
mirrored unsig_gt_eq = value unsig_lt_eq
mirrored unsig_lt = value unsig_gt
mirrored unsig_lt_eq = value unsig_gt_eq
mirrored _ = error runtime_error

abbrev pub constraint : ValueId → ValueId → CmpFlags → BinaryConstraint
constraint a b r = record { first = a; second = b; relation = r }

-- The body of the constructor, for given values of the members `first` and `second`. It tests and
-- swaps those members, and not the parameters.
unfoldable pub constructor_body :
    (first second : ValueId) → ValueId → ValueId → CmpFlags → Result BinaryConstraint
unfolding mirrored
constructor_body first second a b r =
    if ltb second first
    then then_value (mirrored r) (λ r'. value (constraint a b r'))
    else value (constraint a b r)

-- Both members are still 0 when the body starts.
unfoldable pub binary_constraint : ValueId → ValueId → CmpFlags → Result BinaryConstraint
unfolding constructor_body
binary_constraint = constructor_body 0 0

-- `v.erase(std::remove(v.begin(), v.end(), k), v.end())`
unfoldable pub remove : ConstraintId → List ConstraintId → List ConstraintId
remove k [] = []
remove k (j ∷ js) = if j == k then remove k js else j ∷ remove k js

-- The two vectors are one where the constraint is of a value with itself.
unfoldable pub unlink : ConstraintId → BinaryConstraint → ValueContainer → ValueContainer
unlink k b c =
    let ids = assign b.first (remove k (vector_at b.first c.constraint_ids)) c.constraint_ids in
    record c {
      constraints = erase k c.constraints;
      constraint_ids = assign b.second (remove k (vector_at b.second ids)) ids;
    }

-- The tests of DeleteConstraint on the constraint that it found.
unfoldable pub delete_found : ConstraintId → BinaryConstraint → Run ValueContainer (Unit {0})
delete_found k b c = elim (find b.first c.constraint_ids) [
  | none ↦ raise runtime_error c
  | some _ ↦ elim (find b.second c.constraint_ids) [
    | none ↦ raise runtime_error c
    | some _ ↦ ok tt (unlink k b c)
  ]
]

unfoldable pub delete_constraint : ConstraintId → Run ValueContainer (Unit {0})
delete_constraint k c = elim (find k c.constraints) [
  | none ↦ raise runtime_error c
  | some b ↦ delete_found k b c
]

unfoldable pub is_equality : CmpFlags → Bool
is_equality eq = true
is_equality _ = false

-- One round of the loops over the constraints of a value that is compared with a constant.
unfoldable pub invalidate_one : CmpFlags → ConstraintId → Run ValueContainer (Unit {0})
invalidate_one relation k c = elim (find k c.constraints) [
  | none ↦ raise runtime_error c
  | some _ ↦ if is_equality relation then delete_constraint k c else ok tt c
]

unfoldable pub invalidate_all : CmpFlags → List ConstraintId → Run ValueContainer (Unit {0})
invalidate_all relation [] = pure tt
invalidate_all relation (k ∷ ks) = invalidate_one relation k >> invalidate_all relation ks

-- The first part of InsertConstraint.
unfoldable pub invalidate_for_constant : BinaryConstraint → Run ValueContainer (Unit {0})
invalidate_for_constant b c =
    if is_constant c b.first
    then invalidate_all b.relation (get_constraint_id_vector c b.second) c
    else if is_constant c b.second
    then invalidate_all b.relation (get_constraint_id_vector c b.first) c
    else ok tt c

-- One round of the loop over the constraints of the first value.
unfoldable pub delete_mutual_one : BinaryConstraint → ConstraintId → Run ValueContainer (Unit {0})
delete_mutual_one b k = do
  old ← read (λ c. or_throw out_of_range (find k c.constraints))
  other ← of_result (get_other old b.first)
  if b.second == other then delete_constraint k else pure tt

unfoldable pub delete_mutual : BinaryConstraint → List ConstraintId → Run ValueContainer (Unit {0})
delete_mutual b [] = pure tt
delete_mutual b (k ∷ ks) = delete_mutual_one b k >> delete_mutual b ks

-- `constrIdContainer[id].push_back(k)`
unfoldable pub push_back :
    ValueId → ConstraintId → Dict ValueId (List ConstraintId) → Dict ValueId (List ConstraintId)
push_back id k m = assign id (vector_at id m ++ k ∷ []) m

unfoldable pub with_constraint : ConstraintId → BinaryConstraint → ValueContainer → ValueContainer
with_constraint k b c = record c {
  constraints = assign k b c.constraints;
  constraint_ids = push_back b.second k (push_back b.first k c.constraint_ids);
}

-- The last part of InsertConstraint.
unfoldable pub add_constraint : BinaryConstraint → Run ValueContainer (Unit {0})
add_constraint b = do k ← get_next_constraint_id; λ c. ok tt (with_constraint k b c)

unfoldable pub insert_constraint : BinaryConstraint → Run ValueContainer (Unit {0})
insert_constraint b = do
  invalidate_for_constant b
  λ c. delete_mutual b (get_constraint_id_vector c b.first) c
  add_constraint b
