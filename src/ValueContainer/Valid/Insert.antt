-- ===== src/ValueContainer/Valid/Insert.antt =====
-- InsertConstraint keeps the invariant, does not throw, and records the new constraint as the only
-- one between its two values.
use angie.Common.{
  ◌+◌, ◌<◌, ◌≡◌, refl, ◌∙◌, true, false, ◌&&◌, ◌||◌, some, List, [], ◌∷◌, ◌++◌, ◌==◌, inl, inr,
  Bool-cases, Option-cases, arith, if◌then◌else◌,
}
use angie.Common.Dict.{ℕ_key, find, assign, find-assign}
use angie.Common.Run.{ok}
use angie.Common.Words.{modulus}
use angie.Values.{ValueId, ConstraintId, next_id}
use angie.ValueContainer.{
  BinaryConstraint, contains, ValueContainer, vector_at, is_constant, get_constraint_id_vector,
  get_next_constraint_id,
}
use angie.ValueContainer.Constraints.{
  push_back, with_constraint, add_constraint, invalidate_for_constant, insert_constraint,
}
use angie.ValueContainer.Valid.{has, IsDistinct, refers, IsValid, vector-assign}
use angie.ValueContainer.Valid.Loops.{
  Prunes, Prunes-refl, Prunes-trans, invalidate_all-Prunes, delete_mutual-Prunes,
}

has-append :
    (j k : ConstraintId) (ks : List ConstraintId) → has j (ks ++ k ∷ []) ≡ (has j ks || (k == j))
unfolding has
has-append j k [] = ground arith
has-append j k (i ∷ ks) = ground (arith, has-append j k ks)

append-IsDistinct :
    (k : ConstraintId) (ks : List ConstraintId)
    → has k ks ≡ false
    → IsDistinct ks
    → IsDistinct (ks ++ k ∷ [])
unfolding has
append-IsDistinct k [] h d = (refl, tt)
append-IsDistinct k (i ∷ ks) h d =
    (ground (arith, has-append i k ks, d.0), append-IsDistinct k ks (ground arith) d.1)

-- The container with `b` under the next id.
unfoldable pub added : BinaryConstraint → ValueContainer → ValueContainer
unfolding next_id
added b c =
    with_constraint c.next_constraint_id b
      (record c { next_constraint_id = next_id c.next_constraint_id })

constants-added : (b : BinaryConstraint) (c : ValueContainer) → (added b c).constants ≡ c.constants
unfolding added with_constraint
constants-added b c = refl

zero_id-added : (b : BinaryConstraint) (c : ValueContainer) → (added b c).zero_id ≡ c.zero_id
unfolding added with_constraint
zero_id-added b c = refl

module _ (b : BinaryConstraint) (apart : (b.first == b.second) ≡ false) (c : ValueContainer) where
  vector-added :
      (v : ValueId)
      → vector_at v (added b c).constraint_ids ≡ (
          if contains b v
          then vector_at v c.constraint_ids ++ c.next_constraint_id ∷ []
          else vector_at v c.constraint_ids)
  unfolding added with_constraint push_back contains
  vector-added v =
      let k = c.next_constraint_id in
      let ks = vector_at b.first c.constraint_ids ++ k ∷ [] in
      let ids = assign b.first ks c.constraint_ids in
      ground (
        arith,
        vector-assign b.second v (vector_at b.second ids ++ k ∷ []) ids,
        vector-assign b.first v ks c.constraint_ids,
        vector-assign b.first b.second ks c.constraint_ids,
      )

  pub find-added :
      (j : ConstraintId)
      → find j (added b c).constraints
        ≡ (if c.next_constraint_id == j then some b else find j c.constraints)
  unfolding added with_constraint
  find-added j = find-assign c.next_constraint_id j b c.constraints

  pub refers-added :
      (j : ConstraintId) (v : ValueId)
      → refers (added b c) j v ≡ (if c.next_constraint_id == j then contains b v else refers c j v)
  unfolding refers
  refers-added j v = ground (arith, find-added j)

  module _ (valid : IsValid c) (room : c.next_constraint_id + 1 < modulus) where
    unused : (v : ValueId) → refers c c.next_constraint_id v ≡ false
    unfolding refers
    unused v = elim (Option-cases (find c.next_constraint_id c.constraints)) [
      | inl missing ↦ rw (missing, refers)
      | inr (x, there) ↦ absurd (omega (arith, valid.below c.next_constraint_id x there))
    ]

    next-added : (added b c).next_constraint_id ≡ c.next_constraint_id + 1
    unfolding added with_constraint next_id
    next-added = omega arith

    IsDistinct-added : (v : ValueId) → IsDistinct (vector_at v (added b c).constraint_ids)
    IsDistinct-added v = elim (Bool-cases (contains b v)) [
      | inl side ↦
          rw (vector-added v, side)
            (append-IsDistinct c.next_constraint_id (vector_at v c.constraint_ids)
              (ground (arith, valid.indexed c.next_constraint_id v, unused v)) (valid.distinct v))
      | inr other ↦ rw (vector-added v, other) (valid.distinct v)
    ]

    pub added-IsValid : IsValid (added b c)
    added-IsValid = record {
      indexed = λ j v. ground (
        arith,
        vector-added v,
        refers-added j v,
        valid.indexed j v,
        unused v,
        has-append j c.next_constraint_id (vector_at v c.constraint_ids),
      );
      distinct = IsDistinct-added;
      sides = λ j x found. ground (arith, valid.sides j x, find-added j);
      below = λ j x found. ground (arith, valid.below j x, find-added j, next-added);
    }

-- `c'` is `c` less some constraints and with `b`, under the next id, as the only constraint
-- between the two values of `b`.
pub record Inserted (b : BinaryConstraint) (c c' : ValueContainer) : Type 0 where
  pub valid : IsValid c'
  pub constants : c'.constants ≡ c.constants
  pub zero_id : c'.zero_id ≡ c.zero_id
  pub next_constraint_id : c'.next_constraint_id ≡ c.next_constraint_id + 1
  pub present : find c.next_constraint_id c'.constraints ≡ some b
  pub older :
      (k : ConstraintId) (x : BinaryConstraint)
      → (c.next_constraint_id == k) ≡ false
      → find k c'.constraints ≡ some x
      → find k c.constraints ≡ some x
  pub only :
      (k : ConstraintId)
      → (c.next_constraint_id == k) ≡ false
      → (refers c' k b.first && refers c' k b.second) ≡ false

add_constraint-added :
    (b : BinaryConstraint) (e : ValueContainer) → add_constraint b e ≡ ok tt (added b e)
unfolding add_constraint get_next_constraint_id added
add_constraint-added b e = refl

refers-fewer :
    (d e : ValueContainer) (j : ConstraintId) (v : ValueId)
    → Prunes d e
    → refers e j v ≡ true
    → refers d j v ≡ true
unfolding refers
refers-fewer d e j v prunes h = elim (Option-cases (find j e.constraints)) [
  | inl missing ↦ absurd (ground arith)
  | inr (x, there) ↦ ground (arith, prunes.fewer j x there)
]

separated :
    (b : BinaryConstraint) (d e : ValueContainer)
    → IsValid d
    → Prunes d e
    → ((j : ConstraintId)
        → has j (get_constraint_id_vector d b.first) ≡ true
        → refers e j b.second ≡ false)
    → (j : ConstraintId) → refers e j b.first ≡ true
    → refers e j b.second ≡ false
unfolding get_constraint_id_vector
separated b d e valid prunes apart_all j h =
    apart_all j (ground (arith, valid.indexed j b.first, refers-fewer d e j b.first prunes h))

Inserted-added :
    (b : BinaryConstraint) (apart : (b.first == b.second) ≡ false) (c e : ValueContainer)
    → c.next_constraint_id + 1 < modulus
    → Prunes c e
    → ((j : ConstraintId) → refers e j b.first ≡ true → refers e j b.second ≡ false)
    → Inserted b c (added b e)
Inserted-added b apart c e room both apart_all =
    let room' : e.next_constraint_id + 1 < modulus = rw both.next_constraint_id room in
    record {
      valid = added-IsValid b apart e both.valid room';
      constants = constants-added b e ∙ both.constants;
      zero_id = zero_id-added b e ∙ both.zero_id;
      next_constraint_id =
          omega (arith, next-added b apart e both.valid room', both.next_constraint_id);
      present = ground (arith, find-added b apart e c.next_constraint_id, both.next_constraint_id);
      older = λ k x other found.
          both.fewer k x (ground (arith, find-added b apart e k, both.next_constraint_id));
      only = λ k other. ground (
        arith,
        refers-added b apart e k b.first,
        refers-added b apart e k b.second,
        both.next_constraint_id,
        apart_all k,
      );
    }

module _ (b : BinaryConstraint) (apart : (b.first == b.second) ≡ false) (c : ValueContainer)
    (valid : IsValid c) where
  invalidate_for_constant-Prunes :
      (c' : ValueContainer) × (invalidate_for_constant b c ≡ ok tt c') × Prunes c c'
  unfolding invalidate_for_constant
  invalidate_for_constant-Prunes =
      let (d, ran, prunes, _) = invalidate_all-Prunes b.relation b.second c valid in
      let (e, ran', prunes', _) = invalidate_all-Prunes b.relation b.first c valid in
      elim (Bool-cases (is_constant c b.first)) [
        | inl first ↦ (d, rw (first, invalidate_for_constant) ran, prunes)
        | inr first' ↦ elim (Bool-cases (is_constant c b.second)) [
          | inl second ↦ (e, rw (first', invalidate_for_constant, second) ran', prunes')
          | inr none_is ↦ (c, rw (first', invalidate_for_constant, none_is) refl, Prunes-refl valid)
        ]
      ]

  module _ (room : c.next_constraint_id + 1 < modulus) where
    -- InsertConstraint of a constraint between two different values, on a valid container whose
    -- counter of constraints does not wrap round, ends without an exception in a valid container
    -- with the same constants, in which the constraint is recorded and no other one relates the
    -- two values.
    pub insert_constraint-Inserted :
        (c' : ValueContainer) × (insert_constraint b c ≡ ok tt c') × Inserted b c c'
    unfolding insert_constraint
    insert_constraint-Inserted =
        let (d, ran, first) = invalidate_for_constant-Prunes in
        let (e, ran', second, apart_all) = delete_mutual-Prunes b apart d first.valid in
        (
          added b e,
          rw (ran, ran') (add_constraint-added b e),
          Inserted-added b apart c e room (Prunes-trans first second)
              (separated b d e first.valid second apart_all),
        )
