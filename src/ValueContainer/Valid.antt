-- ===== src/ValueContainer/Valid.antt =====
-- The invariant that ties the constraints of a container to the index by values, and that
-- DeleteConstraint keeps it.
pub mod Constants
pub mod Insert
pub mod Loops
use angie.Common.{
  ℕ, suc, ◌<◌, ◌≡◌, refl, ◌≢◌, Bool, true, false, not, ◌&&◌, ◌||◌, Option, none, some, List, [],
  ◌∷◌, ◌==◌, inl, inr, Bool-cases, Option-cases, arith, if◌then◌else◌,
}
use angie.Common.Dict.{Dict, ℕ_key, find, assign, erase, find-assign, find-erase}
use angie.Common.Run.{Outcome, ok}
use angie.Values.{ValueId, ConstraintId}
use angie.ValueContainer.{BinaryConstraint, contains, ValueContainer, vector_at}
use angie.ValueContainer.Constraints.{remove, unlink, delete_found, delete_constraint}

unfoldable pub has : ConstraintId → List ConstraintId → Bool
has k [] = false
has k (j ∷ js) = (j == k) || has k js

-- No id stands twice.
abbrev pub IsDistinct : List ConstraintId → Type 0
IsDistinct [] = Unit {0}
IsDistinct (k ∷ ks) = (has k ks ≡ false) × IsDistinct ks

-- The constraint with the id is there and has the value for a side.
unfoldable pub refers : ValueContainer → ConstraintId → ValueId → Bool
unfolding contains
refers c k v = elim (find k c.constraints) [ none ↦ false | some b ↦ contains b v ]

-- The vector of each value lists, once each, exactly the constraints that have it for a side. No
-- constraint is of a value with itself, and each id is below the next one to give.
pub record IsValid (c : ValueContainer) : Type 0 where
  pub indexed :
      (k : ConstraintId) (v : ValueId) → has k (vector_at v c.constraint_ids) ≡ refers c k v
  pub distinct : (v : ValueId) → IsDistinct (vector_at v c.constraint_ids)
  pub sides :
      (k : ConstraintId) (b : BinaryConstraint)
      → find k c.constraints ≡ some b
      → (b.first == b.second) ≡ false
  pub below :
      (k : ConstraintId) (b : BinaryConstraint)
      → find k c.constraints ≡ some b
      → k < c.next_constraint_id

pub has-remove :
    (j k : ConstraintId) (ks : List ConstraintId)
    → has j (remove k ks) ≡ (if k == j then false else has j ks)
unfolding has remove
has-remove j k [] = ground arith
has-remove j k (i ∷ ks) = ground (arith, has-remove j k ks)

pub remove-IsDistinct :
    (k : ConstraintId) (ks : List ConstraintId) → IsDistinct ks → IsDistinct (remove k ks)
unfolding remove
remove-IsDistinct k [] h = tt
remove-IsDistinct k (i ∷ ks) h = elim (Bool-cases (i == k)) [
  | inl gone ↦ rw gone (remove-IsDistinct k ks h.1)
  | inr stays ↦ rw stays (ground (arith, has-remove i k ks, h.0), remove-IsDistinct k ks h.1)
]

pub vector-assign :
    (v w : ValueId) (ks : List ConstraintId) (m : Dict ValueId (List ConstraintId))
    → vector_at w (assign v ks m) ≡ (if v == w then ks else vector_at w m)
unfolding vector_at
vector-assign v w ks m = ground (arith, find-assign v w ks m)

if-IsDistinct :
    (t : Bool) (xs ys : List ConstraintId)
    → IsDistinct xs
    → IsDistinct ys
    → IsDistinct (if t then xs else ys)
if-IsDistinct true xs ys p q = p
if-IsDistinct false xs ys p q = q

-- A value that some constraint has for a side has an entry in the index.
entry-there :
    (k : ConstraintId) (v : ValueId) (m : Dict ValueId (List ConstraintId))
    → has k (vector_at v m) ≡ true
    → (ks : List ConstraintId) × (find v m ≡ some ks)
unfolding has vector_at
entry-there k v m h = ground arith

module _ (c : ValueContainer) (k : ConstraintId) (b : BinaryConstraint) where
  pub refers-unlink :
      (j : ConstraintId) (v : ValueId)
      → refers (unlink k b c) j v ≡ (if k == j then false else refers c j v)
  unfolding refers unlink
  refers-unlink j v = ground (arith, find-erase k j c.constraints)

  module _ (apart : (b.first == b.second) ≡ false) where
    pub vector-unlink :
        (v : ValueId)
        → vector_at v (unlink k b c).constraint_ids ≡ (
            if contains b v
            then remove k (vector_at v c.constraint_ids)
            else vector_at v c.constraint_ids)
    unfolding contains unlink
    vector-unlink v =
        let ids = assign b.first (remove k (vector_at b.first c.constraint_ids)) c.constraint_ids in
        ground (
          arith,
          vector-assign b.second v (remove k (vector_at b.second ids)) ids,
          vector-assign b.first v (remove k (vector_at b.first c.constraint_ids)) c.constraint_ids,
          vector-assign b.first b.second (remove k (vector_at b.first c.constraint_ids))
              c.constraint_ids,
        )

module _ {c : ValueContainer} (valid : IsValid c) (k : ConstraintId) (b : BinaryConstraint)
    (there : find k c.constraints ≡ some b) where
  pub refers-there : (v : ValueId) → refers c k v ≡ contains b v
  unfolding refers
  refers-there v = rw (there, refers)

  pub unlink-IsValid : IsValid (unlink k b c)
  unfolding refers unlink
  unlink-IsValid = record {
    indexed = λ j v. ground (
      arith,
      vector-unlink c k b (valid.sides k b there) v,
      refers-unlink c k b j v,
      valid.indexed j v,
      refers-there v,
      has-remove j k (vector_at v c.constraint_ids),
    );
    distinct = λ v. rw (vector-unlink c k b (valid.sides k b there) v) (
        if-IsDistinct (contains b v) _ _
          (remove-IsDistinct k (vector_at v c.constraint_ids) (valid.distinct v))
          (valid.distinct v));
    sides = λ j x found. ground (arith, valid.sides j x, find-erase k j c.constraints);
    below = λ j x found. ground (arith, valid.below j x, find-erase k j c.constraints);
  }

  -- On a valid container DeleteConstraint of a constraint that is there does not throw.
  pub delete_constraint-unlink : delete_constraint k c ≡ ok tt (unlink k b c)
  unfolding delete_constraint delete_found contains
  delete_constraint-unlink =
      let (ls, left) =
        entry-there k b.first c.constraint_ids
          (ground (arith, valid.indexed k b.first, refers-there b.first)) in
      let (rs, right) =
        entry-there k b.second c.constraint_ids
          (ground (arith, valid.indexed k b.second, refers-there b.second)) in
      ground arith
