-- ===== src/ValueContainer/Valid/Loops.antt =====
-- The two loops of InsertConstraint: on a valid container they do not throw, and they only take
-- constraints away.
use angie.Common.{
  ◌≡◌, refl, ◌∙◌, subst, ==_iff, true, false, none, some, List, [], ◌∷◌, ◌==◌, inl, inr, Bool-cases,
  Option-cases, arith,
}
use angie.Common.Dict.{ℕ_key, find, find-erase}
use angie.Common.Run.{Run, ok, value, and_then}
use angie.Values.{ValueId, ConstraintId, CmpFlags}
use angie.ValueContainer.{
  BinaryConstraint, contains, get_other, ValueContainer, vector_at, get_constraint_id_vector,
}
use angie.ValueContainer.Constraints.{
  unlink, is_equality, invalidate_one, invalidate_all, delete_mutual_one, delete_mutual,
}
use angie.ValueContainer.Valid.{
  has, IsDistinct, refers, IsValid, refers-there, refers-unlink, unlink-IsValid,
  delete_constraint-unlink,
}

-- `c'` is valid, and `c` less some constraints.
pub record Prunes (c c' : ValueContainer) : Type 0 where
  pub valid : IsValid c'
  pub constants : c'.constants ≡ c.constants
  pub zero_id : c'.zero_id ≡ c.zero_id
  pub next_value_id : c'.next_value_id ≡ c.next_value_id
  pub next_constraint_id : c'.next_constraint_id ≡ c.next_constraint_id
  pub fewer :
      (k : ConstraintId) (b : BinaryConstraint)
      → find k c'.constraints ≡ some b
      → find k c.constraints ≡ some b

pub Prunes-refl : {c : ValueContainer} → IsValid c → Prunes c c
Prunes-refl valid = record {
  valid = valid;
  constants = refl;
  zero_id = refl;
  next_value_id = refl;
  next_constraint_id = refl;
  fewer = λ k b h. h;
}

pub Prunes-trans : {c d e : ValueContainer} → Prunes c d → Prunes d e → Prunes c e
Prunes-trans p q = record {
  valid = q.valid;
  constants = q.constants ∙ p.constants;
  zero_id = q.zero_id ∙ p.zero_id;
  next_value_id = q.next_value_id ∙ p.next_value_id;
  next_constraint_id = q.next_constraint_id ∙ p.next_constraint_id;
  fewer = λ k b h. p.fewer k b (q.fewer k b h);
}

-- One round: only the constraint `k` may go.
pub record Round (k : ConstraintId) (c c' : ValueContainer) : Type 0 where
  pub prunes : Prunes c c'
  pub others : (j : ConstraintId) → (k == j) ≡ false → find j c'.constraints ≡ find j c.constraints

Round-refl : (k : ConstraintId) {c : ValueContainer} → IsValid c → Round k c c
Round-refl k valid = record { prunes = Prunes-refl valid; others = λ j h. refl }

unlink-Round :
    {c : ValueContainer} (k : ConstraintId) (b : BinaryConstraint)
    → IsValid c
    → find k c.constraints ≡ some b
    → Round k c (unlink k b c)
unfolding unlink
unlink-Round {c} k b valid there = record {
  prunes = record {
    valid = unlink-IsValid valid k b there;
    constants = refl;
    zero_id = refl;
    next_value_id = refl;
    next_constraint_id = refl;
    fewer = λ j x h. ground (arith, find-erase k j c.constraints);
  };
  others = λ j h. ground (arith, find-erase k j c.constraints);
}

refers-others :
    {c c' : ValueContainer} {k : ConstraintId} (j : ConstraintId) (v : ValueId)
    → Round k c c'
    → (k == j) ≡ false
    → refers c' j v ≡ refers c j v
unfolding refers
refers-others j v round h = rw (round.others j h, refers)

-- A loop over ids of constraints of `v`, each round of which brings about `Done` for its id.
module _ (op : ConstraintId → Run ValueContainer (Unit {0}))
    (loop : List ConstraintId → Run ValueContainer (Unit {0}))
    (at_nil : (c : ValueContainer) → loop [] c ≡ ok tt c)
    (at_cons : (k : ConstraintId) (ks : List ConstraintId) (c : ValueContainer)
      → loop (k ∷ ks) c ≡ and_then (op k c) (λ _. loop ks))
    (v : ValueId) (Done : ValueContainer → ConstraintId → Type 0)
    (keeps : (c c' : ValueContainer) (k : ConstraintId) → Prunes c c' → Done c k → Done c' k)
    (round : (k : ConstraintId) (c : ValueContainer)
      → IsValid c
      → refers c k v ≡ true
      → (c' : ValueContainer) × (op k c ≡ ok tt c') × Round k c c' × Done c' k) where
  pub loop-Prunes :
      (ks : List ConstraintId) (c : ValueContainer)
      → IsValid c
      → IsDistinct ks
      → ((j : ConstraintId) → has j ks ≡ true → refers c j v ≡ true)
      → (c' : ValueContainer) × (loop ks c ≡ ok tt c')
        × Prunes c c'
        × ((j : ConstraintId) → has j ks ≡ true → Done c' j)
  unfolding has
  loop-Prunes [] c valid distinct here = (c, at_nil c, Prunes-refl valid, λ j h. absurd (cc))
  loop-Prunes (k ∷ ks) c valid distinct here =
      let (d, ran, one, done) = round k c valid (here k (ground arith)) in
      let (e, rest, more, all) =
        loop-Prunes ks d one.prunes.valid distinct.1 (λ j h.
          rw (refers-others j v one (ground (arith, distinct.0))) (here j (ground arith))) in
      (
        e,
        rw (at_cons k ks c, ran) rest,
        Prunes-trans one.prunes more,
        λ j h. elim (Bool-cases (k == j)) [
          | inl first ↦ subst (Done e) ((==_iff k j).0 first) (keeps d e k more done)
          | inr later ↦ all j (ground arith)
        ],
      )

refers-found :
    (c : ValueContainer) (k : ConstraintId) (v : ValueId)
    → refers c k v ≡ true
    → (b : BinaryConstraint) × (find k c.constraints ≡ some b)
unfolding refers
refers-found c k v h = ground arith

here-contains :
    (c : ValueContainer) (k : ConstraintId) (v : ValueId) (b : BinaryConstraint)
    → refers c k v ≡ true
    → find k c.constraints ≡ some b
    → contains b v ≡ true
unfolding refers
here-contains c k v b h there = ground arith

find-unlink :
    (k : ConstraintId) (b : BinaryConstraint) (c : ValueContainer)
    → find k (unlink k b c).constraints ≡ none
unfolding unlink
find-unlink k b c = ground (arith, find-erase k k c.constraints)

-- The other side of a constraint `x` that has the first value of `b`, and when it is no side that
-- `x` has the second value of `b`.
get_other-found :
    (b x : BinaryConstraint)
    → (b.first == b.second) ≡ false
    → contains x b.first ≡ true
    → (x.first == x.second) ≡ false
    → (other : ValueId) × (get_other x b.first ≡ value other)
      × ((b.second == other) ≡ false → contains x b.second ≡ false)
unfolding contains get_other
get_other-found b x apart side sides = elim (Bool-cases (b.first == x.first)) [
  | inl first ↦ (x.second, ground arith, ground arith)
  | inr second ↦ (x.first, ground arith, ground arith)
]

module _ (relation : CmpFlags) where
  -- What a round does for an equality with a constant: the old constraint is gone.
  abbrev Invalidated : ValueContainer → ConstraintId → Type 0
  Invalidated c k = is_equality relation ≡ true → find k c.constraints ≡ none

  Invalidated-keeps :
      (c c' : ValueContainer) (k : ConstraintId) → Prunes c c' → Invalidated c k → Invalidated c' k
  Invalidated-keeps c c' k prunes gone e = elim (Option-cases (find k c'.constraints)) [
    | inl missing ↦ missing
    | inr (b, there) ↦ absurd (ground (arith, prunes.fewer k b there, gone e))
  ]

  invalidate-Round :
      (v : ValueId) (k : ConstraintId) (c : ValueContainer)
      → IsValid c
      → refers c k v ≡ true
      → (c' : ValueContainer) × (invalidate_one relation k c ≡ ok tt c')
        × Round k c c'
        × Invalidated c' k
  unfolding invalidate_one
  invalidate-Round v k c valid here =
      let (b, there) = refers-found c k v here in
      elim (Bool-cases (is_equality relation)) [
        | inl equality ↦ (
          unlink k b c,
          ground (arith, delete_constraint-unlink valid k b there),
          unlink-Round k b valid there,
          λ e. find-unlink k b c,
        )
        | inr other ↦ (c, ground arith, Round-refl k valid, λ e. absurd (cc))
      ]

  pub invalidate_all-Prunes :
      (v : ValueId) (c : ValueContainer)
      → IsValid c
      → (c' : ValueContainer) × (invalidate_all relation (get_constraint_id_vector c v) c
          ≡ ok tt c')
        × Prunes c c'
        × ((j : ConstraintId) → has j (get_constraint_id_vector c v) ≡ true → Invalidated c' j)
  unfolding invalidate_all get_constraint_id_vector
  invalidate_all-Prunes v c valid =
      loop-Prunes (invalidate_one relation) (invalidate_all relation) (λ d. refl) (λ k ks d. refl) v
        Invalidated Invalidated-keeps (invalidate-Round v) (vector_at v c.constraint_ids) c valid
        (valid.distinct v) (λ j h. ground (arith, valid.indexed j v))

module _ (b : BinaryConstraint) (apart : (b.first == b.second) ≡ false) where
  -- What a round does for the new constraint: the old one is not between its two values.
  abbrev Separated : ValueContainer → ConstraintId → Type 0
  Separated c k = refers c k b.second ≡ false

  Separated-keeps :
      (c c' : ValueContainer) (k : ConstraintId) → Prunes c c' → Separated c k → Separated c' k
  unfolding refers
  Separated-keeps c c' k prunes gone = elim (Option-cases (find k c'.constraints)) [
    | inl missing ↦ rw (missing, refers)
    | inr (x, there) ↦ rw (there, refers) (ground (arith, prunes.fewer k x there))
  ]

  mutual-Round :
      (k : ConstraintId) (c : ValueContainer)
      → IsValid c
      → refers c k b.first ≡ true
      → (c' : ValueContainer) × (delete_mutual_one b k c ≡ ok tt c') × Round k c c' × Separated c' k
  unfolding delete_mutual_one
  mutual-Round k c valid here =
      let (x, there) = refers-found c k b.first here in
      let side = here-contains c k b.first x here there in
      let (other, got, far) = get_other-found b x apart side (valid.sides k x there) in
      elim (Bool-cases (b.second == other)) [
        | inl mutual_one ↦ (
          unlink k x c,
          ground (arith, delete_constraint-unlink valid k x there),
          unlink-Round k x valid there,
          ground (arith, refers-unlink c k x k b.second),
        )
        | inr free ↦ (
          c,
          ground arith,
          Round-refl k valid,
          ground (arith, far, refers-there valid k x there b.second),
        )
      ]

  pub delete_mutual-Prunes :
      (c : ValueContainer)
      → IsValid c
      → (c' : ValueContainer) × (delete_mutual b (get_constraint_id_vector c b.first) c ≡ ok tt c')
        × Prunes c c'
        × ((j : ConstraintId) → has j (get_constraint_id_vector c b.first) ≡ true → Separated c' j)
  unfolding delete_mutual get_constraint_id_vector
  delete_mutual-Prunes c valid =
      loop-Prunes (delete_mutual_one b) (delete_mutual b) (λ d. refl) (λ k ks d. refl) b.first
        Separated Separated-keeps mutual-Round (vector_at b.first c.constraint_ids) c valid
        (valid.distinct b.first) (λ j h. ground (arith, valid.indexed j b.first))
