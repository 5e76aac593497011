-- ===== src/ValueContainer/Model/Assume.antt =====
-- Cmp and Assume of src/ValueContainerV1.cpp against the invariant and the models of a container.
use angie.Common.{
  ℕ, ◌+◌, ◌<◌, ◌≤◌, ◌≡◌, refl, subst, Bool, true, false, none, some, List, [], ◌∷◌, ◌==◌, arith,
  inl, inr, ◌⊎◌, Bool-cases,
}
use angie.Common.Dict.{ℕ_key}
use angie.Common.Run.{Result, value, ok}
use angie.Common.Words.{modulus}
use angie.Values.{ValueId, ConstraintId, CmpFlags, eq, neq, gt, gt_eq, lt, lt_eq}
use angie.ValueContainer.{
  BinaryConstraint, contains, get_other, ValueContainer, is_constant, get_constraint_id_vector,
}
use angie.ValueContainer.Constraints.{constraint, constructor_body, binary_constraint}
use angie.ValueContainer.Compare.{Tribool, decide_related, first_answer, ask_related, is_cmp}
use angie.ValueContainer.Assume.{constrain, assume}
use angie.ValueContainer.Model.{cmp_words, IsModel}
use angie.ValueContainer.Model.Returns.{is_supported, is_cmp-Returns, listed}
use angie.ValueContainer.Valid.{has, refers, IsValid}
use angie.ValueContainer.Valid.Insert.{Inserted, insert_constraint-Inserted}

-- The members that the constructor compares are both 0, so it keeps the order of its arguments.
binary_constraint-constraint :
    (a b : ValueId) (r : CmpFlags) → binary_constraint a b r ≡ value (constraint a b r)
unfolding binary_constraint constructor_body
binary_constraint-constraint a b r = refl

Inserted-IsModel :
    {ρ : ValueId → ℕ} {width : ℕ} {b : BinaryConstraint} {c c' : ValueContainer}
    → Inserted b c c'
    → IsModel ρ width c
    → cmp_words width b.relation (ρ b.first) (ρ b.second) ≡ value (some true)
    → IsModel ρ width c'
Inserted-IsModel {ρ} {width} {b} {c} {c'} ins model holds = record {
  constants = λ id found. model.constants id (rw ins.constants at found);
  constraints = λ k {b = x} found. elim (Bool-cases (c.next_constraint_id == k)) [
    | inl new_one ↦
        let same : c.next_constraint_id ≡ k = ground arith in
        let is : x ≡ b = ground (arith, ins.present) in rw is holds
    | inr old ↦ model.constraints k (ins.older k x old found)
  ];
}

module _ {c : ValueContainer} (valid : IsValid c) {width : ℕ} (some_bits : 0 < width)
    (in_word : width ≤ 64) (room : c.next_constraint_id + 1 < modulus) (first second : ValueId)
    (apart : (first == second) ≡ false) (flags : CmpFlags)
    (supported : is_supported flags ≡ true) where
  abbrev IsAssumed : Type 0
  IsAssumed =
      ((is_cmp c first second width flags ≡ value (some true))
        × (assume first second width flags c ≡ ok tt c))
      ⊎ ((c' : ValueContainer) × (assume first second width flags c ≡ ok tt c')
          × Inserted (constraint first second flags) c c')

  answer-IsAssumed : (r : Tribool) → is_cmp c first second width flags ≡ value r → IsAssumed
  unfolding assume constrain
  answer-IsAssumed (some true) answer = inl (answer, rw answer refl)
  answer-IsAssumed (some false) answer =
      let (c', ran, ins) =
        insert_constraint-Inserted (constraint first second flags) apart c valid room in
      inr (c', rw (answer, binary_constraint-constraint first second flags) ran, ins)
  answer-IsAssumed none answer =
      let (c', ran, ins) =
        insert_constraint-Inserted (constraint first second flags) apart c valid room in
      inr (c', rw (answer, binary_constraint-constraint first second flags) ran, ins)

  assumed : IsAssumed
  assumed =
      let (r, answer) = is_cmp-Returns valid some_bits in_word first second flags supported in
      answer-IsAssumed r answer

  -- Assume of a comparison that IsCmp decides, between two different values, on a valid container
  -- whose counter of constraints does not wrap round, at a width from 1 to 64 bits: it ends without
  -- an exception, in a valid container with the same constants.
  pub assume-IsValid :
      (c' : ValueContainer) × (assume first second width flags c ≡ ok tt c')
      × IsValid c'
      × (c'.constants ≡ c.constants)
  assume-IsValid = elim assumed [
    | inl (_, ran) ↦ (c, ran, valid, refl)
    | inr (c', ran, ins) ↦ (c', ran, ins.valid, ins.constants)
  ]

  -- Under the same conditions Assume loses no case: words that satisfy the constants and the
  -- constraints before, and the assumed comparison, satisfy those after.
  pub assume-IsModel :
      {ρ : ValueId → ℕ} {c' : ValueContainer}
      → IsModel ρ width c
      → cmp_words width flags (ρ first) (ρ second) ≡ value (some true)
      → assume first second width flags c ≡ ok tt c'
      → IsModel ρ width c'
  assume-IsModel {ρ} {c'} model holds done = elim assumed [
    | inl (_, ran) ↦ let same : c ≡ c' = cc in subst (IsModel ρ width) same model
    | inr (c'', ran, ins) ↦
        let same : c'' ≡ c' = cc in subst (IsModel ρ width) same (Inserted-IsModel ins model holds)
  ]

pub first_answer-hit :
    (f : ConstraintId → Result Tribool) (n : ConstraintId) (ks : List ConstraintId)
    → has n ks ≡ true
    → f n ≡ value (some true)
    → ((k : ConstraintId) → has k ks ≡ true → (n == k) ≡ false → f k ≡ value none)
    → first_answer f ks ≡ value (some true)
unfolding first_answer has
first_answer-hit f n [] h hit other = ground arith
first_answer-hit f n (k ∷ ks) h hit other = elim (Bool-cases (n == k)) [
  | inl here ↦ let same : n ≡ k = ground arith in rw (← same, hit) refl
  | inr past ↦
      rw (other k (ground arith) past)
        (first_answer-hit f n ks (ground arith) hit (λ j listed. other j (ground arith)))
]

-- The comparisons that a constraint answers.
abbrev pub is_asked : CmpFlags → Bool
is_asked eq = true
is_asked neq = true
is_asked gt = true
is_asked gt_eq = true
is_asked lt = true
is_asked lt_eq = true
is_asked _ = false

asked-supported : (flags : CmpFlags) → is_asked flags ≡ true → is_supported flags ≡ true
unfolding is_supported
asked-supported eq h = refl
asked-supported neq h = refl
asked-supported gt h = refl
asked-supported gt_eq h = refl
asked-supported lt h = refl
asked-supported lt_eq h = refl
asked-supported _ h = ground arith

pub decide_related_self :
    (flags : CmpFlags) → is_asked flags ≡ true → decide_related flags flags ≡ some true
unfolding decide_related
decide_related_self eq h = refl
decide_related_self neq h = refl
decide_related_self gt h = refl
decide_related_self gt_eq h = refl
decide_related_self lt h = refl
decide_related_self lt_eq h = refl
decide_related_self _ h = ground arith

module _ {c c' : ValueContainer} {first second : ValueId} {flags : CmpFlags}
    (ins : Inserted (constraint first second flags) c c') where
  ask_inserted :
      is_asked flags ≡ true
      → ask_related c' flags first second c.next_constraint_id ≡ value (some true)
  unfolding ask_related get_other
  ask_inserted asked = ground (arith, ins.present, decide_related_self flags asked)

  ask_other :
      (k : ConstraintId)
      → has k (get_constraint_id_vector c' first) ≡ true
      → (c.next_constraint_id == k) ≡ false
      → ask_related c' flags first second k ≡ value none
  unfolding ask_related get_other refers contains
  ask_other k h other =
      let (b, y, found, sides) = listed ins.valid k first h in ground (arith, ins.only k)

  pub constant-same : (x : ValueId) → is_constant c' x ≡ is_constant c x
  unfolding is_constant
  constant-same x = rw ins.constants refl

  inserted_listed : has c.next_constraint_id (get_constraint_id_vector c' first) ≡ true
  unfolding get_constraint_id_vector refers contains
  inserted_listed = ground (arith, ins.valid.indexed c.next_constraint_id first, ins.present)

  is_cmp-Inserted :
      (width : ℕ)
      → is_asked flags ≡ true
      → is_constant c first ≡ false
      → is_constant c second ≡ false
      → is_cmp c' first second width flags ≡ value (some true)
  unfolding is_cmp
  is_cmp-Inserted width asked p q =
      rw (constant-same first, constant-same second, p, q)
        (first_answer-hit (ask_related c' flags first second) c.next_constraint_id
          (get_constraint_id_vector c' first) inserted_listed (ask_inserted asked) ask_other)

module _ {c : ValueContainer} (valid : IsValid c) {width : ℕ} (some_bits : 0 < width)
    (in_word : width ≤ 64) (room : c.next_constraint_id + 1 < modulus) (first second : ValueId)
    (apart : (first == second) ≡ false) where
  -- What Assume was told about two different values that are no constants, IsCmp answers to the
  -- same question afterwards, for the four signed orders and the two equalities, on a valid
  -- container at 1 to 64 bits, while the counter of constraints does not wrap round.
  pub is_cmp-assume :
      (flags : CmpFlags)
      → is_asked flags ≡ true
      → is_constant c first ≡ false
      → is_constant c second ≡ false
      → (c' : ValueContainer) × (assume first second width flags c ≡ ok tt c')
        × (is_cmp c' first second width flags ≡ value (some true))
  is_cmp-assume flags asked p q =
      elim (assumed valid some_bits in_word room first second apart flags
        (asked-supported flags asked)) [
          | inl (answer, ran) ↦ (c, ran, answer)
          | inr (c', ran, ins) ↦ (c', ran, is_cmp-Inserted ins width asked p q)
        ]
