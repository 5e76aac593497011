-- ===== src/ValueContainer/Model/Queries.antt =====
-- IsCmp for equality: each definite answer holds in every model.
use angie.Common.{
  ℕ, ◌≡◌, refl, inl, inr, Bool, true, false, not, ◌&&◌, Option, none, some, List, [], ◌∷◌, ◌==◌,
  arith, Bool-cases, if◌then◌else◌,
}
use angie.Common.Dict.{ℕ_key, find}
use angie.Common.Run.{
  Exception, Result, value, error, runtime_error, out_of_range, then_value, or_throw,
}
use angie.Values.{ValueId, ConstraintId, CmpFlags, eq, neq}
use angie.ValueContainer.{
  BinaryConstraint, get_other, ValueContainer, is_constant, get_constant_int_inner_val,
  get_constraint_id_vector, rip_bits, sign_extend64,
}
use angie.ValueContainer.Compare.{
  Tribool, compare_constants, decide_constant, decide_related, first_answer, ask_constant,
  ask_related, cmp_constants, cmp_with_constant, is_cmp,
}
use angie.ValueContainer.Model.{
  agree, IsModel, agree_comm, agree_trans, agreement, agree-constraint,
}

-- The answer `r` to the query `flags` is right for words that agree as `same` says.
unfoldable pub IsRight : CmpFlags → (same r : Bool) → Type 0
IsRight eq same r = same ≡ r
IsRight neq same r = not same ≡ r
IsRight _ same r = Unit {0}

answer-IsRight :
    (P : Bool → Type 0) (m : Result Tribool) (rest : Result Tribool)
    → ((r : Bool) → m ≡ value (some r) → P r)
    → ((r : Bool) → rest ≡ value (some r) → P r)
    → {r : Bool}
    → then_value m (λ t. elim t [ none ↦ rest | some b ↦ value (some b) ]) ≡ value (some r)
    → P r
answer-IsRight P (error e) rest now later h = cc
answer-IsRight P (value none) rest now later {r} h = later r h
answer-IsRight P (value (some b)) rest now later {r} h = now r h

first_answer-IsRight :
    (P : Bool → Type 0) (f : ConstraintId → Result Tribool)
    → ((k : ConstraintId) (r : Bool) → f k ≡ value (some r) → P r)
    → (ks : List ConstraintId) (r : Bool) → first_answer f ks ≡ value (some r)
    → P r
unfolding first_answer
first_answer-IsRight P f sound [] r h = cc
first_answer-IsRight P f sound (k ∷ ks) r h =
    answer-IsRight P (f k) (first_answer f ks) (sound k) (first_answer-IsRight P f sound ks) h

-- What the two switches conclude follows from the agreement that the relation gives.
decide_related-agreement :
    (flags relation : CmpFlags) (same : Bool) {r : Bool}
    → ((s : Bool) → agreement relation ≡ some s → same ≡ s)
    → decide_related flags relation ≡ some r
    → IsRight flags same r
unfolding decide_related agreement IsRight
decide_related-agreement eq relation same says h = ground (arith, says true, says false)
decide_related-agreement neq relation same says h = ground (arith, says true, says false)
decide_related-agreement _ relation same says h = tt

decide_constant-agreement :
    (flags relation : CmpFlags) (same other : Bool) {r : Bool}
    → ((s : Bool) → agreement relation ≡ some s → other ≡ true → same ≡ s)
    → (agreement relation ≡ some true → same ≡ other)
    → decide_constant flags relation other ≡ some r
    → IsRight flags same r
unfolding decide_constant agreement IsRight
decide_constant-agreement eq relation same other says eqs h = ground (arith, says true, says false)
decide_constant-agreement neq relation same other says eqs h = ground (arith, says true, says false)
decide_constant-agreement _ relation same other says eqs h = tt

or_throw-eq :
    {A : Type 0} (e : Exception) (m : Option A) {a : A} → or_throw e m ≡ value a → m ≡ some a
or_throw-eq e none h = cc
or_throw-eq e (some b) h = ground arith

-- Inversion of a chain that yields a value.
then_value-eq :
    {A B : Type 0} (m : Result A) (k : A → Result B) {b : B}
    → then_value m k ≡ value b
    → (a : A) × (m ≡ value a) × (k a ≡ value b)
then_value-eq (value a) k h = (a, refl, h)
then_value-eq (error e) k h = cc

-- The four cases of IsCmp.
by_constants :
    (P : Bool → Type 0) (r : Bool) (f s : Bool) {m₁ m₂ m₃ m₄ : Result Tribool}
    → (m₁ ≡ value (some r) → P r)
    → (m₂ ≡ value (some r) → P r)
    → (m₃ ≡ value (some r) → P r)
    → (m₄ ≡ value (some r) → P r)
    → (if f && s then m₁ else if s then m₂ else if f then m₃ else m₄) ≡ value (some r)
    → P r
by_constants P r true true a b c d h = a h
by_constants P r true false a b c d h = c h
by_constants P r false true a b c d h = b h
by_constants P r false false a b c d h = d h

value-none : {r : Bool} → ◌≡◌ {A = Result Tribool} (value none) (value (some r)) → ⊥
value-none h = cc

module _ {ρ : ValueId → ℕ} {width : ℕ} {c : ValueContainer} (model : IsModel ρ width c) where
  ask_related-IsRight :
      (flags : CmpFlags) (first second : ValueId) (k : ConstraintId) (r : Bool)
      → ask_related c flags first second k ≡ value (some r)
      → IsRight flags (agree width (ρ first) (ρ second)) r
  unfolding ask_related
  ask_related-IsRight flags first second k r h =
      let (b, found, h') = then_value-eq (or_throw runtime_error (find k c.constraints)) _ h in
      let there = or_throw-eq runtime_error (find k c.constraints) found in
      let (other, sides, h'') = then_value-eq (get_other b first) _ h' in
      decide_related-agreement flags b.relation (agree width (ρ first) (ρ second))
        (λ s says. agree-constraint model k b first second there (ground arith) says) (ground arith)

  raw-model : (id : ValueId) {v : ℕ} → get_constant_int_inner_val c id ≡ value v → ρ id ≡ v
  unfolding get_constant_int_inner_val
  raw-model id h = model.constants id (or_throw-eq out_of_range (find id c.constants) h)

  -- A constraint of `second` with a constant `other`, against the constant `first`.
  constant_answer-IsRight :
      (flags : CmpFlags) (first second other : ValueId) (k : ConstraintId) (b : BinaryConstraint)
      (r : Bool)
      → find k c.constraints ≡ some b
      → get_other b second ≡ value other
      → decide_constant flags b.relation (agree width (ρ first) (ρ other)) ≡ some r
      → IsRight flags (agree width (ρ second) (ρ first)) r
  constant_answer-IsRight flags first second other k b r there sides =
      decide_constant-agreement flags b.relation (agree width (ρ second) (ρ first))
        (agree width (ρ first) (ρ other))
        (λ s says same. ground (
          arith,
          agree-constraint model k b second other there sides says,
          agree_comm width (ρ second) (ρ first),
          agree_comm width (ρ second) (ρ other),
          agree_trans width (ρ first) (ρ other) (ρ second) same,
        ))
        (λ says. ground (
          arith,
          agree_trans width (ρ second) (ρ other) (ρ first)
              (agree-constraint model k b second other there sides says),
          agree_comm width (ρ first) (ρ other),
        ))

  constant_step-IsRight :
      (flags : CmpFlags) (first second other : ValueId) (k : ConstraintId) (b : BinaryConstraint)
      (r : Bool)
      → find k c.constraints ≡ some b
      → get_other b second ≡ value other
      → then_value (get_constant_int_inner_val c other) (λ raw.
        then_value (sign_extend64 width raw) (λ _.
          value
            (decide_constant flags b.relation (rip_bits width (ρ first) == rip_bits width raw))))
        ≡ value (some r)
      → IsRight flags (agree width (ρ second) (ρ first)) r
  unfolding agree
  constant_step-IsRight flags first second other k b r there sides h =
      let (raw, got, h') = then_value-eq (get_constant_int_inner_val c other) _ h in
      let (_, _, h'') = then_value-eq (sign_extend64 width raw) _ h' in
      constant_answer-IsRight flags first second other k b r there sides
        (ground (arith, raw-model other got))

  ask_constant-IsRight :
      (flags : CmpFlags) (first second : ValueId) (k : ConstraintId) (r : Bool)
      → ask_constant c width (rip_bits width (ρ first)) flags second k ≡ value (some r)
      → IsRight flags (agree width (ρ second) (ρ first)) r
  unfolding ask_constant
  ask_constant-IsRight flags first second k r h =
      let (b, found, h') = then_value-eq (or_throw out_of_range (find k c.constraints)) _ h in
      let (other, sides, h'') = then_value-eq (get_other b second) _ h' in
      elim (Bool-cases (is_constant c other)) [
        | inl constant ↦
            constant_step-IsRight flags first second other k b r
              (or_throw-eq out_of_range (find k c.constraints) found) sides (rw constant at h'')
        | inr unknown ↦ absurd (value-none (rw unknown at h''))
      ]

  compare_constants-IsRight :
      (flags : CmpFlags) (v1 v2 u1 u2 : ℕ) (r : Bool)
      → compare_constants flags v1 v2 u1 u2 ≡ value (some r)
      → IsRight flags (u1 == u2) r
  unfolding compare_constants IsRight
  compare_constants-IsRight eq v1 v2 u1 u2 r h = ground arith
  compare_constants-IsRight neq v1 v2 u1 u2 r h = ground arith
  compare_constants-IsRight _ v1 v2 u1 u2 r h = tt

  cmp_constants-IsRight :
      (flags : CmpFlags) (first second : ValueId) (r : Bool)
      → cmp_constants c first second width flags ≡ value (some r)
      → IsRight flags (agree width (ρ first) (ρ second)) r
  unfolding cmp_constants agree
  cmp_constants-IsRight flags first second r h =
      let (raw1, got1, h1) = then_value-eq (get_constant_int_inner_val c first) _ h in
      let (raw2, got2, h2) = then_value-eq (get_constant_int_inner_val c second) _ h1 in
      let (v1, _, h3) = then_value-eq (sign_extend64 width raw1) _ h2 in
      let (v2, _, h4) = then_value-eq (sign_extend64 width raw2) _ h3 in
      rw (raw-model first got1, raw-model second got2)
        (compare_constants-IsRight flags v1 v2 (rip_bits width raw1) (rip_bits width raw2) r h4)

  cmp_with_constant-IsRight :
      (flags : CmpFlags) (first second : ValueId) (r : Bool)
      → cmp_with_constant c first second width flags ≡ value (some r)
      → IsRight flags (agree width (ρ second) (ρ first)) r
  unfolding cmp_with_constant
  cmp_with_constant-IsRight flags first second r h =
      let (raw, got, h') = then_value-eq (get_constant_int_inner_val c first) _ h in
      let (_, _, h'') = then_value-eq (sign_extend64 width raw) _ h' in
      first_answer-IsRight (IsRight flags (agree width (ρ second) (ρ first)))
        (ask_constant c width (rip_bits width (ρ first)) flags second)
        (ask_constant-IsRight flags first second) (get_constraint_id_vector c second) r
        (rw (raw-model first got) h'')

  -- A definite answer of IsCmp to `first == second` or `first != second` is right in every model
  -- of the container: the words that the model gives to the two values agree in the lowest
  -- `width` bits exactly as the answer says.
  pub is_cmp-IsRight :
      (flags : CmpFlags) (first second : ValueId) (r : Bool)
      → is_cmp c first second width flags ≡ value (some r)
      → IsRight flags (agree width (ρ first) (ρ second)) r
  unfolding is_cmp
  is_cmp-IsRight flags first second r =
      by_constants (IsRight flags (agree width (ρ first) (ρ second))) r (is_constant c first)
        (is_constant c second) (cmp_constants-IsRight flags first second r)
        (cmp_with_constant-IsRight flags second first r)
        (λ h.
          rw (agree_comm width (ρ first) (ρ second))
            (cmp_with_constant-IsRight flags first second r h))
        (first_answer-IsRight (IsRight flags (agree width (ρ first) (ρ second)))
          (ask_related c flags first second) (ask_related-IsRight flags first second)
          (get_constraint_id_vector c first) r)
