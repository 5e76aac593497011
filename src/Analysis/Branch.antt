-- ===== src/Analysis/Branch.antt =====
-- The operation of a conditional branch: BasicOperationBranch of src/Operation.hpp.
use angie.Common.{◌≡◌, refl, Bool, true, false, not, some, none, if◌then◌else◌, arith, ℕ}
use angie.Common.Run.{Run, Outcome, ok, raise, throw, read, branch_exception, ◌>>=◌, value}
use angie.Mapper.{Mapper}
use angie.Values.{ValueId, FrontendId, eq, neq, CmpFlags}
use angie.ValueContainer.{ValueContainer}
use angie.ValueContainer.Compare.{Tribool, is_true, is_cmp, is_true_value, is_false_value}
use angie.ValueContainer.Assume.{assume_true, assume_false}
use angie.ValueContainer.Model.{agree, IsModel}
use angie.ValueContainer.Model.Returns.{is_supported, is_cmp-Returns}
use angie.ValueContainer.Model.Queries.{IsRight, is_cmp-IsRight}
use angie.ValueContainer.Valid.{IsValid}
use angie.Analysis.{State, get_value}

-- What the branch asks and assumes of the condition, a value of one bit.
unfoldable pub branch_on_value : (br : Bool) → ValueId → Run ValueContainer (Unit {0})
unfolding is_true_value is_false_value assume_true assume_false
branch_on_value true lhs = do
  known ← read (λ c. is_false_value c lhs 1)
  if is_true known then throw branch_exception else assume_true lhs
branch_on_value false lhs = do
  known ← read (λ c. is_true_value c lhs 1)
  if is_true known then throw branch_exception else assume_false lhs

abbrev pub with_vc :
    {X : Type 0} (set_vc : ValueContainer → X → X)
    → State X
    → Outcome ValueContainer (Unit {0})
    → Outcome (State X) (Unit {0})
with_vc set_vc s (ok a c) = ok a (record s { extra = set_vc c s.extra })
with_vc set_vc s (raise e c) = raise e (record s { extra = set_vc c s.extra })

-- ExecuteOnNewState, given where an analysis keeps its container.
unfoldable pub execute_branch :
    {X : Type 0} (vc : X → ValueContainer) (set_vc : ValueContainer → X → X)
    (global_mapping : Mapper) (operand : FrontendId) (br : Bool)
    → Run (State X) (Unit {0})
unfolding get_value branch_on_value
execute_branch vc set_vc global_mapping operand br = do
  lhs ← read (λ s. get_value global_mapping s operand)
  λ s. with_vc set_vc s (branch_on_value br lhs (vc s.extra))

module _ {c : ValueContainer} (valid : IsValid c) {ρ : ValueId → ℕ} (model : IsModel ρ 1 c)
    (lhs : ValueId) where
  uncut :
      (flags : CmpFlags) (r : Tribool)
      → is_cmp c lhs c.zero_id 1 flags ≡ value r
      → (IsRight flags (agree 1 (ρ lhs) (ρ c.zero_id)) true → ⊥)
      → is_true r ≡ false
  uncut flags none answer never = refl
  uncut flags (some false) answer never = refl
  uncut flags (some true) answer never =
      absurd (never (is_cmp-IsRight model flags lhs c.zero_id true answer))

  asked :
      (flags : CmpFlags)
      → is_supported flags ≡ true
      → (r : Tribool) × (is_cmp c lhs c.zero_id 1 flags ≡ value r)
  asked = is_cmp-Returns valid (omega arith) (omega arith) lhs c.zero_id

  -- No branch is cut that some assignment of words takes: on a valid container, where a model of one
  -- bit gives to the condition a bit that differs from zero exactly if `br`, the branch `br` is not
  -- cut, and assumes its condition.
  pub branch_on_value_lem :
      (br : Bool)
      → agree 1 (ρ lhs) (ρ c.zero_id) ≡ not br
      → branch_on_value br lhs c ≡ (if br then assume_true lhs c else assume_false lhs c)
  unfolding branch_on_value is_true_value is_false_value IsRight is_supported
  branch_on_value_lem true h =
      let (r, answer) = asked eq (ground arith) in
      rw (answer, uncut eq r answer (λ same. ground arith)) refl
  branch_on_value_lem false h =
      let (r, answer) = asked neq (ground arith) in
      rw (answer, uncut neq r answer (λ other. ground arith)) refl
