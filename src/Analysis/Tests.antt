-- ===== src/Analysis/Tests.antt =====
-- A program whose first node branches to a terminal node and to a node that frees nothing and ends,
-- and the theorem about the loop at it.
use angie.Common.{ℕ, ◌≡◌, refl, false, none, some, [], ◌==◌, if◌then◌else◌}
use angie.Common.Dict.{find, assign}
use angie.Common.Run.{Outcome, ok, raise, branch_exception}
use angie.Analysis.{State, new, NodeId, CfgNode, terminal, inner}
use angie.Analysis.Operations.{Operation, basic, branch}
use angie.Common.{arith, true, ◌∷◌}
use angie.Common.Dict.{ℕ_key}
use angie.Values.{ValueId}
use angie.ValueContainer.{ValueContainer, vector_at, rip_bits}
use angie.ValueContainer.Assume.{assume_true, assume_false}
use angie.ValueContainer.Valid.{has, refers, IsValid}
use angie.ValueContainer.Model.{agree, IsModel}
use angie.Analysis.Branch.{branch_on_value, branch_on_value_lem}
use angie.Analysis.Loop.{verify}
use angie.Analysis.Loop.Explored.{verify-explores}
use angie.Analysis.Loop.Waiting.{is_ready}

abbrev nodes : NodeId → CfgNode
nodes n = if n == 0 then inner 1 (some 2) else if n == 1 then inner 2 none else terminal

-- The branch is never false, and the other operations do nothing.
abbrev operations : NodeId → Operation ℕ ℕ
operations n =
    if n == 0
    then branch (λ b s. if b then ok tt s else raise branch_exception s)
    else basic (ok tt)

abbrev first : State ℕ
first = record {
  id = 0;
  generation = 0;
  status = new;
  node = 0;
  predecessors = [];
  local_mapping = [];
  extra = 0;
}

abbrev state_of : {S A : Type 0} → Outcome S A → S
state_of (ok _ s) = s
state_of (raise _ s) = s

verify-explores_example : is_ready nodes (state_of (verify nodes operations 5 first 0)) 2 ≡ false
unfolding verify find assign
verify-explores_example = verify-explores nodes operations 5 first 0 refl 2

-- A container without constraints, where #5 may be any word.
abbrev free_container : ValueContainer
free_container = record {
  constants = (0, 0) ∷ [];
  constraints = [];
  constraint_ids = [];
  zero_id = 0;
  next_value_id = 6;
  next_constraint_id = 0;
}

free_container-IsValid : IsValid free_container
unfolding has refers vector_at find
free_container-IsValid = record {
  indexed = λ k v. refl;
  distinct = λ v. tt;
  sides = λ k b found. ground (arith, found);
  below = λ k b found. ground (arith, found);
}

abbrev word_of : ValueId → ℕ
word_of v = if v == 5 then 1 else 0

free_container-IsModel : IsModel word_of 1 free_container
unfolding find
free_container-IsModel = record {
  constants = λ id found. ground arith;
  constraints = λ k found. ground (arith, found);
}

branch_on_value_lem_example :
    branch_on_value true 5 free_container
    ≡ (if true then assume_true 5 free_container else assume_false 5 free_container)
unfolding agree rip_bits
branch_on_value_lem_example =
    branch_on_value_lem free_container-IsValid free_container-IsModel 5 true refl
