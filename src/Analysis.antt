-- ===== src/Analysis.antt =====
-- The states of an analysis, the pool and the worklist that hold them, and the control flow nodes:
-- src/IState.hpp, src/StateStorage.hpp and src/CfgNodeBase.hpp.
pub mod Args
pub mod Branch
pub mod CommonOperations
pub mod Operations
pub mod Instructions
pub mod Loop
mod Tests
use angie.Common.{
  ℕ, zero, suc, ◌+◌, Bool, true, false, Option, none, some, List, [], ◌∷◌, ◌++◌, if◌then◌else◌,
}
use angie.Common.Dict.{Dict, ℕ_key, find, assign}
use angie.Common.Run.{
  Result, value, error, Run, Outcome, ok, raise, runtime_error, undefined_behaviour, not_supported,
}
use angie.Values.{ValueId, FrontendId, next_id}
use angie.Mapper.{Mapper, get_value_id, link_to_value_id}

pub data StateStatus : Type 0 where
  new explored abstracted_out : StateStatus

abbrev pub NodeId : Type 0
NodeId = ℕ

abbrev pub StateId : Type 0
StateId = ℕ

-- The class State. `X` is what an analysis adds, and the value container.
pub record State (X : Type 0) : Type 0 where
  pub id : StateId
  pub generation : ℕ
  pub status : StateStatus
  pub node : NodeId
  pub predecessors : List StateId
  pub local_mapping : Mapper
  pub extra : X

-- A terminal node, and any other, with the pointer `nextFalse` of a branch.
pub data CfgNode : Type 0 where
  terminal : CfgNode
  inner : (next : NodeId) (next_false : Option NodeId) → CfgNode

unfoldable pub is_branching : CfgNode → Bool
is_branching terminal = false
is_branching (inner next none) = false
is_branching (inner next (some _)) = true

unfoldable pub is_terminal : CfgNode → Bool
is_terminal terminal = true
is_terminal (inner _ _) = false

unfoldable pub get_next : CfgNode → Result NodeId
get_next terminal = error not_supported
get_next (inner next _) = value next

unfoldable pub get_next_true : CfgNode → Result NodeId
get_next_true terminal = error not_supported
get_next_true (inner next none) = error runtime_error
get_next_true (inner next (some _)) = value next

unfoldable pub get_next_false : CfgNode → Result NodeId
get_next_false terminal = error not_supported
get_next_false (inner next none) = error runtime_error
get_next_false (inner next (some other)) = value other

-- The static members of StatesManager, the `localStates` of each node, and the counter of state
-- ids. A state is referred to by its position in the pool, and `G` is what else the program
-- shares between states.
pub record Store (G X : Type 0) : Type 0 where
  pub pool : Dict ℕ (State X)
  pub pool_size : ℕ
  pub worklist : List ℕ
  pub local_states : Dict NodeId (List ℕ)
  pub next_state_id : StateId
  pub shared : G

module _ {X : Type 0} where
  -- The lookup in the global mapping, and after any exception in the local one.
  unfoldable pub get_value : (global_mapping : Mapper) → State X → FrontendId → Result ValueId
  unfolding get_value_id
  get_value global_mapping s var = elim (get_value_id global_mapping var) [
    | value v ↦ value v
    | error _ ↦ get_value_id s.local_mapping var
  ]

  unfoldable pub assign_value : FrontendId → ValueId → State X → State X
  unfolding link_to_value_id
  assign_value var v s = record s { local_mapping = link_to_value_id var v s.local_mapping }

  -- The clone constructor.
  unfoldable pub successor_of : State X → NodeId → StateId → State X
  successor_of s node id = record {
    id = id;
    generation = s.generation + 1;
    status = new;
    node = node;
    predecessors = s.id ∷ [];
    local_mapping = s.local_mapping;
    extra = s.extra;
  }

  unfoldable pub is_new : State X → Bool
  is_new s = elim s.status [ new ↦ true | explored ↦ false | abstracted_out ↦ false ]

module _ {G X : Type 0} where
  unfoldable pub state_at : ℕ → Run (Store G X) (State X)
  state_at k s = elim (find k s.pool) [ none ↦ raise undefined_behaviour s | some st ↦ ok st s ]

  unfoldable pub set_explored : ℕ → Run (Store G X) (Unit {0})
  set_explored k s = elim (find k s.pool) [
    | none ↦ raise undefined_behaviour s
    | some st ↦ ok tt (record s { pool = assign k (record st { status = explored }) s.pool })
  ]

  unfoldable pub create_successor : State X → NodeId → Run (Store G X) (State X)
  unfolding successor_of next_id
  create_successor st node s =
      ok (successor_of st node s.next_state_id)
        (record s { next_state_id = next_id s.next_state_id })

  unfoldable pub local_states_at : NodeId → Store G X → List ℕ
  local_states_at node s = elim (find node s.local_states) [ none ↦ [] | some ks ↦ ks ]

  -- InsertAndEnqueue of the manager of a node: the worklist is a stack.
  unfoldable pub insert_and_enqueue : NodeId → State X → Run (Store G X) (Unit {0})
  unfolding local_states_at
  insert_and_enqueue node st s = ok tt (record s {
    pool = assign s.pool_size st s.pool;
    pool_size = s.pool_size + 1;
    worklist = s.pool_size ∷ s.worklist;
    local_states = assign node (local_states_at node s ++ s.pool_size ∷ []) s.local_states;
  })

  unfoldable pub is_worklist_empty : Store G X → Bool
  is_worklist_empty s = elim s.worklist [ [] ↦ true | _ ∷ _ ↦ false ]

  unfoldable pub worklist_dequeue : Run (Store G X) ℕ
  worklist_dequeue s = elim s.worklist [
    | [] ↦ raise undefined_behaviour s
    | k ∷ ks ↦ ok k (record s { worklist = ks })
  ]
