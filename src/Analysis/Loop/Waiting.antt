-- ===== src/Analysis/Loop/Waiting.antt =====
-- The states that are ready and the worklist of src/StateStorage.hpp, while the operations of
-- src/Operation.hpp run.
use angie.Common.{
  ℕ, ◌<◌, ◌≡◌, refl, Bool, true, false, ◌&&◌, not, none, some, ◌==◌, arith, inl, inr, Bool-cases,
  Option-cases,
}
use angie.Common.Dict.{ℕ_key, find, find-assign}
use angie.Common.Run.{Outcome, ok, raise, Result, value, error, of_result, ◌>>=◌}
use angie.Common.Outcomes.{Ends, Ends-and_then}
use angie.ValueContainer.Valid.{has}
use angie.Analysis.{
  State, NodeId, CfgNode, is_terminal, is_branching, get_next, get_next_true, get_next_false, Store,
  is_new, set_explored, explored, create_successor, successor_of, insert_and_enqueue,
}
use angie.Values.{next_id}
use angie.Analysis.Operations.{
  OnNewState, Operation, basic, branch, call, ret, throwing, is_analysis_error, after_execution,
  safely_execute_and_enque, to_successor, basic_operation_execute, operation_branch_execute,
  operation_call_execute, operation_ret_execute, operation_execute,
}

abbrev pub nothing : ℕ → Bool
nothing _ = false

abbrev pub one : ℕ → ℕ → Bool
one j k = j == k

module _ {G X : Type 0} (cfg : NodeId → CfgNode) where
  unfoldable pub is_there : Store G X → ℕ → Bool
  is_there s k = elim (find k s.pool) [ none ↦ false | some _ ↦ true ]

  -- The state is new, and does not stand at a terminal node.
  unfoldable pub is_ready : Store G X → ℕ → Bool
  unfolding is_new is_terminal
  is_ready s k = elim (find k s.pool) [
    | none ↦ false
    | some st ↦ is_new st && not (is_terminal (cfg st.node))
  ]

  -- Each state that is ready waits in the worklist, unless it is in `but`.
  pub record IsWaiting (but : ℕ → Bool) (s : Store G X) : Type 0 where
    pub waits : (k : ℕ) → is_ready s k ≡ true → but k ≡ false → has k s.worklist ≡ true
    pub bounded : (k : ℕ) → is_there s k ≡ true → k < s.pool_size

  pub insert-IsWaiting :
      (node : NodeId) (st : State X) (but : ℕ → Bool) (s : Store G X)
      → IsWaiting but s
      → Ends (λ _. IsWaiting but) (insert_and_enqueue node st s)
  unfolding insert_and_enqueue has is_ready is_there
  insert-IsWaiting node st but s h = record {
    waits = λ k ready other. ground (arith, find-assign s.pool_size k st s.pool, h.waits k);
    bounded = λ k there. ground (arith, find-assign s.pool_size k st s.pool, h.bounded k);
  }

  same-IsWaiting :
      (but : ℕ → Bool) (s s' : Store G X)
      → s'.pool ≡ s.pool
      → s'.pool_size ≡ s.pool_size
      → s'.worklist ≡ s.worklist
      → IsWaiting but s
      → IsWaiting but s'
  unfolding is_ready is_there
  same-IsWaiting but s s' p q r h = record {
    waits = λ k ready other. ground (arith, h.waits k);
    bounded = λ k there. ground (arith, h.bounded k);
  }

  fewer-IsWaiting : (k : ℕ) (s : Store G X) → IsWaiting nothing s → IsWaiting (one k) s
  fewer-IsWaiting k s h = record { waits = λ j ready _. h.waits j ready refl; bounded = h.bounded }

  set_explored-IsWaiting :
      (k : ℕ) (s : Store G X)
      → IsWaiting (one k) s
      → Ends (λ _. IsWaiting nothing) (set_explored k s)
  unfolding set_explored is_ready is_there is_new
  set_explored-IsWaiting k s h = elim (Option-cases (find k s.pool)) [
    | inl missing ↦ rw (Ends, set_explored, missing) tt
    | inr (st, found) ↦
        rw (Ends, set_explored, found)
          (record {
            waits = λ j ready _.
                ground (arith, find-assign k j (record st { status = explored }) s.pool, h.waits j);
            bounded = λ j there.
                ground
                  (arith, find-assign k j (record st { status = explored }) s.pool, h.bounded j);
          })
  ]

  after_execution-IsWaiting :
      (node : NodeId) (o : Outcome (G × State X) (Unit {0})) (s : Store G X)
      → IsWaiting nothing s
      → Ends (λ _. IsWaiting nothing) (after_execution node o s)
  unfolding after_execution is_ready is_there
  after_execution-IsWaiting node (ok _ (g, successor)) s h =
      insert-IsWaiting node successor nothing (record s { shared = g })
        (same-IsWaiting nothing s (record s { shared = g }) refl refl refl h)
  after_execution-IsWaiting node (raise e (g, st)) s h = elim (Bool-cases (is_analysis_error e)) [
    | inl caught ↦ rw caught (same-IsWaiting nothing s (record s { shared = g }) refl refl refl h)
    | inr passed ↦ rw passed tt
  ]

  safely-IsWaiting :
      (run : OnNewState G X) (k : ℕ) (node : NodeId) (successor : State X) (s : Store G X)
      → IsWaiting (one k) s
      → Ends (λ _. IsWaiting nothing) (safely_execute_and_enque run k node successor s)
  unfolding safely_execute_and_enque
  safely-IsWaiting run k node successor s h =
      Ends-and_then (λ _. IsWaiting nothing) (λ _. IsWaiting nothing) (set_explored k s) _
        (set_explored-IsWaiting k s h)
        (λ _ s'. after_execution-IsWaiting node (run (s'.shared, successor)) s')

  created-IsWaiting :
      (k : ℕ) (s : Store G X)
      → IsWaiting (one k) s
      → IsWaiting (one k) (record s { next_state_id = next_id s.next_state_id })
  created-IsWaiting k s h =
      same-IsWaiting (one k) s (record s { next_state_id = next_id s.next_state_id }) refl refl refl
        h

  to_successor-IsWaiting :
      (run : OnNewState G X) (k : ℕ) (st : State X) (next : NodeId) (s : Store G X)
      → IsWaiting (one k) s
      → Ends (λ _. IsWaiting nothing) (to_successor run k st next s)
  unfolding to_successor create_successor
  to_successor-IsWaiting run k st next s h =
      safely-IsWaiting run k st.node (successor_of st next s.next_state_id)
        (record s { next_state_id = next_id s.next_state_id }) (created-IsWaiting k s h)

  call-IsWaiting :
      (callee after : Result NodeId) (set_stack_ret_node : NodeId → X → X) (run : OnNewState G X)
      (k : ℕ) (st : State X) (s : Store G X)
      → IsWaiting (one k) s
      → Ends
          (λ _. IsWaiting nothing)
          ((do
            next_jump ← of_result callee
            successor ← create_successor st next_jump
            node ← of_result after
            safely_execute_and_enque run k st.node
                (record successor { extra = set_stack_ret_node node successor.extra }))
            s)
  unfolding create_successor
  call-IsWaiting (error e) after set_stack_ret_node run k st s h = tt
  call-IsWaiting (value next) (error e) set_stack_ret_node run k st s h = tt
  call-IsWaiting (value next) (value node) set_stack_ret_node run k st s h =
      let successor = successor_of st next s.next_state_id in
      safely-IsWaiting run k st.node
        (record successor { extra = set_stack_ret_node node successor.extra })
        (record s { next_state_id = next_id s.next_state_id }) (created-IsWaiting k s h)

  next-IsWaiting :
      (r : Result NodeId) (run : OnNewState G X) (k : ℕ) (st : State X) (s : Store G X)
      → IsWaiting (one k) s
      → Ends (λ _. IsWaiting nothing) ((of_result r >>= to_successor run k st) s)
  next-IsWaiting (value next) run k st s h = to_successor-IsWaiting run k st next s h
  next-IsWaiting (error e) run k st s h = tt

  pub operation-IsWaiting :
      (node : CfgNode) (op : Operation G X) (k : ℕ) (st : State X) (s : Store G X)
      → IsWaiting (one k) s
      → Ends (λ _. IsWaiting nothing) (operation_execute node op k st s)
  unfolding operation_execute basic_operation_execute operation_branch_execute
      operation_call_execute operation_ret_execute
  operation-IsWaiting node (basic run) k st s h = elim (Bool-cases (is_branching node)) [
    | inl yes_branch ↦ rw yes_branch tt
    | inr plain ↦ rw plain (next-IsWaiting (get_next node) run k st s h)
  ]
  operation-IsWaiting node (branch run) k st s h = elim (Bool-cases (is_branching node)) [
    | inl branching ↦ rw branching (
        Ends-and_then (λ _. IsWaiting nothing) (λ _. IsWaiting nothing) _ _
          (Ends-and_then (λ _. IsWaiting nothing) (λ _. IsWaiting nothing) _ _
            (next-IsWaiting (get_next_false node) (run false) k st s h)
            (λ _ s'' h'.
              next-IsWaiting (get_next_true node) (run true) k st s'' (fewer-IsWaiting k s'' h')))
          (λ _ s'' h'. set_explored-IsWaiting k s'' (fewer-IsWaiting k s'' h')))
    | inr plain ↦ rw plain tt
  ]
  operation-IsWaiting node (call callee set_stack_ret_node run) k st s h =
      elim (Bool-cases (is_branching node)) [
        | inl branching ↦ rw branching tt
        | inr plain ↦
            rw plain (call-IsWaiting (callee st) (get_next node) set_stack_ret_node run k st s h)
      ]
  operation-IsWaiting node (ret get_stack_ret_node run) k st s h =
      elim (Bool-cases (is_branching node)) [
        | inl branching ↦ rw branching tt
        | inr plain ↦ rw plain (next-IsWaiting (get_stack_ret_node st.extra) run k st s h)
      ]
  operation-IsWaiting node (throwing e) k st s h = tt
