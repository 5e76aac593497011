-- ===== src/Analysis/Operations.antt =====
-- The templates that execute an operation on a state: OperationHelpers, BasicOperation,
-- OperationBranch, OperationCall and OperationRet of src/Operation.hpp.
use angie.Common.{Bool, true, false, if◌then◌else◌, ℕ}
use angie.Common.Run.{
  Exception, null_dereference, invalid_dereference, invalid_free, double_free, non_heap_free,
  branch_exception, analysis_error, assertion_failed, Run, Outcome, ok, raise, pure, throw, Result,
  of_result, ◌>>=◌, ◌>>◌,
}
use angie.Analysis.{
  State, NodeId, CfgNode, is_branching, terminal, inner, get_next, get_next_true, get_next_false,
  Store, set_explored, create_successor, insert_and_enqueue,
}

-- AnalysisErrorException and its subclasses, which the helpers catch.
unfoldable pub is_analysis_error : Exception → Bool
is_analysis_error null_dereference = true
is_analysis_error invalid_dereference = true
is_analysis_error invalid_free = true
is_analysis_error double_free = true
is_analysis_error non_heap_free = true
is_analysis_error branch_exception = true
is_analysis_error analysis_error = true
is_analysis_error _ = false

-- What an operation does to the new state, and to what the states share: ExecuteOnNewState.
abbrev pub OnNewState : (G X : Type 0) → Type 0
OnNewState G X = Run (G × State X) (Unit {0})

pub data Operation (G X : Type 0) : Type 0 where
  basic : OnNewState G X → Operation G X
  branch : (Bool → OnNewState G X) → Operation G X
  -- The first node of the function that a state calls, and SetStackRetNode.
  call :
      (callee : State X → Result NodeId) (set_stack_ret_node : NodeId → X → X)
      → OnNewState G X
      → Operation G X
  -- GetStackRetNode
  ret : (get_stack_ret_node : X → Result NodeId) → OnNewState G X → Operation G X
  -- An `Execute` that does nothing but throw.
  throwing : Exception → Operation G X

module _ {G X : Type 0} where
  -- What is left of a call of ExecuteOnNewState: the successor is queued, or it is dropped with
  -- the exception that was caught.
  unfoldable pub after_execution :
      NodeId → Outcome (G × State X) (Unit {0}) → Run (Store G X) (Unit {0})
  unfolding insert_and_enqueue is_analysis_error
  after_execution node (ok _ (g, successor)) s =
      insert_and_enqueue node successor (record s { shared = g })
  after_execution node (raise e (g, _)) s =
      if is_analysis_error e
      then ok tt (record s { shared = g })
      else raise e (record s { shared = g })

  -- The breakpoint and the prints are left out.
  unfoldable pub safely_execute_and_enque :
      OnNewState G X → (k : ℕ) → NodeId → (successor : State X) → Run (Store G X) (Unit {0})
  unfolding set_explored after_execution
  safely_execute_and_enque run k node successor =
      set_explored k >> λ s. after_execution node (run (s.shared, successor)) s

  unfoldable pub to_successor :
      OnNewState G X → (k : ℕ) → State X → NodeId → Run (Store G X) (Unit {0})
  unfolding create_successor safely_execute_and_enque
  to_successor run k st next = do
    successor ← create_successor st next
    safely_execute_and_enque run k st.node successor

  unfoldable pub basic_operation_execute :
      CfgNode → OnNewState G X → (k : ℕ) → State X → Run (Store G X) (Unit {0})
  unfolding is_branching get_next to_successor
  basic_operation_execute node run k st =
      if is_branching node
      then throw assertion_failed
      else (of_result (get_next node) >>= to_successor run k st)

  unfoldable pub operation_branch_execute :
      CfgNode → (Bool → OnNewState G X) → (k : ℕ) → State X → Run (Store G X) (Unit {0})
  unfolding is_branching get_next_true get_next_false to_successor set_explored
  operation_branch_execute node run k st =
      if is_branching node
      then ((of_result (get_next_false node) >>= to_successor (run false) k st)
          >> (of_result (get_next_true node) >>= to_successor (run true) k st)
          >> set_explored k)
      else throw assertion_failed

  unfoldable pub operation_call_execute :
      CfgNode
      → (State X → Result NodeId)
      → (NodeId → X → X)
      → OnNewState G X
      → (k : ℕ) → State X
      → Run (Store G X) (Unit {0})
  unfolding is_branching create_successor get_next safely_execute_and_enque
  operation_call_execute node callee set_stack_ret_node run k st =
      if is_branching node then throw assertion_failed else (do
        next_jump ← of_result (callee st)
        successor ← create_successor st next_jump
        after ← of_result (get_next node)
        safely_execute_and_enque run k st.node
            (record successor { extra = set_stack_ret_node after successor.extra }))

  unfoldable pub operation_ret_execute :
      CfgNode
      → (X → Result NodeId)
      → OnNewState G X
      → (k : ℕ) → State X
      → Run (Store G X) (Unit {0})
  unfolding is_branching to_successor
  operation_ret_execute node get_stack_ret_node run k st =
      if is_branching node
      then throw assertion_failed
      else (of_result (get_stack_ret_node st.extra) >>= to_successor run k st)

  -- The call of `Execute` of an operation through its base class.
  unfoldable pub operation_execute :
      CfgNode → Operation G X → (k : ℕ) → State X → Run (Store G X) (Unit {0})
  unfolding basic_operation_execute operation_branch_execute operation_call_execute
      operation_ret_execute
  operation_execute node (basic run) = basic_operation_execute node run
  operation_execute node (branch run) = operation_branch_execute node run
  operation_execute node (call callee set_stack_ret_node run) =
      operation_call_execute node callee set_stack_ret_node run
  operation_execute node (ret get_stack_ret_node run) =
      operation_ret_execute node get_stack_ret_node run
  operation_execute node (throwing e) = λ k st. throw e

  -- `Execute` of a node. A terminal node does nothing.
  unfoldable pub node_execute :
      CfgNode → Operation G X → (k : ℕ) → State X → Run (Store G X) (Unit {0})
  unfolding operation_execute
  node_execute terminal op k st = pure tt
  node_execute (inner next other) op k st = operation_execute (inner next other) op k st
