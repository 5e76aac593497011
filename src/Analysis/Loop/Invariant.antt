-- ===== src/Analysis/Loop/Invariant.antt =====
-- What every state of the pool has: VerificationLoop of src/main.cpp, for a property of states that
-- each operation of the program keeps.
use angie.Common.{
  ℕ, zero, suc, ◌≡◌, refl, Bool, true, false, some, List, [], ◌∷◌, ◌==◌, arith, inl, inr,
  Bool-cases, Option-cases,
}
use angie.Common.Dict.{ℕ_key, find, find-assign}
use angie.Common.Run.{Outcome, ok, raise, Result, of_result, ◌>>=◌}
use angie.Common.Outcomes.{
  Ends, Keeps, Any, Keeps-and_then, Holds, Holds-ok, Holds-result, Holds-bind, Holds-then, Holds-if,
}
use angie.Analysis.{
  State, NodeId, CfgNode, terminal, inner, is_branching, get_next, get_next_true, get_next_false,
  Store, is_new, state_at, set_explored, explored, create_successor, successor_of,
  insert_and_enqueue, is_worklist_empty, worklist_dequeue,
}
use angie.Analysis.Operations.{
  OnNewState, Operation, basic, branch, call, ret, throwing, is_analysis_error, after_execution,
  safely_execute_and_enque, to_successor, basic_operation_execute, operation_branch_execute,
  operation_call_execute, operation_ret_execute, operation_execute, node_execute,
}
use angie.Analysis.Loop.{loop_round, verification_loop, empty_store, verify}

module _ {G X : Type 0} (P : X → Type 0) where
  -- ExecuteOnNewState keeps `P` of the new state, where it does not throw.
  abbrev pub KeepsNew : OnNewState G X → Type 0
  KeepsNew run =
      (g : G) (st : State X)
      → P st.extra
      → Ends (λ (_ : Unit {0}) (new : G × State X). P new.1.extra) (run (g, st))

  abbrev pub Preserves : Operation G X → Type 0
  Preserves (basic run) = KeepsNew run
  Preserves (branch run) = (br : Bool) → KeepsNew (run br)
  Preserves (call callee set_ret run) =
      ((node : NodeId) (x : X) → P x → P (set_ret node x)) × KeepsNew run
  Preserves (ret ret_node run) = KeepsNew run
  Preserves (throwing e) = Unit {0}

  -- Every state of the pool has `P`.
  pub record IsKept (s : Store G X) : Type 0 where
    pub states : (k : ℕ) {st : State X} → find k s.pool ≡ some st → P st.extra

  state_at-Keeps :
      (k : ℕ) (s : Store G X) → IsKept s → Keeps IsKept (λ st _. P st.extra) (state_at k s)
  unfolding state_at
  state_at-Keeps k s h = elim (Option-cases (find k s.pool)) [
    | inl missing ↦ rw (Keeps, missing) h
    | inr (st, found) ↦ rw (Keeps, found) (h, h.states k found)
  ]

  set_explored-Holds : (k : ℕ) → Holds IsKept (set_explored k)
  unfolding set_explored
  set_explored-Holds k s h = elim (Option-cases (find k s.pool)) [
    | inl missing ↦ rw (Keeps, set_explored, missing) h
    | inr (st, found) ↦
        rw (Keeps, set_explored, found)
          (
            record {
              states = λ j {st = st'} at. elim (Bool-cases (k == j)) [
                | inl here ↦
                    let same : st'.extra ≡ st.extra =
                      ground (arith, find-assign k j (record st { status = explored }) s.pool) in
                    rw same (h.states k found)
                | inr other ↦
                    h.states j {st = st'}
                      (ground (arith, find-assign k j (record st { status = explored }) s.pool))
              ];
            },
            tt,
          )
  ]

  insert-Holds :
      (node : NodeId) (st : State X) → P st.extra → Holds IsKept (insert_and_enqueue node st)
  unfolding insert_and_enqueue
  insert-Holds node st p s h = (
    record {
      states = λ j {st = st'} at. elim (Bool-cases (s.pool_size == j)) [
        | inl here ↦
            let same : st' ≡ st = ground (arith, find-assign s.pool_size j st s.pool) in rw same p
        | inr other ↦ h.states j {st = st'} (ground (arith, find-assign s.pool_size j st s.pool))
      ];
    },
    tt,
  )

  after_execution-Holds :
      (node : NodeId) (o : Outcome (G × State X) (Unit {0}))
      → Ends (λ (_ : Unit {0}) (new : G × State X). P new.1.extra) o
      → Holds IsKept (after_execution node o)
  unfolding after_execution
  after_execution-Holds node (ok _ (g, successor)) p s h =
      insert-Holds node successor p (record s { shared = g }) (record { states = h.states })
  after_execution-Holds node (raise e (g, st)) p s h = elim (Bool-cases (is_analysis_error e)) [
    | inl caught ↦ rw (Keeps, caught) (record { states = h.states }, tt)
    | inr passed ↦ rw (Keeps, passed) (record { states = h.states })
  ]

  safely-Holds :
      (run : OnNewState G X) (k : ℕ) (node : NodeId) (successor : State X)
      → KeepsNew run
      → P successor.extra
      → Holds IsKept (safely_execute_and_enque run k node successor)
  unfolding safely_execute_and_enque
  safely-Holds run k node successor keeps p =
      Holds-then IsKept (set_explored k) _ (set_explored-Holds k)
        (λ s. after_execution-Holds node (run (s.shared, successor)) (keeps s.shared successor p) s)

  to_successor-Holds :
      (run : OnNewState G X) (k : ℕ) (st : State X) (next : NodeId)
      → KeepsNew run
      → P st.extra
      → Holds IsKept (to_successor run k st next)
  unfolding to_successor create_successor successor_of
  to_successor-Holds run k st next keeps p s h =
      safely-Holds run k st.node (successor_of st next s.next_state_id) keeps p _
        (record { states = h.states })

  next-Holds :
      (r : Result NodeId) (run : OnNewState G X) (k : ℕ) (st : State X)
      → KeepsNew run
      → P st.extra
      → Holds IsKept (of_result r >>= to_successor run k st)
  next-Holds r run k st keeps p =
      Holds-bind IsKept (of_result r) _ (Holds-result IsKept r)
        (λ next. to_successor-Holds run k st next keeps p)

  operation-Holds :
      (node : CfgNode) (op : Operation G X) (k : ℕ) (st : State X)
      → Preserves op
      → P st.extra
      → Holds IsKept (operation_execute node op k st)
  unfolding operation_execute basic_operation_execute operation_branch_execute
      operation_call_execute operation_ret_execute create_successor successor_of
  operation-Holds node (basic run) k st keeps p =
      Holds-if IsKept (is_branching node) _ _ (λ s h. h)
        (next-Holds (get_next node) run k st keeps p)
  operation-Holds node (branch run) k st keeps p =
      Holds-if IsKept (is_branching node) _ _
        (Holds-then IsKept _ _
          (Holds-then IsKept _ _ (next-Holds (get_next_false node) (run false) k st (keeps false) p)
            (next-Holds (get_next_true node) (run true) k st (keeps true) p))
          (set_explored-Holds k))
        (λ s h. h)
  operation-Holds node (call callee set_ret run) k st (sets, keeps) p =
      Holds-if IsKept (is_branching node) _ _ (λ s h. h)
        (Holds-bind IsKept (of_result (callee st)) _ (Holds-result IsKept (callee st)) (λ next s h.
          Holds-bind IsKept (of_result (get_next node)) _ (Holds-result IsKept (get_next node))
            (λ after. safely-Holds run k st.node _ keeps (sets after st.extra p)) _
            (record { states = h.states })))
  operation-Holds node (ret ret_node run) k st keeps p =
      Holds-if IsKept (is_branching node) _ _ (λ s h. h)
        (next-Holds (ret_node st.extra) run k st keeps p)
  operation-Holds node (throwing e) k st keeps p = λ s h. h

  dequeued-Holds :
      (worklist : List ℕ) (s : Store G X)
      → IsKept s
      → s.worklist ≡ worklist
      → Keeps IsKept Any (worklist_dequeue s)
  unfolding worklist_dequeue
  dequeued-Holds [] s h at = rw (Keeps, worklist_dequeue, at) h
  dequeued-Holds (k ∷ ks) s h at =
      rw (Keeps, worklist_dequeue, at) (record { states = h.states }, tt)

  module _ (cfg : NodeId → CfgNode) (op : NodeId → Operation G X)
      (preserves : (node : NodeId) → Preserves (op node)) where
    node-Holds :
        (node : CfgNode) (k : ℕ) (st : State X)
        → P st.extra
        → Holds IsKept (node_execute node (op st.node) k st)
    unfolding node_execute
    node-Holds terminal k st p = λ s h. (h, tt)
    node-Holds (inner next other) k st p =
        operation-Holds (inner next other) (op st.node) k st (preserves st.node) p

    round-Holds : Holds IsKept (loop_round cfg op)
    unfolding loop_round
    round-Holds =
        Holds-bind IsKept worklist_dequeue _ (λ s h. dequeued-Holds s.worklist s h refl)
          (λ k s h.
            Keeps-and_then IsKept (λ st _. P st.extra) Any (state_at k s) _ (state_at-Keeps k s h)
              (λ st s' h' p.
                Holds-if IsKept (is_new st) _ _ (node-Holds (cfg st.node) k st p)
                  (Holds-ok IsKept tt) s' h'))

    loop-Holds : (fuel : ℕ) → Holds IsKept (verification_loop cfg op fuel)
    unfolding verification_loop
    loop-Holds zero s h = (h, tt)
    loop-Holds (suc fuel) s h = elim (Bool-cases (is_worklist_empty s)) [
      | inl empty ↦ rw (Keeps, empty) (h, tt)
      | inr more ↦
          rw (Keeps, more)
            (Holds-then IsKept (loop_round cfg op) _ round-Holds (loop-Holds fuel) s h)
    ]

    -- Where every operation of the program keeps a property of states, and the first state has it, all
    -- the states that Verify ever puts into the pool have it, also where an exception ends the loop.
    pub verify-IsKept :
        (fuel : ℕ) (st : State X) (shared : G)
        → P st.extra
        → Keeps IsKept Any (verify cfg op fuel st shared)
    unfolding verify find
    verify-IsKept fuel st shared p =
        Holds-then IsKept (insert_and_enqueue st.node st) _ (insert-Holds st.node st p)
          (loop-Holds fuel) (empty_store shared)
          (record { states = λ k at. absurd (ground (arith, at)) })
