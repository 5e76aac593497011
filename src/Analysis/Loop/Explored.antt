-- ===== src/Analysis/Loop/Explored.antt =====
-- VerificationLoop and Verify of src/main.cpp, and the states of the pool that are ready.
use angie.Common.{
  ℕ, zero, suc, ◌≡◌, refl, sym, true, false, some, List, [], ◌∷◌, arith, if◌then◌else◌, inl, inr,
  Bool-cases, Option-cases,
}
use angie.Common.Dict.{ℕ_key, find}
use angie.Common.Run.{ok, pure, ◌>>=◌}
use angie.Common.Outcomes.{Ends, Ends-and_then, Ends-ok}
use angie.ValueContainer.Valid.{has}
use angie.Analysis.{
  State, NodeId, CfgNode, terminal, inner, is_terminal, Store, is_new, state_at, insert_and_enqueue,
  is_worklist_empty, worklist_dequeue,
}
use angie.Analysis.Operations.{Operation, node_execute}
use angie.Analysis.Loop.{loop_round, verification_loop, empty_store, verify}
use angie.Analysis.Loop.Waiting.{
  nothing, one, is_there, is_ready, IsWaiting, insert-IsWaiting, operation-IsWaiting,
}

module _ {G X : Type 0} (cfg : NodeId → CfgNode) (op : NodeId → Operation G X) where
  node-IsWaiting :
      (node : CfgNode) (k : ℕ) (st : State X) (s : Store G X)
      → cfg st.node ≡ node
      → find k s.pool ≡ some st
      → IsWaiting cfg (one k) s
      → Ends (λ _. IsWaiting cfg nothing) (node_execute node (op st.node) k st s)
  unfolding node_execute is_ready is_there is_terminal
  node-IsWaiting terminal k st s at found h = record {
    waits = λ j ready _. ground (arith, h.waits j);
    bounded = λ j there. ground (arith, h.bounded j);
  }
  node-IsWaiting (inner next other) k st s at found h =
      operation-IsWaiting cfg (inner next other) (op st.node) k st s h

  old-IsWaiting :
      (k : ℕ) (st : State X) (s : Store G X)
      → find k s.pool ≡ some st
      → is_new st ≡ false
      → IsWaiting cfg (one k) s
      → IsWaiting cfg nothing s
  unfolding is_ready
  old-IsWaiting k st s found old h = record {
    waits = λ j ready _. ground (arith, h.waits j);
    bounded = h.bounded;
  }

  dequeued-IsWaiting :
      (k : ℕ) (ks : List ℕ) (s : Store G X)
      → s.worklist ≡ k ∷ ks
      → IsWaiting cfg nothing s
      → IsWaiting cfg (one k) (record s { worklist = ks })
  unfolding is_ready is_there has
  dequeued-IsWaiting k ks s at h = record {
    waits = λ j ready other. ground (arith, h.waits j);
    bounded = λ j there. ground (arith, h.bounded j);
  }

  -- One round, given the head of the worklist and the state at it.
  state-IsWaiting :
      (k : ℕ) (s : Store G X)
      → IsWaiting cfg (one k) s
      → Ends
          (λ _. IsWaiting cfg nothing)
          ((do
            st ← state_at k
            if is_new st then node_execute (cfg st.node) (op st.node) k st else pure tt)
            s)
  unfolding state_at
  state-IsWaiting k s h = elim (Option-cases (find k s.pool)) [
    | inl missing ↦ rw (Ends, missing) tt
    | inr (st, found) ↦ elim (Bool-cases (is_new st)) [
      | inl new_state ↦
          rw (Ends, found, new_state) (node-IsWaiting (cfg st.node) k st s refl found h)
      | inr old ↦ rw (Ends, found, old) (old-IsWaiting k st s found old h)
    ]
  ]

  round-IsWaiting :
      (worklist : List ℕ) (s : Store G X)
      → s.worklist ≡ worklist
      → IsWaiting cfg nothing s
      → Ends (λ _. IsWaiting cfg nothing) (loop_round cfg op s)
  unfolding loop_round worklist_dequeue
  round-IsWaiting [] s at h = rw (Ends, at) tt
  round-IsWaiting (k ∷ ks) s at h =
      rw (Ends, at)
        (state-IsWaiting k (record s { worklist = ks }) (dequeued-IsWaiting k ks s at h))

  verification_loop-Ends :
      (fuel : ℕ) (s : Store G X)
      → IsWaiting cfg nothing s
      → Ends
          (λ ended s'. IsWaiting cfg nothing s' × (ended ≡ is_worklist_empty s'))
          (verification_loop cfg op fuel s)
  unfolding verification_loop
  verification_loop-Ends zero s h = (h, refl)
  verification_loop-Ends (suc fuel) s h = elim (Bool-cases (is_worklist_empty s)) [
    | inl empty ↦ rw empty (h, sym empty)
    | inr more ↦ rw more (
        Ends-and_then (λ _. IsWaiting cfg nothing)
          (λ ended s'. IsWaiting cfg nothing s' × (ended ≡ is_worklist_empty s'))
          (loop_round cfg op s) _ (round-IsWaiting s.worklist s refl h)
          (λ _. verification_loop-Ends fuel))
  ]

  empty-IsWaiting : (shared : G) → IsWaiting cfg nothing (empty_store {X = X} shared)
  unfolding is_ready is_there find
  empty-IsWaiting shared = record {
    waits = λ k ready _. ground (arith, ready);
    bounded = λ k there. ground (arith, there);
  }

  pub verify-explores :
      (fuel : ℕ) (st : State X) (shared : G) {s' : Store G X}
      → verify cfg op fuel st shared ≡ ok true s'
      → (k : ℕ) → is_ready cfg s' k ≡ false
  unfolding verify has is_worklist_empty
  verify-explores fuel st shared {s'} ended k =
      let (waiting, empty) =
        Ends-ok (λ ended' s''. IsWaiting cfg nothing s'' × (ended' ≡ is_worklist_empty s'')) true s'
          (Ends-and_then (λ _. IsWaiting cfg nothing)
            (λ ended' s''. IsWaiting cfg nothing s'' × (ended' ≡ is_worklist_empty s''))
            (insert_and_enqueue st.node st (empty_store shared)) _
            (insert-IsWaiting cfg st.node st nothing (empty_store shared) (empty-IsWaiting shared))
            (λ _. verification_loop-Ends fuel))
          ended in
      ground (arith, waiting.waits k)
