-- ===== src/Analysis/Loop.antt =====
-- VerificationLoop of src/main.cpp, on fuel: the loop over a program with cycles need not end.
pub mod Explored
pub mod Invariant
pub mod Waiting
use angie.Common.{ℕ, zero, suc, [], Bool, true, false, if◌then◌else◌}
use angie.Common.Run.{Run, Outcome, ok, pure, ◌>>=◌, ◌>>◌}
use angie.Analysis.{
  State, NodeId, CfgNode, Store, is_new, state_at, is_worklist_empty, worklist_dequeue,
  insert_and_enqueue,
}
use angie.Analysis.Operations.{Operation, node_execute}

module _ {G X : Type 0} (cfg : NodeId → CfgNode) (op : NodeId → Operation G X) where
  -- One round of the loop.
  unfoldable pub loop_round : Run (Store G X) (Unit {0})
  unfolding worklist_dequeue state_at is_new node_execute
  loop_round = do
    k ← worklist_dequeue
    st ← state_at k
    if is_new st then node_execute (cfg st.node) (op st.node) k st else pure tt

  -- `true` says that the loop has ended, and `false` that the fuel has.
  unfoldable pub verification_loop : ℕ → Run (Store G X) Bool
  unfolding is_worklist_empty loop_round
  verification_loop zero s = ok (is_worklist_empty s) s
  verification_loop (suc fuel) s =
      if is_worklist_empty s then ok true s else (loop_round >> verification_loop fuel) s

-- The pool and the worklist of a fresh program.
abbrev pub empty_store : {G X : Type 0} → G → Store G X
empty_store shared = record {
  pool = [];
  pool_size = 0;
  worklist = [];
  local_states = [];
  next_state_id = 0;
  shared = shared;
}

-- `Verify`, after the front end: the first state is queued at the first node, and the loop runs.
unfoldable pub verify :
    {G X : Type 0} (cfg : NodeId → CfgNode) (op : NodeId → Operation G X)
    → ℕ
    → State X
    → G
    → Outcome (Store G X) Bool
unfolding verification_loop insert_and_enqueue
verify cfg op fuel st shared =
    (insert_and_enqueue st.node st >> verification_loop cfg op fuel) (empty_store shared)
