-- ===== src/MemoryGraph/Frames.antt =====
-- The stack of calls in a state of the memory graph analysis: src/MemoryGraphAnalysis.hpp.
use angie.Common.{◌≡◌, refl, none, some, [], ◌∷◌, ◌==◌, if◌then◌else◌}
use angie.Common.Run.{Run, Result, value, error, ok, raise, undefined_behaviour}
use angie.Values.{ValueId, FrontendId}
use angie.Mapper.{get_value_id, link_to_value_id, get_value_id-link}
use angie.Analysis.{State, NodeId}
use angie.MemoryGraph.{Frame, MemoryGraph}

module _ {T : Type 0} where
  unfoldable pub get_stack_ret_node : MemoryGraph T → Result NodeId
  get_stack_ret_node m = elim m.stack [
    | [] ↦ error undefined_behaviour
    | frame ∷ _ ↦ value frame.ret_node
  ]

  unfoldable pub set_stack_ret_node : NodeId → MemoryGraph T → MemoryGraph T
  set_stack_ret_node node m = record m { stack_ret_node = some node }

  unfoldable pub stack_push : FrontendId → Run (State (MemoryGraph T)) (Unit {0})
  stack_push ret_frontend_id s = elim s.extra.stack_ret_node [
    | none ↦ raise undefined_behaviour s
    | some node ↦
        let frame : Frame = record {
          mapping = s.local_mapping;
          ret_frontend_id = ret_frontend_id;
          ret_node = node;
        } in
        ok tt (record s {
          extra = record s.extra { stack = frame ∷ s.extra.stack };
          local_mapping = [];
        })
  ]

  -- StackPop of a function that returns a value.
  unfoldable pub stack_pop_value : ValueId → Run (State (MemoryGraph T)) (Unit {0})
  unfolding link_to_value_id
  stack_pop_value ret_val_id s = elim s.extra.stack [
    | [] ↦ raise undefined_behaviour s
    | frame ∷ frames ↦ ok tt (record s {
      local_mapping = link_to_value_id frame.ret_frontend_id ret_val_id frame.mapping;
      extra = record s.extra { stack = frames };
    })
  ]

  unfoldable pub stack_pop : Run (State (MemoryGraph T)) (Unit {0})
  stack_pop s = elim s.extra.stack [
    | [] ↦ raise undefined_behaviour s
    | frame ∷ frames ↦
        ok tt
          (record s { local_mapping = frame.mapping; extra = record s.extra { stack = frames } })
  ]

  -- The state of a callee, just after the push.
  abbrev pub pushed : FrontendId → NodeId → State (MemoryGraph T) → State (MemoryGraph T)
  pushed ret_frontend_id node s = record s {
    extra = record s.extra {
      stack =
          (record { mapping = s.local_mapping; ret_frontend_id = ret_frontend_id; ret_node = node })
          ∷ s.extra.stack;
    };
    local_mapping = [];
  }

  pub push-ok :
      (ret_frontend_id : FrontendId) (node : NodeId) (s : State (MemoryGraph T))
      → s.extra.stack_ret_node ≡ some node
      → stack_push ret_frontend_id s ≡ ok tt (pushed ret_frontend_id node s)
  unfolding stack_push
  push-ok ret_frontend_id node s set = rw set refl

  -- A call and its return: after the push, the callee starts with no registers; and a state that still
  -- has the stack of the push returns to the node that was set before the call, with the registers
  -- that the caller had, where only the register of the call has changed, to the returned value,
  -- and with the stack that the caller had.
  pub pop-push :
      (ret_frontend_id : FrontendId) (node : NodeId) (s callee : State (MemoryGraph T))
      (v : ValueId)
      → s.extra.stack_ret_node ≡ some node
      → callee.extra.stack ≡ (pushed ret_frontend_id node s).extra.stack
      → (stack_push ret_frontend_id s ≡ ok tt (pushed ret_frontend_id node s))
        × (get_stack_ret_node callee.extra ≡ value node)
        × (let returned : State (MemoryGraph T) = record callee {
          local_mapping = link_to_value_id ret_frontend_id v s.local_mapping;
          extra = record callee.extra { stack = s.extra.stack };
        } in
            (stack_pop_value v callee ≡ ok tt returned)
            × ((j : FrontendId)
                → get_value_id returned.local_mapping j
                  ≡ (if ret_frontend_id == j then value v else get_value_id s.local_mapping j)))
  unfolding stack_pop_value get_stack_ret_node
  pop-push ret_frontend_id node s callee v set same = (
    push-ok ret_frontend_id node s set,
    rw same refl,
    (rw same refl, λ j. get_value_id-link ret_frontend_id j v s.local_mapping),
  )
