-- ===== src/MemoryGraph/Tests.antt =====
-- The theorems about the memory graph analysis, at a fresh graph and at a program that allocates a
-- region, frees it, and ends.
use angie.Common.{ℕ, ◌≡◌, refl, false, ◌==◌, if◌then◌else◌, none, some, List, [], ◌∷◌, arith}
use angie.Common.Int.{pos}
use angie.Common.Dict.{ℕ_key, find}
use angie.Common.Run.{ok, raise, value, double_free, invalid_dereference, error, out_of_range}
use angie.Common.Outcomes.{Keeps, Any}
use angie.Values.{FrontendId}
use angie.ValueContainer.{ValueContainer}
use angie.Mapper.{get_function, get_value_id, link_to_value_id}
use angie.FrontendTypes.{FrontendTypes}
use angie.Smg.Edge.{find_edge}
use angie.Smg.Object.{create_region, create_pt_edge, find_pt_edge_by_value, heap}
use angie.Smg.Graph.{create_graph, write_value, free as graph_free}
use angie.Smg.Graph.Free.{without_object}
use angie.Smg.Graph.Read.{allocate_region, read_value}
use angie.Smg.Graph.Read.{create_derived_pointer as derive_in_graph}
use angie.Smg.Closed.{is_there}
use angie.Smg.WellFormed.{IsWellFormed}
use angie.Smg.WellFormed.Lifetimes.{create_graph-IsWellFormed, graph_operations-IsWellFormed}
use angie.Analysis.{get_value, State, new, NodeId, CfgNode, terminal, inner}
use angie.Analysis.Args.{
  FrontendIdTypePair, OperArg, OperationArgs, id_type_pair, get_call_options, get_target,
  get_operand, arg_at, pair_of,
}
use angie.Analysis.Loop.{verify}
use angie.Analysis.Loop.Invariant.{IsKept}
use angie.MemoryGraph.{MemoryGraph, Memory, container_ops, malloc, free, load, store}
use angie.MemoryGraph.Frames.{pushed, stack_push, stack_pop_value, get_stack_ret_node, pop-push}
use angie.MemoryGraph.Arguments.{is_param, fit, argument_of, bound, call_operation_lem}
use angie.MemoryGraph.Malloc.{malloc-lifetime}
use angie.MemoryGraph.Calls.{
  Globals, Instruction, malloc_instr, free_instr, noop_instr, operation_of, call_operation,
  operand_values,
}
use angie.MemoryGraph.Invariant.{HasGraph}
use angie.MemoryGraph.Preserved.{verify-IsWellFormed}

-- Type 0 is an integer, type 1 a pointer, and `n + 2` an array of n bytes.
abbrev frontend : FrontendTypes ℕ
frontend = record {
  types = record {
    is_pointer = λ t. t == 1;
    get_size_of = λ t. 8;
    get_bit_width = λ t. 64;
    char_pointer = 1;
    pointer_to = λ t. 1;
  };
  integer = λ n. 0;
  array_of = λ t n. 2;
  get_pointer_element_type = λ t. 0;
  is_struct = λ t. false;
  get_struct_element_offset = λ t n. 0;
}

-- #1 is the constant 8, and nothing is known of #5.
abbrev constants : ValueContainer
constants = record {
  constants = (0, 0) ∷ (1, 8) ∷ [];
  constraints = [];
  constraint_ids = [];
  zero_id = 0;
  next_value_id = 6;
  next_constraint_id = 0;
}

abbrev fresh_memory : Memory ℕ
fresh_memory = create_graph frontend.types 1 constants

fresh-IsWellFormed : IsWellFormed fresh_memory
fresh-IsWellFormed = create_graph-IsWellFormed frontend.types 1 constants (omega arith)

graph_operations-IsWellFormed_example :
    Keeps IsWellFormed Any
      (allocate_region frontend.types (container_ops frontend) 0 heap fresh_memory)
    × Keeps IsWellFormed Any (write_value frontend.types 0 1 0 fresh_memory)
    × Keeps IsWellFormed Any (read_value frontend.types (container_ops frontend) 0 0 fresh_memory)
    × Keeps IsWellFormed Any
        (derive_in_graph frontend.types (container_ops frontend) 0 1 fresh_memory)
    × Keeps IsWellFormed Any (graph_free frontend.types 0 fresh_memory)
graph_operations-IsWellFormed_example =
    graph_operations-IsWellFormed frontend.types (container_ops frontend) fresh_memory
      fresh-IsWellFormed 0 1 0 heap

malloc-lifetime_example :
    (g1 : Memory ℕ) × (let g2 = without_object (pos 1) g1 in
      (malloc frontend 1 fresh_memory ≡ ok 6 g1)
      × (free frontend 6 g1 ≡ ok tt g2)
      × (is_there g2.objects (pos 1) ≡ false)
      × (free frontend 6 g2 ≡ raise double_free g2)
      × (load frontend 6 0 g2 ≡ raise invalid_dereference g2)
      × (store frontend 6 1 0 g2 ≡ raise invalid_dereference g2)
      × IsWellFormed g1
      × IsWellFormed g2)
unfolding find create_graph find_pt_edge_by_value create_pt_edge create_region find_edge
malloc-lifetime_example =
    malloc-lifetime frontend 1 fresh_memory fresh-IsWellFormed (omega arith) refl refl 1 0

-- The caller, with register #3 for the result of the call.
abbrev caller : State (MemoryGraph ℕ)
caller = record {
  id = 0;
  generation = 0;
  status = new;
  node = 0;
  predecessors = [];
  local_mapping = (7, 1) ∷ [];
  extra = record { graph = fresh_memory; stack = []; stack_ret_node = some 2 };
}

abbrev callee : State (MemoryGraph ℕ)
callee = record (pushed 3 2 caller) { local_mapping = (7, 5) ∷ []; node = 9 }

pop-push_example :
    (stack_push 3 caller ≡ ok tt (pushed 3 2 caller))
    × (get_stack_ret_node callee.extra ≡ value 2)
    × (let returned : State (MemoryGraph ℕ) = record callee {
      local_mapping = link_to_value_id 3 5 caller.local_mapping;
      extra = record callee.extra { stack = caller.extra.stack };
    } in
        (stack_pop_value 5 callee ≡ ok tt returned)
        × ((j : FrontendId)
            → get_value_id returned.local_mapping j
              ≡ (if 3 == j then value 5 else get_value_id caller.local_mapping j)))
pop-push_example = pop-push 3 2 caller callee 5 refl refl

abbrev operand : FrontendId → OperArg ℕ
operand id = id_type_pair (record { id = id; type = 0 })

abbrev program : NodeId → Instruction × OperationArgs ℕ
program n =
    if n == 0
    then (malloc_instr, operand 3 ∷ operand 0 ∷ operand 7 ∷ [])
    else if n == 1
    then (free_instr, operand 0 ∷ operand 0 ∷ operand 3 ∷ [])
    else (noop_instr, [])

abbrev nodes : NodeId → CfgNode
nodes n = if n == 0 then inner 1 none else if n == 1 then inner 2 none else terminal

abbrev no_globals : Globals ℕ
no_globals = record { mapping = []; functions = [] }

verify-IsWellFormed_example :
    Keeps
      (IsKept {G = ℕ} HasGraph)
      Any
      (verify nodes (λ n. operation_of frontend no_globals (program n).0 (program n).1) 5 caller 0)
verify-IsWellFormed_example =
    verify-IsWellFormed ℕ frontend no_globals nodes program 5 caller 0 fresh-IsWellFormed

-- The function #9 has its first node at 5 and the parameter #4; it is called with the operand #7.
abbrev functions : Globals ℕ
functions = record {
  mapping = (2, 9) ∷ [];
  functions = (9, record { cfg = 5; params = operand 4 ∷ [] }) ∷ [];
}

abbrev parameter : List (FrontendIdTypePair ℕ)
parameter = (record { id = 4; type = 0 }) ∷ []

call_operation_lem_example :
    let s' = record (pushed 3 2 caller) { local_mapping = bound parameter (1 ∷ []) [] } in
    (call_operation functions (operand 3 ∷ operand 2 ∷ operand 7 ∷ []) caller ≡ ok tt s')
    × ((j : FrontendId)
        → get_value_id s'.local_mapping j ≡ argument_of j parameter (1 ∷ []) (error out_of_range))
unfolding get_call_options get_target get_value get_value_id get_function operand_values get_operand
    arg_at pair_of fit is_param find
call_operation_lem_example =
    call_operation_lem functions (operand 3 ∷ operand 2 ∷ operand 7 ∷ []) parameter caller refl refl
      refl refl refl refl refl refl
