-- ===== src/NullAnalysis/Tests.antt =====
-- A call of the forward null analysis, and the arguments of a recursive call that swaps two
-- registers: the second parameter gets the value that the first one was just given.
use angie.Common.{ℕ, ◌≡◌, refl, [], ◌∷◌}
use angie.Common.Dict.{ℕ_key, find, assign, emplace}
use angie.Common.Run.{Outcome, ok, raise}
use angie.Values.{FrontendId}
use angie.ValueContainer.{ValueContainer}
use angie.Mapper.{get_function, Mapper, get_value_id, link_to_value_id}
use angie.Analysis.{State, new, get_value, assign_value}
use angie.Analysis.Args.{
  FrontendIdTypePair, OperationArgs, get_call_options, OperArg, id_type_pair, get_operand, arg_at,
  pair_of,
}
use angie.NullAnalysis.{NullState, first_null_state}
use angie.NullAnalysis.Calls.{null_assign_params, null_call_operation}
use angie.NullAnalysis.Arguments.{Operands, no_more, operand, are_unread, null_call_operation_lem}
use angie.MemoryGraph.Arguments.{fit, argument_of}
use angie.MemoryGraph.Calls.{Globals}

abbrev no_values : ValueContainer
no_values = record {
  constants = (0, 0) ∷ [];
  constraints = [];
  constraint_ids = [];
  zero_id = 0;
  next_value_id = 30;
  next_constraint_id = 0;
}

-- Register #1 has the value 10, and register #2 the value 20.
abbrev two_registers : State NullState
two_registers = record {
  id = 0;
  generation = 0;
  status = new;
  node = 0;
  predecessors = [];
  local_mapping = (1, 10) ∷ (2, 20) ∷ [];
  extra = first_null_state no_values;
}

abbrev register : FrontendId → OperArg ℕ
register id = id_type_pair (record { id = id; type = 0 })

abbrev mapping_of : Outcome (State NullState) (Unit {0}) → Mapper
mapping_of (ok _ s) = s.local_mapping
mapping_of (raise _ s) = s.local_mapping

-- The parameters #1 and #2, called with the operands #2 and #1.
swapped_call :
    mapping_of (
      null_assign_params []
        (register 0 ∷ register 0 ∷ register 2 ∷ register 1 ∷ [])
        0
        (register 1 ∷ register 2 ∷ [])
        two_registers)
    ≡ (1, 20) ∷ (2, 20) ∷ []
unfolding null_assign_params get_operand arg_at pair_of get_value get_value_id find assign_value
    link_to_value_id assign emplace
swapped_call = refl

-- The value 7 is the function, which takes the registers #3 and #4 and is called with #2 and #1.
abbrev globals : Globals ℕ
globals = record {
  mapping = (9, 7) ∷ [];
  functions = (7, record { cfg = 0; params = register 3 ∷ register 4 ∷ [] }) ∷ [];
}

abbrev pair : FrontendId → FrontendIdTypePair ℕ
pair id = record { id = id; type = 0 }

abbrev call_args : OperationArgs ℕ
call_args = register 0 ∷ register 9 ∷ register 2 ∷ register 1 ∷ []

call_operands :
    Operands globals.mapping call_args two_registers 0 (pair 2 ∷ pair 1 ∷ []) (20 ∷ 10 ∷ [])
unfolding get_operand arg_at pair_of get_value get_value_id find
call_operands = operand refl refl (operand refl refl no_more)

null_call_operation_lem_example :
    (s' : State NullState) × (null_call_operation globals call_args two_registers ≡ ok tt s')
    × (s'.extra ≡ two_registers.extra)
    × ((j : FrontendId)
        → get_value_id s'.local_mapping j
          ≡ argument_of j
              (pair 3 ∷ pair 4 ∷ [])
              (20 ∷ 10 ∷ [])
              (get_value_id two_registers.local_mapping j))
unfolding get_call_options arg_at pair_of get_value get_value_id get_function find fit are_unread
null_call_operation_lem_example =
    null_call_operation_lem globals call_args (pair 3 ∷ pair 4 ∷ []) (pair 2 ∷ pair 1 ∷ [])
      two_registers refl refl refl refl call_operands refl refl
