-- ===== src/NullAnalysis/Calls.antt =====
-- The binding of arguments to parameters: FnaOperationCall of src/ForwardNullAnalysis.hpp, beside
-- MemGraphOpCall of src/MemoryGraphAnalysis.hpp.
use angie.Common.{ℕ, suc, [], ◌∷◌}
use angie.Common.Dict.{ℕ_key}
use angie.Common.Run.{Run, pure, of_result, ◌>>=◌, ◌>>◌}
use angie.Mapper.{Mapper, get_function}
use angie.Analysis.{State}
use angie.Analysis.Args.{OperationArgs, pair_of, get_operand, get_call_options}
use angie.Analysis.CommonOperations.{value_at, assign_to}
use angie.MemoryGraph.Calls.{Globals}
use angie.NullAnalysis.{NullState}

module _ {X T : Type 0} where
  -- Each parameter is assigned as soon as the value of its operand was looked up.
  unfoldable pub null_assign_params :
      Mapper → OperationArgs T → ℕ → (params : OperationArgs T) → Run (State X) (Unit {0})
  unfolding get_operand pair_of
  null_assign_params global_mapping args i [] = pure tt
  null_assign_params global_mapping args i (param ∷ params) = do
    pair ← of_result (pair_of param)
    operand ← of_result (get_operand i args)
    v ← value_at global_mapping operand
    assign_to pair v
    null_assign_params global_mapping args (suc i) params

unfoldable pub null_call_operation :
    {T : Type 0} (globals : Globals T) (args : OperationArgs T) → Run (State NullState) (Unit {0})
unfolding get_call_options get_function null_assign_params
null_call_operation globals args = do
  options ← of_result (get_call_options args)
  function_id ← value_at globals.mapping options
  func ← of_result (get_function globals.functions function_id)
  null_assign_params globals.mapping args 0 func.params
