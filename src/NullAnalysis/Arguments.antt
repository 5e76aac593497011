-- ===== src/NullAnalysis/Arguments.antt =====
-- What a call of the forward null analysis binds: FnaOperationCall of src/ForwardNullAnalysis.hpp,
-- which assigns a parameter before it looks up the operand of the next one.
use angie.Common.{ℕ, suc, ◌≡◌, refl, Bool, true, false, not, ◌&&◌, List, [], ◌∷◌, arith}
use angie.Common.Dict.{ℕ_key}
use angie.Common.Run.{ok, value}
use angie.Values.{ValueId, FrontendId}
use angie.Mapper.{Mapper, get_function, get_value_id, get_value_id-link}
use angie.Analysis.{State, get_value, assign_value}
use angie.Analysis.Args.{FrontendIdTypePair, OperationArgs, pair_of, get_operand, get_call_options}
use angie.MemoryGraph.Arguments.{parameters, is_param, fit, argument_of, bound, get_value_id-bound}
use angie.MemoryGraph.Calls.{FunctionHandle, Globals}
use angie.NullAnalysis.{NullState}
use angie.NullAnalysis.Calls.{null_assign_params, null_call_operation}

module _ {X T : Type 0} (global_mapping : Mapper) (args : OperationArgs T) where
  -- The operands from an index on, and their values in a state.
  pub data Operands (s : State X) : ℕ → List (FrontendIdTypePair T) → List ValueId → Type 0 where
    no_more : {i : ℕ} → Operands s i [] []
    operand :
        {i : ℕ} {o : FrontendIdTypePair T} {os : List (FrontendIdTypePair T)} {v : ValueId}
        {vs : List ValueId}
        → get_operand i args ≡ value o
        → get_value global_mapping s o.id ≡ value v
        → Operands s (suc i) os vs
        → Operands s i (o ∷ os) (v ∷ vs)

  -- An assignment to a register that no operand reads.
  Operands-assign :
      (id : FrontendId) (new : ValueId) {s : State X} {i : ℕ} {os : List (FrontendIdTypePair T)}
      {vs : List ValueId}
      → Operands s i os vs
      → is_param id os ≡ false
      → Operands (assign_value id new s) i os vs
  unfolding is_param get_value assign_value
  Operands-assign id new no_more unread = no_more
  Operands-assign id new {s} (operand {o = o} at stored rest) unread =
      operand at (ground (arith, get_value_id-link id o.id new s.local_mapping))
        (Operands-assign id new rest (ground arith))

module _ {T : Type 0} where
  -- No operand reads the register of a parameter that is assigned before it is looked up.
  unfoldable pub are_unread : (params operands : List (FrontendIdTypePair T)) → Bool
  unfolding is_param
  are_unread [] os = true
  are_unread (param ∷ params) [] = true
  are_unread (param ∷ params) (o ∷ os) = not (is_param param.id os) && are_unread params os

  module _ {X : Type 0} (global_mapping : Mapper) (args : OperationArgs T) where
    null_assign_params-bound :
        (params : List (FrontendIdTypePair T)) (i : ℕ) {os : List (FrontendIdTypePair T)}
        {vs : List ValueId} {s : State X}
        → Operands global_mapping args s i os vs
        → fit params vs ≡ true
        → are_unread params os ≡ true
        → null_assign_params global_mapping args i (parameters params) s
          ≡ ok tt (record s { local_mapping = bound params vs s.local_mapping })
    unfolding null_assign_params pair_of assign_value bound fit are_unread
    null_assign_params-bound [] i no_more fits unread = refl
    null_assign_params-bound [] i (operand at stored rest) fits unread = absurd (ground arith)
    null_assign_params-bound (param ∷ params) i no_more fits unread = absurd (ground arith)
    null_assign_params-bound (param ∷ params) i (operand {v = v} at stored rest) fits unread =
        rw (at, stored)
          (null_assign_params-bound params (suc i)
            (Operands-assign global_mapping args param.id v rest (ground arith)) (ground arith)
            (ground arith))

pub null_call_operation_lem :
    {T : Type 0} (globals : Globals T) (args : OperationArgs T)
    (params operands : List (FrontendIdTypePair T)) (s : State NullState)
    {options : FrontendIdTypePair T} {f : ValueId} {func : FunctionHandle T} {vs : List ValueId}
    → get_call_options args ≡ value options
    → get_value globals.mapping s options.id ≡ value f
    → get_function globals.functions f ≡ value func
    → func.params ≡ parameters params
    → Operands globals.mapping args s 0 operands vs
    → fit params vs ≡ true
    → are_unread params operands ≡ true
    → (s' : State NullState) × (null_call_operation globals args s ≡ ok tt s')
      × (s'.extra ≡ s.extra)
      × ((j : FrontendId)
          → get_value_id s'.local_mapping j
            ≡ argument_of j params vs (get_value_id s.local_mapping j))
unfolding null_call_operation
null_call_operation_lem globals args params operands s {vs = vs} options function func same values
      fits unread =
    (
      record s { local_mapping = bound params vs s.local_mapping },
      rw (options, function, func, same)
          (null_assign_params-bound globals.mapping args params 0 values fits unread),
      refl,
      λ j. get_value_id-bound j params vs s.local_mapping fits,
    )
