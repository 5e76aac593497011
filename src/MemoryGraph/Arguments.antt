-- ===== src/MemoryGraph/Arguments.antt =====
-- What a call of the memory graph analysis binds: MemGraphOpCall of src/MemoryGraphAnalysis.hpp.
use angie.Common.{
  ◌≡◌, refl, Bool, true, false, not, ◌&&◌, ◌||◌, ◌==◌, some, List, [], ◌∷◌, arith, if◌then◌else◌,
  inl, inr, Bool-cases,
}
use angie.Common.Dict.{ℕ_key, find}
use angie.Common.Run.{ok, Result, value, error, out_of_range}
use angie.Values.{ValueId, FrontendId}
use angie.Mapper.{Mapper, get_function, get_value_id, link_to_value_id, get_value_id-link}
use angie.Analysis.{State, NodeId, get_value, assign_value}
use angie.Analysis.Args.{
  FrontendIdTypePair, OperationArgs, id_type_pair, pair_of, get_target, get_call_options,
}
use angie.MemoryGraph.{MemoryGraph}
use angie.MemoryGraph.Frames.{pushed, push-ok}
use angie.MemoryGraph.Calls.{FunctionHandle, Globals, operand_values, assign_params, call_operation}

-- Parameters, each an id and a type.
abbrev pub parameters : {T : Type 0} → List (FrontendIdTypePair T) → OperationArgs T
parameters [] = []
parameters (param ∷ params) = id_type_pair param ∷ parameters params

module _ {T : Type 0} where
  unfoldable pub is_param : FrontendId → List (FrontendIdTypePair T) → Bool
  is_param j [] = false
  is_param j (param ∷ params) = param.id == j || is_param j params

  -- As many parameters as values, and no id twice.
  unfoldable pub fit : List (FrontendIdTypePair T) → List ValueId → Bool
  unfolding is_param
  fit [] [] = true
  fit [] (v ∷ vs) = false
  fit (param ∷ params) [] = false
  fit (param ∷ params) (v ∷ vs) = not (is_param param.id params) && fit params vs

  -- The value of a parameter, and of any other id the given one.
  unfoldable pub argument_of :
      FrontendId → List (FrontendIdTypePair T) → List ValueId → Result ValueId → Result ValueId
  argument_of j [] vs otherwise = otherwise
  argument_of j (param ∷ params) [] otherwise = otherwise
  argument_of j (param ∷ params) (v ∷ vs) otherwise =
      let rest = argument_of j params vs otherwise in if param.id == j then value v else rest

  argument_of-other :
      (j : FrontendId) (params : List (FrontendIdTypePair T)) (vs : List ValueId)
      (otherwise : Result ValueId)
      → is_param j params ≡ false
      → argument_of j params vs otherwise ≡ otherwise
  unfolding argument_of is_param
  argument_of-other j [] vs otherwise h = refl
  argument_of-other j (param ∷ params) [] otherwise h = refl
  argument_of-other j (param ∷ params) (v ∷ vs) otherwise h =
      ground (arith, argument_of-other j params vs otherwise)

  -- The assignments one after the other.
  unfoldable pub bound : List (FrontendIdTypePair T) → List ValueId → Mapper → Mapper
  bound [] vs m = m
  bound (param ∷ params) [] m = m
  bound (param ∷ params) (v ∷ vs) m = bound params vs (link_to_value_id param.id v m)

  pub get_value_id-bound :
      (j : FrontendId) (params : List (FrontendIdTypePair T)) (vs : List ValueId) (m : Mapper)
      → fit params vs ≡ true
      → get_value_id (bound params vs m) j ≡ argument_of j params vs (get_value_id m j)
  unfolding bound argument_of fit is_param
  get_value_id-bound j [] vs m h = refl
  get_value_id-bound j (param ∷ params) [] m h = refl
  get_value_id-bound j (param ∷ params) (v ∷ vs) m h = elim (Bool-cases (param.id == j)) [
    | inl here ↦ ground (
      arith,
      get_value_id-bound j params vs (link_to_value_id param.id v m),
      get_value_id-link param.id j v m,
      argument_of-other j params vs (value v),
    )
    | inr other ↦ ground (
      arith,
      get_value_id-bound j params vs (link_to_value_id param.id v m),
      get_value_id-link param.id j v m,
    )
  ]

  assign_params-bound :
      (params : List (FrontendIdTypePair T)) (vs : List ValueId) (s : State (MemoryGraph T))
      → fit params vs ≡ true
      → assign_params (parameters params) vs s
        ≡ ok tt (record s { local_mapping = bound params vs s.local_mapping })
  unfolding assign_params pair_of assign_value bound fit
  assign_params-bound [] vs s h = refl
  assign_params-bound (param ∷ params) [] s h = cc
  assign_params-bound (param ∷ params) (v ∷ vs) s h =
      assign_params-bound params vs
        (record s { local_mapping = link_to_value_id param.id v s.local_mapping }) (ground arith)

  pub call_operation_lem :
      (globals : Globals T) (args : OperationArgs T) (params : List (FrontendIdTypePair T))
      (s : State (MemoryGraph T)) {options target : FrontendIdTypePair T} {f : ValueId}
      {func : FunctionHandle T} {vs : List ValueId} {node : NodeId}
      → get_call_options args ≡ value options
      → get_value globals.mapping s options.id ≡ value f
      → get_function globals.functions f ≡ value func
      → func.params ≡ parameters params
      → operand_values globals.mapping args 0 (parameters params) s ≡ ok vs s
      → get_target args ≡ value target
      → s.extra.stack_ret_node ≡ some node
      → fit params vs ≡ true
      → (let s' = record (pushed target.id node s) { local_mapping = bound params vs [] } in
          (call_operation globals args s ≡ ok tt s')
          × ((j : FrontendId)
              → get_value_id s'.local_mapping j ≡ argument_of j params vs (error out_of_range)))
  unfolding call_operation get_value_id find
  call_operation_lem globals args params s {target = target} {vs = vs} {node = node} options
        function func same operands target_known set fits =
      (
        rw (options, function, func, same, operands, target_known, push-ok target.id node s set)
            (assign_params-bound params vs (pushed target.id node s) fits),
        λ j. get_value_id-bound j params vs [] fits,
      )
