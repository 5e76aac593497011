-- ===== src/LlvmFrontend/Keeping.antt =====
-- The operations of ParseModule of src/LlvmFrontend.cpp that leave the nodes and the entry point as
-- they are.
use angie.Common.{ℕ, zero, suc, ◌≡◌, refl, Option, none, some, List, [], ◌∷◌, map}
use angie.Common.Dict.{ℕ_key}
use angie.Common.Run.{Outcome, ok, raise, Run, Result, value, error, of_result}
use angie.Common.Outcomes.{
  Keeps, Any, IsKeeping, IsKeeping-bind, IsKeeping-then, IsKeeping-pure, keeping,
}
use angie.Values.{ValueId, FrontendId}
use angie.Mapper.{
  Linking, get_value_id, link_to_value_id, create_or_get_value_id, get_function, register_function,
}
use angie.Analysis.{NodeId}
use angie.Llvm.{Llvm, Constant, cast_expr, get_element_ptr_expr, function}
use angie.LlvmFrontend.{Parser}
use angie.LlvmFrontend.Operands.{to_oper_arg}
use angie.LlvmFrontend.Module.{
  ConstantFactory, Frontend, vc_after, on_vc, linking_after, on_linking, create_or_get_value,
  get_mapped_value, link_value, constant_value, deal_with_constants, register_handle, set_main_cfg,
  main_args,
}

module _ {T V : Type 0} (P : Parser T → Option NodeId → Type 0) where
  -- What is known of the nodes and of the entry point.
  abbrev pub OfParser : Frontend T V → Type 0
  OfParser s = P s.parser s.entry_point_cfg

  on_vc-IsKeeping : {A : Type 0} (m : Run V A) → IsKeeping OfParser (on_vc m)
  on_vc-IsKeeping m = record { holds = λ s h. after (m s.vc) s h }
    where
      after :
          {A : Type 0} (o : Outcome V A) (s : Frontend T V)
          → P s.parser s.entry_point_cfg
          → Keeps OfParser Any (vc_after s o)
      after (ok a vc) s h = (h, tt)
      after (raise e vc) s h = h

  on_linking-IsKeeping : {A : Type 0} (m : Run (Linking V) A) → IsKeeping OfParser (on_linking m)
  on_linking-IsKeeping m = record {
    holds = λ s h. after (m (record { mapper = s.mapper; vc = s.vc })) s h;
  }
    where
      after :
          {A : Type 0} (o : Outcome (Linking V) A) (s : Frontend T V)
          → P s.parser s.entry_point_cfg
          → Keeps OfParser Any (linking_after s o)
      after (ok a l) s h = (h, tt)
      after (raise e l) s h = h

  create_or_get_value-IsKeeping :
      (llvm : Llvm T) (fe : ConstantFactory T V) (v : FrontendId)
      → IsKeeping OfParser (create_or_get_value llvm fe v)
  unfolding create_or_get_value
  create_or_get_value-IsKeeping llvm fe v =
      on_linking-IsKeeping (create_or_get_value_id (fe.create_val (llvm.get_type v)) v)

  result_of-IsKeeping :
      {A : Type 0} (f : Frontend T V → Result A) → IsKeeping OfParser (λ s. of_result (f s) s)
  result_of-IsKeeping f = record { holds = λ s h. after (f s) s h }
    where
      after :
          {A : Type 0} (r : Result A) (s : Frontend T V)
          → P s.parser s.entry_point_cfg
          → Keeps OfParser Any (of_result r s)
      after (value a) s h = (h, tt)
      after (error e) s h = h

  get_mapped_value-IsKeeping : (v : FrontendId) → IsKeeping OfParser (get_mapped_value v)
  unfolding get_mapped_value
  get_mapped_value-IsKeeping v = result_of-IsKeeping (λ s. get_value_id s.mapper v)

  -- A change of the other members.
  put-IsKeeping :
      (f : Frontend T V → Frontend T V)
      → ((s : Frontend T V) → (f s).parser ≡ s.parser)
      → ((s : Frontend T V) → (f s).entry_point_cfg ≡ s.entry_point_cfg)
      → IsKeeping OfParser (λ s. ok tt (f s))
  put-IsKeeping f same same_entry = record { holds = λ s h. (rw (same s, same_entry s) h, tt) }

  link_value-IsKeeping : (v : FrontendId) (id : ValueId) → IsKeeping OfParser (link_value v id)
  unfolding link_value
  link_value-IsKeeping v id =
      put-IsKeeping (λ s. record s { mapper = link_to_value_id v id s.mapper }) (λ s. refl)
        (λ s. refl)

  module _ (llvm : Llvm T) (fe : ConstantFactory T V) where
    constant_value-IsKeeping :
        (c : FrontendId) (kind : Constant) → IsKeeping OfParser (constant_value llvm fe c kind)
    unfolding constant_value
    constant_value-IsKeeping c (get_element_ptr_expr (some i) (some j)) =
        search (keeping, on_vc-IsKeeping)
    constant_value-IsKeeping c (cast_expr none) = search keeping
    constant_value-IsKeeping c (cast_expr (some n)) = search on_vc-IsKeeping
    constant_value-IsKeeping c (get_element_ptr_expr none j) = search keeping
    constant_value-IsKeeping c (get_element_ptr_expr (some i) none) = search keeping
    constant_value-IsKeeping c function = get_mapped_value-IsKeeping c
    constant_value-IsKeeping c _ = search (keeping, on_vc-IsKeeping)

    pub deal_with_constants-IsKeeping :
        (cs : List FrontendId) → IsKeeping OfParser (deal_with_constants llvm fe cs)
    unfolding deal_with_constants
    deal_with_constants-IsKeeping [] = IsKeeping-pure tt
    deal_with_constants-IsKeeping (c ∷ cs) =
        IsKeeping-bind (constant_value-IsKeeping c (llvm.constant c))
          λ id. IsKeeping-then (link_value-IsKeeping c id) (deal_with_constants-IsKeeping cs)

    pub register_handle-IsKeeping :
        (func : FrontendId) (cfg : NodeId) → IsKeeping OfParser (register_handle llvm fe func cfg)
    unfolding register_handle
    register_handle-IsKeeping func cfg =
        IsKeeping-bind (create_or_get_value-IsKeeping llvm fe func) λ vid.
          put-IsKeeping
            (λ s. record s {
              functions =
                  register_function vid
                    (record { cfg = cfg; params = map (to_oper_arg llvm) (llvm.args func) })
                    s.functions;
            })
            (λ s. refl) (λ s. refl)

    pub set_main_cfg-IsKeeping :
        (func : FrontendId) → IsKeeping OfParser (set_main_cfg {T = T} {V = V} llvm fe func)
    unfolding set_main_cfg
    set_main_cfg-IsKeeping func = IsKeeping-bind (get_mapped_value-IsKeeping func) λ vid.
        IsKeeping-bind (result_of-IsKeeping (λ s. get_function s.functions vid)) λ handle.
          put-IsKeeping (λ s. record s { main_cfg = some handle.cfg }) (λ s. refl) (λ s. refl)

    pub main_args-IsKeeping :
        (params : ℕ) (entry_args : List FrontendId)
        → IsKeeping OfParser (main_args llvm fe params entry_args)
    unfolding main_args
    main_args-IsKeeping zero entry_args = IsKeeping-pure []
    main_args-IsKeeping (suc params) [] = search keeping
    main_args-IsKeeping (suc params) (arg ∷ entry_args) =
        IsKeeping-then (create_or_get_value-IsKeeping llvm fe arg) (
          IsKeeping-bind (main_args-IsKeeping params entry_args)
            λ rest. IsKeeping-pure (to_oper_arg llvm arg ∷ rest))
