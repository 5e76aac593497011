-- ===== src/LlvmFrontend/Module.antt =====
-- ParseModule and DealWithConstants of src/LlvmFrontend.cpp.
use angie.Common.{
  ℕ, zero, suc, Bool, ◌&&◌, Option, none, some, List, [], ◌∷◌, ◌==◌, map, if◌then◌else◌,
}
use angie.Common.Run.{
  Run, Outcome, ok, raise, pure, throw, of_result, runtime_error, not_supported, logic_error,
  undefined_behaviour, ◌>>=◌, ◌>>◌,
}
use angie.Values.{ValueId, FrontendId}
use angie.Mapper.{
  Mapper, FuncMapper, Linking, get_value_id, link_to_value_id, create_or_get_value_id,
  register_function, get_function,
}
use angie.Analysis.{NodeId}
use angie.Analysis.Args.{OperationArgs}
use angie.Analysis.Instructions.{FunctionHandle, call_instr, terminate_instr}
use angie.Llvm.{
  Llvm, Constant, const_int, const_double, const_float, other_fp, null_pointer, cast_expr,
  get_element_ptr_expr, other_expr, function, global_variable, other_constant,
}
use angie.LlvmFrontend.{Parser, create_empty, insert_new_after}
use angie.LlvmFrontend.Operands.{to_oper_arg, get_empty_oper_arg}
use angie.LlvmFrontend.Blocks.{parse_basic_block, link_planned}

-- What the parser asks of IValueContainer of src/Values.hpp. The floating point number of a constant
-- is known by the address of the constant.
pub record ConstantFactory (T V : Type 0) : Type 0 where
  pub create_val : T → Run V ValueId
  pub create_const_int_val : ℕ → T → Run V ValueId
  pub create_const_float_val : FrontendId → T → Run V ValueId

-- The parser with the objects that it is given references to, and its pointers to nodes.
pub record Frontend (T V : Type 0) : Type 0 where
  pub parser : Parser T
  pub mapper : Mapper
  pub vc : V
  pub functions : FuncMapper (FunctionHandle T)
  pub entry_point_cfg : Option NodeId
  pub main_cfg : Option NodeId

-- What ParseModule makes LLVM create for the function __entry: its parameters, the calls in it, and
-- how many parameters `main` has.
pub record EntryFunction : Type 0 where
  pub entry_args : List FrontendId
  pub main_params : ℕ
  pub main_call : FrontendId
  pub fin_call : FrontendId

module _ {T V : Type 0} where
  abbrev pub parser_after :
      {A : Type 0} → Frontend T V → Outcome (Parser T) A → Outcome (Frontend T V) A
  parser_after s (ok a p) = ok a (record s { parser = p })
  parser_after s (raise e p) = raise e (record s { parser = p })

  abbrev pub on_parser : {A : Type 0} → Run (Parser T) A → Run (Frontend T V) A
  on_parser m s = parser_after s (m s.parser)

  abbrev pub vc_after : {A : Type 0} → Frontend T V → Outcome V A → Outcome (Frontend T V) A
  vc_after s (ok a vc) = ok a (record s { vc = vc })
  vc_after s (raise e vc) = raise e (record s { vc = vc })

  abbrev pub on_vc : {A : Type 0} → Run V A → Run (Frontend T V) A
  on_vc m s = vc_after s (m s.vc)

  abbrev pub linking_after :
      {A : Type 0} → Frontend T V → Outcome (Linking V) A → Outcome (Frontend T V) A
  linking_after s (ok a l) = ok a (record s { mapper = l.mapper; vc = l.vc })
  linking_after s (raise e l) = raise e (record s { mapper = l.mapper; vc = l.vc })

  abbrev pub on_linking : {A : Type 0} → Run (Linking V) A → Run (Frontend T V) A
  on_linking m s = linking_after s (m (record { mapper = s.mapper; vc = s.vc }))

  -- CreateOrGetValueId of the mapper, for a value of the module.
  unfoldable pub create_or_get_value :
      Llvm T → ConstantFactory T V → FrontendId → Run (Frontend T V) ValueId
  unfolding create_or_get_value_id
  create_or_get_value llvm fe v =
      on_linking (create_or_get_value_id (fe.create_val (llvm.get_type v)) v)

  unfoldable pub get_mapped_value : FrontendId → Run (Frontend T V) ValueId
  unfolding get_value_id
  get_mapped_value v s = of_result (get_value_id s.mapper v) s

  unfoldable pub link_value : FrontendId → ValueId → Run (Frontend T V) (Unit {0})
  unfolding link_to_value_id
  link_value v id s = ok tt (record s { mapper = link_to_value_id v id s.mapper })

module _ {T V : Type 0} (llvm : Llvm T) (fe : ConstantFactory T V) where
  -- The cases of DealWithConstants. The operand of a cast that is no constant integer is a null
  -- pointer, which is read.
  unfoldable pub constant_value : FrontendId → Constant → Run (Frontend T V) ValueId
  unfolding get_mapped_value
  constant_value c (const_int n) = on_vc (fe.create_const_int_val n (llvm.get_type c))
  constant_value c const_double = on_vc (fe.create_const_float_val c (llvm.get_type c))
  constant_value c const_float = on_vc (fe.create_const_float_val c (llvm.get_type c))
  constant_value c other_fp = throw not_supported
  constant_value c null_pointer = on_vc (fe.create_const_int_val 0 (llvm.get_type c))
  constant_value c (cast_expr (some n)) = on_vc (fe.create_const_int_val n (llvm.get_type c))
  constant_value c (cast_expr none) = throw undefined_behaviour
  constant_value c (get_element_ptr_expr (some i) (some j)) =
      if i == 0 && j == 0 then on_vc (fe.create_val (llvm.get_type c)) else throw not_supported
  constant_value c (get_element_ptr_expr (some i) none) =
      if i == 0 then throw undefined_behaviour else throw not_supported
  constant_value c (get_element_ptr_expr none _) = throw undefined_behaviour
  constant_value c other_expr = throw not_supported
  constant_value c function = get_mapped_value c
  constant_value c global_variable = throw not_supported
  constant_value c other_constant = throw logic_error

  unfoldable pub deal_with_constants : List FrontendId → Run (Frontend T V) (Unit {0})
  unfolding constant_value link_value
  deal_with_constants [] = pure tt
  deal_with_constants (c ∷ cs) = do
    id ← constant_value c (llvm.constant c)
    link_value c id
    deal_with_constants cs

  unfoldable pub register_handle : FrontendId → NodeId → Run (Frontend T V) (Unit {0})
  unfolding create_or_get_value register_function to_oper_arg
  register_handle func cfg = do
    vid ← create_or_get_value llvm fe func
    λ s. ok tt (record s {
      functions =
          register_function vid
            (record { cfg = cfg; params = map (to_oper_arg llvm) (llvm.args func) }) s.functions;
    })

  -- The loop over the functions of the module; ParseFunction parses the entry block.
  unfoldable pub parse_functions : List FrontendId → Run (Frontend T V) (Unit {0})
  unfolding parse_basic_block register_handle
  parse_functions [] = pure tt
  parse_functions (func ∷ funcs) = if llvm.is_declaration func then parse_functions funcs else (do
    cfg ← on_parser (parse_basic_block llvm (llvm.get_entry_block func))
    register_handle func cfg
    parse_functions funcs)

  unfoldable pub set_main_cfg : FrontendId → Run (Frontend T V) (Unit {0})
  unfolding get_mapped_value get_function
  set_main_cfg func = do
    vid ← get_mapped_value func
    handle ← (λ s. of_result (get_function s.functions vid) s)
    λ s. ok tt (record s { main_cfg = some handle.cfg })

  -- The arguments for the call of `main`: the next one of the entry function for each parameter.
  unfoldable pub main_args :
      (params : ℕ) → (entry_args : List FrontendId) → Run (Frontend T V) (OperationArgs T)
  unfolding create_or_get_value to_oper_arg
  main_args zero entry_args = pure []
  main_args (suc params) [] = throw undefined_behaviour
  main_args (suc params) (arg ∷ entry_args) = do
    create_or_get_value llvm fe arg
    rest ← main_args params entry_args
    pure (to_oper_arg llvm arg ∷ rest)

  unfoldable pub insert_entry :
      (main : FrontendId) → EntryFunction → OperationArgs T → Run (Frontend T V) (Unit {0})
  unfolding create_empty insert_new_after to_oper_arg get_empty_oper_arg
  insert_entry main entry args = do
    start ← on_parser create_empty
    call ← on_parser (
        insert_new_after call_instr (get_empty_oper_arg llvm ∷ to_oper_arg llvm main ∷ args)
          entry.main_call start)
    (λ s. ok tt (record s { entry_point_cfg = some call }))
    on_parser (insert_new_after terminate_instr (get_empty_oper_arg llvm ∷ []) entry.fin_call call)
    pure tt

  -- The address of `main` is null, 0, in a module without it.
  unfoldable pub main_address : FrontendId
  main_address = elim llvm.main [ none ↦ 0 | some main ↦ main ]

  -- The result says whether the loop over the planned blocks has ended within the fuel.
  unfoldable pub parse_module : ℕ → EntryFunction → Run (Frontend T V) Bool
  unfolding parse_functions set_main_cfg main_args insert_entry link_planned deal_with_constants
      main_address
  parse_module fuel entry = elim llvm.functions [
    | [] ↦ throw runtime_error
    | _ ∷ _ ↦ do
      parse_functions llvm.functions
      set_main_cfg main_address
      args ← main_args entry.main_params entry.entry_args
      insert_entry main_address entry args
      ended ← on_parser (link_planned llvm fuel)
      λ s. (deal_with_constants s.parser.constants >> pure ended) s
  ]
