-- ===== src/LlvmFrontend/Tests.antt =====
-- A module with a loop of two blocks and a block after it, and the theorems about the parser at it.
use angie.Common.{
  ℕ, ◌+◌, ◌-◌, ◌≤◌, ◌≡◌, refl, true, false, ◌||◌, Option, none, some, List, [], ◌∷◌, ◌==◌, arith,
  if◌then◌else◌,
}
use angie.Common.Dict.{ℕ_key, find, assign}
use angie.Common.Run.{Outcome, ok, raise, value}
use angie.Common.Words.{modulus}
use angie.LlvmFrontend.Operands.{icmp_flags}
use angie.ValueContainer.Compare.{compare_constants}
use angie.LlvmFrontend.Predicates.{IsIcmp, icmp_holds, icmp_flags-compare}
use angie.Common.Outcomes.{Ends}
use angie.Llvm.{Llvm, BlockId, other_constant, ret, br, alloca, icmp_eq, icmp_ugt, icmp_sgt}
use angie.LlvmFrontend.{Parser}
use angie.LlvmFrontend.Blocks.{parse_basic_block, link_planned}
use angie.LlvmFrontend.Supported.{Ensures}
use angie.LlvmFrontend.Sequences.{has_terminator}
use angie.LlvmFrontend.Complete.{has_block, unparsed}
use angie.LlvmFrontend.Entry.{HasEntry}
use angie.LlvmFrontend.Module.{main_address, ConstantFactory, Frontend, EntryFunction, parse_module}
use angie.LlvmFrontend.Rounds.{AreBlocks, IsParsed, parse_basic_block-IsParsed, work}
use angie.LlvmFrontend.Rounds.Loop.{IsEnded, link_planned-IsEnded}
use angie.LlvmFrontend.Refinement.{IsNew, IsNew-IsBuilding, IsRefinement, parse_module-IsRefinement}
use angie.LlvmFrontend.Functions.{entry_blocks}

-- `main` is 1. Its first block allocates and branches to the two others, of which one branches back
-- and one returns.
abbrev looping : Llvm ℕ
looping = record {
  get_type = λ v. 0;
  is_void_ty = λ v. false;
  is_constant = λ v. false;
  constant = λ v. other_constant;
  void_type = 0;
  get_opcode = λ i. if i == 10 then alloca else if i == 11 then br else if i == 20 then br else ret;
  is_terminator = λ i. i == 11 || i == 20 || i == 30;
  operands = λ i. [];
  get_called_function = λ i. none;
  get_called_value = λ i. 0;
  arg_operands = λ i. [];
  is_unsigned = λ i. false;
  is_true_when_equal = λ i. true;
  get_unsigned_predicate = λ i. icmp_eq;
  is_overflowing = λ i. false;
  has_no_signed_wrap = λ i. false;
  has_no_unsigned_wrap = λ i. false;
  is_exact = λ i. false;
  accumulate_constant_offset = λ i. none;
  is_unconditional = λ i. i == 20;
  get_successor = λ i index. if i == 20 then 1 else if index == 0 then 2 else 3;
  instructions = λ bb. if bb == 1 then 10 ∷ 11 ∷ [] else if bb == 2 then 20 ∷ [] else 30 ∷ [];
  is_intrinsic = λ f. false;
  get_name = λ f. "main";
  is_declaration = λ f. false;
  get_entry_block = λ f. 1;
  args = λ f. [];
  functions = 1 ∷ [];
  main = some 1;
}

abbrev blocks : List BlockId
blocks = 1 ∷ 2 ∷ 3 ∷ []

looping-AreBlocks : AreBlocks looping blocks
unfolding has_block has_terminator
looping-AreBlocks = record {
  terminated = λ bb known. ground arith;
  closed = λ instr index opcode. ground arith;
}

entries_known :
    (bb : BlockId)
    → has_block (entry_blocks looping looping.functions) bb ≡ true
    → has_block blocks bb ≡ true
unfolding has_block entry_blocks
entries_known bb h = ground arith

abbrev counter : ConstantFactory ℕ ℕ
counter = record {
  create_val = λ t n. ok n (n + 1);
  create_const_int_val = λ v t n. ok n (n + 1);
  create_const_float_val = λ c t n. ok n (n + 1);
}

abbrev new_parser : Parser ℕ
new_parser = record {
  nodes = [];
  next_node = 100;
  copy_mapping = [];
  parse_and_link = [];
  constants = [];
}

new_parser-IsNew : IsNew looping new_parser
new_parser-IsNew = record { nodes = refl; mapping = refl; queue = refl }

abbrev new_frontend : Frontend ℕ ℕ
new_frontend = record {
  parser = new_parser;
  mapper = [];
  vc = 500;
  functions = [];
  entry_point_cfg = none;
  main_cfg = none;
}

abbrev entry_function : EntryFunction
entry_function = record { entry_args = []; main_params = 0; main_call = 40; fin_call = 41 }

abbrev result_of : {S A : Type 0} → Outcome S A → Option A
result_of (ok a s) = some a
result_of (raise e s) = none

abbrev state_of : {S A : Type 0} → Outcome S A → S
state_of (ok a s) = s
state_of (raise e s) = s

-- The loop over the planned blocks ends, and no exception is thrown.
parse_module_ends :
    result_of (parse_module looping counter 6 entry_function new_frontend) ≡ some true
unfolding parse_module
parse_module_ends = refl

parse_module-IsRefinement_example :
    Ends
      (λ ended s'.
        (ended ≡ true)
        × (IsRefinement looping s'.parser
            × HasEntry looping
                (main_address looping counter)
                entry_function
                s'.parser
                s'.entry_point_cfg))
      (parse_module looping counter 6 entry_function new_frontend)
parse_module-IsRefinement_example =
    parse_module-IsRefinement looping counter blocks looping-AreBlocks entries_known entry_function
      refl refl 6 new_frontend new_parser-IsNew (omega arith)

abbrev after_entry : Parser ℕ
after_entry = state_of (parse_basic_block looping 1 new_parser)

after_entry-IsParsed : IsParsed looping blocks looping-AreBlocks [] 1 new_parser 102 after_entry
unfolding parse_basic_block has_block find assign
after_entry-IsParsed =
    parse_basic_block-IsParsed looping blocks looping-AreBlocks [] 1 new_parser
      (IsNew-IsBuilding looping new_parser new_parser-IsNew) refl

after_entry-work : work looping blocks looping-AreBlocks after_entry ≤ 6
unfolding work parse_basic_block unparsed find assign
after_entry-work = omega arith

link_planned-IsEnded_example :
    Ensures
      (IsEnded looping blocks looping-AreBlocks after_entry)
      (link_planned looping 6 after_entry)
link_planned-IsEnded_example =
    link_planned-IsEnded looping blocks looping-AreBlocks 6 after_entry
      after_entry-IsParsed.building after_entry-work

-- The same module, where each comparison is the signed `>`.
abbrev greater : Llvm ℕ
greater = record looping { is_true_when_equal = λ i. false; get_unsigned_predicate = λ i. icmp_ugt }

greater-IsIcmp : IsIcmp greater 12 icmp_sgt
greater-IsIcmp = record { by_sign = refl; by_equal = refl; by_order = refl }

-- 5 and -1.
icmp_flags-compare_example :
    compare_constants (icmp_flags greater 12) 5 (modulus - 1) 5 (modulus - 1)
    ≡ value (some (icmp_holds icmp_sgt 5 (modulus - 1)))
icmp_flags-compare_example =
    icmp_flags-compare greater 12 icmp_sgt greater-IsIcmp 5 (modulus - 1) (omega arith)
      (omega arith)
