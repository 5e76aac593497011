-- ===== src/LlvmFrontend/Refinement.antt =====
-- The control flow graph that ParseModule of src/LlvmFrontend.cpp builds, against the blocks of the
-- module.
use angie.Common.{
  Option, ℕ, ◌*◌, ◌≤◌, ◌≡◌, refl, ap, Bool, true, false, none, some, List, [], ◌∷◌, arith, inl, inr,
  subst,
}
use angie.Common.Dict.{ℕ_key, find}
use angie.Common.Run.{Run, pure, throw, runtime_error, ◌>>=◌, ◌>>◌}
use angie.Common.Outcomes.{Ends, Ends-and_then, Ends-map}
use angie.Values.{FrontendId}
use angie.Analysis.{NodeId}
use angie.Analysis.Args.{OperationArgs}
use angie.Llvm.{Llvm, BlockId}
use angie.LlvmFrontend.{Parser}
use angie.LlvmFrontend.Blocks.{link_planned}
use angie.LlvmFrontend.Nodes.{kind_at, pointer_at}
use angie.LlvmFrontend.Chains.{
  IsTarget, AreBuilt, Chain, Chain-Keeps, is_planned, same-Keeps, length,
}
use angie.LlvmFrontend.Complete.{has_block, unparsed-length, IsBuilding}
use angie.LlvmFrontend.Rounds.{AreBlocks, work, KeepsBlocks, AreParsed, KeepsBlocks}
use angie.LlvmFrontend.Rounds.Loop.{IsEnded, link_planned-IsEnded}
use angie.LlvmFrontend.Entry.{HasEntry, HasEntry-Keeps, on_parser-Ends_entry, insert_entry-IsAdded}
use angie.LlvmFrontend.Module.{
  ConstantFactory, Frontend, EntryFunction, on_parser, parse_functions, set_main_cfg, main_args,
  insert_entry, main_address, parse_module, deal_with_constants,
}
use angie.LlvmFrontend.Keeping.{
  set_main_cfg-IsKeeping, main_args-IsKeeping, deal_with_constants-IsKeeping,
}
use angie.LlvmFrontend.Functions.{kept-Ends, entry_blocks, parse_functions-AreParsed}

module _ {T : Type 0} (llvm : Llvm T) where
  -- The pointer leads to the first node of the block.
  abbrev pub LeadsTo : Parser T → NodeId → ℕ → BlockId → Type 0
  LeadsTo s n index bb =
      (t : NodeId) × (pointer_at index s n ≡ some t) × (find bb s.copy_mapping ≡ some t)

  -- The graph is that of the module: each function's entry block is parsed, each parsed block is the
  -- chain of its instructions, and each branch leads to the first nodes of its successors.
  pub record IsRefinement (s : Parser T) : Type 0 where
    pub entries :
        (bb : BlockId)
        → has_block (entry_blocks llvm llvm.functions) bb ≡ true
        → (n : NodeId) × (find bb s.copy_mapping ≡ some n)
    pub chains :
        (bb : BlockId) (n : NodeId)
        → find bb s.copy_mapping ≡ some n
        → Chain llvm s (LeadsTo s) n (llvm.instructions bb)

  -- A parser of which nothing has been parsed.
  pub record IsNew (s : Parser T) : Type 0 where
    pub nodes : s.nodes ≡ []
    pub mapping : s.copy_mapping ≡ []
    pub queue : s.parse_and_link ≡ []

  no_node : (s : Parser T) → s.nodes ≡ [] → (n : NodeId) → kind_at s n ≡ none
  unfolding kind_at find
  no_node s empty n = rw empty refl

  no_block : (s : Parser T) → s.copy_mapping ≡ [] → (bb : BlockId) → find bb s.copy_mapping ≡ none
  unfolding find
  no_block s empty bb = rw empty refl

  pub IsNew-IsBuilding : (s : Parser T) → IsNew s → IsBuilding llvm [] s
  IsNew-IsBuilding s new = record {
    sound = record {
      bounded = λ n there. absurd (ground (arith, no_node s new.nodes n));
      terminals = λ n last. absurd (ground (arith, no_node s new.nodes n));
      mapped = λ bb found. absurd (ground (arith, no_block s new.mapping bb));
      pending = rw new.queue tt;
      distinct = rw new.queue tt;
    };
    built = λ bb n found. absurd (ground (arith, no_block s new.mapping bb));
  }

  -- With no link left to do, each branch leads to its successors.
  IsTarget-LeadsTo :
      (s : Parser T) (n : NodeId) (index : ℕ) (bb : BlockId)
      → IsTarget s [] n index bb
      → LeadsTo s n index bb
  unfolding is_planned
  IsTarget-LeadsTo s n index bb (t, points, inl mapped) = (t, points, mapped)
  IsTarget-LeadsTo s n index bb (t, points, inr (free, planned)) = absurd (ground arith)

  built-chains :
      (s : Parser T)
      → s.parse_and_link ≡ []
      → IsBuilding llvm [] s
      → (bb : BlockId) (n : NodeId) → find bb s.copy_mapping ≡ some n
      → Chain llvm s (LeadsTo s) n (llvm.instructions bb)
  built-chains s empty building bb n found =
      Chain-Keeps llvm (same-Keeps llvm s)
        (λ k index op args instr node target.
          IsTarget-LeadsTo s k index (llvm.get_successor instr index) target)
        (subst (λ q. AreBuilt llvm s q) empty building.built bb n found)

  module _ {V : Type 0} (fe : ConstantFactory T V) (blocks : List BlockId)
      (are : AreBlocks llvm blocks)
      (known : (bb : BlockId)
        → has_block (entry_blocks llvm llvm.functions) bb ≡ true
        → has_block blocks bb ≡ true)
      (entry : EntryFunction) (inside : llvm.is_terminator entry.main_call ≡ false)
      (fin_inside : llvm.is_terminator entry.fin_call ≡ false) where
    -- The node of the call of `main` is the entry point.
    abbrev HasStart : Parser T → Option NodeId → Type 0
    HasStart = HasEntry llvm (main_address llvm fe) entry

    -- What ParseModule yields.
    abbrev Refined : Frontend T V → Type 0
    Refined s = IsRefinement s.parser × HasStart s.parser s.entry_point_cfg

    -- The parser before the loop over the planned blocks, and after it.
    IsPlanned : ℕ → Parser T → Type 0
    IsPlanned fuel s =
        IsBuilding llvm [] s
        × (work llvm blocks are s ≤ fuel)
        × ((bb : BlockId)
            → has_block (entry_blocks llvm llvm.functions) bb ≡ true
            → (n : NodeId) × (find bb s.copy_mapping ≡ some n))

    linked-Refined :
        (s : Frontend T V)
        → ((bb : BlockId)
            → has_block (entry_blocks llvm llvm.functions) bb ≡ true
            → (n : NodeId) × (find bb s.parser.copy_mapping ≡ some n))
        → HasStart s.parser s.entry_point_cfg
        → (ended : Bool) (s' : Frontend T V) → IsEnded llvm blocks are s.parser ended s'.parser
        → s'.entry_point_cfg ≡ s.entry_point_cfg
        → (ended ≡ true) × Refined s'
    unfolding KeepsBlocks
    linked-Refined s found start ended s' done same = (
      done.by_test,
      (
        record {
          entries = λ bb h. let (n, at) = found bb h in (n, done.keeps bb n at);
          chains = built-chains s'.parser done.empty done.building;
        },
        HasEntry-Keeps llvm inside fin_inside done.nodes same start,
      ),
    )

    linked-Ends :
        (fuel : ℕ) (s : Frontend T V)
        → IsPlanned fuel s.parser
        → HasStart s.parser s.entry_point_cfg
        → Ends
            (λ ended s'. (ended ≡ true) × Refined s')
            ((do
              ended ← on_parser (link_planned llvm fuel)
              λ s. (deal_with_constants llvm fe s.parser.constants >> pure ended) s)
              s)
    unfolding IsPlanned
    linked-Ends fuel s (building, enough, found) start =
        Ends-and_then (λ ended s'. (ended ≡ true) × Refined s')
          (λ ended s'. (ended ≡ true) × Refined s') (on_parser (link_planned llvm fuel) s)
          (λ ended s. (deal_with_constants llvm fe s.parser.constants >> pure ended) s)
          (Ends-map (on_parser (link_planned llvm fuel) s)
            (λ ended s' done. linked-Refined s found start ended s' done.0 done.1)
            (on_parser-Ends_entry (IsEnded llvm blocks are s.parser) (link_planned llvm fuel) s
              (link_planned-IsEnded llvm blocks are fuel s.parser building enough)))
          λ ended s' done.
            Ends-and_then (λ _ s''. Refined s'') (λ ended' s''. (ended' ≡ true) × Refined s'')
              (deal_with_constants llvm fe s'.parser.constants s') (λ _. pure ended)
              (kept-Ends (λ p start. IsRefinement p × HasStart p start) s'
                (deal_with_constants-IsKeeping (λ p start. IsRefinement p × HasStart p start) llvm
                  fe s'.parser.constants)
                done.1)
              λ _ s'' refined. (done.0, refined)

    entry-Ends :
        (fuel : ℕ) (s : Frontend T V)
        → IsPlanned fuel s.parser
        → (args : OperationArgs T)
        → Ends
            (λ _ s'. IsPlanned fuel s'.parser × HasStart s'.parser s'.entry_point_cfg)
            (insert_entry llvm fe (main_address llvm fe) entry args s)
    unfolding IsPlanned work
    entry-Ends fuel s (building, enough, found) args =
        Ends-map (insert_entry llvm fe (main_address llvm fe) entry args s)
          (λ _ s' (added, start). (
            (added.building, rw (added.mapping, added.queue) enough, rw added.mapping found),
            start,
          ))
          (insert_entry-IsAdded llvm fe (main_address llvm fe) entry args inside s building)

    -- The cases on the functions of the module.
    nonempty-Ends :
        {A S : Type 0} (Q : A → S → Type 0) (funcs : List FrontendId) (m n : Run S A) (s : S)
        → Ends Q (m s)
        → Ends Q (n s)
        → Ends Q ((elim funcs as (λ _. Run S A) [ [] ↦ m | _ ∷ _ ↦ n ]) s)
    nonempty-Ends Q [] m n s h h' = h
    nonempty-Ends Q (_ ∷ _) m n s h h' = h'

    parsed-IsPlanned :
        (fuel : ℕ) (s : Parser T)
        → IsNew s
        → 2 * length blocks ≤ fuel
        → (s' : Parser T) → AreParsed llvm blocks are (entry_blocks llvm llvm.functions) s s'
        → IsPlanned fuel s'
    unfolding IsPlanned work
    parsed-IsPlanned fuel s new enough s' parsed = (
      parsed.building,
      omega (arith, parsed.less, ap length new.queue, unparsed-length s.copy_mapping blocks),
      parsed.found,
    )

    -- ParseModule, for a module whose blocks end in terminators and branch to each other, with a
    -- parser of which nothing has been parsed, and fuel for two rounds for each block: where it ends
    -- without an exception, the loop over the planned blocks has ended, the entry block of each
    -- function with a body is parsed, each parsed block is the chain of the nodes for its
    -- instructions, and each pointer of a branch leads to the first node of the successor; the entry
    -- point is the node of the call of `main`, and after it stand the node that ends the program and a
    -- terminal node. The two calls are no terminators.
    pub parse_module-IsRefinement :
        (fuel : ℕ) (s : Frontend T V)
        → IsNew s.parser
        → 2 * length blocks ≤ fuel
        → Ends (λ ended s'. (ended ≡ true) × Refined s') (parse_module llvm fe fuel entry s)
    unfolding parse_module
    parse_module-IsRefinement fuel s new enough =
        let Q : Bool → Frontend T V → Type 0 = λ ended s'. (ended ≡ true) × Refined s' in
        nonempty-Ends Q llvm.functions (throw runtime_error) _ s tt (
          Ends-and_then (λ _ s'. IsPlanned fuel s'.parser) Q
            (parse_functions llvm fe llvm.functions s) _
            (Ends-map (parse_functions llvm fe llvm.functions s)
              (λ _ s'. parsed-IsPlanned fuel s.parser new enough s'.parser)
              (parse_functions-AreParsed llvm fe blocks are llvm.functions s
                (IsNew-IsBuilding s.parser new) known))
            λ _ s₁ planned.
              Ends-and_then (λ _ s'. IsPlanned fuel s'.parser) Q
                (set_main_cfg llvm fe (main_address llvm fe) s₁) _
                (kept-Ends (λ p _. IsPlanned fuel p) s₁
                  (set_main_cfg-IsKeeping (λ p _. IsPlanned fuel p) llvm fe (main_address llvm fe))
                  planned)
                λ _ s₂ planned.
                  Ends-and_then (λ _ s'. IsPlanned fuel s'.parser) Q
                    (main_args llvm fe entry.main_params entry.entry_args s₂) _
                    (kept-Ends (λ p _. IsPlanned fuel p) s₂
                      (main_args-IsKeeping (λ p _. IsPlanned fuel p) llvm fe entry.main_params
                        entry.entry_args)
                      planned)
                    λ args s₃ planned.
                      Ends-and_then
                        (λ _ s'. IsPlanned fuel s'.parser × HasStart s'.parser s'.entry_point_cfg) Q
                        (insert_entry llvm fe (main_address llvm fe) entry args s₃) _
                        (entry-Ends fuel s₃ planned args)
                        λ _ s₄ (planned, start). linked-Ends fuel s₄ planned start)
