-- ===== src/LlvmFrontend/Functions.antt =====
-- The loop over the functions of a module, in ParseModule of src/LlvmFrontend.cpp.
use angie.Common.{Option, ◌≡◌, true, List, [], ◌∷◌, arith, if◌then◌else◌, Bool-cases, inl, inr}
use angie.Common.Dict.{ℕ_key}
use angie.Common.Run.{Outcome, ok, raise, Run, ◌>>◌}
use angie.Common.Outcomes.{Ends, Ends-and_then, Ends-map, Keeps, Any, IsKeeping}
use angie.Values.{FrontendId}
use angie.Analysis.{NodeId}
use angie.Llvm.{Llvm, BlockId}
use angie.LlvmFrontend.{Parser}
use angie.LlvmFrontend.Blocks.{parse_basic_block}
use angie.LlvmFrontend.Complete.{has_block, IsBuilding}
use angie.LlvmFrontend.Rounds.{
  AreBlocks, IsParsed, parse_basic_block-IsParsed, AreParsed, AreParsed-nil, AreParsed-cons,
}
use angie.LlvmFrontend.Entry.{on_parser-Ends}
use angie.LlvmFrontend.Module.{
  ConstantFactory, Frontend, on_parser, register_handle, parse_functions,
}
use angie.LlvmFrontend.Keeping.{OfParser, register_handle-IsKeeping}

module _ {T V : Type 0} where
  pub kept-Ends :
      {A : Type 0} (P : Parser T → Option NodeId → Type 0) {m : Run (Frontend T V) A}
      (s : Frontend T V)
      → IsKeeping (OfParser P) m
      → P s.parser s.entry_point_cfg
      → Ends (λ _ s'. P s'.parser s'.entry_point_cfg) (m s)
  kept-Ends {A} P {m} s keeping h = after (m s) (keeping.holds s h)
    where
      after :
          (o : Outcome (Frontend T V) A)
          → Keeps (OfParser P) Any o
          → Ends (λ _ s'. P s'.parser s'.entry_point_cfg) o
      after (ok a s') h = h.0
      after (raise e s') h = tt

module _ {T : Type 0} (llvm : Llvm T) where
  -- The entry blocks of the functions that have a body.
  unfoldable pub entry_blocks : List FrontendId → List BlockId
  entry_blocks [] = []
  entry_blocks (func ∷ funcs) =
      if llvm.is_declaration func
      then entry_blocks funcs
      else llvm.get_entry_block func ∷ entry_blocks funcs

  module _ {V : Type 0} (fe : ConstantFactory T V) (blocks : List BlockId)
      (are : AreBlocks llvm blocks) where
    pub parse_functions-AreParsed :
        (funcs : List FrontendId) (s : Frontend T V)
        → IsBuilding llvm [] s.parser
        → ((bb : BlockId) → has_block (entry_blocks funcs) bb ≡ true → has_block blocks bb ≡ true)
        → Ends
            (λ _ s'. AreParsed llvm blocks are (entry_blocks funcs) s.parser s'.parser)
            (parse_functions llvm fe funcs s)
    unfolding parse_functions entry_blocks has_block
    parse_functions-AreParsed [] s building known = AreParsed-nil llvm blocks are s.parser building
    parse_functions-AreParsed (func ∷ funcs) s building known =
        elim (Bool-cases (llvm.is_declaration func)) [
          | inl declared ↦
              rw declared
                (parse_functions-AreParsed funcs s building λ bb h. known bb (rw declared h))
          | inr defined ↦
              let bb = llvm.get_entry_block func in
              rw defined (
                Ends-and_then (λ cfg s₁. IsParsed llvm blocks are [] bb s.parser cfg s₁.parser)
                  (λ _ s'. AreParsed llvm blocks are (bb ∷ entry_blocks funcs) s.parser s'.parser)
                  (on_parser (parse_basic_block llvm bb) s)
                  (λ cfg. register_handle llvm fe func cfg >> parse_functions llvm fe funcs)
                  (on_parser-Ends (IsParsed llvm blocks are [] bb s.parser)
                    (parse_basic_block llvm bb) s
                    (parse_basic_block-IsParsed llvm blocks are [] bb s.parser building
                      (known bb (rw defined (ground arith)))))
                  λ cfg s₁ first.
                    Ends-and_then (λ _ s₂. IsParsed llvm blocks are [] bb s.parser cfg s₂.parser)
                      (λ _ s'.
                        AreParsed llvm blocks are (bb ∷ entry_blocks funcs) s.parser s'.parser)
                      (register_handle llvm fe func cfg s₁) (λ _. parse_functions llvm fe funcs)
                      (kept-Ends (λ p _. IsParsed llvm blocks are [] bb s.parser cfg p) s₁
                        (register_handle-IsKeeping
                          (λ p _. IsParsed llvm blocks are [] bb s.parser cfg p) llvm fe func cfg)
                        first)
                      λ _ s₂ parsed.
                        Ends-map (parse_functions llvm fe funcs s₂)
                          (λ _ s' rest.
                            AreParsed-cons llvm blocks are bb (entry_blocks funcs) parsed rest)
                          (parse_functions-AreParsed funcs s₂ parsed.building
                            λ b h. known b (rw defined (ground arith))))
        ]
