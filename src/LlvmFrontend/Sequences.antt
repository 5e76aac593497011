-- ===== src/LlvmFrontend/Sequences.antt =====
-- The instructions of a block, from its first to its terminator: ParseBasicBlock of
-- src/LlvmFrontend.cpp.
use angie.Common.{
  ◌≡◌, refl, sym, ap, ◌∙◌, Bool, true, false, ◌||◌, none, some, List, [], ◌∷◌, ◌++◌, arith,
  Bool-cases, inl, inr, subst,
}
use angie.Common.Run.{Run, Result, value, error, of_result, pure, ◌>>=◌, ◌>>◌}
use angie.Values.{FrontendId}
use angie.Analysis.{NodeId}
use angie.Analysis.Args.{OperationArgs}
use angie.Analysis.Instructions.{Instruction}
use angie.Llvm.{Llvm}
use angie.LlvmFrontend.{inner_node, Parser, insert_new_after}
use angie.LlvmFrontend.Operands.{get_operation_for, get_oper_args_for_instr}
use angie.LlvmFrontend.Blocks.{
  queue_constants, args_for, insert_terminator, parse_terminator, parse_instructions,
}
use angie.LlvmFrontend.Nodes.{Unchanged, same-Unchanged, kind_at, pointer_at}
use angie.LlvmFrontend.Nodes.Insertion.{Inserted, insert_new_after-Inserted}
use angie.LlvmFrontend.Chains.{Entry, step, IsSound, length}
use angie.LlvmFrontend.Links.{Unchanged-IsSound}
use angie.LlvmFrontend.Frames.{IsReady, Inserted-Surrounding, Inserted-IsReady}
use angie.LlvmFrontend.Parsed.{Parsed, insert_terminator-Parsed, next_node-old}
use angie.LlvmFrontend.Supported.{
  Ensures, Ensures-map, Supports, get_operation_for-Supports, get_oper_args_for_instr-Supports,
}

result-Ensures :
    {S A B : Type 0} (Q : B → S → Type 0) (r : Result A) (f : A → Run S B) (s : S)
    → Supports r
    → ((a : A) → r ≡ value a → Ensures Q (f a s))
    → Ensures Q ((of_result r >>= f) s)
result-Ensures Q (value a) f s supports next = next a refl
result-Ensures Q (error e) f s supports next = supports

module _ {T : Type 0} (llvm : Llvm T) where
  -- The list has a terminator, as each block of LLVM does.
  unfoldable pub has_terminator : List FrontendId → Bool
  has_terminator [] = false
  has_terminator (instr ∷ instrs) = llvm.is_terminator instr || has_terminator instrs

  queued-Ensures :
      {B : Type 0} (Q : B → Parser T → Type 0) (instr : FrontendId)
      (f : OperationArgs T → Run (Parser T) B) (s : Parser T) (r : Result (OperationArgs T))
      → Supports r
      → ((args : OperationArgs T) (s₀ : Parser T)
          → r ≡ value args
          → Unchanged s s₀
          → s₀.parse_and_link ≡ s.parse_and_link
          → Ensures Q (f args s₀))
      → Ensures Q (((do args ← of_result r; queue_constants llvm instr; pure args) >>= f) s)
  unfolding queue_constants
  queued-Ensures Q instr f s (value args) supports next =
      next args _ refl (same-Unchanged s _ refl refl refl) refl
  queued-Ensures Q instr f s (error e) supports next = supports

  args_for-Ensures :
      {B : Type 0} (Q : B → Parser T → Type 0) (instr : FrontendId)
      (f : OperationArgs T → Run (Parser T) B) (s : Parser T)
      → ((args : OperationArgs T) (s₀ : Parser T)
          → get_oper_args_for_instr llvm instr ≡ value args
          → Unchanged s s₀
          → s₀.parse_and_link ≡ s.parse_and_link
          → Ensures Q (f args s₀))
      → Ensures Q ((args_for llvm instr >>= f) s)
  unfolding args_for
  args_for-Ensures Q instr f s next =
      queued-Ensures Q instr f s (get_oper_args_for_instr llvm instr)
        (get_oper_args_for_instr-Supports llvm instr) next

  module _ (held : List Entry) where
    Unchanged-IsReady :
        {this : NodeId} {s s₀ : Parser T}
        → Unchanged s s₀
        → s₀.parse_and_link ≡ s.parse_and_link
        → IsReady llvm held this s
        → IsReady llvm held this s₀
    Unchanged-IsReady {this} {s} {s₀} same queue ready = record {
      sound =
          subst (λ q. IsSound llvm s₀ (held ++ q)) (sym queue)
            (Unchanged-IsSound llvm same ready.sound);
      kind = ready.kind;
      there = same.kinds this ∙ ready.there;
      open_kind = ready.open_kind;
      last = ready.last;
      points = same.pointers 0 this ∙ ready.points;
      free = same.kinds ready.last ∙ ready.free;
    }

    Unchanged-Parsed :
        {this : NodeId} {instrs : List FrontendId} {s s₀ s' : Parser T}
        → Unchanged s s₀
        → s₀.parse_and_link ≡ s.parse_and_link
        → Parsed llvm held this instrs s₀ s'
        → Parsed llvm held this instrs s s'
    Unchanged-Parsed same queue parsed = record {
      frame = record {
        kinds = λ n there. parsed.frame.kinds n (same.kinds n ∙ there);
        nexts =
            λ n there other. parsed.frame.nexts n (same.kinds n ∙ there) other ∙ same.pointers 0 n;
        others = λ n there. parsed.frame.others n (same.kinds n ∙ there) ∙ same.pointers 1 n;
        mapping = parsed.frame.mapping ∙ same.mapping;
        still = λ bb k i h. parsed.frame.still bb k i (rw queue h);
      };
      sound = parsed.sound;
      longer = omega (arith, parsed.longer, ap length queue);
      first = parsed.first;
      points = parsed.points;
      chain = parsed.chain;
    }

    module _ (op : Instruction) (args : OperationArgs T) (instr : FrontendId)
        (instrs : List FrontendId) (this : NodeId) (s : Parser T)
        (ready : IsReady llvm held this s) where
      step-Parsed :
          {s₁ s' : Parser T}
          → llvm.is_terminator instr ≡ false
          → get_operation_for llvm instr ≡ value op
          → get_oper_args_for_instr llvm instr ≡ value args
          → Inserted op args instr this ready.last s s₁
          → Parsed llvm held s.next_node instrs s₁ s'
          → Parsed llvm held this (instr ∷ instrs) s s'
      step-Parsed {s₁} inside op_is args_is inserted rest =
          let frame = Inserted-Surrounding llvm held ready inserted in
          let n = s.next_node in
          let node : kind_at s₁ n ≡ some (inner_node op args instr) =
            ground (arith, inserted.kinds n) in
          let other : pointer_at 1 s₁ n ≡ none = ground (arith, inserted.others n) in
          let this_points : pointer_at 0 s₁ this ≡ some n = ground (arith, inserted.nexts this) in
          record {
            frame = record {
              kinds = λ j there. rest.frame.kinds j (frame.kinds j there);
              nexts = λ j there differs.
                  rest.frame.nexts j (frame.kinds j there) (next_node-old llvm held ready j there)
                  ∙ frame.nexts j there differs;
              others = λ j there. rest.frame.others j (frame.kinds j there) ∙ frame.others j there;
              mapping = rest.frame.mapping ∙ frame.mapping;
              still = λ bb k i h. rest.frame.still bb k i (frame.still bb k i h);
            };
            sound = rest.sound;
            longer = omega (arith, rest.longer, ap length inserted.rest.queue);
            first = n;
            points =
                rest.frame.nexts this (frame.kinds this ready.there)
                  (next_node-old llvm held ready this ready.there)
                ∙ this_points;
            chain =
                step inside op_is args_is (rest.frame.kinds n node) rest.points
                  (rest.frame.others n node ∙ other) rest.chain;
          }

    parse_terminator-Parsed :
        (instr : FrontendId) (instrs : List FrontendId) (this : NodeId) (s : Parser T)
        → llvm.is_terminator instr ≡ true
        → IsReady llvm held this s
        → Ensures
            (λ _. Parsed llvm held this (instr ∷ instrs) s)
            (parse_terminator llvm instr this s)
    unfolding parse_terminator
    parse_terminator-Parsed instr instrs this s ends ready =
        result-Ensures (λ _. Parsed llvm held this (instr ∷ instrs) s)
          (get_operation_for llvm instr)
          (λ op. args_for llvm instr >>= λ args.
            insert_terminator llvm (llvm.get_opcode instr) op args instr this)
          s (get_operation_for-Supports llvm instr)
          (λ op op_is.
            args_for-Ensures (λ _. Parsed llvm held this (instr ∷ instrs) s) instr
              (λ args. insert_terminator llvm (llvm.get_opcode instr) op args instr this) s
              (λ args s₀ args_is same queue.
                Ensures-map (λ _ s' parsed. Unchanged-Parsed same queue parsed)
                  (insert_terminator llvm (llvm.get_opcode instr) op args instr this s₀)
                  (insert_terminator-Parsed llvm held op args instr instrs this s₀
                    (Unchanged-IsReady same queue ready) ends args_is op_is (llvm.get_opcode instr)
                    refl)))

    inside-Parsed :
        (instr : FrontendId) (instrs : List FrontendId) (this : NodeId) (s : Parser T)
        → llvm.is_terminator instr ≡ false
        → IsReady llvm held this s
        → ((n : NodeId) (s₁ : Parser T)
            → IsReady llvm held n s₁
            → Ensures (λ _. Parsed llvm held n instrs s₁) (parse_instructions llvm instrs n s₁))
        → Ensures
            (λ _. Parsed llvm held this (instr ∷ instrs) s)
            ((do
              op ← of_result (get_operation_for llvm instr)
              args ← args_for llvm instr
              node ← insert_new_after op args instr this
              parse_instructions llvm instrs node)
              s)
    inside-Parsed instr instrs this s inside ready next =
        result-Ensures (λ _. Parsed llvm held this (instr ∷ instrs) s)
          (get_operation_for llvm instr)
          (λ op. args_for llvm instr >>= λ args.
            insert_new_after op args instr this >>= parse_instructions llvm instrs)
          s (get_operation_for-Supports llvm instr)
          (λ op op_is.
            args_for-Ensures (λ _. Parsed llvm held this (instr ∷ instrs) s) instr
              (λ args. insert_new_after op args instr this >>= parse_instructions llvm instrs) s
              (λ args s₀ args_is same queue.
                let ready₀ = Unchanged-IsReady same queue ready in
                let (s₁, done, inserted) =
                  insert_new_after-Inserted op args instr this s₀ ready₀.points
                    (ready₀.sound.bounded this ready₀.there) in
                rw done (
                  Ensures-map
                    (λ _ s' rest. Unchanged-Parsed same queue (
                      step-Parsed op args instr instrs this s₀ ready₀ inside op_is args_is inserted
                        rest))
                    (parse_instructions llvm instrs s₀.next_node s₁)
                    (next s₀.next_node s₁ (Inserted-IsReady llvm held ready₀ inserted inside)))))

    pub parse_instructions-Parsed :
        (instrs : List FrontendId) (this : NodeId) (s : Parser T)
        → has_terminator instrs ≡ true
        → IsReady llvm held this s
        → Ensures (λ _. Parsed llvm held this instrs s) (parse_instructions llvm instrs this s)
    unfolding parse_instructions has_terminator
    parse_instructions-Parsed [] this s has ready = absurd (ground arith)
    parse_instructions-Parsed (instr ∷ instrs) this s has ready =
        elim (Bool-cases (llvm.is_terminator instr)) [
          | inl ends ↦ rw ends (parse_terminator-Parsed instr instrs this s ends ready)
          | inr inside ↦ rw inside (
              inside-Parsed instr instrs this s inside ready
                λ n s₁ ready₁. parse_instructions-Parsed instrs n s₁ (ground arith) ready₁)
        ]
