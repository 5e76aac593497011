-- ===== src/LlvmFrontend/Entry.antt =====
-- The nodes of the function __entry, which ParseModule of src/LlvmFrontend.cpp puts before `main`.
use angie.Common.{
  ℕ, zero, suc, ◌≡◌, refl, sym, ◌∙◌, false, Option, some, inl, [], ◌∷◌, arith, subst,
}
use angie.Common.Dict.{ℕ_key, find}
use angie.Common.Run.{Run, Outcome, ok, raise, pure, ◌>>=◌, ◌>>◌}
use angie.Common.Outcomes.{Ends, Ends-at, Ends-map}
use angie.Values.{FrontendId}
use angie.Analysis.{NodeId}
use angie.Analysis.Args.{OperationArgs}
use angie.Analysis.Instructions.{Instruction, call_instr, terminate_instr}
use angie.Llvm.{Llvm}
use angie.LlvmFrontend.{NodeKind, inner_node, terminal_node, Parser, create_empty, insert_new_after}
use angie.LlvmFrontend.Operands.{to_oper_arg, get_empty_oper_arg}
use angie.LlvmFrontend.Module.{
  ConstantFactory, Frontend, EntryFunction, parser_after, on_parser, insert_entry,
}
use angie.LlvmFrontend.Nodes.{kind_at, pointer_at, pointer_at-third}
use angie.LlvmFrontend.Nodes.Insertion.{
  Created, create_empty-Created, Inserted, insert_new_after-Inserted,
}
use angie.LlvmFrontend.Frames.{
  IsReady, Inserted-points, Inserted-Surrounding, Inserted-IsSound, Inserted-IsReady,
}
use angie.LlvmFrontend.Parsed.{next_node-old}
use angie.LlvmFrontend.Supported.{Ensures, Ensures-ok}
use angie.LlvmFrontend.Built.{Grown, Grown-Chain, Created-Grown, Created-IsReady}
use angie.LlvmFrontend.Complete.{IsBuilding}
use angie.LlvmFrontend.Chains.{Keeps}

module _ {T V : Type 0} where
  pub on_parser-Ends :
      {A : Type 0} (P : A → Parser T → Type 0) (m : Run (Parser T) A) (s : Frontend T V)
      → Ensures P (m s.parser)
      → Ends (λ a s'. P a s'.parser) (on_parser m s)
  on_parser-Ends {A} P m s h = after (m s.parser) h
    where
      after :
          (o : Outcome (Parser T) A) → Ensures P o → Ends (λ a s'. P a s'.parser) (parser_after s o)
      after (ok a p) h = h
      after (raise e p) h = tt

module _ {T V : Type 0} where
  -- The same, with the entry point, which the parser does not hold.
  pub on_parser-Ends_entry :
      {A : Type 0} (P : A → Parser T → Type 0) (m : Run (Parser T) A) (s : Frontend T V)
      → Ensures P (m s.parser)
      → Ends (λ a s'. P a s'.parser × (s'.entry_point_cfg ≡ s.entry_point_cfg)) (on_parser m s)
  on_parser-Ends_entry {A} P m s h = after (m s.parser) h
    where
      after :
          (o : Outcome (Parser T) A)
          → Ensures P o
          → Ends
              (λ a s'. P a s'.parser × (s'.entry_point_cfg ≡ s.entry_point_cfg))
              (parser_after s o)
      after (ok a p) h = (h, refl)
      after (raise e p) h = tt

module _ {T : Type 0} (llvm : Llvm T) where
  -- The nodes of the function __entry: the call of `main`, the end of the program, and a terminal
  -- node.
  pub record HasEntry (main : FrontendId) (entry : EntryFunction) (s : Parser T)
      (start : Option NodeId) : Type 0 where
    pub args : OperationArgs T
    pub call : NodeId
    pub fin : NodeId
    pub last : NodeId
    pub by_start : start ≡ some call
    pub call_node :
        kind_at s call
        ≡ some (
            inner_node call_instr
              (get_empty_oper_arg llvm ∷ to_oper_arg llvm main ∷ args)
              entry.main_call)
    pub call_next : pointer_at 0 s call ≡ some fin
    pub fin_node :
        kind_at s fin
        ≡ some (inner_node terminate_instr (get_empty_oper_arg llvm ∷ []) entry.fin_call)
    pub fin_next : pointer_at 0 s fin ≡ some last
    pub last_node : kind_at s last ≡ some terminal_node

  pub HasEntry-Keeps :
      {main : FrontendId} {entry : EntryFunction} {s s' : Parser T} {start start' : Option NodeId}
      → llvm.is_terminator entry.main_call ≡ false
      → llvm.is_terminator entry.fin_call ≡ false
      → Keeps llvm s s'
      → start' ≡ start
      → HasEntry main entry s start
      → HasEntry main entry s' start'
  HasEntry-Keeps {entry = entry} inside fin_inside keeps same has = record {
    args = has.args;
    call = has.call;
    fin = has.fin;
    last = has.last;
    by_start = same ∙ has.by_start;
    call_node = keeps.kinds has.call has.call_node;
    call_next = keeps.nexts has.call _ _ entry.main_call has.call_node (inl inside) ∙ has.call_next;
    fin_node = keeps.kinds has.fin has.fin_node;
    fin_next = keeps.nexts has.fin _ _ entry.fin_call has.fin_node (inl fin_inside) ∙ has.fin_next;
    last_node = keeps.kinds has.last has.last_node;
  }

  -- The three steps, with the nodes that they are about.
  module _ {s s₁ : Parser T} (building : IsBuilding llvm [] s) (created : Created s s₁) where
    start-IsReady : IsReady llvm [] s.next_node s₁
    start-IsReady = Created-IsReady llvm [] building.sound created

    module _ {s₂ : Parser T} {op : Instruction} {args : OperationArgs T} {instr : FrontendId}
        (inside : llvm.is_terminator instr ≡ false)
        (first : Inserted op args instr s.next_node start-IsReady.last s₁ s₂) where
      call-IsReady : IsReady llvm [] s₁.next_node s₂
      call-IsReady = Inserted-IsReady llvm [] start-IsReady first inside

      module _ {s₃ : Parser T} {op' : Instruction} {args' : OperationArgs T} {instr' : FrontendId}
          (second : Inserted op' args' instr' s₁.next_node call-IsReady.last s₂ s₃) where
        entry_mapping : s₃.copy_mapping ≡ s.copy_mapping
        entry_mapping = second.rest.mapping ∙ first.rest.mapping ∙ created.rest.mapping

        entry_queue : s₃.parse_and_link ≡ s.parse_and_link
        entry_queue = second.rest.queue ∙ first.rest.queue ∙ created.rest.queue

        entry_Grown : Grown llvm [] s s₃
        entry_Grown =
            let start = Created-Grown llvm [] building.sound created in
            let frame = Inserted-Surrounding llvm [] start-IsReady first in
            let frame' = Inserted-Surrounding llvm [] call-IsReady second in
            record {
              kinds = λ n there. frame'.kinds n (frame.kinds n (start.kinds n there));
              pointers = λ i n {kind = kind} there. kept i n kind there;
              finds = λ bb found. rw entry_mapping found;
              still = λ bb k i h. rw entry_queue h;
            }
          where
            kept :
                (i : ℕ) (n : NodeId) (kind : NodeKind T)
                → kind_at s n ≡ some kind
                → pointer_at i s₃ n ≡ pointer_at i s n
            kept zero n kind there =
                let start = Created-Grown llvm [] building.sound created in
                let frame = Inserted-Surrounding llvm [] start-IsReady first in
                let frame' = Inserted-Surrounding llvm [] call-IsReady second in
                frame'.nexts n (frame.kinds n (start.kinds n there))
                  (next_node-old llvm [] start-IsReady n (start.kinds n there))
                ∙ frame.nexts n (start.kinds n there)
                    (ground (arith, building.sound.bounded n {kind = kind}))
                ∙ start.pointers 0 n there
            kept (suc zero) n kind there =
                let start = Created-Grown llvm [] building.sound created in
                let frame = Inserted-Surrounding llvm [] start-IsReady first in
                let frame' = Inserted-Surrounding llvm [] call-IsReady second in
                frame'.others n (frame.kinds n (start.kinds n there))
                ∙ frame.others n (start.kinds n there)
                ∙ start.pointers 1 n there
            kept (suc (suc i)) n kind there = pointer_at-third i s₃ n ∙ sym (pointer_at-third i s n)

        entry_IsBuilding : IsBuilding llvm [] s₃
        entry_IsBuilding = record {
          sound = Inserted-IsSound llvm [] call-IsReady second;
          built = λ bb n found.
              Grown-Chain llvm [] entry_Grown
                (building.built bb n (subst (λ m. find bb m ≡ some n) entry_mapping found));
        }

  -- The nodes of the function __entry are added, and the blocks are as they were.
  pub record IsAdded (s s' : Parser T) : Type 0 where
    pub building : IsBuilding llvm [] s'
    pub mapping : s'.copy_mapping ≡ s.copy_mapping
    pub queue : s'.parse_and_link ≡ s.parse_and_link

  module _ {V : Type 0} where
    create_empty-Ends :
        (s : Frontend T V)
        → Ends
            (λ n s'. (n ≡ s.parser.next_node) × Created s.parser s'.parser)
            (on_parser create_empty s)
    create_empty-Ends s =
        let (p, done, created) = create_empty-Created s.parser in
        on_parser-Ends (λ n p. (n ≡ s.parser.next_node) × Created s.parser p) create_empty s
          (Ensures-ok (λ n p. (n ≡ s.parser.next_node) × Created s.parser p) s.parser.next_node p
            done (refl, created))

    insert_new_after-Ends :
        (op : Instruction) (args : OperationArgs T) (instr : FrontendId) (this : NodeId)
        (s : Frontend T V) (ready : IsReady llvm [] this s.parser)
        → Ends
            (λ n s'.
              (n ≡ s.parser.next_node)
              × (Inserted op args instr this ready.last s.parser s'.parser
                  × (s'.entry_point_cfg ≡ s.entry_point_cfg)))
            (on_parser (insert_new_after op args instr this) s)
    insert_new_after-Ends op args instr this s ready =
        let (p, done, inserted) =
          insert_new_after-Inserted op args instr this s.parser ready.points
            (ready.sound.bounded this ready.there) in
        Ends-map (on_parser (insert_new_after op args instr this) s)
          (λ n s' h. (h.0.0, (h.0.1, h.1)))
          (on_parser-Ends_entry
            (λ n p. (n ≡ s.parser.next_node) × Inserted op args instr this ready.last s.parser p)
            (insert_new_after op args instr this) s
            (Ensures-ok
              (λ n p. (n ≡ s.parser.next_node) × Inserted op args instr this ready.last s.parser p)
              s.parser.next_node p done (refl, inserted)))

  module _ {V : Type 0} (fe : ConstantFactory T V) (main : FrontendId) (entry : EntryFunction)
      (args : OperationArgs T) (inside : llvm.is_terminator entry.main_call ≡ false) where
    -- What insert_entry does with the node for the call, and with the start node.
    abbrev ended : NodeId → Run (Frontend T V) (Unit {0})
    ended call = do
      (λ s. ok tt (record s { entry_point_cfg = some call }))
      on_parser
          (insert_new_after terminate_instr (get_empty_oper_arg llvm ∷ []) entry.fin_call call)
      pure tt

    abbrev called_and_ended : NodeId → Run (Frontend T V) (Unit {0})
    called_and_ended start =
        on_parser (
          insert_new_after call_instr (get_empty_oper_arg llvm ∷ to_oper_arg llvm main ∷ args)
            entry.main_call start)
        >>= ended

    abbrev Added : (s s' : Frontend T V) → Type 0
    Added s s' = IsAdded s.parser s'.parser × HasEntry main entry s'.parser s'.entry_point_cfg

    entry-HasEntry :
        {s s₁ s₂ s₃ : Parser T} {start : Option NodeId} (building : IsBuilding llvm [] s)
        (created : Created s s₁)
        (first : Inserted call_instr
          (get_empty_oper_arg llvm ∷ to_oper_arg llvm main ∷ args)
          entry.main_call
          s.next_node
          (start-IsReady building created).last
          s₁
          s₂)
        → Inserted terminate_instr
            (get_empty_oper_arg llvm ∷ [])
            entry.fin_call
            s₁.next_node
            (call-IsReady building created inside first).last
            s₂
            s₃
        → start ≡ some s₁.next_node
        → HasEntry main entry s₃ start
    entry-HasEntry {s₁ = s₁} {s₂ = s₂} building created first second here =
        let ready = call-IsReady building created inside first in
        let frame = Inserted-Surrounding llvm [] ready second in
        record {
          args = args;
          call = s₁.next_node;
          fin = s₂.next_node;
          last = ready.last;
          by_start = here;
          call_node = frame.kinds s₁.next_node (ground (arith, first.kinds s₁.next_node));
          call_next = ground (arith, second.nexts s₁.next_node);
          fin_node = ground (arith, second.kinds s₂.next_node);
          fin_next = Inserted-points llvm [] ready second;
          last_node = frame.kinds ready.last ready.free;
        }

    pub insert_entry-IsAdded :
        (s : Frontend T V)
        → IsBuilding llvm [] s.parser
        → Ends (λ _ s'. Added s s') (insert_entry llvm fe main entry args s)
    unfolding insert_entry
    insert_entry-IsAdded s building =
        Ends-at (λ s'. Created s.parser s'.parser) (λ _ s'. Added s s') s.parser.next_node
          (on_parser create_empty s) called_and_ended (create_empty-Ends s)
          λ s₁ created.
            let ready = start-IsReady building created in
            Ends-at
              (λ s'.
                Inserted call_instr (get_empty_oper_arg llvm ∷ to_oper_arg llvm main ∷ args)
                  entry.main_call s.parser.next_node ready.last s₁.parser s'.parser
                × (s'.entry_point_cfg ≡ s₁.entry_point_cfg))
              (λ _ s'. Added s s') s₁.parser.next_node
              (on_parser
                (insert_new_after call_instr
                  (get_empty_oper_arg llvm ∷ to_oper_arg llvm main ∷ args) entry.main_call
                  s.parser.next_node)
                s₁)
              ended
              (insert_new_after-Ends call_instr
                (get_empty_oper_arg llvm ∷ to_oper_arg llvm main ∷ args) entry.main_call
                s.parser.next_node s₁ ready)
              λ s₂ (first, _).
                let ready = call-IsReady building created inside first in
                Ends-at
                  (λ s'.
                    Inserted terminate_instr (get_empty_oper_arg llvm ∷ []) entry.fin_call
                      s₁.parser.next_node ready.last s₂.parser s'.parser
                    × (s'.entry_point_cfg ≡ some s₁.parser.next_node))
                  (λ _ s'. Added s s') s₂.parser.next_node
                  (on_parser
                    (insert_new_after terminate_instr (get_empty_oper_arg llvm ∷ []) entry.fin_call
                      s₁.parser.next_node)
                    (record s₂ { entry_point_cfg = some s₁.parser.next_node }))
                  (λ _. pure tt)
                  (insert_new_after-Ends terminate_instr (get_empty_oper_arg llvm ∷ [])
                    entry.fin_call s₁.parser.next_node
                    (record s₂ { entry_point_cfg = some s₁.parser.next_node }) ready)
                  λ s₃ (second, here). (
                    record {
                      building = entry_IsBuilding building created inside first second;
                      mapping = entry_mapping building created inside first second;
                      queue = entry_queue building created inside first second;
                    },
                    entry-HasEntry building created first second here,
                  )
