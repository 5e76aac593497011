-- ===== src/LlvmFrontend/Frames.antt =====
-- The nodes that are already there, while ParseBasicBlock of src/LlvmFrontend.cpp inserts others.
use angie.Common.{
  ℕ, zero, suc, ◌<◌, ◌≡◌, refl, sym, ◌∙◌, Bool, true, false, not, none, some, List, ◌++◌, ◌==◌,
  arith, Option-cases, inl, inr, ==_iff, subst,
}
use angie.Common.Dict.{ℕ_key, find}
use angie.Values.{FrontendId}
use angie.Analysis.{NodeId}
use angie.Analysis.Args.{OperationArgs}
use angie.Analysis.Instructions.{Instruction}
use angie.Llvm.{Llvm, BlockId}
use angie.LlvmFrontend.{NodeKind, start_node, terminal_node, inner_node, Parser}
use angie.LlvmFrontend.Nodes.{kind_at, pointer_at, pointer_at-third}
use angie.LlvmFrontend.Nodes.Insertion.{Inserted, Branched}
use angie.LlvmFrontend.Chains.{Entry, is_planned, IsSound}
use angie.LlvmFrontend.Links.{ArePending-map}

module _ {T : Type 0} (llvm : Llvm T) (held : List Entry) where
  -- A node after which another one may be inserted.
  unfoldable pub is_open : NodeKind T → Bool
  is_open start_node = true
  is_open terminal_node = false
  is_open (inner_node _ _ instr) = not (llvm.is_terminator instr)

  -- The node in hand is the last one before a terminal node.
  pub record IsReady (this : NodeId) (s : Parser T) : Type 0 where
    pub sound : IsSound llvm s (held ++ s.parse_and_link)
    pub kind : NodeKind T
    pub there : kind_at s this ≡ some kind
    pub open_kind : is_open kind ≡ true
    pub last : NodeId
    pub points : pointer_at 0 s this ≡ some last
    pub free : kind_at s last ≡ some terminal_node

  -- The nodes that were there are as they were, but for the successor of `this`.
  pub record Surrounding (this : NodeId) (s s' : Parser T) : Type 0 where
    pub kinds :
        (n : NodeId) {kind : NodeKind T} → kind_at s n ≡ some kind → kind_at s' n ≡ some kind
    pub nexts :
        (n : NodeId) {kind : NodeKind T}
        → kind_at s n ≡ some kind
        → (this == n) ≡ false
        → pointer_at 0 s' n ≡ pointer_at 0 s n
    pub others :
        (n : NodeId) {kind : NodeKind T}
        → kind_at s n ≡ some kind
        → pointer_at 1 s' n ≡ pointer_at 1 s n
    pub mapping : s'.copy_mapping ≡ s.copy_mapping
    pub still :
        (bb : BlockId) (k : NodeId) (i : ℕ)
        → is_planned bb k i (held ++ s.parse_and_link) ≡ true
        → is_planned bb k i (held ++ s'.parse_and_link) ≡ true

  module _ {this : NodeId} {s : Parser T} (ready : IsReady this s) where
    not_this :
        (n : NodeId) {op : Instruction} {args : OperationArgs T} {instr : FrontendId}
        → kind_at s n ≡ some (inner_node op args instr)
        → llvm.is_terminator instr ≡ true
        → (this == n) ≡ false
    unfolding is_open
    not_this n node ends = ground (arith, ready.there, ready.open_kind, ==_iff this n)

    Surrounding-pointer :
        {s' : Parser T}
        → Surrounding this s s'
        → (i : ℕ) (n : NodeId) {op : Instruction} {args : OperationArgs T} {instr : FrontendId}
        → kind_at s n ≡ some (inner_node op args instr)
        → llvm.is_terminator instr ≡ true
        → pointer_at i s' n ≡ pointer_at i s n
    Surrounding-pointer frame zero n node ends = frame.nexts n node (not_this n node ends)
    Surrounding-pointer frame (suc zero) n node ends = frame.others n node
    Surrounding-pointer {s'} frame (suc (suc i)) n node ends =
        pointer_at-third i s' n ∙ sym (pointer_at-third i s n)

    Surrounding-IsSound :
        {s' : Parser T}
        → Surrounding this s s'
        → ((n : NodeId) (kind : NodeKind T) → kind_at s' n ≡ some kind → n < s'.next_node)
        → ((n : NodeId) → kind_at s' n ≡ some terminal_node → pointer_at 0 s' n ≡ none)
        → IsSound llvm s' (held ++ s.parse_and_link)
    Surrounding-IsSound {s'} frame bounded terminals = record {
      bounded = λ n {kind = kind}. bounded n kind;
      terminals = terminals;
      mapped = λ bb {n = n} found.
          let (kind, there) =
            ready.sound.mapped bb (subst (λ m. find bb m ≡ some n) frame.mapping found) in
          (kind, frame.kinds n there);
      pending =
          ArePending-map llvm (held ++ s.parse_and_link)
            (λ bb k i _ h. record {
              op = h.op;
              args = h.args;
              instr = h.instr;
              unlinked = h.unlinked;
              node = frame.kinds k h.node;
              opcode = h.opcode;
              ends = h.ends;
              successor = h.successor;
              points = Surrounding-pointer frame i k h.node h.ends ∙ h.points;
              free = frame.kinds h.unlinked h.free;
            })
            ready.sound.pending;
      distinct = ready.sound.distinct;
    }

    -- The address of the next node is not in use.
    pub next_node-new : kind_at s s.next_node ≡ none
    next_node-new = elim (Option-cases (kind_at s s.next_node)) [
      | inl missing ↦ missing
      | inr (kind, there) ↦ absurd (omega (arith, ready.sound.bounded s.next_node there))
    ]

    module _ {op : Instruction} {args : OperationArgs T} {instr : FrontendId} {s' : Parser T} where
      module _ (inserted : Inserted op args instr this ready.last s s') where
        pub Inserted-Surrounding : Surrounding this s s'
        Inserted-Surrounding = record {
          kinds = λ n there. ground (arith, inserted.kinds n, ready.sound.bounded n there);
          nexts = λ n there other. ground (arith, inserted.nexts n, ready.sound.bounded n there);
          others = λ n there. ground (arith, inserted.others n, ready.sound.bounded n there);
          mapping = inserted.rest.mapping;
          still = λ bb k i h. rw inserted.rest.queue h;
        }

        pub Inserted-IsSound : IsSound llvm s' (held ++ s'.parse_and_link)
        unfolding is_open
        Inserted-IsSound =
            subst (λ q. IsSound llvm s' (held ++ q)) (sym inserted.rest.queue)
              (Surrounding-IsSound Inserted-Surrounding
                (λ n kind there. ground (
                  arith,
                  inserted.kinds n,
                  inserted.next_node,
                  ready.sound.bounded n {kind = kind},
                ))
                (λ n last. ground (
                  arith,
                  inserted.kinds n,
                  inserted.nexts n,
                  ready.sound.terminals n,
                  ready.there,
                  ready.open_kind,
                  ==_iff this n,
                )))

        this_old : (this == s.next_node) ≡ false
        this_old = ground (arith, ready.sound.bounded this ready.there)

        pub Inserted-points : pointer_at 0 s' s.next_node ≡ some ready.last
        Inserted-points = ground (arith, inserted.nexts s.next_node, this_old)

        -- The new node is in hand next.
        pub Inserted-IsReady : llvm.is_terminator instr ≡ false → IsReady s.next_node s'
        unfolding is_open
        Inserted-IsReady inside = record {
          sound = Inserted-IsSound;
          kind = inner_node op args instr;
          there = ground (arith, inserted.kinds s.next_node);
          open_kind = rw inside refl;
          last = ready.last;
          points = Inserted-points;
          free = Inserted-Surrounding.kinds ready.last ready.free;
        }

      module _ (branched : Branched op args instr this ready.last s s') where
        pub Branched-Surrounding : Surrounding this s s'
        Branched-Surrounding = record {
          kinds = λ n there. ground (arith, branched.kinds n, ready.sound.bounded n there);
          nexts = λ n there other. ground (arith, branched.nexts n, ready.sound.bounded n there);
          others = λ n there. ground (arith, branched.others n, ready.sound.bounded n there);
          mapping = branched.rest.mapping;
          still = λ bb k i h. rw branched.rest.queue h;
        }

        pub Branched-IsSound : IsSound llvm s' (held ++ s'.parse_and_link)
        unfolding is_open
        Branched-IsSound =
            subst (λ q. IsSound llvm s' (held ++ q)) (sym branched.rest.queue)
              (Surrounding-IsSound Branched-Surrounding
                (λ n kind there. ground (
                  arith,
                  branched.kinds n,
                  branched.next_node,
                  ready.sound.bounded n {kind = kind},
                ))
                (λ n last. ground (
                  arith,
                  branched.kinds n,
                  branched.nexts n,
                  ready.sound.terminals n,
                  ready.there,
                  ready.sound.bounded this ready.there,
                  ready.open_kind,
                  ==_iff this n,
                )))
