-- ===== src/LlvmFrontend/Parsed.antt =====
-- ParseBasicBlock of src/LlvmFrontend.cpp: the chain of a block, and what is left of the others.
use angie.Common.{
  ℕ, ◌+◌, ◌≤◌, ◌≡◌, refl, ap, ◌∙◌, true, false, ◌&&◌, none, some, List, ◌∷◌, ◌++◌, ◌==◌, arith,
  Bool-cases, inl, inr,
}
use angie.Common.Dict.{ℕ_key}
use angie.Common.Run.{ok, value, pure, ◌>>◌}
use angie.Values.{FrontendId}
use angie.Analysis.{NodeId}
use angie.Analysis.Args.{OperationArgs}
use angie.Analysis.Instructions.{Instruction, noop_instr}
use angie.Llvm.{Llvm, BlockId, Opcode, ret, br}
use angie.LlvmFrontend.{NodeKind, terminal_node, inner_node, Parser, insert_new_after}
use angie.LlvmFrontend.Operands.{get_operation_for, get_oper_args_for_instr}
use angie.LlvmFrontend.Blocks.{
  link_with_or_plan_processing, parse_jump, parse_branch, insert_terminator,
}
use angie.LlvmFrontend.Nodes.{kind_at, pointer_at}
use angie.LlvmFrontend.Nodes.Insertion.{
  Branched, insert_new_after-Inserted, insert_new_branch_after-Branched,
}
use angie.LlvmFrontend.Chains.{
  Entry, is_planned_link, makes_node, IsPending, IsSound, IsTarget, Chain, jump, branch, return,
  dropped, length,
}
use angie.LlvmFrontend.Links.{Planned, link_with_or_plan_processing-Planned, is_planned_link-new}
use angie.LlvmFrontend.Frames.{
  IsReady, Surrounding, next_node-new, Inserted-Surrounding, Inserted-IsSound, Inserted-points,
  Branched-Surrounding, Branched-IsSound,
}
use angie.LlvmFrontend.Supported.{Ensures}

module _ {T : Type 0} (llvm : Llvm T) where
  module _ (held : List Entry) where
    -- The chain that stands after `this`, and what has not changed.
    pub record Parsed (this : NodeId) (instrs : List FrontendId) (s s' : Parser T) : Type 0 where
      pub frame : Surrounding llvm held this s s'
      pub sound : IsSound llvm s' (held ++ s'.parse_and_link)
      pub longer : length s'.parse_and_link ≤ length s.parse_and_link + 2
      pub first : NodeId
      pub points : pointer_at 0 s' this ≡ some first
      pub chain : Chain llvm s' (IsTarget s' (held ++ s'.parse_and_link)) first instrs

    module _ {this : NodeId} {s : Parser T} (ready : IsReady llvm held this s) where
      pub next_node-old :
          (n : NodeId) {kind : NodeKind T} → kind_at s n ≡ some kind → (s.next_node == n) ≡ false
      next_node-old n there = ground (arith, ready.sound.bounded n there)

      Planned-Surrounding :
          {bb : BlockId} {index : ℕ} {s₁ s' : Parser T}
          → Surrounding llvm held this s s₁
          → Planned llvm held bb s.next_node index s₁ s'
          → Surrounding llvm held this s s'
      Planned-Surrounding frame planned = record {
        kinds = λ n there. planned.kinds n ∙ frame.kinds n there;
        nexts = λ n there other.
            planned.pointers 0 n (ground (arith, next_node-old n there))
            ∙ frame.nexts n there other;
        others = λ n there.
            planned.pointers 1 n (ground (arith, next_node-old n there)) ∙ frame.others n there;
        mapping = planned.mapping ∙ frame.mapping;
        still = λ bb k i h. planned.still bb k i (frame.still bb k i h);
      }

    -- A later link or plan leaves the target of another pointer as it is.
    Planned-IsTarget :
        (bb' : BlockId) (i : ℕ) {bb : BlockId} {n : NodeId} {index : ℕ} {s s' : Parser T}
        → Planned llvm held bb n index s s'
        → (n == n && index == i) ≡ false
        → IsTarget s (held ++ s.parse_and_link) n i bb'
        → IsTarget s' (held ++ s'.parse_and_link) n i bb'
    Planned-IsTarget bb' i {n = n} planned differs (t, points, inl mapped) =
        (t, planned.pointers i n differs ∙ points, inl (rw planned.mapping mapped))
    Planned-IsTarget bb' i {n = n} planned differs (t, points, inr (free, waits)) = (
      t,
      planned.pointers i n differs ∙ points,
      inr (planned.kinds t ∙ free, planned.still bb' n i waits),
    )

    module _ (op : Instruction) (args : OperationArgs T) (instr : FrontendId)
        (instrs : List FrontendId) (this : NodeId) (s : Parser T) (ready : IsReady llvm held this s)
        (ends : llvm.is_terminator instr ≡ true)
        (args_is : get_oper_args_for_instr llvm instr ≡ value args) where
      branch-IsPending :
          llvm.get_opcode instr ≡ br
          → (s' : Parser T) (n : NodeId) (i t : ℕ) → kind_at s' n ≡ some (inner_node op args instr)
          → pointer_at i s' n ≡ some t
          → kind_at s' t ≡ some terminal_node
          → IsPending llvm s' (llvm.get_successor instr i) n i
      branch-IsPending opcode s' n i t node points free = record {
        op = op;
        args = args;
        instr = instr;
        unlinked = t;
        node = node;
        opcode = opcode;
        ends = ends;
        successor = refl;
        points = points;
        free = free;
      }

      -- A node for a return.
      return-Parsed :
          llvm.get_opcode instr ≡ ret
          → get_operation_for llvm instr ≡ value op
          → Ensures
              (λ _. Parsed this (instr ∷ instrs) s)
              ((insert_new_after op args instr this >> pure tt) s)
      return-Parsed opcode op_is =
          let (s', done, inserted) =
            insert_new_after-Inserted op args instr this s ready.points
              (ready.sound.bounded this ready.there) in
          let frame = Inserted-Surrounding llvm held ready inserted in
          rw done (record {
            frame = frame;
            sound = Inserted-IsSound llvm held ready inserted;
            longer = rw inserted.rest.queue (omega arith);
            first = s.next_node;
            points = ground (arith, inserted.nexts this);
            chain =
                return ends opcode op_is args_is (ground (arith, inserted.kinds s.next_node))
                  (Inserted-points llvm held ready inserted) (frame.kinds ready.last ready.free)
                  (ground (arith, inserted.others s.next_node));
          })

      -- A node for an unconditional branch, which is linked or planned.
      jump-Parsed :
          llvm.get_opcode instr ≡ br
          → llvm.is_unconditional instr ≡ true
          → Ensures (λ _. Parsed this (instr ∷ instrs) s) (parse_jump llvm args instr this s)
      unfolding parse_jump
      jump-Parsed opcode plain =
          let (s₁, done, inserted) =
            insert_new_after-Inserted noop_instr args instr this s ready.points
              (ready.sound.bounded this ready.there) in
          let frame = Inserted-Surrounding llvm held ready inserted in
          let n = s.next_node in
          let node : kind_at s₁ n ≡ some (inner_node noop_instr args instr) =
            ground (arith, inserted.kinds n) in
          let other : pointer_at 1 s₁ n ≡ none = ground (arith, inserted.others n) in
          let this_points : pointer_at 0 s₁ this ≡ some n = ground (arith, inserted.nexts this) in
          let pending : IsPending llvm s₁ (llvm.get_successor instr 0) n 0 = record {
            op = noop_instr;
            args = args;
            instr = instr;
            unlinked = ready.last;
            node = node;
            opcode = opcode;
            ends = ends;
            successor = refl;
            points = Inserted-points llvm held ready inserted;
            free = frame.kinds ready.last ready.free;
          } in
          let single : is_planned_link n 0 (held ++ s₁.parse_and_link) ≡ false =
            rw inserted.rest.queue (
              is_planned_link-new llvm s n 0 (held ++ s.parse_and_link)
                (next_node-new llvm held ready) ready.sound.pending) in
          let (s', planned_ok, planned) =
            link_with_or_plan_processing-Planned llvm held s₁ (llvm.get_successor instr 0) n 0
              (Inserted-IsSound llvm held ready inserted) pending single in
          rw (done, planned_ok)
            (record {
              frame = Planned-Surrounding ready frame planned;
              sound = planned.sound;
              longer = omega (arith, planned.longer, ap length inserted.rest.queue);
              first = n;
              points =
                  ground (arith, planned.pointers 0 this, next_node-old ready this ready.there);
              chain =
                  jump ends opcode plain args_is (planned.kinds n ∙ node) planned.target
                    (planned.pointers 1 n (ground arith) ∙ other);
            })

      -- A node for a conditional branch, with its two targets.
      module _ {s₁ : Parser T} (branched : Branched op args instr this ready.last s s₁)
          (opcode : llvm.get_opcode instr ≡ br) where
        branch_node : kind_at s₁ s.next_node ≡ some (inner_node op args instr)
        branch_node = ground (arith, branched.kinds s.next_node)

        branch_targets :
            (s₂ s' : Parser T) × (link_with_or_plan_processing s.next_node
                (llvm.get_successor instr 0)
                0
                s₁
              ≡ ok tt s₂)
            × Planned llvm held (llvm.get_successor instr 0) s.next_node 0 s₁ s₂
            × (link_with_or_plan_processing s.next_node (llvm.get_successor instr 1) 1 s₂
                ≡ ok tt s')
            × Planned llvm held (llvm.get_successor instr 1) s.next_node 1 s₂ s'
        branch_targets =
            let frame = Branched-Surrounding llvm held ready branched in
            let n = s.next_node in
            let new : (i : ℕ) → is_planned_link n i (held ++ s₁.parse_and_link) ≡ false = λ i.
              rw branched.rest.queue (
                is_planned_link-new llvm s n i (held ++ s.parse_and_link)
                  (next_node-new llvm held ready) ready.sound.pending) in
            let next : pointer_at 0 s₁ n ≡ some ready.last =
              ground (arith, branched.nexts n, next_node-old ready this ready.there) in
            let other : pointer_at 1 s₁ n ≡ some (n + 1) = ground (arith, branched.others n) in
            let last : kind_at s₁ (n + 1) ≡ some terminal_node =
              ground (arith, branched.kinds (n + 1)) in
            let (s₂, first_ok, first) =
              link_with_or_plan_processing-Planned llvm held s₁ (llvm.get_successor instr 0) n 0
                (Branched-IsSound llvm held ready branched)
                (branch-IsPending opcode s₁ n 0 ready.last branch_node next
                  (frame.kinds ready.last ready.free))
                (new 0) in
            let (s', second_ok, second) =
              link_with_or_plan_processing-Planned llvm held s₂ (llvm.get_successor instr 1) n 1
                first.sound
                (branch-IsPending opcode s₂ n 1 (n + 1) (first.kinds n ∙ branch_node)
                  (first.pointers 1 n (ground arith) ∙ other) (first.kinds (n + 1) ∙ last))
                (first.single n 1 (ground arith) (new 1)) in
            (s₂, s', first_ok, first, second_ok, second)

        branch_chain :
            {s₂ s' : Parser T}
            → llvm.is_unconditional instr ≡ false
            → get_operation_for llvm instr ≡ value op
            → Planned llvm held (llvm.get_successor instr 0) s.next_node 0 s₁ s₂
            → Planned llvm held (llvm.get_successor instr 1) s.next_node 1 s₂ s'
            → Parsed this (instr ∷ instrs) s s'
        branch_chain both op_is first second =
            let frame = Branched-Surrounding llvm held ready branched in
            let this_points : pointer_at 0 s₁ this ≡ some s.next_node =
              ground (arith, branched.nexts this) in
            record {
              frame = Planned-Surrounding ready (Planned-Surrounding ready frame first) second;
              sound = second.sound;
              longer = omega (arith, first.longer, second.longer, ap length branched.rest.queue);
              first = s.next_node;
              points = ground (
                arith,
                first.pointers 0 this,
                second.pointers 0 this,
                next_node-old ready this ready.there,
              );
              chain =
                  branch ends opcode both op_is args_is
                    (second.kinds s.next_node ∙ first.kinds s.next_node ∙ branch_node)
                    (Planned-IsTarget (llvm.get_successor instr 0) 0 second (ground arith)
                      first.target)
                    second.target;
            }

      branch-Parsed :
          llvm.get_opcode instr ≡ br
          → llvm.is_unconditional instr ≡ false
          → get_operation_for llvm instr ≡ value op
          → Ensures (λ _. Parsed this (instr ∷ instrs) s) (parse_branch llvm op args instr this s)
      unfolding parse_branch
      branch-Parsed opcode both op_is =
          let (s₁, done, branched) =
            insert_new_branch_after-Branched op args instr this s ready.points
              (ready.sound.bounded this ready.there) in
          let (s₂, s', first_ok, first, second_ok, second) = branch_targets branched opcode in
          rw (done, first_ok, second_ok) (branch_chain branched opcode both op_is first second)

      -- No node for another terminator.
      dropped-Parsed : makes_node (llvm.get_opcode instr) ≡ false → Parsed this (instr ∷ instrs) s s
      dropped-Parsed opcode = record {
        frame = record {
          kinds = λ n there. there;
          nexts = λ n there other. refl;
          others = λ n there. refl;
          mapping = refl;
          still = λ bb k i h. h;
        };
        sound = ready.sound;
        longer = omega arith;
        first = ready.last;
        points = ready.points;
        chain = dropped ends opcode ready.free;
      }

      pub insert_terminator-Parsed :
          get_operation_for llvm instr ≡ value op
          → (opcode : Opcode) → llvm.get_opcode instr ≡ opcode
          → Ensures
              (λ _. Parsed this (instr ∷ instrs) s)
              (insert_terminator llvm opcode op args instr this s)
      unfolding insert_terminator makes_node
      insert_terminator-Parsed op_is br e = elim (Bool-cases (llvm.is_unconditional instr)) [
        | inl plain ↦ rw plain (jump-Parsed e plain)
        | inr both ↦ rw both (branch-Parsed e both op_is)
      ]
      insert_terminator-Parsed op_is ret e = return-Parsed e op_is
      insert_terminator-Parsed op_is _ e = dropped-Parsed (ap makes_node e)
