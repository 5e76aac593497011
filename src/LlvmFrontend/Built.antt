-- ===== src/LlvmFrontend/Built.antt =====
-- A new block: ParseBasicBlock of src/LlvmFrontend.cpp, with the map of blocks.
use angie.Common.{
  ℕ, zero, suc, ◌+◌, ◌≤◌, ◌≡◌, ◌⊎◌, refl, sym, ap, ◌∙◌, true, false, none, some, List, ◌++◌, ◌==◌,
  arith, Bool-cases, inl, inr, subst, ==_iff,
}
use angie.Common.Dict.{ℕ_key, find, assign, find-assign}
use angie.Common.Run.{Run, pure, ◌>>=◌, ◌>>◌}
use angie.Values.{FrontendId}
use angie.Analysis.{NodeId}
use angie.Llvm.{Llvm, BlockId}
use angie.LlvmFrontend.{NodeKind, start_node, Parser, create_empty, node_at, deref}
use angie.LlvmFrontend.Blocks.{set_mapped_cfg_node, parse_instructions, parse_new_block}
use angie.LlvmFrontend.Nodes.{
  kind_at, pointer_at, pointer_at-third, kind_at-nodes, pointer_at-nodes, node_with_next,
}
use angie.LlvmFrontend.Nodes.Insertion.{Created, create_empty-Created}
use angie.LlvmFrontend.Chains.{
  Keeps, Entry, is_planned, IsPending, ArePending, IsSound, IsTarget, AreBuilt, Carries, Chain,
  Chain-Keeps, Chain-node, length,
}
use angie.LlvmFrontend.Links.{ArePending-map}
use angie.LlvmFrontend.Frames.{is_open, IsReady}
use angie.LlvmFrontend.Parsed.{Parsed}
use angie.LlvmFrontend.Supported.{Ensures, Ensures-and_then, Ensures-ok}
use angie.LlvmFrontend.Sequences.{has_terminator, parse_instructions-Parsed}

module _ {T : Type 0} (llvm : Llvm T) (held : List Entry) where
  -- All that was there is still there, and what was mapped and planned still is.
  pub record Grown (s s' : Parser T) : Type 0 where
    pub kinds :
        (n : NodeId) {kind : NodeKind T} → kind_at s n ≡ some kind → kind_at s' n ≡ some kind
    pub pointers :
        (i : ℕ) (n : NodeId) {kind : NodeKind T}
        → kind_at s n ≡ some kind
        → pointer_at i s' n ≡ pointer_at i s n
    pub finds :
        (bb : BlockId) {n : NodeId}
        → find bb s.copy_mapping ≡ some n
        → find bb s'.copy_mapping ≡ some n
    pub still :
        (bb : BlockId) (k : NodeId) (i : ℕ)
        → is_planned bb k i (held ++ s.parse_and_link) ≡ true
        → is_planned bb k i (held ++ s'.parse_and_link) ≡ true

  Grown-IsPending :
      {s s' : Parser T}
      → Grown s s'
      → (bb : BlockId) (k : NodeId) (i : ℕ) → IsPending llvm s bb k i
      → IsPending llvm s' bb k i
  Grown-IsPending grown bb k i h = record {
    op = h.op;
    args = h.args;
    instr = h.instr;
    unlinked = h.unlinked;
    node = grown.kinds k h.node;
    opcode = h.opcode;
    ends = h.ends;
    successor = h.successor;
    points = grown.pointers i k h.node ∙ h.points;
    free = grown.kinds h.unlinked h.free;
  }

  pub Grown-Keeps : {s s' : Parser T} → Grown s s' → Keeps llvm s s'
  Grown-Keeps grown = record {
    kinds = grown.kinds;
    nexts = λ n op args instr node _. grown.pointers 0 n node;
    others = λ n node free. grown.pointers 1 n node ∙ free;
  }

  pub Grown-Chain :
      {s s' : Parser T}
      → Grown s s'
      → {n : NodeId} {instrs : List FrontendId}
      → Chain llvm s (IsTarget s (held ++ s.parse_and_link)) n instrs
      → Chain llvm s' (IsTarget s' (held ++ s'.parse_and_link)) n instrs
  Grown-Chain {s} {s'} grown = Chain-Keeps llvm (Grown-Keeps grown) carried
    where
      carried :
          Carries llvm s
            (IsTarget s (held ++ s.parse_and_link))
            (IsTarget s' (held ++ s'.parse_and_link))
      carried n i op args instr node (t, points, inl mapped) = (
        t,
        grown.pointers i n node ∙ points,
        inl (grown.finds (llvm.get_successor instr i) mapped),
      )
      carried n i op args instr node (t, points, inr (free, planned)) = (
        t,
        grown.pointers i n node ∙ points,
        inr (grown.kinds t free, grown.still (llvm.get_successor instr i) n i planned),
      )

  -- The start of a new block.
  module _ {s s₁ : Parser T} (sound : IsSound llvm s (held ++ s.parse_and_link))
      (created : Created s s₁) where
    pub Created-Grown : Grown s s₁
    Created-Grown = record {
      kinds = λ n there. ground (arith, created.kinds n, sound.bounded n there);
      pointers = λ i n there. same i n there;
      finds = λ bb found. rw created.rest.mapping found;
      still = λ bb k i h. rw created.rest.queue h;
    }
      where
        same :
            (i : ℕ) (n : NodeId) {kind : NodeKind T}
            → kind_at s n ≡ some kind
            → pointer_at i s₁ n ≡ pointer_at i s n
        same zero n there = ground (arith, created.nexts n, sound.bounded n there)
        same (suc zero) n there = ground (arith, created.others n, sound.bounded n there)
        same (suc (suc i)) n there = pointer_at-third i s₁ n ∙ sym (pointer_at-third i s n)

    pub Created-IsReady : IsReady llvm held s.next_node s₁
    unfolding is_open
    Created-IsReady = record {
      sound = record {
        bounded = λ n {kind = kind} there.
            ground (arith, created.kinds n, created.next_node, sound.bounded n {kind = kind});
        terminals = λ n last. ground (arith, created.kinds n, created.nexts n, sound.terminals n);
        mapped = λ bb {n = n} found.
            let (kind, there) =
              sound.mapped bb (subst (λ m. find bb m ≡ some n) created.rest.mapping found) in
            (kind, Created-Grown.kinds n there);
        pending =
            subst (λ q. ArePending llvm s₁ (held ++ q)) (sym created.rest.queue)
              (ArePending-map llvm (held ++ s.parse_and_link)
                (λ bb k i _. Grown-IsPending Created-Grown bb k i) sound.pending);
        distinct = rw created.rest.queue sound.distinct;
      };
      kind = start_node;
      there = ground (arith, created.kinds s.next_node);
      open_kind = refl;
      last = s.next_node + 1;
      points = ground (arith, created.nexts s.next_node);
      free = ground (arith, created.kinds (s.next_node + 1));
    }

  -- The parser with a new block.
  pub record NewBlock (bb : BlockId) (s : Parser T) (n : NodeId) (s' : Parser T) : Type 0 where
    pub mapping : s'.copy_mapping ≡ assign bb n s.copy_mapping
    pub sound : IsSound llvm s' (held ++ s'.parse_and_link)
    pub built : AreBuilt llvm s' (held ++ s'.parse_and_link)
    pub longer : length s'.parse_and_link ≤ length s.parse_and_link + 2
    pub nodes : Keeps llvm s s'

  -- The end of a new block, which is mapped.
  module _ (bb : BlockId) {s s₁ s₂ : Parser T} (sound : IsSound llvm s (held ++ s.parse_and_link))
      (built : AreBuilt llvm s (held ++ s.parse_and_link)) (missing : find bb s.copy_mapping ≡ none)
      (created : Created s s₁)
      (parsed : Parsed llvm held s.next_node (llvm.instructions bb) s₁ s₂) where
    mapped_state : Parser T
    mapped_state = record s₂ { copy_mapping = assign bb parsed.first s₂.copy_mapping }

    mapping_before : s₂.copy_mapping ≡ s.copy_mapping
    mapping_before = parsed.frame.mapping ∙ created.rest.mapping

    mapped_nodes : Grown s₂ mapped_state
    unfolding mapped_state
    mapped_nodes = record {
      kinds = λ n there. kind_at-nodes s₂ mapped_state refl n ∙ there;
      pointers = λ i n there. pointer_at-nodes s₂ mapped_state refl i n;
      finds = λ b found.
          ground
            (arith, find-assign bb b parsed.first s₂.copy_mapping, mapping_before, ==_iff bb b);
      still = λ b k i h. h;
    }

    block_Grown : Grown s mapped_state
    block_Grown =
        let start = Created-Grown sound created in
        record {
          kinds = λ n there. mapped_nodes.kinds n (parsed.frame.kinds n (start.kinds n there));
          pointers = λ i n {kind = kind} there.
              mapped_nodes.pointers i n (parsed.frame.kinds n (start.kinds n there))
              ∙ kept i n kind there;
          finds = λ b {n = n} found.
              mapped_nodes.finds b (subst (λ m. find b m ≡ some n) (sym mapping_before) found);
          still =
              λ b k i h. mapped_nodes.still b k i (parsed.frame.still b k i (start.still b k i h));
        }
      where
        not_new :
            (n : NodeId) (kind : NodeKind T) → kind_at s n ≡ some kind → (s.next_node == n) ≡ false
        not_new n kind there = ground (arith, sound.bounded n there)

        kept :
            (i : ℕ) (n : NodeId) (kind : NodeKind T)
            → kind_at s n ≡ some kind
            → pointer_at i s₂ n ≡ pointer_at i s n
        kept zero n kind there =
            let start = Created-Grown sound created in
            parsed.frame.nexts n (start.kinds n there) (not_new n kind there)
            ∙ start.pointers 0 n there
        kept (suc zero) n kind there =
            let start = Created-Grown sound created in
            parsed.frame.others n (start.kinds n there) ∙ start.pointers 1 n there
        kept (suc (suc i)) n kind there = pointer_at-third i s₂ n ∙ sym (pointer_at-third i s n)

    first_Chain :
        Chain llvm mapped_state
          (IsTarget mapped_state (held ++ s₂.parse_and_link))
          parsed.first
          (llvm.instructions bb)
    unfolding mapped_state
    first_Chain = Grown-Chain mapped_nodes parsed.chain

    mapped_state-IsSound : IsSound llvm mapped_state (held ++ s₂.parse_and_link)
    unfolding mapped_state
    mapped_state-IsSound = record {
      bounded =
          λ n there. parsed.sound.bounded n (sym (kind_at-nodes s₂ mapped_state refl n) ∙ there);
      terminals = λ n last.
          pointer_at-nodes s₂ mapped_state refl 0 n
          ∙ parsed.sound.terminals n (sym (kind_at-nodes s₂ mapped_state refl n) ∙ last);
      mapped = λ b {n = n} found. mapped_kind b n found (Bool-cases (bb == b));
      pending =
          ArePending-map llvm (held ++ s₂.parse_and_link)
            (λ b k i _. Grown-IsPending mapped_nodes b k i) parsed.sound.pending;
      distinct = parsed.sound.distinct;
    }
      where
        mapped_kind :
            (b : BlockId) (n : NodeId)
            → find b (assign bb parsed.first s₂.copy_mapping) ≡ some n
            → ((bb == b) ≡ true) ⊎ ((bb == b) ≡ false)
            → (kind : NodeKind T) × (kind_at mapped_state n ≡ some kind)
        mapped_kind b n found (inl here) =
            let same : parsed.first ≡ n =
              ground (arith, find-assign bb b parsed.first s₂.copy_mapping) in
            rw (← same) (Chain-node llvm first_Chain)
        mapped_kind b n found (inr other) =
            let (kind, there) =
              parsed.sound.mapped b
                (ground (arith, find-assign bb b parsed.first s₂.copy_mapping)) in
            (kind, mapped_nodes.kinds n there)

    mapped_state-AreBuilt : AreBuilt llvm mapped_state (held ++ s₂.parse_and_link)
    unfolding mapped_state
    mapped_state-AreBuilt b n found = elim (Bool-cases (bb == b)) [
      | inl here ↦
          let same : parsed.first ≡ n =
            ground (arith, find-assign bb b parsed.first s₂.copy_mapping) in
          let block : bb ≡ b = (==_iff bb b).0 here in rw (← same, ← block) first_Chain
      | inr other ↦
          let before : find b s.copy_mapping ≡ some n =
            ground (arith, find-assign bb b parsed.first s₂.copy_mapping, mapping_before) in
          Grown-Chain block_Grown (built b n before)
    ]

    mapped_state-NewBlock : NewBlock bb s parsed.first mapped_state
    unfolding mapped_state
    mapped_state-NewBlock = record {
      mapping = ap (assign bb parsed.first) mapping_before;
      sound = mapped_state-IsSound;
      built = mapped_state-AreBuilt;
      longer = omega (arith, parsed.longer, ap length created.rest.queue);
      nodes = Grown-Keeps block_Grown;
    }

  -- ParseBasicBlock, once the two nodes at the ends are there.
  abbrev after_start : BlockId → NodeId → Run (Parser T) NodeId
  after_start bb zero_node = do
    parse_instructions llvm (llvm.instructions bb) zero_node
    nd ← node_at zero_node
    first ← deref nd.next
    set_mapped_cfg_node bb first
    pure first

  pub parse_new_block-NewBlock :
      (bb : BlockId) (s : Parser T)
      → IsSound llvm s (held ++ s.parse_and_link)
      → AreBuilt llvm s (held ++ s.parse_and_link)
      → find bb s.copy_mapping ≡ none
      → has_terminator llvm (llvm.instructions bb) ≡ true
      → Ensures (NewBlock bb s) (parse_new_block llvm bb s)
  unfolding parse_new_block node_at set_mapped_cfg_node mapped_state
  parse_new_block-NewBlock bb s sound built missing ends =
      let (s₁, done, created) = create_empty-Created s in
      Ensures-and_then (λ n s'. (n ≡ s.next_node) × Created s s') (NewBlock bb s) (create_empty s)
        (after_start bb)
        (Ensures-ok (λ n s'. (n ≡ s.next_node) × Created s s') s.next_node s₁ done (refl, created))
        λ n s' start. rw start.0 (
          Ensures-and_then (λ _. Parsed llvm held s.next_node (llvm.instructions bb) s')
            (NewBlock bb s) (parse_instructions llvm (llvm.instructions bb) s.next_node s') _
            (parse_instructions-Parsed llvm held (llvm.instructions bb) s.next_node s' ends
              (Created-IsReady sound start.1))
            λ _ s₂ parsed.
              let (nd, found, next) = node_with_next s₂ s.next_node parsed.points in
              rw (found, next, node_at)
                (mapped_state-NewBlock bb sound built missing start.1 parsed))
