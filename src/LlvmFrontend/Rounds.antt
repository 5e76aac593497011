-- ===== src/LlvmFrontend/Rounds.antt =====
-- ParseFunction of src/LlvmFrontend.cpp, for each function of ParseModule.
pub mod Loop
use angie.Common.{
  ℕ, zero, suc, ◌+◌, ◌*◌, ◌≤◌, ◌<◌, ◌≡◌, ◌⊎◌, refl, sym, ap, ◌∙◌, Bool, true, false, none, some,
  List, [], ◌∷◌, ◌==◌, arith, Option-cases, Bool-cases, inl, inr, subst, ==_iff,
}
use angie.Common.Dict.{ℕ_key, find, find-assign, find-assign_self}
use angie.Common.Run.{ok, ◌>>◌}
use angie.Values.{FrontendId}
use angie.Analysis.{NodeId}
use angie.Llvm.{Llvm, BlockId, br}
use angie.LlvmFrontend.{Parser, link_together}
use angie.LlvmFrontend.Blocks.{parse_new_block, parse_basic_block, link_planned_block, link_planned}
use angie.LlvmFrontend.Nodes.{Unchanged, same-Unchanged}
use angie.LlvmFrontend.Chains.{
  Keeps, same-Keeps, Entry, IsSound, IsTarget, AreBuilt, Chain, Chain-Keeps, length,
}
use angie.LlvmFrontend.Links.{Unchanged-IsSound}
use angie.LlvmFrontend.Supported.{Ensures, Ensures-and_then, Ensures-map, Ensures-ok}
use angie.LlvmFrontend.Sequences.{has_terminator}
use angie.LlvmFrontend.Built.{NewBlock, parse_new_block-NewBlock}
use angie.LlvmFrontend.Complete.{has_block, unparsed, unparsed-lt, IsBuilding, link-IsBuilding}

Unchanged-IsTarget :
    {T : Type 0} {s s' : Parser T}
    → Unchanged s s'
    → (q : List Entry) (n : NodeId) (i : ℕ) (bb : BlockId) → IsTarget s q n i bb
    → IsTarget s' q n i bb
Unchanged-IsTarget same q n i bb (t, points, inl mapped) =
    (t, same.pointers i n ∙ points, inl (rw same.mapping mapped))
Unchanged-IsTarget same q n i bb (t, points, inr (free, planned)) =
    (t, same.pointers i n ∙ points, inr (same.kinds t ∙ free, planned))

module _ {T : Type 0} (llvm : Llvm T) where
  pub Unchanged-Keeps : {s s' : Parser T} → Unchanged s s' → Keeps llvm s s'
  Unchanged-Keeps same = record {
    kinds = λ n there. same.kinds n ∙ there;
    nexts = λ n op args instr node _. same.pointers 0 n;
    others = λ n node free. same.pointers 1 n ∙ free;
  }

  pub Unchanged-Chain :
      {s s' : Parser T}
      → Unchanged s s'
      → (q : List Entry) → {n : NodeId} {instrs : List FrontendId}
      → Chain llvm s (IsTarget s q) n instrs
      → Chain llvm s' (IsTarget s' q) n instrs
  Unchanged-Chain same q = Chain-Keeps llvm (Unchanged-Keeps same) λ n i op args instr node target.
      Unchanged-IsTarget same q n i (llvm.get_successor instr i) target

  -- The blocks of a module: each has a terminator, and each branch leads to one of them.
  pub record AreBlocks (blocks : List BlockId) : Type 0 where
    pub terminated :
        (bb : BlockId)
        → has_block blocks bb ≡ true
        → has_terminator llvm (llvm.instructions bb) ≡ true
    pub closed :
        (instr : FrontendId) (index : ℕ)
        → llvm.get_opcode instr ≡ br
        → has_block blocks (llvm.get_successor instr index) ≡ true

  module _ (blocks : List BlockId) (are : AreBlocks blocks) where
    -- What is left to do: the planned links, and two for each block that is not parsed.
    unfoldable pub work : Parser T → ℕ
    work s = length s.parse_and_link + 2 * unparsed s.copy_mapping blocks

    unfoldable pub KeepsBlocks : Parser T → Parser T → Type 0
    KeepsBlocks s s' =
        (bb : BlockId) (n : NodeId)
        → find bb s.copy_mapping ≡ some n
        → find bb s'.copy_mapping ≡ some n

    pub record IsParsed (held : List Entry) (bb : BlockId) (s : Parser T) (n : NodeId)
        (s' : Parser T) : Type 0 where
      pub building : IsBuilding llvm held s'
      pub found : find bb s'.copy_mapping ≡ some n
      pub less : work s' ≤ work s
      pub keeps : KeepsBlocks s s'
      pub nodes : Keeps llvm s s'

    not_parsed :
        (bb : BlockId) (s : Parser T)
        → find bb s.copy_mapping ≡ none
        → parse_basic_block llvm bb s ≡ parse_new_block llvm bb s
    unfolding parse_basic_block
    not_parsed bb s missing = rw (missing, parse_basic_block) refl

    NewBlock-IsParsed :
        (held : List Entry) (bb : BlockId) (s : Parser T) {n : NodeId} {s' : Parser T}
        → has_block blocks bb ≡ true
        → find bb s.copy_mapping ≡ none
        → NewBlock llvm held bb s n s'
        → IsParsed held bb s n s'
    unfolding work KeepsBlocks
    NewBlock-IsParsed held bb s {n} {s'} known missing block = record {
      building = record { sound = block.sound; built = block.built };
      found = rw block.mapping (find-assign_self bb n s.copy_mapping);
      less =
          rw block.mapping
            (omega (arith, block.longer, unparsed-lt bb n s.copy_mapping blocks known missing));
      keeps = λ b m h.
          rw block.mapping (ground (arith, find-assign bb b n s.copy_mapping, ==_iff bb b));
      nodes = block.nodes;
    }

    pub parse_basic_block-IsParsed :
        (held : List Entry) (bb : BlockId) (s : Parser T)
        → IsBuilding llvm held s
        → has_block blocks bb ≡ true
        → Ensures (IsParsed held bb s) (parse_basic_block llvm bb s)
    unfolding parse_basic_block work KeepsBlocks
    parse_basic_block-IsParsed held bb s building known =
        elim (Option-cases (find bb s.copy_mapping)) [
          | inl missing ↦ subst (Ensures (IsParsed held bb s)) (sym (not_parsed bb s missing)) (
              Ensures-map (λ n s' block. NewBlock-IsParsed held bb s known missing block)
                (parse_new_block llvm bb s)
                (parse_new_block-NewBlock llvm held bb s building.sound building.built missing
                  (are.terminated bb known)))
          | inr (n, found) ↦
              rw (found, parse_basic_block)
                (record {
                  building = building;
                  found = found;
                  less = omega arith;
                  keeps = λ b m h. h;
                  nodes = same-Keeps llvm s;
                })
        ]

    -- The entries of ParseFunction: each entry block is parsed.
    pub record AreParsed (entries : List BlockId) (s s' : Parser T) : Type 0 where
      pub building : IsBuilding llvm [] s'
      pub found :
          (bb : BlockId)
          → has_block entries bb ≡ true
          → (n : NodeId) × (find bb s'.copy_mapping ≡ some n)
      pub less : work s' ≤ work s
      pub keeps : KeepsBlocks s s'

    pub AreParsed-nil : (s : Parser T) → IsBuilding llvm [] s → AreParsed [] s s
    unfolding has_block KeepsBlocks
    AreParsed-nil s building = record {
      building = building;
      found = λ bb h. absurd (ground arith);
      less = omega arith;
      keeps = λ b m h. h;
    }

    found_in :
        (bb b : BlockId) (n : NodeId) (entries : List BlockId) (s₁ s' : Parser T)
        → find bb s₁.copy_mapping ≡ some n
        → AreParsed entries s₁ s'
        → has_block (bb ∷ entries) b ≡ true
        → ((bb == b) ≡ true) ⊎ ((bb == b) ≡ false)
        → (m : NodeId) × (find b s'.copy_mapping ≡ some m)
    unfolding has_block KeepsBlocks
    found_in bb b n entries s₁ s' found rest h (inl here) =
        (n, rw (← (==_iff bb b).0 here) (rest.keeps bb n found))
    found_in bb b n entries s₁ s' found rest h (inr other) = rest.found b (ground arith)

    pub AreParsed-cons :
        (bb : BlockId) (entries : List BlockId) {n : NodeId} {s s₁ s' : Parser T}
        → IsParsed [] bb s n s₁
        → AreParsed entries s₁ s'
        → AreParsed (bb ∷ entries) s s'
    unfolding KeepsBlocks
    AreParsed-cons bb entries {n} {s₁ = s₁} {s' = s'} first rest = record {
      building = rest.building;
      found = λ b h. found_in bb b n entries s₁ s' first.found rest h (Bool-cases (bb == b));
      less = omega (arith, first.less, rest.less);
      keeps = λ b m h. rest.keeps b m (first.keeps b m h);
    }
