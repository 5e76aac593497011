-- ===== src/LlvmFrontend/Complete.antt =====
-- The loop over the planned blocks, at the end of ParseModule of src/LlvmFrontend.cpp.
use angie.Common.{
  ℕ, suc, ◌≤◌, ◌<◌, ◌≡◌, sym, ◌∙◌, Bool, true, false, ◌&&◌, ◌||◌, none, some, List, [], ◌∷◌, ◌++◌,
  ◌==◌, arith, Bool-cases, inl, inr, subst, ==_iff,
}
use angie.Common.Dict.{Dict, ℕ_key, find, assign, find-assign}
use angie.Common.Run.{ok}
use angie.Values.{FrontendId}
use angie.Analysis.{NodeId}
use angie.Analysis.Args.{OperationArgs}
use angie.Analysis.Instructions.{Instruction}
use angie.Llvm.{Llvm, BlockId}
use angie.LlvmFrontend.{inner_node, Parser, link_together}
use angie.LlvmFrontend.Nodes.{kind_at, pointer_at}
use angie.LlvmFrontend.Nodes.Linking.{Linked, Linked-pointer}
use angie.LlvmFrontend.Chains.{
  Entry, is_planned, IsPending, IsSound, IsTarget, AreBuilt, Keeps, Carries, Chain-Keeps,
  Chain-node, length,
}
use angie.LlvmFrontend.Links.{link-IsSound}

unfoldable pub has_block : List BlockId → BlockId → Bool
has_block [] bb = false
has_block (b ∷ bs) bb = b == bb || has_block bs bb

-- How many of the blocks are not parsed yet.
unfoldable pub unparsed : Dict BlockId NodeId → List BlockId → ℕ
unparsed m [] = 0
unparsed m (b ∷ bs) =
    let rest = unparsed m bs in elim (find b m) [ none ↦ suc rest | some _ ↦ rest ]

pub unparsed-le :
    (bb : BlockId) (n : NodeId) (m : Dict BlockId NodeId) (bs : List BlockId)
    → unparsed (assign bb n m) bs ≤ unparsed m bs
unfolding unparsed
unparsed-le bb n m [] = omega arith
unparsed-le bb n m (b ∷ bs) = ground (arith, find-assign bb b n m, unparsed-le bb n m bs)

pub unparsed-lt :
    (bb : BlockId) (n : NodeId) (m : Dict BlockId NodeId) (bs : List BlockId)
    → has_block bs bb ≡ true
    → find bb m ≡ none
    → unparsed (assign bb n m) bs < unparsed m bs
unfolding unparsed has_block
unparsed-lt bb n m [] known missing = absurd (ground arith)
unparsed-lt bb n m (b ∷ bs) known missing =
    ground (arith, find-assign bb b n m, ==_iff b bb, unparsed-le bb n m bs, unparsed-lt bb n m bs)

pub unparsed-length : (m : Dict BlockId NodeId) (bs : List BlockId) → unparsed m bs ≤ length bs
unfolding unparsed
unparsed-length m [] = omega arith
unparsed-length m (b ∷ bs) = ground (arith, unparsed-length m bs)

module _ {T : Type 0} (llvm : Llvm T) where
  -- One link of a planned entry.
  module _ {bb : BlockId} {k : NodeId} {index : ℕ} {s s' : Parser T} {next : NodeId}
      (this : IsPending llvm s bb k index) (linked : Linked k next index s s')
      (points : pointer_at index s' k ≡ some next)
      (found : find bb s.copy_mapping ≡ some next) where
    Linked-Keeps : Keeps llvm s s'
    Linked-Keeps = record {
      kinds = λ n there. linked.kinds n ∙ there;
      nexts = λ n op args instr node kept.
          ground (arith, linked.nexts n, this.node, this.ends, this.opcode, ==_iff k n);
      others = λ n there free. ground (arith, linked.others n, this.points, ==_iff k n);
    }

    here-IsTarget :
        (q : List Entry) (n : NodeId) (i : ℕ) (op : Instruction) (args : OperationArgs T)
        (instr : FrontendId)
        → kind_at s n ≡ some (inner_node op args instr)
        → (k == n && index == i) ≡ true
        → IsTarget s' q n i (llvm.get_successor instr i)
    here-IsTarget q n i op args instr node here =
        let same : llvm.get_successor instr i ≡ bb =
          ground (arith, this.successor, this.node, ==_iff k n, ==_iff index i) in
        (
          next,
          ground (arith, points, ==_iff k n, ==_iff index i),
          inl (rw (linked.rest.mapping, same) found),
        )

    elsewhere-IsTarget :
        (q : List Entry) (n : NodeId) (i : ℕ) (b : BlockId)
        → (k == n && index == i) ≡ false
        → IsTarget s ((bb, k, index) ∷ q) n i b
        → IsTarget s' q n i b
    unfolding is_planned
    elsewhere-IsTarget q n i b other (t, leads, inl mapped) =
        (t, Linked-pointer linked i n other ∙ leads, inl (rw linked.rest.mapping mapped))
    elsewhere-IsTarget q n i b other (t, leads, inr (free, planned)) = (
      t,
      Linked-pointer linked i n other ∙ leads,
      inr (linked.kinds t ∙ free, ground (arith, ==_iff k n, ==_iff index i)),
    )

    Linked-Carries :
        (q : List Entry) → Carries llvm s (IsTarget s ((bb, k, index) ∷ q)) (IsTarget s' q)
    Linked-Carries q n i op args instr node target = elim (Bool-cases (k == n && index == i)) [
      | inl here ↦ here-IsTarget q n i op args instr node here
      | inr other ↦ elsewhere-IsTarget q n i (llvm.get_successor instr i) other target
    ]

  -- The parser between two rounds of the loop, and in the middle of one, with an entry in hand.
  pub record IsBuilding (held : List Entry) (s : Parser T) : Type 0 where
    pub sound : IsSound llvm s (held ++ s.parse_and_link)
    pub built : AreBuilt llvm s (held ++ s.parse_and_link)

  pub link-IsBuilding :
      (bb : BlockId) (k : NodeId) (index : ℕ) (n : NodeId) (s : Parser T)
      → IsBuilding ((bb, k, index) ∷ []) s
      → find bb s.copy_mapping ≡ some n
      → (s' : Parser T) × (link_together k n index s ≡ ok tt s')
        × IsBuilding [] s'
        × (s'.copy_mapping ≡ s.copy_mapping)
        × (s'.parse_and_link ≡ s.parse_and_link)
        × Keeps llvm s s'
  link-IsBuilding bb k index n s building found =
      let q = s.parse_and_link in
      let this = building.sound.pending.0 in
      let (kind, there) = Chain-node llvm (building.built bb n found) in
      let rest : IsSound llvm s q = record {
        bounded = building.sound.bounded;
        terminals = building.sound.terminals;
        mapped = building.sound.mapped;
        pending = building.sound.pending.1;
        distinct = building.sound.distinct.1;
      } in
      let (s', done, linked, points, sound) =
        link-IsSound llvm rest this building.sound.distinct.0 n there in
      let built : AreBuilt llvm s' q = λ b m mapped.
        Chain-Keeps llvm (Linked-Keeps this linked points found)
          (Linked-Carries this linked points found q)
          (building.built b m (rw linked.rest.mapping at mapped)) in
      (
        s',
        done,
        record {
          sound = subst (IsSound llvm s') (sym linked.rest.queue) sound;
          built = subst (AreBuilt llvm s') (sym linked.rest.queue) built;
        },
        linked.rest.mapping,
        linked.rest.queue,
        Linked-Keeps this linked points found,
      )
