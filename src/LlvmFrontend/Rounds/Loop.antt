-- ===== src/LlvmFrontend/Rounds/Loop.antt =====
-- The loop over the planned blocks, in ParseModule of src/LlvmFrontend.cpp.
use angie.Common.{
  ℕ, zero, suc, ◌≤◌, ◌<◌, ◌≡◌, ◌⊎◌, refl, sym, ap, Bool, true, List, [], ◌∷◌, arith, inl, inr,
  subst,
}
use angie.Common.Dict.{ℕ_key}
use angie.Common.Run.{ok, ◌>>◌}
use angie.Analysis.{NodeId}
use angie.Llvm.{Llvm, BlockId}
use angie.LlvmFrontend.{Parser, link_together}
use angie.LlvmFrontend.Blocks.{parse_basic_block, link_planned_block, link_planned}
use angie.LlvmFrontend.Nodes.{same-Unchanged}
use angie.LlvmFrontend.Chains.{Keeps, same-Keeps, Keeps-trans, Entry, IsSound, AreBuilt, length}
use angie.LlvmFrontend.Links.{Unchanged-IsSound}
use angie.LlvmFrontend.Supported.{Ensures, Ensures-and_then, Ensures-map, Ensures-ok}
use angie.LlvmFrontend.Complete.{IsBuilding, link-IsBuilding}
use angie.LlvmFrontend.Rounds.{
  Unchanged-Keeps, AreBlocks, work, KeepsBlocks, IsParsed, parse_basic_block-IsParsed,
  Unchanged-Chain,
}

List-cases : {A : Type 0} (xs : List A) → (xs ≡ []) ⊎ ((x : A) × (rest : List A) × (xs ≡ x ∷ rest))
List-cases [] = inl refl
List-cases (x ∷ rest) = inr (x, rest, refl)

module _ {T : Type 0} (llvm : Llvm T) where
  module _ (blocks : List BlockId) (are : AreBlocks llvm blocks) where
    -- The first entry of the queue is taken.
    popped : List Entry → Parser T → Parser T
    popped es s = record s { parse_and_link = es }

    popped-IsBuilding :
        (e : Entry) (es : List Entry) (s : Parser T)
        → s.parse_and_link ≡ e ∷ es
        → IsBuilding llvm [] s
        → IsBuilding llvm (e ∷ []) (popped es s)
    unfolding popped
    popped-IsBuilding e es s queue building =
        let same = same-Unchanged s (record s { parse_and_link = es }) refl refl refl in
        record {
          sound = Unchanged-IsSound llvm same (subst (IsSound llvm s) queue building.sound);
          built = λ b n found.
              Unchanged-Chain llvm same (e ∷ es)
                (subst (AreBuilt llvm s) queue building.built b n found);
        }

    popped-Keeps : (es : List Entry) (s : Parser T) → Keeps llvm s (popped es s)
    unfolding popped
    popped-Keeps es s =
        Unchanged-Keeps llvm (same-Unchanged s (record s { parse_and_link = es }) refl refl refl)

    -- A round of the loop.
    record IsRound (s s' : Parser T) : Type 0 where
      pub building : IsBuilding llvm [] s'
      pub less : work llvm blocks are s' < work llvm blocks are s
      pub keeps : KeepsBlocks llvm blocks are s s'
      pub nodes : Keeps llvm s s'

    linked-IsRound :
        (bb : BlockId) (k : NodeId) (index : ℕ) (es : List Entry) (s : Parser T)
        → s.parse_and_link ≡ (bb, k, index) ∷ es
        → (n : NodeId) (s₁ : Parser T)
        → IsParsed llvm blocks are ((bb, k, index) ∷ []) bb (popped es s) n s₁
        → Ensures (λ _. IsRound s) (link_together k n index s₁)
    unfolding work popped KeepsBlocks
    linked-IsRound bb k index es s queue n s₁ parsed =
        let (s', done, building, mapping, rest, nodes) =
          link-IsBuilding llvm bb k index n s₁ parsed.building parsed.found in
        Ensures-ok (λ _. IsRound s) tt s' done
          (record {
            building = building;
            less = rw mapping (omega (arith, parsed.less, ap length queue, ap length rest));
            keeps = λ b m h. rw mapping (parsed.keeps b m h);
            nodes = Keeps-trans llvm (popped-Keeps es s) (Keeps-trans llvm parsed.nodes nodes);
          })

    link_planned_block-IsRound :
        (bb : BlockId) (k : NodeId) (index : ℕ) (es : List Entry) (s : Parser T)
        → s.parse_and_link ≡ (bb, k, index) ∷ es
        → IsBuilding llvm [] s
        → Ensures (λ _. IsRound s) (link_planned_block llvm (bb, k, index) (popped es s))
    unfolding link_planned_block
    link_planned_block-IsRound bb k index es s queue building =
        let held = popped-IsBuilding (bb, k, index) es s queue building in
        let this = held.sound.pending.0 in
        Ensures-and_then (IsParsed llvm blocks are ((bb, k, index) ∷ []) bb (popped es s))
          (λ _. IsRound s) (parse_basic_block llvm bb (popped es s))
          (λ start. link_together k start index)
          (parse_basic_block-IsParsed llvm blocks are ((bb, k, index) ∷ []) bb (popped es s) held
            (rw this.successor at (are.closed this.instr index this.opcode)))
          (linked-IsRound bb k index es s queue)

    link_planned_zero : (s : Parser T) → s.parse_and_link ≡ [] → link_planned llvm 0 s ≡ ok true s
    unfolding link_planned
    link_planned_zero s empty = ground arith

    link_planned_empty :
        (fuel : ℕ) (s : Parser T)
        → s.parse_and_link ≡ []
        → link_planned llvm (suc fuel) s ≡ ok true s
    unfolding link_planned
    link_planned_empty fuel s empty = ground arith

    link_planned_next :
        (fuel : ℕ) (s : Parser T) (e : Entry) (es : List Entry)
        → s.parse_and_link ≡ e ∷ es
        → link_planned llvm (suc fuel) s
          ≡ (link_planned_block llvm e >> link_planned llvm fuel) (popped es s)
    unfolding link_planned popped
    link_planned_next fuel s e es queue = ground arith

    pub record IsEnded (s : Parser T) (ended : Bool) (s' : Parser T) : Type 0 where
      pub by_test : ended ≡ true
      pub empty : s'.parse_and_link ≡ []
      pub building : IsBuilding llvm [] s'
      pub nodes : Keeps llvm s s'
      pub keeps : KeepsBlocks llvm blocks are s s'

    empty-IsEnded :
        (fuel : ℕ) (s : Parser T)
        → IsBuilding llvm [] s
        → s.parse_and_link ≡ []
        → Ensures (IsEnded s) (link_planned llvm fuel s)
    unfolding KeepsBlocks
    empty-IsEnded fuel s building empty = Ensures-ok (IsEnded s) true s (ended_at fuel) (record {
      by_test = refl;
      empty = empty;
      building = building;
      keeps = λ b m h. h;
      nodes = same-Keeps llvm s;
    })
      where
        ended_at : (fuel : ℕ) → link_planned llvm fuel s ≡ ok true s
        ended_at zero = link_planned_zero s empty
        ended_at (suc fuel) = link_planned_empty fuel s empty

    -- The loop over the planned blocks, from a sound state between two rounds, in a module whose
    -- blocks end in terminators and branch to each other: with one unit of fuel for each planned
    -- link and two for each block that is not parsed yet, it ends with an empty queue and in a sound
    -- state that keeps the parsed blocks, unless an instruction is not supported, and it throws
    -- nothing else.
    pub link_planned-IsEnded :
        (fuel : ℕ) (s : Parser T)
        → IsBuilding llvm [] s
        → work llvm blocks are s ≤ fuel
        → Ensures (IsEnded s) (link_planned llvm fuel s)
    unfolding work KeepsBlocks
    link_planned-IsEnded zero s building enough = elim (List-cases s.parse_and_link) [
      | inl empty ↦ empty-IsEnded zero s building empty
      | inr (e, es, queue) ↦ absurd (omega (arith, ap length queue))
    ]
    link_planned-IsEnded (suc fuel) s building enough = elim (List-cases s.parse_and_link) [
      | inl empty ↦ empty-IsEnded (suc fuel) s building empty
      | inr ((bb, k, index), es, queue) ↦
          subst (Ensures (IsEnded s)) (sym (link_planned_next fuel s (bb, k, index) es queue)) (
            Ensures-and_then (λ _. IsRound s) (IsEnded s)
              (link_planned_block llvm (bb, k, index) (popped es s)) (λ _. link_planned llvm fuel)
              (link_planned_block-IsRound bb k index es s queue building)
              λ _ s₁ round.
                Ensures-map
                  (λ _ s' rest. record {
                    by_test = rest.by_test;
                    empty = rest.empty;
                    building = rest.building;
                    nodes = Keeps-trans llvm round.nodes rest.nodes;
                    keeps = λ b m h. rest.keeps b m (round.keeps b m h);
                  })
                  (link_planned llvm fuel s₁)
                  (link_planned-IsEnded fuel s₁ round.building (omega (arith, round.less))))
    ]
