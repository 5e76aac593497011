-- ===== src/LlvmFrontend/Links.antt =====
-- LinkTogether and LinkWithOrPlanProcessing of src/LlvmFrontend.cpp, for a branch whose pointer still
-- leads to a terminal node.
use mathlib.Core.List.{append_assoc}
use angie.Common.{
  ℕ, ◌+◌, ◌≤◌, ◌≡◌, refl, sym, ◌∙◌, true, false, ◌&&◌, none, some, List, [], ◌∷◌, ◌++◌, ◌==◌, arith,
  Option-cases, inl, inr, ==_iff, subst,
}
use angie.Common.Dict.{ℕ_key, find}
use angie.Common.Run.{ok}
use angie.Analysis.{NodeId}
use angie.Llvm.{Llvm, BlockId}
use angie.LlvmFrontend.{NodeKind, Parser, link_together}
use angie.LlvmFrontend.Nodes.{Unchanged, same-Unchanged, kind_at, pointer_at}
use angie.LlvmFrontend.Nodes.Linking.{Linked, link_together-Linked, Linked-pointer, Linked-set}
use angie.LlvmFrontend.Blocks.{link_with_or_plan_processing, plan_processing}
use angie.LlvmFrontend.Chains.{
  Entry, is_planned, is_planned_link, AreDistinct, IsPending, ArePending, IsSound, IsTarget, length,
  length-append,
}

pub is_planned-append :
    (bb : BlockId) (k : NodeId) (index : ℕ) (q more : List Entry)
    → is_planned bb k index q ≡ true
    → is_planned bb k index (q ++ more) ≡ true
unfolding is_planned
is_planned-append bb k index [] more h = absurd (ground arith)
is_planned-append bb k index ((bb', k', index') ∷ q) more h =
    ground (arith, is_planned-append bb k index q more)

pub is_planned-last :
    (bb : BlockId) (k : NodeId) (index : ℕ) (q : List Entry)
    → is_planned bb k index (q ++ (bb, k, index) ∷ []) ≡ true
unfolding is_planned
is_planned-last bb k index [] = ground arith
is_planned-last bb k index ((bb', k', index') ∷ q) = ground (arith, is_planned-last bb k index q)

pub is_planned_link-last :
    (bb : BlockId) (j k : NodeId) (i index : ℕ) (q : List Entry)
    → is_planned_link j i q ≡ false
    → (j == k && i == index) ≡ false
    → is_planned_link j i (q ++ (bb, k, index) ∷ []) ≡ false
unfolding is_planned_link
is_planned_link-last bb j k i index [] h differs = ground arith
is_planned_link-last bb j k i index ((bb', k', index') ∷ q) h differs =
    ground (arith, is_planned_link-last bb j k i index q)

is_planned_link-differs :
    (j k : NodeId) (i index : ℕ) (q : List Entry)
    → is_planned_link j i q ≡ false
    → is_planned_link k index q ≡ true
    → (j == k && i == index) ≡ false
is_planned_link-differs j k i index q free planned = ground arith

AreDistinct-last :
    (bb : BlockId) (k : NodeId) (index : ℕ) (q : List Entry)
    → AreDistinct q
    → is_planned_link k index q ≡ false
    → AreDistinct (q ++ (bb, k, index) ∷ [])
unfolding is_planned_link
AreDistinct-last bb k index [] distinct h = (refl, tt)
AreDistinct-last bb k index ((bb', k', index') ∷ q) (head, tail) h = (
  is_planned_link-last bb k' k index' index q head (ground arith),
  AreDistinct-last bb k index q tail (ground arith),
)

module _ {T : Type 0} (llvm : Llvm T) where
  ArePending-last :
      {s : Parser T} (bb : BlockId) (k : NodeId) (index : ℕ) (q : List Entry)
      → ArePending llvm s q
      → IsPending llvm s bb k index
      → ArePending llvm s (q ++ (bb, k, index) ∷ [])
  ArePending-last bb k index [] pending h = (h, tt)
  ArePending-last bb k index ((bb', k', index') ∷ q) (head, tail) h =
      (head, ArePending-last bb k index q tail h)

  pub ArePending-map :
      {s s' : Parser T} (q : List Entry)
      → ((bb : BlockId) (k : NodeId) (index : ℕ)
          → is_planned_link k index q ≡ true
          → IsPending llvm s bb k index
          → IsPending llvm s' bb k index)
      → ArePending llvm s q
      → ArePending llvm s' q
  unfolding is_planned_link
  ArePending-map [] f pending = tt
  ArePending-map ((bb, k, index) ∷ q) f (head, tail) = (
    f bb k index (ground arith) head,
    ArePending-map q (λ bb' k' index' m. f bb' k' index' (ground arith)) tail,
  )

  -- No entry is about a node that is not there.
  pub is_planned_link-new :
      (s : Parser T) (k : NodeId) (index : ℕ) (q : List Entry)
      → kind_at s k ≡ none
      → ArePending llvm s q
      → is_planned_link k index q ≡ false
  unfolding is_planned_link
  is_planned_link-new s k index [] missing pending = refl
  is_planned_link-new s k index ((bb', k', index') ∷ q) missing (head, tail) =
      ground (arith, head.node, is_planned_link-new s k index q missing tail)

  Linked-IsPending :
      {prev next index : ℕ} {s s' : Parser T}
      → Linked prev next index s s'
      → (bb : BlockId) (k : NodeId) (i : ℕ) → (prev == k && index == i) ≡ false
      → IsPending llvm s bb k i
      → IsPending llvm s' bb k i
  Linked-IsPending linked bb k i differs h = record {
    op = h.op;
    args = h.args;
    instr = h.instr;
    unlinked = h.unlinked;
    node = linked.kinds k ∙ h.node;
    opcode = h.opcode;
    ends = h.ends;
    successor = h.successor;
    points = Linked-pointer linked i k differs ∙ h.points;
    free = linked.kinds h.unlinked ∙ h.free;
  }

  module _ {s : Parser T} {q : List Entry} (sound : IsSound llvm s q) {bb : BlockId} {n : NodeId}
      {index : ℕ} (this : IsPending llvm s bb n index)
      (single : is_planned_link n index q ≡ false) where
    Linked-IsSound : {next : NodeId} {s' : Parser T} → Linked n next index s s' → IsSound llvm s' q
    Linked-IsSound {next} {s'} linked = record {
      bounded = λ j there. rw linked.next_node (sound.bounded j (sym (linked.kinds j) ∙ there));
      terminals = λ j last.
          ground (arith, linked.kinds j, linked.nexts j, sound.terminals j, this.node, ==_iff n j);
      mapped = λ bb' {n = n'} found.
          let (kind, there) =
            sound.mapped bb' (subst (λ m. find bb' m ≡ some n') linked.rest.mapping found) in
          (kind, linked.kinds n' ∙ there);
      pending =
          ArePending-map q
            (λ bb' k i member.
              Linked-IsPending linked bb' k i (is_planned_link-differs n k index i q single member))
            sound.pending;
      distinct = sound.distinct;
    }

    -- LinkTogether throws nothing, and the pointer leads to the other node.
    pub link-IsSound :
        (next : NodeId) {kind : NodeKind T}
        → kind_at s next ≡ some kind
        → (s' : Parser T) × (link_together n next index s ≡ ok tt s')
          × Linked n next index s s'
          × (pointer_at index s' n ≡ some next)
          × IsSound llvm s' q
    link-IsSound next there =
        let (s', done, linked) =
          link_together-Linked n next s index this.unlinked this.points this.free
            (sound.terminals this.unlinked this.free) there in
        (s', done, linked, Linked-set linked this.points, Linked-IsSound linked)

  Unchanged-IsPending :
      {s s' : Parser T}
      → Unchanged s s'
      → (bb : BlockId) (k : NodeId) (i : ℕ) → IsPending llvm s bb k i
      → IsPending llvm s' bb k i
  Unchanged-IsPending same bb k i h = record {
    op = h.op;
    args = h.args;
    instr = h.instr;
    unlinked = h.unlinked;
    node = same.kinds k ∙ h.node;
    opcode = h.opcode;
    ends = h.ends;
    successor = h.successor;
    points = same.pointers i k ∙ h.points;
    free = same.kinds h.unlinked ∙ h.free;
  }

  pub Unchanged-IsSound :
      {s s' : Parser T} {q : List Entry} → Unchanged s s' → IsSound llvm s q → IsSound llvm s' q
  Unchanged-IsSound {q = q} same sound = record {
    bounded = λ j there. rw same.next_node (sound.bounded j (sym (same.kinds j) ∙ there));
    terminals = λ j last. same.pointers 0 j ∙ sound.terminals j (sym (same.kinds j) ∙ last);
    mapped = λ bb {n = n} found.
        let (kind, there) = sound.mapped bb (subst (λ m. find bb m ≡ some n) same.mapping found) in
        (kind, same.kinds n ∙ there);
    pending = ArePending-map q (λ bb k i _. Unchanged-IsPending same bb k i) sound.pending;
    distinct = sound.distinct;
  }

  planned-IsSound :
      {s : Parser T} {q : List Entry} (bb : BlockId) (n : NodeId) (index : ℕ)
      → IsSound llvm s q
      → IsPending llvm s bb n index
      → is_planned_link n index q ≡ false
      → IsSound llvm s (q ++ (bb, n, index) ∷ [])
  planned-IsSound {q = q} bb n index sound this single = record {
    bounded = sound.bounded;
    terminals = sound.terminals;
    mapped = sound.mapped;
    pending = ArePending-last bb n index q sound.pending this;
    distinct = AreDistinct-last bb n index q sound.distinct single;
  }

  -- What LinkWithOrPlanProcessing does, where the entries `held` are in hand.
  pub record Planned (held : List Entry) (bb : BlockId) (n : NodeId) (index : ℕ) (s s' : Parser T)
      : Type 0 where
    pub kinds : (j : NodeId) → kind_at s' j ≡ kind_at s j
    pub pointers :
        (i : ℕ) (j : NodeId) → (n == j && index == i) ≡ false → pointer_at i s' j ≡ pointer_at i s j
    pub next_node : s'.next_node ≡ s.next_node
    pub mapping : s'.copy_mapping ≡ s.copy_mapping
    pub longer : length s'.parse_and_link ≤ length s.parse_and_link + 1
    pub still :
        (bb' : BlockId) (k : NodeId) (i : ℕ)
        → is_planned bb' k i (held ++ s.parse_and_link) ≡ true
        → is_planned bb' k i (held ++ s'.parse_and_link) ≡ true
    pub single :
        (j : NodeId) (i : ℕ)
        → (j == n && i == index) ≡ false
        → is_planned_link j i (held ++ s.parse_and_link) ≡ false
        → is_planned_link j i (held ++ s'.parse_and_link) ≡ false
    pub target : IsTarget s' (held ++ s'.parse_and_link) n index bb
    pub sound : IsSound llvm s' (held ++ s'.parse_and_link)

  module _ (held : List Entry) (s : Parser T) (bb : BlockId) (n : NodeId) (index : ℕ)
      (sound : IsSound llvm s (held ++ s.parse_and_link)) (this : IsPending llvm s bb n index)
      (single : is_planned_link n index (held ++ s.parse_and_link) ≡ false) where
    planned_state : Parser T
    planned_state = record s { parse_and_link = s.parse_and_link ++ (bb, n, index) ∷ [] }

    plan_processing-Planned : Planned held bb n index s planned_state
    unfolding planned_state
    plan_processing-Planned =
        let same = same-Unchanged s planned_state refl refl refl in
        let joined = append_assoc held s.parse_and_link ((bb, n, index) ∷ []) in
        record {
          kinds = same.kinds;
          pointers = λ i j _. same.pointers i j;
          next_node = refl;
          mapping = refl;
          longer = omega (arith, length-append s.parse_and_link ((bb, n, index) ∷ []));
          still = λ bb' k i h.
              rw (← joined)
                (is_planned-append bb' k i (held ++ s.parse_and_link) ((bb, n, index) ∷ []) h);
          single = λ j i differs h.
              rw (← joined)
                (is_planned_link-last bb j n i index (held ++ s.parse_and_link) h differs);
          target = (
            this.unlinked,
            same.pointers index n ∙ this.points,
            inr (
              same.kinds this.unlinked ∙ this.free,
              rw (← joined) (is_planned-last bb n index (held ++ s.parse_and_link)),
            ),
          );
          sound =
              rw (← joined) (Unchanged-IsSound same (planned-IsSound bb n index sound this single));
        }

    link_together-Planned :
        {next : NodeId} {s' : Parser T}
        → find bb s.copy_mapping ≡ some next
        → Linked n next index s s'
        → pointer_at index s' n ≡ some next
        → IsSound llvm s' (held ++ s.parse_and_link)
        → Planned held bb n index s s'
    link_together-Planned {next} {s'} found linked points after =
        let queue : s'.parse_and_link ≡ s.parse_and_link = linked.rest.queue in
        record {
          kinds = linked.kinds;
          pointers = Linked-pointer linked;
          next_node = linked.next_node;
          mapping = linked.rest.mapping;
          longer = rw queue (omega arith);
          still = λ bb' k i h. rw queue h;
          single = λ j i differs h. rw queue h;
          target = (next, points, inl (rw linked.rest.mapping found));
          sound = subst (λ q. IsSound llvm s' (held ++ q)) (sym queue) after;
        }

    pub link_with_or_plan_processing-Planned :
        (s' : Parser T) × (link_with_or_plan_processing n bb index s ≡ ok tt s')
        × Planned held bb n index s s'
    unfolding link_with_or_plan_processing plan_processing planned_state
    link_with_or_plan_processing-Planned = elim (Option-cases (find bb s.copy_mapping)) [
      | inl missing ↦
          (planned_state, rw (missing, link_with_or_plan_processing) refl, plan_processing-Planned)
      | inr (next, found) ↦
          let (kind, there) = sound.mapped bb found in
          let (s', done, linked, points, after) = link-IsSound sound this single next there in
          (
            s',
            rw (found, link_with_or_plan_processing) done,
            link_together-Planned found linked points after,
          )
    ]
