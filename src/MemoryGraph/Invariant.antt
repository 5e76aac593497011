-- ===== src/MemoryGraph/Invariant.antt =====
-- Every operation of the memory graph analysis keeps the graph of a state well-formed, and so does
-- the whole analysis: src/MemoryGraphAnalysis.hpp.
use angie.Common.{◌≡◌, refl, Bool, none, some, List, [], ◌∷◌, inl, inr, Option-cases}
use angie.Common.Run.{Run, Outcome, ok, raise}
use angie.Common.Outcomes.{
  Ends, Keeps, Any, Holds, Holds-ok, Holds-result, Holds-read, Holds-bind, Holds-then, Holds-if,
  IsKeeping, IsKeeping-bind, IsKeeping-read, keeping,
}
use angie.Values.{ValueId, FrontendId, CmpFlags}
use angie.ValueContainer.{ValueContainer, create_const_int_val}
use angie.ValueContainer.Compare.{Tribool}
use angie.Mapper.{Mapper}
use angie.FrontendTypes.{FrontendTypes}
use angie.ValueContainer.Assume.{truth_word}
use angie.Smg.Graph.{on_vc, lift_outcome}
use angie.Smg.WellFormed.{IsWellFormed, lift-IsWellFormed}
use angie.Analysis.{State, get_value, assign_value}
use angie.Analysis.Args.{FrontendIdTypePair}
use angie.Analysis.Branch.{with_vc, execute_branch, branch_on_value}
use angie.Analysis.CommonOperations.{put_vc, on_container, value_at, assign_to}
use angie.MemoryGraph.{
  Frame, MemoryGraph, Memory, holder, store, load, allocate_on_stack, malloc, memset, free,
  create_derived_pointer,
}
use angie.MemoryGraph.Frames.{stack_push, stack_pop, stack_pop_value}
use angie.MemoryGraph.Memory.{
  store-Holds, load-Holds, allocate_on_stack-Holds, malloc-Holds, memset-Holds, free-Holds,
  derived-Holds,
}
use angie.MemoryGraph.Operations.{
  put_memory, on_memory, first_offset, second_offset, known_or, compare,
}

module _ {T : Type 0} where
  abbrev pub HasGraph : MemoryGraph T → Type 0
  HasGraph m = IsWellFormed m.graph

  abbrev pub Wf : State (MemoryGraph T) → Type 0
  Wf s = HasGraph s.extra

  put-Keeps :
      {A : Type 0} (s : State (MemoryGraph T)) (o : Outcome (Memory T) A)
      → Keeps IsWellFormed Any o
      → Keeps Wf Any (put_memory s o)
  put-Keeps s (ok a g) h = h
  put-Keeps s (raise e g) h = h

  memory-Holds : {A : Type 0} (m : Run (Memory T) A) → Holds IsWellFormed m → Holds Wf (on_memory m)
  memory-Holds m keeps s h = put-Keeps s (m s.extra.graph) (keeps s.extra.graph h)

  lifted-Keeps :
      {A : Type 0} (g : Memory T) (o : Outcome ValueContainer A)
      → IsWellFormed g
      → Keeps (IsWellFormed {T = T}) Any (lift_outcome g o)
  lifted-Keeps {A} g (ok a c) h = ((lift-IsWellFormed g (ok a c) h).0, tt)
  lifted-Keeps {A} g (raise e c) h = lift-IsWellFormed {A = A} g (raise e c) h

  vc-Holds : {A : Type 0} (m : Run ValueContainer A) → Holds (IsWellFormed {T = T}) (on_vc m)
  vc-Holds m g h = lifted-Keeps g (m g.vc) h

  pub vc-IsKeeping :
      {A : Type 0} (m : Run ValueContainer A) → IsKeeping (IsWellFormed {T = T}) (on_vc m)
  vc-IsKeeping m = record { holds = vc-Holds m }

  put_vc-Keeps :
      {A : Type 0} (s : State (MemoryGraph T)) (o : Outcome ValueContainer A)
      → Wf s
      → Keeps Wf Any (put_vc holder s o)
  put_vc-Keeps {A} s (ok a c) h = ((lift-IsWellFormed s.extra.graph (ok a c) h).0, tt)
  put_vc-Keeps {A} s (raise e c) h = lift-IsWellFormed {A = A} s.extra.graph (raise e c) h

  with_vc-Keeps :
      (s : State (MemoryGraph T)) (o : Outcome ValueContainer (Unit {0}))
      → Wf s
      → Keeps Wf Any (with_vc holder.set_vc s o)
  with_vc-Keeps s (ok a c) h = ((lift-IsWellFormed s.extra.graph (ok a c) h).0, tt)
  with_vc-Keeps s (raise e c) h = lift-IsWellFormed {A = Unit {0}} s.extra.graph (raise e c) h

  pub memory-IsKeeping :
      {A : Type 0} {m : Run (Memory T) A} → IsKeeping IsWellFormed m → IsKeeping Wf (on_memory m)
  memory-IsKeeping {m} keeps = record { holds = memory-Holds m keeps.holds }

  pub container-IsKeeping :
      {A : Type 0} (m : Run ValueContainer A) → IsKeeping Wf (on_container (holder {T = T}) m)
  container-IsKeeping m = record { holds = λ s h. put_vc-Keeps s (m s.extra.graph.vc) h }

  pub value-IsKeeping : (m : Mapper) (pair : FrontendIdTypePair T) → IsKeeping Wf (value_at m pair)
  value-IsKeeping m pair = IsKeeping-read (λ s. get_value m s pair.id)

  pub assign-IsKeeping :
      (pair : FrontendIdTypePair T) (v : ValueId) → IsKeeping Wf (assign_to pair v)
  unfolding assign_value
  assign-IsKeeping pair v = record { holds = λ s h. (h, tt) }

  pub push-IsKeeping : (id : FrontendId) → IsKeeping Wf (stack_push {T = T} id)
  unfolding stack_push
  push-IsKeeping id = record {
    holds = λ s h. elim (Option-cases s.extra.stack_ret_node) [
      | inl missing ↦ rw (Keeps, missing) h
      | inr (node, set) ↦ rw (Keeps, set) (h, tt)
    ];
  }

  popped-Keeps :
      (frames : List Frame) (s : State (MemoryGraph T)) (v : ValueId)
      → s.extra.stack ≡ frames
      → Wf s
      → Keeps Wf Any (stack_pop s) × Keeps Wf Any (stack_pop_value v s)
  unfolding stack_pop stack_pop_value
  popped-Keeps [] s v at h = rw (Keeps, at) (h, h)
  popped-Keeps (frame ∷ frames) s v at h = rw (Keeps, at) ((h, tt), (h, tt))

  pub pop-IsKeeping : IsKeeping Wf (stack_pop {T = T})
  pop-IsKeeping = record { holds = λ s h. (popped-Keeps s.extra.stack s 0 refl h).0 }

  pub pop_value-IsKeeping : (v : ValueId) → IsKeeping Wf (stack_pop_value {T = T} v)
  pop_value-IsKeeping v = record { holds = λ s h. (popped-Keeps s.extra.stack s v refl h).1 }

  pub branch-IsKeeping :
      (m : Mapper) (id : FrontendId) (br : Bool)
      → IsKeeping Wf (execute_branch (holder {T = T}).vc holder.set_vc m id br)
  unfolding execute_branch
  branch-IsKeeping m id br =
      IsKeeping-bind (IsKeeping-read (λ s. get_value m s id)) (λ lhs. record {
        holds = λ s h. with_vc-Keeps s (branch_on_value br lhs s.extra.graph.vc) h;
      })

pub known_or-IsKeeping :
    {T : Type 0} (known : Tribool) {otherwise : Run (Memory T) ValueId}
    → IsKeeping IsWellFormed otherwise
    → IsKeeping IsWellFormed (known_or known otherwise)
unfolding known_or
known_or-IsKeeping (some b) h = vc-IsKeeping (create_const_int_val (truth_word b))
known_or-IsKeeping none h = h

module _ {T : Type 0} (fe : FrontendTypes T) where
  pub first_offset-IsKeeping :
      (type : T) (index : ValueId) → IsKeeping IsWellFormed (first_offset fe type index)
  unfolding first_offset
  first_offset-IsKeeping type index = search (keeping, vc-IsKeeping)

  pub second_offset-IsKeeping :
      (type : T) (offset index : ValueId)
      → IsKeeping IsWellFormed (second_offset fe type offset index)
  unfolding second_offset
  second_offset-IsKeeping type offset index = search (keeping, vc-IsKeeping)

  pub compare-IsKeeping :
      (lhs rhs : ValueId) (type : T) (flags : CmpFlags)
      → IsKeeping IsWellFormed (compare fe lhs rhs type flags)
  unfolding compare
  compare-IsKeeping lhs rhs type flags = search (keeping, vc-IsKeeping, known_or-IsKeeping)

  -- The calls that change the memory.
  pub store-IsKeeping :
      (to what : ValueId) (type : T) → IsKeeping IsWellFormed (store fe to what type)
  store-IsKeeping to what type = record { holds = store-Holds fe to what type }

  pub load-IsKeeping : (ptr : ValueId) (type : T) → IsKeeping IsWellFormed (load fe ptr type)
  load-IsKeeping ptr type = record { holds = load-Holds fe ptr type }

  pub alloca-IsKeeping :
      (type : T) (count : ValueId) → IsKeeping IsWellFormed (allocate_on_stack fe type count)
  alloca-IsKeeping type count = record { holds = allocate_on_stack-Holds fe type count }

  pub malloc-IsKeeping : (size : ValueId) → IsKeeping IsWellFormed (malloc fe size)
  malloc-IsKeeping size = record { holds = malloc-Holds fe size }

  pub memset-IsKeeping :
      (ptr what size : ValueId) → IsKeeping IsWellFormed (memset fe ptr what size)
  memset-IsKeeping ptr what size = record { holds = memset-Holds fe ptr what size }

  pub free-IsKeeping : (ptr : ValueId) → IsKeeping IsWellFormed (free fe ptr)
  free-IsKeeping ptr = record { holds = free-Holds fe ptr }

  pub derived-IsKeeping :
      (ptr offset : ValueId) → IsKeeping IsWellFormed (create_derived_pointer fe ptr offset)
  derived-IsKeeping ptr offset = record { holds = derived-Holds fe ptr offset }

pub ruleset memory_calls = (
  keeping, memory-IsKeeping, container-IsKeeping, value-IsKeeping, assign-IsKeeping, vc-IsKeeping,
  first_offset-IsKeeping, second_offset-IsKeeping, compare-IsKeeping, store-IsKeeping,
  load-IsKeeping, alloca-IsKeeping, malloc-IsKeeping, memset-IsKeeping, free-IsKeeping,
  derived-IsKeeping, push-IsKeeping, pop-IsKeeping, pop_value-IsKeeping,
)
