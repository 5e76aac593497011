-- ===== src/MemoryGraph/Memory.antt =====
-- What the memory graph analysis does to the memory of a state keeps its graph well-formed:
-- src/MemoryGraphAnalysis.hpp.
use angie.Common.{inl, inr, ◌==◌, Bool-cases}
use angie.Common.Dict.{ℕ_key}
use angie.Common.Run.{read}
use angie.Common.Outcomes.{
  Keeps, Holds, Holds-ok, Holds-result, Holds-read, Holds-bind, Holds-then, Holds-if,
}
use angie.Values.{ValueId}
use angie.ValueContainer.{get_constant_int_inner_val}
use angie.ValueContainer.Compare.{is_true, is_zero}
use angie.FrontendTypes.{FrontendTypes}
use angie.Smg.Object.{stack, heap}
use angie.Smg.Graph.Read.{create_derived_pointer as graph_derived_pointer}
use angie.Smg.WellFormed.{IsWellFormed}
use angie.Smg.WellFormed.Kept.{write_value_at-Keeps}
use angie.Smg.WellFormed.Reads.{write_value-Keeps, read_value-Keeps, derived-Keeps}
use angie.Smg.WellFormed.Lifetimes.{allocate-Keeps, free-Keeps}
use angie.MemoryGraph.{
  Memory, is_abstract, constant_of, container_ops, byte_array, store, load, allocate_on_stack,
  malloc, calloc, memclear, memset, free, create_derived_pointer,
}

module _ {T : Type 0} where
  constant_of-Holds : (v : ValueId) → Holds (IsWellFormed {T = T}) (constant_of v)
  unfolding constant_of
  constant_of-Holds v g h = elim (Bool-cases (is_abstract v g)) [
    | inl abstract ↦ rw (Keeps, abstract) h
    | inr known ↦
        rw (Keeps, known) (Holds-result IsWellFormed (get_constant_int_inner_val g.vc v) g h)
  ]

module _ {T : Type 0} (fe : FrontendTypes T) where
  pub store-Holds : (to what : ValueId) (type : T) → Holds IsWellFormed (store fe to what type)
  unfolding store
  store-Holds to what type = write_value-Keeps fe.types to what type

  pub load-Holds : (ptr : ValueId) (type : T) → Holds IsWellFormed (load fe ptr type)
  unfolding load
  load-Holds ptr type = read_value-Keeps fe.types (container_ops fe) ptr type

  pub allocate_on_stack-Holds :
      (type : T) (count : ValueId) → Holds IsWellFormed (allocate_on_stack fe type count)
  unfolding allocate_on_stack
  allocate_on_stack-Holds type count =
      Holds-bind IsWellFormed (constant_of count) _ (constant_of-Holds count) (λ n.
        Holds-if IsWellFormed (n == 1) _ _ (allocate-Keeps fe.types (container_ops fe) type stack)
          (λ g h. h))

  pub malloc-Holds : (size : ValueId) → Holds IsWellFormed (malloc fe size)
  unfolding malloc
  malloc-Holds size =
      Holds-bind IsWellFormed (constant_of size) _ (constant_of-Holds size)
        (λ n. allocate-Keeps fe.types (container_ops fe) (byte_array fe n) heap)

  pub memclear-Holds : (ptr size : ValueId) → Holds IsWellFormed (memclear fe ptr size)
  unfolding memclear
  memclear-Holds ptr size =
      Holds-bind IsWellFormed (constant_of size) _ (constant_of-Holds size) (λ n.
        Holds-bind IsWellFormed (graph_derived_pointer fe.types (container_ops fe) ptr 0) _
          (derived-Keeps fe.types (container_ops fe) ptr 0)
          (λ derived g h.
            write_value_at-Keeps fe.types derived.1 g.vc.zero_id (byte_array fe n) g h))

  pub calloc-Holds : (size : ValueId) → Holds IsWellFormed (calloc fe size)
  unfolding calloc
  calloc-Holds size = Holds-bind IsWellFormed (malloc fe size) _ (malloc-Holds size) (λ mem.
      Holds-then IsWellFormed (memclear fe mem size) _ (memclear-Holds mem size)
        (Holds-ok IsWellFormed mem))

  pub free-Holds : (ptr : ValueId) → Holds IsWellFormed (free fe ptr)
  unfolding free
  free-Holds ptr = free-Keeps fe.types ptr

  pub memset-Holds : (ptr what size : ValueId) → Holds IsWellFormed (memset fe ptr what size)
  unfolding memset
  memset-Holds ptr what size =
      Holds-bind IsWellFormed (read (λ (g : Memory T). is_zero g.vc what)) _
        (Holds-read IsWellFormed (λ g. is_zero g.vc what))
        (λ zero_value.
          Holds-if IsWellFormed (is_true zero_value) _ _ (memclear-Holds ptr size)
            (Holds-then IsWellFormed (constant_of size) _ (constant_of-Holds size) (λ g h. h)))

  pub derived-Holds :
      (base_ptr offset : ValueId) → Holds IsWellFormed (create_derived_pointer fe base_ptr offset)
  unfolding create_derived_pointer
  derived-Holds base_ptr offset =
      Holds-bind IsWellFormed (graph_derived_pointer fe.types (container_ops fe) base_ptr offset) _
        (derived-Keeps fe.types (container_ops fe) base_ptr offset)
        (λ derived. Holds-ok IsWellFormed derived.0)
