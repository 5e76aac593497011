-- ===== src/MemoryGraph/Malloc.antt =====
-- The life of a region in the memory graph analysis, from Malloc to Free and after it.
use angie.Common.{ℕ, ◌<◌, ◌≡◌, refl, subst, false, none, some, arith, inl, inr, Option-cases}
use angie.Common.Int.{pos}
use angie.Common.Dict.{Dict, ℕ_key, ℤ_key, find, assign, eq_refl}
use angie.Common.Run.{Outcome, ok, raise, double_free, invalid_dereference}
use angie.Common.Outcomes.{Keeps, Any}
use angie.Values.{ValueId, next_id}
use angie.ValueContainer.{
  ValueContainer, create_val, create_const_int_val, id_of_value, insert_constant,
  get_constant_int_inner_val, get_abstraction_status, is_constant,
}
use angie.FrontendTypes.{FrontendTypes}
use angie.Smg.{ObjectId}
use angie.Smg.Container.{value_container}
use angie.Smg.Object.{Object, heap, find_pt_edge_by_value}
use angie.Smg.Graph.Allocate.{after_allocation, allocated-IsHeapPointer, allocate-ok}
use angie.Smg.Graph.Free.{without_object, find-without_object, use_after_free}
use angie.Smg.Closed.{is_there}
use angie.Smg.WellFormed.{IsWellFormed}
use angie.MemoryGraph.{
  Memory, constant_of, is_abstract, container_ops, byte_array, store, load, malloc, free,
}
use angie.MemoryGraph.Memory.{malloc-Holds, free-Holds}

-- CreateConstIntVal always returns.
const-Returns :
    (n : ℕ) (c : ValueContainer)
    → (id : ValueId) × (c' : ValueContainer) × (create_const_int_val n c ≡ ok id c')
unfolding create_const_int_val insert_constant
const-Returns n c = elim (Option-cases (id_of_value n c.constants)) [
  | inl missing ↦ (
    c.next_value_id,
    record c {
      constants = assign c.next_value_id n c.constants;
      next_value_id = next_id c.next_value_id;
    },
    rw (create_const_int_val, missing) refl,
  )
  | inr (id, found) ↦ (id, c, rw (create_const_int_val, found) refl)
]

missing-object :
    {T : Type 0} (objects : Dict ObjectId (Object T)) (id : ObjectId)
    → is_there objects id ≡ false
    → find id objects ≡ none
unfolding is_there
missing-object objects id h = ground arith

gone :
    {T : Type 0} (id : ObjectId) (g : Memory T) → is_there (without_object id g).objects id ≡ false
unfolding is_there
gone id g = ground (arith, find-without_object id id g, eq_refl ⦃e = ℤ_key⦄ id)

module _ {T : Type 0} (fe : FrontendTypes T) where
  constant_of-ok :
      (v : ValueId) (g : Memory T) {n : ℕ}
      → find v g.vc.constants ≡ some n
      → constant_of v g ≡ ok n g
  unfolding constant_of is_abstract get_abstraction_status is_constant get_constant_int_inner_val
  constant_of-ok v g found = ground arith

  -- A run of Malloc and of Free that kept a graph well-formed.
  kept :
      {A : Type 0} {o : Outcome (Memory T) A} {a : A} {g' : Memory T}
      → o ≡ ok a g'
      → Keeps IsWellFormed Any o
      → IsWellFormed g'
  kept {a} {g'} same h = (subst (Keeps IsWellFormed Any) same h).0

  -- Malloc of a constant size, on a well-formed graph where no handle knows the next value: it returns
  -- this value, Free of it succeeds and takes the object away, and after that another Free of it is
  -- a double free, and a load or a store through it an invalid dereference; the graph is
  -- well-formed before and after Free.
  pub malloc-lifetime :
      (size : ValueId) (g : Memory T) {n : ℕ}
      → IsWellFormed g
      → 0 < g.next_object_id
      → find size g.vc.constants ≡ some n
      → find_pt_edge_by_value g.handles g.vc.next_value_id ≡ none
      → (v : ValueId) (type : T)
      → (g1 : Memory T) × (let ptr = g.vc.next_value_id in
          let g2 = without_object (pos g.next_object_id) g1 in
          (malloc fe size g ≡ ok ptr g1)
          × (free fe ptr g1 ≡ ok tt g2)
          × (is_there g2.objects (pos g.next_object_id) ≡ false)
          × (free fe ptr g2 ≡ raise double_free g2)
          × (load fe ptr type g2 ≡ raise invalid_dereference g2)
          × (store fe ptr v type g2 ≡ raise invalid_dereference g2)
          × IsWellFormed g1
          × IsWellFormed g2)
  unfolding malloc free load store value_container create_val
  malloc-lifetime size g {n} h positive constant_size new_pointer v type =
      let ops = container_ops fe in
      let (size_id, sized, sizes) =
        const-Returns (fe.types.get_size_of (byte_array fe n))
          (record g.vc { next_value_id = next_id g.vc.next_value_id }) in
      let ptr = g.vc.next_value_id in
      let g1 : Memory T = after_allocation fe.types ops g ptr size_id sized heap in
      let missing =
        missing-object g.objects (pos g.next_object_id) (h.fresh g.next_object_id (omega arith)) in
      let is =
        allocated-IsHeapPointer fe.types ops g {ptr = ptr} {size = size_id} {sized = sized}
          new_pointer missing positive in
      let allocates : malloc fe size g ≡ ok ptr g1 =
        rw (constant_of-ok size g constant_size)
          (allocate-ok fe.types ops g (byte_array fe n) heap refl sizes) in
      let (frees, again, reads, writes) = use_after_free fe.types ops is ptr is.known refl v type in
      let well = kept allocates (malloc-Holds fe size g h) in
      (
        g1,
        (
          allocates,
          frees,
          gone (pos g.next_object_id) g1,
          again,
          reads,
          writes,
          well,
          kept frees (free-Holds fe ptr g1 well),
        ),
      )
