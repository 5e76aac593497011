-- ===== src/Smg/Graph/Allocate.antt =====
-- AllocateRegion of src/Smg/Graph.hpp: a new object with a pointer of its own.
use angie.Common.{suc, ◌<◌, ◌≡◌, refl, none, some, [], ◌∷◌, ◌==◌, arith, if◌then◌else◌}
use angie.Common.Int.{pos, eqb_ℤ}
use angie.Common.Dict.{Dict, ℤ_key, find, emplace, find-assign, find-emplace_new, eq_refl}
use angie.Common.Run.{ok}
use angie.Values.{ValueId}
use angie.Smg.{ObjectId, IsOrdinary, TypeSystem, IValueContainer}
use angie.Smg.Edge.{PtEdge, find_edge}
use angie.Smg.Edge.Search.{find_edge-append}
use angie.Smg.Object.{
  Object, MemorySpace, heap, create_region, find_pt_edge_by_value, create_pt_edge, handle_edge,
}
use angie.Smg.InEdges.{update_object}
use angie.Smg.Graph.{Graph, get_next_object_id, free}
use angie.Smg.Graph.Read.{allocate_region}
use angie.Smg.Graph.Free.{IsHeapPointer, without_object, free-ok}

find-update_object :
    {T : Type 0} (id j : ObjectId) (f : Object T → Object T) (objects : Dict ObjectId (Object T))
    {o : Object T}
    → find id objects ≡ some o
    → find j (update_object id f objects) ≡ (if eqb_ℤ id j then some (f o) else find j objects)
find-update_object id j f objects {o} there =
    ground (arith, find-assign ⦃e = ℤ_key⦄ id j (f o) objects)

module _ {T V : Type 0} (ty : TypeSystem T) (ops : IValueContainer T V) (g : Graph T V) where
  -- The region that is allocated.
  abbrev pub region_of : (size : ValueId) → MemorySpace → Object T
  region_of size ms = record (create_region (pos g.next_object_id)) { size = size; mem_space = ms }

  -- The graph after the allocation.
  abbrev pub after_allocation : (ptr size : ValueId) → V → MemorySpace → Graph T V
  after_allocation ptr size sized ms = record {
    objects =
        update_object (pos g.next_object_id) (λ o. record o { size = size; mem_space = ms })
          (emplace (pos g.next_object_id) (create_region (pos g.next_object_id)) g.objects);
    next_object_id = suc g.next_object_id;
    handles = create_pt_edge (handle_edge ty ptr (pos g.next_object_id)) g.handles;
    vc = sized;
  }

  pub allocate-ok :
      (type : T) (ms : MemorySpace) {ptr size : ValueId} {created sized : V}
      → ops.create_val (ty.pointer_to type) g.vc ≡ ok ptr created
      → ops.create_const_int_val (ty.get_size_of type) created ≡ ok size sized
      → allocate_region ty ops type ms g ≡ ok ptr (after_allocation ptr size sized ms)
  unfolding allocate_region get_next_object_id
  allocate-ok type ms creates sizes = rw (creates, sizes) refl

  find-after_allocation :
      (ptr size : ValueId) (sized : V) (ms : MemorySpace) (j : ObjectId)
      → find (pos g.next_object_id) g.objects ≡ none
      → find j (after_allocation ptr size sized ms).objects
        ≡ (if eqb_ℤ (pos g.next_object_id) j then some (region_of size ms) else find j g.objects)
  find-after_allocation ptr size sized ms j missing =
      let id = pos g.next_object_id in
      let fresh = find-emplace_new ⦃e = ℤ_key⦄ id id (create_region id) g.objects missing in
      let made : find id (emplace id (create_region id) g.objects) ≡ some (create_region id) =
        ground (arith, fresh, eq_refl ⦃e = ℤ_key⦄ id) in
      ground (
        arith,
        find-update_object id j (λ o. record o { size = size; mem_space = ms })
            (emplace id (create_region id) g.objects) made,
        find-emplace_new ⦃e = ℤ_key⦄ id j (create_region id) g.objects missing,
      )

  handle-after_allocation :
      (ptr size : ValueId) (sized : V) (ms : MemorySpace) (w : ValueId)
      → find_pt_edge_by_value g.handles ptr ≡ none
      → find_pt_edge_by_value (after_allocation ptr size sized ms).handles w ≡ (
          if ptr == w
          then some (handle_edge ty ptr (pos g.next_object_id))
          else find_pt_edge_by_value g.handles w)
  unfolding find_pt_edge_by_value create_pt_edge find_edge
  handle-after_allocation ptr size sized ms w missing = ground (
    arith,
    find_edge-append (λ (edge : PtEdge T). edge.value) w g.handles.pt_edges
        (handle_edge ty ptr (pos g.next_object_id) ∷ []),
  )

  -- AllocateRegion, where the container creates a value that no handle knows and the next object id is
  -- positive and not in use: it returns the value, which is a pointer to a new region of the
  -- requested memory space under the next id, every other object is as it was, and so is the
  -- handle of every other value.
  pub allocate_region_lem :
      (type : T) (ms : MemorySpace) {ptr size : ValueId} {created sized : V}
      → ops.create_val (ty.pointer_to type) g.vc ≡ ok ptr created
      → ops.create_const_int_val (ty.get_size_of type) created ≡ ok size sized
      → find_pt_edge_by_value g.handles ptr ≡ none
      → find (pos g.next_object_id) g.objects ≡ none
      → 0 < g.next_object_id
      → (j : ObjectId) (w : ValueId)
      → (allocate_region ty ops type ms g ≡ ok ptr (after_allocation ptr size sized ms))
        × IsOrdinary (pos g.next_object_id)
        × (find j (after_allocation ptr size sized ms).objects ≡ (
            if eqb_ℤ (pos g.next_object_id) j then some (region_of size ms) else find j g.objects))
        × (find_pt_edge_by_value (after_allocation ptr size sized ms).handles w ≡ (
            if ptr == w
            then some (handle_edge ty ptr (pos g.next_object_id))
            else find_pt_edge_by_value g.handles w))
  allocate_region_lem type ms {ptr} {size} {sized = sized} creates sizes new_pointer new_object
        positive j w =
      (
        allocate-ok type ms creates sizes,
        (ground arith, ground arith, ground arith),
        find-after_allocation ptr size sized ms j new_object,
        handle-after_allocation ptr size sized ms w new_pointer,
      )

  -- The pointer to a new region on the heap.
  pub allocated-IsHeapPointer :
      {ptr size : ValueId} {sized : V}
      → find_pt_edge_by_value g.handles ptr ≡ none
      → find (pos g.next_object_id) g.objects ≡ none
      → 0 < g.next_object_id
      → IsHeapPointer
          (after_allocation ptr size sized heap)
          ptr
          (handle_edge ty ptr (pos g.next_object_id))
          (region_of size heap)
  unfolding create_region
  allocated-IsHeapPointer {ptr} {size} {sized} new_pointer new_object positive = record {
    known = ground (arith, handle-after_allocation ptr size sized heap ptr new_pointer);
    ordinary = (ground arith, ground arith, ground arith);
    there = ground (
      arith,
      find-after_allocation ptr size sized heap (pos g.next_object_id) new_object,
      eq_refl ⦃e = ℤ_key⦄ (pos g.next_object_id),
    );
    id_fits = refl;
    on_heap = refl;
  }

  -- A region that was allocated on the heap can be freed through its pointer.
  pub free-allocate_region :
      (type : T) {ptr size : ValueId} {created sized : V}
      → ops.create_val (ty.pointer_to type) g.vc ≡ ok ptr created
      → ops.create_const_int_val (ty.get_size_of type) created ≡ ok size sized
      → find_pt_edge_by_value g.handles ptr ≡ none
      → find (pos g.next_object_id) g.objects ≡ none
      → 0 < g.next_object_id
      → (allocate_region ty ops type heap g ≡ ok ptr (after_allocation ptr size sized heap))
        × (free ty ptr (after_allocation ptr size sized heap)
            ≡ ok tt (without_object (pos g.next_object_id) (after_allocation ptr size sized heap)))
  free-allocate_region type {ptr} {size} {sized = sized} creates sizes new_pointer new_object
        positive =
      (
        allocate-ok type heap creates sizes,
        free-ok ty ops (allocated-IsHeapPointer {sized = sized} new_pointer new_object positive),
      )
