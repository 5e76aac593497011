-- ===== src/Smg/Graph/Free.antt =====
-- Free of src/Smg/Graph.hpp: no edge is left into the freed object, and what its pointers then do.
use mathlib.Core.Option
use angie.Common.{◌≡◌, false, none, some, [], arith, ◌⊎◌, if◌then◌else◌}
use angie.Common.Int.{eqb_ℤ, eqb_ℤ_iff}
use angie.Common.Dict.{ℤ_key, find, erase, find-erase}
use angie.Common.Run.{
  Exception, undefined_behaviour, ok, raise, invalid_dereference, invalid_free, double_free,
  non_heap_free,
}
use angie.Values.{ValueId}
use angie.Smg.{ObjectId, freed_id, TypeSystem, IValueContainer, IsOrdinary}
use angie.Smg.Edge.{HvEdge, PtEdge}
use angie.Smg.Object.{Object, heap, is_heap, find_pt_edge_by_value, find_hv_edge_by_offset}
use angie.Smg.InEdges.{redirect_edge, redirect_object, redirect_objects}
use angie.Smg.InEdges.Redirect.{
  find_pt_edge_by_value-redirect_object, find-redirect_objects, target-redirect_edge,
  edges_into-redirect_edges, in_edges_of_objects-redirect, in_edges_of_objects-erase,
}
use angie.Smg.Graph.{
  Graph, object_at, check_dereference, find_pt_in_edges, redirect_in_edges, free_object,
  find_pt_edge, create_unknown_pt_edge, write_value_at, write_value, free,
}
use angie.Smg.Graph.Read.{read_plain, read_value}
use angie.Smg.Graph.WriteRead.{IsAccess}

module _ {T V : Type 0} where
  -- A pointer that leads to an object of its own, which is on the heap.
  pub record IsHeapPointer (g : Graph T V) (ptr : ValueId) (edge : PtEdge T) (o : Object T)
      : Type 0 where
    pub known : find_pt_edge_by_value g.handles ptr ≡ some edge
    pub ordinary : IsOrdinary edge.target_object_id
    pub there : find edge.target_object_id g.objects ≡ some o
    pub id_fits : o.id ≡ edge.target_object_id
    pub on_heap : o.mem_space ≡ heap

  -- The graph without the object: the edges into it lead to freed memory.
  unfoldable pub without_object : ObjectId → Graph T V → Graph T V
  unfolding redirect_in_edges
  without_object id g = record (redirect_in_edges id freed_id g) {
    objects = erase id (redirect_in_edges id freed_id g).objects;
  }

  pub find-without_object :
      (id j : ObjectId) (g : Graph T V)
      → find j (without_object id g).objects
        ≡ (if eqb_ℤ id j then none else Option.map (redirect_object id freed_id) (find j g.objects))
  unfolding without_object
  find-without_object id j g = ground (
    arith,
    find-erase ⦃e = ℤ_key⦄ id j (redirect_objects id freed_id g.objects),
    find-redirect_objects id freed_id j g.objects,
  )

  pub find_pt_in_edges-without_object :
      (id : ObjectId) (g : Graph T V)
      → eqb_ℤ freed_id id ≡ false
      → find_pt_in_edges id (without_object id g) ≡ []
  unfolding find_pt_in_edges without_object redirect_object
  find_pt_in_edges-without_object id g apart = rw (
    edges_into-redirect_edges id freed_id apart (redirect_object id freed_id g.handles)
        g.handles.pt_edges,
    in_edges_of_objects-erase id id (redirect_objects id freed_id g.objects)
        (in_edges_of_objects-redirect id freed_id apart g.objects),
  )

module _ {T V : Type 0} (ty : TypeSystem T) (ops : IValueContainer T V) {g : Graph T V}
    {ptr : ValueId} {edge : PtEdge T} {o : Object T} (is : IsHeapPointer g ptr edge o) where
  pub free-ok : free ty ptr g ≡ ok tt (without_object edge.target_object_id g)
  unfolding free find_pt_edge free_object is_heap without_object
  free-ok = ground arith

  -- After Free of a pointer to a heap object the call succeeds, the object is gone, every other
  -- object is still there with the edges into the freed one redirected to freed memory, and no
  -- points-to edge of the graph leads into the freed object.
  pub free-no_dangling :
      (free ty ptr g ≡ ok tt (without_object edge.target_object_id g))
      × ((j : ObjectId)
          → find j (without_object edge.target_object_id g).objects ≡ (
              if eqb_ℤ edge.target_object_id j
              then none
              else Option.map (redirect_object edge.target_object_id freed_id) (find j g.objects)))
      × (find_pt_in_edges edge.target_object_id (without_object edge.target_object_id g) ≡ [])
  free-no_dangling = (
    free-ok,
    λ j. find-without_object edge.target_object_id j g,
    find_pt_in_edges-without_object edge.target_object_id g (ground (arith, is.ordinary)),
  )

  module _ (alias : ValueId) {e : PtEdge T}
      (aliased : find_pt_edge_by_value g.handles alias ≡ some e) where
    handle-after :
        find_pt_edge_by_value (without_object edge.target_object_id g).handles alias
        ≡ some (redirect_edge edge.target_object_id freed_id e)
    unfolding without_object
    handle-after = rw (
      find_pt_edge_by_value-redirect_object edge.target_object_id freed_id alias g.handles,
      aliased,
    )

    target-after :
        e.target_object_id ≡ edge.target_object_id
        → (redirect_edge edge.target_object_id freed_id e).target_object_id ≡ freed_id
    target-after same = ground (
      arith,
      target-redirect_edge edge.target_object_id freed_id e,
      eqb_ℤ_iff e.target_object_id edge.target_object_id,
    )

    -- After Free, each pointer that leads to the same object (the freed pointer among them) is
    -- dead: another Free of it is a double free, and a read or write through it is an invalid
    -- dereference. None of the three changes the graph.
    pub use_after_free :
        e.target_object_id ≡ edge.target_object_id
        → (value : ValueId) (type : T)
        → let g' = without_object edge.target_object_id g in
          (free ty ptr g ≡ ok tt g')
          × (free ty alias g' ≡ raise double_free g')
          × (read_value ty ops alias type g' ≡ raise invalid_dereference g')
          × (write_value ty alias value type g' ≡ raise invalid_dereference g')
    unfolding free find_pt_edge check_dereference read_value write_value write_value_at
    use_after_free same value type = (
      free-ok,
      ground (arith, handle-after, target-after same),
      ground (arith, handle-after, target-after same),
      ground (arith, handle-after, target-after same),
    )

    handle-other :
        eqb_ℤ e.target_object_id edge.target_object_id ≡ false
        → find_pt_edge_by_value (without_object edge.target_object_id g).handles alias ≡ some e
    unfolding redirect_edge
    handle-other other = ground (arith, handle-after)

  -- Free of a pointer to a heap object succeeds and changes nothing for a pointer to another object:
  -- its handle is the same edge, and a plain read through it yields after Free what it yielded before
  -- and changes nothing.
  pub free-other_pointer :
      (other : ValueId) {e : PtEdge T} {o' : Object T} {hv : HvEdge T} (read_type : T)
      → IsAccess g other e o'
      → eqb_ℤ edge.target_object_id e.target_object_id ≡ false
      → ty.is_pointer read_type ≡ false
      → find_hv_edge_by_offset o' e.target_offset ≡ some hv
      → (g' : Graph T V) × (free ty ptr g ≡ ok tt g')
        × (find_pt_edge_by_value g'.handles other ≡ some e)
        × (read_value ty ops other read_type g ≡ ok hv.value g)
        × (read_value ty ops other read_type g' ≡ ok hv.value g')
  unfolding read_value read_plain find_pt_edge check_dereference object_at redirect_object
      find_hv_edge_by_offset
  free-other_pointer other {e} {o'} read_type is' apart plain stored =
      let same =
        handle-other other is'.known
          (ground (arith, eqb_ℤ_iff e.target_object_id edge.target_object_id)) in
      (
        without_object edge.target_object_id g,
        free-ok,
        same,
        ground arith,
        ground (arith, same, find-without_object edge.target_object_id e.target_object_id g),
      )

module _ {T V : Type 0} (ty : TypeSystem T) (g : Graph T V) (ptr : ValueId) where
  -- A Free that throws changes no object and removes none, and it throws only the errors of freeing
  -- or meets the null pointer that a missing object stands for.
  pub free-raise :
      {e : Exception} {g' : Graph T V}
      → free ty ptr g ≡ raise e g'
      → (g'.objects ≡ g.objects)
        × ((e ≡ invalid_free) ⊎ (e ≡ double_free) ⊎ (e ≡ non_heap_free) ⊎ (e ≡ undefined_behaviour))
  unfolding free find_pt_edge create_unknown_pt_edge free_object
  free-raise h = ground arith
