-- ===== src/Smg/Graph.antt =====
-- The state and the operations of Smg::Impl::Graph: src/Smg/Graph.hpp.
pub mod Allocate
pub mod Free
pub mod Read
pub mod WriteRead
use angie.Common.{
  ℕ, suc, Bool, true, false, ◌||◌, Option, none, some, List, [], ◌++◌, if◌then◌else◌,
}
use angie.Common.Int.{pos, eqb_ℤ}
use angie.Common.Dict.{Dict, ℤ_key, find, assign, emplace, erase}
use angie.Common.Run.{
  Run, Outcome, ok, raise, out_of_range, null_dereference, invalid_dereference, invalid_free,
  double_free, non_heap_free, undefined_behaviour, pure, throw, read, or_throw, ◌>>=◌, ◌>>◌,
}
use angie.Values.{ValueId}
use angie.Smg.{ObjectId, null_id, unknown_id, freed_id, TypeSystem}
use angie.Smg.Edge.{PtEdge}
use angie.Smg.InEdges.{
  update_object, edges_into, in_edges_of_objects, redirect_object, redirect_objects,
}
use angie.Smg.Object.{
  Object, is_heap, create_region, find_pt_edge_by_value, create_pt_edge, handle_edge,
  special_region, written,
}

-- The graph, with what its operations change beside its own fields: the value container that
-- they are handed, and the static counter of object ids.
pub record Graph (T V : Type 0) : Type 0 where
  pub handles : Object T
  pub objects : Dict ObjectId (Object T)
  pub next_object_id : ℕ
  pub vc : V

-- A call of the value container.
abbrev pub lift_outcome : {T V A : Type 0} → Graph T V → Outcome V A → Outcome (Graph T V) A
lift_outcome g (ok a v) = ok a (record g { vc = v })
lift_outcome g (raise e v) = raise e (record g { vc = v })

abbrev pub on_vc : {T V A : Type 0} → Run V A → Run (Graph T V) A
on_vc m g = lift_outcome g (m g.vc)

module _ {T V : Type 0} where
  abbrev pub modify_object : ObjectId → (Object T → Object T) → Graph T V → Graph T V
  modify_object id f g = record g { objects = update_object id f g.objects }

  abbrev pub add_handle : PtEdge T → Graph T V → Graph T V
  add_handle edge g = record g { handles = create_pt_edge edge g.handles }

  unfoldable pub exists_pt_edge : Graph T V → ValueId → Bool
  unfolding find_pt_edge_by_value
  exists_pt_edge g ptr = elim (find_pt_edge_by_value g.handles ptr) [ none ↦ false | some _ ↦ true ]

  -- The test that ReadValue and WriteValue make of the target.
  unfoldable pub check_dereference : ObjectId → Run (Graph T V) (Unit {0})
  check_dereference id =
      if eqb_ℤ id null_id
      then throw null_dereference
      else if eqb_ℤ id unknown_id || eqb_ℤ id freed_id
      then throw invalid_dereference
      else pure tt

  -- `*objects.at(id)`
  unfoldable pub object_at : ObjectId → Run (Graph T V) (Object T)
  object_at id = read (λ g. or_throw out_of_range (find id g.objects))

  -- The counter is an int64_t, whose overflow is not defined; here it has no bound, which differs
  -- after 2 ^ 63 objects.
  unfoldable pub get_next_object_id : Run (Graph T V) ObjectId
  get_next_object_id g =
      ok (pos g.next_object_id) (record g { next_object_id = suc g.next_object_id })

  -- `FindPtInEdges`: the edges into an object, with the object that each starts from
  unfoldable pub find_pt_in_edges : ObjectId → Graph T V → List (Object T × PtEdge T)
  unfolding in_edges_of_objects
  find_pt_in_edges id g =
      in_edges_of_objects id g.objects ++ edges_into id g.handles g.handles.pt_edges

  unfoldable pub redirect_in_edges : (old new : ObjectId) → Graph T V → Graph T V
  unfolding redirect_object redirect_objects
  redirect_in_edges old new g = record g {
    handles = redirect_object old new g.handles;
    objects = redirect_objects old new g.objects;
  }

  -- The end of Free: the object is known, and not a special one.
  unfoldable pub free_object : Object T → Run (Graph T V) (Unit {0})
  unfolding is_heap redirect_in_edges
  free_object o g =
      if is_heap o.mem_space
      then ok tt (record (redirect_in_edges o.id freed_id g) {
        objects = erase o.id (redirect_in_edges o.id freed_id g).objects;
      })
      else raise non_heap_free g

module _ {T V : Type 0} (ty : TypeSystem T) where
  -- The constructor, on the container and the counter as they stand.
  unfoldable pub create_graph : ℕ → V → Graph T V
  unfolding create_region create_pt_edge emplace
  create_graph next_object_id vc = record {
    handles = create_pt_edge (handle_edge ty 0 null_id) (create_region (pos 0));
    objects = emplace freed_id (special_region freed_id) (
        emplace unknown_id (special_region unknown_id)
          (emplace null_id (special_region null_id) []));
    next_object_id = next_object_id;
    vc = vc;
  }

  unfoldable pub create_unknown_pt_edge : ValueId → Run (Graph T V) (PtEdge T)
  unfolding create_pt_edge
  create_unknown_pt_edge ptr g =
      ok (handle_edge ty ptr unknown_id) (add_handle (handle_edge ty ptr unknown_id) g)

  unfoldable pub find_pt_edge : ValueId → Run (Graph T V) (PtEdge T)
  unfolding find_pt_edge_by_value create_unknown_pt_edge
  find_pt_edge ptr g = elim (find_pt_edge_by_value g.handles ptr) [
    | some edge ↦ ok edge g
    | none ↦ create_unknown_pt_edge ptr g
  ]

  -- `WriteValue(const PtEdge&, …)`
  unfoldable pub write_value_at : PtEdge T → ValueId → T → Run (Graph T V) (Unit {0})
  unfolding check_dereference object_at written
  write_value_at edge value type = do
    check_dereference edge.target_object_id
    o ← object_at edge.target_object_id
    λ g.
        ok tt (
          modify_object edge.target_object_id (written ty g.handles edge.target_offset value type)
            g)

  -- `WriteValue(ValueId, …)`
  unfoldable pub write_value : ValueId → ValueId → T → Run (Graph T V) (Unit {0})
  unfolding find_pt_edge write_value_at
  write_value ptr value type = do edge ← find_pt_edge ptr; write_value_at edge value type

  unfoldable pub free : ValueId → Run (Graph T V) (Unit {0})
  unfolding find_pt_edge free_object
  free ptr = do
    edge ← find_pt_edge ptr
    λ g.
        if eqb_ℤ edge.target_object_id null_id
        then ok tt g
        else if eqb_ℤ edge.target_object_id unknown_id
        then raise invalid_free g
        else if eqb_ℤ edge.target_object_id freed_id
        then raise double_free g
        else elim (find edge.target_object_id g.objects) [
          | none ↦ raise undefined_behaviour g
          | some o ↦ free_object o g
        ]
