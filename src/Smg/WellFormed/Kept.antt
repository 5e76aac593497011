-- ===== src/Smg/WellFormed/Kept.antt =====
-- The operations of src/Smg/Graph.hpp keep a graph well-formed.
use angie.Common.{◌≡◌, true, ◌||◌, some, arith, inl, inr, Option-cases, Bool-cases}
use angie.Common.Int.{eqb_ℤ}
use angie.Common.Dict.{ℤ_key, find, assign}
use angie.Common.Outcomes.{Keeps, Keeps-and_then, Any}
use angie.Values.{ValueId}
use angie.Smg.{ObjectId, null_id, unknown_id, freed_id, TypeSystem}
use angie.Smg.Edge.{PtEdge}
use angie.Smg.Object.{Object, find_pt_edge_by_value, written, handle_edge}
use angie.Smg.InEdges.{update_object}
use angie.Smg.Graph.{
  Graph, modify_object, check_dereference, object_at, find_pt_edge, create_unknown_pt_edge,
  write_value_at,
}
use angie.Smg.Closed.{is_there, there-find_edge, closed-find}
use angie.Smg.Closed.Joined.{are_there-more}
use angie.Smg.WellFormed.{IsWellFormed, add_handle-IsWellFormed, with_objects-IsWellFormed}
use angie.Smg.WellFormed.Objects.{IsSound, IsSound-written, there-assign_known, closed-assign_known}

module _ {T V : Type 0} where
  abbrev pub Leads : PtEdge T → Graph T V → Type 0
  Leads edge g = is_there g.objects edge.target_object_id ≡ true

  abbrev pub Finds : ObjectId → Object T → Graph T V → Type 0
  Finds id o g = find id g.objects ≡ some o

  pub object_at-Keeps :
      (id : ObjectId) (g : Graph T V)
      → IsWellFormed g
      → Keeps IsWellFormed (Finds id) (object_at id g)
  unfolding object_at
  object_at-Keeps id g h = elim (Option-cases (find id g.objects)) [
    | inl missing ↦ rw (Keeps, missing) h
    | inr (o, found) ↦ rw (Keeps, found) (h, found)
  ]

  pub check-Keeps :
      (id : ObjectId) (g : Graph T V)
      → IsWellFormed g
      → Keeps IsWellFormed Any (check_dereference id g)
  unfolding check_dereference
  check-Keeps id g h = elim (Bool-cases (eqb_ℤ id null_id)) [
    | inl null ↦ rw (Keeps, null) h
    | inr other ↦ elim (Bool-cases (eqb_ℤ id unknown_id || eqb_ℤ id freed_id)) [
      | inl invalid ↦ rw (Keeps, other, invalid) h
      | inr fine ↦ rw (Keeps, other, fine) (h, tt)
    ]
  ]

  -- Another object under an id that is there.
  assign-IsWellFormed :
      (id : ObjectId) (o p : Object T) (g : Graph T V)
      → IsWellFormed g
      → find id g.objects ≡ some o
      → IsSound g.objects id p
      → IsWellFormed (record g { objects = assign id p g.objects })
  assign-IsWellFormed id o p g h found sound =
      with_objects-IsWellFormed g (assign id p g.objects) h
        (λ j. there-assign_known g.objects id j o p found)
        (are_there-more g.objects (assign id p g.objects)
          (λ j there. ground (arith, there-assign_known g.objects id j o p found))
          g.handles.pt_edges h.closed.handles_closed)
        (closed-assign_known g.objects id o p found sound h.closed.objects_closed)

  pub modify-IsWellFormed :
      (id : ObjectId) (f : Object T → Object T) (g : Graph T V)
      → IsWellFormed g
      → ((o : Object T) → IsSound g.objects id o → IsSound g.objects id (f o))
      → IsWellFormed (modify_object id f g)
  modify-IsWellFormed id f g h keeps = elim (Option-cases (find id g.objects)) [
    | inl missing ↦ rw (modify_object, update_object, missing) h
    | inr (o, found) ↦
        rw (modify_object, update_object, found)
          (assign-IsWellFormed id o (f o) g h found
            (keeps o (closed-find g.objects g.objects id h.closed.objects_closed found)))
  ]

  module _ (ty : TypeSystem T) where
    pub find_pt_edge-Keeps :
        (ptr : ValueId) (g : Graph T V)
        → IsWellFormed g
        → Keeps IsWellFormed Leads (find_pt_edge ty ptr g)
    unfolding find_pt_edge create_unknown_pt_edge find_pt_edge_by_value
    find_pt_edge-Keeps ptr g h = elim (Option-cases (find_pt_edge_by_value g.handles ptr)) [
      | inl missing ↦
          rw (Keeps, find_pt_edge_by_value, missing)
            (
              add_handle-IsWellFormed (handle_edge ty ptr unknown_id) g h h.unknown_there,
              h.unknown_there,
            )
      | inr (edge, found) ↦
          rw (Keeps, find_pt_edge_by_value, found)
            (
              h,
              there-find_edge g.objects (λ (e : PtEdge T). e.value) ptr g.handles.pt_edges
                  h.closed.handles_closed found,
            )
    ]

    pub write_value_at-Keeps :
        (edge : PtEdge T) (v : ValueId) (type : T) (g : Graph T V)
        → IsWellFormed g
        → Keeps IsWellFormed Any (write_value_at ty edge v type g)
    unfolding write_value_at
    write_value_at-Keeps edge v type g h =
        Keeps-and_then IsWellFormed Any Any (check_dereference edge.target_object_id g) _
          (check-Keeps edge.target_object_id g h)
          (λ _ g1 h1 _.
            Keeps-and_then IsWellFormed (Finds edge.target_object_id) Any
              (object_at edge.target_object_id g1) _ (object_at-Keeps edge.target_object_id g1 h1)
              (λ o g2 h2 found. (
                modify-IsWellFormed edge.target_object_id
                    (written ty g2.handles edge.target_offset v type) g2 h2
                    (λ o.
                      IsSound-written g2.objects ty g2.handles edge.target_offset v type
                        edge.target_object_id o h2.closed.handles_closed),
                tt,
              )))
