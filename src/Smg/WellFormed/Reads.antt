-- ===== src/Smg/WellFormed/Reads.antt =====
-- Reads, writes and derived pointers of src/Smg/Graph.hpp keep a graph well-formed.
use angie.Common.{◌≡◌, inl, inr, Option-cases, Bool-cases}
use angie.Common.Dict.{ℤ_key}
use angie.Common.Outcomes.{Keeps, Keeps-and_then, Any}
use angie.Values.{ValueId, no_flags}
use angie.Smg.{TypeSystem, IValueContainer}
use angie.Smg.Edge.{PtEdge, pt_edge_at, pt_edge_to_field}
use angie.Smg.Object.{Object, find_pt_edge_by_offset, find_hv_edge_by_offset, create_hv_edge}
use angie.Smg.Graph.{Graph, on_vc, check_dereference, object_at, find_pt_edge, write_value}
use angie.Smg.Graph.Read.{create_derived_pointer, read_plain, read_value}
use angie.Smg.Closed.{there-find_edge, closed-find}
use angie.Smg.WellFormed.{IsWellFormed, lift-IsWellFormed, add_handle-IsWellFormed}
use angie.Smg.WellFormed.Kept.{
  Leads, Finds, object_at-Keeps, check-Keeps, modify-IsWellFormed, find_pt_edge-Keeps,
  write_value_at-Keeps,
}

-- The graph's own fields are the same.
abbrev pub SameGraph : {T V A : Type 0} → Graph T V → A → Graph T V → Type 0
SameGraph g a g' =
    (g'.objects ≡ g.objects) × (g'.handles ≡ g.handles) × (g'.next_object_id ≡ g.next_object_id)

module _ {T V : Type 0} (ty : TypeSystem T) where
  pub write_value-Keeps :
      (ptr v : ValueId) (type : T) (g : Graph T V)
      → IsWellFormed g
      → Keeps IsWellFormed Any (write_value ty ptr v type g)
  unfolding write_value
  write_value-Keeps ptr v type g h =
      Keeps-and_then IsWellFormed Leads Any (find_pt_edge ty ptr g) _
        (find_pt_edge-Keeps ty ptr g h) (λ edge g1 h1 _. write_value_at-Keeps ty edge v type g1 h1)

  module _ (ops : IValueContainer T V) where
    pub derived-Keeps :
        (base_ptr offset : ValueId) (g : Graph T V)
        → IsWellFormed g
        → Keeps IsWellFormed Any (create_derived_pointer ty ops base_ptr offset g)
    unfolding create_derived_pointer pt_edge_to_field
    derived-Keeps base_ptr offset g h =
        Keeps-and_then IsWellFormed Leads Any (find_pt_edge ty base_ptr g) _
          (find_pt_edge-Keeps ty base_ptr g h)
          (λ base g1 h1 there.
            Keeps-and_then IsWellFormed (SameGraph g1) Any
              (on_vc (ops.add base.target_offset offset ty.char_pointer no_flags) g1) _
              (lift-IsWellFormed g1
                (ops.add base.target_offset offset ty.char_pointer no_flags g1.vc) h1)
              (λ derived_offset g2 h2 same1.
                Keeps-and_then IsWellFormed (SameGraph g2) Any
                  (on_vc (ops.add base_ptr derived_offset ty.char_pointer no_flags) g2) _
                  (lift-IsWellFormed g2
                    (ops.add base_ptr derived_offset ty.char_pointer no_flags g2.vc) h2)
                  (λ derived_value g3 h3 same2. (
                    add_handle-IsWellFormed
                        (pt_edge_to_field base derived_value ty.char_pointer derived_offset) g3 h3
                        (rw (same2.0, same1.0) there),
                    tt,
                  ))))

    read_plain-Keeps :
        (edge : PtEdge T) (o : Object T) (type : T) (g : Graph T V)
        → IsWellFormed g
        → Keeps IsWellFormed Any (read_plain ty ops edge o type g)
    unfolding read_plain create_hv_edge
    read_plain-Keeps edge o type g h =
        elim (Option-cases (find_hv_edge_by_offset o edge.target_offset)) [
          | inr (hv, found) ↦ rw (Keeps, found) (h, tt)
          | inl missing ↦
              rw (Keeps, missing)
                (Keeps-and_then IsWellFormed (SameGraph g) Any (on_vc (ops.create_val type) g) _
                  (lift-IsWellFormed g (ops.create_val type g.vc) h)
                  (λ unknown g1 h1 _.
                    (modify-IsWellFormed edge.target_object_id _ g1 h1 (λ o sound. sound), tt)))
        ]

    pub read_value-Keeps :
        (ptr : ValueId) (type : T) (g : Graph T V)
        → IsWellFormed g
        → Keeps IsWellFormed Any (read_value ty ops ptr type g)
    unfolding read_value find_pt_edge_by_offset pt_edge_at
    read_value-Keeps ptr type g h =
        Keeps-and_then IsWellFormed Leads Any (find_pt_edge ty ptr g) _
          (find_pt_edge-Keeps ty ptr g h)
          (λ edge g1 h1 _.
            Keeps-and_then IsWellFormed Any Any (check_dereference edge.target_object_id g1) _
              (check-Keeps edge.target_object_id g1 h1)
              (λ _ g2 h2 _.
                Keeps-and_then IsWellFormed (Finds edge.target_object_id) Any
                  (object_at edge.target_object_id g2) _
                  (object_at-Keeps edge.target_object_id g2 h2)
                  (λ o g3 h3 found. elim (Bool-cases (ty.is_pointer type)) [
                    | inr plain ↦ rw (Keeps, plain) (read_plain-Keeps edge o type g3 h3)
                    | inl pointer ↦
                        elim (Option-cases (find_pt_edge_by_offset o edge.target_offset)) [
                          | inl missing ↦
                              rw (Keeps, pointer, missing) (read_plain-Keeps edge o type g3 h3)
                          | inr (pt, there) ↦
                              rw (Keeps, pointer, there)
                                (
                                  add_handle-IsWellFormed (pt_edge_at 0 pt) g3 h3 (
                                      there-find_edge g3.objects (λ (e : PtEdge T). e.source_offset)
                                        edge.target_offset o.pt_edges
                                        (closed-find g3.objects g3.objects edge.target_object_id
                                          h3.closed.objects_closed found).1
                                        there),
                                  tt,
                                )
                        ]
                  ])))
