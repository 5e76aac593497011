-- ===== src/Smg/Graph/Read.antt =====
-- The operations of Smg::Impl::Graph that ask the value container for values: src/Smg/Graph.hpp.
use angie.Common.{none, some}
use angie.Common.Dict.{ℤ_key, emplace}
use angie.Common.Run.{Run, ok, pure, ◌>>=◌, ◌>>◌}
use angie.Values.{ValueId, no_flags}
use angie.Smg.{TypeSystem, IValueContainer}
use angie.Smg.Edge.{HvEdge, PtEdge, pt_edge_at, pt_edge_to_field}
use angie.Smg.Object.{
  Object, MemorySpace, create_region, find_hv_edge_by_offset, find_pt_edge_by_offset,
  create_hv_edge, create_pt_edge, handle_edge,
}
use angie.Smg.Graph.{
  Graph, on_vc, modify_object, add_handle, check_dereference, object_at, get_next_object_id,
  find_pt_edge,
}
use angie.Common.{if◌then◌else◌}

module _ {T V : Type 0} (ty : TypeSystem T) (ops : IValueContainer T V) where
  unfoldable pub create_derived_pointer :
      (base_ptr offset : ValueId) → Run (Graph T V) (ValueId × PtEdge T)
  unfolding find_pt_edge create_pt_edge pt_edge_to_field
  create_derived_pointer base_ptr offset = do
    base ← find_pt_edge ty base_ptr
    derived_offset ← on_vc (ops.add base.target_offset offset ty.char_pointer no_flags)
    derived_value ← on_vc (ops.add base_ptr derived_offset ty.char_pointer no_flags)
    let edge = pt_edge_to_field base derived_value ty.char_pointer derived_offset
    λ g. ok (derived_value, edge) (add_handle edge g)

  unfoldable pub allocate_region : T → MemorySpace → Run (Graph T V) ValueId
  unfolding get_next_object_id emplace create_region create_pt_edge
  allocate_region type ms = do
    ptr ← on_vc (ops.create_val (ty.pointer_to type))
    id ← get_next_object_id
    λ g. ok tt (record g { objects = emplace id (create_region id) g.objects })
    size ← on_vc (ops.create_const_int_val (ty.get_size_of type))
    λ g. ok tt (modify_object id (λ o. record o { size = size; mem_space = ms }) g)
    λ g. ok ptr (add_handle (handle_edge ty ptr id) g)

  -- The read of a plain value, also where a pointer-typed read finds no points-to edge.
  unfoldable pub read_plain : PtEdge T → Object T → T → Run (Graph T V) ValueId
  unfolding find_hv_edge_by_offset create_hv_edge
  read_plain edge o type = elim (find_hv_edge_by_offset o edge.target_offset) [
    | some hv ↦ pure hv.value
    | none ↦ do
      unknown ← on_vc (ops.create_val type)
      let new : HvEdge T = record {
        source_offset = edge.target_offset;
        value = unknown;
        value_type = type;
      }
      λ g. ok unknown (modify_object edge.target_object_id (create_hv_edge new) g)
  ]

  unfoldable pub read_value : ValueId → T → Run (Graph T V) ValueId
  unfolding find_pt_edge check_dereference object_at read_plain find_pt_edge_by_offset
      create_pt_edge pt_edge_at
  read_value ptr type = do
    edge ← find_pt_edge ty ptr
    check_dereference edge.target_object_id
    o ← object_at edge.target_object_id
    if ty.is_pointer type
        then elim (find_pt_edge_by_offset o edge.target_offset) [
          | some pt ↦ λ g. ok pt.value (add_handle (pt_edge_at 0 pt) g)
          | none ↦ read_plain edge o type
        ]
        else read_plain edge o type
