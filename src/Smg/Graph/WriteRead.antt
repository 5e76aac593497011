-- ===== src/Smg/Graph/WriteRead.antt =====
-- WriteValue and ReadValue of src/Smg/Graph.hpp: what is read back after a write.
use angie.Common.{◌≡◌, ◌∙◌, ◌⊎◌, refl, true, false, some, ◌==◌, arith, inl, inr, Option-cases}
use angie.Common.Int.{eqb_ℤ, eqb_ℤ_iff}
use angie.Common.Dict.{ℤ_key, find, assign, find-assign, find-assign_self}
use angie.Common.Run.{ok}
use angie.Values.{ValueId}
use angie.Smg.{TypeSystem, IValueContainer, IsOrdinary}
use angie.Smg.Edge.{HvEdge, PtEdge, modify_hv, modify_pt, pt_edge_at, find_edge}
use angie.Smg.Edge.Search.{
  field-find_edge, find-create_or_modify_edge, find-create_or_modify_edge_ne,
}
use angie.Smg.Object.{
  Object, find_pt_edge_by_value, find_hv_edge_by_offset, find_pt_edge_by_offset,
  create_or_modify_hv_edge, create_or_modify_pt_edge, hide_pt_edge, written,
}
use angie.Smg.Graph.{
  Graph, add_handle, check_dereference, object_at, find_pt_edge, write_value_at, write_value,
}
use angie.Smg.Graph.Read.{read_plain, read_value}

abbrev hv_offset : {T : Type 0} → HvEdge T → ValueId
hv_offset edge = edge.source_offset

abbrev pt_offset : {T : Type 0} → PtEdge T → ValueId
pt_offset edge = edge.source_offset

module _ {T : Type 0} (offset : ValueId) where
  module _ (value : ValueId) (type : T) where
    abbrev hv_edge : HvEdge T
    hv_edge = record { source_offset = offset; value = value; value_type = type }

    pub hv-after :
        (o : Object T)
        → find_hv_edge_by_offset (create_or_modify_hv_edge offset value type o) offset
          ≡ some hv_edge
    unfolding find_hv_edge_by_offset create_or_modify_hv_edge modify_hv
    hv-after o =
        find-create_or_modify_edge hv_offset offset (modify_hv value type) (λ e. refl) hv_edge refl
          o.hv_edges
        ∙ elim (Option-cases (find_edge hv_offset offset o.hv_edges)) [
          | inl missing ↦ rw missing refl
          | inr (e, found) ↦
              rw found (ground (arith, field-find_edge hv_offset offset o.hv_edges found))
        ]

    pub hv-after_ne :
        (y : ValueId) (o : Object T)
        → (y == offset) ≡ false
        → find_hv_edge_by_offset (create_or_modify_hv_edge offset value type o) y
          ≡ find_hv_edge_by_offset o y
    unfolding find_hv_edge_by_offset create_or_modify_hv_edge modify_hv
    hv-after_ne y o h =
        find-create_or_modify_edge_ne hv_offset offset (modify_hv value type) (λ e. refl) hv_edge
          refl y o.hv_edges h

  pub pt-after :
      (base : PtEdge T) (o : Object T)
      → find_pt_edge_by_offset (create_or_modify_pt_edge offset base o) offset
        ≡ some (pt_edge_at offset base)
  unfolding find_pt_edge_by_offset create_or_modify_pt_edge modify_pt pt_edge_at
  pt-after base o =
      find-create_or_modify_edge pt_offset offset (modify_pt base) (λ e. refl)
        (pt_edge_at offset base) refl o.pt_edges
      ∙ elim (Option-cases (find_edge pt_offset offset o.pt_edges)) [
        | inl missing ↦ rw missing refl
        | inr (e, found) ↦
            rw found (ground (arith, field-find_edge pt_offset offset o.pt_edges found))
      ]

-- A pointer to an object of its own, which may be read and written.
pub record IsAccess {T V : Type 0} (g : Graph T V) (ptr : ValueId) (edge : PtEdge T) (o : Object T)
    : Type 0 where
  pub known : find_pt_edge_by_value g.handles ptr ≡ some edge
  pub ordinary : IsOrdinary edge.target_object_id
  pub there : find edge.target_object_id g.objects ≡ some o

module _ {T V : Type 0} (ty : TypeSystem T) (ops : IValueContainer T V) {g : Graph T V}
    {ptr : ValueId} {edge : PtEdge T} {o : Object T} (is : IsAccess g ptr edge o) where
  -- The graph after a write of the object.
  abbrev pub after_write : ValueId → T → Graph T V
  after_write value type = record g {
    objects =
        assign edge.target_object_id (written ty g.handles edge.target_offset value type o)
          g.objects;
  }

  write-ok :
      (value : ValueId) (type : T)
      → write_value ty ptr value type g ≡ ok tt (after_write value type)
  unfolding write_value write_value_at find_pt_edge check_dereference object_at
  write-ok value type = ground arith

  -- A plain value that was written is read back, by the same pointer, and the read changes nothing.
  pub read-write :
      (value : ValueId) (type : T)
      → ty.is_pointer type ≡ false
      → (write_value ty ptr value type g ≡ ok tt (after_write value type))
        × (read_value ty ops ptr type (after_write value type) ≡ ok value (after_write value type))
  unfolding read_value read_plain find_pt_edge check_dereference object_at written
  read-write value type plain = (
    write-ok value type,
    ground (
      arith,
      find-assign_self ⦃e = ℤ_key⦄ edge.target_object_id
          (written ty g.handles edge.target_offset value type o) g.objects,
      hv-after edge.target_offset value type o,
    ),
  )

  -- A pointer-typed write of a value that some handle knows: a pointer-typed read by the same
  -- pointer yields the value, and records it as a handle at source offset 0.
  pub read-write_pointer :
      (value : ValueId) (type : T) {assigned : PtEdge T}
      → ty.is_pointer type ≡ true
      → find_pt_edge_by_value g.handles value ≡ some assigned
      → (write_value ty ptr value type g ≡ ok tt (after_write value type))
        × (read_value ty ops ptr type (after_write value type)
            ≡ ok value (add_handle (pt_edge_at 0 assigned) (after_write value type)))
  unfolding read_value read_plain find_pt_edge check_dereference object_at written pt_edge_at
      find_pt_edge_by_value
  read-write_pointer value type {assigned} pointer known = (
    write-ok value type,
    ground (
      arith,
      find-assign_self ⦃e = ℤ_key⦄ edge.target_object_id
          (written ty g.handles edge.target_offset value type o) g.objects,
      pt-after edge.target_offset assigned o,
      field-find_edge (λ (e : PtEdge T). e.value) value g.handles.pt_edges {e = assigned} known,
    ),
  )

  hv-written_ne :
      (value : ValueId) (type : T) (y : ValueId)
      → (y == edge.target_offset) ≡ false
      → find_hv_edge_by_offset (written ty g.handles edge.target_offset value type o) y
        ≡ find_hv_edge_by_offset o y
  unfolding written hide_pt_edge find_hv_edge_by_offset create_or_modify_pt_edge
  hv-written_ne value type y h = ground (
    arith,
    hv-after_ne edge.target_offset value type y o,
    hv-after_ne edge.target_offset value type y (hide_pt_edge edge.target_offset o),
  )

  -- WriteValue succeeds and leaves alone the plain values at other places: a plain read by a pointer
  -- to another object, or to another offset of the same one, yields after the write what it yielded
  -- before, and changes nothing.
  pub read-write_other :
      (value : ValueId) (type read_type : T) {other : ValueId} {edge' : PtEdge T} {o' : Object T}
      {hv : HvEdge T}
      → IsAccess g other edge' o'
      → (eqb_ℤ edge.target_object_id edge'.target_object_id ≡ false)
        ⊎ ((edge'.target_offset == edge.target_offset) ≡ false)
      → ty.is_pointer read_type ≡ false
      → find_hv_edge_by_offset o' edge'.target_offset ≡ some hv
      → (g' : Graph T V) × (write_value ty ptr value type g ≡ ok tt g')
        × (read_value ty ops other read_type g ≡ ok hv.value g)
        × (read_value ty ops other read_type g' ≡ ok hv.value g')
  unfolding read_value read_plain find_pt_edge check_dereference object_at
  read-write_other value type read_type {edge'} is' apart plain stored = (
    after_write value type,
    write-ok value type,
    ground arith,
    ground (
      arith,
      find-assign ⦃e = ℤ_key⦄ edge.target_object_id edge'.target_object_id
          (written ty g.handles edge.target_offset value type o) g.objects,
      eqb_ℤ_iff edge.target_object_id edge'.target_object_id,
      hv-written_ne value type edge'.target_offset,
    ),
  )
