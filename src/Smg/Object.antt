-- ===== src/Smg/Object.antt =====
-- Objects of a graph, with their subclasses as kinds: src/Smg/Object.hpp.
use angie.Common.{ℕ, Bool, true, false, Option, none, some, List, [], ◌∷◌, ◌++◌, if◌then◌else◌}
use angie.Common.Int.{ℤ, pos}
use angie.Common.Words.{max_word}
use angie.Values.{ValueId}
use angie.Smg.{ObjectId, TypeSystem}
use angie.Smg.Edge.{
  HvEdge, PtEdge, modify_hv, modify_pt, pt_edge_at, find_edge, modify_edge, create_or_modify_edge,
}

-- src/General.hpp
pub data MemorySpace : Type 0 where
  heap stack static thread_local invalid : MemorySpace

-- src/Smg/Smg_fwd.hpp
pub record DlsOffsets : Type 0 where
  pub hfo : ValueId
  pub nfo : ValueId
  pub pfo : ValueId

-- The subclass, with the fields that it adds: of a region the flags `isValid`, `isNullified` and
-- `isFreed`.
pub data ObjectKind : Type 0 where
  region : (is_valid is_nullified is_freed : Bool) → ObjectKind
  sls : (min_length : ℕ) → ObjectKind
  dls : (min_length : ℕ) → DlsOffsets → ObjectKind

pub record Object (T : Type 0) : Type 0 where
  pub id : ObjectId
  pub hv_edges : List (HvEdge T)
  pub pt_edges : List (PtEdge T)
  pub ref_counter : ℤ
  pub size : ValueId
  pub level : ℕ
  pub mem_space : MemorySpace
  pub kind : ObjectKind

unfoldable pub is_heap : MemorySpace → Bool
is_heap heap = true
is_heap _ = false

module _ {T : Type 0} where
  -- `Region::Create`, with the initialisers of the members
  unfoldable pub create_region : ObjectId → Object T
  create_region id = record {
    id = id;
    hv_edges = [];
    pt_edges = [];
    ref_counter = pos 0;
    size = 0;
    level = 0;
    mem_space = heap;
    kind = region true false false;
  }

  unfoldable pub find_hv_edge_by_offset : Object T → ValueId → Option (HvEdge T)
  unfolding find_edge
  find_hv_edge_by_offset o offset =
      find_edge (λ (edge : HvEdge T). edge.source_offset) offset o.hv_edges

  unfoldable pub find_pt_edge_by_offset : Object T → ValueId → Option (PtEdge T)
  unfolding find_edge
  find_pt_edge_by_offset o offset =
      find_edge (λ (edge : PtEdge T). edge.source_offset) offset o.pt_edges

  unfoldable pub find_pt_edge_by_value : Object T → ValueId → Option (PtEdge T)
  unfolding find_edge
  find_pt_edge_by_value o value = find_edge (λ (edge : PtEdge T). edge.value) value o.pt_edges

  unfoldable pub create_hv_edge : HvEdge T → Object T → Object T
  create_hv_edge edge o = record o { hv_edges = o.hv_edges ++ edge ∷ [] }

  unfoldable pub create_pt_edge : PtEdge T → Object T → Object T
  create_pt_edge edge o = record o { pt_edges = o.pt_edges ++ edge ∷ [] }

  unfoldable pub create_or_modify_hv_edge : ValueId → ValueId → T → Object T → Object T
  unfolding create_or_modify_edge modify_hv
  create_or_modify_hv_edge offset value type o = record o {
    hv_edges =
        create_or_modify_edge (λ (edge : HvEdge T). edge.source_offset) offset
          (modify_hv value type)
          (record { source_offset = offset; value = value; value_type = type }) o.hv_edges;
  }

  unfoldable pub create_or_modify_pt_edge : ValueId → PtEdge T → Object T → Object T
  unfolding create_or_modify_edge modify_pt pt_edge_at
  create_or_modify_pt_edge offset base o = record o {
    pt_edges =
        create_or_modify_edge (λ (edge : PtEdge T). edge.source_offset) offset (modify_pt base)
          (pt_edge_at offset base) o.pt_edges;
  }

  -- A pointer-typed write of a value that no handle knows: the points-to edge at the offset is
  -- hidden, and the value becomes a plain one.
  unfoldable pub hide_pt_edge : ValueId → Object T → Object T
  unfolding modify_edge
  hide_pt_edge offset o = record o {
    pt_edges =
        modify_edge (λ (edge : PtEdge T). edge.source_offset) offset
          (λ edge. record edge { source_offset = max_word }) o.pt_edges;
  }

  abbrev pub special_region : ObjectId → Object T
  special_region id = record (create_region id) { size = 0 }

module _ {T : Type 0} (ty : TypeSystem T) where
  -- The change that WriteValue makes to the object; `handles` knows the pointers.
  unfoldable pub written : (handles : Object T) → (offset value : ValueId) → T → Object T → Object T
  unfolding find_pt_edge_by_value create_or_modify_hv_edge create_or_modify_pt_edge hide_pt_edge
  written handles offset value type o =
      if ty.is_pointer type
      then elim (find_pt_edge_by_value handles value) [
        | some assigned ↦ create_or_modify_pt_edge offset assigned o
        | none ↦ create_or_modify_hv_edge offset value type (hide_pt_edge offset o)
      ]
      else create_or_modify_hv_edge offset value type o

  -- The edge of a pointer that is not the source of a field: its source offset is 0.
  abbrev pub handle_edge : ValueId → ObjectId → PtEdge T
  handle_edge ptr id = record {
    source_offset = 0;
    value = ptr;
    value_type = ty.char_pointer;
    target_object_id = id;
    target_offset = 0;
  }
