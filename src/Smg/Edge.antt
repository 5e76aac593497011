-- ===== src/Smg/Edge.antt =====
-- Has-value and points-to edges, and the searches over vectors of edges: src/Smg/Edge.hpp and the
-- templates of src/Smg/Object.hpp.
pub mod Search
use angie.Common.{ℕ, Bool, Option, none, some, List, [], ◌∷◌, ◌++◌, ◌==◌, if◌then◌else◌}
use angie.Values.{ValueId}
use angie.Smg.{ObjectId, null_id}

module _ (T : Type 0) where
  pub record HvEdge : Type 0 where
    pub source_offset : ValueId
    pub value : ValueId
    pub value_type : T

  pub record PtEdge : Type 0 where
    pub source_offset : ValueId
    pub value : ValueId
    pub value_type : T
    pub target_object_id : ObjectId
    pub target_offset : ValueId

module _ {T : Type 0} where
  -- `HvEdge::Modify`, which keeps the source offset
  unfoldable pub modify_hv : ValueId → T → HvEdge T → HvEdge T
  modify_hv value type edge = record edge { value = value; value_type = type }

  -- `PtEdge::Modify(const PtEdge&)`, which keeps the source offset
  unfoldable pub modify_pt : PtEdge T → PtEdge T → PtEdge T
  modify_pt base edge = record base { source_offset = edge.source_offset }

  -- The constructor from an offset and an edge.
  unfoldable pub pt_edge_at : ValueId → PtEdge T → PtEdge T
  pt_edge_at offset base = record base { source_offset = offset }

  -- The constructor for another field of the same target.
  unfoldable pub pt_edge_to_field : PtEdge T → ValueId → T → ValueId → PtEdge T
  pt_edge_to_field base value type target_offset = record base {
    value = value;
    value_type = type;
    target_offset = target_offset;
  }

  -- `PtEdge::GetNullPtr`, given PTR_TYPE
  unfoldable pub null_ptr : T → PtEdge T
  null_ptr ptr_type = record {
    source_offset = 0;
    value = 0;
    value_type = ptr_type;
    target_object_id = null_id;
    target_offset = 0;
  }

-- The searches of src/Smg/Object.hpp. `field` is `&EdgeBase::sourceOffset` or `&EdgeBase::value`.
module _ {E : Type 0} (field : E → ValueId) where
  unfoldable pub find_edge : ValueId → List E → Option E
  find_edge x [] = none
  find_edge x (edge ∷ edges) = if field edge == x then some edge else find_edge x edges

  -- A write through the pointer that the search yields: to the first edge that fits.
  unfoldable pub modify_edge : ValueId → (E → E) → List E → List E
  modify_edge x f [] = []
  modify_edge x f (edge ∷ edges) =
      if field edge == x then f edge ∷ edges else edge ∷ modify_edge x f edges

  -- `CreateOrModifyEdge`: `new` is the edge to create
  unfoldable pub create_or_modify_edge : ValueId → (E → E) → E → List E → List E
  unfolding find_edge modify_edge
  create_or_modify_edge x f new edges = elim (find_edge x edges) [
    | some _ ↦ modify_edge x f edges
    | none ↦ edges ++ new ∷ []
  ]
