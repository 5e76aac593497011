-- ===== src/Smg/WellFormed/Objects.antt =====
-- The changes that writes and reads make to one object: its id stays, and its edges still lead to
-- objects that are there.
use angie.Common.{◌≡◌, refl, true, some, List, [], ◌∷◌, arith, inl, inr, Option-cases, Bool-cases}
use angie.Common.Int.{eqb_ℤ_iff}
use angie.Common.Dict.{Dict, ℤ_key, find, assign, find-assign}
use angie.Values.{ValueId}
use angie.Smg.{ObjectId, TypeSystem}
use angie.Smg.Edge.{PtEdge, find_edge, modify_edge, create_or_modify_edge, modify_pt, pt_edge_at}
use angie.Smg.Object.{
  Object, find_pt_edge_by_value, create_or_modify_hv_edge, create_or_modify_pt_edge, hide_pt_edge,
  written,
}
use angie.Smg.Closed.{is_there, are_there, are_closed, there-find_edge}
use angie.Smg.Closed.Joined.{closed-assign, closed-more}
use angie.Smg.WellFormed.{there-append}

module _ {T : Type 0} (objects : Dict ObjectId (Object T)) where
  -- `f` gives the edges targets that are there.
  there-modify_edge :
      (field : PtEdge T → ValueId) (x : ValueId) (f : PtEdge T → PtEdge T)
      → ((edge : PtEdge T)
          → is_there objects edge.target_object_id ≡ true
          → is_there objects (f edge).target_object_id ≡ true)
      → (edges : List (PtEdge T)) → are_there objects edges ≡ true
      → are_there objects (modify_edge field x f edges) ≡ true
  unfolding are_there modify_edge
  there-modify_edge field x f keeps [] h = refl
  there-modify_edge field x f keeps (edge ∷ edges) h =
      ground (arith, keeps edge, there-modify_edge field x f keeps edges)

  there-create_or_modify_edge :
      (field : PtEdge T → ValueId) (x : ValueId) (f : PtEdge T → PtEdge T) (new : PtEdge T)
      → ((edge : PtEdge T)
          → is_there objects edge.target_object_id ≡ true
          → is_there objects (f edge).target_object_id ≡ true)
      → is_there objects new.target_object_id ≡ true
      → (edges : List (PtEdge T)) → are_there objects edges ≡ true
      → are_there objects (create_or_modify_edge field x f new edges) ≡ true
  unfolding create_or_modify_edge
  there-create_or_modify_edge field x f new keeps there edges h =
      elim (Option-cases (find_edge field x edges)) [
        | inl missing ↦ rw (create_or_modify_edge, missing) (there-append objects edges new h there)
        | inr (edge, found) ↦
            rw (create_or_modify_edge, found) (there-modify_edge field x f keeps edges h)
      ]

  -- An object with its own id whose edges lead to objects that are there.
  abbrev pub IsSound : ObjectId → Object T → Type 0
  IsSound id o = (o.id ≡ id) × (are_there objects o.pt_edges ≡ true)

  IsSound-create_or_modify_pt_edge :
      (id : ObjectId) (offset : ValueId) (base : PtEdge T) (o : Object T)
      → is_there objects base.target_object_id ≡ true
      → IsSound id o
      → IsSound id (create_or_modify_pt_edge offset base o)
  unfolding create_or_modify_pt_edge modify_pt pt_edge_at
  IsSound-create_or_modify_pt_edge id offset base o there (named, edges) = (
    named,
    there-create_or_modify_edge (λ (edge : PtEdge T). edge.source_offset) offset (modify_pt base)
        (pt_edge_at offset base) (λ edge h. there) there o.pt_edges edges,
  )

  IsSound-hide_pt_edge :
      (id : ObjectId) (offset : ValueId) (o : Object T)
      → IsSound id o
      → IsSound id (hide_pt_edge offset o)
  unfolding hide_pt_edge
  IsSound-hide_pt_edge id offset o (named, edges) = (
    named,
    there-modify_edge (λ (edge : PtEdge T). edge.source_offset) offset _ (λ edge h. h) o.pt_edges
        edges,
  )

  pub IsSound-written :
      (ty : TypeSystem T) (handles : Object T) (offset v : ValueId) (type : T) (id : ObjectId)
      (o : Object T)
      → are_there objects handles.pt_edges ≡ true
      → IsSound id o
      → IsSound id (written ty handles offset v type o)
  unfolding written create_or_modify_hv_edge find_pt_edge_by_value
  IsSound-written ty handles offset v type id o closed sound =
      elim (Bool-cases (ty.is_pointer type)) [
        | inr plain ↦ rw plain sound
        | inl pointer ↦ rw pointer (elim (Option-cases (find_pt_edge_by_value handles v)) [
          | inl unknown ↦ rw unknown (IsSound-hide_pt_edge id offset o sound)
          | inr (edge, found) ↦ rw found (
              IsSound-create_or_modify_pt_edge id offset edge o
                (there-find_edge objects (λ (edge : PtEdge T). edge.value) v handles.pt_edges closed
                  found)
                sound)
        ])
      ]

  -- A sound object in place of the one under its id.
  pub there-assign_known :
      (id j : ObjectId) (o p : Object T)
      → find id objects ≡ some o
      → is_there (assign id p objects) j ≡ is_there objects j
  unfolding is_there
  there-assign_known id j o p found =
      ground (arith, find-assign ⦃e = ℤ_key⦄ id j p objects, eqb_ℤ_iff id j)

  pub closed-assign_known :
      (id : ObjectId) (o p : Object T)
      → find id objects ≡ some o
      → IsSound id p
      → are_closed objects objects ≡ true
      → are_closed (assign id p objects) (assign id p objects) ≡ true
  closed-assign_known id o p found (named, edges) closed =
      closed-more objects (assign id p objects)
        (λ j h. ground (arith, there-assign_known id j o p found)) (assign id p objects)
        (closed-assign objects id p objects (ground (arith, eqb_ℤ_iff p.id id)) edges closed)
