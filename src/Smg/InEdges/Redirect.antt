-- ===== src/Smg/InEdges/Redirect.antt =====
-- What the redirection of the edges into an object leaves to find.
use mathlib.Core.Option
use angie.Common.{◌≡◌, refl, false, inl, inr, Bool-cases, List, [], ◌∷◌, ◌++◌, arith, if◌then◌else◌}
use angie.Common.Int.{eqb_ℤ}
use angie.Common.Dict.{Dict, ℤ_key, find, erase}
use angie.Values.{ValueId}
use angie.Smg.{ObjectId}
use angie.Smg.Edge.{PtEdge, find_edge}
use angie.Smg.Object.{Object, find_pt_edge_by_value}
use angie.Smg.InEdges.{
  edges_into, in_edges_of_objects, redirect_edge, redirect_edges, redirect_object, redirect_objects,
}

module _ {T : Type 0} (old new : ObjectId) where
  -- The redirection moves no edge to another source or value.
  find-redirect_edges :
      (ptr : ValueId) (edges : List (PtEdge T))
      → find_edge (λ (edge : PtEdge T). edge.value) ptr (redirect_edges old new edges)
        ≡ Option.map (redirect_edge old new) (find_edge (λ (edge : PtEdge T). edge.value) ptr edges)
  unfolding find_edge redirect_edges redirect_edge
  find-redirect_edges ptr [] = refl
  find-redirect_edges ptr (edge ∷ edges) = ground (arith, find-redirect_edges ptr edges)

  pub find_pt_edge_by_value-redirect_object :
      (ptr : ValueId) (o : Object T)
      → find_pt_edge_by_value (redirect_object old new o) ptr
        ≡ Option.map (redirect_edge old new) (find_pt_edge_by_value o ptr)
  unfolding find_pt_edge_by_value redirect_object
  find_pt_edge_by_value-redirect_object ptr o = find-redirect_edges ptr o.pt_edges

  pub find-redirect_objects :
      (id : ObjectId) (objects : Dict ObjectId (Object T))
      → find id (redirect_objects old new objects)
        ≡ Option.map (redirect_object old new) (find id objects)
  unfolding find redirect_objects
  find-redirect_objects id [] = refl
  find-redirect_objects id ((j, o) ∷ objects) = ground (arith, find-redirect_objects id objects)

  pub target-redirect_edge :
      (edge : PtEdge T)
      → (redirect_edge old new edge).target_object_id
        ≡ (if eqb_ℤ edge.target_object_id old then new else edge.target_object_id)
  unfolding redirect_edge
  target-redirect_edge edge = ground arith

module _ {T : Type 0} (old new : ObjectId) (apart : eqb_ℤ new old ≡ false) where
  pub edges_into-redirect_edges :
      (o : Object T) (edges : List (PtEdge T))
      → edges_into old o (redirect_edges old new edges) ≡ []
  unfolding edges_into redirect_edges redirect_edge
  edges_into-redirect_edges o [] = refl
  edges_into-redirect_edges o (edge ∷ edges) = ground (arith, edges_into-redirect_edges o edges)

  pub in_edges_of_objects-redirect :
      (objects : Dict ObjectId (Object T))
      → in_edges_of_objects old (redirect_objects old new objects) ≡ []
  unfolding in_edges_of_objects redirect_objects redirect_object
  in_edges_of_objects-redirect [] = refl
  in_edges_of_objects-redirect ((j, o) ∷ objects) = ground (
    arith,
    edges_into-redirect_edges (redirect_object old new o) o.pt_edges,
    in_edges_of_objects-redirect objects,
  )

both-nil : {A : Type 0} (xs ys : List A) → xs ++ ys ≡ [] → (xs ≡ []) × (ys ≡ [])
both-nil [] ys h = (refl, h)
both-nil (x ∷ xs) ys h = cc

-- Objects that are taken out bring no edge in.
pub in_edges_of_objects-erase :
    {T : Type 0} (target id : ObjectId) (objects : Dict ObjectId (Object T))
    → in_edges_of_objects target objects ≡ []
    → in_edges_of_objects target (erase id objects) ≡ []
unfolding in_edges_of_objects erase
in_edges_of_objects-erase target id [] h = refl
in_edges_of_objects-erase target id ((j, o) ∷ objects) h =
    let (mine, rest) =
      both-nil (edges_into target o o.pt_edges) (in_edges_of_objects target objects) h in
    let others = in_edges_of_objects-erase target id objects rest in
    elim (Bool-cases (eqb_ℤ j id)) [
      | inl gone ↦ rw gone others
      | inr stays ↦ rw (stays, mine) others
    ]
