-- ===== src/Smg/Closed.antt =====
-- Closed graphs: each object stands under its own id, and each points-to edge leads to an object
-- that is there. The loads of edge targets in src/Smg/Wrappers.hpp and src/Smg/Abstraction.hpp rely on it.
pub mod Joined
use angie.Common.{
  ◌≡◌, refl, Bool, true, false, ◌&&◌, Option, none, some, List, [], ◌∷◌, ◌++◌, arith, inl, inr,
  Bool-cases, Option-cases, if◌then◌else◌,
}
use angie.Common.Int.{eqb_ℤ, eqb_ℤ_iff}
use angie.Common.Dict.{Dict, ℤ_key, find, erase, find-erase}
use angie.Values.{ValueId}
use angie.Smg.{ObjectId}
use angie.Smg.Edge.{PtEdge, find_edge}
use angie.Smg.Object.{Object}
use angie.Smg.InEdges.{edges_into, in_edges_of_objects}
use angie.Smg.Graph.{Graph, find_pt_in_edges}

module _ {T : Type 0} where
  unfoldable pub is_there : Dict ObjectId (Object T) → ObjectId → Bool
  unfolding find
  is_there objects id = elim (find id objects) [ none ↦ false | some _ ↦ true ]

  unfoldable pub are_there : Dict ObjectId (Object T) → List (PtEdge T) → Bool
  unfolding is_there
  are_there objects [] = true
  are_there objects (edge ∷ edges) =
      is_there objects edge.target_object_id && are_there objects edges

  unfoldable pub are_closed : Dict ObjectId (Object T) → List (ObjectId × Object T) → Bool
  unfolding are_there
  are_closed objects [] = true
  are_closed objects ((id, o) ∷ entries) =
      eqb_ℤ o.id id && are_there objects o.pt_edges && are_closed objects entries

pub record IsClosed {T V : Type 0} (g : Graph T V) : Type 0 where
  pub handles_closed : are_there g.objects g.handles.pt_edges ≡ true
  pub objects_closed : are_closed g.objects g.objects ≡ true

module _ {T : Type 0} (objects : Dict ObjectId (Object T)) where
  pub there-find_edge :
      (field : PtEdge T → ValueId) (x : ValueId) (edges : List (PtEdge T)) {edge : PtEdge T}
      → are_there objects edges ≡ true
      → find_edge field x edges ≡ some edge
      → is_there objects edge.target_object_id ≡ true
  unfolding are_there find_edge
  there-find_edge field x [] h found = cc
  there-find_edge field x (e ∷ edges) {edge} h found =
      ground (arith, there-find_edge field x edges {edge = edge})

  -- An object that is there stands under its id, and its edges are closed.
  pub closed-find :
      (entries : Dict ObjectId (Object T)) (id : ObjectId) {o : Object T}
      → are_closed objects entries ≡ true
      → find id entries ≡ some o
      → (o.id ≡ id) × (are_there objects o.pt_edges ≡ true)
  unfolding are_closed find
  closed-find [] id h found = cc
  closed-find ((j, p) ∷ entries) id {o} h found =
      ground (arith, eqb_ℤ_iff p.id j, eqb_ℤ_iff j id, closed-find entries id {o = o})

  pub edges_into-there :
      (id : ObjectId) (o : Object T) (edges : List (PtEdge T))
      → is_there objects id ≡ false
      → are_there objects edges ≡ true
      → edges_into id o edges ≡ []
  unfolding are_there edges_into
  edges_into-there id o [] missing h = refl
  edges_into-there id o (edge ∷ edges) missing h =
      ground (arith, eqb_ℤ_iff edge.target_object_id id, edges_into-there id o edges)

  pub in_edges-there :
      (id : ObjectId) (entries : Dict ObjectId (Object T))
      → is_there objects id ≡ false
      → are_closed objects entries ≡ true
      → in_edges_of_objects id entries ≡ []
  unfolding are_closed in_edges_of_objects
  in_edges-there id [] missing h = refl
  in_edges-there id ((j, o) ∷ entries) missing h =
      ground (arith, edges_into-there id o o.pt_edges, in_edges-there id entries)

  pub closed-erase :
      (id : ObjectId) (entries : Dict ObjectId (Object T))
      → are_closed objects entries ≡ true
      → are_closed objects (erase id entries) ≡ true
  unfolding are_closed erase
  closed-erase id [] h = refl
  closed-erase id ((j, o) ∷ entries) h = ground (arith, closed-erase id entries)

-- In a closed graph no edge leads to an object that is not there.
pub find_pt_in_edges-closed :
    {T V : Type 0} (g : Graph T V) (id : ObjectId)
    → IsClosed g
    → is_there g.objects id ≡ false
    → find_pt_in_edges id g ≡ []
unfolding find_pt_in_edges
find_pt_in_edges-closed g id closed missing = ground (
  arith,
  edges_into-there g.objects id g.handles g.handles.pt_edges missing closed.handles_closed,
  in_edges-there g.objects id g.objects missing closed.objects_closed,
)
