-- ===== src/Smg/InEdges.antt =====
-- The edges that lead into an object, and their redirection: FindPtInEdges of src/Smg/Graph.hpp and
-- the loops over it.
pub mod Redirect
use angie.Common.{Bool, List, [], ◌∷◌, ◌++◌, if◌then◌else◌, none, some}
use angie.Common.Int.{eqb_ℤ}
use angie.Common.Dict.{Dict, ℤ_key, find, assign}
use angie.Smg.{ObjectId}
use angie.Smg.Edge.{PtEdge}
use angie.Smg.Object.{Object}

module _ {T : Type 0} where
  -- A change of the object with the given id, which is there.
  abbrev pub update_object :
      ObjectId → (Object T → Object T) → Dict ObjectId (Object T) → Dict ObjectId (Object T)
  update_object id f objects = elim (find id objects) [
    | none ↦ objects
    | some o ↦ assign id (f o) objects
  ]

  -- `FindPtInEdges`, over one object: the edges into `id`, with the object that they start from
  unfoldable pub edges_into : ObjectId → Object T → List (PtEdge T) → List (Object T × PtEdge T)
  edges_into id o [] = []
  edges_into id o (edge ∷ edges) =
      if eqb_ℤ edge.target_object_id id
      then (o, edge) ∷ edges_into id o edges
      else edges_into id o edges

  unfoldable pub in_edges_of_objects :
      ObjectId → Dict ObjectId (Object T) → List (Object T × PtEdge T)
  unfolding edges_into
  in_edges_of_objects id [] = []
  in_edges_of_objects id ((_, o) ∷ objects) =
      edges_into id o o.pt_edges ++ in_edges_of_objects id objects

  -- The loop over FindPtInEdges that gives each edge into `old` the target `new`.
  unfoldable pub redirect_edge : (old new : ObjectId) → PtEdge T → PtEdge T
  redirect_edge old new edge =
      if eqb_ℤ edge.target_object_id old then record edge { target_object_id = new } else edge

  unfoldable pub redirect_edges : (old new : ObjectId) → List (PtEdge T) → List (PtEdge T)
  unfolding redirect_edge
  redirect_edges old new [] = []
  redirect_edges old new (edge ∷ edges) = redirect_edge old new edge ∷ redirect_edges old new edges

  unfoldable pub redirect_object : (old new : ObjectId) → Object T → Object T
  unfolding redirect_edges
  redirect_object old new o = record o { pt_edges = redirect_edges old new o.pt_edges }

  unfoldable pub redirect_objects :
      (old new : ObjectId) → Dict ObjectId (Object T) → Dict ObjectId (Object T)
  unfolding redirect_object
  redirect_objects old new [] = []
  redirect_objects old new ((id, o) ∷ objects) =
      (id, redirect_object old new o) ∷ redirect_objects old new objects
