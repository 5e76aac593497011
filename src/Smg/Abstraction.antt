-- ===== src/Smg/Abstraction.antt =====
-- The search for doubly linked regions, and their replacement by a list segment:
-- src/Smg/Abstraction.hpp, with the wrappers of src/Smg/Wrappers.hpp that it calls.
pub mod Candidate
pub mod Join
pub mod Look
pub mod SubGraph
mod Tests
use angie.Common.{
  ℕ, Bool, true, false, ◌&&◌, Option, none, some, List, [], ◌∷◌, ◌==◌, if◌then◌else◌,
}
use angie.Common.Int.{eqb_ℤ, pos}
use angie.Common.Dict.{Dict, ℤ_key, find, emplace, erase}
use angie.Common.Run.{
  Result, value, error, undefined_behaviour, assertion_failed, Run, ok, or_throw, then_value, read,
  pure, ◌>>=◌, ◌>>◌,
}
use angie.Values.{ValueId}
use angie.Smg.{ObjectId}
use angie.Smg.Edge.{PtEdge}
use angie.Smg.Object.{
  Object, DlsOffsets, dls, create_region, create_pt_edge, find_pt_edge_by_offset,
}
use angie.Smg.Graph.{Graph, get_next_object_id, redirect_in_edges}

module _ {T : Type 0} where
  unfoldable pub has_edge_at : Object T → ValueId → Bool
  unfolding find_pt_edge_by_offset
  has_edge_at o offset = elim (find_pt_edge_by_offset o offset) [ none ↦ false | some _ ↦ true ]

  -- The condition on `pfEdge`, an edge of `o2`, with the two lookups that follow it.
  unfoldable pub is_prev_edge : (o1 o2 : Object T) (nf_edge pf_edge : PtEdge T) → Bool
  unfolding has_edge_at
  is_prev_edge o1 o2 nf_edge pf_edge =
      eqb_ℤ pf_edge.target_object_id o1.id
      && pf_edge.target_offset == nf_edge.target_offset
      && has_edge_at o2 nf_edge.source_offset
      && has_edge_at o1 pf_edge.source_offset

  -- The loop over the edges of `o2`.
  unfoldable pub find_prev_edge :
      (o1 o2 : Object T) (nf_edge : PtEdge T) → List (PtEdge T) → Option (PtEdge T)
  unfolding is_prev_edge
  find_prev_edge o1 o2 nf_edge [] = none
  find_prev_edge o1 o2 nf_edge (pf_edge ∷ edges) =
      if is_prev_edge o1 o2 nf_edge pf_edge
      then some pf_edge
      else find_prev_edge o1 o2 nf_edge edges

  abbrev pub dls_offsets : (nf_edge pf_edge : PtEdge T) → DlsOffsets
  dls_offsets nf_edge pf_edge = record {
    hfo = nf_edge.target_offset;
    nfo = nf_edge.source_offset;
    pfo = pf_edge.source_offset;
  }

  -- The body of the loop for one edge of `o1`, given its target.
  unfoldable pub ask_edge : (o1 o2 : Object T) (nf_edge : PtEdge T) → Option (DlsOffsets × ObjectId)
  unfolding find_prev_edge
  ask_edge o1 o2 nf_edge =
      if o2.size == o1.size
      then elim (find_prev_edge o1 o2 nf_edge o2.pt_edges) [
        | none ↦ none
        | some pf_edge ↦ some (dls_offsets nf_edge pf_edge, o2.id)
      ]
      else none

  -- The loop over the edges of `o1`. The load of a target that is not there is a null dereference.
  unfoldable pub ask_edges :
      Dict ObjectId (Object T)
      → (o1 : Object T) → List (PtEdge T)
      → Result (Option (DlsOffsets × ObjectId))
  unfolding ask_edge
  ask_edges objects o1 [] = value none
  ask_edges objects o1 (nf_edge ∷ edges) =
      let rest = ask_edges objects o1 edges in
      elim (find nf_edge.target_object_id objects) [
        | none ↦ error undefined_behaviour
        | some o2 ↦ elim (ask_edge o1 o2 nf_edge) [ none ↦ rest | some found ↦ value (some found) ]
      ]

  -- IsCandidateObject; `none` is the tuple that starts with false.
  unfoldable pub is_candidate_object :
      Dict ObjectId (Object T) → Object T → Result (Option (DlsOffsets × ObjectId))
  unfolding ask_edges
  is_candidate_object objects c = ask_edges objects c c.pt_edges

  -- The segment, as JoinTwoRegions fills it in. Its size and its level are left as they are created.
  unfoldable pub create_dls : ObjectId → DlsOffsets → (next_edge prev_edge : PtEdge T) → Object T
  unfolding create_region create_pt_edge
  create_dls id offsets next_edge prev_edge =
      create_pt_edge prev_edge
        (create_pt_edge next_edge (record (create_region id) { kind = dls 2 offsets }))

module _ {T V : Type 0} where
  -- The wrapper's GetPtEdgeByOffset, with its assertion.
  unfoldable pub get_pt_edge_by_offset : Object T → ValueId → Run (Graph T V) (PtEdge T)
  unfolding find_pt_edge_by_offset
  get_pt_edge_by_offset o offset =
      read (λ g. or_throw assertion_failed (find_pt_edge_by_offset o offset))

  -- From the emplacement of the segment on.
  unfoldable pub replace_by_dls : (o1 o2 dls_object : Object T) → Graph T V → Graph T V
  unfolding redirect_in_edges
  replace_by_dls o1 o2 dls_object g =
      let added : Graph T V = record g { objects = emplace dls_object.id dls_object g.objects } in
      let redirected =
        redirect_in_edges o2.id dls_object.id (redirect_in_edges o1.id dls_object.id added) in
      record redirected { objects = erase o2.id (erase o1.id redirected.objects) }

  unfoldable pub join_two_regions : (o1 o2 : Object T) → DlsOffsets → Run (Graph T V) (Unit {0})
  unfolding get_pt_edge_by_offset get_next_object_id create_dls replace_by_dls
  join_two_regions o1 o2 offsets = do
    next_edge ← get_pt_edge_by_offset o2 offsets.nfo
    prev_edge ← get_pt_edge_by_offset o1 offsets.pfo
    dls_id ← get_next_object_id
    λ g. ok tt (replace_by_dls o1 o2 (create_dls dls_id offsets next_edge prev_edge) g)

  unfoldable pub join_two_objects : (o1 o2 : Object T) → DlsOffsets → Run (Graph T V) (Unit {0})
  unfolding join_two_regions
  join_two_objects = join_two_regions

  -- The body of the loop of LookForCandidates, for an object that is a candidate.
  unfoldable pub join_candidate : Object T → DlsOffsets → ObjectId → Run (Graph T V) Bool
  unfolding join_two_objects
  join_candidate obj offsets linked_id = do
    linked ← read (λ g. or_throw undefined_behaviour (find linked_id g.objects))
    join_two_objects obj linked offsets
    pure true

  unfoldable pub look_through : List (ObjectId × Object T) → Run (Graph T V) Bool
  unfolding is_candidate_object join_candidate
  look_through [] = pure false
  look_through ((_, obj) ∷ objects) = do
    result ← read (λ g. is_candidate_object g.objects obj)
    elim result [
      | none ↦ look_through objects
      | some (offsets, linked_id) ↦ join_candidate obj offsets linked_id
    ]

  unfoldable pub look_for_candidates : Run (Graph T V) Bool
  unfolding look_through
  look_for_candidates g = look_through g.objects g
