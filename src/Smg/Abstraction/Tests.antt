-- ===== src/Smg/Abstraction/Tests.antt =====
-- The theorems about list segments at two regions that point to each other.
use mathlib.Core.List.Memᴰ
use angie.Common.{
  ℕ, ◌≡◌, ◌↔◌, refl, Bool, true, false, Option, none, some, [], ◌∷◌, arith, inl, inr,
}
use angie.Common.Int.{pos}
use angie.Common.Dict.{Dict, ℤ_key, find}
use angie.Common.Run.{Outcome, ok, raise, value}
use angie.Smg.{ObjectId, null_id}
use angie.Smg.Edge.{PtEdge, find_edge}
use angie.Smg.Object.{Object, DlsOffsets, create_region, special_region, find_pt_edge_by_offset}
use angie.Smg.Graph.{Graph, get_next_object_id}
use angie.Smg.Closed.{is_there, are_there, are_closed, IsClosed}
use angie.Smg.Abstraction.{
  has_edge_at, is_candidate_object, join_two_regions, look_for_candidates, join_candidate,
  ask_edges, ask_edge, find_prev_edge, is_prev_edge, join_two_objects, get_pt_edge_by_offset,
}
use angie.Smg.Abstraction.Candidate.{IsDoubleLink, IsLinked, is_candidate_object_iff}
use angie.Smg.Abstraction.Join.{IsJoined, join_two_regions_lem}
use angie.Smg.Abstraction.Look.{IsLooked, IsMap, look_for_candidates_lem}
use angie.Smg.Abstraction.SubGraph.{init}
use angie.Smg.Abstraction.SubGraph.Init.{Reach, init_lem}

abbrev edge_to : ℕ → ObjectId → PtEdge ℕ
edge_to offset id = record {
  source_offset = offset;
  value = 50;
  value_type = 1;
  target_object_id = id;
  target_offset = 0;
}

-- The next field is at #20, and the previous one at #21.
abbrev list_region : ObjectId → (next prev : ObjectId) → Object ℕ
list_region id next prev = record (create_region id) {
  pt_edges = edge_to 20 next ∷ edge_to 21 prev ∷ [];
  size = 8;
}

abbrev front : Object ℕ
front = list_region (pos 1) (pos 2) null_id

abbrev back : Object ℕ
back = list_region (pos 2) null_id (pos 1)

-- The state of the container is of no importance.
abbrev two_regions : Graph ℕ ℕ
two_regions = record {
  handles = record (create_region null_id) { pt_edges = edge_to 0 (pos 1) ∷ [] };
  objects = (null_id, special_region null_id) ∷ (pos 1, front) ∷ (pos 2, back) ∷ [];
  next_object_id = 3;
  vc = 0;
}

two_regions-IsClosed : IsClosed two_regions
unfolding are_there are_closed is_there find create_region
two_regions-IsClosed = record { handles_closed = refl; objects_closed = refl }

two_regions-IsMap : IsMap two_regions.objects
unfolding find
two_regions-IsMap entry m = elim (Memᴰ.cases_cons m) [
  | inl same ↦ rw same refl
  | inr later ↦ elim (Memᴰ.cases_cons later) [
    | inl same ↦ rw same refl
    | inr last ↦ rw (Memᴰ.eq_of_singleton last) refl
  ]
]

is_candidate_object_iff_example :
    (r : Option (DlsOffsets × ObjectId)) × (is_candidate_object two_regions.objects front ≡ value r)
    × ((found : DlsOffsets × ObjectId) → r ≡ some found → IsLinked two_regions.objects front found)
    × (r ≡ none
        → (o2 : Object ℕ) (nf_edge pf_edge : PtEdge ℕ)
        → ¬ IsDoubleLink two_regions.objects front o2 nf_edge pf_edge)
unfolding are_there is_there find
is_candidate_object_iff_example = is_candidate_object_iff two_regions.objects front refl

answer : Outcome (Graph ℕ ℕ) Bool → Bool
answer (ok b g) = b
answer (raise e g) = false

-- The search joins the two regions.
two_regions_link : answer (look_for_candidates two_regions) ≡ true
unfolding answer look_for_candidates is_candidate_object join_candidate has_edge_at ask_edges
    ask_edge find_prev_edge is_prev_edge find create_region find_pt_edge_by_offset find_edge
    join_two_objects join_two_regions get_pt_edge_by_offset get_next_object_id
two_regions_link = refl

join_two_regions_lem_example :
    (g' : Graph ℕ ℕ) × (join_two_regions front back
        (record { hfo = 0; nfo = 20; pfo = 21 })
        two_regions
      ≡ ok tt g')
    × IsJoined front back (record { hfo = 0; nfo = 20; pfo = 21 }) (pos 3) two_regions g'
unfolding is_there find has_edge_at find_pt_edge_by_offset find_edge create_region
join_two_regions_lem_example =
    join_two_regions_lem two_regions front back (record { hfo = 0; nfo = 20; pfo = 21 })
      two_regions-IsClosed refl refl refl refl refl

look_for_candidates_lem_example :
    (b : Bool) × (g' : Graph ℕ ℕ) × (look_for_candidates two_regions ≡ ok b g')
    × IsLooked two_regions two_regions.objects b g'
unfolding is_there find
look_for_candidates_lem_example =
    look_for_candidates_lem two_regions two_regions-IsClosed refl two_regions-IsMap

init_lem_example :
    (seen : Dict ObjectId (Object ℕ)) × (init 4 two_regions.objects front ≡ value (some seen))
    × ((id : ObjectId) → (is_there seen id ≡ true) ↔ Reach two_regions.objects front id)
unfolding are_closed are_there is_there find create_region
init_lem_example = init_lem two_regions.objects front refl refl 4 (omega arith)
