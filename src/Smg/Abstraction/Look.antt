-- ===== src/Smg/Abstraction/Look.antt =====
-- LookForCandidates of src/Smg/Abstraction.hpp: the search over all objects, and the join of what it finds.
use mathlib.Core.List.{Memᴰ}
use mathlib.Core.List.Memᴰ
use angie.Common.{
  ◌≡◌, refl, sym, subst, Bool, true, false, some, List, [], ◌∷◌, inl, inr, Option-cases,
}
use angie.Common.Int.{pos}
use angie.Common.Dict.{Dict, ℤ_key, find}
use angie.Common.Run.{ok}
use angie.Smg.{ObjectId}
use angie.Smg.Edge.{PtEdge}
use angie.Smg.Object.{Object, DlsOffsets}
use angie.Smg.Graph.{Graph}
use angie.Smg.Closed.{is_there, are_there, IsClosed, closed-find}
use angie.Smg.Abstraction.{
  dls_offsets, join_two_objects, join_candidate, look_through, look_for_candidates,
}
use angie.Smg.Abstraction.Candidate.{IsDoubleLink, IsLinked, is_candidate_object_iff}
use angie.Smg.Abstraction.Join.{IsJoined, join_two_regions_lem}

module _ {T V : Type 0} (g : Graph T V) where
  -- What the search over the given objects ends in: nothing changes and no object is the first of a
  -- double link, or the two ends of a double link have been joined.
  pub data IsLooked (entries : List (ObjectId × Object T)) : Bool → Graph T V → Type 0 where
    no_link :
        ((entry : ObjectId × Object T)
          → Memᴰ entry entries
          → (o2 : Object T) (nf_edge pf_edge : PtEdge T)
          → ¬ IsDoubleLink g.objects entry.1 o2 nf_edge pf_edge)
        → IsLooked entries false g
    link_joined :
        {g' : Graph T V} (o1 o2 : Object T) {nf_edge pf_edge : PtEdge T}
        → IsDoubleLink g.objects o1 o2 nf_edge pf_edge
        → IsJoined o1 o2 (dls_offsets nf_edge pf_edge) (pos g.next_object_id) g g'
        → IsLooked entries true g'

  module _ (closed : IsClosed g) (fresh : is_there g.objects (pos g.next_object_id) ≡ false) where
    -- The first of the two is there, and so both can be joined.
    link-joins :
        (entries : List (ObjectId × Object T)) (o1 : Object T) {found : DlsOffsets × ObjectId}
        → find o1.id g.objects ≡ some o1
        → IsLinked g.objects o1 found
        → (g' : Graph T V) × (join_candidate o1 found.0 found.1 g ≡ ok true g')
          × IsLooked entries true g'
    unfolding join_candidate join_two_objects
    link-joins entries o1 found1 (o2, nf_edge, pf_edge, is, same) =
        let named =
          (closed-find g.objects g.objects nf_edge.target_object_id closed.objects_closed
            is.leads_there).0 in
        let found2 : find o2.id g.objects ≡ some o2 =
          subst (λ id. find id g.objects ≡ some o2) (sym named) is.leads_there in
        let (g', joins, is_joined) =
          join_two_regions_lem g o1 o2 (dls_offsets nf_edge pf_edge) closed fresh found1 found2
            is.next_field is.prev_field in
        (g', rw (same, found2, joins) refl, link_joined o1 o2 is is_joined)

    IsLooked-later :
        (entry : ObjectId × Object T) (entries : List (ObjectId × Object T))
        → ((o2 : Object T) (nf_edge pf_edge : PtEdge T)
            → ¬ IsDoubleLink g.objects entry.1 o2 nf_edge pf_edge)
        → {b : Bool} {g' : Graph T V} → IsLooked entries b g'
        → IsLooked (entry ∷ entries) b g'
    IsLooked-later entry entries not_this (no_link none_later) = no_link (λ other member.
        elim (Memᴰ.cases_cons member) [
          | inl same ↦
              subst
                (λ (e : ObjectId × Object T).
                  (o2 : Object T) (nf_edge pf_edge : PtEdge T)
                  → ¬ IsDoubleLink g.objects e.1 o2 nf_edge pf_edge)
                (sym same) not_this
          | inr later ↦ none_later other later
        ])
    IsLooked-later entry entries not_this (link_joined o1 o2 is is_joined) =
        link_joined o1 o2 is is_joined

    -- The entries that are still to be looked at are entries of the graph.
    pub look_through-IsLooked :
        (entries : List (ObjectId × Object T))
        → ((entry : ObjectId × Object T)
            → Memᴰ entry entries
            → (find entry.1.id g.objects ≡ some entry.1)
              × (are_there g.objects entry.1.pt_edges ≡ true))
        → (b : Bool) × (g' : Graph T V) × (look_through entries g ≡ ok b g') × IsLooked entries b g'
    unfolding look_through
    look_through-IsLooked [] among =
        (false, g, refl, no_link (λ entry member. absurd (Memᴰ.not-nil member)))
    look_through-IsLooked ((id, o) ∷ entries) among =
        let (found, edges) = among (id, o) (Memᴰ.head refl) in
        let (r, answer, right, complete) = is_candidate_object_iff g.objects o edges in
        elim (Option-cases r) [
          | inl missing ↦
              let (b, g', looks, is_looked) =
                look_through-IsLooked entries (λ entry member. among entry (Memᴰ.tail member)) in
              (
                b,
                g',
                rw (answer, missing) looks,
                IsLooked-later (id, o) entries (complete missing) is_looked,
              )
          | inr (result, yields) ↦
              let (g', joins, is_looked) =
                link-joins ((id, o) ∷ entries) o found (right result yields) in
              (true, g', rw (answer, yields) joins, is_looked)
        ]

-- No key stands twice in the map.
abbrev pub IsMap : {T : Type 0} → Dict ObjectId (Object T) → Type 0
IsMap {T} objects =
    (entry : ObjectId × Object T) → Memᴰ entry objects → find entry.0 objects ≡ some entry.1

-- LookForCandidates, on a closed graph with a map of objects and an unused next id: it returns. If
-- it answers false, the graph is as it was, and no object of it is the first of a double link; if it
-- answers true, two doubly linked objects of the graph are gone with all edges into them, and the
-- graph is closed again. Under the next id stands a list segment of length 2 with the offsets of the
-- link and the outer edges of the two objects, and the other objects are as they were, but for their
-- edges into the two, which lead to the segment.
pub look_for_candidates_lem :
    {T V : Type 0} (g : Graph T V)
    → IsClosed g
    → is_there g.objects (pos g.next_object_id) ≡ false
    → IsMap g.objects
    → (b : Bool) × (g' : Graph T V) × (look_for_candidates g ≡ ok b g') × IsLooked g g.objects b g'
unfolding look_for_candidates
look_for_candidates_lem g closed fresh is_map =
    look_through-IsLooked g closed fresh g.objects (λ entry member.
      let found = is_map entry member in
      let (named, edges) = closed-find g.objects g.objects entry.0 closed.objects_closed found in
      (subst (λ id. find id g.objects ≡ some entry.1) (sym named) found, edges))
