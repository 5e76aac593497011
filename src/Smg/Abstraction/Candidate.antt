-- ===== src/Smg/Abstraction/Candidate.antt =====
-- IsCandidateObject of src/Smg/Abstraction.hpp against what it looks for: a pair of regions that
-- point to each other.
use mathlib.Core.List.{Memᴰ}
use angie.Common.{
  ◌≡◌, ◌≢◌, ◌∙◌, refl, ap, true, Option, none, some, List, [], ◌∷◌, arith, inl, inr, Bool-cases,
  Option-cases,
}
use angie.Common.Int.{eqb_ℤ_iff}
use angie.Common.Dict.{Dict, ℤ_key, find}
use angie.Common.Run.{value}
use angie.Smg.{ObjectId}
use angie.Smg.Edge.{PtEdge}
use angie.Smg.Object.{Object, DlsOffsets}
use angie.Smg.Closed.{is_there, are_there}
use angie.Smg.Abstraction.{
  has_edge_at, is_prev_edge, find_prev_edge, dls_offsets, ask_edge, ask_edges, is_candidate_object,
}

module _ {T : Type 0} where
  -- `nf_edge` leads from `o1` to `o2`, an object of the same size, and `pf_edge` leads back from it
  -- with the same target offset; and each of the two has the field that the other's edge starts in.
  pub record IsDoubleLink (objects : Dict ObjectId (Object T)) (o1 o2 : Object T)
      (nf_edge pf_edge : PtEdge T) : Type 0 where
    pub next : Memᴰ nf_edge o1.pt_edges
    pub prev : Memᴰ pf_edge o2.pt_edges
    pub leads_there : find nf_edge.target_object_id objects ≡ some o2
    pub leads_back : pf_edge.target_object_id ≡ o1.id
    pub same_size : o2.size ≡ o1.size
    pub same_head : pf_edge.target_offset ≡ nf_edge.target_offset
    pub next_field : has_edge_at o2 nf_edge.source_offset ≡ true
    pub prev_field : has_edge_at o1 pf_edge.source_offset ≡ true

  -- What a result of the search stands for.
  abbrev pub IsLinked : Dict ObjectId (Object T) → Object T → DlsOffsets × ObjectId → Type 0
  IsLinked objects o1 found =
      (o2 : Object T) × (nf_edge : PtEdge T) × (pf_edge : PtEdge T) × IsDoubleLink objects o1 o2
        nf_edge pf_edge
      × (found ≡ (dls_offsets nf_edge pf_edge, o2.id))

  find_prev_edge-found :
      (o1 o2 : Object T) (nf_edge : PtEdge T) (edges : List (PtEdge T)) {pf_edge : PtEdge T}
      → find_prev_edge o1 o2 nf_edge edges ≡ some pf_edge
      → Memᴰ pf_edge edges × (is_prev_edge o1 o2 nf_edge pf_edge ≡ true)
  unfolding find_prev_edge
  find_prev_edge-found o1 o2 nf_edge [] h = cc
  find_prev_edge-found o1 o2 nf_edge (edge ∷ edges) {pf_edge} h =
      elim (Bool-cases (is_prev_edge o1 o2 nf_edge edge)) [
        | inl here ↦
            let same : edge ≡ pf_edge = ground arith in (Memᴰ.head (ground arith), ground arith)
        | inr later ↦
            let (member, is) =
              find_prev_edge-found o1 o2 nf_edge edges {pf_edge = pf_edge} (ground arith) in
            (Memᴰ.tail member, is)
      ]

  find_prev_edge-finds :
      (o1 o2 : Object T) (nf_edge : PtEdge T) {pf_edge : PtEdge T} {edges : List (PtEdge T)}
      → Memᴰ pf_edge edges
      → is_prev_edge o1 o2 nf_edge pf_edge ≡ true
      → find_prev_edge o1 o2 nf_edge edges ≢ none
  unfolding find_prev_edge
  find_prev_edge-finds o1 o2 nf_edge (Memᴰ.head same) is = λ missing. ground arith
  find_prev_edge-finds o1 o2 nf_edge (Memᴰ.tail member) is =
      let later = find_prev_edge-finds o1 o2 nf_edge member is in λ missing. ground (arith, later)

  ask_edge-found :
      (o1 o2 : Object T) (nf_edge : PtEdge T) {found : DlsOffsets × ObjectId}
      → ask_edge o1 o2 nf_edge ≡ some found
      → (pf_edge : PtEdge T) × Memᴰ pf_edge o2.pt_edges
        × (is_prev_edge o1 o2 nf_edge pf_edge ≡ true)
        × (o2.size ≡ o1.size)
        × (found ≡ (dls_offsets nf_edge pf_edge, o2.id))
  unfolding ask_edge
  ask_edge-found o1 o2 nf_edge {found} h =
      elim (Option-cases (find_prev_edge o1 o2 nf_edge o2.pt_edges)) [
        | inl missing ↦ absurd (ground arith)
        | inr (pf_edge, there) ↦
            let (member, is) = find_prev_edge-found o1 o2 nf_edge o2.pt_edges there in
            (pf_edge, member, is, ground arith, ground arith)
      ]

  link :
      (objects : Dict ObjectId (Object T)) (o1 o2 : Object T) (nf_edge : PtEdge T)
      → Memᴰ nf_edge o1.pt_edges
      → find nf_edge.target_object_id objects ≡ some o2
      → {found : DlsOffsets × ObjectId} → ask_edge o1 o2 nf_edge ≡ some found
      → IsLinked objects o1 found
  unfolding is_prev_edge
  link objects o1 o2 nf_edge member there h =
      let (pf_edge, back, is, size, same) = ask_edge-found o1 o2 nf_edge h in
      (
        o2,
        nf_edge,
        pf_edge,
        record {
          next = member;
          prev = back;
          leads_there = there;
          leads_back = ground (arith, eqb_ℤ_iff pf_edge.target_object_id o1.id);
          same_size = size;
          same_head = ground arith;
          next_field = ground arith;
          prev_field = ground arith;
        },
        same,
      )

  ask_edges-IsLinked :
      (objects : Dict ObjectId (Object T)) (o1 : Object T) (edges : List (PtEdge T))
      → ((edge : PtEdge T) → Memᴰ edge edges → Memᴰ edge o1.pt_edges)
      → {found : DlsOffsets × ObjectId} → ask_edges objects o1 edges ≡ value (some found)
      → IsLinked objects o1 found
  unfolding ask_edges
  ask_edges-IsLinked objects o1 [] among h = cc
  ask_edges-IsLinked objects o1 (edge ∷ edges) among {found} h =
      elim (Option-cases (find edge.target_object_id objects)) [
        | inl missing ↦ absurd (ground arith)
        | inr (o2, there) ↦ elim (Option-cases (ask_edge o1 o2 edge)) [
          | inl not_this ↦
              ask_edges-IsLinked objects o1 edges (λ e m. among e (Memᴰ.tail m)) (ground arith)
          | inr (this, yields) ↦
              link objects o1 o2 edge (among edge (Memᴰ.head refl)) there {found = found}
                (ground arith)
        ]
      ]

  ask_edges-answers :
      (objects : Dict ObjectId (Object T)) (o1 : Object T) (edges : List (PtEdge T))
      → are_there objects edges ≡ true
      → (r : Option (DlsOffsets × ObjectId)) × (ask_edges objects o1 edges ≡ value r)
  unfolding ask_edges are_there is_there
  ask_edges-answers objects o1 [] h = (none, refl)
  ask_edges-answers objects o1 (edge ∷ edges) h =
      elim (Option-cases (find edge.target_object_id objects)) [
        | inl missing ↦ absurd (ground arith)
        | inr (o2, there) ↦ elim (Option-cases (ask_edge o1 o2 edge)) [
          | inl not_this ↦
              let (r, rest) = ask_edges-answers objects o1 edges (ground arith) in (r, ground arith)
          | inr (this, yields) ↦ (some this, ground arith)
        ]
      ]

  ask_edge-finds :
      (objects : Dict ObjectId (Object T)) {o1 o2 : Object T} {nf_edge pf_edge : PtEdge T}
      → IsDoubleLink objects o1 o2 nf_edge pf_edge
      → ask_edge o1 o2 nf_edge ≢ none
  unfolding ask_edge is_prev_edge
  ask_edge-finds objects {o1} {o2} {nf_edge} {pf_edge} is missing =
      let back : is_prev_edge o1 o2 nf_edge pf_edge ≡ true = ground (
        arith,
        is.leads_back,
        is.same_head,
        is.next_field,
        is.prev_field,
        eqb_ℤ_iff pf_edge.target_object_id o1.id,
      ) in
      ground (arith, is.same_size, find_prev_edge-finds o1 o2 nf_edge is.prev back)

  ask_edges-finds :
      (objects : Dict ObjectId (Object T)) {o1 o2 : Object T} {nf_edge pf_edge : PtEdge T}
      → IsDoubleLink objects o1 o2 nf_edge pf_edge
      → {edges : List (PtEdge T)} → Memᴰ nf_edge edges
      → ask_edges objects o1 edges ≢ value none
  unfolding ask_edges
  ask_edges-finds objects is (Memᴰ.head same) =
      let finds = ask_edge-finds objects is in λ missing. ground (arith, is.leads_there, finds)
  ask_edges-finds objects is (Memᴰ.tail member) =
      let later = ask_edges-finds objects is member in λ missing. ground (arith, later)

  -- IsCandidateObject, for an object whose edges all lead to objects that are there: it returns; a
  -- result that it finds stands for a double link, that is, an edge to an object of the same size
  -- and an edge back with the same target offset, where each object has the other's field, with the
  -- offsets and the id taken from them; and where it finds none, there is no double link.
  pub is_candidate_object_iff :
      (objects : Dict ObjectId (Object T)) (c : Object T)
      → are_there objects c.pt_edges ≡ true
      → (r : Option (DlsOffsets × ObjectId)) × (is_candidate_object objects c ≡ value r)
        × ((found : DlsOffsets × ObjectId) → r ≡ some found → IsLinked objects c found)
        × (r ≡ none
            → (o2 : Object T) (nf_edge pf_edge : PtEdge T)
            → ¬ IsDoubleLink objects c o2 nf_edge pf_edge)
  unfolding is_candidate_object
  is_candidate_object_iff objects c closed =
      let (r, answer) = ask_edges-answers objects c c.pt_edges closed in
      (
        r,
        answer,
        λ found same. ask_edges-IsLinked objects c c.pt_edges (λ e m. m) (answer ∙ ap value same),
        λ same o2 nf_edge pf_edge is. ask_edges-finds objects is is.next (answer ∙ ap value same),
      )
