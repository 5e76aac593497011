-- ===== src/Smg/Abstraction/Join.antt =====
-- JoinTwoRegions and LookForCandidates of src/Smg/Abstraction.hpp: the graph stays closed.
use mathlib.Core.Option
use angie.Common.{
  ◌≡◌, refl, suc, true, false, ◌||◌, none, some, [], ◌∷◌, arith, inl, inr, Option-cases,
  if◌then◌else◌,
}
use angie.Common.Int.{eqb_ℤ, eqb_ℤ_iff, pos}
use angie.Common.Dict.{Dict, ℤ_key, find, emplace, erase, eq_refl, find-erase, find-emplace_new}
use angie.Common.Run.{ok}
use angie.Values.{ValueId}
use angie.Smg.{ObjectId}
use angie.Smg.Edge.{PtEdge}
use angie.Smg.Object.{
  Object, DlsOffsets, dls, create_region, create_pt_edge, find_pt_edge_by_offset,
}
use angie.Smg.InEdges.{redirect_edge, redirect_edges, redirect_objects, redirect_object}
use angie.Smg.InEdges.Redirect.{find-redirect_objects}
use angie.Smg.Graph.{Graph, find_pt_in_edges}
use angie.Smg.Closed.{
  is_there, are_there, are_closed, IsClosed, there-find_edge, closed-find, closed-erase,
  find_pt_in_edges-closed,
}
use angie.Smg.Closed.Joined.{
  there-erase, there-redirect, there-emplace, are_there-more, closed-more, closed-emplace,
  are_there-redirect, closed-redirect,
}
use angie.Smg.Abstraction.{
  has_edge_at, create_dls, get_pt_edge_by_offset, replace_by_dls, join_two_regions,
}

module _ {T : Type 0} where
  -- An edge into one of the two objects leads to the new one.
  abbrev pub moved : (old1 old2 new : ObjectId) → PtEdge T → PtEdge T
  moved old1 old2 new edge =
      if eqb_ℤ edge.target_object_id old1 || eqb_ℤ edge.target_object_id old2
      then record edge { target_object_id = new }
      else edge

  -- The segment for two regions: a list of length 2 with the three offsets, whose edges are the next
  -- edge of the second region and the previous edge of the first one, and which holds no values.
  pub record IsSegment (o1 o2 : Object T) (offsets : DlsOffsets) (new : ObjectId)
      (segment : Object T) : Type 0 where
    pub next_edge : PtEdge T
    pub prev_edge : PtEdge T
    pub next_from : find_pt_edge_by_offset o2 offsets.nfo ≡ some next_edge
    pub prev_from : find_pt_edge_by_offset o1 offsets.pfo ≡ some prev_edge
    pub id_fits : segment.id ≡ new
    pub is_list : segment.kind ≡ dls 2 offsets
    pub edges :
        segment.pt_edges ≡ moved o1.id o2.id new next_edge ∷ moved o1.id o2.id new prev_edge ∷ []
    pub no_values : segment.hv_edges ≡ []

-- A closed graph that the objects `o1` and `o2` are gone from, with every edge into them, in which
-- the segment for them stands under the id `new`, and every other object is as it was, but for its
-- edges into the two.
pub record IsJoined {T V : Type 0} (o1 o2 : Object T) (offsets : DlsOffsets) (new : ObjectId)
    (g g' : Graph T V) : Type 0 where
  pub closed : IsClosed g'
  pub gone1 : is_there g'.objects o1.id ≡ false
  pub gone2 : is_there g'.objects o2.id ≡ false
  pub no_edges1 : find_pt_in_edges o1.id g' ≡ []
  pub no_edges2 : find_pt_in_edges o2.id g' ≡ []
  pub segment : Object T
  pub found : find new g'.objects ≡ some segment
  pub is_segment : IsSegment o1 o2 offsets new segment
  pub others :
      (j : ObjectId)
      → eqb_ℤ o1.id j ≡ false
      → eqb_ℤ o2.id j ≡ false
      → eqb_ℤ new j ≡ false
      → find j g'.objects
        ≡ Option.map
            (redirect_object o2.id new)
            (Option.map (redirect_object o1.id new) (find j g.objects))

module _ {T V : Type 0} (o1 o2 d : Object T) (g : Graph T V)
    (fresh : is_there g.objects d.id ≡ false) (there1 : is_there g.objects o1.id ≡ true)
    (there2 : is_there g.objects o2.id ≡ true) where
  -- The graph with the segment added.
  abbrev added : Dict ObjectId (Object T)
  added = emplace d.id d g.objects

  abbrev without_both : Dict ObjectId (Object T)
  without_both = erase o2.id (erase o1.id added)

  apart1 : eqb_ℤ o1.id d.id ≡ false
  apart1 = ground (arith, eqb_ℤ_iff o1.id d.id)

  apart2 : eqb_ℤ o2.id d.id ≡ false
  apart2 = ground (arith, eqb_ℤ_iff o2.id d.id)

  added_there : is_there added d.id ≡ true
  added_there = ground (arith, there-emplace d.id d.id d g.objects fresh, eq_refl ⦃e = ℤ_key⦄ d.id)

  first_there : is_there (erase o1.id added) d.id ≡ true
  first_there = ground (arith, there-erase o1.id d.id added, apart1, added_there)

  more_added : (j : ObjectId) → is_there g.objects j ≡ true → is_there added j ≡ true
  more_added j h = ground (arith, there-emplace d.id j d g.objects fresh)

  there-replaced :
      (j : ObjectId)
      → is_there (replace_by_dls o1 o2 d g).objects j
        ≡ (if eqb_ℤ o2.id j then false else if eqb_ℤ o1.id j then false else is_there added j)
  unfolding replace_by_dls
  there-replaced j = ground (
    arith,
    there-erase o2.id j
        (erase o1.id (redirect_objects o2.id d.id (redirect_objects o1.id d.id added))),
    there-erase o1.id j (redirect_objects o2.id d.id (redirect_objects o1.id d.id added)),
    there-redirect o2.id d.id j (redirect_objects o1.id d.id added),
    there-redirect o1.id d.id j added,
  )

  find-replaced :
      (j : ObjectId)
      → find j (replace_by_dls o1 o2 d g).objects ≡ (
          if eqb_ℤ o2.id j
          then none
          else if eqb_ℤ o1.id j
          then none
          else Option.map
              (redirect_object o2.id d.id)
              (Option.map (redirect_object o1.id d.id) (find j added)))
  unfolding replace_by_dls
  find-replaced j = ground (
    arith,
    find-erase ⦃e = ℤ_key⦄ o2.id j
        (erase o1.id (redirect_objects o2.id d.id (redirect_objects o1.id d.id added))),
    find-erase ⦃e = ℤ_key⦄ o1.id j
        (redirect_objects o2.id d.id (redirect_objects o1.id d.id added)),
    find-redirect_objects o2.id d.id j (redirect_objects o1.id d.id added),
    find-redirect_objects o1.id d.id j added,
  )

  find-added : (j : ObjectId) → find j added ≡ (if eqb_ℤ d.id j then some d else find j g.objects)
  unfolding is_there
  find-added j = elim (Option-cases (find d.id g.objects)) [
    | inl missing ↦ find-emplace_new ⦃e = ℤ_key⦄ d.id j d g.objects missing
    | inr (o, found) ↦ absurd (ground arith)
  ]

  -- The segment in the new graph, and the objects that are left.
  pub found-replaced :
      find d.id (replace_by_dls o1 o2 d g).objects
      ≡ some (redirect_object o2.id d.id (redirect_object o1.id d.id d))
  found-replaced =
      ground (arith, find-replaced d.id, find-added d.id, apart1, apart2, eq_refl ⦃e = ℤ_key⦄ d.id)

  pub others-replaced :
      (j : ObjectId)
      → eqb_ℤ o1.id j ≡ false
      → eqb_ℤ o2.id j ≡ false
      → eqb_ℤ d.id j ≡ false
      → find j (replace_by_dls o1 o2 d g).objects
        ≡ Option.map
            (redirect_object o2.id d.id)
            (Option.map (redirect_object o1.id d.id) (find j g.objects))
  others-replaced j not1 not2 not_new = rw (find-replaced j, not1, not2, find-added j, not_new) refl

  pub moved-redirect :
      (edge : PtEdge T)
      → redirect_edge o2.id d.id (redirect_edge o1.id d.id edge) ≡ moved o1.id o2.id d.id edge
  unfolding redirect_edge
  moved-redirect edge = ground (arith, apart2, eqb_ℤ_iff o2.id d.id, eqb_ℤ_iff d.id o2.id)

  pub gone1-replaced : is_there (replace_by_dls o1 o2 d g).objects o1.id ≡ false
  gone1-replaced = ground (arith, there-replaced o1.id, eq_refl ⦃e = ℤ_key⦄ o1.id)

  pub gone2-replaced : is_there (replace_by_dls o1 o2 d g).objects o2.id ≡ false
  gone2-replaced = ground (arith, there-replaced o2.id, eq_refl ⦃e = ℤ_key⦄ o2.id)

  more_replaced :
      (j : ObjectId)
      → is_there without_both j ≡ true
      → is_there (replace_by_dls o1 o2 d g).objects j ≡ true
  more_replaced j h =
      ground (
        arith,
        there-replaced j,
        there-erase o2.id j (erase o1.id added),
        there-erase o1.id j added,
      )

  -- The segment takes the place of both objects, and no edge leads to either of them.
  module _ (closed : IsClosed g) (edges : are_there g.objects d.pt_edges ≡ true) where
    added_closed : are_closed added added ≡ true
    added_closed =
        closed-emplace added d.id d g.objects (eq_refl ⦃e = ℤ_key⦄ d.id)
          (are_there-more g.objects added more_added d.pt_edges edges)
          (closed-more g.objects added more_added g.objects closed.objects_closed)

    pub replaced-IsClosed : IsClosed (replace_by_dls o1 o2 d g)
    unfolding replace_by_dls redirect_object
    replaced-IsClosed = record {
      handles_closed =
          are_there-more without_both (replace_by_dls o1 o2 d g).objects more_replaced _ (
            are_there-redirect o2.id d.id (erase o1.id added) first_there apart2 _ (
              are_there-redirect o1.id d.id added added_there apart1 g.handles.pt_edges (
                are_there-more g.objects added more_added g.handles.pt_edges
                  closed.handles_closed)));
      objects_closed = closed-more without_both (replace_by_dls o1 o2 d g).objects more_replaced _ (
          closed-erase without_both o2.id _ (
            closed-erase without_both o1.id _ (
              closed-redirect o2.id d.id (erase o1.id added) first_there apart2 _
                (closed-redirect o1.id d.id added added_there apart1 added added_closed))));
    }

module _ {T V : Type 0} where
  -- The graph that JoinTwoRegions leaves, given the two edges that it copies.
  abbrev pub joined :
      (o1 o2 : Object T) → DlsOffsets → (next prev : PtEdge T) → Graph T V → Graph T V
  joined o1 o2 offsets next_edge prev_edge g =
      replace_by_dls o1 o2 (create_dls (pos g.next_object_id) offsets next_edge prev_edge)
        (record g { next_object_id = suc g.next_object_id })

  there-found :
      (g : Graph T V) (id : ObjectId) {o : Object T}
      → find id g.objects ≡ some o
      → is_there g.objects id ≡ true
  unfolding is_there
  there-found g id found = ground arith

  there-field :
      (g : Graph T V) (o : Object T) (offset : ValueId) {edge : PtEdge T}
      → IsClosed g
      → find o.id g.objects ≡ some o
      → find_pt_edge_by_offset o offset ≡ some edge
      → is_there g.objects edge.target_object_id ≡ true
  unfolding find_pt_edge_by_offset
  there-field g o offset closed found at =
      there-find_edge g.objects (λ (edge : PtEdge T). edge.source_offset) offset o.pt_edges
        (closed-find g.objects g.objects o.id closed.objects_closed found).1 at

  -- The graph after JoinTwoRegions, with the segment as it is created.
  module _ (g : Graph T V) (o1 o2 : Object T) (offsets : DlsOffsets)
      {next_edge prev_edge : PtEdge T} (closed : IsClosed g)
      (fresh : is_there g.objects (pos g.next_object_id) ≡ false)
      (found1 : find o1.id g.objects ≡ some o1) (found2 : find o2.id g.objects ≡ some o2)
      (next : find_pt_edge_by_offset o2 offsets.nfo ≡ some next_edge)
      (prev : find_pt_edge_by_offset o1 offsets.pfo ≡ some prev_edge) where
    abbrev counted : Graph T V
    counted = record g { next_object_id = suc g.next_object_id }

    abbrev new_dls : Object T
    new_dls = create_dls (pos g.next_object_id) offsets next_edge prev_edge

    abbrev is_there1 : is_there g.objects o1.id ≡ true
    is_there1 = there-found g o1.id found1

    abbrev is_there2 : is_there g.objects o2.id ≡ true
    is_there2 = there-found g o2.id found2

    joined-IsSegment : IsSegment o1 o2 offsets (pos g.next_object_id) (
        redirect_object o2.id
          (pos g.next_object_id)
          (redirect_object o1.id (pos g.next_object_id) new_dls))
    unfolding create_dls create_region create_pt_edge redirect_object redirect_edges
    joined-IsSegment = record {
      next_edge = next_edge;
      prev_edge = prev_edge;
      next_from = next;
      prev_from = prev;
      id_fits = refl;
      is_list = refl;
      edges =
          let moves = moved-redirect o1 o2 new_dls counted fresh is_there1 is_there2 in
          rw (moves next_edge, moves prev_edge) refl;
      no_values = refl;
    }

    joined-IsClosed : IsClosed (joined o1 o2 offsets next_edge prev_edge g)
    unfolding create_dls are_there
    joined-IsClosed =
        replaced-IsClosed o1 o2 new_dls counted fresh is_there1 is_there2
          (record {
            handles_closed = closed.handles_closed;
            objects_closed = closed.objects_closed;
          })
          (ground (
            arith,
            there-field g o2 offsets.nfo closed found2 next,
            there-field g o1 offsets.pfo closed found1 prev,
          ))

    joined-IsJoined :
        IsJoined o1 o2 offsets (pos g.next_object_id) g (joined o1 o2 offsets next_edge prev_edge g)
    unfolding create_dls
    joined-IsJoined =
        let gone1 = gone1-replaced o1 o2 new_dls counted fresh is_there1 is_there2 in
        let gone2 = gone2-replaced o1 o2 new_dls counted fresh is_there1 is_there2 in
        record {
          closed = joined-IsClosed;
          gone1 = gone1;
          gone2 = gone2;
          no_edges1 = find_pt_in_edges-closed _ o1.id joined-IsClosed gone1;
          no_edges2 = find_pt_in_edges-closed _ o2.id joined-IsClosed gone2;
          segment =
              redirect_object o2.id (pos g.next_object_id)
                (redirect_object o1.id (pos g.next_object_id) new_dls);
          found = found-replaced o1 o2 new_dls counted fresh is_there1 is_there2;
          is_segment = joined-IsSegment;
          others = others-replaced o1 o2 new_dls counted fresh is_there1 is_there2;
        }

  -- JoinTwoRegions, on a closed graph where the next id is not in use and the two objects are there
  -- and have edges at the offsets that it asks for: it returns, the graph is closed again, neither
  -- of the two objects is there, and no edge leads to them. Under the new id stands a list segment of
  -- length 2 with the given offsets, with the second object's edge at the next offset and the first
  -- one's at the previous offset as its edges, led to itself where they led to one of the two. Every
  -- other object is as it was, but for its edges into the two, which lead to the segment.
  pub join_two_regions_lem :
      (g : Graph T V) (o1 o2 : Object T) (offsets : DlsOffsets)
      → IsClosed g
      → is_there g.objects (pos g.next_object_id) ≡ false
      → find o1.id g.objects ≡ some o1
      → find o2.id g.objects ≡ some o2
      → has_edge_at o2 offsets.nfo ≡ true
      → has_edge_at o1 offsets.pfo ≡ true
      → (g' : Graph T V) × (join_two_regions o1 o2 offsets g ≡ ok tt g')
        × IsJoined o1 o2 offsets (pos g.next_object_id) g g'
  unfolding join_two_regions get_pt_edge_by_offset has_edge_at
  join_two_regions_lem g o1 o2 offsets closed fresh found1 found2 has_next has_prev =
      elim (Option-cases (find_pt_edge_by_offset o2 offsets.nfo)) [
        | inl missing ↦ absurd (ground arith)
        | inr (next_edge, next) ↦ elim (Option-cases (find_pt_edge_by_offset o1 offsets.pfo)) [
          | inl missing ↦ absurd (ground arith)
          | inr (prev_edge, prev) ↦ (
            joined o1 o2 offsets next_edge prev_edge g,
            ground arith,
            joined-IsJoined g o1 o2 offsets closed fresh found1 found2 next prev,
          )
        ]
      ]
