-- ===== src/Smg/Closed/Joined.antt =====
-- What keeps a graph closed: new objects, the redirection of edges to an object that is there, and
-- the removal of an object that no edge leads to.
use angie.Common.{◌≡◌, refl, true, false, List, [], ◌∷◌, arith, if◌then◌else◌}
use angie.Common.Int.{eqb_ℤ, eqb_ℤ_iff}
use angie.Common.Dict.{Dict, ℤ_key, assign, emplace, erase, find-erase, find-emplace_new}
use angie.Smg.{ObjectId}
use angie.Smg.Edge.{PtEdge}
use angie.Smg.Object.{Object}
use angie.Smg.InEdges.{redirect_edge, redirect_edges, redirect_object, redirect_objects}
use angie.Smg.InEdges.Redirect.{find-redirect_objects}
use angie.Smg.Closed.{is_there, are_there, are_closed}

module _ {T : Type 0} where
  pub there-erase :
      (id j : ObjectId) (objects : Dict ObjectId (Object T))
      → is_there (erase id objects) j ≡ (if eqb_ℤ id j then false else is_there objects j)
  unfolding is_there
  there-erase id j objects = ground (arith, find-erase ⦃e = ℤ_key⦄ id j objects)

  pub there-redirect :
      (old new j : ObjectId) (objects : Dict ObjectId (Object T))
      → is_there (redirect_objects old new objects) j ≡ is_there objects j
  unfolding is_there
  there-redirect old new j objects = ground (arith, find-redirect_objects old new j objects)

  pub there-emplace :
      (id j : ObjectId) (o : Object T) (objects : Dict ObjectId (Object T))
      → is_there objects id ≡ false
      → is_there (emplace id o objects) j ≡ (if eqb_ℤ id j then true else is_there objects j)
  unfolding is_there
  there-emplace id j o objects missing = ground (arith, find-emplace_new ⦃e = ℤ_key⦄ id j o objects)

  -- The ids that are there are what counts.
  module _ (objects objects' : Dict ObjectId (Object T))
      (more : (j : ObjectId) → is_there objects j ≡ true → is_there objects' j ≡ true) where
    pub are_there-more :
        (edges : List (PtEdge T)) → are_there objects edges ≡ true → are_there objects' edges ≡ true
    unfolding are_there
    are_there-more [] h = refl
    are_there-more (edge ∷ edges) h =
        ground (arith, more edge.target_object_id, are_there-more edges)

    pub closed-more :
        (entries : List (ObjectId × Object T))
        → are_closed objects entries ≡ true
        → are_closed objects' entries ≡ true
    unfolding are_closed
    closed-more [] h = refl
    closed-more ((id, o) ∷ entries) h =
        ground (arith, are_there-more o.pt_edges, closed-more entries)

  pub closed-assign :
      (objects : Dict ObjectId (Object T)) (id : ObjectId) (o : Object T)
      (entries : Dict ObjectId (Object T))
      → eqb_ℤ o.id id ≡ true
      → are_there objects o.pt_edges ≡ true
      → are_closed objects entries ≡ true
      → are_closed objects (assign id o entries) ≡ true
  unfolding are_closed assign
  closed-assign objects id o [] named closed h = ground arith
  closed-assign objects id o ((j, p) ∷ entries) named closed h =
      ground (arith, closed-assign objects id o entries)

  pub closed-emplace :
      (objects : Dict ObjectId (Object T)) (id : ObjectId) (o : Object T)
      (entries : Dict ObjectId (Object T))
      → eqb_ℤ o.id id ≡ true
      → are_there objects o.pt_edges ≡ true
      → are_closed objects entries ≡ true
      → are_closed objects (emplace id o entries) ≡ true
  unfolding emplace
  closed-emplace objects id o entries named closed h =
      ground (arith, closed-assign objects id o entries)

-- Edges into `old` are given a target that stays when `old` is taken out.
module _ {T : Type 0} (old new : ObjectId) (objects : Dict ObjectId (Object T))
    (new_there : is_there objects new ≡ true) (apart : eqb_ℤ old new ≡ false) where
  pub are_there-redirect :
      (edges : List (PtEdge T))
      → are_there objects edges ≡ true
      → are_there (erase old objects) (redirect_edges old new edges) ≡ true
  unfolding are_there redirect_edges redirect_edge
  are_there-redirect [] h = refl
  are_there-redirect (edge ∷ edges) h = ground (
    arith,
    there-erase old new objects,
    there-erase old edge.target_object_id objects,
    eqb_ℤ_iff old edge.target_object_id,
    eqb_ℤ_iff edge.target_object_id old,
    are_there-redirect edges,
  )

  pub closed-redirect :
      (entries : List (ObjectId × Object T))
      → are_closed objects entries ≡ true
      → are_closed (erase old objects) (redirect_objects old new entries) ≡ true
  unfolding are_closed redirect_objects redirect_object
  closed-redirect [] h = refl
  closed-redirect ((id, o) ∷ entries) h =
      ground (arith, are_there-redirect o.pt_edges, closed-redirect entries)
