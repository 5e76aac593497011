-- ===== src/Smg/WellFormed.antt =====
-- Well-formed graphs: closed, with the three special objects, and with ids left for new objects.
-- Every operation of src/Smg/Graph.hpp keeps a graph well-formed, also where it throws.
pub mod Kept
pub mod Objects
pub mod Reads
pub mod Lifetimes
use angie.Common.{
  ℕ, suc, ◌≤◌, ◌<◌, ◌≡◌, refl, Bool, true, false, ◌&&◌, Option, none, some, List, [], ◌∷◌, ◌++◌,
  arith,
}
use angie.Common.Int.{pos, eqb_ℤ}
use angie.Common.Dict.{Dict, ℤ_key, find}
use angie.Common.Run.{Run, Outcome, ok, raise, and_then}
use angie.Common.Outcomes.{Keeps}
use angie.Smg.{ObjectId, null_id, unknown_id, freed_id}
use angie.Smg.Edge.{PtEdge}
use angie.Smg.Object.{Object, create_pt_edge}
use angie.Smg.Graph.{Graph, add_handle, lift_outcome}
use angie.Smg.Closed.{is_there, are_there, are_closed, IsClosed}

pub record IsWellFormed {T V : Type 0} (g : Graph T V) : Type 0 where
  pub closed : IsClosed g
  pub null_there : is_there g.objects null_id ≡ true
  pub unknown_there : is_there g.objects unknown_id ≡ true
  pub freed_there : is_there g.objects freed_id ≡ true
  pub fresh : (n : ℕ) → g.next_object_id ≤ n → is_there g.objects (pos n) ≡ false

pub there-append :
    {T : Type 0} (objects : Dict ObjectId (Object T)) (edges : List (PtEdge T)) (edge : PtEdge T)
    → are_there objects edges ≡ true
    → is_there objects edge.target_object_id ≡ true
    → are_there objects (edges ++ edge ∷ []) ≡ true
unfolding are_there
there-append objects [] edge h there = ground arith
there-append objects (e ∷ edges) edge h there = ground (arith, there-append objects edges edge)

module _ {T V : Type 0} where
  -- A call of the value container leaves the graph as it is.
  pub lift-IsWellFormed :
      {A : Type 0} (g : Graph T V) (o : Outcome V A)
      → IsWellFormed g
      → Keeps IsWellFormed
          (λ a g'.
            (g'.objects ≡ g.objects)
            × (g'.handles ≡ g.handles)
            × (g'.next_object_id ≡ g.next_object_id))
          (lift_outcome g o)
  lift-IsWellFormed g (ok a v) h = (
    record {
      closed = record {
        handles_closed = h.closed.handles_closed;
        objects_closed = h.closed.objects_closed;
      };
      null_there = h.null_there;
      unknown_there = h.unknown_there;
      freed_there = h.freed_there;
      fresh = h.fresh;
    },
    (refl, refl, refl),
  )
  lift-IsWellFormed g (raise e v) h = record {
    closed = record {
      handles_closed = h.closed.handles_closed;
      objects_closed = h.closed.objects_closed;
    };
    null_there = h.null_there;
    unknown_there = h.unknown_there;
    freed_there = h.freed_there;
    fresh = h.fresh;
  }

  pub add_handle-IsWellFormed :
      (edge : PtEdge T) (g : Graph T V)
      → IsWellFormed g
      → is_there g.objects edge.target_object_id ≡ true
      → IsWellFormed (add_handle edge g)
  unfolding create_pt_edge
  add_handle-IsWellFormed edge g h there = record {
    closed = record {
      handles_closed = there-append g.objects g.handles.pt_edges edge h.closed.handles_closed there;
      objects_closed = h.closed.objects_closed;
    };
    null_there = h.null_there;
    unknown_there = h.unknown_there;
    freed_there = h.freed_there;
    fresh = h.fresh;
  }

  -- New objects under ids that are there already, the handles as they are.
  pub with_objects-IsWellFormed :
      (g : Graph T V) (objects : Dict ObjectId (Object T))
      → IsWellFormed g
      → ((j : ObjectId) → is_there objects j ≡ is_there g.objects j)
      → are_there objects g.handles.pt_edges ≡ true
      → are_closed objects objects ≡ true
      → IsWellFormed (record g { objects = objects })
  with_objects-IsWellFormed g objects h same handles closed = record {
    closed = record { handles_closed = handles; objects_closed = closed };
    null_there = ground (arith, same null_id, h.null_there);
    unknown_there = ground (arith, same unknown_id, h.unknown_there);
    freed_there = ground (arith, same freed_id, h.freed_there);
    fresh = λ n more. ground (arith, same (pos n), h.fresh n);
  }
