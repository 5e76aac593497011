-- ===== src/Smg/Abstraction/SubGraph.antt =====
-- The class SubGraph of src/Smg/Abstraction.hpp: the objects that a root leads to, collected by a
-- worklist. The loop is on fuel; one unit for each object and one for the root is enough.
pub mod Inserted
pub mod Init
use angie.Common.{ℕ, zero, suc, Option, none, some, List, [], ◌∷◌, ◌++◌}
use angie.Common.Dict.{Dict, ℤ_key, find, assign}
use angie.Common.Run.{Result, value, error, undefined_behaviour, then_value}
use angie.Smg.{ObjectId}
use angie.Smg.Edge.{PtEdge}
use angie.Smg.Object.{Object}

-- The set `objects`, in the order of the ids, and the queue.
abbrev pub Pending : Type 0 → Type 0
Pending T = Dict ObjectId (Object T) × List (Object T)

module _ {T : Type 0} where
  -- `objects.insert`, and the push of what was not there.
  unfoldable pub insert_object : Object T → Pending T → Pending T
  unfolding find assign
  insert_object o (seen, worklist) = elim (find o.id seen) [
    | none ↦ (assign o.id o seen, worklist ++ o ∷ [])
    | some _ ↦ (seen, worklist)
  ]

  -- The loop over the edges of the front, in the graph with the given objects.
  unfoldable pub insert_targets :
      Dict ObjectId (Object T) → List (PtEdge T) → Pending T → Result (Pending T)
  unfolding insert_object
  insert_targets objects [] pending = value pending
  insert_targets objects (edge ∷ edges) pending = elim (find edge.target_object_id objects) [
    | none ↦ error undefined_behaviour
    | some o ↦ insert_targets objects edges (insert_object o pending)
  ]

  -- `none` says that the fuel has ended. The front is taken out first here, and last in the source,
  -- which only pushes at the back in between.
  unfoldable pub collect :
      ℕ → Dict ObjectId (Object T) → Pending T → Result (Option (Dict ObjectId (Object T)))
  unfolding insert_targets
  collect fuel objects (seen, []) = value (some seen)
  collect zero objects (seen, front ∷ worklist) = value none
  collect (suc fuel) objects (seen, front ∷ worklist) =
      then_value (insert_targets objects front.pt_edges (seen, worklist)) (collect fuel objects)

  unfoldable pub init :
      ℕ → Dict ObjectId (Object T) → (root : Object T) → Result (Option (Dict ObjectId (Object T)))
  unfolding collect
  init fuel objects root = collect fuel objects ([], root ∷ [])
