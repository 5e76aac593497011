-- ===== src/Smg/Abstraction/SubGraph/Init.antt =====
-- Init of SubGraph ends, and collects what the root leads to.
use mathlib.Core.List.{Memᴰ}
use mathlib.Core.List.Memᴰ
use angie.Common.{
  ℕ, zero, suc, ◌+◌, ◌≤◌, ◌≡◌, refl, sym, subst, true, some, List, [], ◌∷◌, arith, inl, inr, ◌⊎◌,
  ◌↔◌,
}
use angie.Common.Dict.{Dict, ℤ_key, find}
use angie.Common.Run.{value}
use angie.Smg.{ObjectId}
use angie.Smg.Edge.{PtEdge}
use angie.Smg.Object.{Object}
use angie.Smg.Closed.{is_there, are_there, are_closed, closed-find}
use angie.Smg.Closed.Joined.{are_there-more}
use angie.Smg.Abstraction.SubGraph.{Pending, collect, init}
use angie.Smg.Abstraction.SubGraph.Inserted.{length, unseen, IsInserted, insert_targets-IsInserted}

-- The ids of the objects that an object leads to, by one edge or more.
pub data Reach {T : Type 0} (objects : Dict ObjectId (Object T)) (root : Object T)
    : ObjectId → Type 0 where
  first : (edge : PtEdge T) → Memᴰ edge root.pt_edges → Reach objects root edge.target_object_id
  later :
      {id : ObjectId} {o : Object T} (edge : PtEdge T)
      → Reach objects root id
      → find id objects ≡ some o
      → Memᴰ edge o.pt_edges
      → Reach objects root edge.target_object_id

there-Mem :
    {T : Type 0} (objects : Dict ObjectId (Object T)) {edge : PtEdge T} {edges : List (PtEdge T)}
    → are_there objects edges ≡ true
    → Memᴰ edge edges
    → is_there objects edge.target_object_id ≡ true
unfolding are_there
there-Mem objects h (Memᴰ.head same) = ground (arith, h, same)
there-Mem objects h (Memᴰ.tail m) = there-Mem objects (ground (arith, h)) m

unseen-empty :
    {T : Type 0} (entries : List (ObjectId × Object T)) → unseen [] entries ≤ length entries
unfolding unseen is_there find
unseen-empty [] = omega arith
unseen-empty ((id, o) ∷ entries) = omega (arith, unseen-empty entries)

module _ {T : Type 0} (objects : Dict ObjectId (Object T)) (root : Object T)
    (closed : are_closed objects objects ≡ true)
    (root_there : find root.id objects ≡ some root) where
  -- The set holds what the root leads to; and the objects whose targets may be missing wait.
  pub record IsCollecting (pending : Pending T) : Type 0 where
    pub sound : (j : ObjectId) → is_there pending.0 j ≡ true → Reach objects root j
    pub waiting :
        (o : Object T)
        → Memᴰ o pending.1
        → (o ≡ root) ⊎ ((find o.id objects ≡ some o) × (is_there pending.0 o.id ≡ true))
    pub done :
        (j : ObjectId) {o : Object T}
        → (j ≡ root.id) ⊎ (is_there pending.0 j ≡ true)
        → find j objects ≡ some o
        → Memᴰ o pending.1 ⊎ (are_there pending.0 o.pt_edges ≡ true)

  start : IsCollecting ([], root ∷ [])
  unfolding is_there find
  start = record {
    sound = λ j h. absurd (ground (arith, h));
    waiting = λ o m. inl (Memᴰ.eq_of_singleton m);
    done = λ j {o} which at. elim which [
      | inl same ↦ inl (Memᴰ.head (ground (arith, root_there, same, at)))
      | inr there ↦ absurd (ground (arith, there))
    ];
  }

  module _ (front : Object T) (seen : Dict ObjectId (Object T)) (worklist : List (Object T))
      (is : IsCollecting (seen, front ∷ worklist)) where
    front_known :
        (front ≡ root) ⊎ ((find front.id objects ≡ some front) × (is_there seen front.id ≡ true))
    front_known = is.waiting front (Memᴰ.head refl)

    pub front_edges : are_there objects front.pt_edges ≡ true
    front_edges = elim front_known [
      | inl same ↦
          subst (λ (o : Object T). are_there objects o.pt_edges ≡ true) (sym same)
            (closed-find objects objects root.id closed root_there).1
      | inr (found, there) ↦ (closed-find objects objects front.id closed found).1
    ]

    front_leads :
        (edge : PtEdge T) → Memᴰ edge front.pt_edges → Reach objects root edge.target_object_id
    front_leads edge m = elim front_known [
      | inl same ↦ first edge (subst (λ (o : Object T). Memᴰ edge o.pt_edges) same m)
      | inr (found, there) ↦ later edge (is.sound front.id there) found m
    ]

    module _ {new : Pending T} (step : IsInserted objects front.pt_edges (seen, worklist) new) where
      done_after :
          (j : ObjectId) {o : Object T}
          → (j ≡ root.id) ⊎ (is_there seen j ≡ true)
          → find j objects ≡ some o
          → Memᴰ o new.1 ⊎ (are_there new.0 o.pt_edges ≡ true)
      done_after j {o} which at = elim (is.done j which at) [
        | inr closed_before ↦ inr (are_there-more seen new.0 step.more o.pt_edges closed_before)
        | inl member ↦ elim (Memᴰ.cases_cons member) [
          | inl same ↦
              inr (
                subst (λ (p : Object T). are_there new.0 p.pt_edges ≡ true) (sym same) step.targets)
          | inr rest ↦ inl (step.keeps o rest)
        ]
      ]

      pub IsCollecting-step : IsCollecting new
      IsCollecting-step = record {
        sound = λ j h. elim (step.sources j h) [
          | inl before ↦ is.sound j before
          | inr (edge, m, at) ↦ subst (Reach objects root) at (front_leads edge m)
        ];
        waiting = λ o m. elim (step.waits o m) [
          | inr known ↦ inr known
          | inl before ↦ elim (is.waiting o (Memᴰ.tail before)) [
            | inl same ↦ inl same
            | inr (at, there) ↦ inr (at, step.more o.id there)
          ]
        ];
        done = λ j {o} which at. elim which [
          | inl same ↦ done_after j (inl same) at
          | inr there ↦ elim (step.queued j there at) [
            | inl before ↦ done_after j (inr before) at
            | inr waits ↦ inl waits
          ]
        ];
      }

  -- One unit of fuel for each object of the graph that is not in the set and each one in the queue.
  collect-IsCollecting :
      (fuel : ℕ) (pending : Pending T)
      → IsCollecting pending
      → unseen pending.0 objects + length pending.1 ≤ fuel
      → (seen : Dict ObjectId (Object T)) × (collect fuel objects pending ≡ value (some seen))
        × IsCollecting (seen, [])
  unfolding collect
  collect-IsCollecting fuel (seen, []) is enough = (seen, refl, is)
  collect-IsCollecting zero (seen, front ∷ worklist) is enough = absurd (omega arith)
  collect-IsCollecting (suc fuel) (seen, front ∷ worklist) is enough =
      let (new, inserts, step) =
        insert_targets-IsInserted objects closed front.pt_edges (seen, worklist)
          (front_edges front seen worklist is) in
      let (final, collects, is_final) =
        collect-IsCollecting fuel new (IsCollecting-step front seen worklist is step)
          (omega (arith, step.less)) in
      (final, rw inserts collects, is_final)

  -- With an empty queue, the set is closed under edges, so it holds all that the root leads to.
  Reach-there :
      (seen : Dict ObjectId (Object T)) {id : ObjectId}
      → IsCollecting (seen, [])
      → Reach objects root id
      → is_there seen id ≡ true
  Reach-there seen is (first edge m) = elim (is.done root.id (inl refl) root_there) [
    | inl waits ↦ absurd (Memᴰ.not-nil waits)
    | inr there ↦ there-Mem seen there m
  ]
  Reach-there seen is (later {id} edge before found m) =
      elim (is.done id (inr (Reach-there seen is before)) found) [
        | inl waits ↦ absurd (Memᴰ.not-nil waits)
        | inr there ↦ there-Mem seen there m
      ]

  -- The loop of SubGraph, in a graph whose objects are closed and that the root is in, ends with one
  -- unit of fuel for each object and one for the root, and yields exactly the objects that the root
  -- leads to by one edge or more.
  pub init_lem :
      (fuel : ℕ)
      → suc (length objects) ≤ fuel
      → (seen : Dict ObjectId (Object T)) × (init fuel objects root ≡ value (some seen))
        × ((id : ObjectId) → (is_there seen id ≡ true) ↔ Reach objects root id)
  unfolding init
  init_lem fuel enough =
      let (seen, collects, is) =
        collect-IsCollecting fuel ([], root ∷ []) start
          (omega (arith, unseen-empty objects, enough)) in
      (seen, collects, λ id. (is.sound id, Reach-there seen is))
