-- ===== src/Smg/WellFormed/Lifetimes.antt =====
-- The creation of a graph, of objects, and their release, of src/Smg/Graph.hpp, keep a graph well-formed.
use angie.Common.{
  ℕ, suc, ◌<◌, ◌≡◌, ◌∙◌, refl, true, false, some, arith, inl, inr, Option-cases, Bool-cases,
  if◌then◌else◌,
}
use angie.Common.Int.{pos, eqb_ℤ}
use angie.Common.Dict.{Dict, ℤ_key, find, emplace, erase, eq_refl}
use angie.Common.Outcomes.{Keeps, Keeps-and_then, Any}
use angie.Values.{ValueId}
use angie.Smg.{ObjectId, null_id, unknown_id, freed_id, IsOrdinary, TypeSystem, IValueContainer}
use angie.Smg.Object.{Object, MemorySpace, create_region, handle_edge, is_heap, create_pt_edge}
use angie.Smg.InEdges.{update_object, redirect_object, redirect_objects}
use angie.Smg.Graph.{
  Graph, on_vc, modify_object, get_next_object_id, redirect_in_edges, free_object, find_pt_edge,
  free, write_value, create_graph,
}
use angie.Smg.Graph.Read.{allocate_region, read_value, create_derived_pointer}
use angie.Smg.Closed.{is_there, are_there, are_closed, closed-find, closed-erase}
use angie.Smg.Closed.Joined.{
  there-erase, there-redirect, there-emplace, are_there-more, closed-more, closed-emplace,
  are_there-redirect, closed-redirect,
}
use angie.Smg.WellFormed.{IsWellFormed, lift-IsWellFormed, add_handle-IsWellFormed}
use angie.Smg.WellFormed.Kept.{Leads, modify-IsWellFormed, find_pt_edge-Keeps}
use angie.Smg.WellFormed.Objects.{there-assign_known}
use angie.Smg.WellFormed.Reads.{SameGraph, write_value-Keeps, read_value-Keeps, derived-Keeps}

more_emplaced :
    {T : Type 0} (id : ObjectId) (o : Object T) (objects : Dict ObjectId (Object T)) (j : ObjectId)
    → is_there objects id ≡ false
    → is_there objects j ≡ true
    → is_there (emplace id o objects) j ≡ true
more_emplaced id o objects j missing there = ground (arith, there-emplace id j o objects missing)

there-update :
    {T : Type 0} (id j : ObjectId) (f : Object T → Object T) (objects : Dict ObjectId (Object T))
    → is_there (update_object id f objects) j ≡ is_there objects j
there-update id j f objects = elim (Option-cases (find id objects)) [
  | inl missing ↦ rw (update_object, missing) refl
  | inr (o, found) ↦ rw (update_object, found) (there-assign_known objects id j o (f o) found)
]

module _ {T V : Type 0} where
  -- A new object without edges under the next id.
  emplaced-IsWellFormed :
      (g : Graph T V) (n : ℕ)
      → IsWellFormed g
      → n ≡ g.next_object_id
      → IsWellFormed (record g {
        objects = emplace (pos n) (create_region (pos n)) g.objects;
        next_object_id = suc n;
      })
  unfolding are_there create_region
  emplaced-IsWellFormed g n h next =
      let missing : is_there g.objects (pos n) ≡ false = h.fresh n (omega (arith, next)) in
      let o : Object T = create_region (pos n) in
      let objects = emplace (pos n) o g.objects in
      let more : (j : ObjectId) → is_there g.objects j ≡ true → is_there objects j ≡ true =
        λ j there. more_emplaced (pos n) o g.objects j missing there in
      record {
        closed = record {
          handles_closed =
              are_there-more g.objects objects more g.handles.pt_edges h.closed.handles_closed;
          objects_closed =
              closed-emplace objects (pos n) o g.objects (eq_refl ⦃e = ℤ_key⦄ (pos n)) refl
                (closed-more g.objects objects more g.objects h.closed.objects_closed);
        };
        null_there = more null_id h.null_there;
        unknown_there = more unknown_id h.unknown_there;
        freed_there = more freed_id h.freed_there;
        fresh = λ k above.
            ground
              (arith, there-emplace (pos n) (pos k) o g.objects missing, h.fresh k, next, above);
      }

  -- An ordinary object is taken out, and the edges into it lead to freed memory.
  released-IsWellFormed :
      (id : ObjectId) (g : Graph T V)
      → IsWellFormed g
      → IsOrdinary id
      → IsWellFormed (record (redirect_in_edges id freed_id g) {
        objects = erase id (redirect_in_edges id freed_id g).objects;
      })
  unfolding redirect_in_edges redirect_object
  released-IsWellFormed id g h ordinary =
      let objects = erase id (redirect_objects id freed_id g.objects) in
      let there : (j : ObjectId)
          → is_there objects j ≡ (if eqb_ℤ id j then false else is_there g.objects j) =
        λ j. ground (
          arith,
          there-erase id j (redirect_objects id freed_id g.objects),
          there-redirect id freed_id j g.objects,
        ) in
      let more : (j : ObjectId)
          → is_there (erase id g.objects) j ≡ true
          → is_there objects j ≡ true =
        λ j h'. ground (arith, there j, there-erase id j g.objects, h') in
      record {
        closed = record {
          handles_closed = are_there-more (erase id g.objects) objects more _ (
              are_there-redirect id freed_id g.objects h.freed_there ordinary.2 g.handles.pt_edges
                h.closed.handles_closed);
          objects_closed = closed-erase objects id _ (
              closed-more (erase id g.objects) objects more _ (
                closed-redirect id freed_id g.objects h.freed_there ordinary.2 g.objects
                  h.closed.objects_closed));
        };
        null_there = ground (arith, there null_id, ordinary, h.null_there);
        unknown_there = ground (arith, there unknown_id, ordinary, h.unknown_there);
        freed_there = ground (arith, there freed_id, ordinary, h.freed_there);
        fresh = λ n above. ground (arith, there (pos n), h.fresh n above);
      }

module _ {T V : Type 0} (ty : TypeSystem T) where
  free_object-Keeps :
      (id : ObjectId) (o : Object T) (g : Graph T V)
      → IsWellFormed g
      → IsOrdinary id
      → find id g.objects ≡ some o
      → Keeps IsWellFormed Any (free_object o g)
  unfolding free_object
  free_object-Keeps id o g h ordinary found = elim (Bool-cases (is_heap o.mem_space)) [
    | inr elsewhere ↦ rw (Keeps, elsewhere) h
    | inl heap_object ↦
        rw (Keeps, heap_object)
          (
            released-IsWellFormed o.id g h
                (rw (closed-find g.objects g.objects id h.closed.objects_closed found).0 ordinary),
            tt,
          )
  ]

  pub free-Keeps :
      (ptr : ValueId) (g : Graph T V) → IsWellFormed g → Keeps IsWellFormed Any (free ty ptr g)
  unfolding free
  free-Keeps ptr g h =
      Keeps-and_then IsWellFormed Leads Any (find_pt_edge ty ptr g) _
        (find_pt_edge-Keeps ty ptr g h)
        (λ edge g1 h1 _.
          let id = edge.target_object_id in
          elim (Bool-cases (eqb_ℤ id null_id)) [
            | inl null ↦ rw (Keeps, null) (h1, tt)
            | inr a ↦ elim (Bool-cases (eqb_ℤ id unknown_id)) [
              | inl unknown ↦ rw (Keeps, a, unknown) h1
              | inr b ↦ elim (Bool-cases (eqb_ℤ id freed_id)) [
                | inl freed ↦ rw (Keeps, a, b, freed) h1
                | inr c ↦ elim (Option-cases (find id g1.objects)) [
                  | inl missing ↦ rw (Keeps, a, b, c, missing) h1
                  | inr (o, found) ↦
                      rw (Keeps, a, b, c, found) (free_object-Keeps id o g1 h1 (a, b, c) found)
                ]
              ]
            ]
          ])

  module _ (ops : IValueContainer T V) where
    pub allocate-Keeps :
        (type : T) (ms : MemorySpace) (g : Graph T V)
        → IsWellFormed g
        → Keeps IsWellFormed Any (allocate_region ty ops type ms g)
    unfolding allocate_region get_next_object_id
    allocate-Keeps type ms g h =
        Keeps-and_then IsWellFormed (SameGraph g) Any
          (on_vc (ops.create_val (ty.pointer_to type)) g) _
          (lift-IsWellFormed g (ops.create_val (ty.pointer_to type) g.vc) h)
          (λ ptr g1 h1 _.
            let n = g1.next_object_id in
            let g2 : Graph T V = record g1 {
              objects = emplace (pos n) (create_region (pos n)) g1.objects;
              next_object_id = suc n;
            } in
            let new : is_there g2.objects (pos n) ≡ true = ground (
              arith,
              there-emplace (pos n) (pos n) (create_region (pos n)) g1.objects
                  (h1.fresh n (omega arith)),
              eq_refl ⦃e = ℤ_key⦄ (pos n),
            ) in
            Keeps-and_then IsWellFormed (SameGraph g2) Any
              (on_vc (ops.create_const_int_val (ty.get_size_of type)) g2) _
              (lift-IsWellFormed g2 (ops.create_const_int_val (ty.get_size_of type) g2.vc)
                (emplaced-IsWellFormed g1 n h1 refl))
              (λ size g3 h3 same.
                let sized : Object T → Object T = λ o. record o { size = size; mem_space = ms } in
                (
                  add_handle-IsWellFormed (handle_edge ty ptr (pos n))
                      (modify_object (pos n) sized g3)
                      (modify-IsWellFormed (pos n) sized g3 h3 (λ o sound. sound))
                      (there-update (pos n) (pos n) sized g3.objects ∙ rw same.0 new),
                  tt,
                )))

-- The graph that the constructor makes.
pub create_graph-IsWellFormed :
    {T V : Type 0} (ty : TypeSystem T) (n : ℕ) (vc : V)
    → 0 < n
    → IsWellFormed (create_graph ty n vc)
unfolding create_graph is_there are_there are_closed find create_region create_pt_edge
create_graph-IsWellFormed ty n vc positive = record {
  closed = record { handles_closed = refl; objects_closed = refl };
  null_there = refl;
  unknown_there = refl;
  freed_there = refl;
  fresh = λ k above. ground (arith, above, positive);
}

-- Every operation of a graph keeps it well-formed, on every outcome, whatever the container does: no
-- object stands under another's id, no edge of a handle or of an object leads to an object that is
-- not there, the null, unknown and freed objects stay, and no id that is to be given is in use.
pub graph_operations-IsWellFormed :
    {T V : Type 0} (ty : TypeSystem T) (ops : IValueContainer T V) (g : Graph T V)
    → IsWellFormed g
    → (ptr v : ValueId) (type : T) (ms : MemorySpace)
    → Keeps IsWellFormed Any (allocate_region ty ops type ms g)
      × Keeps IsWellFormed Any (write_value ty ptr v type g)
      × Keeps IsWellFormed Any (read_value ty ops ptr type g)
      × Keeps IsWellFormed Any (create_derived_pointer ty ops ptr v g)
      × Keeps IsWellFormed Any (free ty ptr g)
graph_operations-IsWellFormed ty ops g h ptr v type ms = (
  allocate-Keeps ty ops type ms g h,
  write_value-Keeps ty ptr v type g h,
  read_value-Keeps ty ops ptr type g h,
  derived-Keeps ty ops ptr v g h,
  free-Keeps ty ptr g h,
)
