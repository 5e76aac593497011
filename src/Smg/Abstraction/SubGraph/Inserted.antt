-- ===== src/Smg/Abstraction/SubGraph/Inserted.antt =====
-- What the loop over the edges of one object adds to the set and to the queue.
use mathlib.Core.List.{Memᴰ}
use mathlib.Core.List.Memᴰ
use angie.Common.{
  ℕ, suc, ◌+◌, ◌≤◌, ◌≡◌, ◌∙◌, refl, sym, subst, true, false, some, List, [], ◌∷◌, ◌++◌, arith, inl,
  inr, ◌⊎◌, if◌then◌else◌, Option-cases, Bool-cases,
}
use angie.Common.Int.{eqb_ℤ, eqb_ℤ_iff}
use angie.Common.Dict.{Dict, ℤ_key, find, assign, find-assign, eq_refl}
use angie.Common.Run.{value}
use angie.Smg.{ObjectId}
use angie.Smg.Edge.{PtEdge}
use angie.Smg.Object.{Object}
use angie.Smg.Closed.{is_there, are_there, are_closed, closed-find}
use angie.Smg.Closed.Joined.{are_there-more}
use angie.Smg.Abstraction.SubGraph.{Pending, insert_object, insert_targets}

abbrev pub length : {A : Type 0} → List A → ℕ
length [] = 0
length (_ ∷ xs) = suc (length xs)

module _ {T : Type 0} where
  length-append : (os : List (Object T)) (o : Object T) → length (os ++ o ∷ []) ≡ suc (length os)
  length-append [] o = refl
  length-append (p ∷ os) o = omega (arith, length-append os o)

  -- The entries of the graph whose ids are not in the set.
  unfoldable pub unseen : Dict ObjectId (Object T) → List (ObjectId × Object T) → ℕ
  unfolding is_there
  unseen seen [] = 0
  unseen seen ((id, _) ∷ entries) =
      let rest = unseen seen entries in if is_there seen id then rest else suc rest

  pub there-assign :
      (id j : ObjectId) (o : Object T) (seen : Dict ObjectId (Object T))
      → is_there (assign id o seen) j ≡ (if eqb_ℤ id j then true else is_there seen j)
  unfolding is_there
  there-assign id j o seen = ground (arith, find-assign ⦃e = ℤ_key⦄ id j o seen)

  unseen-assign_le :
      (id : ObjectId) (o : Object T) (seen : Dict ObjectId (Object T))
      (entries : List (ObjectId × Object T))
      → unseen (assign id o seen) entries ≤ unseen seen entries
  unfolding unseen
  unseen-assign_le id o seen [] = omega arith
  unseen-assign_le id o seen ((j, p) ∷ entries) =
      ground (arith, there-assign id j o seen, unseen-assign_le id o seen entries)

  unseen-assign :
      (id : ObjectId) (o : Object T) (seen : Dict ObjectId (Object T))
      (entries : List (ObjectId × Object T))
      → is_there seen id ≡ false
      → is_there entries id ≡ true
      → suc (unseen (assign id o seen) entries) ≤ unseen seen entries
  unfolding unseen is_there find
  unseen-assign id o seen [] new known = cc
  unseen-assign id o seen ((j, p) ∷ entries) new known = elim (Bool-cases (eqb_ℤ j id)) [
    | inl here ↦
        let same : j ≡ id = (eqb_ℤ_iff j id).0 here in
        ground (
          arith,
          there-assign id j o seen,
          eq_refl ⦃e = ℤ_key⦄ id,
          unseen-assign_le id o seen entries,
        )
    | inr later ↦ ground (
      arith,
      there-assign id j o seen,
      eqb_ℤ_iff id j,
      eqb_ℤ_iff j id,
      unseen-assign id o seen entries,
    )
  ]

-- From the set and the queue `old`, the targets of `edges` give `new`.
pub record IsInserted {T : Type 0} (objects : Dict ObjectId (Object T)) (edges : List (PtEdge T))
    (old new : Pending T) : Type 0 where
  pub more : (j : ObjectId) → is_there old.0 j ≡ true → is_there new.0 j ≡ true
  pub targets : are_there new.0 edges ≡ true
  pub sources :
      (j : ObjectId)
      → is_there new.0 j ≡ true
      → (is_there old.0 j ≡ true)
        ⊎ ((edge : PtEdge T) × Memᴰ edge edges × (edge.target_object_id ≡ j))
  pub keeps : (o : Object T) → Memᴰ o old.1 → Memᴰ o new.1
  pub queued :
      (j : ObjectId) {o : Object T}
      → is_there new.0 j ≡ true
      → find j objects ≡ some o
      → (is_there old.0 j ≡ true) ⊎ Memᴰ o new.1
  pub waits :
      (o : Object T)
      → Memᴰ o new.1
      → Memᴰ o old.1 ⊎ ((find o.id objects ≡ some o) × (is_there new.0 o.id ≡ true))
  pub less : unseen new.0 objects + length new.1 ≤ unseen old.0 objects + length old.1

module _ {T : Type 0} (objects : Dict ObjectId (Object T)) where
  insert_object-IsInserted :
      (edge : PtEdge T) (o : Object T) (pending : Pending T)
      → find edge.target_object_id objects ≡ some o
      → o.id ≡ edge.target_object_id
      → IsInserted objects (edge ∷ []) pending (insert_object o pending)
  unfolding insert_object is_there are_there
  insert_object-IsInserted edge o (seen, worklist) found named =
      elim (Option-cases (find o.id seen)) [
        | inr (old, there) ↦
            rw (insert_object, there)
              (record {
                more = λ j h. h;
                targets = ground arith;
                sources = λ j h. inl h;
                keeps = λ p m. m;
                queued = λ j h at. inl h;
                waits = λ p m. inl m;
                less = omega arith;
              })
        | inl missing ↦
            rw (insert_object, missing)
              (record {
                more = λ j h. ground (arith, there-assign o.id j o seen);
                targets = ground (arith, there-assign o.id o.id o seen, eq_refl ⦃e = ℤ_key⦄ o.id);
                sources = λ j h. elim (Bool-cases (eqb_ℤ o.id j)) [
                  | inl here ↦ inr (edge, Memᴰ.head refl, sym named ∙ (eqb_ℤ_iff o.id j).0 here)
                  | inr other ↦ inl (ground (arith, there-assign o.id j o seen))
                ];
                keeps = λ p m. Memᴰ.append_left _ m;
                queued = λ j {o = p} h at. elim (Bool-cases (eqb_ℤ o.id j)) [
                  | inl here ↦
                      let same : p ≡ o = ground (arith, (eqb_ℤ_iff o.id j).0 here) in
                      inr (Memᴰ.append_right worklist (Memᴰ.head same))
                  | inr other ↦ inl (ground (arith, there-assign o.id j o seen))
                ];
                waits = λ p m. elim (Memᴰ.append_cases worklist m) [
                  | inl before ↦ inl before
                  | inr last ↦ inr (
                      rw (Memᴰ.eq_of_singleton last) (
                        subst (λ id. find id objects ≡ some o) (sym named) found,
                        ground (arith, there-assign o.id o.id o seen, eq_refl ⦃e = ℤ_key⦄ o.id),
                      ))
                ];
                less = omega (
                  arith,
                  length-append worklist o,
                  unseen-assign o.id o seen objects (ground arith) (ground (arith, named)),
                );
              })
      ]

  IsInserted-trans :
      {edge : PtEdge T} {edges : List (PtEdge T)} {old mid new : Pending T}
      → IsInserted objects (edge ∷ []) old mid
      → IsInserted objects edges mid new
      → IsInserted objects (edge ∷ edges) old new
  unfolding are_there
  IsInserted-trans {edge} {old = old} {mid} {new} first rest = record {
    more = λ j h. rest.more j (first.more j h);
    targets =
        let one = are_there-more mid.0 new.0 rest.more (edge ∷ []) first.targets in
        ground (arith, rest.targets);
    sources = λ j h. elim (rest.sources j h) [
      | inr (e, m, at) ↦ inr (e, Memᴰ.tail m, at)
      | inl before ↦ elim (first.sources j before) [
        | inl older ↦ inl older
        | inr (e, m, at) ↦ inr (e, Memᴰ.head (Memᴰ.eq_of_singleton m), at)
      ]
    ];
    keeps = λ p m. rest.keeps p (first.keeps p m);
    queued = λ j {o = p} h at. elim (rest.queued j h at) [
      | inr waiting ↦ inr waiting
      | inl before ↦ elim (first.queued j before at) [
        | inl older ↦ inl older
        | inr waiting ↦ inr (rest.keeps p waiting)
      ]
    ];
    waits = λ p m. elim (rest.waits p m) [
      | inr known ↦ inr known
      | inl before ↦ elim (first.waits p before) [
        | inl older ↦ inl older
        | inr (at, there) ↦ inr (at, rest.more p.id there)
      ]
    ];
    less = omega (arith, first.less, rest.less);
  }

  -- The targets are all in the graph, under their own ids.
  pub insert_targets-IsInserted :
      (closed : are_closed objects objects ≡ true) (edges : List (PtEdge T)) (pending : Pending T)
      → are_there objects edges ≡ true
      → (new : Pending T) × (insert_targets objects edges pending ≡ value new)
        × IsInserted objects edges pending new
  unfolding insert_targets are_there is_there
  insert_targets-IsInserted closed [] pending h = (
    pending,
    refl,
    record {
      more = λ j h'. h';
      targets = refl;
      sources = λ j h'. inl h';
      keeps = λ p m. m;
      queued = λ j h' at. inl h';
      waits = λ p m. inl m;
      less = omega arith;
    },
  )
  insert_targets-IsInserted closed (edge ∷ edges) pending h =
      elim (Option-cases (find edge.target_object_id objects)) [
        | inl missing ↦ absurd (ground arith)
        | inr (o, found) ↦
            let first =
              insert_object-IsInserted edge o pending found
                (closed-find objects objects edge.target_object_id closed found).0 in
            let (new, inserts, rest) =
              insert_targets-IsInserted closed edges (insert_object o pending) (ground arith) in
            (new, rw (insert_targets, found) inserts, IsInserted-trans first rest)
      ]
