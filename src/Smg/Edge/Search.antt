-- ===== src/Smg/Edge/Search.antt =====
-- What the searches find after an edge was created or modified.
use angie.Common.{
  ◌≡◌, refl, false, none, some, List, [], ◌∷◌, ◌++◌, ◌==◌, arith, inl, inr, Bool-cases,
  Option-cases,
}
use angie.Values.{ValueId}
use angie.Smg.Edge.{find_edge, modify_edge, create_or_modify_edge}

module _ {E : Type 0} (field : E → ValueId) where
  pub find_edge-append :
      (x : ValueId) (es fs : List E)
      → find_edge field x (es ++ fs)
        ≡ elim (find_edge field x es) [ none ↦ find_edge field x fs | some e ↦ some e ]
  unfolding find_edge
  find_edge-append x [] fs = refl
  find_edge-append x (e ∷ es) fs = ground (arith, find_edge-append x es fs)

  pub field-find_edge :
      (x : ValueId) (es : List E) {e : E} → find_edge field x es ≡ some e → field e ≡ x
  unfolding find_edge
  field-find_edge x [] h = cc
  field-find_edge x (e ∷ es) {e = e'} h = ground (arith, field-find_edge x es {e = e'})

  -- `f` keeps the edge where it is.
  module _ (x : ValueId) (f : E → E) (keeps : (e : E) → field (f e) ≡ field e) where
    pub find-modify_edge :
        (es : List E) {e : E}
        → find_edge field x es ≡ some e
        → find_edge field x (modify_edge field x f es) ≡ some (f e)
    unfolding find_edge modify_edge
    find-modify_edge [] h = cc
    find-modify_edge (e ∷ es) {e = e'} h = elim (Bool-cases (field e == x)) [
      | inl here ↦ rw (here, keeps e, here) (ground arith)
      | inr later ↦ rw (later, later) (find-modify_edge es (ground arith))
    ]

    pub find-modify_edge_ne :
        (y : ValueId) (es : List E)
        → (y == x) ≡ false
        → find_edge field y (modify_edge field x f es) ≡ find_edge field y es
    unfolding find_edge modify_edge
    find-modify_edge_ne y [] h = refl
    find-modify_edge_ne y (e ∷ es) h = ground (arith, keeps e, find-modify_edge_ne y es)

    module _ (new : E) (at : field new ≡ x) where
      pub find-create_or_modify_edge :
          (es : List E)
          → find_edge field x (create_or_modify_edge field x f new es)
            ≡ elim (find_edge field x es) [ none ↦ some new | some e ↦ some (f e) ]
      unfolding find_edge create_or_modify_edge
      find-create_or_modify_edge es = elim (Option-cases (find_edge field x es)) [
        | inl missing ↦
            rw (missing, create_or_modify_edge, find_edge-append, missing) (ground (arith, at))
        | inr (e, found) ↦ rw (found, create_or_modify_edge) (find-modify_edge es found)
      ]

      pub find-create_or_modify_edge_ne :
          (y : ValueId) (es : List E)
          → (y == x) ≡ false
          → find_edge field y (create_or_modify_edge field x f new es) ≡ find_edge field y es
      unfolding find_edge create_or_modify_edge
      find-create_or_modify_edge_ne y es h =
          ground (arith, find_edge-append y es (new ∷ []), find-modify_edge_ne y es)
