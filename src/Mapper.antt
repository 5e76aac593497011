-- ===== src/Mapper.antt =====
-- The maps from the front end's ids to values and from values to functions:
-- src/FrontedValueMapper.hpp.
mod Tests
use angie.Common.{
  ◌≡◌, Bool, true, Option, none, some, if◌then◌else◌, arith, ◌==◌, refl, Option-cases, inl, inr,
  ==_iff, subst, sym,
}
use angie.Common.Dict.{
  Dict, ℕ_key, find, assign, emplace, find-assign, find-assign_self, find-emplace_new, eq_refl,
}
use angie.Common.Run.{Result, value, Run, Outcome, ok, raise, out_of_range, or_throw}
use angie.Values.{ValueId, FrontendId, next_id}

abbrev pub Mapper : Type 0
Mapper = Dict FrontendId ValueId

unfoldable pub get_value_id : Mapper → FrontendId → Result ValueId
get_value_id m id = or_throw out_of_range (find id m)

-- `emplace`, and an assignment through its iterator where the id was there.
unfoldable pub link_to_value_id : FrontendId → ValueId → Mapper → Mapper
unfolding emplace
link_to_value_id id v m = elim (find id m) [ none ↦ emplace id v m | some _ ↦ assign id v m ]

-- The state of a call that may create a value: the map, and the container or the counter of ids
-- that the value comes from.
pub record Linking (V : Type 0) : Type 0 where
  pub mapper : Mapper
  pub vc : V

-- The new value under a hint, which changes where the search starts and not what is inserted.
abbrev linked : {V : Type 0} → FrontendId → Mapper → Outcome V ValueId → Outcome (Linking V) ValueId
linked id m (ok v vc) = ok v (record { mapper = emplace id v m; vc = vc })
linked id m (raise e vc) = raise e (record { mapper = m; vc = vc })

-- `create` is CreateVal of the container, at the type of the argument.
unfoldable pub create_or_get_value_id :
    {V : Type 0} → Run V ValueId → FrontendId → Run (Linking V) ValueId
unfolding emplace
create_or_get_value_id create id s = elim (find id s.mapper) [
  | some v ↦ ok v s
  | none ↦ linked id s.mapper (create s.vc)
]

-- The overload without a container, which takes the next id of the counter.
unfoldable pub create_or_get_next_id : FrontendId → Run (Linking ValueId) ValueId
unfolding create_or_get_value_id next_id
create_or_get_next_id = create_or_get_value_id (λ n. ok n (next_id n))

abbrev pub FuncMapper : Type 0 → Type 0
FuncMapper F = Dict ValueId F

unfoldable pub register_function : {F : Type 0} → ValueId → F → FuncMapper F → FuncMapper F
unfolding emplace
register_function = emplace

unfoldable pub get_function : {F : Type 0} → FuncMapper F → ValueId → Result F
get_function m id = or_throw out_of_range (find id m)

-- A link replaces the value of its id, whether or not one was there, and no other id's.
pub get_value_id-link :
    (id j : FrontendId) (v : ValueId) (m : Mapper)
    → get_value_id (link_to_value_id id v m) j ≡ (if id == j then value v else get_value_id m j)
unfolding get_value_id link_to_value_id emplace
get_value_id-link id j v m = ground (arith, find-assign id j v m)

module _ {V : Type 0} (create : Run V ValueId) (id : FrontendId) (s : Linking V)
    (j : FrontendId) where
  -- What CreateOrGetValueId has done, for each way that it ends.
  abbrev pub IsLinked : Outcome (Linking V) ValueId → Type 0
  IsLinked (ok v s') =
      (get_value_id s'.mapper j ≡ (if id == j then value v else get_value_id s.mapper j))
      × (create_or_get_value_id create id s' ≡ ok v s')
  IsLinked (raise e s') = s'.mapper ≡ s.mapper

  linked-IsLinked :
      find id s.mapper ≡ none → (o : Outcome V ValueId) → IsLinked (linked id s.mapper o)
  unfolding create_or_get_value_id get_value_id
  linked-IsLinked missing (ok v vc) = (
    ground (arith, find-emplace_new id j v s.mapper missing),
    ground (arith, find-emplace_new id id v s.mapper missing, eq_refl ⦃e = ℕ_key⦄ id),
  )
  linked-IsLinked missing (raise e vc) = refl

  create_new :
      find id s.mapper ≡ none
      → create_or_get_value_id create id s ≡ linked id s.mapper (create s.vc)
  unfolding create_or_get_value_id
  create_new missing = ground arith

  create_known :
      {v : ValueId} → find id s.mapper ≡ some v → create_or_get_value_id create id s ≡ ok v s
  unfolding create_or_get_value_id
  create_known found = ground arith

  pub create_or_get_value_id_lem : IsLinked (create_or_get_value_id create id s)
  unfolding get_value_id
  create_or_get_value_id_lem = elim (Option-cases (find id s.mapper)) [
    | inl missing ↦
        subst IsLinked (sym (create_new missing)) (linked-IsLinked missing (create s.vc))
    | inr (v, found) ↦
        subst IsLinked (sym (create_known found)) (ground (arith, ==_iff id j), create_known found)
  ]
