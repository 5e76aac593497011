-- ===== src/Common/Dict.antt =====
-- std::map, as a list of entries that assignment keeps in the order of the keys. The laws of
-- `find` hold of every list of entries.
use mathlib.Core.Path.{◌≡◌, refl}
use mathlib.Core.Logic.{◌↔◌}
use mathlib.Core.Bool.{Bool, true}
use mathlib.Core.Option.{Option, none, some}
use mathlib.Core.List.{List, [], ◌∷◌}
use Prim.Native.Nat.{ℕ}
use native.Mathlib.Omega.{arith}
use angie.Common.Tests.{ltb, ◌==◌, ==_iff, if◌then◌else◌}
use angie.Common.Int.{ℤ, ltb_ℤ, eqb_ℤ, eqb_ℤ_iff}

-- What the map asks of its keys, and that `==` on them is equality.
pub record Key (K : Type 0) : Type 0 where
  pub lt : K → K → Bool
  pub eq : K → K → Bool
  pub eq_iff : (a b : K) → (eq a b ≡ true) ↔ (a ≡ b)

instance abbrev pub ℕ_key : Key ℕ
ℕ_key = record { lt = ltb; eq = ◌==◌; eq_iff = ==_iff }

instance abbrev pub ℤ_key : Key ℤ
ℤ_key = record { lt = ltb_ℤ; eq = eqb_ℤ; eq_iff = eqb_ℤ_iff }

abbrev pub Dict : Type 0 → Type 0 → Type 0
Dict K V = List (K × V)

pub eq_refl : {K : Type 0} ⦃e : Key K⦄ (k : K) → e.eq k k ≡ true
eq_refl ⦃e⦄ k = (e.eq_iff k k).1 refl

module _ {K V : Type 0} ⦃e : Key K⦄ where
  unfoldable pub find : K → Dict K V → Option V
  find k [] = none
  find k ((j, w) ∷ m) = if e.eq j k then some w else find k m

  -- `m[k] = v`
  unfoldable pub assign : K → V → Dict K V → Dict K V
  assign k v [] = (k, v) ∷ []
  assign k v ((j, w) ∷ m) =
      if e.eq j k
      then (k, v) ∷ m
      else if e.lt k j
      then (k, v) ∷ (j, w) ∷ m
      else (j, w) ∷ assign k v m

  -- `m.emplace(k, v)`, which keeps an entry that is there
  unfoldable pub emplace : K → V → Dict K V → Dict K V
  unfolding find assign
  emplace k v m = elim (find k m) [ none ↦ assign k v m | some _ ↦ m ]

  unfoldable pub erase : K → Dict K V → Dict K V
  erase k [] = []
  erase k ((j, w) ∷ m) = if e.eq j k then erase k m else (j, w) ∷ erase k m

  pub find-assign :
      (k j : K) (v : V) (m : Dict K V)
      → find j (assign k v m) ≡ (if e.eq k j then some v else find j m)
  unfolding find assign
  find-assign k j v [] = refl
  find-assign k j v ((i, w) ∷ m) =
      ground (arith, e.eq_iff k j, e.eq_iff i k, e.eq_iff i j, find-assign k j v m)

  pub find-assign_self : (k : K) (v : V) (m : Dict K V) → find k (assign k v m) ≡ some v
  find-assign_self k v m = ground (arith, find-assign k k v m, eq_refl k)

  pub find-emplace_new :
      (k j : K) (v : V) (m : Dict K V)
      → find k m ≡ none
      → find j (emplace k v m) ≡ (if e.eq k j then some v else find j m)
  unfolding emplace
  find-emplace_new k j v m h = ground (arith, find-assign k j v m)

  pub find-erase :
      (k j : K) (m : Dict K V) → find j (erase k m) ≡ (if e.eq k j then none else find j m)
  unfolding find erase
  find-erase k j [] = ground arith
  find-erase k j ((i, w) ∷ m) =
      ground (arith, e.eq_iff k j, e.eq_iff i k, e.eq_iff i j, find-erase k j m)
