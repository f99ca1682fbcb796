-- ===== src/Common/Dict.antt =====
-- `HashMap` with text keys, as an association list. The program iterates over a map in an order that
-- it does not choose: the list's order stands for any of them.
use Prim.Native.String.{String}
use mathlib.Core.Path.{◌≡◌, refl}
use mathlib.Core.Bool.{Bool, true, false}
use mathlib.Core.Option.{Option, none, some}
use mathlib.Core.List.{List, [], ◌∷◌}
use native.Mathlib.Omega.{arith}
use text.Mathlib.TextEquality.{eq_iff}
use openshell_driver_lxd.Common.Tests.{if◌then◌else◌, ◌==◌, string_eq}

abbrev pub Dict {ℓ} : Type ℓ → Type ℓ
Dict V = List (String × V)

module _ {ℓ} {V : Type ℓ} where
  -- `map.get(k)`
  unfoldable pub lookup : String → Dict V → Option V
  lookup k [] = none
  lookup k ((j, v) ∷ m) = if j == k then some v else lookup k m

  -- `map.contains_key(k)`
  abbrev pub contains_key : Dict V → String → Bool
  contains_key m k = elim (lookup k m) [ none ↦ false | some v ↦ true ]

  -- `map.insert(k, v)`
  unfoldable pub insert : String → V → Dict V → Dict V
  insert key value [] = (key, value) ∷ []
  insert key value ((other, old) ∷ rest) =
      if other == key then (key, value) ∷ rest else (other, old) ∷ insert key value rest

  -- `map.remove(k)`
  unfoldable pub erase : String → Dict V → Dict V
  erase k [] = []
  erase k ((j, v) ∷ m) = let rest = erase k m in if j == k then rest else (j, v) ∷ rest

  -- `map.extend(other)`
  unfoldable pub extend : Dict V → Dict V → Dict V
  extend m [] = m
  extend m ((k, v) ∷ rest) = extend (insert k v m) rest

  -- `map.values()`, `map.keys()`
  abbrev pub keys : Dict V → List String
  keys [] = []
  keys ((k, v) ∷ m) = k ∷ keys m

  pub lookup-insert :
      (key sought : String) (value : V) (m : Dict V)
      → lookup sought (insert key value m) ≡ (if key == sought then some value else lookup sought m)
  unfolding lookup insert
  lookup-insert key sought value [] = refl
  lookup-insert key sought value ((other, old) ∷ rest) =
      let behind = lookup-insert key sought value rest in
      ground (arith, behind, eq_iff key sought, eq_iff other key, eq_iff other sought)

  pub lookup-erase :
      (k j : String) (m : Dict V) → lookup j (erase k m) ≡ (if k == j then none else lookup j m)
  unfolding lookup erase
  lookup-erase k j [] = ground arith
  lookup-erase k j ((i, w) ∷ m) =
      ground (arith, eq_iff k j, eq_iff i k, eq_iff i j, lookup-erase k j m)

  -- The last entry of `other` for a key wins; a map has one at most.
  abbrev pub last : String → Dict V → Option V
  last k [] = none
  last k ((j, v) ∷ m) =
      let rest = last k m in elim rest [ some w ↦ some w | none ↦ if j == k then some v else none ]

  pub lookup-extend :
      (k : String) (m other : Dict V)
      → lookup k (extend m other) ≡ elim (last k other) [ some w ↦ some w | none ↦ lookup k m ]
  unfolding extend
  lookup-extend k m [] = refl
  lookup-extend k m ((j, v) ∷ other) =
      ground (arith, lookup-extend k (insert j v m) other, lookup-insert j k v m)
