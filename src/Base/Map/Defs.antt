-- ===== src/Base/Map/Defs.antt =====
-- The operations of `BTreeMap` and `HashMap` that the program uses.
use mathlib.Core.Bool.{Bool, true, false}
use mathlib.Core.Option.{Option, none, some}
use mathlib.Core.List.{List, [], ◌∷◌}
use mobfs.Base.Tests.{if◌then◌else◌}
use mobfs.Base.Order.{Ord, eqb, is_lt}

abbrev pub Map {ℓ κ} : Type ℓ → Type κ → Type (ℓ ⊔ κ)
Map K V = List (K × V)

abbrev pub is_some {ℓ} : {A : Type ℓ} → Option A → Bool
is_some none = false
is_some (some _) = true

module _ {ℓ κ} {K : Type ℓ} {V : Type κ} where
  unfoldable pub keys : Map K V → List K
  keys [] = []
  keys ((k, _) ∷ m) = k ∷ keys m

  unfoldable pub values : Map K V → List V
  values [] = []
  values ((_, v) ∷ m) = v ∷ values m

  -- m.retain(|k, v| keep)
  unfoldable pub retain : (K → V → Bool) → Map K V → Map K V
  retain keep [] = []
  retain keep ((k, v) ∷ m) = let rest = retain keep m in if keep k v then (k, v) ∷ rest else rest

module _ {ℓ κ} {K : Type ℓ} {V : Type κ} ⦃o : Ord K⦄ where
  unfoldable pub get : Map K V → K → Option V
  get [] k = none
  get ((j, v) ∷ m) k = if eqb j k then some v else get m k

  unfoldable pub contains_key : Map K V → K → Bool
  contains_key m k = is_some (get m k)

  unfoldable pub insert : Map K V → K → V → Map K V
  insert [] k v = (k, v) ∷ []
  insert ((j, w) ∷ m) k v =
      if eqb j k
      then (k, v) ∷ m
      else if is_lt (o.cmp k j)
      then (k, v) ∷ ((j, w) ∷ m)
      else (j, w) ∷ insert m k v

  unfoldable pub remove : Map K V → K → Map K V
  remove [] k = []
  remove ((j, w) ∷ m) k = let rest = remove m k in if eqb j k then rest else (j, w) ∷ rest

  -- the entries from a key on: m.range(from..)
  unfoldable pub range_from : Map K V → K → Map K V
  range_from [] k = []
  range_from ((j, w) ∷ m) k =
      let rest = range_from m k in if is_lt (o.cmp j k) then rest else (j, w) ∷ rest
