-- ===== src/Base/Map/Laws.antt =====
-- What a lookup finds after each operation; none of it needs the order.
use mathlib.Core.Path.{◌≡◌, refl}
use mathlib.Core.Bool.{Bool, true}
use mathlib.Core.Option.{none, some}
use mathlib.Core.List.{[], ◌∷◌}
use native.Mathlib.Omega.{arith}
use mobfs.Base.Tests.{if◌then◌else◌}
use mobfs.Base.Order.{Ord, eqb}
use mobfs.Base.Map.Defs.{Map, get, insert, remove, retain, contains_key}

module _ {ℓ κ} {K : Type ℓ} {V : Type κ} ⦃o : Ord K⦄ where
  pub get-insert :
      (m : Map K V) (k : K) (v : V) (j : K)
      → get (insert m k v) j ≡ (if eqb k j then some v else get m j)
  unfolding get insert
  get-insert [] k v j = refl
  get-insert ((i, w) ∷ m) k v j =
      ground (arith, get-insert m k v j, o.cmp_eq i k, o.cmp_eq i j, o.cmp_eq k j)

  pub get-remove :
      (m : Map K V) (k j : K) → get (remove m k) j ≡ (if eqb k j then none else get m j)
  unfolding get remove
  get-remove [] k j = ground arith
  get-remove ((i, w) ∷ m) k j =
      ground (arith, get-remove m k j, o.cmp_eq i k, o.cmp_eq i j, o.cmp_eq k j)

  -- where the test looks at the key alone
  pub get-retain :
      (keep : K → Bool) (m : Map K V) (j : K)
      → get (retain (λ k _. keep k) m) j ≡ (if keep j then get m j else none)
  unfolding get retain
  get-retain keep [] j = ground arith
  get-retain keep ((i, w) ∷ m) j = ground (arith, get-retain keep m j, o.cmp_eq i j)

  pub contains_key-get : (m : Map K V) (k : K) (v : V) → get m k ≡ some v → contains_key m k ≡ true
  unfolding contains_key
  contains_key-get m k v h = ground arith

  pub get-insert_self : (m : Map K V) (k : K) (v : V) → get (insert m k v) k ≡ some v
  get-insert_self m k v = ground (arith, get-insert m k v k, o.cmp_eq k k)

  pub get-remove_self : (m : Map K V) (k : K) → get (remove m k) k ≡ none
  get-remove_self m k = ground (arith, get-remove m k k, o.cmp_eq k k)

  pub remove_absent : (m : Map K V) (k : K) → get m k ≡ none → remove m k ≡ m
  unfolding remove get
  remove_absent [] k h = refl
  remove_absent ((j, v) ∷ m) k h = ground (arith, remove_absent m k)
