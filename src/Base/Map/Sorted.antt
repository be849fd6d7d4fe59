-- ===== src/Base/Map/Sorted.antt =====
-- The order of the keys, which the operations keep.
use Prim.Native.Nat.{Ordering}
use mathlib.Core.Path.{◌≡◌, refl, subst}
use mathlib.Core.Logic.{◌≢◌, inl, inr}
use mathlib.Core.Bool.{false}
use mathlib.Core.Option.{none}
use mathlib.Core.List.{[], ◌∷◌}
use native.Mathlib.Omega.{arith}
use mobfs.Base.Tests.{Bool-cases}
use mobfs.Base.Order.{Ord, eqb, eqb_iff, is_lt}
use mobfs.Base.Map.Defs.{Map, get, insert, remove, range_from}

module _ {ℓ} {K : Type ℓ} ⦃o : Ord K⦄ where
  lt_of_tests : (i k : K) → eqb i k ≡ false → is_lt (o.cmp k i) ≡ false → o.cmp i k ≡ Ordering.lt
  lt_of_tests i k n g = ground (arith, o.cmp_eq i k, o.cmp_eq k i, o.cmp_gt k i)

module _ {ℓ κ} {K : Type ℓ} {V : Type κ} ⦃o : Ord K⦄ where
  -- `k` is less than every key
  abbrev pub Below : K → Map K V → Type 0
  Below k [] = Unit
  Below k ((j, _) ∷ m) = (o.cmp k j ≡ Ordering.lt) × Below k m

  abbrev pub IsSorted : Map K V → Type 0
  IsSorted [] = Unit
  IsSorted ((k, _) ∷ m) = Below k m × IsSorted m

  pub Below-trans : (j k : K) (m : Map K V) → o.cmp j k ≡ Ordering.lt → Below k m → Below j m
  Below-trans j k [] h b = tt
  Below-trans j k ((i, _) ∷ m) h (b, c) = (o.cmp_trans j k i h b, Below-trans j k m h c)

  pub Below-get : (k : K) (m : Map K V) → Below k m → get m k ≡ none
  unfolding get
  Below-get k [] b = refl
  Below-get k ((j, v) ∷ m) (b, c) = ground (arith, Below-get k m c, o.cmp_eq j k, o.cmp_eq k j)

  -- whatever a key is below comes after it
  pub Below-lt :
      (j : K) (m : Map K V) → Below j m → (k : K) → get m k ≢ none → o.cmp j k ≡ Ordering.lt
  unfolding get
  Below-lt j [] b k h = absurd (h refl)
  Below-lt j ((i, v) ∷ m) (b, c) k h = ground (arith, Below-lt j m c k, o.cmp_eq i k)

  pub Below-of :
      (j : K) (m : Map K V)
      → IsSorted m
      → ((k : K) → get m k ≢ none → o.cmp j k ≡ Ordering.lt)
      → Below j m
  unfolding get
  Below-of j [] s h = tt
  Below-of j ((i, v) ∷ m) (b, s) h =
      let p : o.cmp j i ≡ Ordering.lt = h i (ground (arith, o.cmp_eq i i)) in
      (p, Below-trans j i m p b)

  range_from-Below : (j : K) (m : Map K V) (from : K) → Below j m → Below j (range_from m from)
  unfolding range_from
  range_from-Below j [] from b = tt
  range_from-Below j ((i, w) ∷ m) from (b, c) = elim (Bool-cases (is_lt (o.cmp i from))) [
    | inl e ↦ rw e (range_from-Below j m from c)
    | inr n ↦ rw n (b, range_from-Below j m from c)
  ]

  pub range_from-IsSorted : (m : Map K V) (from : K) → IsSorted m → IsSorted (range_from m from)
  unfolding range_from
  range_from-IsSorted [] from s = tt
  range_from-IsSorted ((i, w) ∷ m) from (b, s) = elim (Bool-cases (is_lt (o.cmp i from))) [
    | inl e ↦ rw e (range_from-IsSorted m from s)
    | inr n ↦ rw n (range_from-Below i m from b, range_from-IsSorted m from s)
  ]

  Below-insert :
      (j : K) (m : Map K V) (k : K) (v : V)
      → o.cmp j k ≡ Ordering.lt
      → Below j m
      → Below j (insert m k v)
  unfolding insert
  Below-insert j [] k v h b = (h, tt)
  Below-insert j ((i, w) ∷ m) k v h (b, c) = elim (Bool-cases (eqb i k)) [
    | inl e ↦ rw e (h, c)
    | inr n ↦ rw n (elim (Bool-cases (is_lt (o.cmp k i))) [
      | inl l ↦ rw l (h, (b, c))
      | inr g ↦ rw g (b, Below-insert j m k v h c)
    ])
  ]

  pub insert-IsSorted : (m : Map K V) (k : K) (v : V) → IsSorted m → IsSorted (insert m k v)
  unfolding insert
  insert-IsSorted [] k v s = (tt, tt)
  insert-IsSorted ((i, w) ∷ m) k v (b, s) = elim (Bool-cases (eqb i k)) [
    | inl e ↦ rw e (subst (λ j. Below j m) ((eqb_iff i k).0 e) b, s)
    | inr n ↦ rw n (elim (Bool-cases (is_lt (o.cmp k i))) [
      | inl l ↦ rw l ((ground arith, Below-trans k i m (ground arith) b), (b, s))
      | inr g ↦ rw g (Below-insert i m k v (lt_of_tests i k n g) b, insert-IsSorted m k v s)
    ])
  ]

  Below-remove : (j : K) (m : Map K V) (k : K) → Below j m → Below j (remove m k)
  unfolding remove
  Below-remove j [] k b = tt
  Below-remove j ((i, w) ∷ m) k (b, c) = elim (Bool-cases (eqb i k)) [
    | inl e ↦ rw e (Below-remove j m k c)
    | inr n ↦ rw n (b, Below-remove j m k c)
  ]

  pub remove-IsSorted : (m : Map K V) (k : K) → IsSorted m → IsSorted (remove m k)
  unfolding remove
  remove-IsSorted [] k s = tt
  remove-IsSorted ((i, w) ∷ m) k (b, s) = elim (Bool-cases (eqb i k)) [
    | inl e ↦ rw e (remove-IsSorted m k s)
    | inr n ↦ rw n (Below-remove i m k b, remove-IsSorted m k s)
  ]
