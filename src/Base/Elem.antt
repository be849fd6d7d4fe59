-- ===== src/Base/Elem.antt =====
-- Membership as a predicate by recursion, which the tactics take apart.
use Prim.Native.Nat.{Ordering}
use mathlib.Core.Path.{◌≡◌, refl, sym, subst}
use mathlib.Core.Logic.{◌↔◌, ◌⊎◌, ◌≢◌, inl, inr}
use mathlib.Core.Option.{none}
use mathlib.Core.List.{List, [], ◌∷◌, ◌++◌, reverse, reverse-cons}
use native.Mathlib.Omega.{arith}
use mobfs.Base.Order.{Ord}
use mobfs.Base.Map.{Map, keys, get, insert, get-insert, IsSorted, insert-IsSorted, Below}

module _ {A : Type 0} where
  abbrev pub Elem : A → List A → Type 0
  Elem x [] = ⊥
  Elem x (y ∷ ys) = (x ≡ y) ⊎ Elem x ys

  pub Elem-append : (x : A) (ys zs : List A) → Elem x (ys ++ zs) ↔ (Elem x ys ⊎ Elem x zs)
  Elem-append x [] zs = ground arith
  Elem-append x (y ∷ ys) zs = ground (arith, Elem-append x ys zs)

  pub Elem-reverse : (x : A) (ys : List A) → Elem x (reverse ys) ↔ Elem x ys
  Elem-reverse x [] = (λ h. h, λ h. h)
  Elem-reverse x (y ∷ ys) =
      rw reverse-cons (ground (arith, Elem-append x (reverse ys) (y ∷ []), Elem-reverse x ys))

module _ {A : Type 0} (P : A → Type 0) where
  abbrev pub All : List A → Type 0
  All [] = Unit
  All (x ∷ xs) = P x × All xs

  pub All-append : (xs ys : List A) → All xs → All ys → All (xs ++ ys)
  All-append [] ys h k = k
  All-append (x ∷ xs) ys (h, hs) k = (h, All-append xs ys hs k)

  pub All-of : (xs : List A) → ((x : A) → Elem x xs → P x) → All xs
  All-of [] h = tt
  All-of (x ∷ xs) h = (h x (inl refl), All-of xs (λ y m. h y (inr m)))

  pub All-Elem : (xs : List A) (x : A) → All xs → Elem x xs → P x
  All-Elem [] x h m = elim m [ ]
  All-Elem (y ∷ ys) x (h, hs) (inl e) = subst P (sym e) h
  All-Elem (y ∷ ys) x (h, hs) (inr m) = All-Elem ys x hs m

module _ {A : Type 0} (R : A → A → Type 0) where
  -- `R` holds of each element and every later one
  abbrev pub Pairwise : List A → Type 0
  Pairwise [] = Unit
  Pairwise (x ∷ xs) = All (R x) xs × Pairwise xs

  pub Pairwise-append :
      (xs ys : List A)
      → Pairwise xs
      → Pairwise ys
      → ((x y : A) → Elem x xs → Elem y ys → R x y)
      → Pairwise (xs ++ ys)
  Pairwise-append [] ys h k c = k
  Pairwise-append (x ∷ xs) ys (a, h) k c = (
    All-append (R x) xs ys a (All-of (R x) ys (λ y m. c x y (inl refl) m)),
    Pairwise-append xs ys h k (λ u v m n. c u v (inr m) n),
  )

module _ {A : Type 0} (R S : A → A → Type 0) where
  All-map :
      (x : A) (xs : List A) → ((y : A) → Elem y xs → R x y → S x y) → All (R x) xs → All (S x) xs
  All-map x [] f h = tt
  All-map x (y ∷ xs) f (h, hs) = (f y (inl refl) h, All-map x xs (λ z m. f z (inr m)) hs)

  pub Pairwise-map :
      (xs : List A)
      → ((x y : A) → Elem x xs → Elem y xs → R x y → S x y)
      → Pairwise R xs
      → Pairwise S xs
  Pairwise-map [] f h = tt
  Pairwise-map (x ∷ xs) f (a, h) = (
    All-map x xs (λ y m. f x y (inl refl) (inr m)) a,
    Pairwise-map xs (λ u v m n. f u v (inr m) (inr n)) h,
  )

module _ {A : Type 0} (R : A → A → Type 0) where
  pub Pairwise-reverse : (xs : List A) → Pairwise (λ x y. R y x) xs → Pairwise R (reverse xs)
  Pairwise-reverse [] h = tt
  Pairwise-reverse (x ∷ xs) (a, h) = rw reverse-cons (
      Pairwise-append R (reverse xs) (x ∷ []) (Pairwise-reverse xs h) (tt, tt)
        λ u v m n. back u v ((Elem-reverse u xs).0 m) n)
    where
      back : (u v : A) → Elem u xs → Elem v (x ∷ []) → R u v
      back u v m (inl e) = subst (λ w. R u w) (sym e) (All-Elem (λ y. R y x) xs u a m)
      back u v m (inr e) = elim e [ ]

module _ {K V : Type 0} ⦃o : Ord K⦄ where
  Below-All : (k : K) (m : Map K V) → Below k m → All (λ j. o.cmp k j ≡ Ordering.lt) (keys m)
  unfolding keys
  Below-All k [] b = tt
  Below-All k ((j, v) ∷ m) (b, c) = (b, Below-All k m c)

  -- the keys of a map ascend
  pub IsSorted-keys :
      (m : Map K V) → IsSorted m → Pairwise (λ j k. o.cmp j k ≡ Ordering.lt) (keys m)
  unfolding keys
  IsSorted-keys [] s = tt
  IsSorted-keys ((k, v) ∷ m) (b, s) = (Below-All k m b, IsSorted-keys m s)

module _ {K V : Type 0} ⦃o : Ord K⦄ where
  pub Elem-keys : (m : Map K V) (k : K) → Elem k (keys m) ↔ (get m k ≢ none)
  unfolding keys get
  Elem-keys [] k = (λ h. elim h [ ], λ h. h refl)
  Elem-keys ((j, v) ∷ m) k = ground (arith, Elem-keys m k, o.cmp_eq j k)

-- The set of a list's elements, as `collect::<BTreeSet<_>>()` builds it.
module _ {K : Type 0} ⦃o : Ord K⦄ where
  unfoldable pub to_set : List K → Map K (Unit {0})
  to_set [] = []
  to_set (x ∷ xs) = insert (to_set xs) x tt

  pub to_set-IsSorted : (xs : List K) → IsSorted (to_set xs)
  unfolding to_set
  to_set-IsSorted [] = tt
  to_set-IsSorted (x ∷ xs) = insert-IsSorted (to_set xs) x tt (to_set-IsSorted xs)

  pub Elem-to_set : (xs : List K) (k : K) → (get (to_set xs) k ≢ none) ↔ Elem k xs
  unfolding to_set get
  Elem-to_set [] k = (λ h. h refl, λ h. elim h [ ])
  Elem-to_set (x ∷ xs) k =
      ground (arith, Elem-to_set xs k, get-insert (to_set xs) x tt k, o.cmp_eq x k)
