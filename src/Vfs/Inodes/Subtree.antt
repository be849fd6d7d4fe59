-- ===== src/Vfs/Inodes/Subtree.antt =====
-- `subtree_keys` reads one run of the ordered map, and finds every key of the subtree.
use mobfs.Base.{
  ◌≡◌, refl, ◌≢◌, ◌↔◌, inl, inr, Bool, true, ◌||◌, none, [], ◌∷◌, arith, Ordering, Bool-cases,
  Option-cases, if◌then◌else◌,
}
use mobfs.Base.Str.{Str, str_eq, str_eq_iff, starts_with}
use mobfs.Base.Order.{list_ord, nat_ord, list_cmp, list_cmp_eq, is_lt}
use mobfs.Base.Map.{
  Map, get, contains_key, range_from, IsSorted, Below, Below-lt, range_from-IsSorted,
}
use mobfs.Base.Elem.{Elem, All, All-of, Pairwise}
use mobfs.Vfs.Inodes.{below_prefix, take_prefix, subtree_keys}

abbrev pub in_subtree : Str → Str → Bool
in_subtree path key = str_eq key path || starts_with key (below_prefix path)

-- The texts with one prefix lie next to one another in the order.
prefix_interval :
    (prefix a b : Str)
    → list_cmp a prefix ≢ Ordering.lt
    → list_cmp a b ≡ Ordering.lt
    → starts_with b prefix ≡ true
    → starts_with a prefix ≡ true
unfolding list_cmp starts_with
prefix_interval [] [] b h l s = refl
prefix_interval [] (c ∷ a) b h l s = refl
prefix_interval (d ∷ prefix) [] b h l s = absurd (h refl)
prefix_interval (d ∷ prefix) (c ∷ a) [] h l s = cc
prefix_interval (d ∷ prefix) (c ∷ a) (e ∷ b) h l s = ground (arith, prefix_interval prefix a b)

-- Nothing that has the prefix comes before it.
prefix_not_lt : (prefix a : Str) → starts_with a prefix ≡ true → list_cmp a prefix ≢ Ordering.lt
unfolding list_cmp starts_with
prefix_not_lt [] [] s h = cc
prefix_not_lt [] (c ∷ a) s h = cc
prefix_not_lt (d ∷ prefix) [] s h = cc
prefix_not_lt (d ∷ prefix) (c ∷ a) s h = ground (arith, prefix_not_lt prefix a)

-- A path comes before all that lies below it.
path_first :
    (path k : Str) → starts_with k (below_prefix path) ≡ true → list_cmp path k ≡ Ordering.lt
unfolding list_cmp starts_with
path_first [] [] s = cc
path_first [] (c ∷ k) s = refl
path_first (d ∷ path) [] s = cc
path_first (d ∷ path) (c ∷ k) s = ground (arith, path_first path k)

module _ {V : Type 0} where
  -- Cut at a key with nothing smaller behind it.
  Elem-take_prefix :
      (prefix : Str) (m : Map Str V)
      → IsSorted m
      → ((k : Str) → get m k ≢ none → list_cmp k prefix ≢ Ordering.lt)
      → (k : Str)
      → Elem k (take_prefix prefix m) ↔ ((starts_with k prefix ≡ true) × (get m k ≢ none))
  unfolding take_prefix get
  Elem-take_prefix prefix [] s h k = ground arith
  Elem-take_prefix prefix ((j, v) ∷ m) (b, s) h k = ground (
    arith,
    Elem-take_prefix prefix m s (λ i g. h i (ground (arith, list_cmp_eq j i))) k,
    prefix_interval prefix j k,
    h j,
    list_cmp_eq j j,
    list_cmp_eq j k,
    Below-lt j m b k,
  )

  get-range_from :
      (m : Map Str V) (from k : Str)
      → get (range_from m from) k ≡ (if is_lt (list_cmp k from) then none else get m k)
  unfolding range_from get
  get-range_from [] from k = ground arith
  get-range_from ((j, v) ∷ m) from k = ground (arith, get-range_from m from k, list_cmp_eq j k)

  -- The keys that `subtree_keys` reads off the ordered map, from the prefix on as long as it lasts,
  -- are all the map's keys that are the path or lie below it.
  pub Elem-subtree_keys :
      (m : Map Str V) (path k : Str)
      → IsSorted m
      → Elem k (subtree_keys m path) ↔ ((in_subtree path k ≡ true) × (get m k ≢ none))
  unfolding subtree_keys contains_key
  Elem-subtree_keys m path k s =
      let run = range_from m (below_prefix path) in
      ground (
        arith,
        Elem-take_prefix (below_prefix path) run (range_from-IsSorted m (below_prefix path) s)
            (λ i g. ground (arith, get-range_from m (below_prefix path) i)) k,
        get-range_from m (below_prefix path) k,
        prefix_not_lt (below_prefix path) k,
        str_eq_iff k path,
        Option-cases (get m path),
      )

  take_prefix_after :
      (j prefix : Str) (m : Map Str V)
      → Below j m
      → All (λ k. list_cmp j k ≡ Ordering.lt) (take_prefix prefix m)
  unfolding take_prefix
  take_prefix_after j prefix [] b = tt
  take_prefix_after j prefix ((i, v) ∷ m) (b, c) = elim (Bool-cases (starts_with i prefix)) [
    | inl e ↦ rw e (b, take_prefix_after j prefix m c)
    | inr n ↦ rw n tt
  ]

  take_prefix_ascend :
      (prefix : Str) (m : Map Str V)
      → IsSorted m
      → Pairwise (λ j k. list_cmp j k ≡ Ordering.lt) (take_prefix prefix m)
  unfolding take_prefix
  take_prefix_ascend prefix [] s = tt
  take_prefix_ascend prefix ((i, v) ∷ m) (b, s) = elim (Bool-cases (starts_with i prefix)) [
    | inl e ↦ rw e (take_prefix_after i prefix m b, take_prefix_ascend prefix m s)
    | inr n ↦ rw n tt
  ]

  pub subtree_keys_ascend :
      (m : Map Str V) (path : Str)
      → IsSorted m
      → Pairwise (λ j k. list_cmp j k ≡ Ordering.lt) (subtree_keys m path)
  unfolding subtree_keys
  subtree_keys_ascend m path s =
      let run = range_from m (below_prefix path) in
      let sorted : IsSorted run = range_from-IsSorted m (below_prefix path) s in
      let rest = take_prefix_ascend (below_prefix path) run sorted in
      elim (Bool-cases (contains_key m path)) [
        | inl e ↦ rw e (
          All-of _ _ (λ k h. ground (
            arith,
            Elem-take_prefix (below_prefix path) run sorted
                (λ i g. ground (arith, get-range_from m (below_prefix path) i)) k,
            path_first path k,
          )),
          rest,
        )
        | inr n ↦ rw n rest
      ]
