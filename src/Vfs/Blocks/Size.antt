-- ===== src/Vfs/Blocks/Size.antt =====
-- The bytes that a map of blocks holds.
use mobfs.Base.{ℕ, ◌+◌, ◌≡◌, refl, [], ◌∷◌, arith, Ordering, length}
use mobfs.Base.Order.{Ord}
use mobfs.Base.Map.{remove_absent, Map, get, insert, remove, IsSorted, Below-get, Below-trans}
use mobfs.Vfs.Blocks.{Block, size_of}

module _ {K : Type 0} where
  unfoldable pub total : Map K (Block × ℕ) → ℕ
  total [] = 0
  total ((_, (d, _)) ∷ m) = length d + total m

module _ {K : Type 0} ⦃o : Ord K⦄ where
  pub total-remove :
      (m : Map K (Block × ℕ)) (k : K)
      → IsSorted m
      → total (remove m k) + size_of (get m k) ≡ total m
  unfolding total remove get
  total-remove [] k s = refl
  total-remove ((j, (d, t)) ∷ m) k (b, s) =
      ground (arith, total-remove m k s, o.cmp_eq j k, Below-get j m b, remove_absent m k)

  pub total-insert :
      (m : Map K (Block × ℕ)) (k : K) (v : Block × ℕ)
      → IsSorted m
      → total (insert m k v) + size_of (get m k) ≡ length v.0 + total m
  unfolding total insert get
  total-insert [] k (e, u) s = omega arith
  total-insert ((j, (d, t)) ∷ m) k (e, u) (b, s) = ground (
    arith,
    total-insert m k (e, u) s,
    o.cmp_eq j k,
    o.cmp_eq k j,
    λ (l : o.cmp k j ≡ Ordering.lt). Below-get k m (Below-trans k j m l b),
  )
