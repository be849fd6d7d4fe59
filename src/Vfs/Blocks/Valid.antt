-- ===== src/Vfs/Blocks/Valid.antt =====
-- The two tables of a block store and its byte count stay in step.
use mobfs.Base.{ℕ, ◌+◌, ◌≤◌, ◌≡◌, refl, inl, inr, none, some, arith, Option-cases}
use mobfs.Base.Str.{Str}
use mobfs.Base.Order.{list_ord, nat_ord, pair_ord, pair_cmp_eq}
use mobfs.Base.Map.{get, remove, get-insert, get-remove, IsSorted, insert-IsSorted, remove-IsSorted}
use mobfs.Vfs.Blocks.{Block, BlockKey, BlockStore, new, get_cached, discard, add_block, tick_of}
use mobfs.Vfs.Blocks.Size.{total, total-insert, total-remove}

pub record IsValid (s : BlockStore) : Type 0 where
  -- the ticks of the blocks are the keys of `lru`
  pub linked : (k : BlockKey) (t : ℕ) → tick_of (get s.blocks k) ≡ some t → get s.lru t ≡ some k
  pub listed : (k : BlockKey) (t : ℕ) → get s.lru t ≡ some k → tick_of (get s.blocks k) ≡ some t
  -- no tick lies ahead
  pub past : (k : BlockKey) (t : ℕ) → get s.lru t ≡ some k → t ≤ s.tick
  -- the byte count is the blocks' sizes
  pub counted : s.bytes ≡ total s.blocks
  pub blocks_sorted : IsSorted s.blocks
  pub lru_sorted : IsSorted s.lru

pub new-IsValid : (c : ℕ) → IsValid (new c)
unfolding new get total
new-IsValid c = record {
  linked = λ k t h. cc;
  listed = λ k t h. cc;
  past = λ k t h. cc;
  counted = refl;
  blocks_sorted = tt;
  lru_sorted = tt;
}

pub get_cached-IsValid :
    (s : BlockStore) (p : Str) (i : ℕ) → IsValid s → IsValid (get_cached s p i).0
unfolding get_cached
get_cached-IsValid s p i v = elim (Option-cases (get s.blocks (p, i))) [
  | inl e ↦ rw e v
  | inr ((d, old), e) ↦ rw e (record {
    linked = λ k t h. ground (
      arith,
      get-insert s.blocks (p, i) (d, s.tick + 1) k,
      get-insert (remove s.lru old) (s.tick + 1) (p, i) t,
      get-remove s.lru old t,
      pair_cmp_eq (p, i) k,
      v.linked k t,
      v.linked (p, i) old,
      v.past k t,
    );
    listed = λ k t h. ground (
      arith,
      get-insert s.blocks (p, i) (d, s.tick + 1) k,
      get-insert (remove s.lru old) (s.tick + 1) (p, i) t,
      get-remove s.lru old t,
      pair_cmp_eq (p, i) k,
      v.listed k t,
      v.linked (p, i) old,
    );
    past = λ k t h. ground (
      arith,
      get-insert (remove s.lru old) (s.tick + 1) (p, i) t,
      get-remove s.lru old t,
      v.past k t,
    );
    counted =
        ground (arith, total-insert s.blocks (p, i) (d, s.tick + 1) v.blocks_sorted, v.counted);
    blocks_sorted = insert-IsSorted s.blocks (p, i) (d, s.tick + 1) v.blocks_sorted;
    lru_sorted =
        insert-IsSorted (remove s.lru old) (s.tick + 1) (p, i)
          (remove-IsSorted s.lru old v.lru_sorted);
  })
]

pub discard-IsValid : (s : BlockStore) (k : BlockKey) → IsValid s → IsValid (discard s k)
unfolding discard
discard-IsValid s j v = elim (Option-cases (get s.blocks j)) [
  | inl e ↦ rw e v
  | inr ((d, old), e) ↦ rw e (record {
    linked = λ k t h. ground (
      arith,
      get-remove s.blocks j k,
      get-remove s.lru old t,
      pair_cmp_eq j k,
      v.linked k t,
      v.linked j old,
    );
    listed = λ k t h.
        ground
          (arith, get-remove s.blocks j k, get-remove s.lru old t, pair_cmp_eq j k, v.listed k t);
    past = λ k t h. ground (arith, get-remove s.lru old t, v.past k t);
    counted = ground (arith, total-remove s.blocks j v.blocks_sorted, v.counted);
    blocks_sorted = remove-IsSorted s.blocks j v.blocks_sorted;
    lru_sorted = remove-IsSorted s.lru old v.lru_sorted;
  })
]

pub add_block-IsValid :
    (s : BlockStore) (j : BlockKey) (d : Block)
    → get s.blocks j ≡ none
    → IsValid s
    → IsValid (add_block s j d)
unfolding add_block
add_block-IsValid s j d e v = record {
  linked = λ k t h. ground (
    arith,
    get-insert s.blocks j (d, s.tick + 1) k,
    get-insert s.lru (s.tick + 1) j t,
    pair_cmp_eq j k,
    v.linked k t,
    v.past k t,
  );
  listed = λ k t h. ground (
    arith,
    get-insert s.blocks j (d, s.tick + 1) k,
    get-insert s.lru (s.tick + 1) j t,
    pair_cmp_eq j k,
    v.listed k t,
  );
  past = λ k t h. ground (arith, get-insert s.lru (s.tick + 1) j t, v.past k t);
  counted = ground (arith, total-insert s.blocks j (d, s.tick + 1) v.blocks_sorted, v.counted);
  blocks_sorted = insert-IsSorted s.blocks j (d, s.tick + 1) v.blocks_sorted;
  lru_sorted = insert-IsSorted s.lru (s.tick + 1) j v.lru_sorted;
}
