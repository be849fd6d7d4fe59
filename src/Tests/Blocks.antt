-- ===== src/Tests/Blocks.antt =====
-- The block cache: runs, and the theorems at a small store.
use mobfs.Base.{◌/◌, ◌≡◌, refl, ◌≤◌, none, some, [], ◌∷◌, arith}
use mobfs.Base.Str.{Str, codes}
use mobfs.Base.Order.{list_ord, nat_ord, pair_ord, list_cmp}
use mobfs.Base.Map.{get, insert, remove}
use mobfs.Vfs.Blocks.{
  BlockStore, get_cached, insert_block, generation, invalidate_range, invalidate_tree, evict,
  make_room, add_block, block_size,
}
use mobfs.Vfs.Blocks.Size.{total}
use mobfs.Vfs.Blocks.Valid.{add_block-IsValid, IsValid}
use mobfs.Vfs.Blocks.Room.{make_room-OldestFirst, OldestFirst}
use mobfs.Vfs.Blocks.Insert.{
  insert_block-IsValid, get_cached-insert_block, get_cached-insert_block_ne, insert_block_bounded,
}
use mobfs.Vfs.Blocks.Invalidate.{get_cached-invalidate_range}
use mobfs.Vfs.Blocks.Late.{here, next, hit, put, tree, insert_block_late}

abbrev clip : Str
clip = codes "clip.mov"

-- `BlockCache::new` never makes a cache this small; the operations do not depend on it.
abbrev small : BlockStore
small = record { blocks = []; lru = []; generations = []; tick = 0; bytes = 0; capacity = 4 }

small-IsValid : IsValid small
unfolding get
small-IsValid = record {
  linked = λ k t h. cc;
  listed = λ k t h. cc;
  past = λ k t h. cc;
  counted = unfold total in refl;
  blocks_sorted = tt;
  lru_sorted = tt;
}

abbrev one : BlockStore
one = insert_block small clip 0 (1 ∷ (2 ∷ (3 ∷ []))) 0

abbrev two : BlockStore
two = insert_block one clip 1 (4 ∷ (5 ∷ [])) 0

one-IsValid : IsValid one
one-IsValid = insert_block-IsValid small clip 0 (1 ∷ (2 ∷ (3 ∷ []))) small-IsValid 0

-- the second block makes the first one go
block_cache_evicts_lru :
    ((get_cached two clip 0).1 ≡ none) × ((get_cached two clip 1).1 ≡ some (4 ∷ (5 ∷ [])))
unfolding get_cached insert_block get insert remove evict list_cmp
block_cache_evicts_lru = (refl, refl)

insert_block-IsValid_example : IsValid two
insert_block-IsValid_example = insert_block-IsValid one clip 1 (4 ∷ (5 ∷ [])) one-IsValid 0

get_cached-insert_block_example :
    (get_cached (insert_block one clip 1 (4 ∷ (5 ∷ [])) (generation one clip)) clip 1).1
    ≡ some (4 ∷ (5 ∷ []))
unfolding insert_block get insert evict list_cmp
get_cached-insert_block_example =
    get_cached-insert_block one clip 1 (4 ∷ (5 ∷ [])) one-IsValid (omega arith)

abbrev wide : BlockStore
wide = record one { capacity = 8 }

wide-IsValid : IsValid wide
wide-IsValid = record {
  linked = one-IsValid.linked;
  listed = one-IsValid.listed;
  past = one-IsValid.past;
  counted = one-IsValid.counted;
  blocks_sorted = one-IsValid.blocks_sorted;
  lru_sorted = one-IsValid.lru_sorted;
}

get_cached-insert_block_ne_instance : (get_cached wide clip 0).1 ≡ some (1 ∷ (2 ∷ (3 ∷ [])))
unfolding get_cached insert_block get insert remove evict list_cmp
get_cached-insert_block_ne_instance =
    get_cached-insert_block_ne wide clip 1 (4 ∷ (5 ∷ [])) wide-IsValid 0 clip 0 (1 ∷ (2 ∷ (3 ∷ [])))
      (λ e. cc) refl

insert_block_bounded_example : two.bytes ≤ 4
unfolding insert_block get insert evict
insert_block_bounded_example =
    insert_block_bounded one clip 1 (4 ∷ (5 ∷ [])) one-IsValid 0 (omega arith)

make_room-OldestFirst_example :
    OldestFirst
      (add_block one (clip, 1) (4 ∷ (5 ∷ [])))
      (make_room (add_block one (clip, 1) (4 ∷ (5 ∷ []))))
make_room-OldestFirst_example =
    make_room-OldestFirst (add_block one (clip, 1) (4 ∷ (5 ∷ [])))
      (add_block-IsValid one (clip, 1) (4 ∷ (5 ∷ [])) fresh one-IsValid)
  where
    fresh : get one.blocks (clip, 1) ≡ none
    fresh = unfold insert_block get insert remove evict list_cmp in refl

get_cached-invalidate_range_example :
    (get_cached (invalidate_range one clip 10 5) clip (12 / block_size)).1 ≡ none
get_cached-invalidate_range_example =
    get_cached-invalidate_range one clip 10 5 12 (omega arith) (omega arith)

-- the block is read, another one is hit, the tree goes, the other comes back, and the block is late
insert_block_late_example :
    insert_block
      (insert_block (invalidate_tree (get_cached one clip 0).0 clip) clip 1 (8 ∷ []) 1)
      clip
      0
      (9 ∷ [])
      (generation one clip)
    ≡ insert_block (invalidate_tree (get_cached one clip 0).0 clip) clip 1 (8 ∷ []) 1
insert_block_late_example =
    insert_block_late clip (next here (hit clip 0)) tree (next here (put clip 1 (8 ∷ []) 1)) 0
      (9 ∷ [])
