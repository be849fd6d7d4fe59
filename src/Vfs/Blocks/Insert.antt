-- ===== src/Vfs/Blocks/Insert.antt =====
-- `insert`: the new block is there, the byte count is within the capacity, other blocks are as before.
use mobfs.Base.{
  ℕ, ◌+◌, ◌≤◌, ◌≡◌, sym, subst, ◌∙◌, ◌≢◌, inl, inr, true, Option, none, some, ◌==◌, arith,
  Option-cases, Bool-cases, length,
}
use mobfs.Base.Str.{Str}
use mobfs.Base.Order.{list_ord, nat_ord, pair_ord, pair_cmp_eq}
use mobfs.Base.Map.{get, get-insert}
use mobfs.Vfs.Blocks.{
  Block, BlockKey, BlockStore, discard, add_block, make_room, get_cached, insert_block, generation,
}
use mobfs.Vfs.Blocks.Valid.{IsValid, discard-IsValid, add_block-IsValid}
use mobfs.Vfs.Blocks.Room.{
  discard_capacity, get-discard, make_room-IsValid, make_room_bounded, get-make_room,
}
use mobfs.Vfs.Blocks.Newest.{make_room-KeepsNewest}

abbrev pub block_of : Option (Block × ℕ) → Option Block
block_of none = none
block_of (some (d, _)) = some d

pub get_cached-blocks :
    (s : BlockStore) (p : Str) (i : ℕ) → (get_cached s p i).1 ≡ block_of (get s.blocks (p, i))
unfolding get_cached
get_cached-blocks s p i = ground arith

module _ (s : BlockStore) (path : Str) (index : ℕ) (d : Block) (v : IsValid s) where
  abbrev key : BlockKey
  key = (path, index)

  abbrev added : BlockStore
  added = add_block (discard s key) key d

  added-IsValid : IsValid added
  added-IsValid =
      add_block-IsValid (discard s key) key d
        (get-discard s key key ∙ ground (arith, pair_cmp_eq key key)) (discard-IsValid s key v)

  -- An insertion keeps the tables and the byte count in step, whatever generation it comes with.
  pub insert_block-IsValid : (g : ℕ) → IsValid (insert_block s path index d g)
  unfolding insert_block
  insert_block-IsValid g = elim (Bool-cases (generation s path == g)) [
    | inl e ↦ rw e (make_room-IsValid added added-IsValid)
    | inr e ↦ rw e v
  ]

  added_found : get added.blocks key ≡ some (d, added.tick)
  unfolding add_block
  added_found =
      get-insert (discard s key).blocks key (d, (discard s key).tick + 1) key
      ∙ ground (arith, pair_cmp_eq key key)

  added_capacity : added.capacity ≡ s.capacity
  unfolding add_block
  added_capacity = discard_capacity s key

  -- A block that is read in time and fits the cache is there after it was inserted.
  pub get_cached-insert_block :
      length d ≤ s.capacity
      → (get_cached (insert_block s path index d (generation s path)) path index).1 ≡ some d
  unfolding insert_block get_cached
  get_cached-insert_block fits =
      let stays =
        make_room-KeepsNewest added added-IsValid key d added.tick added_found
          (λ j u h. added-IsValid.past j u h) (rw added_capacity fits) in
      let in_time : (generation s path == generation s path) ≡ true = ground arith in
      rw get_cached-blocks (unfold insert_block in rw (in_time, stays))

  other_added :
      (p : Str) (i : ℕ) (y : Block × ℕ)
      → key ≢ (p, i)
      → get added.blocks (p, i) ≡ some y
      → get s.blocks (p, i) ≡ some y
  unfolding add_block
  other_added p i y ne h = ground (
    arith,
    get-insert (discard s key).blocks key (d, (discard s key).tick + 1) (p, i),
    get-discard s key (p, i),
    pair_cmp_eq key (p, i),
  )

  other_block :
      (g : ℕ) (p : Str) (i : ℕ) (x : Block)
      → key ≢ (p, i)
      → block_of (get (insert_block s path index d g).blocks (p, i)) ≡ some x
      → block_of (get s.blocks (p, i)) ≡ some x
  unfolding insert_block
  other_block g p i x ne h = elim (Bool-cases (generation s path == g)) [
    | inl e ↦ elim (Option-cases (get (make_room added).blocks (p, i))) [
      | inl n ↦ absurd (ground (arith, n))
      | inr (y, f) ↦
          rw (other_added p i y ne (get-make_room added added-IsValid (p, i) y f))
            (ground (arith, f))
    ]
    | inr e ↦ rw e at h
  ]

  -- An insertion changes no other block: what the cache then returns for another key it returned
  -- before.
  pub get_cached-insert_block_ne :
      (g : ℕ) (p : Str) (i : ℕ) (x : Block)
      → key ≢ (p, i)
      → (get_cached (insert_block s path index d g) p i).1 ≡ some x
      → (get_cached s p i).1 ≡ some x
  get_cached-insert_block_ne g p i x ne h =
      get_cached-blocks s p i
      ∙ other_block g p i x ne (sym (get_cached-blocks (insert_block s path index d g) p i) ∙ h)

  -- The byte count never passes the capacity.
  pub insert_block_bounded :
      (g : ℕ) → s.bytes ≤ s.capacity → (insert_block s path index d g).bytes ≤ s.capacity
  unfolding insert_block
  insert_block_bounded g fits = elim (Bool-cases (generation s path == g)) [
    | inl e ↦ rw e (
        subst (λ c. (make_room added).bytes ≤ c) added_capacity
          (make_room_bounded added added-IsValid))
    | inr e ↦ rw e fits
  ]
