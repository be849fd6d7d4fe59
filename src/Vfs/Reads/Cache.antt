-- ===== src/Vfs/Reads/Cache.antt =====
-- Fetches of src/vfs.rs keep the cached blocks of a file true to it.
use mobfs.Base.{
  ℕ, ◌+◌, ltb, ◌-◌, ◌*◌, ◌≡◌, refl, sym, ap, ◌∙◌, subst, Bool-cases, inl, inr, Option, none, some,
  [], ◌∷◌, ◌==◌, take, drop, arith,
}
use mobfs.Base.Str.{Str}
use mobfs.Base.Order.{list_ord, nat_ord, pair_ord, eqb, eqb_iff}
use mobfs.Base.Map.{Map, get, insert, remove, get-insert, get-remove}
use mobfs.Protocol.{Bytes}
use mobfs.Vfs.Blocks.{
  Block, BlockKey, BlockStore, block_size, get_cached, generation, discard, add_block, evict,
  size_of, get_block, make_room, insert_block,
}
use mobfs.Vfs.Blocks.Room.{get-discard, discard_capacity}

-- block `index` of the bytes
abbrev pub block_at : Bytes → ℕ → Block
block_at bytes index = take block_size (drop (index * block_size) bytes)

-- a block that is cached of the path is what the file has there
unfoldable pub IsTrueTo : Bytes → Str → BlockStore → Type 0
IsTrueTo bytes path s =
    (index : ℕ) (x : Block × ℕ) → get s.blocks (path, index) ≡ some x → x.0 ≡ block_at bytes index

get-evict :
    (capacity : ℕ) (lru : Map ℕ BlockKey) (blocks : Map BlockKey (Block × ℕ)) (bytes : ℕ)
    (k : BlockKey) (x : Block × ℕ)
    → get (evict capacity lru blocks bytes).1 k ≡ some x
    → get blocks k ≡ some x
unfolding evict
get-evict capacity [] blocks bytes k x h = h
get-evict capacity ((t, oldest) ∷ lru) blocks bytes k x h = elim (Bool-cases (ltb capacity bytes)) [
  | inl more ↦
      let later =
        get-evict capacity lru (remove blocks oldest) (bytes - size_of (get blocks oldest)) k x
          (rw more at h) in
      ground (arith, get-remove blocks oldest k)
  | inr enough ↦ rw enough at h
]

put-true :
    (bytes : Bytes) (path : Str) (index : ℕ) (block : Block) (t : ℕ) (m : Map BlockKey (Block × ℕ))
    → block ≡ block_at bytes index
    → ((i : ℕ) (x : Block × ℕ) → get m (path, i) ≡ some x → x.0 ≡ block_at bytes i)
    → (j : ℕ) (x : Block × ℕ) → get (insert m (path, index) (block, t)) (path, j) ≡ some x
    → x.0 ≡ block_at bytes j
put-true bytes path index block t m true_block v j x h =
    let found = sym (get-insert m (path, index) (block, t) (path, j)) ∙ h in
    elim (Bool-cases (eqb {A = BlockKey} (path, index) (path, j))) [
      | inl e ↦
          let here : index ≡ j =
            ap (λ k. k.1) ((eqb_iff {A = BlockKey} (path, index) (path, j)).0 e) in
          let same : some (block, t) ≡ some x = rw e at found in
          let first : block ≡ x.0 = cc in sym first ∙ true_block ∙ ap (block_at bytes) here
      | inr n ↦ v j x (rw n at found)
    ]

pub insert_block-IsTrueTo :
    (bytes : Bytes) (path : Str) (s : BlockStore) (index : ℕ) (g : ℕ)
    → IsTrueTo bytes path s
    → IsTrueTo bytes path (insert_block s path index (block_at bytes index) g)
unfolding insert_block make_room IsTrueTo
insert_block-IsTrueTo bytes path s index g v j x h = elim (Bool-cases (generation s path == g)) [
  | inr stale ↦ v j x (rw stale at h)
  | inl same ↦
      let there =
        get-evict s.capacity
          (add_block (discard s (path, index)) (path, index) (block_at bytes index)).lru
          (add_block (discard s (path, index)) (path, index) (block_at bytes index)).blocks
          (add_block (discard s (path, index)) (path, index) (block_at bytes index)).bytes (path, j)
          x
          (subst
            (λ c.
              get
                (evict c
                  (add_block (discard s (path, index)) (path, index) (block_at bytes index)).lru
                  (add_block (discard s (path, index)) (path, index) (block_at bytes index)).blocks
                  (add_block (discard s (path, index)) (path, index)
                    (block_at bytes index)).bytes).1
                (path, j)
              ≡ some x)
            (discard_capacity s (path, index)) (rw same at h)) in
      put-true bytes path index (block_at bytes index) _ (discard s (path, index)).blocks refl
        (λ i y e. v i y (ground (arith, get-discard s (path, index) (path, i)))) j x there
]

pub get_cached-IsTrueTo :
    (bytes : Bytes) (path : Str) (s : BlockStore) (index : ℕ)
    → IsTrueTo bytes path s
    → IsTrueTo bytes path (get_cached s path index).0
unfolding get_cached IsTrueTo
get_cached-IsTrueTo bytes path s index v = touched (get s.blocks (path, index)) refl
  where
    touched :
        (o : Option (Block × ℕ))
        → get s.blocks (path, index) ≡ o
        → (j : ℕ) (x : Block × ℕ) → get (get_block s (path, index) o).0.blocks (path, j) ≡ some x
        → x.0 ≡ block_at bytes j
    touched none e j x h = v j x h
    touched (some (block, t)) e j x h =
        put-true bytes path index block (s.tick + 1) s.blocks (v index (block, t) e) v j x h
