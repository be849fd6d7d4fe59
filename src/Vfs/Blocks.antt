-- ===== src/Vfs/Blocks.antt =====
-- `BlockStore` and `BlockCache` of src/vfs.rs: file blocks by path and index, the least recently
-- used one first to go. One lock guards the store, so each operation is one step on it. Sums of
-- u64 are taken not to overflow; `saturating_sub` is `-` on ℕ.
pub mod Size
pub mod Valid
pub mod Room
pub mod Newest
pub mod Insert
pub mod Invalidate
pub mod Tree
pub mod Late
use mobfs.Base.{
  ℕ, ◌+◌, ◌-◌, ◌*◌, ◌/◌, ◌^◌, max, Bool, true, false, ◌&&◌, ◌||◌, not, Option, none, some, List, [],
  ◌∷◌, ◌++◌, ltb, leb, ◌==◌, if◌then◌else◌, length, any, filter,
}
use mobfs.Base.Str.{Str, str_eq, starts_with}
use mobfs.Base.Order.{list_ord, nat_ord, pair_ord}
use mobfs.Base.Map.{Map, get, insert, remove, contains_key, keys}
use mobfs.Base.Elem.{to_set}
use mobfs.Paths.{slash}

abbrev pub block_size : ℕ
block_size = 1024 * 1024

abbrev pub BlockKey : Type 0
BlockKey = Str × ℕ

-- the bytes of a block
abbrev pub Block : Type 0
Block = List ℕ

pub record BlockStore : Type 0 where
  pub blocks : Map BlockKey (Block × ℕ)
  pub lru : Map ℕ BlockKey
  pub generations : Map Str ℕ
  pub tick : ℕ
  pub bytes : ℕ
  pub capacity : ℕ

-- BlockCache::new
unfoldable pub new : ℕ → BlockStore
new capacity = record {
  blocks = [];
  lru = [];
  generations = [];
  tick = 0;
  bytes = 0;
  capacity = max capacity (block_size * 4);
}

abbrev pub get_block : BlockStore → BlockKey → Option (Block × ℕ) → BlockStore × Option Block
get_block s key none = (s, none)
get_block s key (some (block, old_tick)) =
    let tick = s.tick + 1 in
    (
      record s {
        tick = tick;
        lru = insert (remove s.lru old_tick) tick key;
        blocks = insert s.blocks key (block, tick);
      },
      some block,
    )

-- BlockCache::get: a hit makes the block the most recently used
unfoldable pub get_cached : BlockStore → Str → ℕ → BlockStore × Option Block
get_cached s path index = get_block s (path, index) (get s.blocks (path, index))

abbrev or_zero : Option ℕ → ℕ
or_zero none = 0
or_zero (some n) = n

unfoldable pub generation : BlockStore → Str → ℕ
generation s path = or_zero (get s.generations path)

-- what `if let Some((old, tick)) = store.blocks.remove(&key)` does with the block
abbrev pub drop_block : BlockStore → BlockKey → Option (Block × ℕ) → BlockStore
drop_block s key none = s
drop_block s key (some (old, tick)) = record s {
  blocks = remove s.blocks key;
  bytes = s.bytes - length old;
  lru = remove s.lru tick;
}

unfoldable pub discard : BlockStore → BlockKey → BlockStore
discard s key = drop_block s key (get s.blocks key)

abbrev pub tick_of : Option (Block × ℕ) → Option ℕ
tick_of none = none
tick_of (some (_, t)) = some t

abbrev pub size_of : Option (Block × ℕ) → ℕ
size_of none = 0
size_of (some (block, _)) = length block

-- The loop of `insert` that makes room: `lru.pop_first()` takes the head of the ordered map.
unfoldable pub evict :
    ℕ
    → Map ℕ BlockKey
    → Map BlockKey (Block × ℕ)
    → ℕ
    → Map ℕ BlockKey × Map BlockKey (Block × ℕ) × ℕ
evict capacity [] blocks bytes = ([], blocks, bytes)
evict capacity ((t, oldest) ∷ lru) blocks bytes =
    let rest = evict capacity lru (remove blocks oldest) (bytes - size_of (get blocks oldest)) in
    if ltb capacity bytes then rest else ((t, oldest) ∷ lru, blocks, bytes)

-- the block as `insert` adds it, before room is made
unfoldable pub add_block : BlockStore → BlockKey → Block → BlockStore
add_block s key block =
    let tick = s.tick + 1 in
    record s {
      tick = tick;
      bytes = s.bytes + length block;
      lru = insert s.lru tick key;
      blocks = insert s.blocks key (block, tick);
    }

unfoldable pub make_room : BlockStore → BlockStore
unfolding evict
make_room s =
    let (lru, blocks, bytes) = evict s.capacity s.lru s.blocks s.bytes in
    record s { lru = lru; blocks = blocks; bytes = bytes }

-- BlockCache::insert: a block that was read before its file's last invalidation is dropped
unfoldable pub insert_block : BlockStore → Str → ℕ → Block → ℕ → BlockStore
unfolding generation discard add_block make_room
insert_block s path index block read_generation =
    if not (generation s path == read_generation)
    then s
    else make_room (add_block (discard s (path, index)) (path, index) block)

unfoldable pub bump : Map Str ℕ → List Str → Map Str ℕ
bump generations [] = generations
bump generations (path ∷ paths) =
    bump (insert generations path (or_zero (get generations path) + 1)) paths

unfoldable pub discard_all : BlockStore → List BlockKey → BlockStore
unfolding discard
discard_all s [] = s
discard_all s (key ∷ keys) = discard_all (discard s key) keys

abbrev pub doomed : List Str → (BlockKey → Bool) → BlockKey → Bool
doomed paths keep key = any (λ p. str_eq p key.0) paths && not (keep key)

-- BlockCache::invalidate_where, for the distinct paths of a set
unfoldable pub invalidate_where : BlockStore → List Str → (BlockKey → Bool) → BlockStore
unfolding bump discard_all
invalidate_where s paths keep =
    discard_all (record s { generations = bump s.generations paths })
      (filter (doomed paths keep) (keys s.blocks))

unfoldable pub invalidate_path : BlockStore → Str → BlockStore
invalidate_path s path = invalidate_where s (path ∷ []) (λ _. false)

unfoldable pub invalidate_range : BlockStore → Str → ℕ → ℕ → BlockStore
invalidate_range s path offset len =
    let first = offset / block_size in
    let last = (offset + max len 1 - 1) / block_size in
    invalidate_where s (path ∷ []) (λ key. ltb key.1 first || ltb last key.1)

-- the paths of `invalidate_tree`: cached ones in the subtree, and the path itself
key_paths : List BlockKey → List Str
key_paths [] = []
key_paths ((p, _) ∷ ks) = p ∷ key_paths ks

abbrev pub under : Str → Str → Bool
under path cached = str_eq cached path || starts_with cached (path ++ (slash ∷ []))

unfoldable pub invalidate_tree : BlockStore → Str → BlockStore
unfolding key_paths
invalidate_tree s path =
    invalidate_where s
      (keys (to_set (filter (under path) (key_paths (keys s.blocks)) ++ (path ∷ [])))) (λ _. false)

unfoldable pub clear : BlockStore → BlockStore
unfolding key_paths bump
clear s = record s {
  generations = bump s.generations (keys (to_set (key_paths (keys s.blocks))));
  blocks = [];
  lru = [];
  bytes = 0;
}
