-- ===== src/Vfs/Reads.antt =====
-- src/vfs.rs: how file contents are read: `into_blocks`, `fetch` and `fetch_run` of the block cache,
-- and the loop of `read`. No other read is under way meanwhile, so each fetch is the
-- leader of its block, and what is prefetched is fetched at once.
pub mod IntoBlocks
pub mod Cache
pub mod Slices
pub mod Loop
use mobfs.Base.{
  ℕ, zero, suc, ◌+◌, ◌-◌, ◌*◌, ◌/◌, min, max, Bool, true, false, ◌&&◌, not, Option, none, some,
  List, [], ◌∷◌, ◌++◌, ltb, leb, ◌==◌, if◌then◌else◌, length, take, drop,
}
use mobfs.Base.Str.{Str}
use mobfs.Base.Order.{list_ord, nat_ord, pair_ord}
use mobfs.Base.Map.{contains_key, is_some}
use mobfs.Error as Error
use mobfs.Error.{Result}
use mobfs.Protocol.{Bytes}
use mobfs.Vfs.Blocks.{Block, BlockStore, block_size, get_cached, generation, insert_block}
use mobfs.Vfs.Errno.{errno_for}
use mobfs.Vfs.State.{Vm, RemoteClient, ◌>>=◌, ◌>>◌, pure, fail, gets, modify, call}

unfoldable pub concat : List Bytes → Bytes
concat [] = []
concat (frame ∷ frames) = frame ++ concat frames

-- All frames but the last are whole blocks, and the last is no longer than one.
unfoldable pub is_aligned : ℕ → List Bytes → Bool
is_aligned size [] = true
is_aligned size (frame ∷ []) = leb (length frame) size
is_aligned size (frame ∷ (next ∷ frames)) = length frame == size && is_aligned size (next ∷ frames)

-- `chunks`: pieces of `size` bytes, the last of what is left; `fuel` is the number of bytes
unfoldable pub chunks : ℕ → ℕ → Bytes → List Bytes
chunks zero size bytes = []
chunks (suc fuel) size [] = []
chunks (suc fuel) size (b ∷ bytes) =
    take size (b ∷ bytes) ∷ chunks fuel size (drop size (b ∷ bytes))

unfoldable pub into_blocks : List Bytes → List Block
unfolding is_aligned concat chunks
into_blocks frames =
    let bytes = concat frames in
    if is_aligned block_size frames then frames else chunks (length bytes) block_size bytes

abbrev pub first_or_empty : List Block → Block
first_or_empty [] = []
first_or_empty (block ∷ blocks) = block

unfoldable pub insert_run : Str → ℕ → List Block → ℕ → BlockStore → BlockStore
unfolding insert_block
insert_run path index [] read_generation s = s
insert_run path index (block ∷ blocks) read_generation s =
    insert_run path (index + 1) blocks read_generation
      (insert_block s path index block read_generation)

-- how many blocks from `first` on are not cached, `count` at most
unfoldable pub missing_run : BlockStore → Str → ℕ → ℕ → ℕ
missing_run s path first zero = 0
missing_run s path first (suc count) =
    let rest = missing_run s path (first + 1) count in
    if contains_key s.blocks (path, first) then 0 else rest + 1

abbrev pub prefetch_batch_blocks : ℕ
prefetch_batch_blocks = 8

-- what `read` hands out: bytes of its own, or a part of a cached block
pub data ReadData : Type 0 where
  owned : Bytes → ReadData
  part : Block → ℕ → ℕ → ReadData

abbrev pub slice : ℕ → ℕ → Bytes → Bytes
slice from to bytes = take (to - from) (drop from bytes)

abbrev pub read_bytes : ReadData → Bytes
read_bytes (owned bytes) = bytes
read_bytes (part block from to) = slice from to block

-- What has been read: `single` is the one block met so far, as long as it is the only one.
pub record Gathered : Type 0 where
  pub out : Bytes
  pub single : Option (Block × ℕ × ℕ)

abbrev is_nil {ℓ} : {A : Type ℓ} → List A → Bool
is_nil [] = true
is_nil (x ∷ xs) = false

-- one more part of a block: the first stays where it is, then the parts are put together
abbrev pub gather : Bytes → Option (Block × ℕ × ℕ) → Block → ℕ → ℕ → Gathered
gather [] none block from to = record { out = []; single = some (block, from, to) }
gather (b ∷ out) none block from to = record {
  out = (b ∷ out) ++ slice from to block;
  single = none;
}
gather out (some (first, first_from, first_to)) block from to = record {
  out = out ++ (slice first_from first_to first ++ slice from to block);
  single = none;
}

abbrev pub finish_read : Option (Block × ℕ × ℕ) → Bytes → ReadData
finish_read none out = owned out
finish_read (some (block, from, to)) out = part block from to

-- the part of block `index` that lies between `offset` and `end`
abbrev pub add_block_part : ℕ → ℕ → ℕ → Block → Gathered → Gathered
add_block_part offset end index block g =
    let start = index * block_size in
    let from = max offset start - start in
    let to = min (min end (start + block_size) - start) (length block) in
    if ltb from to then gather g.out g.single block from to else g

-- how many blocks the loop of `read` looks at, at most
abbrev pub block_count : ℕ → ℕ → ℕ
block_count offset end = (end - 1) / block_size + 1 - offset / block_size

abbrev pub nothing_yet : Gathered → Bool
nothing_yet g = is_nil g.out && not (is_some g.single)

abbrev pub if_last : ℕ → Option ℕ → ℕ
if_last end none = end
if_last end (some last) = min end (last + 1)

module _ {W : Type 0} (client : RemoteClient W) where
  abbrev store_first : Str → ℕ → ℕ → Result (List Bytes × Bool) → Vm W (Result Block)
  store_first path index read_generation (Error.err e) = pure (Error.err e)
  store_first path index read_generation (Error.ok (frames, eof)) = do
    let block = first_or_empty (into_blocks frames)
    modify (λ s. record s { blocks = insert_block s.blocks path index block read_generation })
    pure (Error.ok block)

  abbrev fetch_missing : Str → ℕ → Option Block → Vm W (Result Block)
  fetch_missing path index (some block) = pure (Error.ok block)
  fetch_missing path index none = do
    read_generation ← gets (λ s. generation s.blocks path)
    answer ← call (client.read_range path (index * block_size) block_size)
    store_first path index read_generation answer

  unfoldable pub fetch : Str → ℕ → Vm W (Result Block)
  unfolding into_blocks insert_block get_cached
  fetch path index = λ s.
      let (blocks, cached) = get_cached s.blocks path index in
      fetch_missing path index cached (record s { blocks = blocks })

  abbrev store_run : Str → ℕ → ℕ → Result (List Bytes × Bool) → Vm W Unit
  store_run path first read_generation (Error.err e) = pure tt
  store_run path first read_generation (Error.ok (frames, eof)) = modify (λ s. record s {
    blocks = insert_run path first (into_blocks frames) read_generation s.blocks;
  })

  unfoldable pub fetch_run : Str → ℕ → ℕ → Vm W Unit
  unfolding missing_run into_blocks insert_run
  fetch_run path first count = do
    blocks ← gets (λ s. missing_run s.blocks path first count)
    read_generation ← gets (λ s. generation s.blocks path)
    if blocks == 0 then pure tt else do
      answer ← call (client.read_range path (first * block_size) (blocks * block_size))
      store_run path first read_generation answer

  -- a sequential read fetches up to the end of the batch, or of the file
  unfoldable pub fetch_batch : Str → ℕ → Option ℕ → Vm W Unit
  unfolding fetch_run
  fetch_batch path index last_block =
      let batch_end = (index / prefetch_batch_blocks + 1) * prefetch_batch_blocks in
      let batch_end = if_last batch_end last_block in
      fetch_run path index (max (batch_end - index) 1)

  abbrev is_short : Block → Bool
  is_short block = ltb (length block) block_size

  -- how the loop of `read` goes on after a fetch
  abbrev take_block :
      ℕ → ℕ → ℕ → Gathered → (Gathered → Vm W Gathered) → Result Block → Vm W Gathered
  take_block offset end index g rest (Error.err e) =
      if nothing_yet g then fail (errno_for e) else pure g
  take_block offset end index g rest (Error.ok block) =
      let more = add_block_part offset end index block g in
      if is_short block then pure more else rest more

  unfoldable pub read_blocks : ℕ → Str → ℕ → ℕ → Bool → Option ℕ → ℕ → Gathered → Vm W Gathered
  unfolding fetch fetch_batch
  read_blocks zero path offset end sequential last_block index g = pure g
  read_blocks (suc count) path offset end sequential last_block index g = do
    cached ← gets (λ s. contains_key s.blocks.blocks (path, index))
    if sequential && not cached then fetch_batch path index last_block else pure tt
    block ← fetch path index
    take_block offset end index g
        (read_blocks count path offset end sequential last_block (index + 1)) block
