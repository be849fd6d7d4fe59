-- ===== src/Vfs/Readahead.antt =====
-- src/vfs.rs: `schedule_readahead`, the prefetch jobs, and `read` itself. A job is run when it is
-- queued, and the mount is not being stopped.
use mobfs.Base.{
  ℕ, zero, suc, ◌+◌, ◌-◌, ◌*◌, ◌/◌, min, max, Bool, true, false, ◌&&◌, ◌||◌, not, Option, none,
  some, List, [], ◌∷◌, ltb, leb, ◌==◌, if◌then◌else◌, length, any,
}
use mobfs.Base.Str.{Str, str_eq}
use mobfs.Base.Order.{list_ord, nat_ord, pair_ord}
use mobfs.Base.Map.{Map, get, insert, contains_key}
use mobfs.Snapshot.{EntryMeta}
use mobfs.Protocol.{Bytes}
use mobfs.Paths.{is_sidecar}
use mobfs.Vfs.Errno.{enoent, eisdir}
use mobfs.Vfs.Blocks.{BlockKey, BlockStore, block_size}
use mobfs.Vfs.State.{Vm, RemoteClient, ReadAhead, Upload, ◌>>=◌, ◌>>◌, pure, fail, gets, modify}
use mobfs.Vfs.Names.{path_of, or_else}
use mobfs.Vfs.Uploads.{flush_matching}
use mobfs.Vfs.Reads.{
  prefetch_batch_blocks, ReadData, owned, slice, finish_read, if_last, missing_run, block_count,
  fetch_run, read_blocks,
}

-- a.abs_diff(b)
abbrev abs_diff : ℕ → ℕ → ℕ
abs_diff a b = (a - b) + (b - a)

-- value.clamp(lo, hi)
abbrev clamp : ℕ → ℕ → ℕ → ℕ
clamp lo hi value = if ltb value lo then lo else if ltb hi value then hi else value

-- how a read moves the window: it grows as long as the reads follow on
unfoldable pub advance : ℕ → ℕ → ℕ → ReadAhead → ReadAhead
advance blocks offset size state =
    let near = leb (abs_diff offset state.next_offset) (2 * block_size) in
    record {
      next_offset = offset + size;
      window = if near then clamp 2 blocks (state.window * 2) else 1;
      epoch = if near then state.epoch else state.epoch + 1;
    }

-- the runs of blocks to prefetch, from `first` to the horizon; `fuel` is the number of blocks
unfoldable pub runs : ℕ → ℕ → Option ℕ → ℕ → ℕ → List (ℕ × ℕ)
runs zero window last horizon first = []
runs (suc fuel) window last horizon first =
    let batch_end = (first / prefetch_batch_blocks + 1) * prefetch_batch_blocks in
    let end = if leb prefetch_batch_blocks window then batch_end else min batch_end (horizon + 1) in
    let stop = if_last end last in
    let rest = runs fuel window last horizon stop in
    if leb first horizon then (first, stop) ∷ rest else []

abbrev within : ℕ → Option ℕ → ℕ
within horizon none = horizon
within horizon (some last) = min horizon last

abbrev key_eq : BlockKey → BlockKey → Bool
key_eq a b = str_eq a.0 b.0 && a.1 == b.1

abbrev last_block_of : Option ℕ → Option ℕ
last_block_of none = none
last_block_of (some len) = some ((len - 1) / block_size)

abbrev is_epoch : ℕ → Option ReadAhead → Bool
is_epoch epoch none = false
is_epoch epoch (some state) = state.epoch == epoch

-- are all of the `count` blocks from `first` on cached?
unfoldable pub all_cached : BlockStore → Str → ℕ → ℕ → Bool
all_cached s path first zero = true
all_cached s path first (suc count) =
    contains_key s.blocks (path, first) && all_cached s path (first + 1) count

module _ {W : Type 0} (client : RemoteClient W) where
  -- The job of a run: the stretches of it that are not cached are fetched, one after the other.
  unfoldable pub prefetch : ℕ → Str → ℕ → ℕ → Vm W Unit
  unfolding fetch_run missing_run
  prefetch zero path index end = pure tt
  prefetch (suc fuel) path index end = do
    missing ← gets (λ s. missing_run s.blocks path index (end - index))
    if ltb index end && not (missing == 0) then fetch_run client path index missing else pure tt
    if ltb index end then prefetch fuel path (index + max missing 1) end else pure tt

  -- A run is queued if a block of it is missing and it is not queued already. Its job is done if the
  -- epoch is still that of the read, and takes it off the queue.
  unfoldable pub queue_run : ℕ → Str → ℕ → ℕ × ℕ → Vm W Unit
  unfolding prefetch all_cached
  queue_run i path epoch (first, end) = do
    cached ← gets (λ s. all_cached s.blocks path first (end - first))
    queued ← gets (λ s. any (key_eq (path, first)) s.prefetch_queued)
    current ← gets (λ s. get s.read_ahead i)
    if cached || (queued || not (is_epoch epoch current))
        then pure tt
        else prefetch (end - first) path first end

  unfoldable pub queue_runs : ℕ → Str → ℕ → List (ℕ × ℕ) → Vm W Unit
  unfolding queue_run
  queue_runs i path epoch [] = pure tt
  queue_runs i path epoch (run ∷ rest) = do queue_run i path epoch run; queue_runs i path epoch rest

  abbrev put_state : ℕ → ReadAhead → Vm W Unit
  put_state i state = modify (λ s. record s { read_ahead = insert s.read_ahead i state })

  abbrev no_reads : ReadAhead
  no_reads = record { next_offset = 0; window = 0; epoch = 0 }

  unfoldable pub schedule_readahead : ℕ → Str → ℕ → ℕ → Option ℕ → Vm W Unit
  unfolding advance runs queue_runs
  schedule_readahead i path offset size file_size = do
    blocks ← gets (λ s. s.readahead_blocks)
    before ← gets (λ s. or_else no_reads (get s.read_ahead i))
    let state = advance blocks offset size before
    let first = (offset + (size - 1)) / block_size + 1
    let last = last_block_of file_size
    let horizon = within (first - 1 + state.window) last
    if blocks == 0 then pure tt else do
      put_state i state
      queue_runs i path state.epoch (runs (horizon + 1 - first) state.window last horizon first)

  abbrev is_sequential : Option ReadAhead → Bool
  is_sequential none = false
  is_sequential (some state) = leb 2 state.window

  abbrev is_past : ℕ → Option ℕ → Bool
  is_past offset none = false
  is_past offset (some len) = leb len offset

  abbrev size_in : Option EntryMeta → Option ℕ
  size_in none = none
  size_in (some meta) = some meta.size

  abbrev read_stored : ℕ → ℕ → Option (EntryMeta × Bytes) → Vm W ReadData
  read_stored offset size none = fail enoent
  read_stored offset size (some (meta, bytes)) =
      let start = min offset (length bytes) in
      pure (owned (slice start (min (start + size) (length bytes)) bytes))

  unfoldable pub read : (choose : Map ℕ Upload → ℕ) → ℕ → ℕ → ℕ → Vm W ReadData
  unfolding path_of flush_matching schedule_readahead read_blocks
  read choose i offset size = do
    path ← path_of i
    stored ← gets (λ s. get s.sidecars path)
    if str_eq path []
        then fail eisdir
        else if is_sidecar path
        then read_stored offset size stored
        else do
          flush_matching client choose path
          file_size ← gets (λ s. size_in (get s.metas path))
          if is_past offset file_size then pure (owned []) else do
            schedule_readahead i path offset size file_size
            sequential ← gets (λ s. is_sequential (get s.read_ahead i))
            let end = offset + size
            g ←
                read_blocks client (block_count offset end) path offset end sequential
                  (last_block_of file_size) (offset / block_size)
                  (record { out = []; single = none })
            pure (finish_read g.single g.out)
