-- ===== src/Vfs/Feed.antt =====
-- src/vfs.rs: the change feed of a mount: `apply_change`, `invalidate_all` and the rounds of
-- `run_change_feed`. What the kernel is told to forget is returned. The pauses after failures are
-- left out.
pub mod Replaced
use mobfs.Base.{
  ℕ, ◌+◌, ◌-◌, ◌^◌, Bool, false, ◌||◌, Option, none, some, List, [], ◌∷◌, ◌++◌, ltb, min,
  if◌then◌else◌,
}
use mobfs.Base.Str.{Str, str_eq}
use mobfs.Base.Int.{ℤ, pos, negsuc}
use mobfs.Base.Order.{list_ord, nat_ord}
use mobfs.Base.Map.{get, remove, keys, values, retain, is_some}
use mobfs.Base.Elem.{to_set}
use mobfs.Error as Error
use mobfs.Error.{Result}
use mobfs.Protocol.{ChangeEvent, ChangeKind, write, metadata, replaced}
use mobfs.Paths.{split_parent}
use mobfs.Vfs.Inodes as Inodes
use mobfs.Vfs.Inodes.{subtree_keys}
use mobfs.Vfs.Blocks.{invalidate_range, invalidate_tree, clear}
use mobfs.Vfs.State.{Vfs, RemoteClient, ChangeBatch, PendingWrite}
use mobfs.Vfs.Names.{ignored, has_pending_write, bump_version, remove_below}

pub data Invalidation : Type 0 where
  inode : ℕ → ℤ → ℤ → Invalidation
  entry : ℕ → Str → Invalidation

-- `as i64`
abbrev pub as_i64 : ℕ → ℤ
as_i64 n = if ltb n (2 ^ 63) then pos n else negsuc (2 ^ 64 - n - 1)

abbrev for_ino : Option ℕ → ℤ → ℤ → List Invalidation
for_ino none offset len = []
for_ino (some i) offset len = inode i offset len ∷ []

abbrev for_entry : Option ℕ → Str → List Invalidation
for_entry none name = []
for_entry (some parent) name = entry parent name ∷ []

abbrev cons_number : Option ℕ → List ℕ → List ℕ
cons_number none is = is
cons_number (some i) is = i ∷ is

-- the numbers of the paths that have one
unfoldable pub numbers : Inodes.Inodes → List Str → List ℕ
numbers inodes [] = []
numbers inodes (path ∷ paths) = cons_number (get inodes.by_path path) (numbers inodes paths)

unfoldable pub pending_paths : List PendingWrite → List Str
pending_paths [] = []
pending_paths (pending ∷ rest) = pending.path ∷ pending_paths rest

-- where the feed stands: the epoch and the cursor, and the failures since the last answer
pub record Feed : Type 0 where
  pub epoch : ℕ
  pub cursor : ℕ
  pub failures : ℕ

module _ {W : Type 0} where
  abbrev bump_some : Option ℕ → Vfs W → Vfs W
  bump_some none s = s
  bump_some (some i) s = bump_version i s

  unfoldable pub bump_all : List ℕ → Vfs W → Vfs W
  unfolding bump_version
  bump_all [] s = s
  bump_all (i ∷ is) s = bump_all is (bump_version i s)

  abbrev forget_meta : Str → Vfs W → Vfs W
  forget_meta path s = record s { metas = remove s.metas path }

  -- the match on the kind of the event
  unfoldable pub change_tables : Str → ChangeKind → Vfs W → Vfs W
  unfolding bump_version bump_all numbers remove_below
  change_tables path (write offset len) s =
      bump_some (Inodes.number s.inodes path)
        (forget_meta path (record s { blocks = invalidate_range s.blocks path offset len }))
  change_tables path metadata s = forget_meta path s
  change_tables path replaced s =
      bump_all (numbers s.inodes (subtree_keys s.inodes.by_path path)) (record s {
        metas = remove_below s.metas path;
        dirs = remove_below s.dirs path;
        blocks = invalidate_tree s.blocks path;
      })

  unfoldable pub change_notices : Str → ChangeKind → Vfs W → List Invalidation
  change_notices path (write offset len) s =
      for_ino (Inodes.number s.inodes path) (as_i64 offset) (as_i64 len)
  change_notices path metadata s = for_ino (Inodes.number s.inodes path) (negsuc 0) (pos 0)
  change_notices path replaced s =
      let (parent, name) = split_parent path in
      for_ino (Inodes.number s.inodes path) (pos 0) (pos 0)
      ++ for_entry (Inodes.number s.inodes parent) name

  -- an event that the mount does not act on
  abbrev pub is_skipped : Str → Vfs W → Bool
  is_skipped path s = str_eq path [] || (ignored s path || has_pending_write s path)

  unfoldable pub apply_change : ChangeEvent → Vfs W → Vfs W × List Invalidation
  unfolding ignored has_pending_write change_tables change_notices
  apply_change event s =
      let t = change_tables event.path event.kind s in
      if is_skipped event.path s then (s, []) else (
        record t { dirs = remove t.dirs (split_parent event.path).0 },
        change_notices event.path event.kind s,
      )

  unfoldable pub apply_changes : List ChangeEvent → Vfs W → Vfs W × List Invalidation
  unfolding apply_change
  apply_changes [] s = (s, [])
  apply_changes (event ∷ events) s =
      let (t, first) = apply_change event s in
      let (u, rest) = apply_changes events t in (u, first ++ rest)

  unfoldable pub invalidate_all : Vfs W → Vfs W
  unfolding pending_paths bump_all
  invalidate_all s =
      let pending = to_set (pending_paths (values s.write_buffers)) in
      bump_all (keys s.inodes.by_ino) (record s {
        metas = retain (λ path meta. is_some (get pending path)) s.metas;
        dirs = [];
        blocks = clear s.blocks;
      })

module _ {W : Type 0} (client : RemoteClient W) where
  abbrev apply_batch : ChangeBatch → Vfs W → Vfs W × List Invalidation
  apply_batch batch s = if batch.reset then (invalidate_all s, []) else apply_changes batch.events s

  abbrev take_answer : Feed → Result ChangeBatch → Vfs W → Feed × Vfs W × List Invalidation
  take_answer feed (Error.ok batch) s =
      let (t, notices) = apply_batch batch s in
      (
        record { epoch = batch.epoch; cursor = batch.cursor; failures = 0 },
        record t { feed_live = batch.live },
        notices,
      )
  take_answer feed (Error.err e) s = (
    record feed { failures = min (feed.failures + 1) (2 ^ 32 - 1) },
    record s { feed_live = false; world = (client.reconnect s.world).1 },
    [],
  )

  -- one round of the loop of `run_change_feed`
  unfoldable pub feed_round : Feed → Vfs W → Feed × Vfs W × List Invalidation
  unfolding invalidate_all apply_changes
  feed_round feed s =
      let (answer, w) = client.watch_changes feed.epoch (some feed.cursor) s.world in
      take_answer feed answer (record s { world = w })
