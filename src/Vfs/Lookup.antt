-- ===== src/Vfs/Lookup.antt =====
-- src/vfs.rs: how the mount finds out what there is: `lookup`, `getattr`, `list_dir`, `open` and
-- `readlink`, with the fast ways that ask only the tables. What the source returns as
-- `Option<VfsResult<T>>` is a step here that fails or has an option.
use mobfs.Base.{
  ℕ, ◌+◌, Bool, true, false, ◌&&◌, not, Option, none, some, List, [], ◌∷◌, ◌==◌, if◌then◌else◌,
}
use mobfs.Base.Str.{Str, str_eq}
use mobfs.Base.Order.{list_ord, nat_ord}
use mobfs.Base.Map.{get, insert, remove}
use mobfs.Snapshot.{EntryMeta}
use mobfs.Protocol.{Bytes}
use mobfs.Paths.{split_parent, join_rel, is_sidecar}
use mobfs.Vfs.Errno.{VfsResult, ok, enoent, einval}
use mobfs.Vfs.State.{
  Vfs, Vm, RemoteClient, DirEntries, ◌>>=◌, ◌>>◌, pure, fail, gets, modify, ok_or, remote,
}
use mobfs.Vfs.Names.{
  path_of, ino, child_path, set_meta, ignored, dir_listing, known_absent, has_pending_write,
  or_else,
}

abbrev pub DirItem : Type 0
DirItem = ℕ × Str × EntryMeta

abbrev meta_of : Option (EntryMeta × Bytes) → Option EntryMeta
meta_of none = none
meta_of (some (meta, bytes)) = some meta

abbrev pub sidecar_meta : {W : Type 0} → Vfs W → Str → Option EntryMeta
sidecar_meta s path = meta_of (get s.sidecars path)

module _ {W : Type 0} (client : RemoteClient W) where
  -- what an answer of the daemon does to the table
  abbrev note_stat : Str → Option EntryMeta → Vfs W → Vfs W
  note_stat path none s = record s { metas = remove s.metas path }
  note_stat path (some meta) s = if not (has_pending_write s path) then set_meta path meta s else s

  unfoldable pub stat_remote : Str → Vm W (Option EntryMeta)
  unfolding has_pending_write
  stat_remote path = do meta ← remote (client.stat path); modify (note_stat path meta); pure meta

  abbrev numbered : Str → EntryMeta → Vm W (ℕ × EntryMeta)
  numbered path meta = do number ← ino path; pure (number, meta)

  abbrev found : Str → Option EntryMeta → Vm W (Option (ℕ × EntryMeta))
  found path none = fail enoent
  found path (some meta) = do item ← numbered path meta; pure (some item)

  abbrev found_or_absent : Str → Str → Option EntryMeta → Vm W (Option (ℕ × EntryMeta))
  found_or_absent path name none =
      λ s. (if known_absent s (split_parent path).0 name then fail enoent else pure none) s
  found_or_absent path name (some meta) = found path (some meta)

  unfoldable pub lookup_fast : ℕ → Str → Vm W (Option (ℕ × EntryMeta))
  unfolding child_path ino ignored known_absent
  lookup_fast parent name = do
    path ← child_path parent name
    is_ignored ← gets (λ s. ignored s path)
    sidecar ← gets (λ s. sidecar_meta s path)
    meta ← gets (λ s. get s.metas path)
    if is_sidecar path
        then found path sidecar
        else if is_ignored
        then fail enoent
        else found_or_absent path name meta

  abbrev numbered_or_absent : Str → Option EntryMeta → Vm W (ℕ × EntryMeta)
  numbered_or_absent path none = fail enoent
  numbered_or_absent path (some meta) = numbered path meta

  abbrev lookup_slow : ℕ → Str → Option (ℕ × EntryMeta) → Vm W (ℕ × EntryMeta)
  lookup_slow parent name (some item) = pure item
  lookup_slow parent name none = do
    path ← child_path parent name
    meta ← stat_remote path
    numbered_or_absent path meta

  unfoldable pub lookup : ℕ → Str → Vm W (ℕ × EntryMeta)
  unfolding lookup_fast stat_remote
  lookup parent name = do quick ← lookup_fast parent name; lookup_slow parent name quick

  abbrev found_meta : Option EntryMeta → Vm W (Option EntryMeta)
  found_meta none = fail enoent
  found_meta (some meta) = pure (some meta)

  unfoldable pub getattr_fast : ℕ → Vm W (Option EntryMeta)
  unfolding path_of
  getattr_fast i = do
    path ← path_of i
    root ← gets (λ s. s.root_meta)
    sidecar ← gets (λ s. sidecar_meta s path)
    meta ← gets (λ s. get s.metas path)
    if str_eq path []
        then pure (some root)
        else if is_sidecar path
        then found_meta sidecar
        else pure meta

  abbrev getattr_slow : ℕ → Option EntryMeta → Vm W EntryMeta
  getattr_slow i (some meta) = pure meta
  getattr_slow i none = do path ← path_of i; meta ← stat_remote path; ok_or enoent meta

  unfoldable pub getattr : ℕ → Vm W EntryMeta
  unfolding getattr_fast path_of stat_remote
  getattr i = do quick ← getattr_fast i; getattr_slow i quick

  unfoldable pub build_listing : Str → Bool → DirEntries → Vm W (List DirItem)
  unfolding has_pending_write ino
  build_listing dir fresh [] = pure []
  build_listing dir fresh ((name, meta) ∷ entries) = do
    let path = join_rel dir name
    modify (λ s. if fresh && not (has_pending_write s path) then set_meta path meta s else s)
    meta ← gets (λ s. if fresh then meta else or_else meta (get s.metas path))
    number ← ino path
    rest ← build_listing dir fresh entries
    pure ((number, name, meta) ∷ rest)

  abbrev listed : Str → Option DirEntries → Vm W (Option (List DirItem))
  listed dir none = pure none
  listed dir (some entries) = do items ← build_listing dir false entries; pure (some items)

  unfoldable pub list_dir_fast : ℕ → Vm W (Option (List DirItem))
  unfolding path_of dir_listing build_listing
  list_dir_fast i = do dir ← path_of i; entries ← gets (λ s. dir_listing s dir); listed dir entries

  abbrev list_dir_slow : ℕ → Option (List DirItem) → Vm W (List DirItem)
  list_dir_slow i (some items) = pure items
  list_dir_slow i none = do
    dir ← path_of i
    entries ← remote (client.list_dir dir)
    modify (λ s. record s { dirs = insert s.dirs dir (s.now, entries) })
    build_listing dir true entries

  unfoldable pub list_dir : ℕ → Vm W (List DirItem)
  unfolding list_dir_fast path_of build_listing
  list_dir i = do quick ← list_dir_fast i; list_dir_slow i quick

  -- u64::MAX
  abbrev never_seen : ℕ
  never_seen = 18446744073709551615

  abbrev opened : ℕ → ℕ × ℕ → Vfs W → VfsResult (ℕ × Bool) × Vfs W
  opened i (version, seen) s = (
    ok (s.next_fh, version == seen),
    record s { versions = insert s.versions i (version, version); next_fh = s.next_fh + 1 },
  )

  -- a new handle, and whether the kernel may keep what it has cached of the file
  unfoldable pub open_file : ℕ → Vm W (ℕ × Bool)
  unfolding path_of
  open_file i = do path_of i; λ s. opened i (or_else (0, never_seen) (get s.versions i)) s

  unfoldable pub readlink : ℕ → Vm W Str
  unfolding getattr
  readlink i = do meta ← getattr i; ok_or einval meta.link_target
