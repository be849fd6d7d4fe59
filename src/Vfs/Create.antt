-- ===== src/Vfs/Create.antt =====
-- src/vfs.rs: `create`, `mkdir` and `symlink`.
use mobfs.Base.{ℕ, ◌%◌, Bool, true, false, ◌&&◌, Option, none, some, [], if◌then◌else◌, length}
use mobfs.Base.Str.{Str}
use mobfs.Base.Order.{list_ord, nat_ord}
use mobfs.Base.Map.{get, insert, contains_key, is_some}
use mobfs.Disk as Disk
use mobfs.Disk.{Io}
use mobfs.Snapshot.{EntryMeta, EntryKind}
use mobfs.Paths.{split_parent, is_sidecar}
use mobfs.Vfs.Errno.{eacces, eexist}
use mobfs.Vfs.Blocks.{invalidate_path}
use mobfs.Vfs.State.{Vfs, Vm, RemoteClient, ◌>>=◌, ◌>>◌, pure, fail, gets, modify}
use mobfs.Vfs.Journal.{JournalOp, JournalFile}
use mobfs.Vfs.Mutate.{mutate}
use mobfs.Vfs.Names.{
  ino, child_path, set_meta, ignored, known_absent, dir_upsert, bump_version, file_meta,
}
use mobfs.Vfs.Lookup.{stat_remote}

-- mode & 0o7777
abbrev pub permission_bits : ℕ → ℕ
permission_bits mode = mode % 0o10000

-- the metadata of a directory or a link that has just been made
abbrev pub new_meta : {W : Type 0} → Vfs W → EntryKind → ℕ → ℕ → Option Str → EntryMeta
new_meta s kind size mode target = record {
  kind = kind;
  size = size;
  modified = s.unix_now;
  sha256 = none;
  mode = mode;
  link_target = target;
}

module _ {W : Type 0} (client : RemoteClient W) (journal : JournalFile W) where
  -- Is something at the path, as far as the mount and then the daemon know?
  unfoldable pub already_there : Str → Str → Vm W Bool
  unfolding known_absent stat_remote
  already_there path name = do
    here ← gets (λ s. is_some (get s.metas path))
    absent ← gets (λ s. known_absent s (split_parent path).0 name)
    if here
        then pure true
        else if absent
        then pure false
        else do meta ← stat_remote client path; pure (is_some meta)

  unfoldable pub create_sidecar : Str → ℕ → Bool → Vm W (ℕ × EntryMeta)
  unfolding file_meta ino
  create_sidecar path mode exclusive = do
    taken ← gets (λ s. contains_key s.sidecars path)
    if exclusive && taken then fail eexist else do
      meta ← gets (λ s. file_meta s 0 mode)
      modify (λ s. record s { sidecars = insert s.sidecars path (meta, []) })
      number ← ino path
      pure (number, meta)

  -- what is sent for a new file
  abbrev pub create_action : Str → ℕ → Io W Unit
  create_action path mode =
      Disk.◌>>◌ (client.truncate path 0) (client.set_metadata path (some mode) none)

  -- what the tables hear of a new file
  unfoldable pub admit_file : Str → ℕ → Vm W (ℕ × EntryMeta)
  unfolding file_meta dir_upsert ino bump_version
  admit_file path mode = do
    meta ← gets (λ s. file_meta s 0 mode)
    modify (λ s. record s { blocks = invalidate_path s.blocks path })
    modify (set_meta path meta)
    modify (dir_upsert path meta)
    number ← ino path
    modify (bump_version number)
    pure (number, meta)

  abbrev check_exclusive : Bool → Str → Str → Vm W Bool
  check_exclusive true path name = already_there path name
  check_exclusive false path name = pure false

  unfoldable pub create_file : Str → Str → ℕ → Bool → Vm W (ℕ × EntryMeta)
  unfolding already_there mutate admit_file
  create_file path name mode exclusive = do
    exists ← check_exclusive exclusive path name
    if exists then fail eexist else do
      mutate client journal (JournalOp.truncate path 0) (create_action path mode)
      admit_file path mode

  unfoldable pub create : ℕ → Str → ℕ → Bool → Vm W (ℕ × EntryMeta)
  unfolding child_path ignored create_sidecar create_file
  create parent name mode exclusive = do
    path ← child_path parent name
    is_ignored ← gets (λ s. ignored s path)
    if is_sidecar path
        then create_sidecar path (permission_bits mode) exclusive
        else if is_ignored
        then fail eacces
        else create_file path name (permission_bits mode) exclusive

  abbrev mkdir_action : Str → ℕ → Io W Unit
  mkdir_action path mode =
      Disk.◌>>◌ (client.mkdir_p path) (client.set_metadata path (some mode) none)

  unfoldable pub mkdir : ℕ → Str → ℕ → Vm W (ℕ × EntryMeta)
  unfolding child_path ignored mutate dir_upsert ino
  mkdir parent name mode = do
    path ← child_path parent name
    is_ignored ← gets (λ s. ignored s path)
    if is_ignored then fail eacces else do
      mutate client journal (JournalOp.mkdir path) (mkdir_action path (permission_bits mode))
      meta ← gets (λ s. new_meta s EntryKind.dir 0 (permission_bits mode) none)
      modify (set_meta path meta)
      modify (dir_upsert path meta)
      modify (λ s. record s { dirs = insert s.dirs path (s.now, []) })
      number ← ino path
      pure (number, meta)

  unfoldable pub symlink : ℕ → Str → Str → Vm W (ℕ × EntryMeta)
  unfolding child_path ignored mutate dir_upsert ino
  symlink parent name target = do
    path ← child_path parent name
    is_ignored ← gets (λ s. ignored s path)
    if is_ignored then fail eacces else do
      mutate client journal (JournalOp.symlink path target) (client.create_symlink path target)
      meta ← gets (λ s. new_meta s EntryKind.symlink (length target) 0o777 (some target))
      modify (set_meta path meta)
      modify (dir_upsert path meta)
      number ← ino path
      pure (number, meta)
