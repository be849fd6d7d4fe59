-- ===== src/Vfs/Move.antt =====
-- src/vfs.rs: `remove` and `rename`, and what they do to the tables below a path.
use mobfs.Base.{ℕ, Bool, true, false, ◌&&◌, not, Option, none, some, List, [], ◌∷◌, if◌then◌else◌}
use mobfs.Base.Str.{Str, str_eq}
use mobfs.Base.Order.{list_ord, nat_ord}
use mobfs.Base.Map.{Map, get, insert, remove, contains_key, retain, is_some}
use mobfs.Snapshot.{EntryMeta, EntryKind, kind_eq}
use mobfs.Protocol.{Bytes}
use mobfs.Paths.{split_parent, is_sidecar}
use mobfs.Vfs.Errno.{VfsResult, ok, err, enoent, eacces, eexist, enotempty}
use mobfs.Vfs.Inodes as Inodes
use mobfs.Vfs.Inodes.{subtree_keys, moved}
use mobfs.Vfs.Blocks.{invalidate_tree}
use mobfs.Vfs.State.{Vfs, Vm, RemoteClient, Upload, ◌>>=◌, ◌>>◌, pure, fail, gets, modify, remote}
use mobfs.Vfs.Journal.{JournalOp, JournalFile, bare_meta}
use mobfs.Vfs.Mutate.{mutate}
use mobfs.Vfs.Names.{
  child_path, ignored, known_absent, dir_upsert, dir_remove, remove_below, at_or_below,
}
use mobfs.Vfs.Uploads.{is_empty, wait_uploads, flush_matching}
use mobfs.Vfs.Lookup.{lookup, stat_remote}

-- the body of the loop that moves the entries of a table
abbrev move_entry {ℓ} : {V : Type ℓ} → Str → Str → Map Str V → Str → Option V → Map Str V
move_entry from to m key none = m
move_entry from to m key (some v) = insert (remove m key) (moved from to key) v

unfoldable pub move_entries {ℓ} : {V : Type ℓ} → Str → Str → Map Str V → List Str → Map Str V
move_entries from to m [] = m
move_entries from to m (key ∷ keys) =
    move_entries from to (move_entry from to m key (get m key)) keys

-- the entries below the target are forgotten, those below the source get their new names
unfoldable pub move_below {ℓ} : {V : Type ℓ} → Str → Str → Map Str V → Map Str V
unfolding move_entries
move_below from to m = let m' = remove_below m to in move_entries from to m' (subtree_keys m' from)

-- `xattrs.remove(&to)`, then the attributes of the path itself are moved
abbrev put_moved {ℓ} : {V : Type ℓ} → Str → Str → Map Str V → Option V → Map Str V
put_moved from to m none = m
put_moved from to m (some v) = insert (remove m from) to v

unfoldable pub move_one {ℓ} : {V : Type ℓ} → Str → Str → Map Str V → Map Str V
move_one from to m = let m' = remove m to in put_moved from to m' (get m' from)

abbrev is_found : VfsResult (Option EntryMeta) → Bool
is_found (ok meta) = is_some meta
is_found (err e) = false

module _ {W : Type 0} where
  -- the tables forget what lies at or below a path that has been removed
  unfoldable pub forget_tree : Str → Vfs W → Vfs W
  unfolding dir_remove remove_below
  forget_tree path s =
      let s' = record s {
        blocks = invalidate_tree s.blocks path;
        metas = remove_below s.metas path;
        xattrs = retain (λ key attrs. not (at_or_below path key)) s.xattrs;
      } in
      let t = dir_remove path s' in record t { inodes = Inodes.remove_tree t.inodes path }

  abbrev enter : Str → Str → Option EntryMeta → Vfs W → Vfs W
  enter to parent none s = record s { dirs = remove s.dirs parent }
  enter to parent (some meta) s = dir_upsert to meta s

  -- the tables after a rename
  unfoldable pub move_tree : Str → Str → Vfs W → Vfs W
  unfolding move_below move_one dir_remove dir_upsert
  move_tree from to s =
      let s' = record s {
        blocks = invalidate_tree (invalidate_tree s.blocks from) to;
        metas = move_below from to s.metas;
        dirs = move_below from to s.dirs;
        xattrs = move_one from to s.xattrs;
        inodes = Inodes.rename s.inodes from to;
      } in
      let t = dir_remove from s' in enter to (split_parent to).0 (get t.metas to) t

  abbrev put_sidecar : Str → Bool → Vfs W → Option (EntryMeta × Bytes) → VfsResult Unit × Vfs W
  put_sidecar to noreplace s none = (err enoent, s)
  put_sidecar to noreplace s (some entry) =
      (ok tt, record s { sidecars = insert s.sidecars to entry })

  unfoldable pub rename_sidecar : Str → Str → Bool → Vm W Unit
  rename_sidecar from to noreplace = λ s.
      let rest = remove s.sidecars from in
      if is_some (get s.sidecars from) && (noreplace && contains_key rest to)
      then (err eexist, s)
      else (let (result, t) =
            put_sidecar to noreplace (record s { sidecars = rest }) (get s.sidecars from) in
          (
            result,
            if is_some (get s.sidecars from)
                then record t { inodes = Inodes.rename t.inodes from to }
                else t,
          ))

module _ {W : Type 0} (client : RemoteClient W) (journal : JournalFile W)
    (choose : Map ℕ Upload → ℕ) where
  abbrev is_dir_at : ℕ → Str → Option Bool → Vm W Bool
  is_dir_at parent name (some is_dir) = pure is_dir
  is_dir_at parent name none = do
    item ← lookup client parent name
    pure (kind_eq item.1.kind EntryKind.dir)

  abbrev require_empty : Str → Bool → Vm W Unit
  require_empty path false = pure tt
  require_empty path true = do
    entries ← remote (client.list_dir path)
    if is_empty entries then pure tt else fail enotempty

  -- what is buffered for the path is dropped, what is in flight to it is waited for
  unfoldable pub drop_writes : Str → Vfs W → Vfs W
  unfolding wait_uploads
  drop_writes path s =
      wait_uploads client choose (λ upload. str_eq upload.path path)
        (record s {
          write_buffers =
              retain (λ fh pending. not (at_or_below path pending.path)) s.write_buffers;
        })

  unfoldable pub remove_path : ℕ → Str → Option Bool → Vm W Unit
  unfolding child_path ignored lookup drop_writes mutate forget_tree
  remove_path parent name kind = do
    path ← child_path parent name
    is_ignored ← gets (λ s. ignored s path)
    if is_sidecar path
        then modify (λ s. record s {
          sidecars = remove s.sidecars path;
          inodes = Inodes.remove_tree s.inodes path;
        })
        else if is_ignored
        then pure tt
        else do
          is_dir ← is_dir_at parent name kind
          require_empty path is_dir
          modify (drop_writes path)
          mutate client journal (JournalOp.remove path is_dir)
              (client.remove path (bare_meta is_dir))
          modify (forget_tree path)

  -- `matches!(self.stat_remote(&to), Ok(Some(_)))`: a failure counts as absent
  abbrev stat_found : Str → Vm W Bool
  stat_found path = λ s. let (r, t) = stat_remote client path s in (ok (is_found r), t)

  unfoldable pub target_taken : Str → Str → Vm W Bool
  unfolding known_absent stat_remote
  target_taken to newname = do
    here ← gets (λ s. is_some (get s.metas to))
    absent ← gets (λ s. known_absent s (split_parent to).0 newname)
    if here then pure true else if absent then pure false else stat_found to

  abbrev check_target : Bool → Str → Str → Vm W Bool
  check_target true to newname = target_taken to newname
  check_target false to newname = pure false

  unfoldable pub rename_file : Str → Str → Str → Bool → Vm W Unit
  unfolding ignored target_taken flush_matching mutate move_tree
  rename_file from to newname noreplace = do
    is_ignored ← gets (λ s. ignored s to)
    if is_ignored then fail eacces else do
      taken ← check_target noreplace to newname
      if taken then fail eexist else do
        flush_matching client choose from
        flush_matching client choose to
        mutate client journal (JournalOp.rename from to) (client.rename from to)
        modify (move_tree from to)

  abbrev rename_by : Bool → Bool → Str → Str → Str → Bool → Vm W Unit
  rename_by true true from to newname noreplace = rename_sidecar from to noreplace
  rename_by false false from to newname noreplace = rename_file from to newname noreplace
  rename_by _ _ from to newname noreplace = fail eacces

  unfoldable pub rename : ℕ → Str → ℕ → Str → Bool → Vm W Unit
  unfolding child_path rename_sidecar rename_file
  rename parent name newparent newname noreplace = do
    from ← child_path parent name
    to ← child_path newparent newname
    rename_by (is_sidecar from) (is_sidecar to) from to newname noreplace
