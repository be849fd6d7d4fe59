-- ===== src/Vfs/Attrs.antt =====
-- src/vfs.rs: `setattr`, `statfs` and the extended attributes, which only the mount keeps.
pub mod Xattrs
use mobfs.Base.{
  ℕ, ◌+◌, ◌-◌, ◌^◌, ◌%◌, ◌/◌, Bool, ◌&&◌, ◌||◌, not, Option, none, some, List, [], ◌∷◌, ◌++◌, ltb,
  ◌==◌, if◌then◌else◌, length, take, drop,
}
use mobfs.Base.Str.{Str, str_eq}
use mobfs.Base.Int.{ℤ}
use mobfs.Base.Order.{list_ord, nat_ord}
use mobfs.Base.Map.{Map, get, insert, remove, contains_key, is_some, keys}
use mobfs.Error as Error
use mobfs.Error.{Result}
use mobfs.Snapshot.{EntryMeta}
use mobfs.Protocol.{Bytes, FsStats}
use mobfs.Paths.{is_sidecar}
use mobfs.Vfs.Errno.{ok, enoent, eexist, no_xattr}
use mobfs.Vfs.Blocks.{invalidate_path}
use mobfs.Vfs.State.{
  Vfs, Vm, RemoteClient, Upload, ◌>>=◌, ◌>>◌, pure, fail, gets, modify, ok_or, when,
}
use mobfs.Vfs.Journal.{JournalOp, JournalFile}
use mobfs.Vfs.Mutate.{mutate}
use mobfs.Vfs.Names.{path_of, file_meta, set_meta, or_else}
use mobfs.Vfs.Uploads.{flush_matching}
use mobfs.Vfs.Writes.{resize}
use mobfs.Vfs.Lookup.{stat_remote}
use mobfs.Vfs.Create.{permission_bits}

-- STATFS_TTL, in milliseconds
abbrev pub statfs_ttl : ℕ
statfs_ttl = 10000

-- what is reported as long as the daemon has never answered
abbrev pub unknown_stats : FsStats
unknown_stats = record {
  total_bytes = 2 ^ 50;
  free_bytes = 2 ^ 50;
  avail_bytes = 2 ^ 50;
  files = 2 ^ 32;
  free_files = 2 ^ 32;
}

abbrev pub with_size : Option ℕ → EntryMeta × Bytes → EntryMeta × Bytes
with_size none entry = entry
with_size (some size) (meta, bytes) = (record meta { size = size }, resize size bytes)

abbrev pub with_mode : Option ℕ → EntryMeta → EntryMeta
with_mode none meta = meta
with_mode (some mode) meta = record meta { mode = mode }

abbrev pub with_modified : Option ℤ → EntryMeta → EntryMeta
with_modified none meta = meta
with_modified (some modified) meta = record meta { modified = modified }

abbrev bits_of : Option ℕ → Option ℕ
bits_of none = none
bits_of (some mode) = some (permission_bits mode)

-- One bit of the flags of `setxattr`; XATTR_CREATE is 1 and XATTR_REPLACE is 2, as on Linux (on macOS
-- they are 2 and 4).
abbrev pub has_bit : ℕ → ℕ → Bool
has_bit flags bit = (flags / bit) % 2 == 1

-- the value of an attribute, with the new bytes at a position
unfoldable pub place_value : ℕ → Bytes → Bytes → Bytes
unfolding resize
place_value position value stored =
    if position == 0
    then value
    else (let end = position + length value in
        let room = if ltb (length stored) end then resize end stored else stored in
        take position room ++ (value ++ drop end room))

unfoldable pub xattr_names : List Str → Bytes
xattr_names [] = []
xattr_names (name ∷ names) = name ++ (0 ∷ xattr_names names)

module _ {W : Type 0} where
  unfoldable pub attrs_of : Vfs W → Str → Map Str Bytes
  attrs_of s path = or_else [] (get s.xattrs path)

  -- `position` is 0 but for resource forks.
  unfoldable pub setxattr : ℕ → Str → Bytes → ℕ → ℕ → Vm W Unit
  unfolding path_of attrs_of place_value
  setxattr i name value flags position = do
    path ← path_of i
    attrs ← gets (λ s. attrs_of s path)
    let exists = contains_key attrs name
    modify (λ s. record s { xattrs = insert s.xattrs path attrs })
    if has_bit flags 1 && exists
        then fail eexist
        else if has_bit flags 2 && not exists
        then fail no_xattr
        else modify (λ s. record s {
          xattrs =
              insert s.xattrs path
                (insert attrs name (place_value position value (or_else [] (get attrs name))));
        })

  unfoldable pub getxattr : ℕ → Str → Vm W Bytes
  unfolding path_of attrs_of
  getxattr i name = do
    path ← path_of i
    value ← gets (λ s. get (attrs_of s path) name)
    ok_or no_xattr value

  unfoldable pub listxattr : ℕ → Vm W Bytes
  unfolding path_of attrs_of xattr_names
  listxattr i = do path ← path_of i; gets (λ s. xattr_names (keys (attrs_of s path)))

  unfoldable pub removexattr : ℕ → Str → Vm W Unit
  unfolding path_of attrs_of
  removexattr i name = do
    path ← path_of i
    attrs ← gets (λ s. attrs_of s path)
    if contains_key attrs name
        then modify (λ s. record s { xattrs = insert s.xattrs path (remove attrs name) })
        else fail no_xattr

  abbrev put_sidecar :
      Str → Option ℕ → Option ℕ → Option ℤ → Option (EntryMeta × Bytes) → Vm W EntryMeta
  put_sidecar path mode size modified none = fail enoent
  put_sidecar path mode size modified (some entry) =
      let (meta, bytes) = with_size size entry in
      let new = with_modified modified (with_mode (bits_of mode) meta) in
      λ s. (ok new, record s { sidecars = insert s.sidecars path (new, bytes) })

  -- the entry of a file in the table after its size has been set
  unfoldable pub note_size : Str → ℕ → Vfs W → Vfs W
  unfolding file_meta
  note_size path size s =
      let entry = or_else (file_meta s size 0o644) (get s.metas path) in
      set_meta path (record entry { size = size; modified = s.unix_now })
        (record s { blocks = invalidate_path s.blocks path })

  abbrev note_attrs : Str → Option ℕ → Option ℤ → Option EntryMeta → Vfs W → Vfs W
  note_attrs path mode modified none s = s
  note_attrs path mode modified (some meta) s =
      set_meta path (with_modified modified (with_mode mode meta)) s

module _ {W : Type 0} (client : RemoteClient W) (journal : JournalFile W)
    (choose : Map ℕ Upload → ℕ) where
  abbrev change_size : Str → Option ℕ → Vm W Unit
  change_size path none = pure tt
  change_size path (some size) = do
    mutate client journal (JournalOp.truncate path size) (client.truncate path size)
    modify (note_size path size)

  abbrev change_attrs : Str → Option ℕ → Option ℤ → Vm W Unit
  change_attrs path mode modified = when (is_some mode || is_some modified) (do
    mutate client journal (JournalOp.set_metadata path mode modified)
        (client.set_metadata path mode modified)
    modify (λ s. note_attrs path mode modified (get s.metas path) s))

  abbrev known_or_asked : Str → Option EntryMeta → Vm W EntryMeta
  known_or_asked path (some meta) = pure meta
  known_or_asked path none = do meta ← stat_remote client path; ok_or enoent meta

  unfoldable pub setattr : ℕ → Option ℕ → Option ℕ → Option ℤ → Vm W EntryMeta
  unfolding path_of flush_matching mutate note_size stat_remote
  setattr i mode size modified = do
    path ← path_of i
    root ← gets (λ s. s.root_meta)
    sidecar ← gets (λ s. get s.sidecars path)
    if str_eq path []
        then pure root
        else if is_sidecar path
        then put_sidecar path mode size modified sidecar
        else do
          flush_matching client choose path
          change_size path size
          change_attrs path (bits_of mode) modified
          meta ← gets (λ s. get s.metas path)
          known_or_asked path meta

  abbrev stats_or_asked : Vfs W → Result FsStats × Vfs W → FsStats × Vfs W
  stats_or_asked s (Error.ok stats, t) = (stats, record t { statfs = some (s.now, stats) })
  stats_or_asked s (Error.err e, t) = ((or_else (s.now, unknown_stats) t.statfs).1, t)

  abbrev ask_stats : Vfs W → FsStats × Vfs W
  ask_stats s = let (r, w) = client.statfs s.world in stats_or_asked s (r, record s { world = w })

  abbrev fresh_stats : Vfs W → Option (ℕ × FsStats) → FsStats × Vfs W
  fresh_stats s none = ask_stats s
  fresh_stats s (some (fetched, stats)) =
      if ltb (s.now - fetched) statfs_ttl then (stats, s) else ask_stats s

  unfoldable pub statfs : Vfs W → FsStats × Vfs W
  statfs s = fresh_stats s s.statfs
