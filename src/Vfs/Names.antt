-- ===== src/Vfs/Names.antt =====
-- src/vfs.rs: the names and the tables of a mount, which its operations share.
pub mod Below
use mobfs.Base.{
  ℕ, ◌+◌, ◌-◌, max, Bool, false, ◌||◌, not, Option, none, some, List, [], ◌∷◌, ◌++◌, ltb, leb, ◌==◌,
  if◌then◌else◌, length, any, filter,
}
use mobfs.Base.Str.{Str, codes, str_eq, starts_with, contains_char}
use mobfs.Base.Order.{list_ord, nat_ord}
use mobfs.Base.Map.{Map, get, insert, remove, values}
use mobfs.Snapshot.{EntryMeta, file}
use mobfs.Paths.{slash, split_parent, join_rel, should_ignore_rel}
use mobfs.Vfs.Errno.{Errno, VfsResult, ok, err, estale, einval, enametoolong}
use mobfs.Vfs.Inodes as Inodes
use mobfs.Vfs.Inodes.{subtree_keys, root_ino, moved}
use mobfs.Vfs.State.{Vfs, Vm, ◌>>=◌, pure, fail, ok_or, DirEntries, Upload, PendingWrite}

-- a value of a table, with what is done where there is none
abbrev pub or_else {ℓ} : {A : Type ℓ} → A → Option A → A
or_else a none = a
or_else a (some b) = b

-- `if let Some(a) = option { ... }`
abbrev pub if_some {ℓ κ} : {A : Type ℓ} {B : Type κ} → Option A → (A → B) → B → B
if_some none f b = b
if_some (some a) f b = f a

-- for key in subtree_keys(&table, path) { table.remove(&key); }
unfoldable pub remove_all {ℓ} : {V : Type ℓ} → Map Str V → List Str → Map Str V
remove_all m [] = m
remove_all m (key ∷ keys) = remove_all (remove m key) keys

unfoldable pub remove_below {ℓ} : {V : Type ℓ} → Map Str V → Str → Map Str V
unfolding remove_all
remove_below m path = remove_all m (subtree_keys m path)

-- `path` itself, or what begins with `path` and a slash
abbrev pub at_or_below : Str → Str → Bool
at_or_below path candidate = str_eq candidate path || starts_with candidate (path ++ (slash ∷ []))

abbrev version_of : Option (ℕ × ℕ) → ℕ
version_of none = 0
version_of (some v) = v.0

abbrev bumped : Option (ℕ × ℕ) → ℕ × ℕ
bumped none = (1, 0)
bumped (some (version, seen)) = (version + 1, seen)

-- entries.retain(|(entry, _)| entry != name)
abbrev pub without : Str → DirEntries → DirEntries
without name entries = filter (λ entry. not (str_eq entry.0 name)) entries

abbrev taken : Option Errno → VfsResult Unit
taken none = ok tt
taken (some errno) = err errno

module _ {W : Type 0} where
  unfoldable pub path_of : ℕ → Vm W Str
  unfolding Inodes.path
  path_of ino = λ s. ok_or estale (Inodes.path s.inodes ino) s

  abbrev put_inodes : {A : Type 0} → Vfs W → Inodes.Inodes × A → VfsResult A × Vfs W
  put_inodes s (inodes, a) = (ok a, record s { inodes = inodes })

  unfoldable pub ino : Str → Vm W ℕ
  ino path = λ s. put_inodes s (Inodes.ino s.inodes path)

  abbrev parent_number : VfsResult Str → Vm W ℕ
  parent_number (ok path) = ino (split_parent path).0
  parent_number (err e) = pure root_ino

  unfoldable pub parent_of : ℕ → Vm W ℕ
  unfolding path_of ino
  parent_of i = λ s. parent_number (path_of i s).0 s

  unfoldable pub child_path : ℕ → Str → Vm W Str
  unfolding path_of
  child_path parent name =
      if str_eq name []
        || (str_eq name (codes ".") || (str_eq name (codes "..") || contains_char slash name))
      then fail einval
      else if ltb 255 (length name)
      then fail enametoolong
      else do parent_path ← path_of parent; pure (join_rel parent_path name)

  abbrev pub set_meta : Str → EntryMeta → Vfs W → Vfs W
  set_meta path meta s = record s { metas = insert s.metas path meta }

  unfoldable pub ignored : Vfs W → Str → Bool
  ignored s path = should_ignore_rel s.ignore path

  unfoldable pub data_version : Vfs W → ℕ → ℕ
  data_version s i = version_of (get s.versions i)

  unfoldable pub bump_version : ℕ → Vfs W → Vfs W
  bump_version i s = record s { versions = insert s.versions i (bumped (get s.versions i)) }

  abbrev listing_if_fresh : Vfs W → Option (ℕ × DirEntries) → Option DirEntries
  listing_if_fresh s none = none
  listing_if_fresh s (some (created, entries)) =
      if s.ttl == 0 || (s.feed_live || leb (s.now - created) s.ttl) then some entries else none

  unfoldable pub dir_listing : Vfs W → Str → Option DirEntries
  dir_listing s dir = listing_if_fresh s (get s.dirs dir)

  unfoldable pub known_absent : Vfs W → Str → Str → Bool
  unfolding dir_listing
  known_absent s dir name =
      if_some (dir_listing s dir) (λ entries. not (any (λ entry. str_eq entry.0 name) entries))
        false

  abbrev update_dir : Str → (DirEntries → DirEntries) → Option (ℕ × DirEntries) → Vfs W → Vfs W
  update_dir dir f none s = s
  update_dir dir f (some (created, entries)) s = record s {
    dirs = insert s.dirs dir (created, f entries);
  }

  unfoldable pub dir_upsert : Str → EntryMeta → Vfs W → Vfs W
  dir_upsert path meta s =
      let (parent, name) = split_parent path in
      update_dir parent (λ entries. without name entries ++ ((name, meta) ∷ [])) (get s.dirs parent)
        s

  unfoldable pub dir_remove : Str → Vfs W → Vfs W
  unfolding remove_below
  dir_remove path s =
      let (parent, name) = split_parent path in
      let s' = update_dir parent (without name) (get s.dirs parent) s in
      record s' { dirs = remove_below s'.dirs path }

  unfoldable pub has_pending_write : Vfs W → Str → Bool
  has_pending_write s path =
      any (λ (pending : PendingWrite). at_or_below path pending.path) (values s.write_buffers)
      || any (λ (upload : Upload). at_or_below path upload.path) (values s.uploads.inflight)

  unfoldable pub take_upload_error : ℕ → Vm W Unit
  take_upload_error fh = λ s. (
    taken (get s.uploads.errors fh),
    record s { uploads = record s.uploads { errors = remove s.uploads.errors fh } },
  )

  -- the `file_meta` of src/vfs.rs, at the time of day of the state
  unfoldable pub file_meta : Vfs W → ℕ → ℕ → EntryMeta
  file_meta s size mode = record {
    kind = file;
    size = size;
    modified = s.unix_now;
    sha256 = none;
    mode = mode;
    link_target = none;
  }

  unfoldable pub note_local_write : Str → ℕ → ℕ → Vfs W → Vfs W
  unfolding file_meta
  note_local_write path offset len s =
      let entry = or_else (file_meta s 0 0o644) (get s.metas path) in
      set_meta path
        (record entry {
          kind = file;
          size = max entry.size (offset + len);
          modified = s.unix_now;
          sha256 = none;
        })
        s
