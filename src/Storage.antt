-- ===== src/Storage.antt =====
-- src/storage.rs: the choice of a backend, and FolderClient, which keeps the remote side in a folder
-- that another program syncs. WalkDir is an argument, the text of a digest is another. What is read
-- from a file is read before the temporary file is made.
pub mod Copy
use mobfs.Base.{
  ℕ, Bool, true, false, ◌&&◌, ◌||◌, Option, none, some, List, [], ◌∷◌, ◌++◌, ◌==◌, ltb,
  if◌then◌else◌, length, any,
}
use mathlib.Core.List.{reverse}
use mobfs.Base.Str.{Str, codes, str_eq, starts_with, contains, split, join}
use mobfs.Base.Int.{ℤ, pos, negsuc}
use mobfs.Base.Order.{list_ord, nat_ord}
use mobfs.Base.Map.{Map, insert}
use mobfs.Error.{Result, ok, err, MobfsError, remote, config, invalid_path}
use mobfs.Disk.{
  Io, Disk, ◌>>=◌, ◌>>◌, pure, fail, lift, ignore_error, Metadata, FileType, is_symlink, is_dir,
  is_file, is_other,
}
use mobfs.Snapshot.{EntryMeta, EntryKind, Entries, Snapshot, file, dir, symlink, kind_eq}
use mobfs.Protocol.{Bytes}
use mobfs.Paths.{
  FilePath, Component, normal, root_dir, cur_dir, parent_dir, components, component_eq, slash,
  safe_join, should_ignore_rel,
}
use mobfs.Daemon.{atomic_temp_path}
use mobfs.Daemon.Requests.{make_parent, set_mode, set_mtime}
use mobfs.Sync.{StorageClient}
use mobfs.Config.{StorageBackend, daemon, r2, s3, icloud, gdrive}

unfoldable pub backend_label : StorageBackend → Str
backend_label daemon = codes "daemon"
backend_label r2 = codes "r2"
backend_label s3 = codes "s3"
backend_label icloud = codes "icloud"
backend_label gdrive = codes "gdrive"

-- name.ends_with(suffix)
abbrev ends_with : Str → Str → Bool
ends_with name suffix = starts_with (reverse name) (reverse suffix)

abbrev noise_part : Str → Bool
noise_part part = any (str_eq part) (
    codes ".DS_Store"
    ∷ (codes ".localized"
        ∷ ((codes "Icon" ++ (13 ∷ [])) ∷ (codes ".TemporaryItems" ∷ (codes ".Trashes" ∷ [])))))

unfoldable pub provider_noise : Str → Bool
provider_noise rel =
    ends_with rel (codes ".icloud")
    || (ends_with rel (codes ".tmp")
        || (contains rel (codes ".tmp.drivedownload")
            || (contains rel (codes ".goutputstream") || any noise_part (split slash rel))))

-- `path.strip_prefix(root)`
unfoldable pub strip_root : FilePath → FilePath → Option FilePath
strip_root [] path = some path
strip_root (c ∷ root) [] = none
strip_root (c ∷ root) (d ∷ path) =
    let rest = strip_root root path in if component_eq c d then rest else none

abbrev cons_name : Component → Option (List Str) → Option (List Str)
cons_name (normal name) (some names) = some (name ∷ names)
cons_name _ _ = none

-- the names of a path that has nothing else in it
unfoldable pub names_of : FilePath → Option (List Str)
names_of [] = some []
names_of (c ∷ path) = cons_name c (names_of path)

abbrev joined : Str → Option (List Str) → Result Str
joined text none = err (invalid_path text)
joined text (some names) = ok (join slash names)

abbrev rel_of : Str → Option FilePath → Result Str
rel_of text none = err (invalid_path text)
rel_of text (some rel) = joined text (names_of rel)

-- the root itself is skipped
abbrev is_root : Option FilePath → Bool
is_root (some []) = true
is_root _ = false

module _ {D : Type 0} (disk : Disk D) where
  -- relative_path of src/local.rs
  unfoldable pub relative_path : FilePath → FilePath → Result Str
  unfolding strip_root names_of
  relative_path root path = rel_of (disk.display path) (strip_root root path)

  unfoldable pub copy_file_atomic : FilePath → FilePath → Io D Unit
  copy_file_atomic src dst = do
    make_parent disk dst
    bytes ← disk.read src
    disk.create (atomic_temp_path disk dst) bytes
    disk.rename (atomic_temp_path disk dst) dst

  module _ (root local : FilePath) (ignore : List Str) (walk : FilePath → Io D (List FilePath))
      (digest : Str → Str) where
    abbrev entry : EntryKind → ℕ → ℤ → Option Str → ℕ → Option Str → EntryMeta
    entry kind size modified sha256 mode target = record {
      kind = kind;
      size = size;
      modified = modified;
      sha256 = sha256;
      mode = mode;
      link_target = target;
    }

    abbrev kind_entry : FilePath → Metadata → FileType → Io D (Option EntryMeta)
    kind_entry path m is_symlink = λ d.
        (do
          target ← lift (disk.read_link path d)
          pure (
              some (
                entry symlink (length target) m.modified (some (digest target)) m.mode
                  (some target))))
          d
    kind_entry path m is_dir = pure (some (entry dir 0 (pos 0) none m.mode none))
    kind_entry path m is_file = do
      sha256 ← disk.sha256 path
      pure (some (entry file m.len m.modified (some sha256) m.mode none))
    kind_entry path m is_other = pure none

    abbrev add_entry : Str → Option EntryMeta → Entries → Entries
    add_entry rel none entries = entries
    add_entry rel (some meta) entries = insert entries rel meta

    -- the loop of `snapshot` over what the walk finds
    unfoldable pub scan : List FilePath → Entries → Io D Snapshot
    unfolding relative_path provider_noise
    scan [] entries = pure (record { entries = entries })
    scan (path ∷ paths) entries = do
      rel ← lift (relative_path root path)
      if is_root (strip_root root path) || (should_ignore_rel ignore rel || provider_noise rel)
          then scan paths entries
          else do
            m ← λ d. (disk.symlink_metadata path d, d)
            meta ← kind_entry path m m.file_type
            scan paths (add_entry rel meta entries)

    unfoldable pub snapshot : Io D Snapshot
    unfolding scan
    snapshot = do paths ← walk root; scan paths []

    -- `let _ = fs::remove_file(&dst)`, then the link
    abbrev relink : Str → FilePath → Io D Unit
    relink target dst = do ignore_error (disk.remove_file dst); disk.symlink target dst

    abbrev link_down : FilePath → Option Str → Io D Unit
    link_down dst none = fail (remote (codes "symlink target missing"))
    link_down dst (some target) = relink target dst

    unfoldable pub download_file : Str → EntryMeta → Io D Unit
    unfolding copy_file_atomic set_mode set_mtime
    download_file rel meta = do
      src ← lift (safe_join root rel)
      let dst = local ++ components rel
      if kind_eq meta.kind symlink then link_down dst meta.link_target else do
        copy_file_atomic src dst
        set_mode disk dst meta.mode
        set_mtime disk dst meta.modified

    abbrev upload_as : FilePath → FilePath → Metadata → FileType → Io D Unit
    upload_as src dst m is_symlink =
        λ d. (do target ← lift (disk.read_link src d); relink target dst) d
    upload_as src dst m _ = do copy_file_atomic src dst; set_mode disk dst m.mode

    unfoldable pub upload_file : Str → Io D Unit
    unfolding copy_file_atomic set_mode
    upload_file rel = do
      dst ← lift (safe_join root rel)
      m ← λ d. (disk.symlink_metadata (local ++ components rel) d, d)
      upload_as (local ++ components rel) dst m m.file_type

    -- rel.trim_start_matches('/')
    abbrev trim_slashes : Str → Str
    trim_slashes [] = []
    trim_slashes (c ∷ rel) = if c == slash then trim_slashes rel else c ∷ rel

    unfoldable pub mkdir_p : Str → Io D Unit
    mkdir_p rel = do path ← lift (safe_join root (trim_slashes rel)); disk.create_dir_all path

    unfoldable pub remove : Str → EntryMeta → Io D Unit
    remove rel meta = do
      path ← lift (safe_join root rel)
      λ d.
          (if kind_eq meta.kind dir && disk.exists path d
              then disk.remove_dir_all path
              else if disk.exists path d
              then disk.remove_file path
              else pure tt)
            d

    -- the folder as the backend of the commands
    abbrev folder_client : StorageClient D
    folder_client = record {
      snapshot = snapshot;
      upload_file = upload_file;
      download_file = download_file;
      remove = remove;
      mkdir_p = mkdir_p;
    }

    -- StorageClient::connect, with the connection to a daemon as an argument
    unfoldable pub connect : Io D (StorageClient D) → StorageBackend → Io D (StorageClient D)
    unfolding backend_label snapshot upload_file download_file remove mkdir_p
    connect to_daemon daemon = to_daemon
    connect to_daemon icloud = do disk.create_dir_all root; pure folder_client
    connect to_daemon gdrive = do disk.create_dir_all root; pure folder_client
    connect to_daemon backend = fail (
        config (
          codes "backend "
          ++ (backend_label backend ++ codes " is config-ready but not implemented yet")))
