-- ===== src/Daemon/Requests.antt =====
-- src/daemon.rs: the arms of handle_request that read and write files. Sums of u64 are taken not to
-- overflow.
use mobfs.Base.{
  ℕ, ◌+◌, ◌*◌, ◌==◌, min, Bool, false, ◌||◌, not, Option, none, some, List, [], ◌∷◌, ◌++◌, ltb,
  if◌then◌else◌, length,
}
use mobfs.Base.Str.{Str}
use mobfs.Base.Int.{ℤ, pos, negsuc}
use mobfs.Error.{Result, ok, err, io, not_found}
use mobfs.Paths.{FilePath, safe_join, normal}
use mobfs.Snapshot.{EntryMeta, file, dir, symlink, kind_eq}
use mobfs.Protocol.{Bytes, Response, write, replaced}
use mobfs.Disk.{
  Io, Disk, Metadata, FileType, is_symlink, is_dir, is_file, is_other, ◌>>=◌, ◌>>◌, pure, lift,
}
use mobfs.Daemon.{RootPolicy, parent, upload_temp_path, atomic_temp_path, check_root}

abbrev max_chunk : ℕ
max_chunk = 1024 * 1024

abbrev entry_of : Metadata → EntryMeta
entry_of m = record {
  kind = file;
  size = m.len;
  modified = m.modified;
  sha256 = none;
  mode = m.mode;
  link_target = none;
}

abbrev is_positive : ℤ → Bool
is_positive (pos n) = ltb 0 n
is_positive (negsuc n) = false

module _ {D : Type 0} (disk : Disk D) where
  unfoldable pub set_mode : FilePath → ℕ → Io D Unit
  set_mode path mode = if mode == 0 then pure tt else disk.set_mode path mode

  unfoldable pub set_mtime : FilePath → ℤ → Io D Unit
  set_mtime path modified = if is_positive modified then disk.set_mtime path modified else pure tt

  abbrev link_entry : Metadata → Result Str → Result (Option EntryMeta)
  link_entry m (err e) = err e
  link_entry m (ok target) = ok (
      some
        (record (entry_of m) { kind = symlink; size = length target; link_target = some target }))

  abbrev typed_entry : FilePath → D → Metadata → FileType → Result (Option EntryMeta)
  typed_entry path d m is_symlink = link_entry m (disk.read_link path d)
  typed_entry path d m is_dir = ok (some (record (entry_of m) { kind = dir; size = 0 }))
  typed_entry path d m is_file = ok (some (entry_of m))
  typed_entry path d m is_other = ok none

  abbrev found_entry : FilePath → D → Result Metadata → Result (Option EntryMeta)
  found_entry path d (ok m) = typed_entry path d m m.file_type
  found_entry path d (err (io not_found)) = ok none
  found_entry path d (err e) = err e

  -- The error of a name that is no text is among those of `read_link`.
  unfoldable pub entry_meta_fast : FilePath → Io D (Option EntryMeta)
  entry_meta_fast path = λ d. (found_entry path d (disk.symlink_metadata path d), d)

  abbrev pub make_dir : Option FilePath → Io D Unit
  make_dir none = pure tt
  make_dir (some p) = disk.create_dir_all p

  abbrev pub make_parent : FilePath → Io D Unit
  make_parent path = make_dir (parent path)

  abbrev with_entry : Str → Option EntryMeta → List (Str × EntryMeta) → List (Str × EntryMeta)
  with_entry name none entries = entries
  with_entry name (some meta) entries = (name, meta) ∷ entries

  list_entries : FilePath → List Str → Io D (List (Str × EntryMeta))
  list_entries path [] = pure []
  list_entries path (name ∷ names) =
      let later = list_entries path names in
      do
        meta ← entry_meta_fast (path ++ (normal name ∷ []))
        rest ← later
        pure (with_entry name meta rest)

  unfoldable pub handle_list_dir : RootPolicy → Str → Str → Io D Response
  unfolding list_entries entry_meta_fast
  handle_list_dir policy root rel = do
    root ← check_root disk policy root
    path ← lift (safe_join root rel)
    names ← disk.read_dir path
    entries ← list_entries path names
    pure (Response.dir_entries entries)

  unfoldable pub handle_read_file_chunk : RootPolicy → Str → Str → ℕ → ℕ → Io D Response
  handle_read_file_chunk policy root rel offset len = do
    root ← check_root disk policy root
    path ← lift (safe_join root rel)
    bytes ← disk.read_from path offset (min len max_chunk)
    pure (Response.file_chunk bytes (length bytes == 0 || ltb (length bytes) (min len max_chunk)))

  -- what one name of `ReadSmallFiles` asks for: to go on without it, to stop, or to read
  pub data Step : Type 0 where
    skip stop : Step
    take_file : ℕ → Step

  abbrev small_step : ℕ → ℕ → ℕ → Option EntryMeta → Step
  small_step max_file max_total total none = skip
  small_step max_file max_total total (some meta) =
      if not (kind_eq meta.kind file) || ltb max_file meta.size
      then skip
      else if ltb max_total (total + meta.size)
      then stop
      else take_file (total + meta.size)

  abbrev small_next :
      FilePath → Str → (ℕ → Io D (List (Str × Bytes))) → ℕ → Step → Io D (List (Str × Bytes))
  small_next path rel later total skip = later total
  small_next path rel later total stop = pure []
  small_next path rel later total (take_file next) = do
    bytes ← disk.read path
    rest ← later next
    pure ((rel, bytes) ∷ rest)

  small_files : FilePath → ℕ → ℕ → List Str → ℕ → Io D (List (Str × Bytes))
  small_files root max_file max_total [] total = pure []
  small_files root max_file max_total (rel ∷ rels) total = do
    path ← lift (safe_join root rel)
    meta ← entry_meta_fast path
    small_next path rel (small_files root max_file max_total rels) total
        (small_step max_file max_total total meta)

  unfoldable pub handle_read_small_files : RootPolicy → Str → List Str → ℕ → ℕ → Io D Response
  unfolding small_files entry_meta_fast
  handle_read_small_files policy root rels max_file max_total = do
    root ← check_root disk policy root
    files ← small_files root max_file max_total rels 0
    pure (Response.small_files files)

  unfoldable pub handle_write_file : RootPolicy → ℕ → Str → Str → Bytes → ℕ → Io D Response
  unfolding set_mode
  handle_write_file policy origin root rel bytes mode = do
    root ← check_root disk policy root
    path ← lift (safe_join root rel)
    make_parent path
    disk.create (atomic_temp_path disk path) bytes
    set_mode (atomic_temp_path disk path) mode
    disk.rename (atomic_temp_path disk path) path
    disk.record_change root origin rel replaced
    pure Response.ok

  unfoldable pub handle_write_file_start : RootPolicy → Str → Str → Str → Io D Response
  handle_write_file_start policy root rel upload_id = do
    root ← check_root disk policy root
    path ← lift (safe_join root rel)
    make_parent path
    temp ← lift (upload_temp_path path upload_id)
    λ d. (if disk.exists temp d then pure tt else disk.create temp []) d
    pure Response.ok

  unfoldable pub handle_write_file_chunk : RootPolicy → Str → Str → Str → ℕ → Bytes → Io D Response
  handle_write_file_chunk policy root rel upload_id offset bytes = do
    root ← check_root disk policy root
    path ← lift (safe_join root rel)
    temp ← lift (upload_temp_path path upload_id)
    disk.overwrite_at temp offset bytes
    pure Response.ok

  abbrev size_or_zero : Result Metadata → ℕ
  size_or_zero (ok m) = m.len
  size_or_zero (err e) = 0

  unfoldable pub handle_write_file_offset : RootPolicy → Str → Str → Str → Io D Response
  handle_write_file_offset policy root rel upload_id = do
    root ← check_root disk policy root
    path ← lift (safe_join root rel)
    temp ← lift (upload_temp_path path upload_id)
    λ d. (ok (Response.file_offset (size_or_zero (disk.file_metadata temp d))), d)

  unfoldable pub handle_write_file_at : RootPolicy → ℕ → Str → Str → ℕ → Bytes → Io D Response
  handle_write_file_at policy origin root rel offset bytes = do
    root ← check_root disk policy root
    path ← lift (safe_join root rel)
    make_parent path
    disk.write_at path offset bytes
    disk.record_change root origin rel (write offset (length bytes))
    pure Response.ok

  -- handle_write_file_at_bytes, which reports no change
  unfoldable pub handle_write_file_at_bytes : RootPolicy → Str → Str → ℕ → Bytes → Io D Unit
  handle_write_file_at_bytes policy root rel offset bytes = do
    root ← check_root disk policy root
    path ← lift (safe_join root rel)
    make_parent path
    disk.write_at path offset bytes
